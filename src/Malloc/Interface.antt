-- ===== src/Malloc/Interface.antt =====
-- The trait `Alloc` of the standard library, which malloc-bind/src/lib.rs calls: what its
-- documentation states of the blocks that are allocated, each with its layout.
use allocators_rs.Base.{ℕ, ◌<◌, ◌%◌, ◌≡◌, ◌≢◌, ◌⊎◌, Option, some, none}
use allocators_rs.Slab.Layout.{MemLayout}

-- `Result<*mut u8, AllocErr>`.
pub data AllocResult : Type 0 where
  ok : ℕ → AllocResult
  exhausted : AllocResult
  unsupported : AllocResult

abbrev pub Blocks : Type 0
Blocks = ℕ → Option MemLayout

-- A success is a new block, aligned; an error changes nothing. An allocator may refuse any layout as
-- unsupported.
abbrev pub Allocated : Blocks → Blocks → MemLayout → AllocResult → Type 0
Allocated f g l (ok p) =
    (0 < p) × (p % l.align ≡ 0) × (f p ≡ none) × (g p ≡ some l) × ((q : ℕ) → q ≢ p → g q ≡ f q)
Allocated f g l exhausted = (q : ℕ) → g q ≡ f q
Allocated f g l unsupported = (q : ℕ) → g q ≡ f q

-- A block that is resized stays where it is, or the old one goes and a new one comes.
abbrev pub Moved : Blocks → Blocks → ℕ → ℕ → Type 0
Moved f g p q = (q ≡ p) ⊎ ((q ≢ p) × (f q ≡ none) × (g p ≡ none))

abbrev pub Resized : Blocks → Blocks → ℕ → MemLayout → AllocResult → Type 0
Resized f g p l (ok q) =
    (0 < q)
    × (q % l.align ≡ 0)
    × Moved f g p q
    × (g q ≡ some l)
    × ((y : ℕ) → y ≢ p → y ≢ q → g y ≡ f y)
Resized f g p l exhausted = (q : ℕ) → g q ≡ f q
Resized f g p l unsupported = (q : ℕ) → g q ≡ f q

pub record Allocator : Type 1 where
  pub State : Type 0
  pub blocks : State → Blocks
  pub alloc : State → MemLayout → AllocResult × State
  pub alloc_zeroed : State → MemLayout → AllocResult × State
  pub dealloc : State → ℕ → MemLayout → State
  pub realloc : State → ℕ → MemLayout → MemLayout → AllocResult × State
  pub alloc_lem :
      (s : State) (l : MemLayout) → Allocated (blocks s) (blocks (alloc s l).1) l (alloc s l).0
  pub alloc_zeroed_lem :
      (s : State) (l : MemLayout)
      → Allocated (blocks s) (blocks (alloc_zeroed s l).1) l (alloc_zeroed s l).0
  pub dealloc_lem :
      (s : State) (p : ℕ) (l : MemLayout)
      → blocks s p ≡ some l
      → (blocks (dealloc s p l) p ≡ none)
        × ((q : ℕ) → q ≢ p → blocks (dealloc s p l) q ≡ blocks s q)
  pub realloc_lem :
      (s : State) (p : ℕ) (l new : MemLayout)
      → blocks s p ≡ some l
      → Resized (blocks s) (blocks (realloc s p l new).1) p new (realloc s p l new).0
