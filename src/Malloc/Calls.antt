-- ===== src/Malloc/Calls.antt =====
-- What the calls of the C allocation API do to the blocks and to the table of layouts.
use allocators_rs.Base.{
  ℕ, ◌<◌, ◌≤◌, ◌%◌, ◌≡◌, ◌≢◌, ◌⊎◌, inl, inr, refl, sym, ◌∙◌, some, none, Returns, Checked, panic,
  returns, arith, ==_self, ==_ne, ℕ_discrete,
}
use allocators_rs.Slab.Layout.{MemLayout}
use allocators_rs.Malloc.Interface.{
  AllocResult, ok, exhausted, unsupported, Allocator, Allocated, Blocks,
}
use allocators_rs.Malloc
use allocators_rs.Malloc.{
  Heap, word_size, einval, enomem, untouched, insert_layout, delete_layout, finish,
}

-- The table has the layout of every block, and no other.
abbrev pub Agrees : {A : Malloc.Interface.Allocator} → Heap A → Type 0
Agrees {A} h = (p : ℕ) → h.layouts p ≡ A.blocks h.heap p

-- A new block at `p`, aligned, of at least the size asked for; other blocks are as they were.
abbrev pub Given : Blocks → Blocks → ℕ → ℕ → ℕ → Type 0
Given f g size align p =
    (0 < p)
    × (p % align ≡ 0)
    × (f p ≡ none)
    × ((l : MemLayout) × (g p ≡ some l) × (size ≤ l.size))
    × ((q : ℕ) → q ≢ p → g q ≡ f q)

abbrev pub Kept : Blocks → Blocks → Type 0
Kept f g = (q : ℕ) → g q ≡ f q

-- A new block, or null and no change.
abbrev pub Provided : {A : Allocator} → Heap A → ℕ → ℕ → ℕ × Heap A → Type 0
Provided {A} h size align (p, k) =
    Agrees k
    × (((p ≡ 0) × Kept (A.blocks h.heap) (A.blocks k.heap))
        ⊎ Given (A.blocks h.heap) (A.blocks k.heap) size align p)

-- An abort if the allocator refuses the layout as unsupported, and else what is provided.
abbrev pub Served : {A : Allocator} → Heap A → ℕ → ℕ → AllocResult → Checked (ℕ × Heap A) → Type 0
Served {A} h size align answer call =
    ((answer ≡ unsupported) × (call ≡ panic)) ⊎ Returns (Provided h size align) call

pub insert-Agrees :
    (t f g : Blocks) (p : ℕ) (l : MemLayout)
    → ((q : ℕ) → t q ≡ f q)
    → g p ≡ some l
    → ((q : ℕ) → q ≢ p → g q ≡ f q)
    → (q : ℕ) → insert_layout t p l q ≡ g q
unfolding insert_layout
insert-Agrees t f g p l same at others q = elim (ℕ_discrete q p) [
  | yes e ↦ rw (e, ==_self p) (sym at)
  | no ne ↦ rw (==_ne q p ne) (same q ∙ sym (others q ne))
]

pub delete-Agrees :
    (t f g : Blocks) (p : ℕ)
    → ((q : ℕ) → t q ≡ f q)
    → g p ≡ none
    → ((q : ℕ) → q ≢ p → g q ≡ f q)
    → (q : ℕ) → delete_layout t p q ≡ g q
unfolding delete_layout
delete-Agrees t f g p same at others q = elim (ℕ_discrete q p) [
  | yes e ↦ rw (e, ==_self p) (sym at)
  | no ne ↦ rw (==_ne q p ne) (same q ∙ sym (others q ne))
]

module _ {A : Allocator} where
  pub finish-Served :
      (h : Heap A) (l : MemLayout) (size : ℕ) (r : AllocResult × A.State)
      → Agrees h
      → size ≤ l.size
      → Allocated (A.blocks h.heap) (A.blocks r.1) l r.0
      → Served h size l.align r.0 (finish h l r)
  unfolding finish
  finish-Served h l size (ok p, s) agrees fits (pos, aligned, new, there, others) = inr (
      returns (
        insert-Agrees h.layouts (A.blocks h.heap) (A.blocks s) p l agrees there others,
        inr (pos, aligned, new, (l, there, fits), others),
      ))
  finish-Served h l size (exhausted, s) agrees fits same =
      inr (returns (λ p. agrees p ∙ sym (same p), inl (refl, same)))
  finish-Served h l size (unsupported, s) agrees fits same = inl (refl, refl)

  -- `free` of a block removes the block and its layout, and no other.
  pub c_free-block :
      (h : Heap A) (p : ℕ) (l : MemLayout)
      → Agrees h
      → 0 < p
      → A.blocks h.heap p ≡ some l
      → Returns
          (λ k.
            Agrees k
            × (A.blocks k.heap p ≡ none)
            × ((q : ℕ) → q ≢ p → A.blocks k.heap q ≡ A.blocks h.heap q))
          (Malloc.c_free h p)
  unfolding Malloc.c_free
  c_free-block h p l agrees pos there =
      let (gone, others) = A.dealloc_lem h.heap p l there in
      rw (Malloc.c_free, ==_ne p 0 (omega arith), agrees p, there)
        (returns (
          delete-Agrees h.layouts (A.blocks h.heap) (A.blocks (A.dealloc h.heap p l)) p agrees gone
              others,
          gone,
          others,
        ))
