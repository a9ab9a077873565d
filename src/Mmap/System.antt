-- ===== src/Mmap/System.antt =====
-- The system calls that mmap-alloc/src/lib.rs makes on Linux, as their manual pages document them:
-- which mappings there are, each with its number of pages. Lengths are rounded up to whole pages by
-- the system.
use allocators_rs.Base.{
  ℕ, ◌+◌, ◌*◌, ◌/◌, ◌%◌, ◌^◌, ◌<◌, ◌≤◌, ◌≡◌, ◌≢◌, ◌⊎◌, Bool, true, Option, some, none, ◌==◌,
  if◌then◌else◌,
}
use allocators_rs.Base.Words.{usize_mod}

-- What `mmap` and `mremap` return: an address, `ENOMEM`, or another error.
pub data Mapping : Type 0 where
  mapped : ℕ → Mapping
  no_memory : Mapping
  failed : Mapping

abbrev pub Regions : Type 0
Regions = ℕ → Option ℕ

unfoldable pub pages : ℕ → ℕ → ℕ
pages pagesize n = n / pagesize + (if n % pagesize == 0 then 0 else 1)

-- A new mapping of `k` pages, aligned to a page.
abbrev pub Mapped : ℕ → Regions → Regions → ℕ → Mapping → Type 0
Mapped pagesize f g k (mapped p) =
    (0 < p)
    × (p % pagesize ≡ 0)
    × (p + k * pagesize ≤ usize_mod)
    × (f p ≡ none)
    × (g p ≡ some k)
    × ((q : ℕ) → q ≢ p → g q ≡ f q)
Mapped pagesize f g k no_memory = (q : ℕ) → g q ≡ f q
Mapped pagesize f g k failed = k ≡ 0

-- A mapping at `p` resized to `k` pages: it stays, or moves where it may.
abbrev pub Remapped : ℕ → Regions → Regions → ℕ → ℕ → Bool → Mapping → Type 0
Remapped pagesize f g p k may_move (mapped q) =
    (0 < q)
    × (q % pagesize ≡ 0)
    × ((q ≡ p) ⊎ ((may_move ≡ true) × (q ≢ p) × (f q ≡ none) × (g p ≡ none)))
    × (g q ≡ some k)
    × ((y : ℕ) → y ≢ p → y ≢ q → g y ≡ f y)
Remapped pagesize f g p k may_move no_memory = (q : ℕ) → g q ≡ f q
Remapped pagesize f g p k may_move failed = k ≡ 0

-- `munmap` returns whether it succeeded.
pub record Os : Type 1 where
  pub State : Type 0
  pub regions : State → Regions
  pub log_pagesize : ℕ
  pub prot_none : ℕ
  pub prot_read : ℕ
  pub prot_write : ℕ
  pub prot_exec : ℕ
  pub mmap : State → (size perms : ℕ) → (populate : Bool) → Mapping × State
  pub munmap : State → (ptr size : ℕ) → Bool × State
  pub mremap : State → (ptr old_size new_size : ℕ) → (may_move : Bool) → Mapping × State
  pub log_pagesize-lt : log_pagesize < 63
  pub mmap_lem :
      (s : State) (size perms : ℕ) (populate : Bool)
      → Mapped
          (2 ^ log_pagesize)
          (regions s)
          (regions (mmap s size perms populate).1)
          (pages (2 ^ log_pagesize) size)
          (mmap s size perms populate).0
  pub munmap_lem :
      (s : State) (p size : ℕ)
      → regions s p ≡ some (pages (2 ^ log_pagesize) size)
      → ((munmap s p size).0 ≡ true)
        × (regions (munmap s p size).1 p ≡ none)
        × ((q : ℕ) → q ≢ p → regions (munmap s p size).1 q ≡ regions s q)
  pub mremap_lem :
      (s : State) (p old_size new_size : ℕ) (may_move : Bool)
      → regions s p ≡ some (pages (2 ^ log_pagesize) old_size)
      → Remapped
          (2 ^ log_pagesize)
          (regions s)
          (regions (mremap s p old_size new_size may_move).1)
          p
          (pages (2 ^ log_pagesize) new_size)
          may_move
          (mremap s p old_size new_size may_move).0
