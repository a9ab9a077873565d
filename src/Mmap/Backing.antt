-- ===== src/Mmap/Backing.antt =====
-- A MapAlloc whose objects are pages is a backing allocator for slabs of a page.
use native.Mathlib.Nat.{one-le-pow, pow-suc, pow-le-pow_right}
use allocators_rs.Base.{
  ℕ, suc, ◌+◌, ◌*◌, ◌%◌, ◌^◌, ◌<◌, ◌≤◌, ◌≡◌, ◌≢◌, sym, ap, subst, ◌∙◌, arith, Bool, true, false,
  not, ◌&&◌, ◌||◌, Option, some, none, Checked, done, panic, Returns, returns, ◌==◌, ==_ne, ==_self,
  ==_iff, ℕ_discrete,
}
use allocators_rs.Base.Words.{usize_mod}
use allocators_rs.Slab.Layout.{MemLayout}
use allocators_rs.Slab.Aligned.{Backing}
use allocators_rs.Malloc.Interface.{AllocResult, ok, exhausted, unsupported}
use allocators_rs.Mmap
use allocators_rs.Mmap.{MapAlloc, some_or_exhausted, alloc_object, dealloc_object}
use allocators_rs.Mmap.System.{Os, pages, Mapped, mapped}
use allocators_rs.Mmap.Pages.{pages_unique}
use allocators_rs.Mmap.Requests.{Paged, Sizable, Requested, alloc-Requested, dealloc-regions}

one_page : Option ℕ → Bool
one_page none = false
one_page (some k) = k == 1

one_page-some : (o : Option ℕ) → one_page o ≡ true → o ≡ some 1
unfolding one_page
one_page-some none e = absurd (ground (arith, e))
one_page-some (some k) e = ap some ((==_iff k 1).0 e)

module _ (O : Os) where
  -- The objects that are allocated: the mappings of one page.
  abbrev pub is_object : O.State → ℕ → Bool
  unfolding one_page
  is_object s y = one_page (O.regions s y)

  abbrev pub Block : O.State → Option ℕ × O.State → Type 0
  Block s (some x, t) =
      (is_object s x ≡ false)
      × (x % 2 ^ O.log_pagesize ≡ 0)
      × (0 < x)
      × (x + 2 ^ O.log_pagesize ≤ usize_mod)
      × ((y : ℕ) → is_object t y ≡ ((y == x) || is_object s y))
  Block s (none, t) = (y : ℕ) → is_object t y ≡ is_object s y

  a_page : 0 < 2 ^ O.log_pagesize → pages (2 ^ O.log_pagesize) (2 ^ O.log_pagesize) ≡ 1
  a_page pos =
      pages_unique (2 ^ O.log_pagesize) (2 ^ O.log_pagesize) 1 pos (omega arith) (omega arith)

  Requested-Block :
      (s : O.State) (l : MemLayout) (r : AllocResult × O.State)
      → l.size ≡ 2 ^ O.log_pagesize
      → l.align ≡ 2 ^ O.log_pagesize
      → Requested O s l r
      → Returns (Block s) (some_or_exhausted O (done r))
  unfolding some_or_exhausted one_page
  Requested-Block s l (ok x, t) size align (fits, aligned, (pos, whole, below, fresh, has, kept)) =
      let one : pages (2 ^ O.log_pagesize) l.size ≡ 1 =
        ap (pages (2 ^ O.log_pagesize)) size ∙ a_page (one-le-pow O.log_pagesize 2 (omega arith)) in
      returns (
        ap one_page fresh,
        whole,
        pos,
        omega (arith, below, ap {B = ℕ} (λ k. k * 2 ^ O.log_pagesize) one),
        λ y. elim (ℕ_discrete y x) [
          | yes e ↦
              ap (λ z. one_page (O.regions t z)) e
              ∙ ap one_page (has ∙ ap some one)
              ∙ sym (ap (λ b. b || is_object s y) (ap (λ z. z == x) e ∙ ==_self x))
          | no ne ↦ rw (==_ne y x ne) (ap one_page (kept y ne))
        ],
      )
  Requested-Block s l (exhausted, t) size align (fits, kept) = returns (λ y. ap one_page (kept y))
  Requested-Block s l (unsupported, t) size align (more, e) = absurd (omega arith)

  Returns-Block :
      (s : O.State) (l : MemLayout) (c : Checked (AllocResult × O.State))
      → l.size ≡ 2 ^ O.log_pagesize
      → l.align ≡ 2 ^ O.log_pagesize
      → Returns (Requested O s l) c
      → Returns (Block s) (some_or_exhausted O c)
  Returns-Block s l c size align (returns {a} h) = Requested-Block s l a size align h

  -- What is returned; there is no panic, as `alloc_object-Block` shows.
  abbrev pub or_none : O.State → Checked (Option ℕ × O.State) → Option ℕ × O.State
  or_none s (done r) = r
  or_none s panic = (none, s)

  abbrev pub or_same : O.State → Checked O.State → O.State
  or_same s (done t) = t
  or_same s panic = s

  or_none-Block :
      (s : O.State) (c : Checked (Option ℕ × O.State)) → Returns (Block s) c → Block s (or_none s c)
  or_none-Block s c (returns h) = h

  -- An object that is freed is no longer allocated, and the others still are.
  abbrev pub Gone : O.State → ℕ → O.State → Type 0
  Gone s x t = (y : ℕ) → is_object t y ≡ (not (y == x) && is_object s y)

  or_same-Gone :
      (s : O.State) (x : ℕ) (c : Checked O.State)
      → Returns (λ t. (O.regions t x ≡ none) × ((q : ℕ) → q ≢ x → O.regions t q ≡ O.regions s q)) c
      → Gone s x (or_same s c)
  unfolding one_page
  or_same-Gone s x c (returns {a} (gone, kept)) = λ y. elim (ℕ_discrete y x) [
    | yes e ↦
        ap (λ z. one_page (O.regions a z)) e
        ∙ ap one_page gone
        ∙ sym (ap (λ b. not b && is_object s y) (ap (λ z. z == x) e ∙ ==_self x))
    | no ne ↦ rw (==_ne y x ne) (ap one_page (kept y ne))
  ]

  module _ (m : MapAlloc) (paged : Paged O m) (whole : m.obj_size ≡ 2 ^ O.log_pagesize) where
    -- An allocator whose objects are pages never panics on a request for one: it returns a new page,
    -- aligned, or memory is exhausted and the pages are what they were.
    pub alloc_object-Block : (s : O.State) → Returns (Block s) (Mmap.alloc_object O m s)
    unfolding alloc_object Mmap.object_layout
    alloc_object-Block s =
        let below : 2 ^ suc O.log_pagesize ≤ 2 ^ 63 =
          pow-le-pow_right {n = 2} (omega arith) {i = suc O.log_pagesize} {j = 63}
            (O.log_pagesize-lt) in
        Returns-Block s (Mmap.object_layout O m) (Mmap.alloc O m s (Mmap.object_layout O m)) whole
          paged
          (alloc-Requested O m s (Mmap.object_layout O m) O.log_pagesize paged
            (
              omega (arith, whole, one-le-pow O.log_pagesize 2 (omega arith)),
              omega (arith, whole, below, pow-suc 2 O.log_pagesize),
            )
            paged)

    pub dealloc_object-Gone :
        (s : O.State) (x : ℕ)
        → is_object s x ≡ true
        → Gone s x (or_same s (Mmap.dealloc_object O m s x))
    unfolding dealloc_object Mmap.dealloc Mmap.object_layout one_page is_object
    dealloc_object-Gone s x on = or_same-Gone s x (Mmap.dealloc_object O m s x) (
        dealloc-regions O m s x (Mmap.object_layout O m) (
          one_page-some (O.regions s x) on
          ∙ ap some (
              sym (
                ap (pages (2 ^ O.log_pagesize)) whole
                ∙ a_page (one-le-pow O.log_pagesize 2 (omega arith))))))

    pub or_none-alloc_object : (s : O.State) → Block s (or_none s (Mmap.alloc_object O m s))
    or_none-alloc_object s = or_none-Block s (Mmap.alloc_object O m s) (alloc_object-Block s)

    -- The backing allocator of slabs of a page.
    unfoldable pub page_backing : Backing
    page_backing = record {
      State = O.State;
      log_size = O.log_pagesize;
      live = is_object;
      alloc = λ s. or_none s (Mmap.alloc_object O m s);
      dealloc = λ s x. or_same s (Mmap.dealloc_object O m s x);
      log_size-≤ = omega (arith, O.log_pagesize-lt);
      alloc_lem = λ s x e.
          subst (λ o. Block s (o, (or_none s (Mmap.alloc_object O m s)).1)) e
            (or_none-alloc_object s);
      alloc_none = λ s e.
          subst (λ o. Block s (o, (or_none s (Mmap.alloc_object O m s)).1)) e
            (or_none-alloc_object s);
      dealloc_lem = λ s x y on. dealloc_object-Gone s x on y;
    }

-- Where the objects of an allocator are pages: a new one is one page that was not mapped and is aligned,
-- and all other mappings stay; or memory is exhausted, and all stay.
abbrev pub NewPage : (O : Os) → O.State → Option ℕ × O.State → Type 0
NewPage O s (some x, t) = Mapped (2 ^ O.log_pagesize) (O.regions s) (O.regions t) 1 (mapped x)
NewPage O s (none, t) = (q : ℕ) → O.regions t q ≡ O.regions s q

-- The page at `x` is no longer mapped, and all other mappings stay.
abbrev pub PageGone : (O : Os) → O.State → ℕ → O.State → Type 0
PageGone O s x t = (O.regions t x ≡ none) × ((q : ℕ) → q ≢ x → O.regions t q ≡ O.regions s q)

module _ (O : Os) where
  Requested-NewPage :
      (s : O.State) (l : MemLayout) (r : AllocResult × O.State)
      → l.size ≡ 2 ^ O.log_pagesize
      → l.align ≡ 2 ^ O.log_pagesize
      → Requested O s l r
      → Returns (NewPage O s) (some_or_exhausted O (done r))
  unfolding some_or_exhausted
  Requested-NewPage s l (ok x, t) size align (fits, aligned, new) =
      let one : pages (2 ^ O.log_pagesize) l.size ≡ 1 =
        ap (pages (2 ^ O.log_pagesize)) size
        ∙ a_page O (one-le-pow O.log_pagesize 2 (omega arith)) in
      returns
        (subst (λ k. Mapped (2 ^ O.log_pagesize) (O.regions s) (O.regions t) k (mapped x)) one new)
  Requested-NewPage s l (exhausted, t) size align (fits, kept) = returns kept
  Requested-NewPage s l (unsupported, t) size align (more, e) = absurd (omega arith)

  Returns-NewPage :
      (s : O.State) (l : MemLayout) (c : Checked (AllocResult × O.State))
      → l.size ≡ 2 ^ O.log_pagesize
      → l.align ≡ 2 ^ O.log_pagesize
      → Returns (Requested O s l) c
      → Returns (NewPage O s) (some_or_exhausted O c)
  Returns-NewPage s l c size align (returns {a} h) = Requested-NewPage s l a size align h

  -- For a MapAlloc whose objects are pages: a request for an object does not panic, and returns a page
  -- where nothing was mapped before, aligned to its size, while all other mappings stay; or memory is
  -- exhausted and all mappings stay. Freeing an object that is mapped does not panic, and unmaps it and
  -- nothing else.
  pub alloc_object-NewPage :
      (m : MapAlloc) (s t : O.State) (x : ℕ)
      → Paged O m
      → m.obj_size ≡ 2 ^ O.log_pagesize
      → O.regions t x ≡ some 1
      → Returns (NewPage O s) (Mmap.alloc_object O m s)
        × Returns (PageGone O t x) (Mmap.dealloc_object O m t x)
  unfolding alloc_object Mmap.object_layout dealloc_object Mmap.dealloc
  alloc_object-NewPage m s t x paged whole there =
      let below : 2 ^ suc O.log_pagesize ≤ 2 ^ 63 =
        pow-le-pow_right {n = 2} (omega arith) {i = suc O.log_pagesize} {j = 63}
          (O.log_pagesize-lt) in
      let sizable : Sizable O m.obj_size = (
        omega (arith, whole, one-le-pow O.log_pagesize 2 (omega arith)),
        omega (arith, whole, below, pow-suc 2 O.log_pagesize),
      ) in
      (
        Returns-NewPage s (Mmap.object_layout O m) (Mmap.alloc O m s (Mmap.object_layout O m)) whole
            paged
            (alloc-Requested O m s (Mmap.object_layout O m) O.log_pagesize paged sizable paged),
        dealloc-regions O m t x (Mmap.object_layout O m) (
            there
            ∙ ap some (
                sym (
                  ap (pages (2 ^ O.log_pagesize)) whole
                  ∙ a_page O (one-le-pow O.log_pagesize 2 (omega arith))))),
      )
