-- ===== src/Mmap/Requests.antt =====
-- What `alloc` and `dealloc` of mmap-alloc/src/lib.rs do to the mappings.
use native.Mathlib.Nat.{one-le-pow, mul-mod_left, pow-suc, pow-le-pow_right}
use allocators_rs.Base.{
  ℕ, suc, ◌+◌, ◌-◌, ◌*◌, ◌/◌, dec_lt, ◌%◌, ◌^◌, ◌<◌, ◌≤◌, ◌≡◌, ◌≢◌, refl, sym, ap, subst, ◌∙◌,
  arith, some, none, Returns, returns, ltb, ==_ne, Bool-cases, inl, inr, ltb→lt,
}
use allocators_rs.Base.Words.{usize_mod}
use allocators_rs.Base.Bits.{pow_split}
use allocators_rs.Slab.Layout.{MemLayout}
use allocators_rs.Malloc.Interface.{AllocResult, ok, exhausted, unsupported}
use allocators_rs.Mmap
use allocators_rs.Mmap.{MapAlloc, mapping, map, ok_or_exhausted, unmap, next_multiple}
use allocators_rs.Mmap.System.{Os, Mapping, mapped, no_memory, failed, pages, Mapped}
use allocators_rs.Mmap.Pages.{next_multiple-pages, pages-whole, pages-pos}

-- An allocator for the system's page size.
abbrev pub Paged : Os → MapAlloc → Type 0
Paged O m = m.pagesize ≡ 2 ^ O.log_pagesize

-- A size that is not zero and does not overflow when it is rounded up to whole pages.
abbrev pub Sizable : Os → ℕ → Type 0
Sizable O size = (0 < size) × (size + 2 ^ O.log_pagesize < usize_mod)

-- What a request for `l` may return: a new mapping of the pages of `l`, aligned for `l`.
abbrev pub Requested : (O : Os) → O.State → MemLayout → AllocResult × O.State → Type 0
Requested O s l (ok p, t) =
    (l.align ≤ 2 ^ O.log_pagesize)
    × (p % l.align ≡ 0)
    × Mapped (2 ^ O.log_pagesize) (O.regions s) (O.regions t) (pages (2 ^ O.log_pagesize) l.size)
        (mapped p)
Requested O s l (exhausted, t) =
    (l.align ≤ 2 ^ O.log_pagesize) × ((q : ℕ) → O.regions t q ≡ O.regions s q)
Requested O s l (unsupported, t) = (2 ^ O.log_pagesize < l.align) × (t ≡ s)

the_exponent : (a b : ℕ) → a ≤ b → b ≡ b - a + a
the_exponent a b h = omega arith

pub aligned_to_page : (a b p : ℕ) → 2 ^ a ≤ 2 ^ b → p % 2 ^ b ≡ 0 → p % 2 ^ a ≡ 0
aligned_to_page a b p h e = elim (dec_lt b a) [
  | yes more ↦
      let larger : 2 ^ suc b ≤ 2 ^ a =
        pow-le-pow_right {n = 2} (omega arith) {i = suc b} {j = a} (omega (arith, more)) in
      absurd (omega (arith, h, larger, pow-suc 2 b, one-le-pow b 2 (omega arith)))
  | no less ↦
      let split : 2 ^ b ≡ 2 ^ (b - a) * 2 ^ a =
        ap {B = ℕ} (λ t. 2 ^ t) (the_exponent a b (omega arith)) ∙ pow_split (b - a) a in
      let shape : p / 2 ^ b * 2 ^ b ≡ p = omega (arith, e) in
      subst (λ t. t % 2 ^ a ≡ 0)
        (sym (omega (arith, ap {B = ℕ} (λ t. p / 2 ^ b * t) split)) ∙ shape)
        (mul-mod_left (p / 2 ^ b * 2 ^ (b - a)) (2 ^ a))
]

module _ (O : Os) where
  mapping-Requested :
      (s : O.State) (l : MemLayout) (a : ℕ) (r : Mapping × O.State)
      → l.align ≡ 2 ^ a
      → l.align ≤ 2 ^ O.log_pagesize
      → 0 < pages (2 ^ O.log_pagesize) l.size
      → Mapped
          (2 ^ O.log_pagesize)
          (O.regions s)
          (O.regions r.1)
          (pages (2 ^ O.log_pagesize) l.size)
          r.0
      → Returns (Requested O s l) (ok_or_exhausted O (mapping O r))
  unfolding mapping ok_or_exhausted
  mapping-Requested s l a (mapped p, t) e fits pos (positive, whole, below, fresh, new, kept) =
      let aligned : p % l.align ≡ 0 =
        rw e (aligned_to_page a O.log_pagesize p (omega (arith, e, fits)) whole) in
      rw (mapping, ==_ne p 0 (λ z. omega arith))
        (returns (fits, aligned, (positive, whole, below, fresh, new, kept)))
  mapping-Requested s l a (no_memory, t) e fits pos h = returns (fits, h)
  mapping-Requested s l a (failed, t) e fits pos h = absurd (omega arith)

  -- For a layout of some size whose rounding up does not overflow and whose alignment is a power of
  -- two, `alloc` returns without a panic. It refuses the layout exactly if its alignment is larger than
  -- a page, and then does nothing. Otherwise it makes a new mapping of as many pages as cover the size,
  -- at an aligned address where nothing was mapped, and leaves the others, or memory is exhausted and
  -- the mappings are what they were.
  pub alloc-Requested :
      (m : MapAlloc) (s : O.State) (l : MemLayout) (a : ℕ)
      → Paged O m
      → Sizable O l.size
      → l.align ≡ 2 ^ a
      → Returns (Requested O s l) (Mmap.alloc O m s l)
  unfolding Mmap.alloc map
  alloc-Requested m s l a paged (sized, bound) e =
      let p = 2 ^ O.log_pagesize in
      let pos : 0 < p = one-le-pow O.log_pagesize 2 (omega arith) in
      rw (Mmap.alloc, paged)
        (elim (Bool-cases (ltb p l.align)) [
          | inl more ↦ rw more (returns (ltb→lt p l.align more, refl))
          | inr less ↦
              rw (less, next_multiple-pages p l.size pos bound)
                (mapping-Requested s l a _ e (ground arith) (pages-pos p l.size pos sized) (
                  subst
                    (λ k.
                      Mapped p (O.regions s)
                        (O.regions (O.mmap s (pages p l.size * p) m.perms m.commit).1) k
                        (O.mmap s (pages p l.size * p) m.perms m.commit).0)
                    (pages-whole p l.size pos)
                    (O.mmap_lem s (pages p l.size * p) m.perms m.commit)))
        ])

  -- `dealloc` of a mapping, with a layout that takes as many pages, unmaps it without a panic; the
  -- other mappings stay.
  pub dealloc-regions :
      (m : MapAlloc) (s : O.State) (p : ℕ) (l : MemLayout)
      → O.regions s p ≡ some (pages (2 ^ O.log_pagesize) l.size)
      → Returns
          (λ t. (O.regions t p ≡ none) × ((q : ℕ) → q ≢ p → O.regions t q ≡ O.regions s q))
          (Mmap.dealloc O m s p l)
  unfolding Mmap.dealloc unmap
  dealloc-regions m s p l e =
      let (success, gone, kept) = O.munmap_lem s p l.size e in
      rw (Mmap.dealloc, unmap, success) (returns (gone, kept))
