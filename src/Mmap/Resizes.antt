-- ===== src/Mmap/Resizes.antt =====
-- What `realloc` and `resize_in_place` of mmap-alloc/src/lib.rs do to the mappings.
use native.Mathlib.Nat.{one-le-pow}
use allocators_rs.Base.{
  ℕ, ◌+◌, ◌^◌, ◌<◌, ◌≤◌, ◌≡◌, ◌≢◌, ◌⊎◌, refl, sym, ap, subst, ◌∙◌, arith, Bool, true, false, some,
  none, Returns, returns, ltb, ◌==◌, ==_ne, ==_iff, Bool-cases, inl, inr, ltb→lt,
}
use allocators_rs.Base.Words.{usize_mod}
use allocators_rs.Slab.Layout.{MemLayout}
use allocators_rs.Malloc.Interface.{AllocResult, ok, exhausted, unsupported}
use allocators_rs.Mmap
use allocators_rs.Mmap.{MapAlloc, remapping, remap, ok_or_exhausted, ok_or_cannot, next_multiple}
use allocators_rs.Mmap.System.{Os, Mapping, mapped, no_memory, failed, pages, Remapped}
use allocators_rs.Mmap.Pages.{next_multiple-pages, pages-whole, pages-pos}
use allocators_rs.Mmap.Requests.{Paged, Sizable}

-- The mapping at `p` has the pages of the layout, and nothing else changes but where it is.
abbrev pub Resized : (O : Os) → O.State → ℕ → MemLayout → Bool → ℕ → O.State → Type 0
Resized O s p new may_move q t =
    (new.align ≤ 2 ^ O.log_pagesize)
    × (O.regions t q ≡ some (pages (2 ^ O.log_pagesize) new.size))
    × ((q ≡ p) ⊎ ((may_move ≡ true) × (q ≢ p) × (O.regions s q ≡ none) × (O.regions t p ≡ none)))
    × ((y : ℕ) → y ≢ p → y ≢ q → O.regions t y ≡ O.regions s y)

abbrev pub Realloced : (O : Os) → O.State → ℕ → MemLayout → AllocResult × O.State → Type 0
Realloced O s p new (ok q, t) = Resized O s p new true q t
Realloced O s p new (exhausted, t) =
    (new.align ≤ 2 ^ O.log_pagesize) × ((q : ℕ) → O.regions t q ≡ O.regions s q)
Realloced O s p new (unsupported, t) = (2 ^ O.log_pagesize < new.align) × (t ≡ s)

-- The same for `resize_in_place`: `true` is a success.
abbrev pub ResizedInPlace : (O : Os) → O.State → ℕ → MemLayout → Bool × O.State → Type 0
ResizedInPlace O s p new (true, t) = Resized O s p new false p t
ResizedInPlace O s p new (false, t) = (q : ℕ) → O.regions t q ≡ O.regions s q

module _ (O : Os) where
  remapping-Realloced :
      (s : O.State) (p : ℕ) (new : MemLayout) (r : Mapping × O.State)
      → 0 < p
      → new.align ≤ 2 ^ O.log_pagesize
      → 0 < pages (2 ^ O.log_pagesize) new.size
      → Remapped
          (2 ^ O.log_pagesize)
          (O.regions s)
          (O.regions r.1)
          p
          (pages (2 ^ O.log_pagesize) new.size)
          true
          r.0
      → Returns (Realloced O s p new) (ok_or_exhausted O (remapping O p r))
  unfolding remapping ok_or_exhausted
  remapping-Realloced s p new (mapped q, t) there fits pos (positive, whole, place, has, kept) =
      rw (remapping, ==_ne p 0 (λ z. omega arith)) (returns (fits, has, place, kept))
  remapping-Realloced s p new (no_memory, t) there fits pos h = returns (fits, h)
  remapping-Realloced s p new (failed, t) there fits pos h = absurd (omega arith)

  remapping-ResizedInPlace :
      (s : O.State) (p : ℕ) (new : MemLayout) (r : Mapping × O.State)
      → 0 < p
      → new.align ≤ 2 ^ O.log_pagesize
      → 0 < pages (2 ^ O.log_pagesize) new.size
      → Remapped
          (2 ^ O.log_pagesize)
          (O.regions s)
          (O.regions r.1)
          p
          (pages (2 ^ O.log_pagesize) new.size)
          false
          r.0
      → Returns (ResizedInPlace O s p new) (ok_or_cannot O (remapping O p r))
  unfolding remapping ok_or_cannot
  remapping-ResizedInPlace s p new (mapped q, t) there fits pos
        (positive, whole, inl e, has, kept) =
      rw (remapping, ==_ne p 0 (λ z. omega arith))
        (returns (
          fits,
          subst (λ y. O.regions t y ≡ some (pages (2 ^ O.log_pagesize) new.size)) e has,
          inl refl,
          λ y ne ne'. kept y ne (λ at. ne (at ∙ e)),
        ))
  remapping-ResizedInPlace s p new (mapped q, t) there fits pos
        (positive, whole, inr (never, apart, free, gone), has, kept) =
      absurd (ground (arith, never))
  remapping-ResizedInPlace s p new (no_memory, t) there fits pos h = returns h
  remapping-ResizedInPlace s p new (failed, t) there fits pos h = absurd (omega arith)

  -- Two sizes that round up to the same multiple take the same pages.
  same_pages :
      (a b : ℕ)
      → a + 2 ^ O.log_pagesize < usize_mod
      → b + 2 ^ O.log_pagesize < usize_mod
      → next_multiple a (2 ^ O.log_pagesize) ≡ next_multiple b (2 ^ O.log_pagesize)
      → pages (2 ^ O.log_pagesize) a ≡ pages (2 ^ O.log_pagesize) b
  same_pages a b ha hb e =
      let p = 2 ^ O.log_pagesize in
      let pos : 0 < p = one-le-pow O.log_pagesize 2 (omega arith) in
      sym (pages-whole p a pos)
      ∙ ap (pages p) (sym (next_multiple-pages p a pos ha) ∙ e ∙ next_multiple-pages p b pos hb)
      ∙ pages-whole p b pos

  old_held :
      (s : O.State) (p : ℕ) (l : MemLayout)
      → O.regions s p ≡ some (pages (2 ^ O.log_pagesize) l.size)
      → 0 < 2 ^ O.log_pagesize
      → l.size + 2 ^ O.log_pagesize < usize_mod
      → O.regions s p
        ≡ some (pages (2 ^ O.log_pagesize) (next_multiple l.size (2 ^ O.log_pagesize)))
  old_held s p l held pos bound =
      let b = 2 ^ O.log_pagesize in
      held
      ∙ ap some
          (sym (ap (pages b) (next_multiple-pages b l.size pos bound) ∙ pages-whole b l.size pos))

  -- `realloc` of a mapping to a layout of some size whose rounding up does not overflow returns without
  -- a panic. It refuses exactly an alignment larger than a page, and then does nothing. Otherwise the
  -- mapping that it returns has as many pages as cover the new size, where it was or at an address where
  -- nothing was mapped, the old mapping then being gone, and the other mappings stay; or memory is
  -- exhausted and the mappings are what they were.
  pub realloc-Realloced :
      (m : MapAlloc) (s : O.State) (p : ℕ) (l new : MemLayout)
      → Paged O m
      → 0 < p
      → Sizable O l.size
      → Sizable O new.size
      → O.regions s p ≡ some (pages (2 ^ O.log_pagesize) l.size)
      → Returns (Realloced O s p new) (Mmap.realloc O m s p l new)
  unfolding Mmap.realloc remap
  realloc-Realloced m s p l new paged there (sized, bound) (sized', bound') held =
      let b = 2 ^ O.log_pagesize in
      let pos : 0 < b = one-le-pow O.log_pagesize 2 (omega arith) in
      rw (Mmap.realloc, paged)
        (elim (Bool-cases (ltb b new.align)) [
          | inl more ↦ rw more (returns (ltb→lt b new.align more, refl))
          | inr less ↦ elim (Bool-cases (next_multiple l.size b == next_multiple new.size b)) [
            | inl same ↦
                rw (less, same)
                  (returns (
                    ground arith,
                    held ∙ ap some (same_pages l.size new.size bound bound' ((==_iff _ _).0 same)),
                    inl refl,
                    λ y ne ne'. refl,
                  ))
            | inr differ ↦
                rw (less, differ)
                  (remapping-Realloced s p new _ there (ground arith)
                    (pages-pos b new.size pos sized')
                    (O.mremap_lem s p (next_multiple l.size b) new.size true
                      (old_held s p l held pos bound)))
          ]
        ])

  -- `resize_in_place`, which `grow_in_place` and `shrink_in_place` are, of a mapping to a layout of
  -- some size whose rounding up does not overflow returns without a panic. If it succeeds, the mapping
  -- is where it was, has as many pages as cover the new size, and the other mappings stay; if it fails,
  -- the mappings are what they were.
  pub resize_in_place-ResizedInPlace :
      (m : MapAlloc) (s : O.State) (p : ℕ) (l new : MemLayout)
      → Paged O m
      → 0 < p
      → Sizable O l.size
      → Sizable O new.size
      → O.regions s p ≡ some (pages (2 ^ O.log_pagesize) l.size)
      → Returns (ResizedInPlace O s p new) (Mmap.resize_in_place O m s p l new)
  unfolding Mmap.resize_in_place remap
  resize_in_place-ResizedInPlace m s p l new paged there (sized, bound) (sized', bound') held =
      let b = 2 ^ O.log_pagesize in
      let pos : 0 < b = one-le-pow O.log_pagesize 2 (omega arith) in
      let rounded : pages b (next_multiple new.size b) ≡ pages b new.size =
        ap (pages b) (next_multiple-pages b new.size pos bound') ∙ pages-whole b new.size pos in
      rw (Mmap.resize_in_place, paged)
        (elim (Bool-cases (ltb b new.align)) [
          | inl more ↦ rw more (returns (λ q. refl))
          | inr less ↦ elim (Bool-cases (next_multiple l.size b == next_multiple new.size b)) [
            | inl same ↦
                rw (less, same)
                  (returns (
                    ground arith,
                    held ∙ ap some (same_pages l.size new.size bound bound' ((==_iff _ _).0 same)),
                    inl refl,
                    λ y ne ne'. refl,
                  ))
            | inr differ ↦
                rw (less, differ)
                  (remapping-ResizedInPlace s p new _ there (ground arith)
                    (pages-pos b new.size pos sized')
                    (subst
                      (λ k.
                        Remapped b (O.regions s)
                          (O.regions
                            (O.mremap s p (next_multiple l.size b) (next_multiple new.size b)
                              false).1)
                          p k false
                          (O.mremap s p (next_multiple l.size b) (next_multiple new.size b)
                            false).0)
                      rounded
                      (O.mremap_lem s p (next_multiple l.size b) (next_multiple new.size b) false
                        (old_held s p l held pos bound))))
          ]
        ])
