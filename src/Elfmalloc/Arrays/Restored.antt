-- ===== src/Elfmalloc/Arrays/Restored.antt =====
-- An array's mapping holds its elements, and is gone when the array is destroyed.
use native.Mathlib.Nat.{mod-eq_of_lt, one-le-pow, mul_comm}
use allocators_rs.Base.{
  ℕ, ◌+◌, ◌*◌, ◌/◌, ◌%◌, ◌^◌, ◌<◌, ◌≤◌, ◌≡◌, ◌≢◌, refl, sym, ap, subst, ◌∙◌, true, false, some,
  none, done, min, Returns, returns, Returns-map, arith, ==_ne, ltb, ℕ_discrete,
}
use allocators_rs.Base.Words.{usize_mod, mul_usize}
use allocators_rs.Malloc.Interface.{ok}
use allocators_rs.Mmap
use allocators_rs.Mmap.{MapAlloc, mapping, ok_or_exhausted, next_multiple}
use allocators_rs.Mmap.System.{Os, Mapping, mapped, Mapped, pages}
use allocators_rs.Mmap.Pages.{pages-bounds, pages-whole, next_multiple-pages, scale}
use allocators_rs.Mmap.Requests.{dealloc-regions}
use allocators_rs.Elfmalloc.Arrays
use allocators_rs.Elfmalloc.Arrays.{
  TypedArray, unaligned, exec_alloc, page_size, fallible_map, map, unmap, destroy, get, ok_or_none,
  expect, array_at,
}

-- The pages that `new` counts.
pages-min : (p n : ℕ) → n / p + min 1 (n % p) ≡ pages p n
unfolding pages
pages-min p n = elim (ℕ_discrete (n % p) 0) [
  | yes e ↦ rw (pages, e) refl
  | no ne ↦ rw (pages, ==_ne (n % p) 0 ne) (omega (arith, ne))
]

module _ (O : Os) where
  -- `MapAlloc` with every permission.
  unfoldable pub all_perms : MapAlloc
  all_perms = record {
    pagesize = 2 ^ O.log_pagesize;
    read = true;
    write = true;
    exec = true;
    perms = Mmap.get_perm O true true true;
    commit = false;
    obj_size = 2 ^ O.log_pagesize;
  }

  exec_alloc-all_perms : exec_alloc O ≡ done all_perms
  unfolding exec_alloc Mmap.build Mmap.default_builder all_perms
  exec_alloc-all_perms = refl

  mapping-mapped :
      (ptr : ℕ) (r : Mapping × O.State)
      → r.0 ≡ mapped ptr
      → 0 < ptr
      → ok_or_exhausted O (mapping O r) ≡ done (ok ptr, r.1)
  unfolding mapping ok_or_exhausted
  mapping-mapped ptr (x, t) e pos =
      subst (λ x. ok_or_exhausted O (mapping O (x, t)) ≡ done (ok ptr, t)) (sym e)
        (rw (mapping, ==_ne ptr 0 (λ z. omega (arith, z, pos))) refl)

  module _ (s : O.State) (k : ℕ) where
    -- The system call for `k` pages.
    abbrev pub request : Mapping × O.State
    request = O.mmap s (k * 2 ^ O.log_pagesize) (Mmap.get_perm O true true true) false

    fallible_map-request :
        (ptr : ℕ)
        → request.0 ≡ mapped ptr
        → 0 < ptr
        → next_multiple (k * 2 ^ O.log_pagesize) (2 ^ O.log_pagesize) ≡ k * 2 ^ O.log_pagesize
        → fallible_map O s (k * 2 ^ O.log_pagesize) ≡ done (some ptr, request.1)
    unfolding fallible_map Mmap.alloc Mmap.map all_perms ok_or_none
    fallible_map-request ptr e pos whole =
        let fits : ltb (2 ^ O.log_pagesize) 1 ≡ false =
          ground (arith, one-le-pow O.log_pagesize 2 (omega arith)) in
        rw
          (
            fallible_map,
            exec_alloc-all_perms,
            Mmap.alloc,
            fits,
            whole,
            mapping-mapped ptr request e pos,
          )
          refl

  -- What an array holds, in the state after it is made, and what is left when it is destroyed.
  abbrev pub Held : O.State → (size_of size : ℕ) → TypedArray × O.State → Type 0
  Held s size_of size (a, t) =
      (a.len ≡ size)
      × ((n : ℕ) → n < size → get size_of a n + size_of ≤ a.data_ptr + a.mapped)
      × (O.regions s a.data_ptr ≡ none)
      × (O.regions t a.data_ptr ≡ some (pages (2 ^ O.log_pagesize) a.mapped))
      × Returns (λ u. (q : ℕ) → O.regions u q ≡ O.regions s q) (destroy O t a)

  destroy-regions :
      (s t : O.State) (a : TypedArray)
      → O.regions s a.data_ptr ≡ none
      → O.regions t a.data_ptr ≡ some (pages (2 ^ O.log_pagesize) a.mapped)
      → ((q : ℕ) → q ≢ a.data_ptr → O.regions t q ≡ O.regions s q)
      → Returns (λ u. (q : ℕ) → O.regions u q ≡ O.regions s q) (destroy O t a)
  unfolding destroy unmap
  destroy-regions s t a fresh held kept =
      rw (destroy, unmap, exec_alloc-all_perms)
        (Returns-map
          (λ u after q. elim (ℕ_discrete q a.data_ptr) [
            | yes e ↦ ap (O.regions u) e ∙ after.0 ∙ sym (ap (O.regions s) e ∙ fresh)
            | no ne ↦ after.1 q ne ∙ kept q ne
          ])
          (dealloc-regions O all_perms t a.data_ptr (unaligned a.mapped) held))

  -- If the system has a mapping for the pages of `size` elements, which are of some size and do not
  -- overflow, then `new` returns, without a panic, an array of that length; every element lies in the
  -- mapping, which is new; and `destroy` unmaps it without a panic, so that the mappings are what they
  -- were.
  pub new-Held :
      (s : O.State) (size_of size ptr : ℕ)
      → 0 < size_of * size
      → size_of * size + 2 * 2 ^ O.log_pagesize < usize_mod
      → (request s (pages (2 ^ O.log_pagesize) (size_of * size))).0 ≡ mapped ptr
      → Returns (Held s size_of size) (Arrays.new O s size_of size)
  unfolding Arrays.new map expect array_at get page_size
  new-Held s size_of size ptr some_bytes bound e =
      let p = 2 ^ O.log_pagesize in
      let bytes = size_of * size in
      let k = pages p bytes in
      let pos : 0 < p = one-le-pow O.log_pagesize 2 (omega arith) in
      let (low, high) = pages-bounds p bytes pos in
      let law : Mapped p (O.regions s) (O.regions (request s k).1) (pages p (k * p)) (mapped ptr) =
        subst (Mapped p (O.regions s) (O.regions (request s k).1) (pages p (k * p))) e
          (O.mmap_lem s (k * p) (Mmap.get_perm O true true true) false) in
      let (there, aligned, below, fresh, held, kept) = law in
      let whole : next_multiple (k * p) p ≡ k * p =
        next_multiple-pages p (k * p) pos (omega (arith, bound, high))
        ∙ ap {B = ℕ} (λ j. j * p) (pages-whole p bytes pos) in
      let counted : mul_usize size_of size ≡ bytes = mod-eq_of_lt (omega (arith, bound)) in
      let region : mul_usize k p ≡ k * p = mod-eq_of_lt (omega (arith, bound, high)) in
      let a : TypedArray = record { data_ptr = ptr; len = size; mapped = k * p } in
      rw
        (
          Arrays.new,
          counted,
          pages-min p bytes,
          region,
          map,
          fallible_map-request s k ptr e there whole,
        )
        (returns (
          refl,
          λ n h. omega (arith, low, scale n size size_of h, mul_comm size size_of),
          fresh,
          held,
          destroy-regions s (request s k).1 a fresh held kept,
        ))
