-- ===== src/Malloc/Aligned.antt =====
-- What `aligned_alloc`, `valloc` and `pvalloc` do to the blocks and to the table of layouts.
use allocators_rs.Base.{ℕ, ◌+◌, ◌<◌, refl, inl, inr, returns, ==_ne, ℕ_discrete}
use allocators_rs.Base.Words.{usize_mod}
use allocators_rs.Malloc.Interface.{Allocator}
use allocators_rs.Malloc.Round.{roundup-Rounded}
use allocators_rs.Malloc
use allocators_rs.Malloc.{Heap, finish, roundup, layout_from_size_align}
use allocators_rs.Malloc.Calls.{Agrees, Served, finish-Served}

module _ {A : Allocator} where
  -- Likewise `valloc` and `pvalloc`, with the size of a page as the alignment.
  pub c_valloc-Served :
      (pagesize : ℕ) (h : Heap A) (size : ℕ)
      → 0 < pagesize
      → Agrees h
      → size + pagesize < usize_mod
      → Served h size pagesize
          (A.alloc h.heap (layout_from_size_align (roundup size pagesize) pagesize)).0
          (Malloc.c_valloc pagesize h size)
  unfolding Malloc.c_valloc layout_from_size_align
  c_valloc-Served pagesize h size pos agrees bound = elim (ℕ_discrete size 0) [
    | yes e ↦ rw (Malloc.c_valloc, e) (inr (returns (agrees, inl (refl, λ q. refl))))
    | no ne ↦
        let (whole, big, fits, near) = roundup-Rounded size pagesize pos bound in
        rw (Malloc.c_valloc, ==_ne size 0 ne)
          (finish-Served h _ size _ agrees fits (A.alloc_lem h.heap _))
  ]
