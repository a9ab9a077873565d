-- ===== src/Malloc/Tests.antt =====
-- A concrete allocator, and the theorems of malloc-bind applied to it.
use allocators_rs.Base.{
  ℕ, ◌%◌, ◌≡◌, ◌≢◌, refl, sym, ap, ◌∙◌, inl, Bool, true, false, Option, some, none, arith, ◌==◌,
  ==_iff, if◌then◌else◌, Returns, ℕ_discrete, ==_ne,
}
use allocators_rs.Slab.Layout.{MemLayout}
use allocators_rs.Malloc.Interface.{
  AllocResult, ok, exhausted, Allocator, Allocated, Resized, Blocks,
}
use allocators_rs.Malloc.Round.{Rounded, roundup-Rounded}
use allocators_rs.Malloc
use allocators_rs.Malloc.{Heap, untouched, roundup}
use allocators_rs.Malloc.Calls.{Agrees, c_free-block}
use allocators_rs.Malloc.Posix
use allocators_rs.Malloc.Resize

-- One block, at 4096.
abbrev blocks : Option MemLayout → Blocks
blocks s q = if q == 4096 then s else none

give : Option MemLayout → MemLayout → Bool → AllocResult × Option MemLayout
give s l true = (ok 4096, some l)
give s l false = (exhausted, s)

alloc : Option MemLayout → MemLayout → AllocResult × Option MemLayout
unfolding give
alloc none l = give none l (4096 % l.align == 0)
alloc (some held) l = (exhausted, some held)

give_lem :
    (l : MemLayout) (b : Bool)
    → b ≡ (4096 % l.align == 0)
    → Allocated (blocks none) (blocks (give none l b).1) l (give none l b).0
unfolding give
give_lem l true e = (
  omega arith,
  (==_iff (4096 % l.align) 0).0 (sym e),
  refl,
  refl,
  λ q ne. rw (==_ne q 4096 ne) refl,
)
give_lem l false e = λ q. refl

alloc_lem :
    (s : Option MemLayout) (l : MemLayout)
    → Allocated (blocks s) (blocks (alloc s l).1) l (alloc s l).0
unfolding alloc
alloc_lem none l = give_lem l (4096 % l.align == 0) refl
alloc_lem (some held) l = λ q. refl

at_block : (s : Option MemLayout) (p : ℕ) (l : MemLayout) → blocks s p ≡ some l → p ≡ 4096
at_block s p l e = elim (ℕ_discrete p 4096) [
  | yes same ↦ same
  | no ne ↦
      absurd (cc (e, ap {B = Option MemLayout} (λ b. if b then s else none) (==_ne p 4096 ne)))
]

resize_lem :
    (s : Option MemLayout) (p : ℕ) (new : MemLayout) (b : Bool)
    → b ≡ (4096 % new.align == 0)
    → p ≡ 4096
    → Resized (blocks s) (blocks (give s new b).1) p new (give s new b).0
unfolding give
resize_lem s p new true e at = (
  omega arith,
  (==_iff (4096 % new.align) 0).0 (sym e),
  inl (sym at),
  refl,
  λ y ne ne'. rw (==_ne y 4096 ne') refl,
)
resize_lem s p new false e at = λ q. refl

abbrev one_block : Allocator
one_block = record {
  State = Option MemLayout;
  blocks = blocks;
  alloc = alloc;
  alloc_zeroed = alloc;
  dealloc = λ s p l. none;
  realloc = λ s p l new. give s new (4096 % new.align == 0);
  alloc_lem = alloc_lem;
  alloc_zeroed_lem = alloc_lem;
  dealloc_lem = λ s p l e. (
    rw (at_block s p l e) refl,
    λ q ne. rw (==_ne q 4096 (λ at. ne (at ∙ sym (at_block s p l e)))) (ground arith),
  );
  realloc_lem = λ s p l new e. resize_lem s p new (4096 % new.align == 0) refl (at_block s p l e);
}

abbrev empty : Heap one_block
empty = record { heap = none; layouts = λ p. none; errno = untouched }

abbrev small : MemLayout
small = record { size = 16; align = 8 }

abbrev held : Heap one_block
held = record { heap = some small; layouts = blocks (some small); errno = untouched }

held-Agrees : Agrees held
held-Agrees p = refl

c_free-block_example :
    Returns
      (λ k.
        Agrees k
        × (blocks k.heap 4096 ≡ none)
        × ((q : ℕ) → q ≢ 4096 → blocks k.heap q ≡ blocks held.heap q))
      (Malloc.c_free held 4096)
c_free-block_example = c_free-block held 4096 small held-Agrees (omega arith) refl

roundup-Rounded_example : Rounded 100 64 (roundup 100 64)
roundup-Rounded_example = roundup-Rounded 100 64 (omega arith) (omega arith)
