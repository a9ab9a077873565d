-- ===== src/Slab/Sized/Relinked.antt =====
-- The slab of an object that comes back: where `dealloc` links it, and what that leaves as it was.
use allocators_rs.Base.{
  ℕ, ◌++◌, [], length-append, ◌<◌, ◌≤◌, ◌≡◌, refl, sym, ap, ◌∙◌, Bool, true, false, some, List, ◌∷◌,
  length, arith, ◌==◌,
}
use allocators_rs.Slab.Init.{InitSystem}
use allocators_rs.Slab.System.{has, SameBut, SlabSystem}
use allocators_rs.Slab.Sized
use allocators_rs.Slab.Sized.{
  SizedSlabAlloc, then_do, remove_back, remove, move_to_back, working_period_seconds,
}
use allocators_rs.Slab.Sized.Objects.{some_inj}
use allocators_rs.Slab.Sized.Moves.{owned_room}
use allocators_rs.Slab.Sized.Linked.{Linked}
use allocators_rs.Slab.Sized.Relink.{put_back, put_front, put_same, put_move}
use allocators_rs.Slab.Sized.Invariant.{Inv}
use allocators_rs.Slab.Sized.Counts.{Counted, keep-Counted, back-Counted, length-move_to_back}

module _ {I : InitSystem} (S : SlabSystem I) {Instant : Type 0} where
  -- The freed object's slab is in the right place, whatever it was before.
  module _ (a b : SizedSlabAlloc S Instant) (out : List ℕ) (p : ℕ) (ps : List ℕ) (inv : Inv S a out)
      (there : has p out ≡ true) (before : S.free a.slab_system (S.slab_of p) ≡ some ps)
      (after : S.free b.slab_system (S.slab_of p) ≡ some (p ∷ ps))
      (same : SameBut (S.slab_of p) (S.free a.slab_system) (S.free b.slab_system)) where
    room : length ps < S.capacity
    room =
        owned_room S.slab_of S.capacity (S.free a.slab_system) (S.free b.slab_system) out
          inv.objects p ps there before

    has_free : (qs : List ℕ) → S.free b.slab_system (S.slab_of p) ≡ some qs → 0 < length qs
    has_free qs e = omega (arith, ap length (some_inj (p ∷ ps) qs (sym after ∙ e)))

    pub relink-Linked :
        (was_empty full : Bool)
        → was_empty ≡ (length ps == 0)
        → full ≡ (length (p ∷ ps) == S.capacity)
        → b.freelist ≡ a.freelist
        → b.num_full ≡ a.num_full
        → let c = Sized.relink S was_empty full (S.slab_of p) b in
          Linked (S.free b.slab_system) S.capacity c.freelist c.num_full
    unfolding Sized.relink
    relink-Linked true true w f e n =
        rw (e, n)
          (put_back S.capacity_pos (S.free b.slab_system) (S.slab_of p) p ps same before after room
            inv.linked (ground arith) (ground arith))
    relink-Linked true false w f e n =
        rw (e, n)
          (put_front S.capacity_pos (S.free b.slab_system) (S.slab_of p) p ps same before after room
            inv.linked (ground arith) (ground arith))
    relink-Linked false true w f e n =
        rw (e, n)
          (put_move S.capacity_pos (S.free b.slab_system) (S.slab_of p) p ps same before after room
            inv.linked (ground arith) (ground arith))
    relink-Linked false false w f e n =
        rw (e, n)
          (put_same S.capacity_pos (S.free b.slab_system) (S.slab_of p) p ps same before after room
            inv.linked (ground arith) (ground arith))

    pub relink-Counted :
        (was_empty full : Bool)
        → was_empty ≡ (length ps == 0)
        → b.freelist ≡ a.freelist
        → b.total_slabs ≡ a.total_slabs
        → let c = Sized.relink S was_empty full (S.slab_of p) b in
          Counted (S.free b.slab_system) c.freelist c.total_slabs
    unfolding Sized.relink
    relink-Counted true true w e t =
        rw (e, t)
          (back-Counted (S.free b.slab_system) (S.slab_of p) same inv.counted
            (a.freelist ++ (S.slab_of p ∷ [])) ps before (ground arith) has_free
            (length-append a.freelist (S.slab_of p ∷ [])))
    relink-Counted true false w e t =
        rw (e, t)
          (back-Counted (S.free b.slab_system) (S.slab_of p) same inv.counted
            (S.slab_of p ∷ a.freelist) ps before (ground arith) has_free (omega arith))
    relink-Counted false true w e t =
        let there = inv.linked.linked (S.slab_of p) ps before (ground arith) in
        rw (e, t)
          (keep-Counted (S.free b.slab_system) (S.slab_of p) same inv.counted
            (move_to_back (S.slab_of p) a.freelist) a.total_slabs has_free
            (omega (arith, length-move_to_back (S.slab_of p) a.freelist there)))
    relink-Counted false false w e t =
        rw (e, t)
          (keep-Counted (S.free b.slab_system) (S.slab_of p) same inv.counted a.freelist
            a.total_slabs has_free refl)

  pub relink-fields :
      (was_empty full : Bool) (x : ℕ) (b : SizedSlabAlloc S Instant)
      → let c = Sized.relink S was_empty full x b in
        (c.slab_system ≡ b.slab_system)
        × (c.refcnt ≡ b.refcnt)
        × (c.full_slab_working_set ≡ b.full_slab_working_set)
        × (b.num_full ≤ c.num_full)
  unfolding Sized.relink
  relink-fields true true x b = (refl, refl, refl, omega arith)
  relink-fields true false x b = (refl, refl, refl, omega arith)
  relink-fields false true x b = (refl, refl, refl, omega arith)
  relink-fields false false x b = (refl, refl, refl, omega arith)
