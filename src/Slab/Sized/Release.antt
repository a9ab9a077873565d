-- ===== src/Slab/Sized/Release.antt =====
-- The invariant of `SizedSlabAlloc` when an object comes back, and when slabs are collected.
use allocators_rs.Base.{
  ℕ, zero, suc, ◌+◌, [], length-append, ◌-◌, ◌<◌, ◌≤◌, ◌≡◌, refl, sym, ap, subst, ◌∙◌, Bool, true,
  false, Option, some, none, List, ◌∷◌, length, arith, ◌==◌, if◌then◌else◌, Bool-cases, inl, inr,
  done, Returns, returns, leb,
}
use allocators_rs.Slab.Init.{InitSystem}
use allocators_rs.Slab.System.{has, SlabSystem}
use allocators_rs.Slab.WorkingSet
use allocators_rs.Slab.WorkingSet.{WorkingSet}
use allocators_rs.Slab.Sized
use allocators_rs.Slab.Sized.{
  SizedSlabAlloc, then_do, remove_back, remove, move_to_back, working_period_seconds,
}
use allocators_rs.Slab.Sized.Objects.{Objects, length-remove}
use allocators_rs.Slab.Sized.Moves.{put-Objects, shrink-Objects, owned_room}
use allocators_rs.Slab.Sized.Order.{Last, Order-Last}
use allocators_rs.Slab.Sized.Linked.{Linked, shrink-Linked}
use allocators_rs.Slab.Sized.Invariant.{Inv, Returns-then_do, decrement-pos}
use allocators_rs.Slab.Sized.Counts.{Counted, keep-Counted}
use allocators_rs.Slab.Sized.Relinked.{relink-Linked, relink-Counted, relink-fields}

module _ {I : InitSystem} (S : SlabSystem I) {Instant : Type 0} where
  -- The invariant but for the counter of clients and the watched minimum.
  pub record Slabs (a : SizedSlabAlloc S Instant) (out : List ℕ) : Type 0 where
    pub linked : Linked (S.free a.slab_system) S.capacity a.freelist a.num_full
    pub objects : Objects S.slab_of S.capacity (S.free a.slab_system) out
    pub counted : Counted (S.free a.slab_system) a.freelist a.total_slabs

  Last-full :
      (a : SizedSlabAlloc S Instant) (out : List ℕ) (n : ℕ)
      → Slabs a out
      → a.num_full ≡ suc n
      → Last (S.free a.slab_system) S.capacity a.freelist n
  Last-full a out n k count =
      Order-Last (subst (Linked (S.free a.slab_system) S.capacity a.freelist) count k.linked).order

  shrink-Slabs :
      (a b : SizedSlabAlloc S Instant) (out : List ℕ) (n : ℕ)
      → Slabs a out
      → a.num_full ≡ suc n
      → (last : Last (S.free a.slab_system) S.capacity a.freelist n) → b.freelist ≡ last.front
      → b.num_full ≡ n
      → b.total_slabs + 1 ≡ a.total_slabs
      → b.slab_system ≡ S.dealloc_slab a.slab_system last.slab
      → Slabs b out
  shrink-Slabs a b out n k count last e f t g =
      let s = a.slab_system in
      let full = last.full in
      let (gone, same) = S.dealloc_slab_lem s last.slab full.objects full.alive full.all in
      let after = S.free (S.dealloc_slab s last.slab) in
      record {
        linked =
            rw (e, f, g)
              (shrink-Linked S.capacity_pos after
                (subst (Linked (S.free s) S.capacity a.freelist) count k.linked) last same gone);
        objects = rw g (
            shrink-Objects S.slab_of S.capacity (S.free s) after out k.objects last.slab
              full.objects full.alive full.all gone same);
        counted =
            subst (λ v. Counted (S.free v) b.freelist b.total_slabs) (sym g)
              (keep-Counted after last.slab same k.counted b.freelist b.total_slabs
                (λ ps alive. absurd (cc (alive, gone)))
                (omega (
                  arith,
                  t,
                  ap length e,
                  ap length last.shape,
                  length-append last.front (last.slab ∷ []),
                )));
      }

  -- `n` full slabs can be freed while there are `n`; the counter of clients is not touched.
  pub free_back-Slabs :
      (n : ℕ) (a : SizedSlabAlloc S Instant) (out : List ℕ)
      → Slabs a out
      → n ≤ a.num_full
      → Returns (λ b. Slabs b out × (b.refcnt ≡ a.refcnt)) (Sized.free_back S n a)
  unfolding Sized.free_back
  free_back-Slabs zero a out k h = returns (k, refl)
  free_back-Slabs (suc n) a out k h =
      let count : a.num_full ≡ suc (a.num_full - 1) = omega (arith, h) in
      let last = Last-full a out (a.num_full - 1) k count in
      let some_slab : 0 < a.total_slabs =
        omega
          (arith, k.counted.sum, ap length last.shape, length-append last.front (last.slab ∷ [])) in
      rw
        (
          Sized.free_back,
          last.removed,
          decrement-pos a.total_slabs some_slab,
          decrement-pos a.num_full (omega (arith, h)),
        )
        (free_back-Slabs n
          (record a {
            freelist = last.front;
            total_slabs = a.total_slabs - 1;
            num_full = a.num_full - 1;
            slab_system = S.dealloc_slab a.slab_system last.slab;
          })
          out
          (shrink-Slabs a _ out (a.num_full - 1) k count last refl refl (omega (arith, some_slab))
            refl)
          (omega (arith, h)))

  -- What a collection leaves in order.
  abbrev Collected : SizedSlabAlloc S Instant → List ℕ → SizedSlabAlloc S Instant → Type 0
  Collected a out b =
      Slabs b out × (b.refcnt ≡ a.refcnt) × (b.full_slab_working_set.value ≤ b.num_full)

  set_working-Slabs :
      (min_full : Option ℕ) (a : SizedSlabAlloc S Instant) (out : List ℕ)
      → Slabs a out
      → a.full_slab_working_set.value ≤ a.num_full
      → ((n : ℕ) → min_full ≡ some n → n ≤ a.num_full)
      → Returns (Collected a out) (Sized.set_working S min_full a)
  unfolding Sized.set_working WorkingSet.set
  set_working-Slabs none a out k watched bound = returns (k, refl, watched)
  set_working-Slabs (some n) a out k watched bound =
      Returns-then_do (free_back-Slabs n a out k (bound n refl)) λ b h.
        returns
          {a = record b {
            full_slab_working_set = WorkingSet.set b.full_slab_working_set b.num_full;
          }}
          (
            record { linked = h.0.linked; objects = h.0.objects; counted = h.0.counted },
            h.1,
            omega arith,
          )

  module _ (secs_since : Instant → Instant → ℕ) (now : Instant) where
    garbage_collect_slabs-Slabs :
        (a : SizedSlabAlloc S Instant) (out : List ℕ)
        → Slabs a out
        → a.full_slab_working_set.value ≤ a.num_full
        → Returns (Collected a out) (Sized.garbage_collect_slabs S secs_since now a)
    unfolding Sized.garbage_collect_slabs WorkingSet.refresh_now
    garbage_collect_slabs-Slabs a out k watched =
        elim (Bool-cases
          (leb working_period_seconds (secs_since now a.full_slab_working_set.period_begin))) [
            | inl over ↦ rw over (
                set_working-Slabs (some a.full_slab_working_set.value) _ out
                  (record { linked = k.linked; objects = k.objects; counted = k.counted }) watched
                  λ n e. ground (arith, e))
            | inr early ↦ rw early (
                set_working-Slabs none _ out
                  (record { linked = k.linked; objects = k.objects; counted = k.counted }) watched
                  λ n e. absurd cc)
          ]

  module _ (secs_since : Instant → Instant → ℕ) (now : Instant) where
    after_relink :
        (full : Bool) (a : SizedSlabAlloc S Instant) (out : List ℕ)
        → Slabs a out
        → a.full_slab_working_set.value ≤ a.num_full
        → Returns
            (Collected a out)
            (if full then Sized.garbage_collect_slabs S secs_since now a else done a)
    after_relink true a out k watched = garbage_collect_slabs-Slabs secs_since now a out k watched
    after_relink false a out k watched = returns (k, refl, watched)

    -- An object that a client has can be freed: nothing panics, whatever the clock says, and the
    -- allocator is in order without the object. In particular a collection finds as many full slabs
    -- at the back of the free list as it frees, and frees no slab with an object in use.
    pub dealloc-Inv :
        (a : SizedSlabAlloc S Instant) (out : List ℕ) (p : ℕ)
        → Inv S a out
        → has p out ≡ true
        → Returns (λ b. Inv S b (remove p out)) (Sized.dealloc S secs_since now a p)
    unfolding Sized.dealloc
    dealloc-Inv a out p inv there =
        let s = a.slab_system in
        let (ps, before) = inv.objects.owned p there in
        let r = S.dealloc s p I.status_initialized in
        let room =
          owned_room S.slab_of S.capacity (S.free s) (S.free r.1) out inv.objects p ps there
            before in
        let (result, after, same) = S.dealloc_lem s p ps I.status_initialized before room in
        let slab : r.0.0 ≡ S.slab_of p = ap (λ t. t.0) result in
        let full = S.is_full r.1 r.0.0 in
        let is_full : full ≡ (length (p ∷ ps) == S.capacity) =
          ap (S.is_full r.1) slab ∙ S.is_full_lem r.1 (S.slab_of p) (p ∷ ps) after in
        let a1 = record a { slab_system = r.1 } in
        let b = Sized.relink S r.0.1 full r.0.0 a1 in
        let (same_system, same_count, same_working, more_full) =
          relink-fields S r.0.1 full r.0.0 a1 in
        let linked : Linked (S.free r.1) S.capacity b.freelist b.num_full =
          subst
            (λ x.
              let c = Sized.relink S r.0.1 full x a1 in
              Linked (S.free r.1) S.capacity c.freelist c.num_full)
            (sym slab)
            (relink-Linked S a a1 out p ps inv there before after same r.0.1 full
              (ap (λ t. t.1) result) is_full refl refl) in
        let counted : Counted (S.free r.1) b.freelist b.total_slabs =
          subst
            (λ x.
              let c = Sized.relink S r.0.1 full x a1 in
              Counted (S.free r.1) c.freelist c.total_slabs)
            (sym slab)
            (relink-Counted S a a1 out p ps inv there before after same r.0.1 full
              (ap (λ t. t.1) result) refl refl) in
        let objects =
          put-Objects S.slab_of S.capacity (S.free s) (S.free r.1) out inv.objects p ps there same
            before after in
        Returns-then_do
          (after_relink full b (remove p out)
            (record {
              linked = rw same_system linked;
              objects = rw same_system objects;
              counted = rw same_system counted;
            })
            (omega (arith, inv.watched, more_full, ap (λ w. w.value) same_working)))
          λ c h.
            let clients : c.refcnt ≡ length (remove p out) + 1 =
              h.1 ∙ same_count ∙ inv.clients ∙ sym (length-remove p out there) in
            rw (decrement-pos c.refcnt (omega (arith, clients))) (
              returns {a = record c { refcnt = c.refcnt - 1 }} (record {
                linked = h.0.linked;
                objects = h.0.objects;
                counted = h.0.counted;
                watched = h.2;
                clients = omega (arith, clients);
              }))
