-- ===== src/Slab/PtrMap/Split.antt =====
-- How `grow` splits a chain: no entry is lost, the entries that move are in the new chain, and those
-- that stay are in the old one.
use allocators_rs.Base.{
  ℕ, zero, suc, ◌+◌, ◌-◌, ◌<◌, ◌≡◌, refl, sym, ap, subst, ◌∙◌, Option, some, none, length, get_or,
  set, All, arith, ==_ne, ℕ_discrete, true, false, Bool-cases, inl, inr,
}
use allocators_rs.Slab.PtrMap.{
  Slot, vacant, Bucket, slots, set_at, slot_at, next_free, Moving, update_first_free, pack_slot,
  move_slot, move_slots, split, bucket_insert,
}
use allocators_rs.Slab.PtrMap.Totals.{
  sum, Vanishes, get_or-set_self, get_or-set_ne, All-of_get_or, All-get_or,
}
use allocators_rs.Slab.PtrMap.Buckets.{Shape}
use allocators_rs.Slab.PtrMap.Positions.{slots-set_at, set_at-Shape, next_free-vacant}
use allocators_rs.Slab.PtrMap.Splitting.{moves, Splitting, skip, move, stay, move_up}

module _ (align_shift old_len : ℕ) where
  module _ (P Q : Slot → Type 0) (C : (Slot → ℕ) → ℕ) (n : ℕ) where
    abbrev Good : ℕ → Moving → Type 0
    Good p m =
        Splitting align_shift old_len P Q C n p (slots m.chain) m.first_free m.new_bkt
        × Shape m.chain

    module _ (p_vacant : P vacant) (q_vacant : Q vacant)
        (q_moves : (s : Slot) → P s → moves align_shift old_len s ≡ true → Q s) where
      pack_slot-Good :
          (p : ℕ) (c : Bucket) (f : Option ℕ) (nb : Bucket)
          → p < n
          → Splitting align_shift old_len P Q C n p (slots c) f nb
          → Shape c
          → moves align_shift old_len (slot_at c p) ≡ false
          → Good
              (p + 1)
              (pack_slot p (slot_at c p) (record { chain = c; first_free = f; new_bkt = nb }))
      unfolding pack_slot
      pack_slot-Good p c none nb h inv shape e =
          (stay align_shift old_len P Q C n p_vacant q_vacant q_moves p (slots c) nb h inv e, shape)
      pack_slot-Good p c (some f) nb h inv shape e =
          let s = slot_at c p in
          let l2 = set (set (slots c) p vacant) f s in
          let b = set_at (set_at c p vacant) f s in
          let written : slots b ≡ l2 =
            slots-set_at (set_at c p vacant) f s ∙ ap (λ l. set l f s) (slots-set_at c p vacant) in
          let within : p < length (slots c) = omega (arith, h, inv.count) in
          let gone : (get_or l2 p vacant).0 ≡ 0 =
            ap (λ (s : Slot). s.0)
              (get_or-set_ne (set (slots c) p vacant) f p s vacant
                  (λ e. omega (arith, inv.free.0, e))
                ∙ get_or-set_self (slots c) p vacant vacant within) in
          let next = next_free b (p - f) f in
          let at_p : f + (p - f) ≡ p = omega (arith, inv.free.0) in
          let (le, z) = next_free-vacant b (p - f) f (
            subst (λ q. (slot_at b q).0 ≡ 0) (sym at_p)
              (subst (λ l. (get_or l p vacant).0 ≡ 0) (sym written) gone)) in
          let moved_up =
            move_up align_shift old_len P Q C n p_vacant q_vacant q_moves p (slots c) nb h f next
              inv e (omega (arith, le, at_p))
              (subst (λ l. (get_or l next vacant).0 ≡ 0) written z) in
          (
            subst (λ l. Splitting align_shift old_len P Q C n (p + 1) l (some next) nb)
                (sym written) moved_up,
            set_at-Shape (set_at c p vacant) f s (set_at-Shape c p vacant shape),
          )

      move_slot-Good :
          (p : ℕ) (m : Moving) → p < n → Good p m → Good (p + 1) (move_slot align_shift old_len p m)
      unfolding move_slot
      move_slot-Good p m h (inv, shape) = elim (ℕ_discrete (slot_at m.chain p).0 0) [
        | yes z ↦
            rw (move_slot, z)
              (
                skip align_shift old_len P Q C n p_vacant q_vacant q_moves p (slots m.chain)
                    m.new_bkt h m.first_free inv z,
                shape,
              )
        | no ne ↦ elim (Bool-cases (moves align_shift old_len (slot_at m.chain p))) [
          | inl t ↦
              rw (move_slot, ==_ne (slot_at m.chain p).0 0 ne, t)
                (
                  subst
                      (λ l.
                        Splitting align_shift old_len P Q C n (p + 1) l
                          (update_first_free p m.first_free)
                          (bucket_insert m.new_bkt (slot_at m.chain p)))
                      (sym (slots-set_at m.chain p vacant))
                      (move align_shift old_len P Q C n p_vacant q_vacant q_moves p (slots m.chain)
                        m.new_bkt h m.first_free inv t),
                  set_at-Shape m.chain p vacant shape,
                )
          | inr f ↦
              rw (move_slot, ==_ne (slot_at m.chain p).0 0 ne, f)
                (pack_slot-Good p m.chain m.first_free m.new_bkt h inv shape f)
        ]
      ]

      move_slots-Good :
          (k p : ℕ) (m : Moving)
          → p + k ≡ n
          → Good p m
          → Good n (move_slots align_shift old_len p k m)
      unfolding move_slots
      move_slots-Good zero p m e good = subst (λ q. Good q m) (omega (arith, e)) good
      move_slots-Good (suc k) p m e good =
          move_slots-Good k (p + 1) (move_slot align_shift old_len p m) (omega (arith, e))
            (move_slot-Good p m (omega (arith, e)) good)

  -- The old and the new chain after the split, whose entries were those of `b` and `nb`.
  pub record Halves (P Q : Slot → Type 0) (b nb : Bucket) (r : Bucket × Bucket) : Type 0 where
    pub kept :
        (g : Slot → ℕ)
        → Vanishes g
        → sum g (slots r.0) + sum g (slots r.1) ≡ sum g (slots b) + sum g (slots nb)
    pub old_stays : All (λ s. P s × (moves align_shift old_len s ≡ false)) (slots r.0)
    pub new_moved : All Q (slots r.1)
    pub old_shape : Shape r.0
    pub new_shape : Shape r.1

  pub split-Halves :
      (P Q : Slot → Type 0) (b nb : Bucket)
      → P vacant
      → Q vacant
      → ((s : Slot) → P s → moves align_shift old_len s ≡ true → Q s)
      → All P (slots b)
      → All Q (slots nb)
      → Shape b
      → Shape nb
      → Halves P Q b nb (split align_shift old_len b nb)
  unfolding split
  split-Halves P Q b nb pv qv qm all all' shape shape' =
      let C : (Slot → ℕ) → ℕ = λ g. sum g (slots b) + sum g (slots nb) in
      let n = length (slots b) in
      let m0 : Moving = record { chain = b; first_free = none; new_bkt = nb } in
      let start : Good P Q C n 0 m0 = (
        record {
          count = refl;
          conserved = λ g v. refl;
          free = tt;
          stayed = λ i h. absurd (omega (arith, h));
          old = λ i. All-get_or P (slots b) i vacant all pv;
          moved = all';
          shape = shape';
        },
        shape,
      ) in
      let (inv, shape_end) = move_slots-Good P Q C n pv qv qm n 0 m0 (omega arith) start in
      record {
        kept = inv.conserved;
        old_stays =
            All-of_get_or _ _ vacant
              (λ i h. (inv.old i, inv.stayed i (omega (arith, h, inv.count))));
        new_moved = inv.moved;
        old_shape = shape_end;
        new_shape = inv.shape;
      }
