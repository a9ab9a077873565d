-- ===== src/Slab/PtrMap/Splitting.antt =====
-- The invariant of the loop of `grow` over the slots of a chain, and its preservation by each of the
-- three things that happen to a slot: it is skipped, its entry moves, or its entry stays.
use allocators_rs.Base.{
  ℕ, ◌+◌, ◌/◌, ◌^◌, ◌<◌, ◌≤◌, ◌≡◌, refl, sym, ap, subst, ◌∙◌, Option, some, none, List, length,
  length-set, get_or, set, All, arith, ◌==◌, ℕ_discrete, Bool, true, false, not, bit_and,
}
use native.Mathlib.Nat.{zero-div}
use allocators_rs.Base.Bits.{zero_and}
use allocators_rs.Slab.PtrMap.{Slot, vacant, Bucket, slots, update_first_free, bucket_insert}
use allocators_rs.Slab.PtrMap.Totals.{sum, sum-set, Vanishes, get_or-set_self, get_or-set_ne}
use allocators_rs.Slab.PtrMap.Buckets.{Shape, bucket_insert-More, bucket_insert-Shape}

module _ (align_shift old_len : ℕ) where
  -- The test of `grow`: whether an entry moves to the new chain.
  abbrev pub moves : Slot → Bool
  moves s = not (bit_and (s.0 / 2 ^ align_shift) old_len == 0)

  stays_vacant : (s : Slot) → s.0 ≡ 0 → moves s ≡ false
  stays_vacant s e =
      let low : s.0 / 2 ^ align_shift ≡ 0 =
        ap {B = ℕ} (λ x. x / 2 ^ align_shift) e ∙ zero-div (2 ^ align_shift) in
      rw low (ap (λ x. not (x == 0)) (zero_and old_len))

  abbrev pub Free : ℕ → List Slot → Option ℕ → Type 0
  Free p l none = Unit {0}
  Free p l (some f) = (f < p) × ((get_or l f vacant).0 ≡ 0)

  module _ (P Q : Slot → Type 0) (C : (Slot → ℕ) → ℕ) (n : ℕ) where
    -- Before slot `p`, for the slots `l` of a chain.
    pub record Splitting (p : ℕ) (l : List Slot) (first_free : Option ℕ) (new_bkt : Bucket)
        : Type 0 where
      pub count : length l ≡ n
      pub conserved : (g : Slot → ℕ) → Vanishes g → sum g l + sum g (slots new_bkt) ≡ C g
      pub free : Free p l first_free
      pub stayed : (i : ℕ) → i < p → moves (get_or l i vacant) ≡ false
      pub old : (i : ℕ) → P (get_or l i vacant)
      pub moved : All Q (slots new_bkt)
      pub shape : Shape new_bkt

    extend :
        (p : ℕ) (l : List Slot)
        → ((i : ℕ) → i < p → moves (get_or l i vacant) ≡ false)
        → moves (get_or l p vacant) ≡ false
        → (i : ℕ) → i < p + 1
        → moves (get_or l i vacant) ≡ false
    extend p l below here i h = elim (ℕ_discrete i p) [
      | yes e ↦ subst (λ j. moves (get_or l j vacant) ≡ false) (sym e) here
      | no ne ↦ below i (omega (arith, h, ne))
    ]

    updated :
        (p : ℕ) (l : List Slot) (f : Option ℕ)
        → Free p l f
        → (get_or l p vacant).0 ≡ 0
        → Free (p + 1) l (update_first_free p f)
    unfolding update_first_free
    updated p l none free e = (omega arith, e)
    updated p l (some f) (less, z) e = (omega (arith, less), z)

    -- What a write of a slot does to the others.
    put_all :
        (R : Slot → Type 0) (l : List Slot) (p : ℕ) (s : Slot)
        → p < length l
        → R s
        → ((i : ℕ) → R (get_or l i vacant))
        → (i : ℕ) → R (get_or (set l p s) i vacant)
    put_all R l p s h r old i = elim (ℕ_discrete i p) [
      | yes e ↦
          subst (λ j. R (get_or (set l p s) j vacant)) (sym e)
            (subst R (sym (get_or-set_self l p s vacant h)) r)
      | no ne ↦ subst R (sym (get_or-set_ne l p i s vacant ne)) (old i)
    ]

    module _ (p_vacant : P vacant) (q_vacant : Q vacant)
        (q_moves : (s : Slot) → P s → moves s ≡ true → Q s) (p : ℕ) (l : List Slot)
        (new_bkt : Bucket) (h : p < n) where
      pub skip :
          (f : Option ℕ)
          → Splitting p l f new_bkt
          → (get_or l p vacant).0 ≡ 0
          → Splitting (p + 1) l (update_first_free p f) new_bkt
      skip f inv e = record {
        count = inv.count;
        conserved = inv.conserved;
        free = updated p l f inv.free e;
        stayed = extend p l inv.stayed (stays_vacant (get_or l p vacant) e);
        old = inv.old;
        moved = inv.moved;
        shape = inv.shape;
      }

      -- The slot is made vacant.
      freed : (f : ℕ) → f < p → (get_or l f vacant).0 ≡ 0 → (get_or (set l p vacant) f vacant).0 ≡ 0
      freed f less z =
          ap (λ (s : Slot). s.0) (get_or-set_ne l p f vacant vacant (λ e. omega (arith, less, e)))
          ∙ z

      freed_free : (f : Option ℕ) → Free p l f → Free p (set l p vacant) f
      freed_free none free = tt
      freed_free (some f) (less, z) = (less, freed f less z)

      pub move :
          (f : Option ℕ)
          → Splitting p l f new_bkt
          → moves (get_or l p vacant) ≡ true
          → Splitting
              (p + 1)
              (set l p vacant)
              (update_first_free p f)
              (bucket_insert new_bkt (get_or l p vacant))
      move f inv e =
          let s = get_or l p vacant in
          let within : p < length l = omega (arith, h, inv.count) in
          let gone : get_or (set l p vacant) p vacant ≡ vacant =
            get_or-set_self l p vacant vacant within in
          record {
            count = length-set l p vacant ∙ inv.count;
            conserved = λ g z.
                let more = bucket_insert-More g Q z new_bkt s q_vacant in
                omega (
                  arith,
                  more.0,
                  sum-set g l p vacant vacant within,
                  z vacant refl,
                  inv.conserved g z,
                );
            free =
                updated p (set l p vacant) f (freed_free f inv.free) (ap (λ (s : Slot). s.0) gone);
            stayed =
                extend p (set l p vacant)
                  (λ i less.
                    ap moves (get_or-set_ne l p i vacant vacant (λ e. omega (arith, less, e)))
                    ∙ inv.stayed i less)
                  (ap moves gone ∙ stays_vacant vacant refl);
            old = put_all P l p vacant within p_vacant inv.old;
            moved =
                (bucket_insert-More (λ s. 0) Q (λ s e. refl) new_bkt s q_vacant).1
                  (q_moves s (inv.old p) e) inv.moved;
            shape = bucket_insert-Shape new_bkt s inv.shape;
          }

      pub stay :
          Splitting p l none new_bkt
          → moves (get_or l p vacant) ≡ false
          → Splitting (p + 1) l none new_bkt
      stay inv e = record {
        count = inv.count;
        conserved = inv.conserved;
        free = tt;
        stayed = extend p l inv.stayed e;
        old = inv.old;
        moved = inv.moved;
        shape = inv.shape;
      }

      pub move_up :
          (f next : ℕ)
          → Splitting p l (some f) new_bkt
          → moves (get_or l p vacant) ≡ false
          → next ≤ p
          → (get_or (set (set l p vacant) f (get_or l p vacant)) next vacant).0 ≡ 0
          → Splitting (p + 1) (set (set l p vacant) f (get_or l p vacant)) (some next) new_bkt
      move_up f next inv e le z =
          let s = get_or l p vacant in
          let within : p < length l = omega (arith, h, inv.count) in
          let l1 = set l p vacant in
          let within' : f < length l1 = omega (arith, inv.free.0, within, length-set l p vacant) in
          let gone : get_or l1 p vacant ≡ vacant = get_or-set_self l p vacant vacant within in
          let free : (get_or l1 f vacant).0 ≡ 0 = freed f inv.free.0 inv.free.1 in
          record {
            count = length-set l1 f s ∙ length-set l p vacant ∙ inv.count;
            conserved = λ g v. omega (
              arith,
              sum-set g l p vacant vacant within,
              sum-set g l1 f s vacant within',
              v vacant refl,
              v (get_or l1 f vacant) free,
              inv.conserved g v,
            );
            free = (omega (arith, le), z);
            stayed = λ i less. elim (ℕ_discrete i f) [
              | yes same ↦
                  subst (λ j. moves (get_or (set l1 f s) j vacant) ≡ false) (sym same)
                    (ap moves (get_or-set_self l1 f s vacant within') ∙ e)
              | no ne ↦
                  ap moves (get_or-set_ne l1 f i s vacant ne)
                  ∙ extend p l1
                      (λ j less'.
                        ap moves
                          (get_or-set_ne l p j vacant vacant (λ same. omega (arith, less', same)))
                        ∙ inv.stayed j less')
                      (ap moves gone ∙ stays_vacant vacant refl) i less
            ];
            old =
                put_all P l1 f s within' (inv.old p) (put_all P l p vacant within p_vacant inv.old);
            moved = inv.moved;
            shape = inv.shape;
          }
