-- ===== src/Slab/PtrMap/Shrink.antt =====
-- `PtrHashMap::shrink`: the table has half the buckets and the same entries, each in the bucket of
-- its new hash.
use native.Mathlib.Nat.{pow-suc}
use allocators_rs.Base.{
  ℕ, zero, suc, ◌+◌, ◌/◌, ◌^◌, ◌<◌, ◌≤◌, ◌≡◌, refl, sym, ap, subst, ◌∙◌, List, length, length-set,
  set, All, arith, dec_lt, inl, inr,
}
use allocators_rs.Base.Bits.{and_bit_cases}
use allocators_rs.Slab.PtrMap.{
  Slot, vacant, Bucket, slots, default, get_bucket, drain, shrink_from, shrink, truncate,
  PtrHashMap,
}
use allocators_rs.Slab.PtrMap.Totals.{Vanishes, total, total_all, get_or-set_ne}
use allocators_rs.Slab.PtrMap.Buckets.{Shape}
use allocators_rs.Slab.PtrMap.Tables.{
  home, Home, home-lt, home-suc, Table, All-map, set_all, total_all-set, vacant-Home,
}
use allocators_rs.Slab.PtrMap.Grow.{Same}
use allocators_rs.Slab.PtrMap.Drain.{
  drain-total, drain-All, drain-Shape, truncate-length, truncate-set, get_bucket-truncate,
  get_bucket-past, span, span-set, total_all-split,
}

module _ (sh a : ℕ) where
  -- In the smaller table, a chain and that with `2 ^ a` more are one.
  home-low : (k i : ℕ) → i < 2 ^ a → home sh (suc a) k ≡ i → home sh a k ≡ i
  home-low k i h e = elim (and_bit_cases a (k / 2 ^ sh)) [
    | inl z ↦ omega (arith, home-suc sh a k, z, e)
    | inr one ↦ absurd (omega (arith, home-suc sh a k, one, e, h))
  ]

  home-high : (k i : ℕ) → home sh (suc a) k ≡ i + 2 ^ a → home sh a k ≡ i
  home-high k i e = elim (and_bit_cases a (k / 2 ^ sh)) [
    | inl z ↦ absurd (omega (arith, home-suc sh a k, z, e, home-lt sh a k))
    | inr one ↦ omega (arith, home-suc sh a k, one, e)
  ]

  record Shrinking (vec0 : List Bucket) (i n : ℕ) (vec : List Bucket) : Type 0 where
    len : length vec ≡ 2 ^ suc a
    low : (j : ℕ) → j < 2 ^ a → All (Home sh a j) (slots (get_bucket vec j))
    high : (j : ℕ) → 2 ^ a ≤ j → get_bucket vec j ≡ get_bucket vec0 j
    shaped : (j : ℕ) → Shape (get_bucket vec j)
    same :
        (g : Slot → ℕ)
        → Vanishes g
        → total_all g (truncate (2 ^ a) vec) + span g vec (i + 2 ^ a) n ≡ total_all g vec0

  module _ (vec0 : List Bucket) (table : Table sh (suc a) vec0) where
    above : (j : ℕ) → All (Home sh a j) (slots (get_bucket vec0 (j + 2 ^ a)))
    above j =
        All-map _ _ (slots (get_bucket vec0 (j + 2 ^ a))) (λ s at ne. home-high s.0 j (at ne))
          (table.placed (j + 2 ^ a))

    step :
        (vec : List Bucket) (i n : ℕ)
        → i < 2 ^ a
        → Shrinking vec0 i (suc n) vec
        → Shrinking vec0
            (i + 1)
            n
            (set vec i (drain (slots (get_bucket vec (i + 2 ^ a))) (get_bucket vec i)))
    unfolding span
    step vec i n h inv =
        let l = slots (get_bucket vec (i + 2 ^ a)) in
        let b = drain l (get_bucket vec i) in
        let within : i < length vec = omega (arith, h, inv.len, pow-suc 2 a) in
        let short : i < length (truncate (2 ^ a) vec) =
          omega (arith, h, truncate-length (2 ^ a) vec (omega (arith, inv.len, pow-suc 2 a))) in
        let from_above : All (Home sh a i) l =
          subst (λ c. All (Home sh a i) (slots c)) (sym (inv.high (i + 2 ^ a) (omega arith)))
            (above i) in
        record {
          len = length-set vec i b ∙ inv.len;
          low =
              set_all (λ j c. j < 2 ^ a → All (Home sh a j) (slots c)) vec i b within
                (λ less.
                  drain-All (Home sh a i) l (get_bucket vec i) (vacant-Home sh a i) from_above
                    (inv.low i h))
                (λ j ne less. inv.low j less);
          high = λ j le.
              get_or-set_ne vec i j b default (λ e. omega (arith, e, le, h)) ∙ inv.high j le;
          shaped =
              set_all (λ j c. Shape c) vec i b within
                (drain-Shape l (get_bucket vec i) (inv.shaped i)) (λ j ne. inv.shaped j);
          same = λ g v.
              let cut = ap (total_all g) (truncate-set (2 ^ a) vec i b) in
              let there = ap (total g) (get_bucket-truncate (2 ^ a) vec i h) in
              let next : i + 2 ^ a + 1 ≡ i + 1 + 2 ^ a = omega arith in
              omega (
                arith,
                total_all-set g (truncate (2 ^ a) vec) i b short,
                cut,
                there,
                drain-total g v l (get_bucket vec i),
                span-set g vec i b n (i + 1 + 2 ^ a) (omega arith),
                ap (λ p. span g vec p n) next,
                inv.same g v,
              );
        }

    shrink_from-Shrinking :
        (n i : ℕ) (vec : List Bucket)
        → i + n ≡ 2 ^ a
        → Shrinking vec0 i n vec
        → Shrinking vec0 (2 ^ a) 0 (shrink_from (2 ^ a) i n vec)
    unfolding shrink_from
    shrink_from-Shrinking zero i vec e inv =
        subst (λ j. Shrinking vec0 j 0 vec) (omega (arith, e)) inv
    shrink_from-Shrinking (suc n) i vec e inv =
        shrink_from-Shrinking n (i + 1) _ (omega (arith, e)) (step vec i n (omega (arith, e)) inv)

    begin : Shrinking vec0 0 (2 ^ a) vec0
    begin = record {
      len = table.len;
      low = λ j less.
          All-map _ _ (slots (get_bucket vec0 j)) (λ s at ne. home-low s.0 j less (at ne))
            (table.placed j);
      high = λ j le. refl;
      shaped = table.shaped;
      same = λ g v.
          let start : 0 + 2 ^ a ≡ 2 ^ a = omega arith in
          omega (
            arith,
            total_all-split g (2 ^ a) (2 ^ a) vec0 (omega (arith, table.len, pow-suc 2 a)),
            ap (λ p. span g vec0 p (2 ^ a)) start,
          );
    }

    finish :
        (vec : List Bucket)
        → Shrinking vec0 (2 ^ a) 0 vec
        → Table sh a (truncate (2 ^ a) vec) × Same vec0 (truncate (2 ^ a) vec)
    unfolding span
    finish vec inv =
        let len = truncate-length (2 ^ a) vec (omega (arith, inv.len, pow-suc 2 a)) in
        let v : (j : ℕ) → Home sh a j vacant = vacant-Home sh a in
        (
          record {
            len = len;
            placed = λ j. elim (dec_lt j (2 ^ a)) [
              | yes less ↦
                  subst (λ b. All (Home sh a j) (slots b))
                    (sym (get_bucket-truncate (2 ^ a) vec j less)) (inv.low j less)
              | no not_less ↦
                  subst (λ b. All (Home sh a j) (slots b))
                    (sym (get_bucket-past (truncate (2 ^ a) vec) j (omega (arith, not_less, len))))
                    (v j, (v j, (v j, (v j, tt))))
            ];
            shaped = λ j. elim (dec_lt j (2 ^ a)) [
              | yes less ↦ subst Shape (sym (get_bucket-truncate (2 ^ a) vec j less)) (inv.shaped j)
              | no not_less ↦
                  subst Shape
                    (sym (get_bucket-past (truncate (2 ^ a) vec) j (omega (arith, not_less, len))))
                    refl
            ];
          },
          λ g z. omega (arith, inv.same g z),
        )

pub shrink-Table :
    (m : PtrHashMap) (a : ℕ)
    → Table m.align_shift (suc a) m.vec
    → Table m.align_shift a (shrink m).vec × Same m.vec (shrink m).vec
unfolding shrink
shrink-Table m a table =
    let sh = m.align_shift in
    let half : length m.vec / 2 ≡ 2 ^ a = omega (arith, table.len, pow-suc 2 a) in
    subst (λ n. let vec = truncate n (shrink_from n 0 n m.vec) in Table sh a vec × Same m.vec vec)
      (sym half)
      (finish sh a m.vec table _ (
        shrink_from-Shrinking sh a m.vec table (2 ^ a) 0 m.vec (omega arith)
          (begin sh a m.vec table)))
