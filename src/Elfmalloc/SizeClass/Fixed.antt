-- ===== src/Elfmalloc/SizeClass/Fixed.antt =====
-- The size of a class is served by that class.
use native.Mathlib.Nat.{pow-suc, one-le-pow}
use allocators_rs.Base.{
  ℕ, zero, suc, ◌+◌, ◌-◌, ◌*◌, ◌/◌, ◌^◌, ◌<◌, ◌≤◌, ◌≡◌, refl, sym, ap, subst, ◌∙◌, inl, inr, true,
  false, arith, leb, Bool-cases, leb→le, le→leb,
}
use allocators_rs.Base.Words.{
  usize_mod, next_power_of_two, next_power_of_two_lem, next_power_of_two-least,
}
use allocators_rs.Base.Bits.{pow_split}
use allocators_rs.Elfmalloc.SizeClass.{
  n_small_classes, init_tiered, max_key, init_multiples, round_up,
}
use allocators_rs.Elfmalloc.SizeClass.Multiples.{round_up-bounds}
use allocators_rs.Elfmalloc.SizeClass.Powers.{init_powers-max}
use allocators_rs.Elfmalloc.SizeClass.Tiered.{class_size, n_small-bounds, first-multiple}

largest : (p a n : ℕ) → p ≡ 2 ^ a → 0 < n → (j : ℕ) × (p * 2 ^ n / 2 ≡ 2 ^ j) × (p ≤ 2 ^ j)
largest p a zero e h = absurd (omega arith)
largest p a (suc n) e h =
    let whole : p * 2 ^ n ≡ 2 ^ (a + n) = ap {B = ℕ} (λ t. t * 2 ^ n) e ∙ sym (pow_split a n) in
    let twice : p * 2 ^ suc n ≡ 2 * (p * 2 ^ n) =
      omega (arith, ap {B = ℕ} (λ t. p * t) (pow-suc 2 n)) in
    (
      a + n,
      omega (arith, twice, whole),
      subst (λ t. p ≤ t) whole (grind (arith, one-le-pow n 2 (omega arith))),
    )

-- A size above the multiples and up to `2 ^ j`.
power-fixed :
    (j n : ℕ)
    → n < usize_mod
    → n ≤ 2 ^ j
    → (next_power_of_two n ≤ 2 ^ j)
      × (next_power_of_two n < usize_mod
          → next_power_of_two (next_power_of_two n) ≡ next_power_of_two n)
power-fixed j n h fits = (
  next_power_of_two-least n j fits,
  λ word.
      let (b, hb, eb, lb) = next_power_of_two_lem n h in
      let (d, hd, ed, ld) = next_power_of_two_lem (next_power_of_two n) word in
      let up = next_power_of_two-least (next_power_of_two n) b (omega (arith, eb)) in
      omega (arith, eb, ed, ld, up),
)

module _ {ℓ} {T : Type ℓ} where
  max_key-pow :
      (start n_classes : ℕ) (f : ℕ → T)
      → 0 < start
      → start ≤ 16
      → 2 ≤ n_classes
      → let n_small = n_small_classes start n_classes in
        next_power_of_two (n_small * 16 + 1) * 2 ^ (n_classes - n_small) < usize_mod
        → (j : ℕ) × (max_key (init_tiered start n_classes f) ≡ 2 ^ j)
          × (n_small * 16 + 1 ≤ 2 ^ j)
          × (2 ^ j < usize_mod)
  unfolding init_tiered max_key init_multiples
  max_key-pow start n_classes f pos low some_classes bound =
      let n_small = n_small_classes start n_classes in
      let (few, few', half) = n_small-bounds start n_classes low some_classes in
      let first = first-multiple start pos low in
      let from = (init_multiples start n_small f).max_size + 1 in
      let small_max : from ≡ n_small * 16 + 1 = omega (arith, first, few) in
      let bound' : next_power_of_two from * 2 ^ (n_classes - n_small) < usize_mod =
        subst (λ t. next_power_of_two t * 2 ^ (n_classes - n_small) < usize_mod) (sym small_max)
          bound in
      let (a, ha, ea, la) = next_power_of_two_lem from (omega (arith, small_max, few')) in
      let (j, ej, lj) =
        largest (next_power_of_two from) a (n_classes - n_small) ea
          (omega (arith, half, some_classes)) in
      (
        j,
        init_powers-max from (n_classes - n_small) f bound' ∙ ej,
        omega (arith, la, lj, ea, small_max),
        omega (arith, ej, bound'),
      )

  -- With classes whose sizes do not overflow, the class that serves a size is at most the largest,
  -- and it serves its own size.
  pub class_size-fixed :
      (start n_classes n : ℕ) (f : ℕ → T)
      → 0 < start
      → start ≤ 16
      → 2 ≤ n_classes
      → let n_small = n_small_classes start n_classes in
        let t = init_tiered start n_classes f in
        next_power_of_two (n_small * 16 + 1) * 2 ^ (n_classes - n_small) < usize_mod
        → n ≤ max_key t
        → (class_size n_small n ≤ max_key t)
          × (class_size n_small (class_size n_small n) ≡ class_size n_small n)
  class_size-fixed start n_classes n f pos low some_classes bound high =
      let n_small = n_small_classes start n_classes in
      let (few, few', half) = n_small-bounds start n_classes low some_classes in
      let (j, max, room, word) = max_key-pow start n_classes f pos low some_classes bound in
      let fits : n ≤ 2 ^ j = omega (arith, max, high) in
      elim (Bool-cases (leb n 8)) [
        | inl e ↦ rw e (omega (arith, room, few, max), refl)
        | inr e ↦ elim (Bool-cases (leb n (n_small * 16))) [
          | inl e' ↦
              let (whole, holds, near) =
                round_up-bounds n (omega (arith, fits, few', leb→le n (n_small * 16) e')) in
              let (whole', holds', near') =
                round_up-bounds (round_up n)
                  (omega (arith, near, few', leb→le n (n_small * 16) e')) in
              let large : leb (round_up n) 8 ≡ false = ground (arith, e, holds) in
              let small : leb (round_up n) (n_small * 16) ≡ true =
                le→leb (round_up n) (n_small * 16)
                  (omega (arith, whole, near, leb→le n (n_small * 16) e')) in
              rw (e, e', large, small)
                (
                  omega (arith, max, room, leb→le (round_up n) (n_small * 16) small),
                  omega (arith, whole, whole', holds', near'),
                )
          | inr e' ↦
              let (up, same) = power-fixed j n (omega (arith, fits, word)) fits in
              let (b, hb, eb, lb) = next_power_of_two_lem n (omega (arith, fits, word)) in
              let large : leb (next_power_of_two n) 8 ≡ false = ground (arith, e, eb, lb) in
              let larger : leb (next_power_of_two n) (n_small * 16) ≡ false =
                ground (arith, e', eb, lb) in
              rw (e, e', large, larger) (omega (arith, max, up), same (omega (arith, up, word)))
        ]
      ]
