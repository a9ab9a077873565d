-- ===== src/Elfmalloc/SizeClass/Tiered.antt =====
-- The tiered classes: a word, multiples of 16, then powers of two.
use allocators_rs.Base.{
  ℕ, ◌+◌, ◌-◌, ◌*◌, ◌/◌, ◌^◌, ◌<◌, ◌≤◌, ◌≡◌, ◌⊎◌, inl, inr, true, false, refl, sym, ap, subst, ◌∙◌,
  some, arith, leb, Bool-cases, leb→le, if◌then◌else◌,
}
use allocators_rs.Base.Words.{usize_mod, sub_usize, next_power_of_two}
use allocators_rs.Elfmalloc.SizeClass.{
  n_small_classes, init_tiered, get_tiered, max_key, init_multiples, round_up,
}
use allocators_rs.Elfmalloc.SizeClass.Multiples.{get_multiple-init_multiples, round_up-bounds}
use allocators_rs.Elfmalloc.SizeClass.Powers.{get_power-init_powers, sub_small}

-- The size of the class that serves `n`, with `n_small` multiples.
abbrev pub class_size : ℕ → ℕ → ℕ
class_size n_small n =
    if leb n 8 then 8 else if leb n (n_small * 16) then round_up n else next_power_of_two n

pub first-multiple : (start : ℕ) → 0 < start → start ≤ 16 → round_up start ≡ 16
first-multiple start h k =
    let (whole, low, high) = round_up-bounds start (omega arith) in omega arith

pub n_small-bounds :
    (start n_classes : ℕ)
    → start ≤ 16
    → 2 ≤ n_classes
    → (0 < n_small_classes start n_classes)
      × (n_small_classes start n_classes ≤ 4096)
      × (2 * n_small_classes start n_classes ≤ n_classes)
unfolding n_small_classes
n_small-bounds start n h k =
    let less : sub_usize 4096 (start / 16) ≡ 4096 - start / 16 =
      sub_small (start / 16) 4096 (omega (arith, h)) (omega arith) in
    rw less (omega (arith, h, k), omega (arith, h, k), omega (arith, h, k))

module _ {ℓ} {T : Type ℓ} where
  -- With at least two classes, from a size of 1 to 16 on, whose sizes do not overflow, every size up to
  -- the largest class is served by a class that holds it: that of a word up to 8, that of its multiple
  -- of 16 up to the largest of these, and that of its power of two above. The class is less than 16
  -- larger than the size or less than twice as large.
  pub get_tiered-init_tiered :
      (start n_classes n : ℕ) (f : ℕ → T)
      → 0 < start
      → start ≤ 16
      → 2 ≤ n_classes
      → let n_small = n_small_classes start n_classes in
        let t = init_tiered start n_classes f in
        next_power_of_two (n_small * 16 + 1) * 2 ^ (n_classes - n_small) < usize_mod
        → n ≤ max_key t
        → (get_tiered t n ≡ some (f (class_size n_small n)))
          × (n ≤ class_size n_small n)
          × ((class_size n_small n < n + 16) ⊎ (class_size n_small n < 2 * n))
  unfolding init_tiered get_tiered max_key init_multiples
  get_tiered-init_tiered start n_classes n f pos low some_classes bound high =
      let n_small = n_small_classes start n_classes in
      let small = init_multiples start n_small f in
      let (few, few', half) = n_small-bounds start n_classes low some_classes in
      let first = first-multiple start pos low in
      let small_max : small.max_size ≡ n_small * 16 = omega (arith, first) in
      elim (Bool-cases (leb n 8)) [
        | inl e ↦ rw e (refl, leb→le n 8 e, inl (omega arith))
        | inr e ↦ elim (Bool-cases (leb n (n_small * 16))) [
          | inl e' ↦
              let fits = leb→le n (n_small * 16) e' in
              let (whole, holds, near) = round_up-bounds n (omega (arith, fits, few')) in
              let served =
                get_multiple-init_multiples start n_small n f (omega (arith, low))
                  (omega (arith, fits, few')) (ground (arith, first, e, whole, holds))
                  (omega (arith, fits, small_max)) few in
              let there : leb n small.max_size ≡ true = ap (leb n) small_max ∙ e' in
              rw (e, there, e') (served.0, holds, inl near)
          | inr e' ↦
              let class =
                get_power-init_powers (small.max_size + 1) (n_classes - n_small) n f
                  (subst (λ t. next_power_of_two (t + 1) * 2 ^ (n_classes - n_small) < usize_mod)
                    (sym small_max) bound)
                  (ground (arith, small_max, e')) (ground (arith, e)) high in
              let there : leb n small.max_size ≡ false = ap (leb n) small_max ∙ e' in
              rw (e, there, e') (class.0, class.1, inr class.2)
        ]
      ]
