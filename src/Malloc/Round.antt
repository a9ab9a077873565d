-- ===== src/Malloc/Round.antt =====
-- Rounding sizes up, `roundup` of malloc-bind/src/lib.rs.
use native.Mathlib.Nat.{mod-eq_of_lt, mod-lt, mod_self, add-mul-mod_self_right, mod-add-div'}
use allocators_rs.Base.{
  ℕ, ◌+◌, ◌-◌, ◌*◌, ◌/◌, ◌<◌, ◌≤◌, ◌%◌, ◌≡◌, max, ap, ◌∙◌, arith, ==_ne, ℕ_discrete,
}
use allocators_rs.Base.Words.{usize_mod, add_usize, sub_usize}
use allocators_rs.Malloc.{roundup}

abbrev pub Rounded : ℕ → ℕ → ℕ → Type 0
Rounded n m r = (r % m ≡ 0) × (0 < r) × (n ≤ r) × (r < max n 1 + m)

round_sum : (n m r : ℕ) → r < m → n + m < usize_mod → sub_usize (add_usize n m) r ≡ n + m - r
round_sum n m r hr h =
    let e : (n + m) % usize_mod ≡ n + m = mod-eq_of_lt h in
    let f : n + m + usize_mod - r ≡ n + m - r + 1 * usize_mod = omega arith in
    rw (e, f) (add-mul-mod_self_right (n + m - r) 1 usize_mod ∙ mod-eq_of_lt (omega arith))

-- A size that does not come within a multiple of the largest word is rounded up to the least positive
-- multiple that is at least the size: it is less than one multiple away, and for size 0, which is
-- treated as 1, it is one multiple.
pub roundup-Rounded : (n m : ℕ) → 0 < m → n + m < usize_mod → Rounded n m (roundup n m)
unfolding roundup
roundup-Rounded n m hm h = elim (ℕ_discrete n 0) [
  | yes e ↦ rw (roundup, e) (mod_self m, hm, omega arith, omega arith)
  | no ne ↦ elim (ℕ_discrete (n % m) 0) [
    | yes e ↦ rw (roundup, ==_ne n 0 ne, e) (e, omega (arith, ne), omega arith, omega arith)
    | no inside ↦
        let lt : n % m < m = mod-lt n hm in
        let shape : n + m - n % m ≡ m + n / m * m = omega (arith, mod-add-div' n m) in
        rw (roundup, ==_ne n 0 ne, ==_ne (n % m) 0 inside, round_sum n m (n % m) lt h)
          (
            ap {B = ℕ} (λ t. t % m) shape ∙ add-mul-mod_self_right m (n / m) m ∙ mod_self m,
            omega arith,
            omega arith,
            omega arith,
          )
  ]
]
