-- ===== src/Base/Words.antt =====
-- Machine words of the 64-bit target: `usize` sums and products with their wrap-around.
use native.Mathlib.Nat.{pow-suc, pow-le-pow_right, one-le-pow}
use allocators_rs.Base.{
  ℕ, zero, suc, ◌+◌, ◌-◌, ◌*◌, ◌/◌, ◌%◌, ◌^◌, ◌≤◌, ◌<◌, ◌≡◌, ◌≢◌, dec_lt, refl, sym, ap, subst, ◌∙◌,
  inl, inr, Bool, true, ◌&&◌, arith, leb, ◌==◌, if◌then◌else◌, leb→le, Bool-cases, ℕ_discrete,
}

abbrev pub usize_mod : ℕ
usize_mod = 2 ^ 64

abbrev pub add_usize : ℕ → ℕ → ℕ
add_usize a b = (a + b) % usize_mod

-- `-` on ℕ stops at 0, so the modulus is added first.
abbrev pub sub_usize : ℕ → ℕ → ℕ
sub_usize a b = (a + usize_mod - b) % usize_mod

abbrev pub mul_usize : ℕ → ℕ → ℕ
mul_usize a b = (a * b) % usize_mod

-- The smallest power of two that is at least `n`, by doubling from 1; 64 rounds reach 2^64, which
-- no word exceeds.
pow2_from : ℕ → ℕ → ℕ → ℕ
pow2_from zero p n = p
pow2_from (suc f) p n = let rest = pow2_from f (2 * p) n in if leb n p then p else rest

unfoldable pub next_power_of_two : ℕ → ℕ
unfolding pow2_from
next_power_of_two n = pow2_from 64 1 n

unfoldable pub is_power_of_two : ℕ → Bool
is_power_of_two n = leb 1 n && next_power_of_two n == n

double_le : (n p f : ℕ) → n ≤ p * 2 ^ suc f → n ≤ 2 * p * 2 ^ f
double_le n p f h = omega (arith, ap {B = ℕ} (λ t. p * t) (pow-suc 2 f))

exponent-lt : (j : ℕ) → j ≤ 64 → 2 ^ j < usize_mod → j < 64
exponent-lt j h below = elim (ℕ_discrete j 64) [
  | yes e ↦ absurd (omega (arith, subst (λ t. 2 ^ t < usize_mod) e below))
  | no ne ↦ omega arith
]

pow2_from_lem :
    (f p n : ℕ) (k : ℕ)
    → p ≡ 2 ^ k
    → n ≤ p * 2 ^ f
    → (j : ℕ) × (k ≤ j) × (j ≤ k + f) × (pow2_from f p n ≡ 2 ^ j) × (n ≤ 2 ^ j)
unfolding pow2_from
pow2_from_lem zero p n k e h = (k, omega arith, omega arith, e, omega arith)
pow2_from_lem (suc f) p n k e h = elim (Bool-cases (leb n p)) [
  | inl done ↦ rw done (k, omega arith, omega arith, e, omega (arith, leb→le n p done, e))
  | inr more ↦
      let (j, lo, hi, eq, le) =
        pow2_from_lem f (2 * p) n (suc k) (omega (arith, e, pow-suc 2 k)) (double_le n p f h) in
      rw more (j, omega arith, omega arith, eq, le)
]

-- What the doubling returns for a word is a power of two that is at least the word.
pub next_power_of_two_lem :
    (n : ℕ) → n < usize_mod → (j : ℕ) × (j ≤ 64) × (next_power_of_two n ≡ 2 ^ j) × (n ≤ 2 ^ j)
unfolding next_power_of_two
next_power_of_two_lem n h =
    let (j, lo, hi, eq, le) = pow2_from_lem 64 1 n 0 refl (omega arith) in (j, omega arith, eq, le)

pub is_power_of_two_lem :
    (n : ℕ) → n < usize_mod → is_power_of_two n ≡ true → (j : ℕ) × (j < 64) × (n ≡ 2 ^ j)
unfolding is_power_of_two
is_power_of_two_lem n h e =
    let (j, hi, eq, le) = next_power_of_two_lem n h in
    let same : next_power_of_two n ≡ n = ground arith in
    let n_eq : n ≡ 2 ^ j = sym same ∙ eq in
    (j, exponent-lt j hi (subst (λ t. t < usize_mod) n_eq h), n_eq)

-- The number of zeros below the lowest bit that is set; a word has at most 64.
count_zeros : ℕ → ℕ → ℕ
count_zeros zero x = 0
count_zeros (suc f) x = let rest = count_zeros f (x / 2) in if x % 2 == 0 then suc rest else 0

unfoldable pub trailing_zeros : ℕ → ℕ
unfolding count_zeros
trailing_zeros x = count_zeros 64 x

count_zeros-pow : (f j : ℕ) → j ≤ f → count_zeros f (2 ^ j) ≡ j
unfolding count_zeros
count_zeros-pow zero zero h = refl
count_zeros-pow zero (suc j) h = absurd (omega arith)
count_zeros-pow (suc f) zero h = refl
count_zeros-pow (suc f) (suc j) h =
    let even : 2 ^ suc j % 2 ≡ 0 = omega (arith, pow-suc 2 j) in
    let half : 2 ^ suc j / 2 ≡ 2 ^ j = omega (arith, pow-suc 2 j) in
    rw (count_zeros, even, half) (ap suc (count_zeros-pow f j (omega arith)))

pub trailing_zeros-pow : (j : ℕ) → j ≤ 64 → trailing_zeros (2 ^ j) ≡ j
unfolding trailing_zeros
trailing_zeros-pow j h = count_zeros-pow 64 j h

pub pow2_le : (a b : ℕ) → a ≤ b → 2 ^ a ≤ 2 ^ b
pow2_le a b h = pow-le-pow_right {n = 2} (omega arith) {i = a} {j = b} h

pub exponent_le : (a b : ℕ) → 2 ^ a ≤ 2 ^ b → a ≤ b
exponent_le a b h = elim (dec_lt b a) [
  | yes more ↦
      absurd (omega (arith, h, pow2_le (suc b) a more, pow-suc 2 b, one-le-pow b 2 (omega arith)))
  | no less ↦ omega (arith, less)
]

pow2_from-least : (f p n k i : ℕ) → p ≡ 2 ^ k → k ≤ i → n ≤ 2 ^ i → pow2_from f p n ≤ 2 ^ i
unfolding pow2_from
pow2_from-least zero p n k i e low h = omega (arith, e, pow2_le k i low)
pow2_from-least (suc f) p n k i e low h = elim (Bool-cases (leb n p)) [
  | inl done ↦ rw done (omega (arith, e, pow2_le k i low))
  | inr more ↦
      let apart : k ≢ i = λ same. ground (arith, e, h, more, ap {B = ℕ} (λ t. 2 ^ t) same) in
      rw more (
        pow2_from-least f (2 * p) n (suc k) i (omega (arith, e, pow-suc 2 k))
          (omega (arith, low, apart)) h)
]

-- No smaller power of two is at least the word.
pub next_power_of_two-least : (n i : ℕ) → n ≤ 2 ^ i → next_power_of_two n ≤ 2 ^ i
unfolding next_power_of_two
next_power_of_two-least n i h = pow2_from-least 64 1 n 0 i refl (omega arith) h

-- It is less than twice the word.
pub next_power_of_two-lt : (n j : ℕ) → 0 < n → next_power_of_two n ≡ 2 ^ j → 2 ^ j < 2 * n
next_power_of_two-lt n zero h e = omega arith
next_power_of_two-lt n (suc j) h e = elim (dec_lt (2 ^ j) n) [
  | yes less ↦ omega (arith, pow-suc 2 j, less)
  | no more ↦ absurd (
      omega (
        arith,
        next_power_of_two-least n j (omega (arith, more)),
        e,
        pow-suc 2 j,
        one-le-pow j 2 (omega arith),
      ))
]
