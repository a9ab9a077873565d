-- ===== src/Base/Bits.antt =====
-- Masks by powers of two as arithmetic, at every width.
use Prim.Native.Nat.{digits, bitwise, bit_and-bitwise, bit_or-bitwise}
use native.Mathlib.Nat.{
  le_refl, pow-suc, one-le-pow, mod-eq_of_lt, mod-lt, suc-mul, mul-add-mod_self_right, mod-add-div',
}
use allocators_rs.Base.Words.{usize_mod}
use allocators_rs.Base.{
  ℕ, zero, suc, ◌+◌, ◌-◌, ◌*◌, ◌/◌, ◌%◌, ◌^◌, ◌≤◌, ◌<◌, min, max, bit_and, bit_or, ◌≡◌, refl, sym,
  ap, subst, ◌∙◌, arith, ◌⊎◌, inl, inr, ℕ_discrete,
}

-- The fuel of the library's digit recursion does not matter once it covers the first operand.
enough_digits :
    (pad : ℕ → ℕ) (op : ℕ → ℕ → ℕ) (x y f g : ℕ)
    → x ≤ f
    → x ≤ g
    → digits pad op f x y ≡ digits pad op g x y
enough_digits pad op zero y zero zero hf hg = refl
enough_digits pad op zero y zero (suc g) hf hg = refl
enough_digits pad op zero y (suc f) zero hf hg = refl
enough_digits pad op zero y (suc f) (suc g) hf hg = refl
enough_digits pad op (suc x) y zero g hf hg = absurd (omega arith)
enough_digits pad op (suc x) y (suc f) zero hf hg = absurd (omega arith)
enough_digits pad op (suc x) y (suc f) (suc g) hf hg =
    ap (λ t. t * 2 + op (suc x % 2) (y % 2))
      (enough_digits pad op (suc x / 2) (y / 2) f g (omega arith) (omega arith))

-- The lowest bit of a bitwise operation, and the rest of it.
unfold_bits :
    (pad : ℕ → ℕ) (op : ℕ → ℕ → ℕ) (x y : ℕ)
    → bitwise pad op (suc x) y ≡ bitwise pad op (suc x / 2) (y / 2) * 2 + op (suc x % 2) (y % 2)
unfold_bits pad op x y =
    ap (λ t. t * 2 + op (suc x % 2) (y % 2))
      (enough_digits pad op (suc x / 2) (y / 2) x (suc x / 2) (omega arith) (le_refl _))

pub bit_and_halve : (x y : ℕ) → bit_and x y ≡ bit_and (x / 2) (y / 2) * 2 + min (x % 2) (y % 2)
bit_and_halve zero y = simp bit_and-bitwise (omega arith)
bit_and_halve (suc x) y = simp bit_and-bitwise (unfold_bits (λ t. 0) min x y)

pub bit_or_halve : (x y : ℕ) → bit_or x y ≡ bit_or (x / 2) (y / 2) * 2 + max (x % 2) (y % 2)
bit_or_halve zero y = simp bit_or-bitwise (omega arith)
bit_or_halve (suc x) y = simp bit_or-bitwise (unfold_bits (λ t. t) max x y)

-- With 0, by induction on a bound of the first operand.
pub zero_and : (y : ℕ) → bit_and 0 y ≡ 0
zero_and y = simp bit_and-bitwise refl

and_zero : (n x : ℕ) → x ≤ n → bit_and x 0 ≡ 0
and_zero n zero h = refl
and_zero zero (suc x) h = absurd (omega arith)
and_zero (suc n) (suc x) h =
    omega (arith, bit_and_halve (suc x) 0, and_zero n (suc x / 2) (omega arith))

or_zero : (n x : ℕ) → x ≤ n → bit_or x 0 ≡ x
or_zero n zero h = refl
or_zero zero (suc x) h = absurd (omega arith)
or_zero (suc n) (suc x) h =
    omega (arith, bit_or_halve (suc x) 0, or_zero n (suc x / 2) (omega arith))

scale_suc : (q k : ℕ) → q * 2 ^ suc k ≡ 2 * (q * 2 ^ k)
scale_suc q k = omega (arith, ap (λ (t : ℕ). q * t) (pow-suc 2 k))

-- `x & (2^k - 1)` keeps the low `k` bits.
low_part : (k q r : ℕ) → r < 2 ^ k → bit_and (q * 2 ^ k + r) (2 ^ k - 1) ≡ r
low_part zero q r h = omega (arith, and_zero (q * 1 + r) (q * 1 + r) (le_refl _))
low_part (suc k) q r h = ground (
  arith,
  bit_and_halve (q * 2 ^ suc k + r) (2 ^ suc k - 1),
  scale_suc q k,
  pow-suc 2 k,
  one-le-pow k 2,
  low_part k q (r / 2) (omega (arith, pow-suc 2 k)),
)

pub and_low_mask : (k x : ℕ) → bit_and x (2 ^ k - 1) ≡ x % 2 ^ k
and_low_mask k x = ground (arith, one-le-pow k 2, low_part k (x / 2 ^ k) (x % 2 ^ k))

-- `x & !(2^k - 1)` on words of `k + m` bits clears the low `k` bits.
high_part :
    (m k q r : ℕ)
    → q < 2 ^ m
    → r < 2 ^ k
    → bit_and (q * 2 ^ k + r) ((2 ^ m - 1) * 2 ^ k) ≡ q * 2 ^ k
high_part m zero q r hq hr =
    let left : q * 2 ^ 0 + r ≡ q = omega arith in
    let right : (2 ^ m - 1) * 2 ^ 0 ≡ 2 ^ m - 1 = omega arith in
    rw (left, right, and_low_mask m q, mod-eq_of_lt hq) (omega arith)
high_part m (suc k) q r hq hr = ground (
  arith,
  bit_and_halve (q * 2 ^ suc k + r) ((2 ^ m - 1) * 2 ^ suc k),
  scale_suc q k,
  scale_suc (2 ^ m - 1) k,
  pow-suc 2 k,
  high_part m k q (r / 2),
)

-- One bit tested and set.
and_bit_part : (k q r : ℕ) → r < 2 ^ k → bit_and (q * 2 ^ k + r) (2 ^ k) ≡ q % 2 * 2 ^ k
and_bit_part zero q r h = ground (arith, bit_and_halve q 1, and_zero (q / 2) (q / 2) (le_refl _))
and_bit_part (suc k) q r h = ground (
  arith,
  bit_and_halve (q * 2 ^ suc k + r) (2 ^ suc k),
  scale_suc q k,
  scale_suc (q % 2) k,
  pow-suc 2 k,
  and_bit_part k q (r / 2),
)

bit_le : (q m : ℕ) → q % 2 * m ≤ m
bit_le q m = elim (ℕ_discrete (q % 2) 0) [
  | yes e ↦ rw e (omega arith)
  | no ne ↦ let e : q % 2 ≡ 1 = omega (arith, ne) in rw e (omega arith)
]

halves : (q m : ℕ) → q * m ≡ 2 * (q / 2 * m) + q % 2 * m
halves q m =
    let e : q ≡ q / 2 + q / 2 + q % 2 = omega arith in ap {B = ℕ} (λ t. t * m) e ∙ omega arith

and_bit : (k x : ℕ) → bit_and x (2 ^ k) ≡ x / 2 ^ k % 2 * 2 ^ k
and_bit k x =
    let whole : x / 2 ^ k * 2 ^ k + x % 2 ^ k ≡ x = omega (arith, mod-add-div' x (2 ^ k)) in
    ap {B = ℕ} (λ t. bit_and t (2 ^ k)) (sym whole)
    ∙ and_bit_part k (x / 2 ^ k) (x % 2 ^ k) (mod-lt x (one-le-pow k 2 (omega arith)))

-- The bit above the low `k`, in the remainder.
pub mod-next_bit : (k x : ℕ) → x % 2 ^ suc k ≡ x % 2 ^ k + bit_and x (2 ^ k)
mod-next_bit k x =
    let q = x / 2 ^ k in
    let r = x % 2 ^ k in
    let whole = mod-add-div' x (2 ^ k) in
    let low : r < 2 ^ k = mod-lt x (one-le-pow k 2 (omega arith)) in
    let bit = and_bit k x in
    let at : q / 2 * 2 ^ suc k + (q % 2 * 2 ^ k + r) ≡ x =
      omega (arith, scale_suc (q / 2) k, halves q (2 ^ k), whole) in
    let least : q % 2 * 2 ^ k + r < 2 ^ suc k = omega (arith, pow-suc 2 k, bit_le q (2 ^ k), low) in
    ap {B = ℕ} (λ t. t % 2 ^ suc k) (sym at)
    ∙ mul-add-mod_self_right (q / 2) (2 ^ suc k) (q % 2 * 2 ^ k + r)
    ∙ mod-eq_of_lt least
    ∙ omega (arith, bit)

-- The mask of one bit is 0 or the bit.
pub and_bit_cases : (k x : ℕ) → (bit_and x (2 ^ k) ≡ 0) ⊎ (bit_and x (2 ^ k) ≡ 2 ^ k)
and_bit_cases k x =
    let q = x / 2 ^ k in
    let bit = and_bit k x in
    elim (ℕ_discrete (q % 2) 0) [
      | yes e ↦ inl (bit ∙ ap {B = ℕ} (λ t. t * 2 ^ k) e ∙ omega arith)
      | no ne ↦
          let e : q % 2 ≡ 1 = omega (arith, ne) in
          inr (bit ∙ ap {B = ℕ} (λ t. t * 2 ^ k) e ∙ omega arith)
    ]

or_bit_part : (k q r : ℕ) → r < 2 ^ k → bit_or (q * 2 ^ k + r) (2 ^ k) ≡ (q / 2 * 2 + 1) * 2 ^ k + r
or_bit_part zero q r h = ground (arith, bit_or_halve q 1, or_zero (q / 2) (q / 2) (le_refl _))
or_bit_part (suc k) q r h = ground (
  arith,
  bit_or_halve (q * 2 ^ suc k + r) (2 ^ suc k),
  scale_suc q k,
  scale_suc (q / 2 * 2 + 1) k,
  pow-suc 2 k,
  or_bit_part k q (r / 2),
)

pub pow_split : (m k : ℕ) → 2 ^ (m + k) ≡ 2 ^ m * 2 ^ k
pow_split m zero = let e : m + 0 ≡ m = omega arith in rw e (omega arith)
pow_split m (suc k) =
    let e : m + suc k ≡ suc (m + k) = omega arith in
    rw e (omega (arith, pow-suc 2 (m + k), pow_split m k, scale_suc (2 ^ m) k))

-- `!x` on a word.
abbrev pub not_usize : ℕ → ℕ
not_usize x = usize_mod - 1 - x

word_split : (k : ℕ) → k ≤ 64 → 2 ^ (64 - k) * 2 ^ k ≡ usize_mod
word_split k hk =
    let e : 64 - k + k ≡ 64 = omega arith in sym (pow_split (64 - k) k) ∙ ap {B = ℕ} (λ t. 2 ^ t) e

quotient-lt : (x a b : ℕ) → x < a * b → 0 < b → x / b < a
quotient-lt x a b h p = grind arith

mask_shape : (w a b : ℕ) → 0 < b → w ≡ a * b → w - 1 - (b - 1) ≡ (a - 1) * b
mask_shape w zero b p e = omega arith
mask_shape w (suc a) b p e =
    let one_off : suc a - 1 ≡ a = omega arith in rw one_off (omega (arith, e ∙ suc-mul a b))

-- `x & !(2^k - 1)` rounds down to a multiple of `2^k`.
pub and_not_mask :
    (k x : ℕ) → k ≤ 64 → x < usize_mod → bit_and x (not_usize (2 ^ k - 1)) ≡ x - x % 2 ^ k
and_not_mask k x hk hx =
    let mask : not_usize (2 ^ k - 1) ≡ (2 ^ (64 - k) - 1) * 2 ^ k =
      mask_shape usize_mod (2 ^ (64 - k)) (2 ^ k) (one-le-pow k 2 (omega arith))
        (sym (word_split k hk)) in
    let fits : x / 2 ^ k < 2 ^ (64 - k) =
      quotient-lt x (2 ^ (64 - k)) (2 ^ k) (omega (arith, word_split k hk))
        (one-le-pow k 2 (omega arith)) in
    let whole : x / 2 ^ k * 2 ^ k + x % 2 ^ k ≡ x = omega arith in
    let below : x % 2 ^ k < 2 ^ k = mod-lt x (one-le-pow k 2 (omega arith)) in
    rw mask (
      subst (λ y. bit_and y ((2 ^ (64 - k) - 1) * 2 ^ k) ≡ x - x % 2 ^ k) whole
        (high_part (64 - k) k (x / 2 ^ k) (x % 2 ^ k) fits below ∙ omega arith))

pub or_zero_lem : (x : ℕ) → bit_or x 0 ≡ x
or_zero_lem x = or_zero x x (le_refl x)

-- `x | 1` and `x & (usize::MAX - 1)`: the lowest bit set and cleared.
pub or_one : (x : ℕ) → bit_or x 1 ≡ x / 2 * 2 + 1
or_one x = ground (arith, bit_or_halve x 1, or_zero (x / 2) (x / 2) (le_refl _))

pub and_one : (x : ℕ) → bit_and x 1 ≡ x % 2
and_one x = ground (arith, bit_and_halve x 1, and_zero (x / 2) (x / 2) (le_refl _))

-- The top bit of a word.
pub and_top_bit : (x : ℕ) → x < usize_mod → bit_and x (2 ^ 63) ≡ x / 2 ^ 63 * 2 ^ 63
and_top_bit x h =
    let e : x / 2 ^ 63 * 2 ^ 63 + x % 2 ^ 63 ≡ x = omega arith in
    subst (λ y. bit_and y (2 ^ 63) ≡ x / 2 ^ 63 * 2 ^ 63) e
      (and_bit_part 63 (x / 2 ^ 63) (x % 2 ^ 63) (omega arith) ∙ omega arith)

pub or_top_bit : (x : ℕ) → x < usize_mod → bit_or x (2 ^ 63) ≡ 2 ^ 63 + x % 2 ^ 63
or_top_bit x h =
    let e : x / 2 ^ 63 * 2 ^ 63 + x % 2 ^ 63 ≡ x = omega arith in
    subst (λ y. bit_or y (2 ^ 63) ≡ 2 ^ 63 + x % 2 ^ 63) e
      (or_bit_part 63 (x / 2 ^ 63) (x % 2 ^ 63) (omega arith) ∙ omega arith)
