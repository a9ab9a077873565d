-- ===== src/Elfmalloc/SizeClass/Powers.antt =====
-- The classes of powers of two.
use native.Mathlib.Nat.{mod-eq_of_lt, add-mul-mod_self_right, pow-suc, one-le-pow}
use allocators_rs.Base.{
  ℕ, zero, suc, ◌+◌, ◌-◌, ◌*◌, ◌/◌, ◌%◌, ◌^◌, ◌<◌, ◌≤◌, ◌≡◌, sym, ap, ◌∙◌, some, get_elem?, arith,
}
use allocators_rs.Base.Words.{
  usize_mod, mul_usize, sub_usize, next_power_of_two, next_power_of_two_lem,
  next_power_of_two-least, next_power_of_two-lt, trailing_zeros, trailing_zeros-pow, exponent_le,
}
use allocators_rs.Base.Bits.{pow_split}
use allocators_rs.Elfmalloc.SizeClass.{fill_powers, init_powers, get_power}

double_fits : (cur n : ℕ) → cur * 2 ^ suc n < usize_mod → (cur * 2) * 2 ^ n < usize_mod
double_fits cur n h = omega (arith, h, ap {B = ℕ} (λ t. cur * t) (pow-suc 2 n))

double_pow : (cur i : ℕ) → cur * 2 * 2 ^ i ≡ cur * 2 ^ suc i
double_pow cur i = omega (arith, ap {B = ℕ} (λ t. cur * t) (pow-suc 2 i))

double_word : (cur n : ℕ) → cur * 2 ^ suc n < usize_mod → mul_usize cur 2 ≡ cur * 2
double_word cur n h =
    mod-eq_of_lt (grind (arith, double_fits cur n h, one-le-pow n 2 (omega arith)))

pub sub_small : (a b : ℕ) → a ≤ b → b < usize_mod → sub_usize b a ≡ b - a
sub_small a b h bound =
    let shape : b + usize_mod - a ≡ b - a + 1 * usize_mod = omega arith in
    ap {B = ℕ} (λ t. t % usize_mod) shape
    ∙ add-mul-mod_self_right (b - a) 1 usize_mod
    ∙ mod-eq_of_lt (omega arith)

exponent-lt : (c k b : ℕ) → 0 < k → k ≤ 2 ^ c / 2 → next_power_of_two k ≡ 2 ^ b → b < c
exponent-lt zero k b pos h e = absurd (omega arith)
exponent-lt (suc c) k b pos h e =
    let fits : k ≤ 2 ^ c = omega (arith, h, pow-suc 2 c) in
    let le : b ≤ c = exponent_le b c (omega (arith, e, next_power_of_two-least k c fits)) in
    omega (arith, le)

index-pow :
    (s t a b : ℕ)
    → s ≡ 2 ^ a
    → t ≡ 2 ^ b
    → a ≤ b
    → b ≤ 64
    → sub_usize (trailing_zeros t) (trailing_zeros s) ≡ b - a
index-pow s t a b es et h hb =
    let zeros_s : trailing_zeros s ≡ a =
      ap trailing_zeros es ∙ trailing_zeros-pow a (omega (arith, h, hb)) in
    let zeros_t : trailing_zeros t ≡ b = ap trailing_zeros et ∙ trailing_zeros-pow b hb in
    rw (zeros_s, zeros_t) (sub_small a b h (omega (arith, hb)))

module _ {ℓ} {T : Type ℓ} where
  fill_powers-get :
      (f : ℕ → T) (n cur i : ℕ)
      → cur * 2 ^ n < usize_mod
      → i < n
      → get_elem? (fill_powers f n cur).0 i ≡ some (f (cur * 2 ^ i))
  unfolding fill_powers
  fill_powers-get f zero cur i bound h = absurd (omega arith)
  fill_powers-get f (suc n) cur zero bound h = ap (λ t. some (f t)) (omega arith)
  fill_powers-get f (suc n) cur (suc i) bound h = rw (double_word cur n bound) (
      fill_powers-get f n (cur * 2) i (double_fits cur n bound) (omega (arith, h))
      ∙ ap (λ t. some (f t)) (double_pow cur i))

  fill_powers-last :
      (f : ℕ → T) (n cur : ℕ) → cur * 2 ^ n < usize_mod → (fill_powers f n cur).1 ≡ cur * 2 ^ n
  unfolding fill_powers
  fill_powers-last f zero cur bound = omega arith
  fill_powers-last f (suc n) cur bound =
      rw (double_word cur n bound)
        (fill_powers-last f n (cur * 2) (double_fits cur n bound) ∙ double_pow cur n)

  pub init_powers-max :
      (start n : ℕ) (f : ℕ → T)
      → next_power_of_two start * 2 ^ n < usize_mod
      → (init_powers start n f).max_size ≡ next_power_of_two start * 2 ^ n / 2
  unfolding init_powers
  init_powers-max start n f bound =
      ap {B = ℕ} (λ t. t / 2) (fill_powers-last f n (next_power_of_two start) bound)

  -- With classes from `start` on whose sizes do not overflow, a size from `start` up to the largest
  -- class is served by the class of its power of two: the least that is not less than it, and less
  -- than twice it.
  pub get_power-init_powers :
      (start n_classes k : ℕ) (f : ℕ → T)
      → next_power_of_two start * 2 ^ n_classes < usize_mod
      → start ≤ k
      → 0 < k
      → k ≤ (init_powers start n_classes f).max_size
      → (get_power (init_powers start n_classes f) k ≡ some (f (next_power_of_two k)))
        × (k ≤ next_power_of_two k)
        × (next_power_of_two k < 2 * k)
        × ((i : ℕ) → k ≤ 2 ^ i → next_power_of_two k ≤ 2 ^ i)
  unfolding get_power init_powers
  get_power-init_powers start n k f bound low pos high =
      let total = init_powers-max start n f bound in
      let k_word : k < usize_mod = omega (arith, high, total, bound) in
      let (a, ha, ea, la) = next_power_of_two_lem start (omega (arith, low, k_word)) in
      let (b, hb, eb, lb) = next_power_of_two_lem k k_word in
      let whole : next_power_of_two start * 2 ^ n ≡ 2 ^ (a + n) =
        ap {B = ℕ} (λ t. t * 2 ^ n) ea ∙ sym (pow_split a n) in
      let above : a ≤ b =
        exponent_le a b
          (omega (arith, ea, next_power_of_two-least start b (omega (arith, low, lb)))) in
      let below : b < a + n = exponent-lt (a + n) k b pos (omega (arith, high, total, whole)) eb in
      let class : 2 ^ a * 2 ^ (b - a) ≡ 2 ^ b =
        sym (pow_split a (b - a)) ∙ ap {B = ℕ} (λ t. 2 ^ t) (omega (arith, above)) in
      (
        ap (get_elem? (fill_powers f n (next_power_of_two start)).0)
              (index-pow (next_power_of_two start) (next_power_of_two k) a b ea eb above hb)
            ∙ fill_powers-get f n (next_power_of_two start) (b - a) bound
                (omega (arith, above, below))
            ∙ ap (λ t. some (f t)) (ap {B = ℕ} (λ t. t * 2 ^ (b - a)) ea ∙ class ∙ sym eb),
        omega (arith, lb, eb),
        omega (arith, eb, next_power_of_two-lt k b pos eb),
        λ i h. next_power_of_two-least k i h,
      )
