-- ===== src/Slab/Aligned/Place.antt =====
-- The objects of an aligned slab, and the way back from an object to its slab.
use native.Mathlib.Nat.{
  mod-eq_of_lt, mod_self, mod-add-mod, dvd_of_mod-eq-zero, mod-eq-zero_of_dvd, dvd_trans, mod-lt,
  le_of_suc-le-suc, zero-lt-suc,
}
use allocators_rs.Base.{
  ℕ, suc, ◌+◌, ◌-◌, ◌*◌, ◌/◌, ◌^◌, ◌<◌, ◌≤◌, ◌%◌, ◌≡◌, ◌≢◌, sym, ap, subst, ◌∙◌, ◌&&◌, arith, ◌==◌,
  if◌then◌else◌, ltb, lt→ltb,
}
use allocators_rs.Base.Words.{usize_mod}
use allocators_rs.Base.Bits.{and_not_mask}
use allocators_rs.Slab.Init.{InitSystem}
use allocators_rs.Slab.Color.{scale_mono}
use allocators_rs.Slab.Color
use allocators_rs.Slab.Layout.{Layout, nth_obj}
use allocators_rs.Slab.Layout.Fill.{Fits}
use allocators_rs.Slab.Layout.Place.{
  nth_obj_inside, nth_obj_placed, nth_obj_aligned, multiple_aligned,
}
use allocators_rs.Slab.Aligned.{Backing, ptr_to_slab}

-- A layout that fits the blocks of the backing allocator, with what the constructors of slab
-- allocators check of size and alignment.
pub record Config (I : InitSystem) (B : Backing) : Type 0 where
  pub l : Layout
  pub unused : ℕ
  pub fits : Fits l (2 ^ B.log_size) unused
  pub size_pos : 0 < l.layout.size
  pub align_pos : 0 < l.layout.align
  pub size_aligned : l.layout.size % l.layout.align ≡ 0
  pub slab_aligned : 2 ^ B.log_size % l.layout.align ≡ 0
  pub min_aligned : l.layout.align % I.min_align ≡ 0

-- The slab of an address that an object may have; null for any other.
unfoldable pub slab_of : InitSystem → Backing → ℕ → ℕ
slab_of I B p =
    if ltb p usize_mod && (p % I.min_align == 0) then ptr_to_slab (2 ^ B.log_size) p else 0

aligned_trans : (x a b : ℕ) → x % a ≡ 0 → a % b ≡ 0 → x % b ≡ 0
aligned_trans x a b h e =
    mod-eq-zero_of_dvd b (dvd_trans b (dvd_of_mod-eq-zero b e) (dvd_of_mod-eq-zero a h))

offset_mod : (x d m : ℕ) → x % m ≡ 0 → d < m → (x + d) % m ≡ d
offset_mod x d m h lt =
    let e : x % m + d ≡ d = omega (arith, h) in
    sym (mod-add-mod x m d) ∙ ap {B = ℕ} (λ t. t % m) e ∙ mod-eq_of_lt lt

-- Masking the low bits of an address inside an aligned slab gives the slab.
pub ptr_to_slab-inside :
    (k x p : ℕ)
    → k ≤ 64
    → x % 2 ^ k ≡ 0
    → x ≤ p
    → p < x + 2 ^ k
    → x + 2 ^ k ≤ usize_mod
    → ptr_to_slab (2 ^ k) p ≡ x
unfolding ptr_to_slab
ptr_to_slab-inside k x p hk aligned low high top =
    let shape : x + (p - x) ≡ p = omega arith in
    let e : p % 2 ^ k ≡ p - x =
      ap {B = ℕ} (λ t. t % 2 ^ k) (sym shape)
      ∙ offset_mod x (p - x) (2 ^ k) aligned (omega arith) in
    rw (and_not_mask k p hk (omega arith), e) (omega arith)

module _ (I : InitSystem) (B : Backing) (c : Config I B) where
  unfoldable pub color_at : ℕ → ℕ
  color_at round = round % suc (c.unused / c.l.layout.align) * c.l.layout.align

  unfoldable pub object : ℕ → ℕ → ℕ → ℕ
  unfolding color_at
  object slab round n = nth_obj c.l slab (color_at round) n

  color_aligned : (round : ℕ) → color_at round % c.l.layout.align ≡ 0
  unfolding color_at
  color_aligned round =
      multiple_aligned (round % suc (c.unused / c.l.layout.align)) c.l.layout.align c.l.layout.align
        (mod_self c.l.layout.align)

  color_bound : (round : ℕ) → color_at round ≤ c.l.color_settings.max_color
  unfolding color_at Color.new
  color_bound round =
      let m = c.unused / c.l.layout.align in
      let e : c.l.color_settings.max_color ≡ m * c.l.layout.align =
        ap (λ s. s.max_color) c.fits.coloring in
      subst (λ t. color_at round ≤ t) (sym e)
        (scale_mono (round % suc m) m c.l.layout.align
          (le_of_suc-le-suc (mod-lt round (zero-lt-suc m))))

  module _ (slab : ℕ) (slab_multiple : slab % 2 ^ B.log_size ≡ 0)
      (top : slab + 2 ^ B.log_size ≤ usize_mod) where
    -- The address of an object is a word, aligned so that its status can be packed with it, and
    -- the mask finds its slab.
    pub object-slab :
        (round n : ℕ)
        → n < c.l.num_obj
        → (object slab round n < usize_mod)
          × (object slab round n % I.min_align ≡ 0)
          × (slab_of I B (object slab round n) ≡ slab)
    unfolding slab_of object
    object-slab round n h =
        let p = object slab round n in
        let (low, high) =
          nth_obj_inside c.l (2 ^ B.log_size) c.unused slab (color_at round) n c.fits
            (color_bound round) h in
        let word : p < usize_mod = omega (arith, c.size_pos, top) in
        let aligned : p % I.min_align ≡ 0 =
          aligned_trans p c.l.layout.align I.min_align
            (nth_obj_aligned c.l (2 ^ B.log_size) c.unused slab (color_at round) n c.fits
              (aligned_trans slab (2 ^ B.log_size) c.l.layout.align slab_multiple c.slab_aligned)
              (color_aligned round) c.size_aligned)
            c.min_aligned in
        (
          word,
          aligned,
          rw (lt→ltb p usize_mod word, aligned)
              (ptr_to_slab-inside B.log_size slab p B.log_size-≤ slab_multiple low
                (omega (arith, c.size_pos)) top),
        )

    pub object_ne :
        (round m n : ℕ) → m < n → n < c.l.num_obj → object slab round m ≢ object slab round n
    unfolding object
    object_ne round m n hm hn e =
        let r =
          nth_obj_placed c.l (2 ^ B.log_size) c.unused slab (color_at round) n m c.fits
            (color_bound round) hn hm in
        omega (arith, c.size_pos, r.1, e)
