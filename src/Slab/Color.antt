-- ===== src/Slab/Color.antt =====
-- Slab colouring, `util::color::on` of slab-alloc/src/util.rs. `none` is the failed `assert!`.
use native.Mathlib.Nat.{
  suc-mod, mod-eq_of_lt, mod_self, mod-lt, zero-mod, suc-mul, le_of_suc-le-suc, zero-lt-suc,
  le_trans, div-mul-le_self, eq_of_mul-eq-mul_right,
}
use allocators_rs.Base.{
  ℕ, zero, suc, ◌+◌, ◌*◌, ◌/◌, ◌%◌, ◌≤◌, ◌<◌, ◌≡◌, Option, some, none, arith, leb, ◌==◌,
  if◌then◌else◌, dec_lt, ℕ_discrete, ==_self, ==_ne, le→leb,
}

pub record ColorSettings : Type 0 where
  pub max_color : ℕ
  pub cur_color : ℕ

unfoldable pub new : ℕ → ℕ → ColorSettings
new align unused = record { max_color = unused / align * align; cur_color = 0 }

unfoldable pub next_color : ColorSettings → ℕ → Option (ℕ × ColorSettings)
next_color s align =
    if leb s.cur_color s.max_color
    then some (
      s.cur_color,
      record s { cur_color = if s.cur_color == s.max_color then 0 else s.cur_color + align },
    )
    else none

-- The settings after `k` slabs have been coloured.
pub after : ℕ → ColorSettings → ℕ → Option ColorSettings
after zero s align = some s
after (suc k) s align = elim (after k s align) [
  | none ↦ none
  | some t ↦ elim (next_color t align) [ none ↦ none | some (c, t') ↦ some t' ]
]

-- One round of a counter modulo `m + 1`.
step_mod : (k m : ℕ) → suc k % suc m ≡ (if k % suc m == m then 0 else suc (k % suc m))
step_mod k m = elim (dec_lt (suc (k % suc m)) (suc m)) [
  | yes p ↦ rw (suc-mod k (suc m), mod-eq_of_lt p) (ground arith)
  | no p ↦
      let e : suc (k % suc m) ≡ suc m = omega arith in
      rw (suc-mod k (suc m), e, mod_self) (ground arith)
]

pub scale_mono : (r m a : ℕ) → r ≤ m → r * a ≤ m * a
scale_mono r m a h = grind arith

scale_inj : (r m a : ℕ) → 0 < a → r * a ≡ m * a → r ≡ m
scale_inj r m a h e = eq_of_mul-eq-mul_right a h r m e

-- Colours in units of the alignment.
abbrev scaled : ℕ → ℕ → ℕ → ColorSettings
scaled a m r = record { max_color = m * a; cur_color = r * a }

next_color-scaled :
    (a m r : ℕ)
    → 0 < a
    → r ≤ m
    → next_color (scaled a m r) a ≡ some (r * a, scaled a m (if r == m then 0 else suc r))
unfolding next_color
next_color-scaled a m r h le = elim (ℕ_discrete r m) [
  | yes e ↦ rw (e, ==_self m, le→leb (m * a) (m * a) (omega arith), ==_self (m * a)) (ground arith)
  | no ne ↦
      rw
        (
          le→leb (r * a) (m * a) (scale_mono r m a le),
          ==_ne (r * a) (m * a) (λ e. ne (scale_inj r m a h e)),
          ==_ne r m ne,
        )
        (ground (arith, suc-mul r a))
]

-- After `k` slabs.
abbrev pub at_round : ℕ → ℕ → ℕ → ColorSettings
at_round align unused k = scaled align (unused / align) (k % suc (unused / align))

pub next_color-at_round :
    (align unused k : ℕ)
    → 0 < align
    → next_color (at_round align unused k) align
      ≡ some (k % suc (unused / align) * align, at_round align unused (suc k))
next_color-at_round align unused k h = rw (step_mod k (unused / align)) (
    next_color-scaled align (unused / align) (k % suc (unused / align)) h
      (le_of_suc-le-suc (mod-lt k (zero-lt-suc (unused / align)))))

pub new-at_round : (align unused : ℕ) → new align unused ≡ at_round align unused 0
unfolding new
new-at_round align unused = rw (zero-mod (suc (unused / align))) (ground arith)

after-new :
    (align unused k : ℕ)
    → 0 < align
    → after k (new align unused) align ≡ some (at_round align unused k)
unfolding after new
after-new align unused zero h = rw zero-mod (ground arith)
after-new align unused (suc k) h =
    rw (after-new align unused k h, next_color-at_round align unused k h)

-- After any number of slabs the next slab is coloured without a panic. Its colour is the number of
-- earlier slabs, modulo the number of colours that fit the unused space, times the alignment; so
-- the colours go round through all multiples of the alignment up to the unused space, and stay
-- within it.
pub color_cycle :
    (align unused k : ℕ)
    → 0 < align
    → (s t : ColorSettings) × (after k (new align unused) align ≡ some s)
      × (next_color s align ≡ some (k % (unused / align + 1) * align, t))
      × (k % (unused / align + 1) * align ≤ unused)
      × (t.max_color ≤ unused)
color_cycle align unused k h =
    let m = unused / align in
    let r-le : k % suc m ≤ m = le_of_suc-le-suc (mod-lt k (zero-lt-suc m)) in
    let e : m + 1 ≡ suc m = omega arith in
    let top : m * align ≤ unused = div-mul-le_self unused align in
    rw e (
      at_round align unused k,
      at_round align unused (suc k),
      after-new align unused k h,
      next_color-at_round align unused k h,
      le_trans (scale_mono (k % suc m) m align r-le) top,
      top,
    )
