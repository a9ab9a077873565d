-- ===== src/Slab/Layout/Fill.antt =====
-- What the search for the number of objects of a slab finds.
use native.Mathlib.Nat.{mod-lt, div-mul-le_self, le_of_lt, add-mod-mod, mod-add-mod, mod_self}
use allocators_rs.Base.{
  ℕ, zero, suc, ◌+◌, ◌-◌, ◌*◌, ◌%◌, ◌≤◌, ◌<◌, ◌≡◌, refl, sym, ap, ◌∙◌, ◌⊎◌, inl, inr, Option, some,
  none, Returns, returns, Checked, false, arith, leb, leb→le, le→leb, ==_ne, Bool-cases,
}
use allocators_rs.Base.Words.{usize_mod}
use allocators_rs.Slab.Color.{new}
use allocators_rs.Slab.Layout.{
  MemLayout, Layout, hdr_size, padding_needed_for, bytes_for, array_offset, fill, finish,
  finish_checked, for_slab_size,
}

pub stack-le-array_offset : (l : MemLayout) (begin n : ℕ) → begin + n * 8 ≤ array_offset l begin n
unfolding array_offset bytes_for
stack-le-array_offset l begin n = omega arith

pub padded_aligned : (n a : ℕ) → 0 < a → (n + padding_needed_for n a) % a ≡ 0
unfolding padding_needed_for
padded_aligned n a h =
    let below : n % a ≤ a = le_of_lt (mod-lt n h) in
    let whole : n % a + (a - n % a) ≡ a = omega arith in
    add-mod-mod n (a - n % a) a
    ∙ sym (mod-add-mod n a (a - n % a))
    ∙ ap {B = ℕ} (λ t. t % a) whole
    ∙ mod_self a

-- The state that the loop ends in: either nothing fits, or the objects fit and one more does not.
pub record Filled (l : MemLayout) (begin slab_size : ℕ) (r : ℕ × ℕ) : Type 0 where
  pub here : ((r.0 ≡ 0) × (r.1 ≡ 0)) ⊎ ((0 < r.0) × (r.1 ≡ array_offset l begin r.0))
  pub fits : r.1 + r.0 * l.size ≤ slab_size
  pub full : slab_size < array_offset l begin (r.0 + 1) + (r.0 + 1) * l.size

one_more : (n s : ℕ) → (n + 1) * s ≡ n * s + s
one_more n s = omega arith

-- Room for one more object, its slot and padding.
abbrev pub Searchable : MemLayout → ℕ → Type 0
Searchable l slab_size = slab_size + l.size + l.align + 48 < usize_mod

padding-lt : (n a : ℕ) → 0 < a → padding_needed_for n a < a
unfolding padding_needed_for
padding-lt n a h = mod-lt (a - n % a) h

-- One object more does not overflow.
next_fits :
    (l : MemLayout) (slab_size n off : ℕ)
    → 0 < l.align
    → ((n ≡ 0) × (off ≡ 0)) ⊎ ((0 < n) × (off ≡ array_offset l hdr_size n))
    → off + n * l.size ≤ slab_size
    → Searchable l slab_size
    → array_offset l hdr_size (n + 1) + (n + 1) * l.size < usize_mod
unfolding array_offset bytes_for
next_fits l slab_size n off pos (inl (e, f)) fits room = omega (
  arith,
  e,
  f,
  padding-lt (hdr_size + (n + 1) * 8) l.align pos,
  one_more n l.size,
  ap {B = ℕ} (λ t. t * l.size) e,
)
next_fits l slab_size n off pos (inr (some_objects, e)) fits room =
    omega (arith, e, fits, padding-lt (hdr_size + (n + 1) * 8) l.align pos, one_more n l.size)

fill-Filled :
    (fuel : ℕ) (l : MemLayout) (slab_size n off : ℕ)
    → 0 < l.align
    → Searchable l slab_size
    → slab_size < n + fuel
    → ((n ≡ 0) × (off ≡ 0)) ⊎ ((0 < n) × (off ≡ array_offset l hdr_size n))
    → off + n * l.size ≤ slab_size
    → n * 8 ≤ slab_size
    → Returns (Filled l hdr_size slab_size) (fill fuel l hdr_size slab_size n off)
unfolding fill
fill-Filled zero l slab_size n off pos searchable enough at fits room = absurd (omega arith)
fill-Filled (suc fuel) l slab_size n off pos searchable enough at fits room =
    let sum = array_offset l hdr_size (n + 1) + (n + 1) * l.size in
    let word : leb usize_mod sum ≡ false =
      ground (arith, next_fits l slab_size n off pos at fits searchable) in
    elim (Bool-cases (leb sum slab_size)) [
      | inl more ↦
          let le = leb→le sum slab_size more in
          rw (word, more)
            (fill-Filled fuel l slab_size (n + 1) (array_offset l hdr_size (n + 1)) pos searchable
              (omega arith) (inr (omega arith, refl)) le
              (omega (arith, stack-le-array_offset l hdr_size (n + 1))))
      | inr stop ↦
          rw (word, stop) (returns (record { here = at; fits = fits; full = ground arith }))
    ]

-- What a layout of a slab promises.
pub record Fits (l : Layout) (slab_size unused : ℕ) : Type 0 where
  pub some_objects : 0 < l.num_obj
  pub header : hdr_size ≤ l.stack_begin_offset
  pub stack_aligned : l.stack_begin_offset % 8 ≡ 0
  pub stack : l.stack_begin_offset + bytes_for l.num_obj ≤ l.array_begin_offset
  pub aligned : l.array_begin_offset % l.layout.align ≡ 0
  pub whole : l.array_begin_offset + l.num_obj * l.layout.size + unused ≡ slab_size
  pub colors : l.color_settings.max_color ≤ unused
  pub coloring : l.color_settings ≡ new l.layout.align unused
  pub maximal :
      slab_size
      < array_offset l.layout l.stack_begin_offset (l.num_obj + 1) + (l.num_obj + 1) * l.layout.size

abbrev pub Sized : MemLayout → ℕ → Option (Layout × ℕ) → Type 0
Sized l slab_size none = slab_size < array_offset l hdr_size 1 + l.size
Sized l slab_size (some (s, unused)) = (s.layout ≡ l) × Fits s slab_size unused

offset_of_pos :
    (l : MemLayout) (begin slab_size n off : ℕ)
    → Filled l begin slab_size (suc n, off)
    → off ≡ array_offset l begin (suc n)
offset_of_pos l begin slab_size n off f = ground arith

stack_room :
    (l : MemLayout) (n off : ℕ)
    → off ≡ array_offset l hdr_size (suc n)
    → hdr_size + bytes_for (suc n) ≤ off
unfolding bytes_for
stack_room l n off e = omega (arith, stack-le-array_offset l hdr_size (suc n))

max_color-le : (align unused : ℕ) → (new align unused).max_color ≤ unused
unfolding new
max_color-le align unused = div-mul-le_self unused align

finish-Sized :
    (l : MemLayout) (slab_size n off : ℕ)
    → 0 < l.align
    → Filled l hdr_size slab_size (n, off)
    → Returns (Sized l slab_size) (finish l hdr_size slab_size (n, off))
unfolding finish array_offset bytes_for
finish-Sized l slab_size zero off h f = returns (omega (arith, f.full, f.fits))
finish-Sized l slab_size (suc n) off h f =
    let e = offset_of_pos l hdr_size slab_size n off f in
    let room = stack-le-array_offset l hdr_size (suc n) in
    let unused = slab_size - off - suc n * l.size in
    let fits : off + suc n * l.size ≤ slab_size = f.fits in
    let color = max_color-le l.align unused in
    rw
      (
        ==_ne (suc n) 0 (omega arith),
        ==_ne off 0 (omega arith),
        le→leb (off + (new l.align unused).max_color + suc n * l.size) slab_size (omega arith),
      )
      (returns (
        refl,
        record {
          some_objects = omega arith;
          header = omega arith;
          stack_aligned = refl;
          stack = stack_room l n off e;
          aligned = rw e (padded_aligned (hdr_size + bytes_for (suc n)) l.align h);
          whole = omega arith;
          colors = color;
          coloring = refl;
          maximal = f.full;
        },
      ))

finish_checked-Sized :
    (l : MemLayout) (slab_size : ℕ) (c : Checked (ℕ × ℕ))
    → 0 < l.align
    → Returns (Filled l hdr_size slab_size) c
    → Returns (Sized l slab_size) (finish_checked l hdr_size slab_size c)
unfolding finish_checked
finish_checked-Sized l slab_size c h (returns {a = r} f) = finish-Sized l slab_size r.0 r.1 h f

-- For a slab, an object and an alignment whose sizes together are not within 48 of the largest word,
-- the search neither overflows nor fails an assertion. It returns no layout just if a slab cannot hold
-- one object, and otherwise a layout in which header, stack and objects follow one another without
-- overlap and properly aligned, the objects and the unused space make up the slab, the colours are those
-- of the unused space and stay within it, and one more object would not fit.
pub for_slab_size-Sized :
    (l : MemLayout) (slab_size : ℕ)
    → 0 < l.align
    → Searchable l slab_size
    → Returns (Sized l slab_size) (for_slab_size l slab_size)
unfolding for_slab_size
for_slab_size-Sized l slab_size h searchable =
    finish_checked-Sized l slab_size (fill (slab_size + 1) l hdr_size slab_size 0 0) h (
      fill-Filled (slab_size + 1) l slab_size 0 0 h searchable (omega arith) (inl (refl, refl))
        (omega arith) (omega arith))
