-- ===== src/Elfmalloc/Slag/Free.antt =====
-- What a free of an object of a slag does, and where its bit is.
use native.Mathlib.Nat.{
  mod-eq_of_lt, one-le-pow, add-mul-mod_self_right, add-mul-div_right, div-eq_of_lt,
}
use allocators_rs.Base.{
  ℕ, ◌+◌, ◌-◌, ◌*◌, ◌/◌, ◌^◌, ◌%◌, ◌<◌, ◌≤◌, ◌≡◌, refl, ap, ◌∙◌, Bool, true, false, bit_or, arith,
  ◌==◌, if◌then◌else◌,
}
use allocators_rs.Base.Words.{usize_mod, add_usize, sub_usize}
use allocators_rs.Base.Bits.{and_low_mask}
use allocators_rs.Elfmalloc.RefCount.{mask, inc_n}
use allocators_rs.Elfmalloc.RefCount.Refine.{encode, results-encode}
use allocators_rs.Elfmalloc.Slag.{
  Metadata, SlagState, null, available, full, split_index, get_word, set_bit, transition, free,
}

one_less : (a : ℕ) → 0 < a → a < usize_mod → sub_usize a 1 ≡ a - 1
one_less a pos h =
    let e : a + usize_mod - 1 ≡ a - 1 + 1 * usize_mod = omega arith in
    ap {B = ℕ} (λ t. t % usize_mod) e
    ∙ add-mul-mod_self_right (a - 1) 1 usize_mod
    ∙ mod-eq_of_lt (omega arith)

transition_lem :
    (c : Bool) (n : ℕ) (m : Metadata)
    → 0 < m.cutoff_objects
    → m.cutoff_objects ≤ m.n_objects
    → m.n_objects < usize_mod
    → transition (c, n) m ≡ (
        if c
        then null
        else if n + 1 == m.cutoff_objects
        then available
        else if n + 1 == m.n_objects
        then full
        else null)
unfolding transition
transition_lem true n m pos le h = refl
transition_lem false n m pos le h =
    rw (one_less m.cutoff_objects pos (omega arith), one_less m.n_objects (omega arith) h)
      (ground arith)

inc_word : (c : Bool) (n : ℕ) → n + 1 < mask → (inc_n (encode (c, n)) 1).1 ≡ encode (c, n + 1)
unfolding inc_n
inc_word true n h = omega arith
inc_word false n h = omega arith

-- A free adds one to the count, whether or not the slag is claimed, and does not touch the claim. It
-- reports that the slag became available just when the slag is not claimed and the new count is the
-- cutoff, and that it became full just when it is not claimed and the new count is the number of
-- objects, unless that is the cutoff.
pub free-Transition :
    (c : Bool) (n : ℕ) (s : SlagState) (m : Metadata) (item : ℕ)
    → s.rc ≡ encode (c, n)
    → n + 1 < mask
    → 0 < m.cutoff_objects
    → m.cutoff_objects ≤ m.n_objects
    → m.n_objects < usize_mod
    → ((free s m item).0 ≡ (
        if c
        then null
        else if n + 1 == m.cutoff_objects
        then available
        else if n + 1 == m.n_objects
        then full
        else null))
      × ((free s m item).1.rc ≡ encode (c, n + 1))
unfolding free
free-Transition c n s m item e bound pos le h =
    let r = results-encode c n 1 (omega arith) in
    (
      ap (λ t. transition (inc_n t 1).0 m) e
          ∙ ap (λ t. transition t m) r.2
          ∙ transition_lem c n m pos le h,
      ap (λ t. (inc_n t 1).1) e ∙ inc_word c n bound,
    )

-- The word and the bit of cell `i`.
get_word-cell :
    (raw_self i d : ℕ) (m : Metadata)
    → d < 2 ^ m.bit_rep_shift
    → m.objects_offset + raw_self + (i * 2 ^ m.bit_rep_shift + d) < usize_mod
    → get_word raw_self (m.objects_offset + raw_self + (i * 2 ^ m.bit_rep_shift + d)) m
      ≡ (i / 64, i % 64)
unfolding get_word split_index
get_word-cell raw_self i d m inside h =
    let base = m.objects_offset + raw_self in
    let cell = i * 2 ^ m.bit_rep_shift + d in
    let start : add_usize m.objects_offset raw_self ≡ base = mod-eq_of_lt (omega arith) in
    let shape : base + cell + usize_mod - base ≡ cell + 1 * usize_mod = omega arith in
    let offset : sub_usize (base + cell) base ≡ cell =
      ap {B = ℕ} (λ t. t % usize_mod) shape
      ∙ add-mul-mod_self_right cell 1 usize_mod
      ∙ mod-eq_of_lt (omega arith) in
    let index : cell / 2 ^ m.bit_rep_shift ≡ i =
      ap {B = ℕ} (λ t. t / 2 ^ m.bit_rep_shift) (omega arith)
      ∙ add-mul-div_right d i (one-le-pow m.bit_rep_shift 2 (omega arith))
      ∙ omega (arith, div-eq_of_lt inside) in
    rw (start, offset, index) (ap (λ t. (i / 64, t)) (and_low_mask 6 i))

-- A free of any address inside cell `i` of a slag's objects, where cells are as large as a bit of the
-- bitset stands for, sets bit `i % 64` of word `i / 64` of the bitset, and leaves the other words.
pub free-cell :
    (s : SlagState) (i d w : ℕ) (m : Metadata)
    → d < 2 ^ m.bit_rep_shift
    → m.objects_offset + s.address + (i * 2 ^ m.bit_rep_shift + d) < usize_mod
    → (free s m (m.objects_offset + s.address + (i * 2 ^ m.bit_rep_shift + d))).1.bitset w
      ≡ (if w == i / 64 then bit_or (s.bitset w) (2 ^ (i % 64)) else s.bitset w)
unfolding free set_bit
free-cell s i d w m inside h =
    ap (λ (r : ℕ × ℕ). set_bit s.bitset r.0 r.1 w) (get_word-cell s.address i d m inside h)
