-- ===== src/Elfmalloc/Slag.antt =====
-- Freeing an object of a `Slag`, elfmalloc/src/slag.rs, on a 64-bit target: the fields of `Metadata`
-- and `Slag` that it uses. The bitset is a function of the word's index. The two atomic
-- instructions of `free` are taken together.
pub mod Free
use allocators_rs.Base.{
  ℕ, ◌+◌, ◌-◌, ◌/◌, ◌^◌, Bool, true, false, not, bit_and, bit_or, ◌==◌, if◌then◌else◌,
}
use allocators_rs.Base.Words.{add_usize, sub_usize}
use allocators_rs.Base.Bits.{not_usize}
use allocators_rs.Elfmalloc.RefCount.{inc_n}

pub record Metadata : Type 0 where
  pub n_objects : ℕ
  pub objects_offset : ℕ
  pub bit_rep_shift : ℕ
  pub cutoff_objects : ℕ

pub record SlagState : Type 0 where
  pub address : ℕ
  pub rc : ℕ
  pub bitset : ℕ → ℕ

pub data Transition : Type 0 where
  null : Transition
  available : Transition
  full : Transition

unfoldable pub find : ℕ → ℕ → ℕ
find item alignment = bit_and item (not_usize (alignment - 1))

unfoldable pub split_index : ℕ → ℕ × ℕ
split_index item_index = (item_index / 2 ^ 6, bit_and item_index 63)

unfoldable pub get_word : ℕ → ℕ → Metadata → ℕ × ℕ
get_word raw_self item m =
    split_index (sub_usize item (add_usize m.objects_offset raw_self) / 2 ^ m.bit_rep_shift)

-- The bit at `word_ix` of word `word` is set.
unfoldable pub set_bit : (ℕ → ℕ) → ℕ → ℕ → ℕ → ℕ
set_bit bitset word word_ix i = if i == word then bit_or (bitset i) (2 ^ word_ix) else bitset i

unfoldable pub transition : Bool × ℕ → Metadata → Transition
transition (claimed, was) m =
    if not claimed
    then if was == sub_usize m.cutoff_objects 1
      then available
      else if was == sub_usize m.n_objects 1
      then full
      else null
    else null

unfoldable pub free : SlagState → Metadata → ℕ → Transition × SlagState
free s m item =
    let (word, word_ix) = get_word s.address item m in
    let r = inc_n s.rc 1 in
    (transition r.0 m, record s { rc = r.1; bitset = set_bit s.bitset word word_ix })
