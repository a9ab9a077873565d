-- ===== src/Elfmalloc/RefCount.antt =====
-- `RefCount` of elfmalloc/src/slag.rs on a 64-bit target: a word whose highest bit says whether a
-- thread has claimed the slag. Each operation is one atomic instruction, so that the operations of
-- several threads are a sequence, in some order.
pub mod Refine
use allocators_rs.Base.{ℕ, ◌^◌, Bool, true, false, List, [], ◌∷◌, ◌==◌, bit_and, bit_or}
use allocators_rs.Base.Words.{add_usize, sub_usize}
use allocators_rs.Base.Bits.{not_usize}

abbrev pub mask : ℕ
mask = 2 ^ 63

-- What is returned, and the word afterwards.
unfoldable pub claim : ℕ → Bool × ℕ
claim was = (bit_and was mask == 0, bit_or was mask)

unfoldable pub unclaim : ℕ → (Bool × ℕ) × ℕ
unclaim was =
    ((bit_and was mask == mask, bit_and was (not_usize mask)), bit_and was (not_usize mask))

unfoldable pub inc_n : ℕ → ℕ → (Bool × ℕ) × ℕ
inc_n was n = ((bit_and was mask == mask, bit_and was (not_usize mask)), add_usize was n)

unfoldable pub dec_n : ℕ → ℕ → (Bool × ℕ) × ℕ
dec_n was n = ((bit_and was mask == mask, bit_and was (not_usize mask)), sub_usize was n)

unfoldable pub load : ℕ → Bool × ℕ
load was = (bit_and was mask == mask, bit_and was (not_usize mask))

-- The operations of all threads.
pub data Op : Type 0 where
  claims : Op
  unclaims : Op
  increments : ℕ → Op
  decrements : ℕ → Op

unfoldable pub step : Op → ℕ → ℕ
step claims was = (claim was).1
step unclaims was = (unclaim was).1
step (increments n) was = (inc_n was n).1
step (decrements n) was = (dec_n was n).1

unfoldable pub run : List Op → ℕ → ℕ
run [] was = was
run (op ∷ ops) was = run ops (step op was)
