-- ===== src/Elfmalloc/RefCount/Refine.antt =====
-- The word of a `RefCount` against what it stands for: a claim and a count.
use allocators_rs.Base.{
  ℕ, ◌+◌, ◌-◌, ◌<◌, ◌≤◌, ◌≡◌, refl, ap, ap₂, ◌∙◌, Bool, true, false, not, List, [], ◌∷◌, arith,
  ◌==◌, if◌then◌else◌, bit_and,
}
use allocators_rs.Base.Bits.{and_top_bit, or_top_bit, and_low_mask, not_usize}
use allocators_rs.Elfmalloc.RefCount.{
  mask, claim, unclaim, inc_n, dec_n, Op, claims, unclaims, increments, decrements, step, run,
}

-- Is it claimed, and how much is the count?
abbrev pub Count : Type 0
Count = Bool × ℕ

abbrev pub encode : Count → ℕ
encode (claimed, n) = (if claimed then mask else 0) + n

-- The operations on counts: `n` more or fewer, whether or not the slag is claimed.
abbrev pub count_step : Op → Count → Count
count_step claims (claimed, n) = (true, n)
count_step unclaims (claimed, n) = (false, n)
count_step (increments m) (claimed, n) = (claimed, n + m)
count_step (decrements m) (claimed, n) = (claimed, n - m)

-- The counts stay below the highest bit, and none is decreased below 0.
abbrev pub InBounds : List Op → Count → Type 0
InBounds [] (claimed, n) = n < mask
InBounds (claims ∷ ops) (claimed, n) = (n < mask) × InBounds ops (true, n)
InBounds (unclaims ∷ ops) (claimed, n) = (n < mask) × InBounds ops (false, n)
InBounds (increments m ∷ ops) (claimed, n) = (n + m < mask) × InBounds ops (claimed, n + m)
InBounds (decrements m ∷ ops) (claimed, n) = (n < mask) × (m ≤ n) × InBounds ops (claimed, n - m)

abbrev pub count_run : List Op → Count → Count
count_run [] s = s
count_run (op ∷ ops) s = count_run ops (count_step op s)

low_part : (c : Bool) (n : ℕ) → n < mask → bit_and (encode (c, n)) (not_usize mask) ≡ n
low_part true n h = and_low_mask 63 (mask + n) ∙ omega arith
low_part false n h = and_low_mask 63 (0 + n) ∙ omega arith

top_part : (c : Bool) (n : ℕ) → n < mask → bit_and (encode (c, n)) mask ≡ (if c then mask else 0)
top_part true n h = and_top_bit (mask + n) (omega arith) ∙ omega arith
top_part false n h = and_top_bit (0 + n) (omega arith) ∙ omega arith

top_test : (c : Bool) → ((if c then mask else 0) == mask) ≡ c
top_test true = refl
top_test false = refl

zero_test : (c : Bool) → ((if c then mask else 0) == 0) ≡ not c
zero_test true = refl
zero_test false = refl

-- A claim of a slag succeeds if it is not claimed already. The other operations return whether the
-- slag was claimed and what the count was.
pub results-encode :
    (c : Bool) (n m : ℕ)
    → n < mask
    → ((claim (encode (c, n))).0 ≡ not c)
      × ((unclaim (encode (c, n))).0 ≡ (c, n))
      × ((inc_n (encode (c, n)) m).0 ≡ (c, n))
      × ((dec_n (encode (c, n)) m).0 ≡ (c, n))
unfolding claim unclaim inc_n dec_n
results-encode c n m h =
    let claimed : (bit_and (encode (c, n)) mask == mask) ≡ c =
      ap (λ t. t == mask) (top_part c n h) ∙ top_test c in
    let both : (bit_and (encode (c, n)) mask == mask, bit_and (encode (c, n)) (not_usize mask))
        ≡ (c, n) =
      ap₂ (λ a b. (a, b)) claimed (low_part c n h) in
    (ap (λ t. t == 0) (top_part c n h) ∙ zero_test c, both, both, both)

step-encode :
    (op : Op) (ops : List Op) (s : Count)
    → InBounds (op ∷ ops) s
    → (step op (encode s) ≡ encode (count_step op s)) × InBounds ops (count_step op s)
unfolding step claim unclaim inc_n dec_n
step-encode claims ops (true, n) h =
    (or_top_bit (mask + n) (omega (arith, h.0)) ∙ omega (arith, h.0), h.1)
step-encode claims ops (false, n) h =
    (or_top_bit (0 + n) (omega (arith, h.0)) ∙ omega (arith, h.0), h.1)
step-encode unclaims ops (c, n) h = (low_part c n h.0 ∙ omega arith, h.1)
step-encode (increments m) ops (true, n) h = (omega (arith, h.0), h.1)
step-encode (increments m) ops (false, n) h = (omega (arith, h.0), h.1)
step-encode (decrements m) ops (true, n) h = (omega (arith, h.0, h.1), h.2)
step-encode (decrements m) ops (false, n) h = (omega (arith, h.0, h.1), h.2)

-- Whatever the threads do, in whatever order, while the counts stay in bounds: the word is always
-- the one that stands for the claim and the count, and neither disturbs the other.
pub run-encode :
    (ops : List Op) (s : Count) → InBounds ops s → run ops (encode s) ≡ encode (count_run ops s)
unfolding run
run-encode [] s h = refl
run-encode (op ∷ ops) s h =
    let (now, later) = step-encode op ops s h in
    ap (run ops) now ∙ run-encode ops (count_step op s) later
