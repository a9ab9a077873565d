-- ===== src/Slab/PtrMap/Totals.antt =====
-- A table as the multiset of its entries: for every weight of slots that is 0 at vacant ones, the
-- total of the weights.
use allocators_rs.Base.{
  ℕ, suc, ◌<◌, ◌≡◌, refl, ap, some, none, List, [], ◌∷◌, arith, ◌==◌, ==_ne, if◌then◌else◌,
  ℕ_discrete, true,
}
use allocators_rs.Slab.PtrMap.{Slot, Bucket, slots, find_value}
pub use allocators_rs.Base.Sums.{
  sum, sum-append, sum-replicate, sum-set, sum_le, get_or-set_self, get_or-set_ne, get_elem?-get_or,
  All-append, All-left, All-right, All-get_or, All-of_get_or,
}

-- Weights of slots.
abbrev pub Vanishes : (Slot → ℕ) → Type 0
Vanishes g = (s : Slot) → s.0 ≡ 0 → g s ≡ 0

-- The total of a chain, and of a table.
abbrev pub total : (Slot → ℕ) → Bucket → ℕ
total g b = sum g (slots b)

abbrev pub total_all : (Slot → ℕ) → List Bucket → ℕ
total_all g vec = sum (total g) vec

-- The slots with a key, their values, and the full slots.
abbrev pub keyed : ℕ → Slot → ℕ
keyed k s = if k == s.0 then 1 else 0

abbrev pub valued : ℕ → Slot → ℕ
valued k s = if k == s.0 then suc s.1 else 0

abbrev pub occupied : Slot → ℕ
occupied s = if s.0 == 0 then 0 else 1

pub keyed-Vanishes : (k : ℕ) → 0 < k → Vanishes (keyed k)
keyed-Vanishes k h s e = rw (==_ne k s.0 (λ same. omega (arith, same, e, h))) refl

pub valued-Vanishes : (k : ℕ) → 0 < k → Vanishes (valued k)
valued-Vanishes k h s e = rw (==_ne k s.0 (λ same. omega (arith, same, e, h))) refl

pub occupied-Vanishes : Vanishes occupied
occupied-Vanishes s e = ground (arith, e)

-- A lookup in slots, from the totals.
pub find_value-none : (k : ℕ) (l : List Slot) → sum (keyed k) l ≡ 0 → find_value k l ≡ none
find_value-none k [] e = refl
find_value-none k (s ∷ l) e = elim (ℕ_discrete k s.0) [
  | yes same ↦ absurd (ground (arith, e, same))
  | no ne ↦ rw (==_ne k s.0 ne) (find_value-none k l (ground (arith, e)))
]

pub values-none : (k : ℕ) (l : List Slot) → sum (keyed k) l ≡ 0 → sum (valued k) l ≡ 0
values-none k [] e = refl
values-none k (s ∷ l) e = ground (arith, e, values-none k l)

pub find_value-some :
    (k v : ℕ) (l : List Slot)
    → sum (keyed k) l ≡ 1
    → sum (valued k) l ≡ suc v
    → find_value k l ≡ some v
find_value-some k v [] e f = absurd (omega (arith, e))
find_value-some k v (s ∷ l) e f = elim (ℕ_discrete k s.0) [
  | yes same ↦
      let at : (k == s.0) ≡ true = ground (arith, same) in
      let none_left : sum (keyed k) l ≡ 0 = ground (arith, e, at) in
      rw at (ap some (ground (arith, f, at, values-none k l none_left)))
  | no ne ↦
      rw (==_ne k s.0 ne) (find_value-some k v l (ground (arith, e, ne)) (ground (arith, f, ne)))
]
