-- ===== src/Slab/PtrMap/Holes.antt =====
-- What a deletion leaves in a chain: a hole. The range of `remove_last` is empty for every index of
-- the array, so no later entry fills the slot.
use allocators_rs.Base.{
  ℕ, suc, ◌+◌, ◌-◌, ◌≡◌, refl, sym, ap, subst, ◌∙◌, Option, some, none, List, [], ◌∷◌, ◌++◌, length,
  arith, ltb, lt→ltb, ◌==◌, if◌then◌else◌, true, false, done, Bool-cases, inl, inr, Option-cases,
}
use allocators_rs.Slab.PtrMap.{
  Slot, vacant, Bucket, last, linked, slots, index_of, set_data, set_at, behind, bucket_delete,
}
use allocators_rs.Slab.PtrMap.Buckets.{Shape}
use allocators_rs.Slab.PtrMap.Deletes.{remove_last-vacant, Index, index_of-Index}

-- The index of a key in two lists, one behind the other.
abbrev Later : ℕ → Option ℕ → Option ℕ → Type 0
Later n o none = o ≡ none
Later n o (some i) = (j : ℕ) × (i ≡ n + j) × (o ≡ some j)

Later-zero : (o : Option ℕ) → Later 0 o o
Later-zero none = refl
Later-zero (some i) = (i, omega arith, refl)

abbrev next_index : Option ℕ → Option ℕ
next_index none = none
next_index (some i) = some (suc i)

Later-suc : (n : ℕ) (o r : Option ℕ) → Later n o r → Later (suc n) o (next_index r)
Later-suc n o none e = e
Later-suc n o (some i) (j, e, there) = (j, omega (arith, e), there)

index_of-next :
    (k : ℕ) (s : Slot) (l : List Slot)
    → (s.0 == k) ≡ false
    → index_of k (s ∷ l) ≡ next_index (index_of k l)
index_of-next k s l f = elim (Option-cases (index_of k l)) [
  | inl e ↦ rw (f, e) refl
  | inr (i, e) ↦ rw (f, e) refl
]

next_index-none : (o : Option ℕ) → next_index o ≡ none → o ≡ none
next_index-none none e = refl
next_index-none (some i) e = absurd (cc e)

index_of-Later :
    (k : ℕ) (xs ys : List Slot)
    → index_of k xs ≡ none
    → Later (length xs) (index_of k ys) (index_of k (xs ++ ys))
index_of-Later k [] ys e = Later-zero (index_of k ys)
index_of-Later k (s ∷ xs) ys e = elim (Bool-cases (s.0 == k)) [
  | inl t ↦
      absurd (cc (e, ap {B = Option ℕ} (λ b. if b then some 0 else next_index (index_of k xs)) t))
  | inr f ↦ subst (Later (suc (length xs)) (index_of k ys)) (sym (index_of-next k s (xs ++ ys) f)) (
      Later-suc (length xs) (index_of k ys) (index_of k (xs ++ ys)) (
        index_of-Later k xs ys
          (next_index-none (index_of k xs) (sym (index_of-next k s xs f) ∙ e))))
]

-- A key in the first of two lists.
abbrev Kept : Option ℕ → Option ℕ → Type 0
Kept none r = Unit {0}
Kept (some i) r = r ≡ some i

Kept-suc : (o r : Option ℕ) → Kept o r → Kept (next_index o) (next_index r)
Kept-suc none r e = tt
Kept-suc (some i) r e = ap next_index e

index_of-Kept : (k : ℕ) (xs ys : List Slot) → Kept (index_of k xs) (index_of k (xs ++ ys))
index_of-Kept k [] ys = tt
index_of-Kept k (s ∷ xs) ys = elim (Bool-cases (s.0 == k)) [
  | inl t ↦ rw t refl
  | inr f ↦
      subst (λ o. Kept o (index_of k (s ∷ xs ++ ys))) (sym (index_of-next k s xs f))
        (subst (Kept (next_index (index_of k xs))) (sym (index_of-next k s (xs ++ ys) f))
          (Kept-suc (index_of k xs) (index_of k (xs ++ ys)) (index_of-Kept k xs ys)))
]

-- Deletion of a key whose first slot in the chain has number `i` makes that slot vacant and changes
-- nothing else: the last entry does not take its place, and no bucket is freed.
pub bucket_delete-set_at :
    (b : Bucket) (k i : ℕ)
    → Shape b
    → index_of k (slots b) ≡ some i
    → bucket_delete b k ≡ done (set_at b i vacant)
unfolding bucket_delete set_data set_at behind
bucket_delete-set_at (last d) k i shape e =
    let at = subst (Index k d) e (index_of-Index k d) in
    rw (bucket_delete, e, remove_last-vacant (last d) i (omega (arith, at.0, shape))) refl
bucket_delete-set_at (linked d next) k i (shape, rest) e = elim (Option-cases (index_of k d)) [
  | inl n ↦
      let (j, shift, later) =
        subst (Later (length d) (index_of k (slots next))) e (index_of-Later k d (slots next) n) in
      let not_lt : ltb i (length d) ≡ false = ground (arith, shift) in
      let back : i - length d ≡ j = omega (arith, shift) in
      rw (bucket_delete, n, bucket_delete-set_at next k j rest later, behind, not_lt, back) refl
  | inr (i', n) ↦
      let same : i' ≡ i = cc (
        subst (λ o. Kept o (index_of k (d ++ slots next))) n (index_of-Kept k d (slots next)),
        e,
      ) in
      let at = subst (Index k d) n (index_of-Index k d) in
      let here : ltb i' (length d) ≡ true = lt→ltb i' (length d) at.0 in
      rw
        (
          bucket_delete,
          n,
          remove_last-vacant (linked d next) i' (omega (arith, at.0, shape)),
          sym same,
          here,
        )
        refl
]
