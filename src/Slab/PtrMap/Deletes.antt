-- ===== src/Slab/PtrMap/Deletes.antt =====
-- Deletion from a chain: the slot of the key becomes vacant, and the others stay where they are.
use allocators_rs.Base.{
  ℕ, zero, suc, ◌+◌, ◌-◌, ◌<◌, ◌≡◌, refl, ap, subst, ◌∙◌, Option, some, none, List, [], ◌∷◌, ◌++◌,
  length, length-set, get_or, set, All, arith, ◌==◌, ==_ne, ==_self, ℕ_discrete, false, Checked,
  Returns, returns, inl, inr, Option-cases,
}
use allocators_rs.Slab.PtrMap.{
  Slot, vacant, Bucket, last, linked, slots, last_full, remove_last, index_of, set_data, behind,
  bucket_delete,
}
use allocators_rs.Slab.PtrMap.Totals.{
  sum, sum-append, sum-set, Vanishes, keyed, All-append, All-left, All-right,
}
use allocators_rs.Slab.PtrMap.Buckets.{Shape}

-- The range of `remove_last` is empty whenever the index is in the array.
pub remove_last-vacant : (b : Bucket) (i : ℕ) → i < 4 → remove_last b (i + 1) ≡ ((vacant, false), b)
unfolding remove_last last_full
remove_last-vacant (last d) i h =
    let e : i + 1 - 4 ≡ 0 = omega (arith, h) in rw (remove_last, e, last_full) refl
remove_last-vacant (linked d next) i h =
    let e : i + 1 - 4 ≡ 0 = omega (arith, h) in rw (remove_last, e, last_full) refl

-- One entry with the key less.
abbrev pub Less : (Slot → Type 0) → ℕ → List Slot → List Slot → Type 0
Less P k l l' =
    (s : Slot) × (s.0 ≡ k)
    × ((g : Slot → ℕ) → Vanishes g → sum g l' + g s ≡ sum g l)
    × (All P l → All P l')

abbrev pub Index : ℕ → List Slot → Option ℕ → Type 0
Index k l none = sum (keyed k) l ≡ 0
Index k l (some i) = (i < length l) × ((get_or l i vacant).0 ≡ k)

pub index_of-Index : (k : ℕ) (l : List Slot) → Index k l (index_of k l)
index_of-Index k [] = refl
index_of-Index k (s ∷ l) =
    let rest = index_of-Index k l in
    elim (ℕ_discrete s.0 k) [
      | yes e ↦ rw (ap (λ z. z == k) e ∙ ==_self k) (omega arith, e)
      | no ne ↦ elim (Option-cases (index_of k l)) [
        | inl e ↦
            let absent : sum (keyed k) l ≡ 0 = subst (Index k l) e rest in
            rw (==_ne s.0 k ne, e) (ground (arith, absent, ne))
        | inr (i, e) ↦
            let at : (i < length l) × ((get_or l i vacant).0 ≡ k) = subst (Index k l) e rest in
            rw (==_ne s.0 k ne, e) (omega (arith, at.0), at.1)
      ]
    ]

module _ (P : Slot → Type 0) (v : P vacant) where
  All-set : (l : List Slot) (i : ℕ) → All P l → All P (set l i vacant)
  All-set [] i ps = tt
  All-set (s ∷ l) zero (p, ps) = (v, ps)
  All-set (s ∷ l) (suc i) (p, ps) = (p, All-set l i ps)

  set-Less :
      (k : ℕ) (l : List Slot) (i : ℕ)
      → i < length l
      → (get_or l i vacant).0 ≡ k
      → Less P k l (set l i vacant)
  set-Less k l i h e = (
    get_or l i vacant,
    e,
    λ g z. omega (arith, sum-set g l i vacant vacant h, z vacant refl),
    All-set l i,
  )

  Less-left : (k : ℕ) (l l' m : List Slot) → Less P k l l' → Less P k (l ++ m) (l' ++ m)
  Less-left k l l' m (s, e, sums, all) = (
    s,
    e,
    λ g z. omega (arith, sums g z, sum-append g l m, sum-append g l' m),
    λ ps. All-append P l' m (all (All-left P l m ps)) (All-right P l m ps),
  )

  Less-right : (k : ℕ) (l m m' : List Slot) → Less P k m m' → Less P k (l ++ m) (l ++ m')
  Less-right k l m m' (s, e, sums, all) = (
    s,
    e,
    λ g z. omega (arith, sums g z, sum-append g l m, sum-append g l m'),
    λ ps. All-append P l m' (All-left P l m ps) (all (All-right P l m ps)),
  )

  abbrev pub Deleted : ℕ → Bucket → Bucket → Type 0
  Deleted k b c = Less P k (slots b) (slots c) × Shape c

  behind-Deleted :
      (k : ℕ) (d : List Slot) (next : Bucket) (c : Checked Bucket)
      → length d ≡ 4
      → Returns (Deleted k next) c
      → Returns (Deleted k (linked d next)) (behind d c)
  unfolding behind
  behind-Deleted k d next c e (returns {a} (less, shape)) =
      returns (Less-right k d (slots next) (slots a) less, (e, shape))

  -- A key that is in the chain is deleted without a panic.
  pub bucket_delete-Deleted :
      (b : Bucket) (k : ℕ)
      → Shape b
      → 0 < sum (keyed k) (slots b)
      → Returns (Deleted k b) (bucket_delete b k)
  unfolding bucket_delete set_data
  bucket_delete-Deleted (last d) k e there =
      let index = index_of-Index k d in
      elim (Option-cases (index_of k d)) [
        | inl n ↦ absurd (omega (arith, there, subst (Index k d) n index))
        | inr (i, n) ↦
            let at : (i < length d) × ((get_or d i vacant).0 ≡ k) = subst (Index k d) n index in
            rw (bucket_delete, n, remove_last-vacant (last d) i (omega (arith, at.0, e)))
              (returns (set-Less k d i at.0 at.1, length-set d i vacant ∙ e))
      ]
  bucket_delete-Deleted (linked d next) k (e, rest) there =
      let index = index_of-Index k d in
      elim (Option-cases (index_of k d)) [
        | inl n ↦
            let behind_it : 0 < sum (keyed k) (slots next) =
              omega
                (arith, there, subst (Index k d) n index, sum-append (keyed k) d (slots next)) in
            rw (bucket_delete, n)
              (behind-Deleted k d next (bucket_delete next k) e
                (bucket_delete-Deleted next k rest behind_it))
        | inr (i, n) ↦
            let at : (i < length d) × ((get_or d i vacant).0 ≡ k) = subst (Index k d) n index in
            rw (bucket_delete, n, remove_last-vacant (linked d next) i (omega (arith, at.0, e)))
              (returns (
                Less-left k d (set d i vacant) (slots next) (set-Less k d i at.0 at.1),
                (length-set d i vacant ∙ e, rest),
              ))
      ]
