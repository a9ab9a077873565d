-- ===== src/Slab/PtrMap/Buckets.antt =====
-- What the operations of a chain do to its entries.
use allocators_rs.Base.{
  ℕ, suc, ◌+◌, ◌≡◌, refl, sym, ap, subst, ◌∙◌, Option, some, none, List, [], ◌∷◌, ◌++◌, length, All,
  arith, ◌==◌, ==_ne, if◌then◌else◌, ℕ_discrete, Checked, done, panic, Bool-cases, inl, inr,
  Option-cases,
}
use allocators_rs.Slab.PtrMap.{
  Slot, vacant, Bucket, last, linked, slots, find_value, bucket_get, fill_vacant, bucket_insert,
}
use allocators_rs.Slab.PtrMap.Totals.{sum, sum-append, Vanishes, All-append, All-left, All-right}

-- A lookup returns what the search of all slots finds.
abbrev pub found : Option ℕ → Checked ℕ
found none = panic
found (some v) = done v

find_value-append :
    (k : ℕ) (xs ys : List Slot) → find_value k xs ≡ none → find_value k (xs ++ ys) ≡ find_value k ys
find_value-append k [] ys e = refl
find_value-append k (s ∷ xs) ys e = elim (Bool-cases (k == s.0)) [
  | inl t ↦ absurd (cc (e, ap {B = Option ℕ} (λ b. if b then some s.1 else find_value k xs) t))
  | inr f ↦
      rw f
        (find_value-append k xs ys (sym (ap (λ b. if b then some s.1 else find_value k xs) f) ∙ e))
]

find_value-append_some :
    (k v : ℕ) (xs ys : List Slot) → find_value k xs ≡ some v → find_value k (xs ++ ys) ≡ some v
find_value-append_some k v [] ys e = absurd (cc e)
find_value-append_some k v (s ∷ xs) ys e = elim (Bool-cases (k == s.0)) [
  | inl t ↦ rw t (sym (ap (λ b. if b then some s.1 else find_value k xs) t) ∙ e)
  | inr f ↦ rw f (
      find_value-append_some k v xs ys
        (sym (ap (λ b. if b then some s.1 else find_value k xs) f) ∙ e))
]

pub bucket_get-found : (b : Bucket) (k : ℕ) → bucket_get b k ≡ found (find_value k (slots b))
unfolding bucket_get
bucket_get-found (last d) k = elim (Option-cases (find_value k d)) [
  | inl e ↦ rw (bucket_get, e) refl
  | inr (v, e) ↦ rw (bucket_get, e) refl
]
bucket_get-found (linked d next) k = elim (Option-cases (find_value k d)) [
  | inl e ↦ rw (bucket_get, e, find_value-append k d (slots next) e) (bucket_get-found next k)
  | inr (v, e) ↦ rw (bucket_get, e, find_value-append_some k v d (slots next) e) refl
]

-- One entry more, in slots that all satisfy `P`.
abbrev pub More : (Slot → ℕ) → (Slot → Type 0) → Slot → List Slot → List Slot → Type 0
More g P kv l l' = (sum g l' ≡ sum g l + g kv) × (P kv → All P l → All P l')

abbrev MoreIfAny : (Slot → ℕ) → (Slot → Type 0) → Slot → List Slot → Option (List Slot) → Type 0
MoreIfAny g P kv l none = Unit {0}
MoreIfAny g P kv l (some filled) = More g P kv l filled

module _ (g : Slot → ℕ) (P : Slot → Type 0) (z : Vanishes g) where
  More-left : (kv : Slot) (l l' m : List Slot) → More g P kv l l' → More g P kv (l ++ m) (l' ++ m)
  More-left kv l l' m (e, all) = (
    omega (arith, e, sum-append g l m, sum-append g l' m),
    λ p ps. All-append P l' m (all p (All-left P l m ps)) (All-right P l m ps),
  )

  More-right : (kv : Slot) (l m m' : List Slot) → More g P kv m m' → More g P kv (l ++ m) (l ++ m')
  More-right kv l m m' (e, all) = (
    omega (arith, e, sum-append g l m, sum-append g l m'),
    λ p ps. All-append P l m' (All-left P l m ps) (all p (All-right P l m ps)),
  )

  fill_vacant-More : (kv : Slot) (l : List Slot) → MoreIfAny g P kv l (fill_vacant kv l)
  fill_vacant-More kv [] = tt
  fill_vacant-More kv (s ∷ l) =
      let rest = fill_vacant-More kv l in
      elim (ℕ_discrete s.0 0) [
        | yes e ↦ rw e (omega (arith, z s e), λ p ps. (p, ps.1))
        | no ne ↦ elim (Option-cases (fill_vacant kv l)) [
          | inl e ↦ rw (==_ne s.0 0 ne, e) tt
          | inr (filled, e) ↦
              let more : More g P kv l filled = subst (MoreIfAny g P kv l) e rest in
              rw (==_ne s.0 0 ne, e) (omega (arith, more.0), λ p ps. (ps.0, more.1 p ps.1))
        ]
      ]

  pub bucket_insert-More :
      (b : Bucket) (kv : Slot) → P vacant → More g P kv (slots b) (slots (bucket_insert b kv))
  unfolding bucket_insert
  bucket_insert-More (last d) kv v =
      let fill = fill_vacant-More kv d in
      elim (Option-cases (fill_vacant kv d)) [
        | inl e ↦
            rw (bucket_insert, e)
              (
                omega (arith, sum-append g d (kv ∷ vacant ∷ vacant ∷ vacant ∷ []), z vacant refl),
                λ p ps.
                    All-append P d (kv ∷ vacant ∷ vacant ∷ vacant ∷ []) ps (p, (v, (v, (v, tt)))),
              )
        | inr (filled, e) ↦ rw (bucket_insert, e) (subst (MoreIfAny g P kv d) e fill)
      ]
  bucket_insert-More (linked d next) kv v =
      let fill = fill_vacant-More kv d in
      let rest = bucket_insert-More next kv v in
      elim (Option-cases (fill_vacant kv d)) [
        | inl e ↦
            rw (bucket_insert, e)
              (More-right kv d (slots next) (slots (bucket_insert next kv)) rest)
        | inr (filled, e) ↦
            let more : More g P kv d filled = subst (MoreIfAny g P kv d) e fill in
            rw (bucket_insert, e) (More-left kv d filled (slots next) more)
      ]

-- Every bucket of the chain has its array of slots.
abbrev pub Shape : Bucket → Type 0
Shape (last d) = length d ≡ 4
Shape (linked d next) = (length d ≡ 4) × Shape next

abbrev SameLength : List Slot → Option (List Slot) → Type 0
SameLength l none = Unit {0}
SameLength l (some filled) = length filled ≡ length l

fill_vacant-length : (kv : Slot) (l : List Slot) → SameLength l (fill_vacant kv l)
fill_vacant-length kv [] = tt
fill_vacant-length kv (s ∷ l) =
    let rest = fill_vacant-length kv l in
    elim (ℕ_discrete s.0 0) [
      | yes e ↦ rw e refl
      | no ne ↦ elim (Option-cases (fill_vacant kv l)) [
        | inl e ↦ rw (==_ne s.0 0 ne, e) tt
        | inr (filled, e) ↦ rw (==_ne s.0 0 ne, e) (ap suc (subst (SameLength l) e rest))
      ]
    ]

pub bucket_insert-Shape : (b : Bucket) (kv : Slot) → Shape b → Shape (bucket_insert b kv)
unfolding bucket_insert
bucket_insert-Shape (last d) kv e = elim (Option-cases (fill_vacant kv d)) [
  | inl n ↦ rw (bucket_insert, n) (e, refl)
  | inr (filled, n) ↦ rw (bucket_insert, n) (subst (SameLength d) n (fill_vacant-length kv d) ∙ e)
]
bucket_insert-Shape (linked d next) kv (e, rest) = elim (Option-cases (fill_vacant kv d)) [
  | inl n ↦ rw (bucket_insert, n) (e, bucket_insert-Shape next kv rest)
  | inr (filled, n) ↦
      rw (bucket_insert, n) (subst (SameLength d) n (fill_vacant-length kv d) ∙ e, rest)
]
