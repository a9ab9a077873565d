-- ===== src/Base/Sums.antt =====
-- Sums over lists, and what reading and writing one element does to them.
use allocators_rs.Base.{
  ℕ, zero, suc, ◌+◌, ◌<◌, ◌≤◌, ◌≡◌, ◌≢◌, refl, ap, some, List, [], ◌∷◌, ◌++◌, length, get_elem?,
  get_or, set, replicate, All, arith,
}

module _ {ℓ} {A : Type ℓ} (g : A → ℕ) where
  abbrev pub sum : List A → ℕ
  sum [] = 0
  sum (x ∷ xs) = g x + sum xs

  pub sum-append : (xs ys : List A) → sum (xs ++ ys) ≡ sum xs + sum ys
  sum-append [] ys = omega arith
  sum-append (x ∷ xs) ys = omega (arith, sum-append xs ys)

  pub sum-replicate : (n : ℕ) (a : A) → g a ≡ 0 → sum (replicate n a) ≡ 0
  sum-replicate zero a e = refl
  sum-replicate (suc n) a e = omega (arith, e, sum-replicate n a e)

  -- What is overwritten goes, and what is written comes.
  pub sum-set :
      (xs : List A) (i : ℕ) (x d : A)
      → i < length xs
      → sum (set xs i x) + g (get_or xs i d) ≡ sum xs + g x
  sum-set [] i x d h = absurd (omega arith)
  sum-set (y ∷ xs) zero x d h = omega arith
  sum-set (y ∷ xs) (suc i) x d h = omega (arith, sum-set xs i x d (omega (arith, h)))

  pub sum_le : (xs : List A) (i : ℕ) (d : A) → i < length xs → g (get_or xs i d) ≤ sum xs
  sum_le [] i d h = absurd (omega arith)
  sum_le (y ∷ xs) zero d h = omega arith
  sum_le (y ∷ xs) (suc i) d h = omega (arith, sum_le xs i d (omega (arith, h)))

module _ {ℓ} {A : Type ℓ} where
  pub get_or-set_self :
      (xs : List A) (i : ℕ) (x d : A) → i < length xs → get_or (set xs i x) i d ≡ x
  get_or-set_self [] i x d h = absurd (omega arith)
  get_or-set_self (y ∷ xs) zero x d h = refl
  get_or-set_self (y ∷ xs) (suc i) x d h = get_or-set_self xs i x d (omega (arith, h))

  pub get_or-set_ne :
      (xs : List A) (i j : ℕ) (x d : A) → j ≢ i → get_or (set xs i x) j d ≡ get_or xs j d
  get_or-set_ne [] i j x d ne = refl
  get_or-set_ne (y ∷ xs) zero zero x d ne = absurd (ne refl)
  get_or-set_ne (y ∷ xs) zero (suc j) x d ne = refl
  get_or-set_ne (y ∷ xs) (suc i) zero x d ne = refl
  get_or-set_ne (y ∷ xs) (suc i) (suc j) x d ne = get_or-set_ne xs i j x d (λ e. ne (ap suc e))

  pub get_elem?-get_or :
      (xs : List A) (i : ℕ) (d : A) → i < length xs → get_elem? xs i ≡ some (get_or xs i d)
  get_elem?-get_or [] i d h = absurd (omega arith)
  get_elem?-get_or (y ∷ xs) zero d h = refl
  get_elem?-get_or (y ∷ xs) (suc i) d h = get_elem?-get_or xs i d (omega (arith, h))

  pub All-append {κ} : (P : A → Type κ) (xs ys : List A) → All P xs → All P ys → All P (xs ++ ys)
  All-append P [] ys p q = q
  All-append P (x ∷ xs) ys (p, ps) q = (p, All-append P xs ys ps q)

  pub All-left {κ} : (P : A → Type κ) (xs ys : List A) → All P (xs ++ ys) → All P xs
  All-left P [] ys ps = tt
  All-left P (x ∷ xs) ys (p, ps) = (p, All-left P xs ys ps)

  pub All-right {κ} : (P : A → Type κ) (xs ys : List A) → All P (xs ++ ys) → All P ys
  All-right P [] ys ps = ps
  All-right P (x ∷ xs) ys (p, ps) = All-right P xs ys ps

  pub All-get_or {κ} :
      (P : A → Type κ) (xs : List A) (i : ℕ) (d : A) → All P xs → P d → P (get_or xs i d)
  All-get_or P [] i d ps q = q
  All-get_or P (x ∷ xs) zero d (p, ps) q = p
  All-get_or P (x ∷ xs) (suc i) d (p, ps) q = All-get_or P xs i d ps q

  pub All-of_get_or {κ} :
      (P : A → Type κ) (xs : List A) (d : A)
      → ((i : ℕ) → i < length xs → P (get_or xs i d))
      → All P xs
  All-of_get_or P [] d h = tt
  All-of_get_or P (x ∷ xs) d h =
      (h 0 (omega arith), All-of_get_or P xs d (λ i le. h (suc i) (omega (arith, le))))
