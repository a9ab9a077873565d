-- ===== src/Bsalloc/Lists.antt =====
-- Lists with an element removed or overwritten.
use allocators_rs.Base.{
  ℕ, zero, suc, ◌+◌, ◌≡◌, subst, some, List, [], ◌∷◌, get_elem?, set, replicate, All, arith,
}
use allocators_rs.Base.Sums.{sum}
use allocators_rs.Bsalloc.{remove_at}

module _ {ℓ} {A : Type ℓ} where
  pub remove_at-sum :
      (g : A → ℕ) (xs : List A) (i : ℕ) (x : A)
      → get_elem? xs i ≡ some x
      → sum g (remove_at xs i) + g x ≡ sum g xs
  remove_at-sum g [] i x e = absurd (cc e)
  remove_at-sum g (y ∷ xs) zero x e = let same : y ≡ x = cc e in rw same (omega arith)
  remove_at-sum g (y ∷ xs) (suc i) x e = omega (arith, remove_at-sum g xs i x e)

  pub All-remove_at {κ} : (P : A → Type κ) (xs : List A) (i : ℕ) → All P xs → All P (remove_at xs i)
  All-remove_at P [] i ps = tt
  All-remove_at P (y ∷ xs) zero (p, ps) = ps
  All-remove_at P (y ∷ xs) (suc i) (p, ps) = (p, All-remove_at P xs i ps)

  pub All-at {κ} :
      (P : A → Type κ) (xs : List A) (i : ℕ) (x : A) → get_elem? xs i ≡ some x → All P xs → P x
  All-at P [] i x e ps = absurd (cc e)
  All-at P (y ∷ xs) zero x e (p, ps) = let same : y ≡ x = cc e in subst P same p
  All-at P (y ∷ xs) (suc i) x e (p, ps) = All-at P xs i x e ps

  pub All-set {κ} :
      (P : A → Type κ) (xs : List A) (i : ℕ) (x : A) → P x → All P xs → All P (set xs i x)
  All-set P [] i x p ps = tt
  All-set P (y ∷ xs) zero x p (q, ps) = (p, ps)
  All-set P (y ∷ xs) (suc i) x p (q, ps) = (q, All-set P xs i x p ps)

  pub set-sum :
      (g : A → ℕ) (xs : List A) (i : ℕ) (x y : A)
      → get_elem? xs i ≡ some x
      → sum g (set xs i y) + g x ≡ sum g xs + g y
  set-sum g [] i x y e = absurd (cc e)
  set-sum g (z ∷ xs) zero x y e = let same : z ≡ x = cc e in rw same (omega arith)
  set-sum g (z ∷ xs) (suc i) x y e = omega (arith, set-sum g xs i x y e)

  pub All-replicate {κ} : (P : A → Type κ) (n : ℕ) (x : A) → P x → All P (replicate n x)
  All-replicate P zero x p = tt
  All-replicate P (suc n) x p = (p, All-replicate P n x p)
