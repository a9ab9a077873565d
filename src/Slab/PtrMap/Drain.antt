-- ===== src/Slab/PtrMap/Drain.antt =====
-- The parts of `shrink`: chains that are inserted into others, the first half of a table, and the
-- totals of its halves.
use allocators_rs.Base.{
  ℕ, zero, suc, ◌+◌, ◌<◌, ◌≤◌, ◌≡◌, refl, ap, List, [], ◌∷◌, length, set, All, arith, ==_ne,
  ℕ_discrete,
}
use allocators_rs.Slab.PtrMap.{
  Slot, vacant, Bucket, slots, default, get_bucket, drain, truncate, bucket_insert,
}
use allocators_rs.Slab.PtrMap.Totals.{sum, Vanishes, total, total_all, get_or-set_ne}
use allocators_rs.Slab.PtrMap.Buckets.{Shape, bucket_insert-More, bucket_insert-Shape}

-- The slots of a chain are inserted into another.
pub drain-total :
    (g : Slot → ℕ)
    → Vanishes g
    → (l : List Slot) (b : Bucket) → total g (drain l b) ≡ total g b + sum g l
unfolding drain
drain-total g z [] b = omega arith
drain-total g z (s ∷ l) b = elim (ℕ_discrete s.0 0) [
  | yes e ↦ rw (drain, e) (omega (arith, drain-total g z l b, z s e))
  | no ne ↦
      let more = bucket_insert-More g (λ s. Unit {0}) z b s tt in
      rw (drain, ==_ne s.0 0 ne) (omega (arith, drain-total g z l (bucket_insert b s), more.0))
]

pub drain-All :
    (P : Slot → Type 0) (l : List Slot) (b : Bucket)
    → P vacant
    → All P l
    → All P (slots b)
    → All P (slots (drain l b))
unfolding drain
drain-All P [] b v ps all = all
drain-All P (s ∷ l) b v (p, ps) all = elim (ℕ_discrete s.0 0) [
  | yes e ↦ rw (drain, e) (drain-All P l b v ps all)
  | no ne ↦
      let more = bucket_insert-More (λ s. 0) P (λ s e. refl) b s v in
      rw (drain, ==_ne s.0 0 ne) (drain-All P l (bucket_insert b s) v ps (more.1 p all))
]

pub drain-Shape : (l : List Slot) (b : Bucket) → Shape b → Shape (drain l b)
unfolding drain
drain-Shape [] b shape = shape
drain-Shape (s ∷ l) b shape = elim (ℕ_discrete s.0 0) [
  | yes e ↦ rw (drain, e) (drain-Shape l b shape)
  | no ne ↦
      rw (drain, ==_ne s.0 0 ne) (drain-Shape l (bucket_insert b s) (bucket_insert-Shape b s shape))
]

pub truncate-length : (n : ℕ) (vec : List Bucket) → n ≤ length vec → length (truncate n vec) ≡ n
truncate-length zero vec h = refl
truncate-length (suc n) [] h = absurd (omega arith)
truncate-length (suc n) (b ∷ vec) h = ap suc (truncate-length n vec (omega (arith, h)))

pub truncate-set :
    (n : ℕ) (vec : List Bucket) (i : ℕ) (b : Bucket)
    → truncate n (set vec i b) ≡ set (truncate n vec) i b
truncate-set zero vec i b = refl
truncate-set (suc n) [] i b = refl
truncate-set (suc n) (c ∷ vec) zero b = refl
truncate-set (suc n) (c ∷ vec) (suc i) b = ap (λ l. c ∷ l) (truncate-set n vec i b)

pub get_bucket-truncate :
    (n : ℕ) (vec : List Bucket) (i : ℕ) → i < n → get_bucket (truncate n vec) i ≡ get_bucket vec i
get_bucket-truncate zero vec i h = absurd (omega arith)
get_bucket-truncate (suc n) [] i h = refl
get_bucket-truncate (suc n) (b ∷ vec) zero h = refl
get_bucket-truncate (suc n) (b ∷ vec) (suc i) h = get_bucket-truncate n vec i (omega (arith, h))

pub get_bucket-past : (vec : List Bucket) (i : ℕ) → length vec ≤ i → get_bucket vec i ≡ default
get_bucket-past [] i h = refl
get_bucket-past (b ∷ vec) zero h = absurd (omega arith)
get_bucket-past (b ∷ vec) (suc i) h = get_bucket-past vec i (omega (arith, h))

-- The total of `n` chains from number `p` on.
unfoldable pub span : (Slot → ℕ) → List Bucket → (p n : ℕ) → ℕ
span g vec p zero = 0
span g vec p (suc n) = total g (get_bucket vec p) + span g vec (p + 1) n

span-cons :
    (g : Slot → ℕ) (b : Bucket) (vec : List Bucket) (n p : ℕ)
    → span g (b ∷ vec) (suc p) n ≡ span g vec p n
unfolding span
span-cons g b vec zero p = refl
span-cons g b vec (suc n) p =
    let e : suc p + 1 ≡ suc (p + 1) = omega arith in
    rw e (ap (λ x. total g (get_bucket vec p) + x) (span-cons g b vec n (p + 1)))

pub span-set :
    (g : Slot → ℕ) (vec : List Bucket) (i : ℕ) (b : Bucket) (n p : ℕ)
    → i < p
    → span g (set vec i b) p n ≡ span g vec p n
unfolding span
span-set g vec i b zero p h = refl
span-set g vec i b (suc n) p h =
    rw (get_or-set_ne vec i p b default (λ e. omega (arith, e, h)))
      (ap (λ x. total g (get_bucket vec p) + x) (span-set g vec i b n (p + 1) (omega (arith, h))))

-- A table is its first chains and the others.
pub total_all-split :
    (g : Slot → ℕ) (n k : ℕ) (vec : List Bucket)
    → length vec ≡ n + k
    → total_all g vec ≡ total_all g (truncate n vec) + span g vec n k
unfolding span
total_all-split g zero zero [] e = omega arith
total_all-split g zero (suc k) [] e = absurd (omega (arith, e))
total_all-split g zero zero (b ∷ vec) e = absurd (omega (arith, e))
total_all-split g zero (suc k) (b ∷ vec) e =
    omega (arith, total_all-split g zero k vec (omega (arith, e)), span-cons g b vec k 0)
total_all-split g (suc n) k [] e = absurd (omega (arith, e))
total_all-split g (suc n) k (b ∷ vec) e =
    omega (arith, total_all-split g n k vec (omega (arith, e)), span-cons g b vec k n)
