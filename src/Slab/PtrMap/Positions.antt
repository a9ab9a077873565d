-- ===== src/Slab/PtrMap/Positions.antt =====
-- The positions of a chain: a write to a slot, and the search for a vacant one.
use allocators_rs.Base.{
  ℕ, zero, suc, ◌+◌, ◌-◌, ◌<◌, ◌≤◌, ◌≡◌, refl, sym, ap, subst, ◌∙◌, List, [], ◌∷◌, ◌++◌, length,
  length-set, set, arith, ltb, lt→ltb, ==_ne, ℕ_discrete, dec_lt, false, Bool-cases, inl, inr,
}
use allocators_rs.Slab.PtrMap.{Slot, Bucket, last, linked, slots, set_at, slot_at, next_free}
use allocators_rs.Slab.PtrMap.Buckets.{Shape}

set_left :
    (xs ys : List Slot) (p : ℕ) (s : Slot) → p < length xs → set (xs ++ ys) p s ≡ set xs p s ++ ys
set_left [] ys p s h = absurd (omega arith)
set_left (x ∷ xs) ys zero s h = refl
set_left (x ∷ xs) ys (suc p) s h = ap (λ l. x ∷ l) (set_left xs ys p s (omega (arith, h)))

set_right :
    (xs ys : List Slot) (p : ℕ) (s : Slot)
    → length xs ≤ p
    → set (xs ++ ys) p s ≡ xs ++ set ys (p - length xs) s
set_right [] ys p s h = ap (λ q. set ys q s) (omega arith)
set_right (x ∷ xs) ys zero s h = absurd (omega arith)
set_right (x ∷ xs) ys (suc p) s h =
    ap (λ l. x ∷ l)
      (set_right xs ys p s (omega (arith, h)) ∙ ap (λ q. xs ++ set ys q s) (omega arith))

pub slots-set_at : (b : Bucket) (p : ℕ) (s : Slot) → slots (set_at b p s) ≡ set (slots b) p s
unfolding set_at
slots-set_at (last d) p s = refl
slots-set_at (linked d next) p s = elim (dec_lt p (length d)) [
  | yes h ↦ rw (set_at, lt→ltb p (length d) h) (sym (set_left d (slots next) p s h))
  | no h ↦
      let not_lt : ltb p (length d) ≡ false = ground (arith, h) in
      rw (set_at, not_lt)
        (ap (λ l. d ++ l) (slots-set_at next (p - length d) s)
          ∙ sym (set_right d (slots next) p s (omega (arith, h))))
]

pub set_at-Shape : (b : Bucket) (p : ℕ) (s : Slot) → Shape b → Shape (set_at b p s)
unfolding set_at
set_at-Shape (last d) p s e = length-set d p s ∙ e
set_at-Shape (linked d next) p s (e, rest) = elim (Bool-cases (ltb p (length d))) [
  | inl t ↦ rw (set_at, t) (length-set d p s ∙ e, rest)
  | inr f ↦ rw (set_at, f) (e, set_at-Shape next (p - length d) s rest)
]

-- Enough fuel is given: there is a vacant slot within it.
pub next_free-vacant :
    (b : Bucket) (n f : ℕ)
    → (slot_at b (f + n)).0 ≡ 0
    → (next_free b n f ≤ f + n) × ((slot_at b (next_free b n f)).0 ≡ 0)
unfolding next_free
next_free-vacant b zero f e = (omega arith, subst (λ p. (slot_at b p).0 ≡ 0) (omega arith) e)
next_free-vacant b (suc n) f e = elim (ℕ_discrete (slot_at b f).0 0) [
  | yes z ↦ rw (next_free, z) (omega arith, z)
  | no ne ↦
      let (le, z) =
        next_free-vacant b n (f + 1) (subst (λ p. (slot_at b p).0 ≡ 0) (omega arith) e) in
      rw (next_free, ==_ne (slot_at b f).0 0 ne) (omega (arith, le), z)
]
