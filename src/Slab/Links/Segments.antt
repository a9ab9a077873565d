-- ===== src/Slab/Links/Segments.antt =====
-- Segments of a list, and what an update of a link does to them.
use allocators_rs.Base.{
  ℕ, ◌≡◌, ◌≢◌, refl, ap, ◌∙◌, Bool, true, false, ◌||◌, List, [], ◌∷◌, ◌++◌, arith, ◌==◌, ==_ne,
  ==_self,
}
use allocators_rs.Slab.System.{has, Distinct}
use allocators_rs.Slab.Links.{Links, set_next, set_prev}

abbrev pub first : List ℕ → ℕ → ℕ
first [] d = d
first (x ∷ xs) d = x

abbrev pub last : List ℕ → ℕ → ℕ
last [] d = d
last (x ∷ xs) d = last xs x

-- The elements linked in order, after `p` and before `q`.
abbrev pub Seg : Links → ℕ → List ℕ → ℕ → Type 0
Seg h p [] q = Unit {0}
Seg h p (x ∷ xs) q = (h.prev x ≡ p) × (h.next x ≡ first xs q) × Seg h x xs q

pub or_false : (a b : Bool) → (a || b) ≡ false → (a ≡ false) × (b ≡ false)
or_false true b e = absurd (ground (arith, e))
or_false false b e = (refl, e)

pub apart : (x y : ℕ) (ys : List ℕ) → has x (y ∷ ys) ≡ false → (y ≢ x) × (has x ys ≡ false)
apart x y ys e = let (a, b) = or_false (x == y) (has x ys) e in (λ same. ground (arith, a, same), b)

module _ (h : Links) (x v : ℕ) where
  pub next-set_next_ne : (y : ℕ) → y ≢ x → (set_next x v h).next y ≡ h.next y
  unfolding set_next
  next-set_next_ne y ne = rw (==_ne y x ne) refl

  pub next-set_next_self : (set_next x v h).next x ≡ v
  unfolding set_next
  next-set_next_self = rw (==_self x) refl

  pub prev-set_next : (y : ℕ) → (set_next x v h).prev y ≡ h.prev y
  unfolding set_next
  prev-set_next y = refl

  pub prev-set_prev_ne : (y : ℕ) → y ≢ x → (set_prev x v h).prev y ≡ h.prev y
  unfolding set_prev
  prev-set_prev_ne y ne = rw (==_ne y x ne) refl

  pub prev-set_prev_self : (set_prev x v h).prev x ≡ v
  unfolding set_prev
  prev-set_prev_self = rw (==_self x) refl

  pub next-set_prev : (y : ℕ) → (set_prev x v h).next y ≡ h.next y
  unfolding set_prev
  next-set_prev y = refl

  -- An update off the segment.
  pub Seg-set_next :
      (p q : ℕ) (xs : List ℕ) → has x xs ≡ false → Seg h p xs q → Seg (set_next x v h) p xs q
  Seg-set_next p q [] e s = tt
  Seg-set_next p q (y ∷ ys) e (before, after, rest) =
      let (ne, off) = apart x y ys e in
      (prev-set_next y ∙ before, next-set_next_ne y ne ∙ after, Seg-set_next y q ys off rest)

  pub Seg-set_prev :
      (p q : ℕ) (xs : List ℕ) → has x xs ≡ false → Seg h p xs q → Seg (set_prev x v h) p xs q
  Seg-set_prev p q [] e s = tt
  Seg-set_prev p q (y ∷ ys) e (before, after, rest) =
      let (ne, off) = apart x y ys e in
      (prev-set_prev_ne y ne ∙ before, next-set_prev y ∙ after, Seg-set_prev y q ys off rest)

-- The link in front of a segment, and the one behind it.
pub Seg-front :
    (h : Links) (p q v x : ℕ) (xs : List ℕ)
    → has x xs ≡ false
    → Seg h p (x ∷ xs) q
    → Seg (set_prev x v h) v (x ∷ xs) q
Seg-front h p q v x xs off (before, after, rest) =
    (prev-set_prev_self h x v, next-set_prev h x v x ∙ after, Seg-set_prev h x v x q xs off rest)

pub or_right : (a b : Bool) → b ≡ true → (a || b) ≡ true
or_right true b e = refl
or_right false b e = e

pub has-last : (x : ℕ) (xs : List ℕ) → has (last xs x) (x ∷ xs) ≡ true
has-last x [] = rw (==_self x) refl
has-last x (y ∷ ys) = or_right (last ys y == x) _ (has-last y ys)

pub Seg-back :
    (h : Links) (p q v x : ℕ) (xs : List ℕ)
    → Distinct (x ∷ xs)
    → Seg h p (x ∷ xs) q
    → Seg (set_next (last xs x) v h) p (x ∷ xs) v
Seg-back h p q v x [] d (before, after, rest) =
    (prev-set_next h x v x ∙ before, next-set_next_self h x v, tt)
Seg-back h p q v x (y ∷ ys) (off, d) (before, after, rest) =
    let ne : x ≢ last ys y =
      λ same. absurd (cc (off, has-last y ys, ap (λ z. has z (y ∷ ys)) same)) in
    (
      prev-set_next h (last ys y) v x ∙ before,
      next-set_next_ne h (last ys y) v x ne ∙ after,
      Seg-back h x q v y ys d rest,
    )

pub Seg-append :
    (h : Links) (p q : ℕ) (xs ys : List ℕ)
    → Seg h p xs (first ys q)
    → Seg h (last xs p) ys q
    → Seg h p (xs ++ ys) q
Seg-append h p q [] ys s t = t
Seg-append h p q (x ∷ []) ys (before, after, rest) t = (before, after, t)
Seg-append h p q (x ∷ y ∷ xs) ys (before, after, rest) t =
    (before, after, Seg-append h x q (y ∷ xs) ys rest t)

pub Seg-split :
    (h : Links) (p q : ℕ) (xs ys : List ℕ)
    → Seg h p (xs ++ ys) q
    → Seg h p xs (first ys q) × Seg h (last xs p) ys q
Seg-split h p q [] ys s = (tt, s)
Seg-split h p q (x ∷ []) ys (before, after, rest) = ((before, after, tt), rest)
Seg-split h p q (x ∷ y ∷ xs) ys (before, after, rest) =
    let (s, t) = Seg-split h x q (y ∷ xs) ys rest in ((before, after, s), t)
