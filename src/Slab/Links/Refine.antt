-- ===== src/Slab/Links/Refine.antt =====
-- The linked list with its pointers does what the operations on sequences do.
use allocators_rs.Base.{
  ℕ, suc, ◌+◌, ◌≡◌, ◌≢◌, refl, sym, ap, subst, ◌∙◌, false, List, [], ◌∷◌, ◌++◌, length,
  length-append, arith, ==_ne,
}
use allocators_rs.Slab.System.{has, Distinct}
use allocators_rs.Slab.Sized.Linked.{back-Distinct, front-Distinct}
use allocators_rs.Slab.Links.{
  Links, Linked, LinkedList, set_next, set_prev, insert_front, insert_back, remove_front,
  remove_back,
}
use allocators_rs.Slab.Links.Segments.{
  first, last, Seg, apart, next-set_next_ne, next-set_next_self, prev-set_next, prev-set_prev_ne,
  prev-set_prev_self, next-set_prev, Seg-set_next, Seg-set_prev, Seg-front, Seg-back, Seg-append,
  Seg-split, has-last,
}

abbrev pub list_of : List ℕ → LinkedList
list_of xs = record { size = length xs; head = first xs 0; tail = last xs 0 }

-- The list has the elements `xs`, in order.
abbrev pub Rep : Linked → List ℕ → Type 0
Rep (h, l) xs = (l ≡ list_of xs) × Seg h 0 xs 0 × Distinct xs

-- An element that is in no list.
abbrev pub Loose : Linked → ℕ → Type 0
Loose (h, l) t = (h.next t ≡ 0) × (h.prev t ≡ 0)

pub via-Rep : (s s' : Linked) (xs : List ℕ) → s ≡ s' → Rep s' xs → Rep s xs
via-Rep s s' xs e r = subst (λ t. Rep t xs) (sym e) r

insert_front-nil : (h : Links) (t : ℕ) → insert_front t (h, list_of []) ≡ (h, list_of (t ∷ []))
unfolding insert_front
insert_front-nil h t = refl

-- What the operations do to the list of some elements.
module _ (h : Links) (t x : ℕ) (xs : List ℕ) where
  insert_front-list_of :
      insert_front t (h, list_of (x ∷ xs)) ≡ (set_prev x t (set_next t x h), list_of (t ∷ x ∷ xs))
  unfolding insert_front
  insert_front-list_of = rw (==_ne (suc (length xs)) 0 (λ z. omega (arith, z))) (
      ap {B = Linked}
        (λ k. (set_prev x t (set_next t x h), record { size = k; head = t; tail = last xs x }))
        (omega arith))

pub insert_front-Rep :
    (t : ℕ) (h : Links) (l : LinkedList) (xs : List ℕ)
    → Rep (h, l) xs
    → has t xs ≡ false
    → Loose (h, l) t
    → Rep (insert_front t (h, l)) (t ∷ xs)
insert_front-Rep t h l [] (e, seg, d) off (next, prev) =
    via-Rep _ (h, list_of (t ∷ [])) (t ∷ [])
      (ap (λ l. insert_front t (h, l)) e ∙ insert_front-nil h t)
      (refl, (prev, next, tt), (refl, tt))
insert_front-Rep t h l (x ∷ xs) (e, seg, (apart_x, d)) off (next, prev) =
    let (ne, rest) = apart t x xs off in
    let there = Seg-set_next h t x 0 0 (x ∷ xs) off seg in
    via-Rep _ (set_prev x t (set_next t x h), list_of (t ∷ x ∷ xs)) (t ∷ x ∷ xs)
      (ap (λ l. insert_front t (h, l)) e ∙ insert_front-list_of h t x xs)
      (
        refl,
        (
          prev-set_prev_ne (set_next t x h) x t t (λ same. ne (sym same))
              ∙ prev-set_next h t x t
              ∙ prev,
          next-set_prev (set_next t x h) x t t ∙ next-set_next_self h t x,
          Seg-front (set_next t x h) 0 0 t x xs apart_x there,
        ),
        (off, (apart_x, d)),
      )

pub last_back : (x t : ℕ) (xs : List ℕ) → last (xs ++ (t ∷ [])) x ≡ t
last_back x t [] = refl
last_back x t (y ∷ ys) = last_back y t ys

pub list_of-back :
    (x t : ℕ) (xs : List ℕ)
    → record { size = suc (length xs) + 1; head = x; tail = t } ≡ list_of (x ∷ (xs ++ (t ∷ [])))
list_of-back x t xs =
    rw (length-append xs (t ∷ []), last_back x t xs)
      (ap {B = LinkedList} (λ k. record { size = k; head = x; tail = t }) (omega arith))

pub last_ne : (t x : ℕ) (xs : List ℕ) → has t (x ∷ xs) ≡ false → t ≢ last xs x
last_ne t x xs off same = absurd (cc (off, has-last x xs, ap (λ z. has z (x ∷ xs)) same))

insert_back-list_of :
    (h : Links) (t x : ℕ) (xs : List ℕ)
    → insert_back t (h, list_of (x ∷ xs))
      ≡ (set_prev t (last xs x) (set_next (last xs x) t h), list_of (x ∷ (xs ++ (t ∷ []))))
unfolding insert_back
insert_back-list_of h t x xs = rw (==_ne (suc (length xs)) 0 (λ z. omega (arith, z))) (
    ap {B = Linked} (λ l. (set_prev t (last xs x) (set_next (last xs x) t h), l))
      (list_of-back x t xs))

insert_back-nil : (h : Links) (t : ℕ) → insert_back t (h, list_of []) ≡ (h, list_of (t ∷ []))
unfolding insert_back
insert_back-nil h t = refl

-- A loose element behind a segment.
Seg-attached :
    (h : Links) (t x : ℕ) (xs : List ℕ)
    → Seg h 0 (x ∷ xs) 0
    → Distinct (x ∷ xs)
    → has t (x ∷ xs) ≡ false
    → h.next t ≡ 0
    → Seg (set_prev t (last xs x) (set_next (last xs x) t h)) 0 (x ∷ (xs ++ (t ∷ []))) 0
Seg-attached h t x xs seg d off next =
    let h1 = set_next (last xs x) t h in
    Seg-append (set_prev t (last xs x) h1) 0 0 (x ∷ xs) (t ∷ [])
      (Seg-set_prev h1 t (last xs x) 0 t (x ∷ xs) off (Seg-back h 0 0 t x xs d seg))
      (
        prev-set_prev_self h1 t (last xs x),
        next-set_prev h1 t (last xs x) t
            ∙ next-set_next_ne h (last xs x) t t (last_ne t x xs off)
            ∙ next,
        tt,
      )

pub insert_back-Rep :
    (t : ℕ) (h : Links) (l : LinkedList) (xs : List ℕ)
    → Rep (h, l) xs
    → has t xs ≡ false
    → Loose (h, l) t
    → Rep (insert_back t (h, l)) (xs ++ (t ∷ []))
insert_back-Rep t h l [] (e, seg, d) off (next, prev) =
    via-Rep _ (h, list_of (t ∷ [])) (t ∷ [])
      (ap (λ l. insert_back t (h, l)) e ∙ insert_back-nil h t) (refl, (prev, next, tt), (refl, tt))
insert_back-Rep t h l (x ∷ xs) (e, seg, d) off (next, prev) =
    via-Rep _ (set_prev t (last xs x) (set_next (last xs x) t h), list_of (x ∷ (xs ++ (t ∷ []))))
      (x ∷ (xs ++ (t ∷ []))) (ap (λ l. insert_back t (h, l)) e ∙ insert_back-list_of h t x xs)
      (refl, Seg-attached h t x xs seg d off next, back-Distinct t (x ∷ xs) d off)

-- What a removal returns: the element, loose, and the list of the others.
abbrev pub Removed : ℕ → List ℕ → ℕ × Linked → Type 0
Removed x xs (t, s) = (t ≡ x) × Rep s xs × Loose s x

via-Removed : (x : ℕ) (xs : List ℕ) (r r' : ℕ × Linked) → r ≡ r' → Removed x xs r' → Removed x xs r
via-Removed x xs r r' e h = subst (Removed x xs) (sym e) h

remove_front-one : (h : Links) (x : ℕ) → remove_front (h, list_of (x ∷ [])) ≡ (x, (h, list_of []))
unfolding remove_front
remove_front-one h x = refl

remove_front-list_of :
    (h : Links) (x y : ℕ) (ys : List ℕ)
    → h.next x ≡ y
    → remove_front (h, list_of (x ∷ y ∷ ys))
      ≡ (x, (set_next x 0 (set_prev y 0 h), list_of (y ∷ ys)))
unfolding remove_front
remove_front-list_of h x y ys e =
    rw (==_ne (suc (suc (length ys))) 1 (λ z. omega (arith, z)), e)
      (ap {B = ℕ × Linked}
        (λ k. (x, (set_next x 0 (set_prev y 0 h), record { size = k; head = y; tail = last ys y })))
        (omega arith))

pub remove_front-Removed :
    (h : Links) (l : LinkedList) (x : ℕ) (xs : List ℕ)
    → Rep (h, l) (x ∷ xs)
    → Removed x xs (remove_front (h, l))
remove_front-Removed h l x [] (e, (before, after, tt), d) =
    via-Removed x [] _ (x, (h, list_of [])) (ap (λ l. remove_front (h, l)) e ∙ remove_front-one h x)
      (refl, (refl, tt, tt), (after, before))
remove_front-Removed h l x (y ∷ ys) (e, (before, after, rest), (off, (off', d))) =
    let (ne, apart_xs) = apart x y ys off in
    let h1 = set_prev y 0 h in
    via-Removed x (y ∷ ys) _ (x, (set_next x 0 h1, list_of (y ∷ ys)))
      (ap (λ l. remove_front (h, l)) e ∙ remove_front-list_of h x y ys after)
      (
        refl,
        (refl, Seg-set_next h1 x 0 0 0 (y ∷ ys) off (Seg-front h x 0 0 y ys off' rest), (off', d)),
        (
          next-set_next_self h1 x 0,
          prev-set_next h1 x 0 x ∙ prev-set_prev_ne h y 0 x (λ same. ne (sym same)) ∙ before,
        ),
      )

remove_back-list_of :
    (h : Links) (x t : ℕ) (xs : List ℕ)
    → h.prev t ≡ last xs x
    → remove_back (h, list_of (x ∷ (xs ++ (t ∷ []))))
      ≡ (t, (set_prev t 0 (set_next (last xs x) 0 h), list_of (x ∷ xs)))
unfolding remove_back
remove_back-list_of h x t xs e =
    ap (λ l. remove_back (h, l)) (sym (list_of-back x t xs))
    ∙ rw (==_ne (suc (length xs) + 1) 1 (λ z. omega (arith, z)), e)
        (ap {B = ℕ × Linked}
          (λ k. (
            t,
            (
              set_prev t 0 (set_next (last xs x) 0 h),
              record { size = k; head = x; tail = last xs x },
            ),
          ))
          (omega arith))

remove_back-one : (h : Links) (x : ℕ) → remove_back (h, list_of (x ∷ [])) ≡ (x, (h, list_of []))
unfolding remove_back
remove_back-one h x = refl

pub remove_back-Removed :
    (h : Links) (l : LinkedList) (t : ℕ) (xs : List ℕ)
    → Rep (h, l) (xs ++ (t ∷ []))
    → Removed t xs (remove_back (h, l))
remove_back-Removed h l t [] (e, (before, after, tt), d) =
    via-Removed t [] _ (t, (h, list_of [])) (ap (λ l. remove_back (h, l)) e ∙ remove_back-one h t)
      (refl, (refl, tt, tt), (after, before))
remove_back-Removed h l t (x ∷ xs) (e, seg, d) =
    let (front, (before, after, tt)) = Seg-split h 0 0 (x ∷ xs) (t ∷ []) seg in
    let (d', off) = front-Distinct t (x ∷ xs) d in
    let h1 = set_next (last xs x) 0 h in
    via-Removed t (x ∷ xs) _ (t, (set_prev t 0 h1, list_of (x ∷ xs)))
      (ap (λ l. remove_back (h, l)) e ∙ remove_back-list_of h x t xs before)
      (
        refl,
        (refl, Seg-set_prev h1 t 0 0 0 (x ∷ xs) off (Seg-back h 0 t 0 x xs d' front), d'),
        (
          next-set_prev h1 t 0 t ∙ next-set_next_ne h (last xs x) 0 t (last_ne t x xs off) ∙ after,
          prev-set_prev_self h1 t 0,
        ),
      )
