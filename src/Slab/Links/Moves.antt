-- ===== src/Slab/Links/Moves.antt =====
-- `move_to_back` of the linked list.
use allocators_rs.Base.{
  ℕ, suc, ◌+◌, ◌≡◌, ◌≢◌, refl, sym, ap, subst, ◌∙◌, true, false, ◌||◌, List, [], ◌∷◌, ◌++◌, length,
  length-append, arith, ◌==◌, ==_ne, ==_self, if◌then◌else◌, ℕ_discrete, Bool-cases, inl, inr,
}
use allocators_rs.Slab.System.{has, Distinct}
use allocators_rs.Slab.Sized.{remove}
use allocators_rs.Slab.Sized
use allocators_rs.Slab.Sized.Objects.{has-remove_self, remove-Distinct}
use allocators_rs.Slab.Sized.Linked.{back-Distinct}
use allocators_rs.Slab.Links.{
  Links, Linked, LinkedList, set_next, set_prev, unlink, attach, move_to_back,
}
use allocators_rs.Slab.Links.Segments.{
  last, Seg, or_right, or_false, apart, prev-set_next, next-set_next_ne, next-set_next_self,
  prev-set_prev_self, Seg-set_next, Seg-set_prev, Seg-front, Seg-back, Seg-append, Seg-split,
  has-last,
}
use allocators_rs.Slab.Links.Refine.{list_of, Rep, via-Rep, list_of-back, last_back, last_ne}

has-append : (y : ℕ) (xs ys : List ℕ) → has y (xs ++ ys) ≡ (has y xs || has y ys)
has-append y [] ys = refl
has-append y (x ∷ xs) ys = ground (arith, has-append y xs ys)

-- The parts of a list of distinct elements.
append-Distinct :
    (xs ys : List ℕ)
    → Distinct (xs ++ ys)
    → Distinct xs × Distinct ys × ((y : ℕ) → has y xs ≡ true → has y ys ≡ false)
append-Distinct [] ys d = (tt, d, λ y e. absurd (ground (arith, e)))
append-Distinct (x ∷ xs) ys (off, d) =
    let (dx, dy, apart) = append-Distinct xs ys d in
    (
      (ground (arith, off, has-append x xs ys), dx),
      dy,
      λ y e. elim (ℕ_discrete y x) [
        | yes same ↦ ground (arith, off, has-append x xs ys, ap (λ z. has z ys) same)
        | no ne ↦ apart y (ground (arith, e, ==_ne y x ne))
      ],
    )

not-has :
    (y : ℕ) (xs ys : List ℕ)
    → ((z : ℕ) → has z xs ≡ true → has z ys ≡ false)
    → has y ys ≡ true
    → has y xs ≡ false
not-has y xs ys apart e = elim (Bool-cases (has y xs)) [
  | inl there ↦ absurd (cc (e, apart y there))
  | inr off ↦ off
]

last-append : (x y : ℕ) (xs ys : List ℕ) → last (xs ++ (y ∷ ys)) x ≡ last ys y
last-append x y [] ys = refl
last-append x y (z ∷ xs) ys = last-append z y xs ys

-- Where an element stands.
split_at :
    (t : ℕ) (xs : List ℕ)
    → has t xs ≡ true
    → (us : List ℕ) × (vs : List ℕ) × (xs ≡ us ++ (t ∷ vs)) × (remove t xs ≡ us ++ vs)
unfolding remove
split_at t [] e = absurd (ground (arith, e))
split_at t (x ∷ xs) e = elim (ℕ_discrete x t) [
  | yes same ↦ (
    [],
    xs,
    ap (λ z. z ∷ xs) same,
    ap (λ b. if b then xs else x ∷ remove t xs) (ap (λ z. z == t) same ∙ ==_self t),
  )
  | no ne ↦
      let (us, vs, shape, rest) =
        split_at t xs (ground (arith, e, ==_ne t x (λ same. ne (sym same)))) in
      (
        x ∷ us,
        vs,
        ap (λ l. x ∷ l) shape,
        ap (λ b. if b then xs else x ∷ remove t xs) (==_ne x t ne) ∙ ap (λ l. x ∷ l) rest,
      )
]

-- An element off a segment, attached behind it.
Seg-attach :
    (h : Links) (t y : ℕ) (ys : List ℕ)
    → Seg h 0 (y ∷ ys) 0
    → Distinct (y ∷ ys)
    → has t (y ∷ ys) ≡ false
    → Seg (attach t (last ys y) h) 0 (y ∷ (ys ++ (t ∷ []))) 0
unfolding attach
Seg-attach h t y ys seg d off =
    let tail = last ys y in
    let h1 = set_prev t tail h in
    let h2 = set_next t 0 h1 in
    Seg-append (set_next tail t h2) 0 0 (y ∷ ys) (t ∷ [])
      (Seg-back h2 0 0 t y ys d
        (Seg-set_next h1 t 0 0 0 (y ∷ ys) off (Seg-set_prev h t tail 0 0 (y ∷ ys) off seg)))
      (
        prev-set_next h2 tail t t ∙ prev-set_next h1 t 0 t ∙ prev-set_prev_self h t tail,
        next-set_next_ne h2 tail t t (last_ne t y ys off) ∙ next-set_next_self h1 t 0,
        tt,
      )

-- The segment without an element that is not the last.
Seg-unlink :
    (h : Links) (t a b : ℕ) (us vs : List ℕ)
    → Seg h 0 ((a ∷ us) ++ (t ∷ b ∷ vs)) 0
    → Distinct ((a ∷ us) ++ (b ∷ vs))
    → Seg (set_prev b (last us a) (set_next (last us a) b h)) 0 ((a ∷ us) ++ (b ∷ vs)) 0
Seg-unlink h t a b us vs seg d =
    let (front, (before, after, back)) = Seg-split h 0 0 (a ∷ us) (t ∷ b ∷ vs) seg in
    let (da, (off, db), apart) = append-Distinct (a ∷ us) (b ∷ vs) d in
    let h1 = set_next (last us a) b h in
    Seg-append (set_prev b (last us a) h1) 0 0 (a ∷ us) (b ∷ vs)
      (Seg-set_prev h1 b (last us a) 0 b (a ∷ us)
        (not-has b (a ∷ us) (b ∷ vs) apart (rw (==_self b) refl)) (Seg-back h 0 t b a us da front))
      (Seg-front h1 t 0 (last us a) b vs off
        (Seg-set_next h (last us a) b t 0 (b ∷ vs) (apart (last us a) (has-last a us)) back))

module _ (h : Links) (t : ℕ) where
  stays : (l : LinkedList) → l.tail ≡ t → move_to_back t (h, l) ≡ (h, l)
  unfolding move_to_back
  stays l e = rw (or_right (l.size == 1) (l.tail == t) (ap (λ z. z == t) e ∙ ==_self t)) refl

  moves :
      (l : LinkedList) (u : Links) (head : ℕ)
      → l.size ≢ 1
      → l.tail ≢ t
      → unlink t (h, l) ≡ (u, head)
      → move_to_back t (h, l) ≡ (attach t l.tail u, record { size = l.size; head = head; tail = t })
  unfolding move_to_back
  moves l u head many ne e = rw (==_ne l.size 1 many, ==_ne l.tail t ne, e) refl

  -- The first element, with others behind it.
  moves-first :
      (b : ℕ) (vs : List ℕ)
      → h.next t ≡ b
      → last vs b ≢ t
      → move_to_back t (h, list_of (t ∷ b ∷ vs))
        ≡ (attach t (last vs b) (set_prev b 0 h), list_of (b ∷ (vs ++ (t ∷ []))))
  unfolding unlink
  moves-first b vs next ne =
      moves (list_of (t ∷ b ∷ vs)) (set_prev b 0 h) b (λ z. omega (arith, z)) ne
        (rw (unlink, ==_self t, next) refl)
      ∙ ap {B = Linked}
          (λ k. (attach t (last vs b) (set_prev b 0 h), record { size = k; head = b; tail = t }))
          (omega arith)
      ∙ ap {B = Linked} (λ l. (attach t (last vs b) (set_prev b 0 h), l)) (list_of-back b t vs)

  moves-later :
      (a b : ℕ) (us vs : List ℕ)
      → h.next t ≡ b
      → h.prev t ≡ last us a
      → a ≢ t
      → last vs b ≢ t
      → move_to_back t (h, list_of ((a ∷ us) ++ (t ∷ b ∷ vs))) ≡ (
        attach t (last vs b) (set_prev b (last us a) (set_next (last us a) b h)),
        list_of (a ∷ ((us ++ (b ∷ vs)) ++ (t ∷ []))),
      )
  unfolding unlink
  moves-later a b us vs next prev ne ne' =
      let l = list_of ((a ∷ us) ++ (t ∷ b ∷ vs)) in
      let u = set_prev b (last us a) (set_next (last us a) b h) in
      let end : l.tail ≡ last vs b = last-append a t us (b ∷ vs) in
      let count : l.size ≡ suc (length (us ++ (b ∷ vs))) + 1 =
        omega (arith, length-append us (t ∷ b ∷ vs), length-append us (b ∷ vs)) in
      moves l u a (λ z. omega (arith, z, count, length-append us (b ∷ vs)))
        (λ same. ne' (sym end ∙ same)) (rw (unlink, ==_ne a t ne, next, prev) refl)
      ∙ ap {B = Linked} (λ k. (attach t k u, record { size = l.size; head = a; tail = t })) end
      ∙ ap {B = Linked} (λ k. (attach t (last vs b) u, record { size = k; head = a; tail = t }))
          count
      ∙ ap {B = Linked} (λ l. (attach t (last vs b) u, l)) (list_of-back a t (us ++ (b ∷ vs)))

append_nil : (xs : List ℕ) → xs ++ [] ≡ xs
append_nil [] = refl
append_nil (x ∷ xs) = ap (λ l. x ∷ l) (append_nil xs)

-- The last element stays.
moved-last :
    (h : Links) (t : ℕ) (us : List ℕ)
    → Seg h 0 (us ++ (t ∷ [])) 0
    → Distinct (us ++ (t ∷ []))
    → Rep (move_to_back t (h, list_of (us ++ (t ∷ [])))) ((us ++ []) ++ (t ∷ []))
moved-last h t us seg whole =
    subst (λ l. Rep (move_to_back t (h, list_of (us ++ (t ∷ [])))) (l ++ (t ∷ [])))
      (sym (append_nil us))
      (via-Rep (move_to_back t (h, list_of (us ++ (t ∷ [])))) (h, list_of (us ++ (t ∷ [])))
        (us ++ (t ∷ [])) (stays h t (list_of (us ++ (t ∷ []))) (last_back 0 t us))
        (refl, seg, whole))

-- The element is where it was found, and the others keep their order.
moved :
    (h : Links) (t : ℕ) (us vs : List ℕ)
    → Seg h 0 (us ++ (t ∷ vs)) 0
    → Distinct (us ++ (t ∷ vs))
    → Distinct (us ++ vs)
    → has t (us ++ vs) ≡ false
    → Rep (move_to_back t (h, list_of (us ++ (t ∷ vs)))) ((us ++ vs) ++ (t ∷ []))
moved h t us [] seg whole d off = moved-last h t us seg whole
moved h t [] (b ∷ vs) (before, after, rest) whole d off =
    let off_tail = last_ne t b vs off in
    via-Rep _ (attach t (last vs b) (set_prev b 0 h), list_of (b ∷ (vs ++ (t ∷ []))))
      (b ∷ (vs ++ (t ∷ []))) (moves-first h t b vs after (λ same. off_tail (sym same)))
      (
        refl,
        Seg-attach (set_prev b 0 h) t b vs (Seg-front h t 0 0 b vs d.0 rest) d off,
        back-Distinct t (b ∷ vs) d off,
      )
moved h t (a ∷ us) (b ∷ vs) seg whole d off =
    let (front, (before, after, rest)) = Seg-split h 0 0 (a ∷ us) (t ∷ b ∷ vs) seg in
    let (off_front, off_back) =
      or_false (has t (a ∷ us)) (has t (b ∷ vs)) (sym (has-append t (a ∷ us) (b ∷ vs)) ∙ off) in
    let off_tail = last_ne t b vs off_back in
    let u = set_prev b (last us a) (set_next (last us a) b h) in
    via-Rep _ (attach t (last vs b) u, list_of (a ∷ ((us ++ (b ∷ vs)) ++ (t ∷ []))))
      (a ∷ ((us ++ (b ∷ vs)) ++ (t ∷ [])))
      (moves-later h t a b us vs after before (apart t a us off_front).0
        (λ same. off_tail (sym same)))
      (
        refl,
        subst (λ k. Seg (attach t k u) 0 (a ∷ ((us ++ (b ∷ vs)) ++ (t ∷ []))) 0)
            (last-append a b us vs)
            (Seg-attach u t a (us ++ (b ∷ vs)) (Seg-unlink h t a b us vs seg d) d off),
        back-Distinct t (a ∷ (us ++ (b ∷ vs))) d off,
      )

pub move_to_back-Rep :
    (t : ℕ) (h : Links) (l : LinkedList) (xs : List ℕ)
    → Rep (h, l) xs
    → has t xs ≡ true
    → Rep (move_to_back t (h, l)) (Sized.move_to_back t xs)
unfolding Sized.move_to_back
move_to_back-Rep t h l xs (e, seg, d) there =
    let (us, vs, shape, rest) = split_at t xs there in
    let kept : Distinct (us ++ vs) = subst Distinct rest (remove-Distinct t xs d) in
    let gone : has t (us ++ vs) ≡ false = ap (has t) (sym rest) ∙ has-remove_self t xs d in
    let done =
      moved h t us vs (subst (λ l. Seg h 0 l 0) shape seg) (subst Distinct shape d) kept gone in
    subst (λ l. Rep (move_to_back t (h, l)) (remove t xs ++ (t ∷ []))) (sym (e ∙ ap list_of shape))
      (subst (λ ys. Rep (move_to_back t (h, list_of (us ++ (t ∷ vs)))) (ys ++ (t ∷ []))) (sym rest)
        done)
