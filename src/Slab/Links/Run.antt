-- ===== src/Slab/Links/Run.antt =====
-- The operations of the linked list together, against those on sequences.
use allocators_rs.Base.{
  ℕ, ◌<◌, ◌≡◌, refl, sym, ap, subst, ◌∙◌, true, false, Option, some, none, List, [], ◌∷◌, ◌++◌,
  length, arith,
}
use allocators_rs.Slab.System.{has}
use allocators_rs.Slab.Sized
use allocators_rs.Slab.Links
use allocators_rs.Slab.Links.{Links, Linked, LinkedList}
use allocators_rs.Slab.Links.Refine.{
  Rep, Loose, insert_front-Rep, insert_back-Rep, remove_front-Removed, remove_back-Removed,
}
use allocators_rs.Slab.Links.Moves.{move_to_back-Rep}

pub data Op : Type 0 where
  push_front : ℕ → Op
  push_back : ℕ → Op
  pop_front : Op
  pop_back : Op
  to_back : ℕ → Op

abbrev taken : ℕ × Linked → Option ℕ × Linked
taken (t, s) = (some t, s)

-- What an operation returns, and the list after it.
abbrev pub apply : Op → Linked → Option ℕ × Linked
apply (push_front t) s = (none, Links.insert_front t s)
apply (push_back t) s = (none, Links.insert_back t s)
apply pop_front s = taken (Links.remove_front s)
apply pop_back s = taken (Links.remove_back s)
apply (to_back t) s = (none, Links.move_to_back t s)

abbrev taken_back : Option (ℕ × List ℕ) → Option ℕ × List ℕ
taken_back none = (none, [])
taken_back (some (t, xs)) = (some t, xs)

-- The same on sequences.
abbrev pub apply_list : Op → List ℕ → Option ℕ × List ℕ
apply_list (push_front t) xs = (none, t ∷ xs)
apply_list (push_back t) xs = (none, xs ++ (t ∷ []))
apply_list pop_front [] = (none, [])
apply_list pop_front (x ∷ xs) = (some x, xs)
apply_list pop_back xs = taken_back (Sized.remove_back xs)
apply_list (to_back t) xs = (none, Sized.move_to_back t xs)

-- What the debug assertions of an operation ask, and that an element is in the list at most once.
abbrev pub Valid : Op → Linked → List ℕ → Type 0
Valid (push_front t) s xs = (has t xs ≡ false) × Loose s t
Valid (push_back t) s xs = (has t xs ≡ false) × Loose s t
Valid pop_front s xs = 0 < length xs
Valid pop_back s xs = 0 < length xs
Valid (to_back t) s xs = has t xs ≡ true

remove_back-split :
    (x : ℕ) (xs : List ℕ)
    → (t : ℕ) × (front : List ℕ) × (x ∷ xs ≡ front ++ (t ∷ []))
      × (Sized.remove_back (x ∷ xs) ≡ some (t, front))
unfolding Sized.remove_back
remove_back-split x [] = (x, [], refl, refl)
remove_back-split x (y ∷ ys) =
    let (t, front, shape, e) = remove_back-split y ys in
    (t, x ∷ front, ap (λ l. x ∷ l) shape, rw e refl)

-- An element that is returned has no links.
abbrev pub Freed : Option ℕ → Linked → Type 0
Freed none s = Unit {0}
Freed (some t) s = Loose s t

module _ (h : Links) (l : LinkedList) where
  -- The same is returned, and the list has the elements of the sequence.
  abbrev pub Refines : Op → List ℕ → Type 0
  Refines o xs =
      ((apply o (h, l)).0 ≡ (apply_list o xs).0)
      × Rep (apply o (h, l)).1 (apply_list o xs).1
      × Freed (apply o (h, l)).0 (apply o (h, l)).1

  pop_back-Refines : (x : ℕ) (xs : List ℕ) → Rep (h, l) (x ∷ xs) → Refines pop_back (x ∷ xs)
  pop_back-Refines x xs r =
      let (t, front, shape, e) = remove_back-split x xs in
      let (same, rep, loose) = remove_back-Removed h l t front (subst (Rep (h, l)) shape r) in
      (
        ap some same ∙ sym (ap (λ r. (taken_back r).0) e),
        subst (λ r. Rep (Links.remove_back (h, l)).1 (taken_back r).1) (sym e) rep,
        subst (Loose (Links.remove_back (h, l)).1) (sym same) loose,
      )

  -- A valid operation on a list of some elements, with its pointers, returns what the operation on the
  -- sequence of these elements returns, and leaves a list of the elements of that operation's sequence,
  -- linked in order in both directions, each once; an element that it returns has no links.
  pub apply-Refines : (o : Op) (xs : List ℕ) → Rep (h, l) xs → Valid o (h, l) xs → Refines o xs
  apply-Refines (push_front t) xs r (off, loose) = (refl, insert_front-Rep t h l xs r off loose, tt)
  apply-Refines (push_back t) xs r (off, loose) = (refl, insert_back-Rep t h l xs r off loose, tt)
  apply-Refines pop_front [] r v = absurd (omega arith)
  apply-Refines pop_front (x ∷ xs) r v =
      let (same, rep, loose) = remove_front-Removed h l x xs r in
      (ap some same, rep, subst (Loose (Links.remove_front (h, l)).1) (sym same) loose)
  apply-Refines pop_back [] r v = absurd (omega arith)
  apply-Refines pop_back (x ∷ xs) r v = pop_back-Refines x xs r
  apply-Refines (to_back t) xs r there = (refl, move_to_back-Rep t h l xs r there, tt)
