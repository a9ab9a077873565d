-- ===== src/Slab/Sized/Linked.antt =====
-- The free list holds every slab that has a free object, once, in order; and how slabs come and go.
use allocators_rs.Base.{
  ℕ, suc, ◌+◌, ◌<◌, ◌≡◌, refl, sym, ap, subst, ◌∙◌, true, false, ◌||◌, some, none, List, [], ◌∷◌,
  ◌++◌, length, arith, ◌==◌, ==_ne, ==_self, ℕ_discrete, Bool-cases, inl, inr,
}
use allocators_rs.Slab.System.{has, Distinct, View, SameBut, Fresh}
use allocators_rs.Slab.Sized.Order.{Order, Order-same, Order-back, Order-pos, Last}

pub has-back : (y x : ℕ) (l : List ℕ) → has y (l ++ (x ∷ [])) ≡ (has y l || (y == x))
has-back y x [] = ground arith
has-back y x (z ∷ l) = ground (arith, has-back y x l)

pub back-Distinct : (x : ℕ) (l : List ℕ) → Distinct l → has x l ≡ false → Distinct (l ++ (x ∷ []))
back-Distinct x [] d h = (refl, tt)
back-Distinct x (z ∷ l) d h =
    (ground (arith, has-back z x l, d.0), back-Distinct x l d.1 (ground arith))

pub front-Distinct :
    (x : ℕ) (l : List ℕ) → Distinct (l ++ (x ∷ [])) → Distinct l × (has x l ≡ false)
front-Distinct x [] d = (tt, refl)
front-Distinct x (z ∷ l) d =
    let r = front-Distinct x l d.1 in
    ((ground (arith, has-back z x l, d.0), r.0), ground (arith, has-back z x l, d.0, r.1))

pub record Linked (f : View) (capacity : ℕ) (l : List ℕ) (n : ℕ) : Type 0 where
  pub order : Order f capacity l n
  pub distinct : Distinct l
  pub linked : (x : ℕ) (ps : List ℕ) → f x ≡ some ps → 0 < length ps → has x l ≡ true

module _ {f : View} {capacity : ℕ} (pos : 0 < capacity) where
  -- A slab with no free object, or none at all, is not in the list.
  pub not-Linked :
      (x : ℕ) {l : List ℕ} {n : ℕ}
      → Linked f capacity l n
      → ((ps : List ℕ) → f x ≡ some ps → length ps ≡ 0)
      → has x l ≡ false
  not-Linked x {l} k h = elim (Bool-cases (has x l)) [
    | inl there ↦
        let (ps, e, some_free) = Order-pos pos k.order there in absurd (omega (arith, h ps e))
    | inr e ↦ e
  ]

  -- A full slab joins at the back.
  pub join_back :
      (g : View) (x : ℕ) (ps : List ℕ) {l : List ℕ} {n : ℕ}
      → Linked f capacity l n
      → has x l ≡ false
      → SameBut x f g
      → g x ≡ some ps
      → length ps ≡ capacity
      → Linked g capacity (l ++ (x ∷ [])) (n + 1)
  join_back g x ps {l} k out same after full = record {
    order =
        Order-back (record { objects = ps; alive = after; all = full })
          (Order-same f g capacity x same k.order out);
    distinct = back-Distinct x l k.distinct out;
    linked = λ y qs e h. elim (ℕ_discrete y x) [
      | yes eq ↦ rw (has-back y x l, eq, ==_self x) (ground arith)
      | no ne ↦ rw (has-back y x l, k.linked y qs (sym (same y ne) ∙ e) h)
    ];
  }

  pub grow-Linked :
      (slab_of : ℕ → ℕ) (g : View) (x : ℕ) {l : List ℕ} {n : ℕ}
      → Linked f capacity l n
      → Fresh slab_of capacity x f g
      → Linked g capacity (l ++ (x ∷ [])) (n + 1)
  grow-Linked slab_of g x k new =
      join_back g x new.objects k (not-Linked x k (λ ps e. absurd (cc (e, new.absent)))) new.others
        new.present new.count

  -- A full slab is taken from the back and freed.
  pub shrink-Linked :
      (g : View) {l : List ℕ} {n : ℕ}
      → Linked f capacity l (suc n)
      → (last : Last f capacity l n) → SameBut last.slab f g
      → g last.slab ≡ none
      → Linked g capacity last.front n
  shrink-Linked g {l} k last same gone =
      let x = last.slab in
      let d = front-Distinct x last.front (subst Distinct last.shape k.distinct) in
      record {
        order = Order-same f g capacity x same last.order d.1;
        distinct = d.0;
        linked = λ y qs e h. elim (ℕ_discrete y x) [
          | yes eq ↦ absurd (cc (gone, e, ap g eq))
          | no ne ↦
              let there = k.linked y qs (sym (same y ne) ∙ e) h in
              let shaped : has y (last.front ++ (x ∷ [])) ≡ true =
                ap (has y) (sym last.shape) ∙ there in
              ground (arith, has-back y x last.front, shaped, ==_ne y x ne)
        ];
      }
