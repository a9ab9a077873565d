-- ===== src/Slab/Sized/Moves.antt =====
-- Objects coming back, and slabs coming and going.
use allocators_rs.Base.{
  ℕ, ◌+◌, ◌<◌, ◌≡◌, sym, ap, subst, ◌∙◌, true, false, some, none, List, [], ◌∷◌, length, All, arith,
  ℕ_discrete, Bool-cases, inl, inr,
}
use allocators_rs.Slab.System.{has, View, SameBut, Fresh}
use allocators_rs.Slab.Sized.{remove}
use allocators_rs.Slab.Sized.Objects.{
  SlabOk, Objects, count, count-remove, count-pos, count-zero, apart-remove, not-has_self, some_inj,
  has-remove_self, has_of_has-remove, remove-Distinct,
}

All-apart : (ps : List ℕ) (P : ℕ → Type 0) → ((p : ℕ) → P p) → All P ps
All-apart [] P h = tt
All-apart (p ∷ ps) P h = (h p, All-apart ps P h)

All-map : (P Q : ℕ → Type 0) (ps : List ℕ) → ((p : ℕ) → P p → Q p) → All P ps → All Q ps
All-map P Q [] h a = tt
All-map P Q (p ∷ ps) h a = (h p a.0, All-map P Q ps h a.1)

module _ (slab_of : ℕ → ℕ) (capacity : ℕ) (f g : View) (out : List ℕ)
    (o : Objects slab_of capacity f out) where
  -- A client has one of its slab's objects, so the slab has room for it.
  pub owned_room :
      (p : ℕ) (ps : List ℕ) → has p out ≡ true → f (slab_of p) ≡ some ps → length ps < capacity
  owned_room p ps h e = omega (arith, (o.slabs (slab_of p) ps e).total, count-pos slab_of p out h)

  pub put-Objects :
      (p : ℕ) (ps : List ℕ)
      → has p out ≡ true
      → SameBut (slab_of p) f g
      → f (slab_of p) ≡ some ps
      → g (slab_of p) ≡ some (p ∷ ps)
      → Objects slab_of capacity g (remove p out)
  put-Objects p ps h same before after =
      let x = slab_of p in
      let s = o.slabs x ps before in
      let new : has p ps ≡ false = not-has_self (λ q. has q out ≡ false) p ps s.apart (λ e. cc) in
      let less = count-remove slab_of x p out h in
      record {
        slabs = λ y qs e. elim (ℕ_discrete y x) [
          | yes at_x ↦
              let eq : p ∷ ps ≡ qs = some_inj (p ∷ ps) qs (sym after ∙ ap g (sym at_x) ∙ e) in
              subst (λ l. SlabOk slab_of capacity y l (remove p out)) eq
                (record {
                  distinct = (new, s.distinct);
                  belong = (sym at_x, subst (λ z. All (λ q. slab_of q ≡ z) ps) (sym at_x) s.belong);
                  apart = (has-remove_self p out o.distinct, apart-remove p out ps s.apart);
                  total =
                      subst (λ z. length (p ∷ ps) + count slab_of z (remove p out) ≡ capacity)
                        (sym at_x) (ground (arith, s.total, less));
                })
          | no other ↦
              let t = o.slabs y qs (sym (same y other) ∙ e) in
              record {
                distinct = t.distinct;
                belong = t.belong;
                apart = apart-remove p out qs t.apart;
                total = ground (arith, t.total, count-remove slab_of y p out h, other);
              }
        ];
        owned = λ q there. elim (ℕ_discrete (slab_of q) x) [
          | yes at_x ↦ (p ∷ ps, ap g at_x ∙ after)
          | no other ↦
              let (qs, e) = o.owned q (has_of_has-remove q p out there) in
              (qs, same (slab_of q) other ∙ e)
        ];
        distinct = remove-Distinct p out o.distinct;
      }

  -- A slab that is not alive has no object with a client.
  not-owned : (x : ℕ) → f x ≡ none → (p : ℕ) → slab_of p ≡ x → has p out ≡ false
  not-owned x absent p at_x = elim (Bool-cases (has p out)) [
    | inl h ↦ let (ps, e) = o.owned p h in absurd (cc (e, ap f at_x))
    | inr h ↦ h
  ]

  pub grow-Objects : (x : ℕ) → Fresh slab_of capacity x f g → Objects slab_of capacity g out
  grow-Objects x n = record {
    slabs = λ y qs e. elim (ℕ_discrete y x) [
      | yes at_x ↦
          let eq : n.objects ≡ qs = some_inj n.objects qs (sym n.present ∙ ap g (sym at_x) ∙ e) in
          subst (λ l. SlabOk slab_of capacity y l out) eq
            (record {
              distinct = n.distinct;
              belong = rw at_x n.belong;
              apart =
                  All-map (λ p. slab_of p ≡ x) (λ p. has p out ≡ false) n.objects
                    (not-owned x n.absent) n.belong;
              total =
                  rw at_x
                    (ground (arith, n.count, count-zero slab_of x out (not-owned x n.absent)));
            })
      | no other ↦ o.slabs y qs (sym (n.others y other) ∙ e)
    ];
    owned = λ q there. elim (ℕ_discrete (slab_of q) x) [
      | yes at_x ↦ (n.objects, ap g at_x ∙ n.present)
      | no other ↦ let (qs, e) = o.owned q there in (qs, n.others (slab_of q) other ∙ e)
    ];
    distinct = o.distinct;
  }

  pub shrink-Objects :
      (x : ℕ) (ps : List ℕ)
      → f x ≡ some ps
      → length ps ≡ capacity
      → g x ≡ none
      → SameBut x f g
      → Objects slab_of capacity g out
  shrink-Objects x ps before full gone same = record {
    slabs = λ y qs e. elim (ℕ_discrete y x) [
      | yes at_x ↦ absurd (cc (gone, ap g at_x, e))
      | no other ↦ o.slabs y qs (sym (same y other) ∙ e)
    ];
    owned = λ q there. elim (ℕ_discrete (slab_of q) x) [
      | yes at_x ↦ absurd (omega (arith, owned_room q ps there (ap f at_x ∙ before), full))
      | no other ↦ let (qs, e) = o.owned q there in (qs, same (slab_of q) other ∙ e)
    ];
    distinct = o.distinct;
  }

  pub same-Objects : ((y : ℕ) → g y ≡ f y) → Objects slab_of capacity g out
  same-Objects same = record {
    slabs = λ y qs e. o.slabs y qs (sym (same y) ∙ e);
    owned = λ q there. let (qs, e) = o.owned q there in (qs, same (slab_of q) ∙ e);
    distinct = o.distinct;
  }
