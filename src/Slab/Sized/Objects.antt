-- ===== src/Slab/Sized/Objects.antt =====
-- Who has each object: the free lists of the slabs against the objects that are out with clients.
use allocators_rs.Base.{
  ℕ, ◌+◌, ◌<◌, ◌≡◌, ◌≢◌, refl, sym, ap, subst, ◌∙◌, inl, inr, true, false, some, List, [], ◌∷◌,
  length, All, arith, ◌==◌, if◌then◌else◌, ==_ne, Bool-cases, ℕ_discrete,
}
use allocators_rs.Slab.System.{has, Distinct, View, SameBut}
use allocators_rs.Slab.Sized.{remove}

pub has-remove_self : (p : ℕ) (out : List ℕ) → Distinct out → has p (remove p out) ≡ false
unfolding remove
has-remove_self p [] d = refl
has-remove_self p (q ∷ out) d = ground (arith, has-remove_self p out d.1)

pub has-remove_of_not : (q p : ℕ) (out : List ℕ) → has q out ≡ false → has q (remove p out) ≡ false
unfolding remove
has-remove_of_not q p [] h = refl
has-remove_of_not q p (r ∷ out) h = ground (arith, has-remove_of_not q p out)

pub has_of_has-remove : (q p : ℕ) (out : List ℕ) → has q (remove p out) ≡ true → has q out ≡ true
unfolding remove
has_of_has-remove q p [] h = cc
has_of_has-remove q p (r ∷ out) h = ground (arith, has_of_has-remove q p out)

pub remove-Distinct : (p : ℕ) (out : List ℕ) → Distinct out → Distinct (remove p out)
unfolding remove
remove-Distinct p [] d = tt
remove-Distinct p (q ∷ out) d = ground (arith, remove-Distinct p out d.1, has-remove_of_not q p out)

pub length-remove :
    (p : ℕ) (out : List ℕ) → has p out ≡ true → length (remove p out) + 1 ≡ length out
unfolding remove
length-remove p [] h = cc
length-remove p (q ∷ out) h = ground (arith, length-remove p out)

-- What holds of every element holds of one that is there.
pub All-has : (P : ℕ → Type 0) (p : ℕ) (ps : List ℕ) → All P ps → has p ps ≡ true → P p
All-has P p [] a h = cc
All-has P p (q ∷ ps) a h = elim (ℕ_discrete p q) [
  | yes e ↦ subst P (sym e) a.0
  | no ne ↦ All-has P p ps a.1 (ground arith)
]

-- Objects that are not `p` stay without a client when `p` gets one.
apart-cons :
    (p : ℕ) (out qs : List ℕ)
    → has p qs ≡ false
    → All (λ q. has q out ≡ false) qs
    → All (λ q. has q (p ∷ out) ≡ false) qs
apart-cons p out [] h a = tt
apart-cons p out (q ∷ qs) h a = (ground arith, apart-cons p out qs (ground arith) a.1)

pub apart-remove :
    (p : ℕ) (out qs : List ℕ)
    → All (λ q. has q out ≡ false) qs
    → All (λ q. has q (remove p out) ≡ false) qs
apart-remove p out [] a = tt
apart-remove p out (q ∷ qs) a = (has-remove_of_not q p out a.0, apart-remove p out qs a.1)

pub not-has_self : (P : ℕ → Type 0) (p : ℕ) (ps : List ℕ) → All P ps → ¬ P p → has p ps ≡ false
not-has_self P p ps a h = elim (Bool-cases (has p ps)) [
  | inl yes_there ↦ absurd (h (All-has P p ps a yes_there))
  | inr e ↦ e
]

pub some_inj : (ps qs : List ℕ) → some ps ≡ some qs → ps ≡ qs
some_inj ps qs e = cc

module _ (slab_of : ℕ → ℕ) where
  -- How many of the objects belong to slab `x`.
  unfoldable pub count : ℕ → List ℕ → ℕ
  count x [] = 0
  count x (p ∷ ps) = (if slab_of p == x then 1 else 0) + count x ps

  pub count-remove :
      (x p : ℕ) (out : List ℕ)
      → has p out ≡ true
      → count x (remove p out) + (if slab_of p == x then 1 else 0) ≡ count x out
  unfolding count remove
  count-remove x p [] h = cc
  count-remove x p (q ∷ out) h = ground (arith, count-remove x p out)

  pub count-pos : (p : ℕ) (out : List ℕ) → has p out ≡ true → 0 < count (slab_of p) out
  unfolding count
  count-pos p [] h = cc
  count-pos p (q ∷ out) h = ground (arith, count-pos p out)

  pub count-zero :
      (x : ℕ) (qs : List ℕ) → ((p : ℕ) → slab_of p ≡ x → has p qs ≡ false) → count x qs ≡ 0
  unfolding count
  count-zero x [] h = refl
  count-zero x (q ∷ qs) h = elim (ℕ_discrete (slab_of q) x) [
    | yes e ↦ absurd (ground (arith, h q e))
    | no ne ↦
        rw (==_ne (slab_of q) x ne) (omega (arith, count-zero x qs (λ p e. ground (arith, h p e))))
  ]

module _ (slab_of : ℕ → ℕ) (capacity : ℕ) where
  -- The free objects `ps` of slab `x`: distinct, its own, with no client, and with those that are
  -- out they make up the slab.
  pub record SlabOk (x : ℕ) (ps out : List ℕ) : Type 0 where
    pub distinct : Distinct ps
    pub belong : All (λ p. slab_of p ≡ x) ps
    pub apart : All (λ p. has p out ≡ false) ps
    pub total : length ps + count slab_of x out ≡ capacity

  pub record Objects (f : View) (out : List ℕ) : Type 0 where
    pub slabs : (x : ℕ) (ps : List ℕ) → f x ≡ some ps → SlabOk x ps out
    pub owned : (p : ℕ) → has p out ≡ true → (ps : List ℕ) × (f (slab_of p) ≡ some ps)
    pub distinct : Distinct out

  -- No slab alive before or after is a free list of two lists.
  module _ (f g : View) (x : ℕ) (same : SameBut x f g) (out : List ℕ) (o : Objects f out) where
    -- The front object of a slab goes to a client.
    pub take-Objects :
        (p : ℕ) (ps : List ℕ)
        → f x ≡ some (p ∷ ps)
        → g x ≡ some ps
        → (has p out ≡ false) × (slab_of p ≡ x) × Objects g (p ∷ out)
    unfolding count
    take-Objects p ps before after =
        let s = o.slabs x (p ∷ ps) before in
        (
          s.apart.0,
          s.belong.0,
          record {
            slabs = λ y qs e. elim (ℕ_discrete y x) [
              | yes at_x ↦
                  let eq : ps ≡ qs = some_inj ps qs (sym after ∙ ap g (sym at_x) ∙ e) in
                  subst (λ l. SlabOk y l (p ∷ out)) eq
                    (record {
                      distinct = s.distinct.1;
                      belong = rw at_x s.belong.1;
                      apart = apart-cons p out ps s.distinct.0 s.apart.1;
                      total = rw at_x (ground (arith, s.total, s.belong.0));
                    })
              | no other ↦
                  let t = o.slabs y qs (sym (same y other) ∙ e) in
                  record {
                    distinct = t.distinct;
                    belong = t.belong;
                    apart =
                        apart-cons p out qs
                          (not-has_self (λ q. slab_of q ≡ y) p qs t.belong
                            (λ h. other (sym h ∙ s.belong.0)))
                          t.apart;
                    total = ground (arith, t.total, s.belong.0, other);
                  }
            ];
            owned = λ q h. elim (ℕ_discrete (slab_of q) x) [
              | yes at_x ↦ (ps, ap g at_x ∙ after)
              | no other ↦
                  let ne : q ≢ p = λ e. other (ap slab_of e ∙ s.belong.0) in
                  let (qs, e) = o.owned q (ground arith) in (qs, same (slab_of q) other ∙ e)
            ];
            distinct = (s.apart.0, o.distinct);
          },
        )
