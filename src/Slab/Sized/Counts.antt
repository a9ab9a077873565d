-- ===== src/Slab/Sized/Counts.antt =====
-- The counter `total_slabs`: the slabs of the free list, and those whose objects are all in use.
use allocators_rs.Base.{
  ℕ, ◌+◌, ◌<◌, ◌≡◌, refl, sym, ap, ◌∙◌, true, some, List, [], ◌∷◌, length, length-append, arith,
  ◌==◌, if◌then◌else◌, ==_ne, ℕ_discrete,
}
use allocators_rs.Slab.System.{has, View, SameBut}
use allocators_rs.Slab.Sized.{remove, move_to_back}
use allocators_rs.Slab.Sized.Objects.{length-remove, some_inj}
use allocators_rs.Slab.Sized.Relink.{has-remove_ne}

-- `used_up` has every slab that is alive with no free object.
pub record Counted (f : View) (l : List ℕ) (total : ℕ) : Type 0 where
  pub used_up : List ℕ
  pub listed : (x : ℕ) (ps : List ℕ) → f x ≡ some ps → length ps ≡ 0 → has x used_up ≡ true
  pub sum : total ≡ length l + length used_up

pub length-move_to_back :
    (x : ℕ) (l : List ℕ) → has x l ≡ true → length (move_to_back x l) ≡ length l
unfolding move_to_back
length-move_to_back x l there =
    omega (arith, length-append (remove x l) (x ∷ []), length-remove x l there)

module _ {f : View} (g : View) where
  pub same-Counted :
      {l : List ℕ} {total : ℕ} → Counted f l total → ((y : ℕ) → g y ≡ f y) → Counted g l total
  same-Counted k same = record {
    used_up = k.used_up;
    listed = λ x ps e. k.listed x ps (sym (same x) ∙ e);
    sum = k.sum;
  }

  module _ (x : ℕ) (same : SameBut x f g) {l : List ℕ} {total : ℕ} (k : Counted f l total) where
    -- A slab that has a free object now, or is not alive, was none of those used up.
    pub keep-Counted :
        (l' : List ℕ) (total' : ℕ)
        → ((ps : List ℕ) → g x ≡ some ps → 0 < length ps)
        → total' + length l ≡ total + length l'
        → Counted g l' total'
    keep-Counted l' total' some_free sum = record {
      used_up = k.used_up;
      listed = λ y ps e none_left. elim (ℕ_discrete y x) [
        | yes eq ↦ absurd (omega (arith, none_left, some_free ps (ap g (sym eq) ∙ e)))
        | no ne ↦ k.listed y ps (sym (same y ne) ∙ e) none_left
      ];
      sum = omega (arith, sum, k.sum);
    }

    -- A slab that was used up comes back to the list.
    pub back-Counted :
        (l' ps : List ℕ)
        → f x ≡ some ps
        → length ps ≡ 0
        → ((qs : List ℕ) → g x ≡ some qs → 0 < length qs)
        → length l' ≡ length l + 1
        → Counted g l' total
    back-Counted l' ps before none_left some_free longer = record {
      used_up = remove x k.used_up;
      listed = λ y qs e h. elim (ℕ_discrete y x) [
        | yes eq ↦ absurd (omega (arith, h, some_free qs (ap g (sym eq) ∙ e)))
        | no ne ↦ has-remove_ne y x k.used_up ne (k.listed y qs (sym (same y ne) ∙ e) h)
      ];
      sum =
          omega (arith, k.sum, longer, length-remove x k.used_up (k.listed x ps before none_left));
    }

    -- A slab of the list gave its last object.
    pub leave-Counted : (l' : List ℕ) → length l ≡ length l' + 1 → Counted g l' total
    leave-Counted l' shorter = record {
      used_up = x ∷ k.used_up;
      listed = λ y qs e h. elim (ℕ_discrete y x) [
        | yes eq ↦ ground arith
        | no ne ↦ ground (arith, k.listed y qs (sym (same y ne) ∙ e) h)
      ];
      sum = omega (arith, k.sum, shorter);
    }

-- The front slab gives an object.
pub take-Counted :
    {f : View} (g : View) (x : ℕ) (same : SameBut x f g) {rest : List ℕ} {total : ℕ}
    → Counted f (x ∷ rest) total
    → (ps : List ℕ) → g x ≡ some ps
    → Counted g (if length ps == 0 then rest else x ∷ rest) total
take-Counted g x same {rest} {total} k ps after = elim (ℕ_discrete (length ps) 0) [
  | yes none_left ↦ rw none_left (leave-Counted g x same k rest (omega arith))
  | no some_left ↦ rw (==_ne (length ps) 0 some_left) (
      keep-Counted g x same k (x ∷ rest) total
        (λ qs e. omega (arith, some_left, ap length (some_inj ps qs (sym after ∙ e)))) refl)
]
