-- ===== src/Slab/System.antt =====
-- What `SizedSlabAlloc` uses of a slab system: the trait `SlabSystem` of slab-alloc/src/lib.rs with
-- the laws that its documentation states, in terms of the free objects of each slab.
use allocators_rs.Base.{
  ℕ, ◌<◌, ◌≡◌, ◌≢◌, Bool, false, ◌||◌, Option, some, none, List, [], ◌∷◌, length, All, Checked,
  Returns, ◌==◌,
}
use allocators_rs.Slab.Init.{InitSystem}

abbrev pub has : ℕ → List ℕ → Bool
has a [] = false
has a (x ∷ xs) = (a == x) || has a xs

abbrev pub Distinct : List ℕ → Type 0
Distinct [] = Unit {0}
Distinct (x ∷ xs) = (has x xs ≡ false) × Distinct xs

-- The free objects of each slab that is alive; the last one freed comes first.
abbrev pub View : Type 0
View = ℕ → Option (List ℕ)

abbrev pub SameBut : ℕ → View → View → Type 0
SameBut x f g = (y : ℕ) → y ≢ x → g y ≡ f y

-- A new slab: it was not alive, and all its objects are free, distinct, and belong to it.
pub record Fresh (slab_of : ℕ → ℕ) (capacity x : ℕ) (f g : View) : Type 0 where
  pub objects : List ℕ
  pub absent : f x ≡ none
  pub present : g x ≡ some objects
  pub count : length objects ≡ capacity
  pub distinct : Distinct objects
  pub belong : All (λ p. slab_of p ≡ x) objects
  pub others : SameBut x f g

abbrev pub Grown : (ℕ → ℕ) → ℕ → View → Option ℕ → View → Type 0
Grown slab_of capacity f none g = (y : ℕ) → g y ≡ f y
Grown slab_of capacity f (some x) g = Fresh slab_of capacity x f g

pub record SlabSystem (I : InitSystem) : Type 1 where
  pub State : Type 0
  -- the number of objects of a slab
  pub capacity : ℕ
  -- the slab that an object belongs to
  pub slab_of : ℕ → ℕ
  pub free : State → View
  pub alloc_slab : State → Checked (Option ℕ × State)
  pub dealloc_slab : State → ℕ → State
  pub is_full : State → ℕ → Bool
  pub is_empty : State → ℕ → Bool
  pub alloc : State → ℕ → (ℕ × I.Status) × State
  pub dealloc : State → ℕ → I.Status → (ℕ × Bool) × State
  pub capacity_pos : 0 < capacity
  pub alloc_slab-Grown :
      (s : State) → Returns (λ r. Grown slab_of capacity (free s) r.0 (free r.1)) (alloc_slab s)
  pub dealloc_slab_lem :
      (s : State) (x : ℕ) (ps : List ℕ)
      → free s x ≡ some ps
      → length ps ≡ capacity
      → (free (dealloc_slab s x) x ≡ none) × SameBut x (free s) (free (dealloc_slab s x))
  pub is_full_lem :
      (s : State) (x : ℕ) (ps : List ℕ) → free s x ≡ some ps → is_full s x ≡ (length ps == capacity)
  pub is_empty_lem :
      (s : State) (x : ℕ) (ps : List ℕ) → free s x ≡ some ps → is_empty s x ≡ (length ps == 0)
  pub alloc_lem :
      (s : State) (x p : ℕ) (ps : List ℕ)
      → free s x ≡ some (p ∷ ps)
      → ((alloc s x).0.0 ≡ p)
        × (free (alloc s x).1 x ≡ some ps)
        × SameBut x (free s) (free (alloc s x).1)
  pub dealloc_lem :
      (s : State) (p : ℕ) (ps : List ℕ) (status : I.Status)
      → free s (slab_of p) ≡ some ps
      → length ps < capacity
      → ((dealloc s p status).0 ≡ (slab_of p, length ps == 0))
        × (free (dealloc s p status).1 (slab_of p) ≡ some (p ∷ ps))
        × SameBut (slab_of p) (free s) (free (dealloc s p status).1)
