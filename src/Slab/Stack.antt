-- ===== src/Slab/Stack.antt =====
-- `util::stack::Stack` of slab-alloc/src/util.rs. The memory that holds the elements belongs to the
-- user of the stack; here it stands beside the size, as a function of the index.
use allocators_rs.Base.{
  ℕ, zero, suc, ◌+◌, ◌-◌, ◌≤◌, ◌≡◌, refl, ap, ◌∙◌, List, [], ◌∷◌, length, arith, ◌==◌,
  if◌then◌else◌, ==_ne, ==_self, ap₂,
}

pub record Stack : Type 0 where
  pub size : ℕ
  pub data_at : ℕ → ℕ

-- The size is 0, and the memory is what it was.
unfoldable pub new : (ℕ → ℕ) → Stack
new memory = record { size = 0; data_at = memory }

unfoldable pub set_at_idx : (ℕ → ℕ) → ℕ → ℕ → ℕ → ℕ
set_at_idx data_at idx val i = if i == idx then val else data_at i

unfoldable pub push : Stack → ℕ → Stack
push s val = record { size = s.size + 1; data_at = set_at_idx s.data_at s.size val }

-- An empty stack is not popped: the code asserts it.
unfoldable pub pop : Stack → ℕ × Stack
pop s = (s.data_at (s.size - 1), record s { size = s.size - 1 })

-- The elements, the top first.
unfoldable pub elements : ℕ → (ℕ → ℕ) → List ℕ
elements zero data_at = []
elements (suc n) data_at = data_at n ∷ elements n data_at

unfoldable pub contents : Stack → List ℕ
contents s = elements s.size s.data_at

pub length-elements : (n : ℕ) (data_at : ℕ → ℕ) → length (elements n data_at) ≡ n
unfolding elements
length-elements zero data_at = refl
length-elements (suc n) data_at = omega (arith, length-elements n data_at)

elements-set_at_idx :
    (n idx val : ℕ) (data_at : ℕ → ℕ)
    → n ≤ idx
    → elements n (set_at_idx data_at idx val) ≡ elements n data_at
unfolding elements set_at_idx
elements-set_at_idx zero idx val data_at h = refl
elements-set_at_idx (suc n) idx val data_at h =
    rw (==_ne n idx (omega (arith, h)))
      (ap (λ t. data_at n ∷ t) (elements-set_at_idx n idx val data_at (omega (arith, h))))

pub length-contents : (s : Stack) → length (contents s) ≡ s.size
unfolding contents
length-contents s = length-elements s.size s.data_at

pub contents-new : (memory : ℕ → ℕ) → contents (new memory) ≡ []
unfolding contents elements new
contents-new memory = refl

pub contents-push : (s : Stack) (val : ℕ) → contents (push s val) ≡ val ∷ contents s
unfolding contents push elements set_at_idx
contents-push s val =
    let e : s.size + 1 ≡ suc s.size = omega arith in
    ap (λ n. elements n (set_at_idx s.data_at s.size val)) e
    ∙ ap₂ (λ v t. v ∷ t) (ap (λ b. if b then val else s.data_at s.size) (==_self s.size))
        (elements-set_at_idx s.size s.size val s.data_at (omega arith))

elements-pop :
    (n : ℕ) (data_at : ℕ → ℕ) (v : ℕ) (vs : List ℕ)
    → elements n data_at ≡ v ∷ vs
    → (data_at (n - 1) ≡ v) × (elements (n - 1) data_at ≡ vs)
unfolding elements
elements-pop zero data_at v vs h = absurd cc
elements-pop (suc n) data_at v vs h =
    let e : suc n - 1 ≡ n = omega arith in
    let top : data_at n ≡ v = cc in
    let rest : elements n data_at ≡ vs = cc in
    (ap data_at e ∙ top, ap (λ k. elements k data_at) e ∙ rest)

pub contents-pop :
    (s : Stack) (v : ℕ) (vs : List ℕ)
    → contents s ≡ v ∷ vs
    → ((pop s).0 ≡ v) × (contents (pop s).1 ≡ vs)
unfolding contents pop
contents-pop s v vs h = elements-pop s.size s.data_at v vs h
