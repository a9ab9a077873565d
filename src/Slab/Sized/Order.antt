-- ===== src/Slab/Sized/Order.antt =====
-- The order of the free list: the slabs that are partly in use, then the full ones.
use allocators_rs.Base.{
  ℕ, suc, ◌+◌, ◌<◌, ◌≡◌, refl, sym, ap, subst, ◌∙◌, true, false, some, List, [], ◌∷◌, ◌++◌, length,
  length-append, All, arith, ==_ne, ==_self, ℕ_discrete,
}
use allocators_rs.Slab.System.{has, View, SameBut}
use allocators_rs.Slab.Sized.{remove, remove_back}
use allocators_rs.Slab.Sized.Objects.{All-has, some_inj, not-has_self}

-- The slab is alive, and of its objects some or all are free.
pub record IsPartial (f : View) (capacity x : ℕ) : Type 0 where
  pub objects : List ℕ
  pub alive : f x ≡ some objects
  pub pos : 0 < length objects
  pub short : length objects < capacity

pub record IsFull (f : View) (capacity x : ℕ) : Type 0 where
  pub objects : List ℕ
  pub alive : f x ≡ some objects
  pub all : length objects ≡ capacity

-- `n` is the number of full slabs.
pub data Order (f : View) (capacity : ℕ) : List ℕ → ℕ → Type 0 where
  fulls : {l : List ℕ} {n : ℕ} → All (IsFull f capacity) l → n ≡ length l → Order f capacity l n
  partial :
      {x n : ℕ} {l : List ℕ}
      → IsPartial f capacity x
      → Order f capacity l n
      → Order f capacity (x ∷ l) n

-- What `remove_back` takes while there are full slabs: one of them.
pub record Last (f : View) (capacity : ℕ) (l : List ℕ) (n : ℕ) : Type 0 where
  pub slab : ℕ
  pub front : List ℕ
  pub removed : remove_back l ≡ some (slab, front)
  pub shape : l ≡ front ++ (slab ∷ [])
  pub full : IsFull f capacity slab
  pub order : Order f capacity front n

module _ (f g : View) (capacity x : ℕ) (same : SameBut x f g) where
  pub fulls-same :
      (l : List ℕ) → has x l ≡ false → All (IsFull f capacity) l → All (IsFull g capacity) l
  fulls-same [] h a = tt
  fulls-same (y ∷ l) h a = (
    record { objects = a.0.objects; alive = same y (λ e. ground arith) ∙ a.0.alive; all = a.0.all },
    fulls-same l (ground arith) a.1,
  )

  -- Slabs other than `x` keep their places.
  pub Order-same :
      {l : List ℕ} {n : ℕ} → Order f capacity l n → has x l ≡ false → Order g capacity l n
  Order-same (fulls {l} a e) h = fulls (fulls-same l h a) e
  Order-same (partial {x = y} p o) h =
      partial
        (record {
          objects = p.objects;
          alive = same y (λ e. ground arith) ∙ p.alive;
          pos = p.pos;
          short = p.short;
        })
        (Order-same o (ground arith))

  pub not-IsFull : (ps : List ℕ) → f x ≡ some ps → length ps < capacity → ¬ IsFull f capacity x
  not-IsFull ps before short h =
      omega (arith, h.all, ap length (some_inj h.objects ps (sym h.alive ∙ before)))

  -- A partial slab that stays partial keeps its place.
  pub Order-keep :
      (ps : List ℕ) {l : List ℕ} {n : ℕ}
      → f x ≡ some ps
      → length ps < capacity
      → IsPartial g capacity x
      → Order f capacity l n
      → Order g capacity l n
  Order-keep ps before short after (fulls {l} a e) =
      fulls (fulls-same l (not-has_self (IsFull f capacity) x l a (not-IsFull ps before short)) a) e
  Order-keep ps before short after (partial {x = y} p o) = elim (ℕ_discrete y x) [
    | yes e ↦
        partial (subst (IsPartial g capacity) (sym e) after) (Order-keep ps before short after o)
    | no ne ↦
        partial
          (record {
            objects = p.objects;
            alive = same y ne ∙ p.alive;
            pos = p.pos;
            short = p.short;
          })
          (Order-keep ps before short after o)
  ]

module _ {f : View} {capacity : ℕ} where
  IsFull-back :
      (x : ℕ) (l : List ℕ)
      → IsFull f capacity x
      → All (IsFull f capacity) l
      → All (IsFull f capacity) (l ++ (x ∷ []))
  IsFull-back x [] h a = (h, tt)
  IsFull-back x (y ∷ l) h a = (a.0, IsFull-back x l h a.1)

  -- A full slab goes to the back.
  pub Order-back :
      {x n : ℕ} {l : List ℕ}
      → IsFull f capacity x
      → Order f capacity l n
      → Order f capacity (l ++ (x ∷ [])) (n + 1)
  Order-back {x} h (fulls {l} a e) =
      fulls (IsFull-back x l h a) (omega (arith, e, length-append l (x ∷ [])))
  Order-back h (partial p o) = partial p (Order-back h o)

  -- A partial slab leaves its place.
  pub Order-remove :
      {x n : ℕ} {l : List ℕ}
      → ¬ IsFull f capacity x
      → has x l ≡ true
      → Order f capacity l n
      → Order f capacity (remove x l) n
  unfolding remove
  Order-remove {x} short there (fulls {l} a e) =
      absurd (short (All-has (IsFull f capacity) x l a there))
  Order-remove {x} short there (partial {x = y} p o) = elim (ℕ_discrete y x) [
    | yes e ↦ rw (e, ==_self x) o
    | no ne ↦ rw (==_ne y x ne) (partial p (Order-remove short (ground arith) o))
  ]

  -- Every slab of the list has a free object.
  pub Order-pos :
      {x n : ℕ} {l : List ℕ}
      → 0 < capacity
      → Order f capacity l n
      → has x l ≡ true
      → (ps : List ℕ) × (f x ≡ some ps) × (0 < length ps)
  Order-pos {x} pos (fulls {l} a e) there =
      let h = All-has (IsFull f capacity) x l a there in (h.objects, h.alive, omega (arith, h.all))
  Order-pos {x} pos (partial {x = y} p o) there = elim (ℕ_discrete x y) [
    | yes e ↦ (p.objects, ap f e ∙ p.alive, p.pos)
    | no ne ↦ Order-pos pos o (ground arith)
  ]

  -- If the front slab is full, it is counted.
  pub Order-front :
      {x n : ℕ} {l : List ℕ}
      → Order f capacity (x ∷ l) n
      → (ps : List ℕ) → f x ≡ some ps
      → length ps ≡ capacity
      → 0 < n
  Order-front (fulls a e) ps alive all = omega (arith, e)
  Order-front (partial p o) ps alive all =
      absurd (omega (arith, p.short, all, ap length (some_inj p.objects ps (sym p.alive ∙ alive))))

  last_of_fulls :
      (x : ℕ) (l : List ℕ)
      → All (IsFull f capacity) (x ∷ l)
      → (s : ℕ) × (front : List ℕ) × (remove_back (x ∷ l) ≡ some (s, front))
        × (x ∷ l ≡ front ++ (s ∷ []))
        × IsFull f capacity s
        × All (IsFull f capacity) front
  unfolding remove_back
  last_of_fulls x [] a = (x, [], refl, refl, a.0, tt)
  last_of_fulls x (y ∷ l) a =
      let (s, front, removed, shape, full, rest) = last_of_fulls y l a.1 in
      (s, x ∷ front, ground (arith, removed), ap (λ t. x ∷ t) shape, full, (a.0, rest))

  Last-of_All :
      (n : ℕ) (l : List ℕ) → All (IsFull f capacity) l → suc n ≡ length l → Last f capacity l n
  Last-of_All n [] a e = absurd (omega arith)
  Last-of_All n (x ∷ l) a e =
      let (s, front, removed, shape, full, rest) = last_of_fulls x l a in
      record {
        slab = s;
        front = front;
        removed = removed;
        shape = shape;
        full = full;
        order = fulls rest (omega (arith, e, ap length shape, length-append front (s ∷ [])));
      }

  pub Order-Last : {n : ℕ} {l : List ℕ} → Order f capacity l (suc n) → Last f capacity l n
  unfolding remove_back
  Order-Last {n} (fulls {l} a e) = Last-of_All n l a e
  Order-Last (partial {x = y} {l} p o) =
      let r = Order-Last o in
      record {
        slab = r.slab;
        front = y ∷ r.front;
        removed = ground (arith, r.removed);
        shape = ap (λ t. y ∷ t) r.shape;
        full = r.full;
        order = partial p r.order;
      }
