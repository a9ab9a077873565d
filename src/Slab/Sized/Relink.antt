-- ===== src/Slab/Sized/Relink.antt =====
-- The free list when an object of a slab is taken, and when it comes back.
use allocators_rs.Base.{
  ℕ, suc, ◌+◌, ◌-◌, ◌<◌, ◌≡◌, ◌≢◌, refl, sym, ap, subst, ◌∙◌, true, false, some, List, [], ◌∷◌,
  ◌++◌, length, arith, ◌==◌, if◌then◌else◌, ==_ne, ==_self, ℕ_discrete,
}
use allocators_rs.Slab.System.{has, View, SameBut}
use allocators_rs.Slab.Sized.{remove, move_to_back}
use allocators_rs.Slab.Sized.Objects.{some_inj, has-remove_self, remove-Distinct}
use allocators_rs.Slab.Sized.Order.{
  Order, fulls, partial, Order-same, Order-back, Order-keep, Order-remove, fulls-same, not-IsFull,
}
use allocators_rs.Slab.Sized.Linked.{Linked, not-Linked, join_back, has-back, back-Distinct}

pub has-remove_ne : (y x : ℕ) (l : List ℕ) → y ≢ x → has y l ≡ true → has y (remove x l) ≡ true
unfolding remove
has-remove_ne y x [] ne h = h
has-remove_ne y x (z ∷ l) ne h = ground (arith, has-remove_ne y x l)

module _ {f : View} {capacity : ℕ} (pos : 0 < capacity) (g : View) (x p : ℕ) (ps : List ℕ)
    (same : SameBut x f g) where
  module _ (before : f x ≡ some (p ∷ ps)) (after : g x ≡ some ps) where
    -- The rest of the list, with `m` full slabs left in it.
    take-Order :
        (m : ℕ) {rest : List ℕ} {n : ℕ}
        → Order f capacity (x ∷ rest) n
        → has x rest ≡ false
        → m ≡ (if length (p ∷ ps) == capacity then n - 1 else n)
        → Order g capacity rest m × (length ps < capacity)
    take-Order m {rest} (fulls a e) out count =
        let same_list : a.0.objects ≡ p ∷ ps =
          some_inj a.0.objects (p ∷ ps) (sym a.0.alive ∙ before) in
        let full : suc (length ps) ≡ capacity = ap length (sym same_list) ∙ a.0.all in
        (fulls (fulls-same f g capacity x same rest out a.1) (ground arith), omega arith)
    take-Order m {rest} (partial {n} q o) out count =
        let same_list : q.objects ≡ p ∷ ps = some_inj q.objects (p ∷ ps) (sym q.alive ∙ before) in
        let short : suc (length ps) < capacity = omega (arith, q.short, ap length same_list) in
        let eq : n ≡ m = ground arith in
        (subst (Order g capacity rest) eq (Order-same f g capacity x same o out), omega arith)

    -- The front slab gives an object: it leaves the list if that was the last one.
    pub take-Linked :
        (m : ℕ) {rest : List ℕ} {n : ℕ}
        → Linked f capacity (x ∷ rest) n
        → m ≡ (if length (p ∷ ps) == capacity then n - 1 else n)
        → Linked g capacity (if length ps == 0 then rest else x ∷ rest) m
    take-Linked m {rest} k count =
        let (o, short) = take-Order m k.order k.distinct.0 count in
        elim (ℕ_discrete (length ps) 0) [
          | yes none_left ↦ rw none_left (record {
            order = o;
            distinct = k.distinct.1;
            linked = λ y qs e h. elim (ℕ_discrete y x) [
              | yes eq ↦
                  absurd (omega (arith, ap length (some_inj ps qs (sym after ∙ ap g (sym eq) ∙ e))))
              | no ne ↦ ground (arith, k.linked y qs (sym (same y ne) ∙ e) h)
            ];
          })
          | no some_left ↦ rw (==_ne (length ps) 0 some_left) (record {
            order =
                partial (record { objects = ps; alive = after; pos = omega arith; short = short })
                  o;
            distinct = k.distinct;
            linked = λ y qs e h. elim (ℕ_discrete y x) [
              | yes eq ↦ ground arith
              | no ne ↦ k.linked y qs (sym (same y ne) ∙ e) h
            ];
          })
        ]

  module _ (before : f x ≡ some ps) (after : g x ≡ some (p ∷ ps))
      (room : length ps < capacity) where
    still-Linked :
        (l l' : List ℕ) (n : ℕ)
        → Linked f capacity l n
        → has x l' ≡ true
        → ((y : ℕ) → y ≢ x → has y l ≡ true → has y l' ≡ true)
        → (y : ℕ) (qs : List ℕ) → g y ≡ some qs
        → 0 < length qs
        → has y l' ≡ true
    still-Linked l l' n k here keep y qs e h = elim (ℕ_discrete y x) [
      | yes eq ↦ ap (λ t. has t l') eq ∙ here
      | no ne ↦ keep y ne (k.linked y qs (sym (same y ne) ∙ e) h)
    ]

    -- It was empty, and is full now: a slab of one object.
    pub put_back :
        {l : List ℕ} {n : ℕ}
        → Linked f capacity l n
        → length ps ≡ 0
        → length (p ∷ ps) ≡ capacity
        → Linked g capacity (l ++ (x ∷ [])) (n + 1)
    put_back k none_left full =
        join_back pos g x (p ∷ ps) k
          (not-Linked pos x k λ qs e. ap length (some_inj qs ps (sym e ∙ before)) ∙ none_left) same
          after full

    -- It was empty, and is partly in use now.
    pub put_front :
        {l : List ℕ} {n : ℕ}
        → Linked f capacity l n
        → length ps ≡ 0
        → length (p ∷ ps) ≢ capacity
        → Linked g capacity (x ∷ l) n
    put_front {l} {n} k none_left short =
        let out =
          not-Linked pos x k λ qs e. ap length (some_inj qs ps (sym e ∙ before)) ∙ none_left in
        record {
          order =
              partial
                (record {
                  objects = p ∷ ps;
                  alive = after;
                  pos = omega arith;
                  short = omega (arith, short);
                })
                (Order-same f g capacity x same k.order out);
          distinct = (out, k.distinct);
          linked = still-Linked l (x ∷ l) n k (ground arith) (λ y ne h. ground arith);
        }

    -- It stays partly in use.
    pub put_same :
        {l : List ℕ} {n : ℕ}
        → Linked f capacity l n
        → 0 < length ps
        → length (p ∷ ps) ≢ capacity
        → Linked g capacity l n
    put_same {l} {n} k some_left short = record {
      order =
          Order-keep f g capacity x same ps before room
            (record {
              objects = p ∷ ps;
              alive = after;
              pos = omega arith;
              short = omega (arith, short);
            })
            k.order;
      distinct = k.distinct;
      linked = still-Linked l l n k (k.linked x ps before some_left) (λ y ne h. h);
    }

    -- It was partly in use, and is full now.
    pub put_move :
        {l : List ℕ} {n : ℕ}
        → Linked f capacity l n
        → 0 < length ps
        → length (p ∷ ps) ≡ capacity
        → Linked g capacity (move_to_back x l) (n + 1)
    unfolding move_to_back
    put_move {l} {n} k some_left full =
        let there = k.linked x ps before some_left in
        let gone = has-remove_self x l k.distinct in
        record {
          order =
              Order-back (record { objects = p ∷ ps; alive = after; all = full })
                (Order-same f g capacity x same
                  (Order-remove (not-IsFull f g capacity x same ps before room) there k.order)
                  gone);
          distinct = back-Distinct x (remove x l) (remove-Distinct x l k.distinct) gone;
          linked =
              still-Linked l (remove x l ++ (x ∷ [])) n k
                (rw (has-back x x (remove x l), gone) (==_self x))
                (λ y ne h. rw (has-back y x (remove x l), has-remove_ne y x l ne h) refl);
        }
