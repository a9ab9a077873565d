-- ===== src/Slab/Sized/Invariant.antt =====
-- The invariant of `SizedSlabAlloc`, and what an allocation does to it.
use allocators_rs.Base.{
  ℕ, zero, suc, ◌+◌, ◌++◌, done, ◌-◌, ◌<◌, ◌≤◌, ◌≡◌, refl, sym, ap, subst, ◌∙◌, Bool, true, false,
  Option, some, none, List, [], ◌∷◌, length, length-append, arith, if◌then◌else◌, ==_ne, ℕ_discrete,
  Bool-cases, inl, inr, Checked, Returns, returns, fun_ext,
}
use allocators_rs.Slab.Init.{InitSystem}
use allocators_rs.Slab.System.{has, Grown, SlabSystem}
use allocators_rs.Slab.WorkingSet
use allocators_rs.Slab.WorkingSet.{WorkingSet}
use allocators_rs.Slab.Sized
use allocators_rs.Slab.Sized.{SizedSlabAlloc, then_do}
use allocators_rs.Slab.Sized.Counts.{Counted, same-Counted, keep-Counted, take-Counted}
use allocators_rs.Slab.Sized.Objects.{Objects, take-Objects, some_inj}
use allocators_rs.Slab.Sized.Moves.{grow-Objects, same-Objects}
use allocators_rs.Slab.Sized.Order.{fulls, Order-pos, Order-front}
use allocators_rs.Slab.Sized.Linked.{Linked, grow-Linked}
use allocators_rs.Slab.Sized.Relink.{take-Linked}

pub Returns-then_do {ℓ κ} :
    {A : Type ℓ} {B : Type κ} {P : A → Type 0} {Q : B → Type 0} {m : Checked A} {f : A → Checked B}
    → Returns P m
    → ((a : A) → P a → Returns Q (f a))
    → Returns Q (then_do m f)
Returns-then_do (returns {a} p) h = h a p

pub decrement-pos : (n : ℕ) → 0 < n → Sized.decrement n ≡ done (n - 1)
unfolding Sized.decrement
decrement-pos zero h = absurd (omega arith)
decrement-pos (suc n) h = ap done (omega arith)

full_taken-pos :
    (full : Bool) (n : ℕ)
    → (full ≡ true → 0 < n)
    → Sized.full_taken full n ≡ done (if full then n - 1 else n)
unfolding Sized.full_taken
full_taken-pos true n h = decrement-pos n (h refl)
full_taken-pos false n h = refl

non-empty : {A : Type 0} (l : List A) → 0 < length l → (x : A) × (rest : List A) × (l ≡ x ∷ rest)
non-empty [] h = absurd (omega arith)
non-empty (x ∷ rest) h = (x, rest, refl)

update_min-≤ :
    {Instant : Type 0} (w : WorkingSet Instant) (n : ℕ) → (WorkingSet.update_min w n).value ≤ n
unfolding WorkingSet.update_min
update_min-≤ w n = ground arith

module _ {I : InitSystem} (S : SlabSystem I) {Instant : Type 0} where
  -- `out` are the objects that clients have: no slab's free list holds one of them.
  pub record Inv (a : SizedSlabAlloc S Instant) (out : List ℕ) : Type 0 where
    pub linked : Linked (S.free a.slab_system) S.capacity a.freelist a.num_full
    pub objects : Objects S.slab_of S.capacity (S.free a.slab_system) out
    pub counted : Counted (S.free a.slab_system) a.freelist a.total_slabs
    pub watched : a.full_slab_working_set.value ≤ a.num_full
    pub clients : a.refcnt ≡ length out

  pub new-Inv :
      (now : Instant) (s : S.State) → ((x : ℕ) → S.free s x ≡ none) → Inv (Sized.new S now s) []
  unfolding Sized.new WorkingSet.new
  new-Inv now s empty = record {
    linked = record {
      order = fulls tt refl;
      distinct = tt;
      linked = λ x ps e h. absurd (cc (e, empty x));
    };
    objects = record {
      slabs = λ x ps e. absurd (cc (e, empty x));
      owned = λ p h. absurd cc;
      distinct = tt;
    };
    counted = record { used_up = []; listed = λ x ps e h. absurd (cc (e, empty x)); sum = refl };
    watched = omega arith;
    clients = refl;
  }

  module _ (a : SizedSlabAlloc S Instant) (out : List ℕ) (inv : Inv a out) where
    insert_new-Inv :
        (r : Option ℕ × S.State)
        → Grown S.slab_of S.capacity (S.free a.slab_system) r.0 (S.free r.1)
        → Inv (Sized.insert_new S a r).1 out
          × ((Sized.insert_new S a r).0 ≡ true → 0 < length (Sized.insert_new S a r).1.freelist)
    unfolding Sized.insert_new
    insert_new-Inv (none, s) same =
        let k = inv.linked in
        (
          record {
            linked =
                subst (λ v. Linked v S.capacity a.freelist a.num_full) (fun_ext (λ y. sym (same y)))
                  k;
            objects =
                same-Objects S.slab_of S.capacity (S.free a.slab_system) (S.free s) out inv.objects
                  same;
            counted = same-Counted (S.free s) inv.counted same;
            watched = inv.watched;
            clients = inv.clients;
          },
          λ h. absurd cc,
        )
    insert_new-Inv (some x, s) new = (
      record {
        linked = grow-Linked S.capacity_pos S.slab_of (S.free s) x inv.linked new;
        objects =
            grow-Objects S.slab_of S.capacity (S.free a.slab_system) (S.free s) out inv.objects x
              new;
        counted =
            keep-Counted (S.free s) x new.others inv.counted (a.freelist ++ (x ∷ []))
              (a.total_slabs + 1)
              (λ ps e. omega (
                arith,
                S.capacity_pos,
                new.count,
                ap length (some_inj new.objects ps (sym new.present ∙ e)),
              ))
              (omega (arith, length-append a.freelist (x ∷ [])));
        watched = omega (arith, inv.watched);
        clients = inv.clients;
      },
      λ h. omega (arith, length-append a.freelist (x ∷ [])),
    )

    pub alloc_slab-Inv :
        Returns (λ b. Inv b.1 out × (b.0 ≡ true → 0 < length b.1.freelist)) (Sized.alloc_slab S a)
    unfolding Sized.alloc_slab
    alloc_slab-Inv =
        Returns-then_do (S.alloc_slab-Grown a.slab_system)
          λ r grown. returns (insert_new-Inv r grown)

  -- What `alloc` promises.
  abbrev pub Alloced : List ℕ → Option (ℕ × Bool) × SizedSlabAlloc S Instant → Type 0
  Alloced out (none, a) = Inv a out
  Alloced out (some (p, initialised), a) = (has p out ≡ false) × Inv a (p ∷ out)

  -- `num_full` with the front slab no more counted.
  abbrev taken_full : SizedSlabAlloc S Instant → ℕ → ℕ
  taken_full a x = if S.is_full a.slab_system x then a.num_full - 1 else a.num_full

  take_object :
      (a : SizedSlabAlloc S Instant) (out : List ℕ) (x : ℕ) (rest : List ℕ)
      → Inv a out
      → a.freelist ≡ x ∷ rest
      → (p : ℕ) (ps : List ℕ) → S.free a.slab_system x ≡ some (p ∷ ps)
      → Alloced out (let r = Sized.take_from S a (taken_full a x) x rest in (some r.0, r.1))
  unfolding Sized.take_from
  take_object a out x rest inv front p ps before =
      let s = a.slab_system in
      let m = taken_full a x in
      let (same_p, after, same) = S.alloc_lem s x p ps before in
      let after_view = S.free (S.alloc s x).1 in
      let full = S.is_full_lem s x (p ∷ ps) before in
      let none_left = S.is_empty_lem (S.alloc s x).1 x ps after in
      let (new, at_x, objects) =
        take-Objects S.slab_of S.capacity (S.free s) after_view x same out inv.objects p ps before
          after in
      let k = subst (λ l. Linked (S.free s) S.capacity l a.num_full) front inv.linked in
      let c = subst (λ l. Counted (S.free s) l a.total_slabs) front inv.counted in
      subst (λ q. (has q out ≡ false) × Inv (Sized.take_from S a m x rest).1 (q ∷ out)) (sym same_p)
        (
          new,
          record {
            linked =
                subst (λ b. Linked after_view S.capacity (if b then rest else x ∷ rest) m)
                  (sym none_left)
                  (take-Linked S.capacity_pos after_view x p ps same before after m k
                    (ap (λ b. if b then a.num_full - 1 else a.num_full) full));
            objects = objects;
            counted =
                subst (λ b. Counted after_view (if b then rest else x ∷ rest) a.total_slabs)
                  (sym none_left) (take-Counted after_view x same c ps after);
            watched = elim (Bool-cases (S.is_full s x)) [
              | inl yes_full ↦ rw yes_full (update_min-≤ a.full_slab_working_set (a.num_full - 1))
              | inr not-IsFull ↦ rw not-IsFull inv.watched
            ];
            clients = omega (arith, inv.clients);
          },
        )

  -- The front slab has an object, and if it is full it is counted.
  take_front-Alloced :
      (a : SizedSlabAlloc S Instant) (out : List ℕ) (x : ℕ) (rest : List ℕ)
      → Inv a out
      → a.freelist ≡ x ∷ rest
      → Returns (Alloced out) (
          then_do
            (Sized.full_taken (S.is_full a.slab_system x) a.num_full)
            λ n. let r = Sized.take_from S a n x rest in done (some r.0, r.1))
  take_front-Alloced a out x rest inv front =
      let s = a.slab_system in
      let k = subst (λ l. Linked (S.free s) S.capacity l a.num_full) front inv.linked in
      let (free, alive, some_free) = Order-pos {x = x} S.capacity_pos k.order (ground arith) in
      let (p, ps, e) = non-empty free some_free in
      let counted : S.is_full s x ≡ true → 0 < a.num_full = λ h.
        Order-front k.order free alive (ground (arith, sym (S.is_full_lem s x free alive) ∙ h)) in
      rw (full_taken-pos (S.is_full s x) a.num_full counted)
        (returns (take_object a out x rest inv front p ps (alive ∙ ap some e)))

  take-Alloced :
      (b : Bool × SizedSlabAlloc S Instant) (out : List ℕ)
      → Inv b.1 out
      → (b.0 ≡ true → 0 < length b.1.freelist)
      → Returns (Alloced out) (Sized.take S b)
  unfolding Sized.take
  take-Alloced (false, a) out inv some_slab = returns inv
  take-Alloced (true, a) out inv some_slab =
      let (x, rest, e) = non-empty a.freelist (some_slab refl) in
      rw e (take_front-Alloced a out x rest inv e)

  -- An allocation does not panic. If it succeeds, the object is one that no client has, and the
  -- allocator is in order with the object in use; if it fails, it is in order with the same objects
  -- in use.
  pub alloc-Inv :
      (a : SizedSlabAlloc S Instant) (out : List ℕ)
      → Inv a out
      → Returns (Alloced out) (Sized.alloc S a)
  unfolding Sized.alloc
  alloc-Inv a out inv = elim (ℕ_discrete (length a.freelist) 0) [
    | yes none_linked ↦
        rw none_linked
          (Returns-then_do (alloc_slab-Inv a out inv) λ b h. take-Alloced b out h.0 h.1)
    | no some_linked ↦
        rw (==_ne (length a.freelist) 0 some_linked)
          (take-Alloced (true, a) out inv (λ h. omega (arith, some_linked)))
  ]
