-- ===== src/Slab/PtrMap/Grow.antt =====
-- `PtrHashMap::grow`: the table has twice the buckets and the same entries, each in the bucket of
-- its new hash.
use native.Mathlib.Nat.{pow-suc}
use allocators_rs.Base.{
  ℕ, zero, suc, ◌+◌, ◌-◌, ◌^◌, ◌<◌, ◌≤◌, ◌≡◌, ◌≢◌, refl, sym, ap, subst, ◌∙◌, List, [], ◌∷◌, ◌++◌,
  length, length-replicate, length-append, length-set, set, replicate, All, arith, dec_lt,
}
use allocators_rs.Slab.PtrMap.{
  Slot, vacant, Bucket, slots, default, get_bucket, split, grow_from, grow, PtrHashMap,
}
use allocators_rs.Slab.PtrMap.Totals.{
  sum-append, sum-replicate, Vanishes, total, total_all, get_or-set_ne,
}
use allocators_rs.Slab.PtrMap.Buckets.{Shape}
use allocators_rs.Slab.PtrMap.Split.{Halves, split-Halves}
use allocators_rs.Slab.PtrMap.Tables.{
  Home, home-stays, home-moves, Table, All-map, set_two, total_all-set, vacant-Home,
}

-- The same entries, counted by any weight.
abbrev pub Same : List Bucket → List Bucket → Type 0
Same vec vec' = (g : Slot → ℕ) → Vanishes g → total_all g vec' ≡ total_all g vec

get_bucket-left :
    (xs ys : List Bucket) (i : ℕ) → i < length xs → get_bucket (xs ++ ys) i ≡ get_bucket xs i
get_bucket-left [] ys i h = absurd (omega arith)
get_bucket-left (x ∷ xs) ys zero h = refl
get_bucket-left (x ∷ xs) ys (suc i) h = get_bucket-left xs ys i (omega (arith, h))

get_bucket-right :
    (xs ys : List Bucket) (i : ℕ)
    → length xs ≤ i
    → get_bucket (xs ++ ys) i ≡ get_bucket ys (i - length xs)
get_bucket-right [] ys i h = ap (get_bucket ys) (omega arith)
get_bucket-right (x ∷ xs) ys zero h = absurd (omega arith)
get_bucket-right (x ∷ xs) ys (suc i) h =
    get_bucket-right xs ys i (omega (arith, h)) ∙ ap (get_bucket ys) (omega arith)

pub get_bucket-replicate : (n i : ℕ) → get_bucket (replicate n default) i ≡ default
get_bucket-replicate zero i = refl
get_bucket-replicate (suc n) zero = refl
get_bucket-replicate (suc n) (suc i) = get_bucket-replicate n i

-- Behind the old buckets there are new ones.
new_above :
    (vec : List Bucket) (n i : ℕ)
    → length vec ≤ i
    → get_bucket (vec ++ replicate n default) i ≡ default
new_above vec n i h =
    get_bucket-right vec (replicate n default) i h ∙ get_bucket-replicate n (i - length vec)

module _ (sh a : ℕ) where
  -- Before chain `i` is split.
  record Growing (vec0 : List Bucket) (i : ℕ) (vec : List Bucket) : Type 0 where
    len : length vec ≡ 2 ^ suc a
    done_low : (j : ℕ) → j < i → All (Home sh (suc a) j) (slots (get_bucket vec j))
    todo_low : (j : ℕ) → i ≤ j → j < 2 ^ a → All (Home sh a j) (slots (get_bucket vec j))
    high : (j : ℕ) → 2 ^ a ≤ j → All (Home sh (suc a) j) (slots (get_bucket vec j))
    shaped : (j : ℕ) → Shape (get_bucket vec j)
    same : Same vec0 vec

  step :
      (vec0 vec : List Bucket) (i : ℕ)
      → i < 2 ^ a
      → Growing vec0 i vec
      → (r : Bucket × Bucket)
      → Halves sh
          (2 ^ a)
          (Home sh a i)
          (Home sh (suc a) (i + 2 ^ a))
          (get_bucket vec i)
          (get_bucket vec (i + 2 ^ a))
          r
      → Growing vec0 (i + 1) (set (set vec i r.0) (i + 2 ^ a) r.1)
  step vec0 vec i h inv r halves =
      let vec1 = set vec i r.0 in
      let above = i + 2 ^ a in
      let vec2 = set vec1 above r.1 in
      let twice = pow-suc 2 a in
      let within : i < length vec = omega (arith, h, inv.len, twice) in
      let len1 : length vec1 ≡ length vec = length-set vec i r.0 in
      let within' : above < length vec1 = omega (arith, h, len1, inv.len, twice) in
      let settled : All (Home sh (suc a) i) (slots r.0) =
        All-map _ _ (slots r.0) (λ s (at, stay) ne. home-stays sh a s stay ∙ at ne)
          halves.old_stays in
      let far : above ≢ i = λ e. omega (arith, e, h) in
      record {
        len = length-set vec1 above r.1 ∙ len1 ∙ inv.len;
        done_low =
            set_two (λ j b. j < i + 1 → All (Home sh (suc a) j) (slots b)) vec i above r.0 r.1
              within (omega (arith, within', len1)) (λ less. settled)
              (λ less. absurd (omega (arith, less, h)))
              (λ j ne ne' less. inv.done_low j (omega (arith, less, ne)));
        todo_low =
            set_two (λ j b. i + 1 ≤ j → j < 2 ^ a → All (Home sh a j) (slots b)) vec i above r.0 r.1
              within (omega (arith, within', len1)) (λ le less. absurd (omega (arith, le)))
              (λ le less. absurd (omega (arith, less)))
              (λ j ne ne' le less. inv.todo_low j (omega (arith, le)) less);
        high =
            set_two (λ j b. 2 ^ a ≤ j → All (Home sh (suc a) j) (slots b)) vec i above r.0 r.1
              within (omega (arith, within', len1)) (λ le. settled) (λ le. halves.new_moved)
              (λ j ne ne' le. inv.high j le);
        shaped =
            set_two (λ j b. Shape b) vec i above r.0 r.1 within (omega (arith, within', len1))
              halves.old_shape halves.new_shape (λ j ne ne'. inv.shaped j);
        same = λ g v.
            let there = ap (total g) (get_or-set_ne vec i above r.0 default far) in
            omega (
              arith,
              total_all-set g vec1 above r.1 within',
              total_all-set g vec i r.0 within,
              there,
              halves.kept g v,
              inv.same g v,
            );
      }

  grow_from-Growing :
      (vec0 : List Bucket) (n i : ℕ) (vec : List Bucket)
      → i + n ≡ 2 ^ a
      → Growing vec0 i vec
      → Growing vec0 (2 ^ a) (grow_from sh (2 ^ a) i n vec)
  unfolding grow_from
  grow_from-Growing vec0 zero i vec e inv = subst (λ j. Growing vec0 j vec) (omega (arith, e)) inv
  grow_from-Growing vec0 (suc n) i vec e inv =
      let h : i < 2 ^ a = omega (arith, e) in
      let r = split sh (2 ^ a) (get_bucket vec i) (get_bucket vec (i + 2 ^ a)) in
      let halves =
        split-Halves sh (2 ^ a) (Home sh a i) (Home sh (suc a) (i + 2 ^ a)) (get_bucket vec i)
          (get_bucket vec (i + 2 ^ a)) (vacant-Home sh a i) (vacant-Home sh (suc a) (i + 2 ^ a))
          (λ s at goes ne. home-moves sh a s goes ∙ ap {B = ℕ} (λ t. t + 2 ^ a) (at ne))
          (inv.todo_low i (omega arith) h) (inv.high (i + 2 ^ a) (omega arith)) (inv.shaped i)
          (inv.shaped (i + 2 ^ a)) in
      grow_from-Growing vec0 n (i + 1) (set (set vec i r.0) (i + 2 ^ a) r.1) (omega (arith, e))
        (step vec0 vec i h inv r halves)

  vacant_chain : (j : ℕ) → All (Home sh (suc a) j) (slots default)
  vacant_chain j = let v = vacant-Home sh (suc a) j in (v, (v, (v, (v, tt))))

  begin : (vec : List Bucket) → Table sh a vec → Growing vec 0 (vec ++ replicate (2 ^ a) default)
  begin vec table =
      let new = replicate (2 ^ a) default in
      record {
        len =
            length-append vec new
            ∙ omega (arith, table.len, length-replicate {A = Bucket} (2 ^ a) default, pow-suc 2 a);
        done_low = λ j less. absurd (omega (arith, less));
        todo_low = λ j le less.
            subst (λ b. All (Home sh a j) (slots b))
              (sym (get_bucket-left vec new j (omega (arith, less, table.len)))) (table.placed j);
        high = λ j le.
            subst (λ b. All (Home sh (suc a) j) (slots b))
              (sym (new_above vec (2 ^ a) j (omega (arith, le, table.len)))) (vacant_chain j);
        shaped = λ j. elim (dec_lt j (length vec)) [
          | yes less ↦ subst Shape (sym (get_bucket-left vec new j less)) (table.shaped j)
          | no not_less ↦ subst Shape (sym (new_above vec (2 ^ a) j (omega (arith, not_less)))) refl
        ];
        same = λ g v.
            let none_new : total g default ≡ 0 = omega (arith, v vacant refl) in
            omega (
              arith,
              sum-append (total g) vec new,
              sum-replicate (total g) (2 ^ a) default none_new,
            );
      }

  finish :
      (vec0 vec : List Bucket) → Growing vec0 (2 ^ a) vec → Table sh (suc a) vec × Same vec0 vec
  finish vec0 vec inv = (
    record {
      len = inv.len;
      placed = λ j. elim (dec_lt j (2 ^ a)) [
        | yes less ↦ inv.done_low j less
        | no not_less ↦ inv.high j (omega (arith, not_less))
      ];
      shaped = inv.shaped;
    },
    inv.same,
  )

pub grow-Table :
    (m : PtrHashMap) (a : ℕ)
    → Table m.align_shift a m.vec
    → Table m.align_shift (suc a) (grow m).vec × Same m.vec (grow m).vec
unfolding grow
grow-Table m a table =
    let sh = m.align_shift in
    subst
      (λ n.
        let vec = grow_from sh n 0 n (m.vec ++ replicate n default) in
        Table sh (suc a) vec × Same m.vec vec)
      (sym table.len)
      (finish sh a m.vec _
        (grow_from-Growing sh a m.vec (2 ^ a) 0 _ (omega arith) (begin sh a m.vec table)))
