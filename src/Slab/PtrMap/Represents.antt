-- ===== src/Slab/PtrMap/Represents.antt =====
-- The operations of `PtrHashMap` with their resizing: each represents the finite map that it should,
-- in a table of some length.
use allocators_rs.Base.{
  ℕ, zero, suc, ◌/◌, ◌^◌, ◌<◌, ◌≤◌, ◌≡◌, refl, sym, subst, some, none, length, length-replicate,
  replicate, All, arith, ◌==◌, true, le→leb, Returns, returns, Returns-map, Bool-cases, inl, inr,
}
use allocators_rs.Base.Words.{next_power_of_two_lem}
use allocators_rs.Slab.PtrMap.{
  Slot, vacant, slots, default, PtrHashMap, new, get, grow, insert, shrink, delete_at, delete,
}
use allocators_rs.Slab.PtrMap.Totals.{
  sum-replicate, Vanishes, total, total_all, keyed, occupied, keyed-Vanishes, occupied-Vanishes,
}
use allocators_rs.Slab.PtrMap.Buckets.{Shape, found}
use allocators_rs.Slab.PtrMap.Tables.{Home, vacant-Home, Table, keyed-le, sum_mono}
use allocators_rs.Slab.PtrMap.Grow.{grow-Table, get_bucket-replicate}
use allocators_rs.Slab.PtrMap.Shrink.{shrink-Table}
use allocators_rs.Slab.PtrMap.Entries.{
  Pointers, update, Entry, Holds, resized, get-found, insert_at-Holds, delete_at-Holds,
}

abbrev pub Represents : PtrHashMap → Pointers → Type 0
Represents m f = (a : ℕ) × Holds a m f

grow-Holds : (a : ℕ) (m : PtrHashMap) (f : Pointers) → Holds a m f → Holds (suc a) (grow m) f
unfolding grow
grow-Holds a m f holds =
    let (table, same) = grow-Table m a holds.table in
    resized (suc a) m (grow m) f table same refl holds.entries holds.counted

shrink-Holds : (a : ℕ) (m : PtrHashMap) (f : Pointers) → Holds (suc a) m f → Holds a (shrink m) f
unfolding shrink
shrink-Holds a m f holds =
    let (table, same) = shrink-Table m a holds.table in
    resized a m (shrink m) f table same refl holds.entries holds.counted

-- The key of an entry is that of a full slot.
occupied_by :
    (a : ℕ) (m : PtrHashMap) (f : Pointers) (k v : ℕ)
    → Holds a m f
    → 0 < k
    → f k ≡ some v
    → 0 < m.size
occupied_by a m f k v holds pos there =
    let entry : Entry m.vec k (some v) = subst (Entry m.vec k) there (holds.entries k pos) in
    let fewer =
      sum_mono (total (keyed k)) (total occupied) m.vec
        (λ b. sum_mono (keyed k) occupied (slots b) (keyed-le k pos)) in
    omega (arith, entry.0, fewer, holds.counted)

pub insert-Represents :
    (m : PtrHashMap) (f : Pointers) (k v : ℕ)
    → Represents m f
    → 0 < k
    → f k ≡ none
    → Returns (λ m'. Represents m' (update f k (some v))) (insert m k v)
unfolding insert
insert-Represents m f k v (a, holds) pos absent = elim (Bool-cases (m.size == length m.vec)) [
  | inl full ↦
      rw (insert, full)
        (Returns-map (λ m' h. (suc a, h))
          (insert_at-Holds (suc a) (grow m) f (grow-Holds a m f holds) k v pos absent))
  | inr room ↦
      rw (insert, room) (Returns-map (λ m' h. (a, h)) (insert_at-Holds a m f holds k v pos absent))
]

half_full :
    (a : ℕ) (m : PtrHashMap) (f : Pointers) (k v : ℕ)
    → Holds a m f
    → 0 < k
    → f k ≡ some v
    → (m.size == length m.vec / 2) ≡ true
    → Returns (λ m'. Represents m' (update f k none)) (delete_at (shrink m) k)
half_full zero m f k v holds pos there e =
    absurd (ground (arith, e, holds.table.len, occupied_by zero m f k v holds pos there))
half_full (suc a) m f k v holds pos there e =
    Returns-map (λ m' h. (a, h))
      (delete_at-Holds a (shrink m) f (shrink-Holds a m f holds) k v pos there)

pub delete-Represents :
    (m : PtrHashMap) (f : Pointers) (k v : ℕ)
    → Represents m f
    → 0 < k
    → f k ≡ some v
    → Returns (λ m'. Represents m' (update f k none)) (delete m k)
unfolding delete
delete-Represents m f k v (a, holds) pos there = elim (Bool-cases (m.size == length m.vec / 2)) [
  | inl half ↦ rw (delete, half) (half_full a m f k v holds pos there half)
  | inr more ↦
      rw (delete, more) (Returns-map (λ m' h. (a, h)) (delete_at-Holds a m f holds k v pos there))
]

pub get-Represents :
    (m : PtrHashMap) (f : Pointers) (k : ℕ) → Represents m f → 0 < k → get m k ≡ found (f k)
get-Represents m f k (a, holds) pos = get-found a m f holds k pos

abbrev pub empty : Pointers
empty k = none

empty_table : (sh a : ℕ) → Table sh a (replicate (2 ^ a) default)
empty_table sh a = record {
  len = length-replicate (2 ^ a) default;
  placed = λ i.
      let v = vacant-Home sh a i in
      subst (λ b. All (Home sh a i) (slots b)) (sym (get_bucket-replicate (2 ^ a) i))
        (v, (v, (v, (v, tt))));
  shaped = λ i. subst Shape (sym (get_bucket-replicate (2 ^ a) i)) refl;
}

empty_total : (g : Slot → ℕ) (n : ℕ) → Vanishes g → total_all g (replicate n default) ≡ 0
empty_total g n z =
    let none_here : total g default ≡ 0 = omega (arith, z vacant refl) in
    sum-replicate (total g) n default none_here

-- A size for which the next power of two is a word.
pub new-Represents :
    (align_of size align : ℕ)
    → align_of ≤ align
    → size ≤ 2 ^ 63
    → Returns (λ m. Represents m empty) (new align_of size align)
unfolding new
new-Represents align_of size align h le =
    let (j, bound, e, least) = next_power_of_two_lem size (omega (arith, le)) in
    rw (new, le→leb align_of align h, e)
      (returns (
        j,
        record {
          table = empty_table _ j;
          entries = λ k pos. empty_total (keyed k) (2 ^ j) (keyed-Vanishes k pos);
          counted = sym (empty_total occupied (2 ^ j) occupied-Vanishes);
        },
      ))
