-- ===== src/Slab/PtrMap/Run.antt =====
-- Histories of a `PtrHashMap`: insertions of absent keys and deletions of present ones, as its
-- comments ask of the caller, and a lookup at the end.
use allocators_rs.Base.{
  ℕ, ◌<◌, ◌≤◌, ◌≡◌, ◌^◌, some, none, List, [], ◌∷◌, Checked, done, panic, Returns, returns,
  Returns-map,
}
use allocators_rs.Slab.PtrMap.{PtrHashMap, new, insert, delete, get}
use allocators_rs.Slab.PtrMap.Buckets.{found}
use allocators_rs.Slab.PtrMap.Entries.{Pointers, update}
use allocators_rs.Slab.PtrMap.Represents.{
  Represents, empty, new-Represents, insert-Represents, delete-Represents, get-Represents,
}

pub data Op : Type 0 where
  put : (k v : ℕ) → Op
  drop : (k : ℕ) → Op

-- The calls, until one panics.
unfoldable pub after : Checked PtrHashMap → List Op → Checked PtrHashMap
after panic ops = panic
after (done m) [] = done m
after (done m) (put k v ∷ ops) = after (insert m k v) ops
after (done m) (drop k ∷ ops) = after (delete m k) ops

-- The same calls on a finite map.
abbrev pub mapped : Pointers → List Op → Pointers
mapped f [] = f
mapped f (put k v ∷ ops) = mapped (update f k (some v)) ops
mapped f (drop k ∷ ops) = mapped (update f k none) ops

-- No null key, no key inserted twice, and none deleted that is absent.
abbrev pub Valid : Pointers → List Op → Type 0
Valid f [] = Unit {0}
Valid f (put k v ∷ ops) = (0 < k) × (f k ≡ none) × Valid (update f k (some v)) ops
Valid f (drop k ∷ ops) = (v : ℕ) × (0 < k) × (f k ≡ some v) × Valid (update f k none) ops

after-Represents :
    (ops : List Op) (f : Pointers) (c : Checked PtrHashMap)
    → Valid f ops
    → Returns (λ m. Represents m f) c
    → Returns (λ m. Represents m (mapped f ops)) (after c ops)
unfolding after
after-Represents [] f c valid (returns {a = m} rep) = returns rep
after-Represents (put k v ∷ ops) f c (pos, absent, valid) (returns {a = m} rep) =
    after-Represents ops (update f k (some v)) (insert m k v) valid
      (insert-Represents m f k v rep pos absent)
after-Represents (drop k ∷ ops) f c (v, pos, there, valid) (returns {a = m} rep) =
    after-Represents ops (update f k none) (delete m k) valid
      (delete-Represents m f k v rep pos there)

-- A `PtrHashMap` behaves like a finite map, through all growing and shrinking. From a new table with
-- a size hint of at most `2 ^ 63` and an alignment of at least that of the keys' type, after any
-- insertions of absent keys and deletions of present ones, none of which is null, no call has
-- panicked, and a lookup of a key that is not null returns the value that was inserted with it and
-- not deleted since, or panics when there is none.
pub get-after :
    (align_of size align : ℕ) (ops : List Op) (k : ℕ)
    → align_of ≤ align
    → size ≤ 2 ^ 63
    → Valid empty ops
    → 0 < k
    → Returns (λ m. get m k ≡ found (mapped empty ops k)) (after (new align_of size align) ops)
get-after align_of size align ops k h le valid pos =
    Returns-map (λ m rep. get-Represents m (mapped empty ops) k rep pos)
      (after-Represents ops empty (new align_of size align) valid
        (new-Represents align_of size align h le))
