-- ===== src/Slab/PtrMap.antt =====
-- The hash table of slab-alloc/src/ptr_map.rs. Keys and values are pointers, and the null key, 0, is
-- that of an empty slot. A bucket is its array of slots with the bucket behind it, if there is one;
-- the slots of a chain are numbered from its head. Debug assertions are off.
pub mod Totals
pub mod Buckets
pub mod Deletes
pub mod Holes
pub mod Positions
pub mod Splitting
pub mod Split
pub mod Tables
pub mod Grow
pub mod Drain
pub mod Shrink
pub mod Entries
pub mod Represents
pub mod Run
mod Tests
use allocators_rs.Base.{
  ℕ, zero, suc, ◌+◌, ◌-◌, ◌*◌, ◌/◌, ◌^◌, Bool, true, false, not, Option, some, none, List, [], ◌∷◌,
  ◌++◌, length, get_elem?, get_or, set, replicate, Checked, done, panic, bit_and, ltb, leb, ◌==◌,
  if◌then◌else◌,
}
use allocators_rs.Base.Words.{next_power_of_two, trailing_zeros}

abbrev pub Slot : Type 0
Slot = ℕ × ℕ

abbrev pub vacant : Slot
vacant = (0, 0)

abbrev pub bucket_size : ℕ
bucket_size = 4

abbrev pub new_buckets : List Slot
new_buckets = vacant ∷ vacant ∷ vacant ∷ vacant ∷ []

pub data Bucket : Type 0 where
  last : List Slot → Bucket
  linked : List Slot → Bucket → Bucket

abbrev pub default : Bucket
default = last new_buckets

-- All slots of a chain.
abbrev pub slots : Bucket → List Slot
slots (last d) = d
slots (linked d next) = d ++ slots next

-- The loop of `Bucket::get`.
abbrev pub find_value : ℕ → List Slot → Option ℕ
find_value ptr [] = none
find_value ptr (s ∷ l) = if ptr == s.0 then some s.1 else find_value ptr l

unfoldable pub bucket_get : Bucket → ℕ → Checked ℕ
bucket_get (last d) ptr = elim (find_value ptr d) [ none ↦ panic | some v ↦ done v ]
bucket_get (linked d next) ptr = elim (find_value ptr d) [
  | none ↦ bucket_get next ptr
  | some v ↦ done v
]

-- The loop of `Bucket::insert`.
abbrev pub fill_vacant : Slot → List Slot → Option (List Slot)
fill_vacant kv [] = none
fill_vacant kv (s ∷ l) =
    if s.0 == 0
    then some (kv ∷ l)
    else elim (fill_vacant kv l) [ none ↦ none | some filled ↦ some (s ∷ filled) ]

unfoldable pub bucket_insert : Bucket → Slot → Bucket
bucket_insert (last d) kv = elim (fill_vacant kv d) [
  | none ↦ linked d (last (kv ∷ vacant ∷ vacant ∷ vacant ∷ []))
  | some filled ↦ last filled
]
bucket_insert (linked d next) kv = elim (fill_vacant kv d) [
  | none ↦ linked d (bucket_insert next kv)
  | some filled ↦ linked filled next
]

-- The loop of `remove_last`, over `n` indices from `i` on: the last full slot.
unfoldable pub last_full : List Slot → ℕ → ℕ → Option ℕ
last_full d i zero = none
last_full d i (suc n) = elim (last_full d (i + 1) n) [
  | none ↦ if (get_or d i vacant).0 == 0 then none else some i
  | some j ↦ some j
]

unfoldable pub remove_last : Bucket → ℕ → (Slot × Bool) × Bucket
remove_last (last d) idx = elim (last_full d bucket_size (idx - bucket_size)) [
  | none ↦ ((vacant, false), last d)
  | some i ↦ ((get_or d i vacant, i == 0), last (set d i vacant))
]
remove_last (linked d next) idx = elim (last_full d bucket_size (idx - bucket_size)) [
  | none ↦ ((vacant, false), linked d next)
  | some i ↦
      let (r, rest) = remove_last next 0 in ((r.0, false), if r.1 then last d else linked d rest)
]

-- The loop of `Bucket::delete`.
abbrev pub index_of : ℕ → List Slot → Option ℕ
index_of ptr [] = none
index_of ptr (s ∷ l) =
    if s.0 == ptr then some 0 else elim (index_of ptr l) [ none ↦ none | some i ↦ some (suc i) ]

unfoldable pub set_data : Bucket → ℕ → Slot → Bucket
set_data (last d) i kv = last (set d i kv)
set_data (linked d next) i kv = linked (set d i kv) next

unfoldable pub behind : List Slot → Checked Bucket → Checked Bucket
behind d (done next) = done (linked d next)
behind d panic = panic

unfoldable pub bucket_delete : Bucket → ℕ → Checked Bucket
bucket_delete (last d) ptr = elim (index_of ptr d) [
  | none ↦ panic
  | some i ↦ let (r, b) = remove_last (last d) (i + 1) in done (set_data b i r.0)
]
bucket_delete (linked d next) ptr = elim (index_of ptr d) [
  | none ↦ behind d (bucket_delete next ptr)
  | some i ↦ let (r, b) = remove_last (linked d next) (i + 1) in done (set_data b i r.0)
]

pub record PtrHashMap : Type 0 where
  pub vec : List Bucket
  pub size : ℕ
  pub align_shift : ℕ

-- The alignment of the keys' type is a parameter.
unfoldable pub new : (align_of size align : ℕ) → Checked PtrHashMap
new align_of size align =
    if leb align_of align
    then done (record {
      vec = replicate (next_power_of_two size) default;
      size = 0;
      align_shift = trailing_zeros align;
    })
    else panic

abbrev pub hash_with_len : (align_shift ptr len : ℕ) → ℕ
hash_with_len align_shift ptr len = bit_and (ptr / 2 ^ align_shift) (len - 1)

abbrev pub hash : PtrHashMap → ℕ → ℕ
hash m ptr = hash_with_len m.align_shift ptr (length m.vec)

-- An index outside the table is undefined in the code.
unfoldable pub get : PtrHashMap → ℕ → Checked ℕ
get m ptr = elim (get_elem? m.vec (hash m ptr)) [ none ↦ panic | some b ↦ bucket_get b ptr ]

-- A write to slot `p` of a chain.
unfoldable pub set_at : Bucket → ℕ → Slot → Bucket
set_at (last d) p kv = last (set d p kv)
set_at (linked d next) p kv =
    let rest = set_at next (p - length d) kv in
    if ltb p (length d) then linked (set d p kv) next else linked d rest

abbrev pub slot_at : Bucket → ℕ → Slot
slot_at b p = get_or (slots b) p vacant

-- The inner `while` of `grow`: the next vacant slot, on fuel.
unfoldable pub next_free : Bucket → ℕ → ℕ → ℕ
next_free b zero f = f
next_free b (suc n) f = let rest = next_free b n (f + 1) in if (slot_at b f).0 == 0 then f else rest

-- The variables of `grow` for one chain: the chain, its first vacant slot, and the new chain.
pub record Moving : Type 0 where
  pub chain : Bucket
  pub first_free : Option ℕ
  pub new_bkt : Bucket

unfoldable pub update_first_free : ℕ → Option ℕ → Option ℕ
update_first_free p none = some p
update_first_free p (some f) = some f

-- A slot that stays moves to the first vacant one, which is not behind it.
unfoldable pub pack_slot : ℕ → Slot → Moving → Moving
pack_slot p s m = elim m.first_free [
  | none ↦ m
  | some f ↦
      let b = set_at (set_at m.chain p vacant) f s in
      record m { chain = b; first_free = some (next_free b (p - f) f) }
]

unfoldable pub move_slot : (align_shift old_len p : ℕ) → Moving → Moving
move_slot align_shift old_len p m =
    let s = slot_at m.chain p in
    if s.0 == 0
    then record m { first_free = update_first_free p m.first_free }
    else if not (bit_and (s.0 / 2 ^ align_shift) old_len == 0)
    then record {
      chain = set_at m.chain p vacant;
      first_free = update_first_free p m.first_free;
      new_bkt = bucket_insert m.new_bkt s;
    }
    else pack_slot p s m

-- The loops over the slots of a chain: `n` of them, from `p` on.
unfoldable pub move_slots : (align_shift old_len p n : ℕ) → Moving → Moving
move_slots align_shift old_len p zero m = m
move_slots align_shift old_len p (suc n) m =
    move_slots align_shift old_len (p + 1) n (move_slot align_shift old_len p m)

unfoldable pub split : (align_shift old_len : ℕ) → Bucket → Bucket → Bucket × Bucket
split align_shift old_len b new_bkt =
    let m =
      move_slots align_shift old_len 0 (length (slots b))
        (record { chain = b; first_free = none; new_bkt = new_bkt }) in
    (m.chain, m.new_bkt)

abbrev pub get_bucket : List Bucket → ℕ → Bucket
get_bucket vec i = get_or vec i default

-- The loop of `grow` over the old buckets: `n` of them, from `i` on.
unfoldable pub grow_from : (align_shift old_len i n : ℕ) → List Bucket → List Bucket
grow_from align_shift old_len i zero vec = vec
grow_from align_shift old_len i (suc n) vec =
    let (b, new_bkt) =
      split align_shift old_len (get_bucket vec i) (get_bucket vec (i + old_len)) in
    grow_from align_shift old_len (i + 1) n (set (set vec i b) (i + old_len) new_bkt)

unfoldable pub grow : PtrHashMap → PtrHashMap
grow m =
    let old_len = length m.vec in
    record m {
      vec = grow_from m.align_shift old_len 0 old_len (m.vec ++ replicate old_len default);
    }

-- The loops of `shrink` over the slots of a chain.
unfoldable pub drain : List Slot → Bucket → Bucket
drain [] b = b
drain (s ∷ l) b = drain l (if s.0 == 0 then b else bucket_insert b s)

unfoldable pub shrink_from : (new_len i n : ℕ) → List Bucket → List Bucket
shrink_from new_len i zero vec = vec
shrink_from new_len i (suc n) vec =
    shrink_from new_len (i + 1) n
      (set vec i (drain (slots (get_bucket vec (i + new_len))) (get_bucket vec i)))

abbrev pub truncate : ℕ → List Bucket → List Bucket
truncate zero vec = []
truncate (suc n) [] = []
truncate (suc n) (b ∷ vec) = b ∷ truncate n vec

unfoldable pub shrink : PtrHashMap → PtrHashMap
shrink m =
    let new_len = length m.vec / 2 in
    record m { vec = truncate new_len (shrink_from new_len 0 new_len m.vec) }

unfoldable pub insert_at : PtrHashMap → Slot → Checked PtrHashMap
insert_at m kv = elim (get_elem? m.vec (hash m kv.0)) [
  | none ↦ panic
  | some b ↦
      done (record m { vec = set m.vec (hash m kv.0) (bucket_insert b kv); size = m.size + 1 })
]

unfoldable pub insert : PtrHashMap → ℕ → ℕ → Checked PtrHashMap
insert m ptr v = insert_at (if m.size == length m.vec then grow m else m) (ptr, v)

unfoldable pub put_bucket : PtrHashMap → ℕ → Checked Bucket → Checked PtrHashMap
put_bucket m i (done b) = done (record m { vec = set m.vec i b; size = m.size - 1 })
put_bucket m i panic = panic

unfoldable pub delete_at : PtrHashMap → ℕ → Checked PtrHashMap
delete_at m ptr = elim (get_elem? m.vec (hash m ptr)) [
  | none ↦ panic
  | some b ↦ put_bucket m (hash m ptr) (bucket_delete b ptr)
]

unfoldable pub delete : PtrHashMap → ℕ → Checked PtrHashMap
delete m ptr = delete_at (if m.size == length m.vec / 2 then shrink m else m) ptr
