-- ===== src/Elfmalloc/General.antt =====
-- `ElfMalloc` and `large_alloc` of elfmalloc/src/general.rs, and the tags of alloc_type.rs. Memory
-- at an address is read as an `AllocInfo`, of which a slag's page has only the tag. The allocators
-- of a class (`Lazy` front ends over slags) are an interface; a class is known by its object size.
pub mod Classed
pub mod Large
mod Tests
use allocators_rs.Base.{
  ℕ, ◌+◌, ◌-◌, ◌*◌, ◌/◌, ◌%◌, ◌≡◌, ◌<◌, ◌≤◌, Bool, not, ◌&&◌, Option, some, none, Checked, done,
  panic, bit_and, min, ◌==◌, ltb, leb, if◌then◌else◌,
}
use allocators_rs.Base.Words.{add_usize, sub_usize, is_power_of_two}
use allocators_rs.Base.Bits.{not_usize}
use allocators_rs.Elfmalloc.Sources.{Region, mmap_new, mmap_carve}
use allocators_rs.Elfmalloc.Slag.{find}
use allocators_rs.Elfmalloc.SizeClass.{
  TieredSizeClasses, get_tiered, init_tiered, max_key, elfmalloc_small_page_size,
  elfmalloc_small_cutoff,
}

pub data AllocType : Type 0 where
  small_slag : AllocType
  big_slag : AllocType
  large : AllocType

abbrev pub elfmalloc_page_size : ℕ
elfmalloc_page_size = 2 * 1024 * 1024

pub record AllocInfo : Type 0 where
  pub ty : AllocType
  pub base : ℕ
  pub region_size : ℕ

abbrev pub Memory : Type 0
Memory = ℕ → AllocInfo

unfoldable pub round_to_page : ℕ → ℕ
round_to_page item = bit_and item (not_usize (elfmalloc_page_size - 1))

unfoldable pub get_type : Memory → ℕ → AllocType
get_type memory item = (memory (round_to_page (sub_usize item 1))).ty

-- `large_alloc::alloc`: the object, and what is written at its commitment.
unfoldable pub large_alloc : (ℕ → Option ℕ) → (system_page_size size : ℕ) → Checked (ℕ × AllocInfo)
large_alloc fallible_map system_page_size size =
    let region_size = add_usize size elfmalloc_page_size in
    let n_pages =
      region_size / elfmalloc_small_cutoff + min 1 (region_size % elfmalloc_small_cutoff) in
    elim (mmap_carve fallible_map system_page_size (mmap_new elfmalloc_small_cutoff) n_pages) [
      | none ↦ panic
      | some (mem, unmapped) ↦ done (
        add_usize mem elfmalloc_page_size,
        record { ty = large; base = mem; region_size = region_size },
      )
    ]

unfoldable pub get_commitment : Memory → ℕ → ℕ × ℕ
get_commitment memory item =
    let info = memory (round_to_page (sub_usize item 1)) in (info.region_size, info.base)

unfoldable pub get_size : Memory → ℕ → ℕ
get_size memory item = sub_usize (get_commitment memory item).0 elfmalloc_page_size

-- `large_alloc::free`: the region that it unmaps.
unfoldable pub large_free : Memory → ℕ → Option Region
large_free memory item =
    let (size, base_ptr) = get_commitment memory item in
    if size == 0 && base_ptr == 0 then none else some (base_ptr, size)

unfoldable pub get_page_size : Memory → ℕ → Option ℕ
get_page_size memory item =
    if not (item % elfmalloc_small_cutoff == 0)
    then some elfmalloc_small_page_size
    else elim (get_type memory item) [
      | small_slag ↦ some elfmalloc_small_page_size
      | big_slag ↦ some elfmalloc_page_size
      | large ↦ none
    ]

-- The size and the alignment of a slag's objects, from its metadata.
unfoldable pub slag_layout : ℕ → ℕ × ℕ
slag_layout object_size = (object_size, if is_power_of_two object_size then object_size else 8)

-- `global::get_layout`, which chooses the pages by the tag, with `elfmalloc_get_layout`.
unfoldable pub get_layout : Memory → (ℕ → ℕ) → (system_page_size item : ℕ) → ℕ × ℕ
get_layout memory object_size system_page_size item = elim (get_type memory item) [
  | small_slag ↦ slag_layout (object_size (find item elfmalloc_small_page_size))
  | big_slag ↦ slag_layout (object_size (find item elfmalloc_page_size))
  | large ↦ (get_size memory item, system_page_size)
]

-- What the module's documentation says of an object of the class of `c` bytes: its page is tagged,
-- and its slag's metadata has its size; one above the cutoff is aligned to it.
abbrev pub Stamped : Memory → (ℕ → ℕ) → ℕ → ℕ → Type 0
Stamped memory object_size c p =
    (c < elfmalloc_small_cutoff
      → (get_type memory p ≡ small_slag) × (object_size (find p elfmalloc_small_page_size) ≡ c))
    × (elfmalloc_small_cutoff ≤ c
        → (p % elfmalloc_small_cutoff ≡ 0)
          × (get_type memory p ≡ big_slag)
          × (object_size (find p elfmalloc_page_size) ≡ c))

-- The object allocators with the memory they share. `object_size` is that of the metadata of the
-- slag at an address.
pub record ObjectAllocs : Type 1 where
  pub State : Type 0
  pub memory : State → Memory
  pub object_size : State → ℕ → ℕ
  pub write : State → ℕ → AllocInfo → State
  pub alloc : State → (class : ℕ) → ℕ × State
  pub free : State → (class item : ℕ) → State
  pub write_lem :
      (s : State) (x y : ℕ) (i : AllocInfo)
      → memory (write s x i) y ≡ (if y == x then i else memory s y)
  pub alloc-Stamped :
      (s : State) (c : ℕ)
      → Stamped (memory (alloc s c).1) (object_size (alloc s c).1) c (alloc s c).0

-- `ElfMalloc`: the classes and the largest of them.
pub record ElfMalloc : Type 0 where
  pub allocs : TieredSizeClasses ℕ
  pub max_size : ℕ

-- `new_internal`; the class of a size is the allocator of objects of that size.
unfoldable pub new_internal : (start_from n_classes : ℕ) → ElfMalloc
new_internal start_from n_classes =
    let am = init_tiered start_from n_classes (λ size. size) in
    record { allocs = am; max_size = max_key am }

module _ (O : ObjectAllocs) (fallible_map : ℕ → Option ℕ) (system_page_size : ℕ)
    (e : ElfMalloc) where
  unfoldable pub alloc : O.State → ℕ → Checked (ℕ × O.State)
  alloc s bytes =
      if leb bytes e.max_size
      then elim (get_tiered e.allocs bytes) [ none ↦ panic | some c ↦ done (O.alloc s c) ]
      else elim (large_alloc fallible_map system_page_size bytes) [
        | panic ↦ panic
        | done (res, info) ↦ done (res, O.write s (round_to_page (sub_usize res 1)) info)
      ]

  -- The region that is unmapped, if one is.
  unfoldable pub free : O.State → ℕ → Checked (Option Region × O.State)
  free s item = elim (get_page_size (O.memory s) item) [
    | some page_size ↦ elim (get_tiered e.allocs (O.object_size s (find item page_size))) [
      | none ↦ panic
      | some c ↦ done (none, O.free s c item)
    ]
    | none ↦ done (large_free (O.memory s) item, s)
  ]
