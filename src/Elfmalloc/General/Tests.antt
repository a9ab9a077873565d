-- ===== src/Elfmalloc/General/Tests.antt =====
-- Object allocators with one object of a class at a time, and the theorems of the general allocator
-- applied to them.
use allocators_rs.Base.{
  ℕ, ◌^◌, ◌≡◌, refl, Option, some, Returns, arith, ◌==◌, if◌then◌else◌, ltb, lt→ltb, false,
}
use allocators_rs.Base.Words.{next_power_of_two}
use allocators_rs.Elfmalloc.SizeClass.{
  n_small_classes, max_key, init_tiered, init_powers, fill_powers, init_multiples, round_up,
  elfmalloc_small_cutoff,
}
use allocators_rs.Elfmalloc.General
use allocators_rs.Elfmalloc.General.{
  Memory, AllocInfo, AllocType, small_slag, big_slag, large, Stamped, ObjectAllocs, ElfMalloc,
  new_internal, get_type, round_to_page,
}
use allocators_rs.Elfmalloc.General.Classed.{Classed}
use allocators_rs.Elfmalloc.General.Large.{Mapped, alloc-Mapped}

-- The memory, and the object size in the metadata of every slag.
abbrev State : Type 0
State = Memory × ℕ

abbrev tagged : ℕ → AllocInfo
tagged c = record {
  ty = if ltb c elfmalloc_small_cutoff then small_slag else big_slag;
  base = 0;
  region_size = 0;
}

-- Every class hands out the object at 2 ^ 22, where all of memory then has its tag.
abbrev take : State → ℕ → ℕ × State
take s c = (2 ^ 22, ((λ y. tagged c), c))

take-Stamped : (s : State) (c : ℕ) → Stamped (take s c).1.0 (λ slag. (take s c).1.1) c (take s c).0
unfolding get_type
take-Stamped s c = (
  λ small. (rw (lt→ltb c elfmalloc_small_cutoff small) refl, refl),
  λ more.
      let large_class : ltb c elfmalloc_small_cutoff ≡ false = ground (arith, more) in
      (refl, rw large_class refl, refl),
)

abbrev one_object : ObjectAllocs
one_object = record {
  State = State;
  memory = λ s. s.0;
  object_size = λ s slag. s.1;
  write = λ s x i. ((λ y. if y == x then i else s.0 y), s.1);
  alloc = take;
  free = λ s c item. s;
  write_lem = λ s x y i. refl;
  alloc-Stamped = take-Stamped;
}

abbrev nothing : State
nothing = ((λ y. tagged 8), 8)

-- The classes of `ElfMalloc::new`, and a mapping at 65536 for anything.
abbrev map_all : ℕ → Option ℕ
map_all size = some 65536

alloc-Mapped_example :
    Returns
      (Mapped one_object map_all 4096 (new_internal 8 25) 65536 5000000)
      (General.alloc one_object map_all 4096 (new_internal 8 25) nothing 5000000)
unfolding new_internal init_tiered n_small_classes max_key init_powers next_power_of_two fill_powers
    init_multiples round_up
alloc-Mapped_example =
    alloc-Mapped one_object map_all 4096 (new_internal 8 25) 5000000 65536 nothing (omega arith)
      (omega arith) (omega arith) (omega arith) refl
