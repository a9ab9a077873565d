-- ===== src/Elfmalloc/General/Classed.antt =====
-- Objects of the size classes.
use allocators_rs.Base.{ℕ, ◌+◌, ◌*◌, ◌<◌, ◌≤◌, ◌≡◌, ◌⊎◌, Option, none, done}
use allocators_rs.Elfmalloc.General
use allocators_rs.Elfmalloc.General.{
  get_type, get_layout, AllocType, small_slag, big_slag, large, ElfMalloc, ObjectAllocs,
}

-- The class that an object comes from holds it and is less than 16 bytes or less than
-- twice as large; its size is found by its address, and a free of the object goes back to that class.
abbrev pub Classed :
    (O : ObjectAllocs) → (ℕ → Option ℕ) → ℕ → ElfMalloc → O.State → ℕ → ℕ × O.State → Type 0
Classed O fallible_map system_page_size e s bytes (p, t) =
    (c : ℕ) × (bytes ≤ c)
    × ((c < bytes + 16) ⊎ (c < 2 * bytes))
    × ((p, t) ≡ O.alloc s c)
    × ((get_layout (O.memory t) (O.object_size t) system_page_size p).0 ≡ c)
    × (General.free O fallible_map system_page_size e t p ≡ done (none, O.free t c p))
