-- ===== src/Elfmalloc/Sources.antt =====
-- The memory sources of elfmalloc/src/sources.rs: `MmapSource` and `Creek`. The system's `map` is a
-- parameter; arithmetic wraps, as it does without overflow checks.
pub mod Mmap
pub mod Carve
pub mod Heap
use allocators_rs.Base.{
  ℕ, zero, suc, ◌+◌, ◌-◌, ◌*◌, ◌/◌, ◌^◌, ◌%◌, Bool, true, false, not, ◌&&◌, ◌||◌, Option, some,
  none, List, [], ◌∷◌, ◌++◌, Checked, done, panic, ◌==◌, ltb, leb, if◌then◌else◌, bit_and,
}
use allocators_rs.Base.Words.{add_usize, mul_usize, sub_usize, is_power_of_two, next_power_of_two}

-- A region of memory: its address and its size.
abbrev pub Region : Type 0
Region = ℕ × ℕ

-- `MmapSource` is its page size.
unfoldable pub mmap_new : ℕ → ℕ
mmap_new page_size = next_power_of_two page_size

unfoldable pub mod_size : ℕ → ℕ → ℕ
mod_size x n = bit_and x (n - 1)

-- What is returned of a mapping at `mem`, and the regions that are unmapped, in order.
unfoldable pub trim : ℕ → ℕ → ℕ → ℕ × List Region
trim page_size target_size mem =
    let rem1 = mod_size mem page_size in
    let rem2 = page_size - rem1 in
    let res = mem + rem2 in
    (
      res,
      (if ltb 0 rem1 then (res + target_size, rem1) ∷ [] else [])
          ++ (if ltb 0 rem2 then (mem, rem2) ∷ [] else []),
    )

unfoldable pub mmap_carve : (ℕ → Option ℕ) → ℕ → ℕ → ℕ → Option (ℕ × List Region)
mmap_carve fallible_map system_page_size page_size npages =
    let target_size = mul_usize npages page_size in
    if leb page_size system_page_size
    then elim (fallible_map target_size) [ none ↦ none | some mem ↦ some (mem, []) ]
    else elim (fallible_map (add_usize target_size page_size)) [
      | none ↦ none
      | some mem ↦ some (trim page_size target_size mem)
    ]

-- The counter behind `bump` is shared by the clones; it is passed along.
pub record Creek : Type 0 where
  pub page_size : ℕ
  pub map_info : Region
  pub base : ℕ
  pub bump : ℕ

-- The result, and the counter after the `fetch_add`.
unfoldable pub carve : Creek → ℕ → ℕ → Option ℕ × ℕ
carve c counter npages = (
  if ltb (mul_usize (add_usize counter npages) c.page_size) c.map_info.1
      then some (c.base + counter * c.page_size)
      else none,
  add_usize counter npages,
)

unfoldable pub contains : Creek → ℕ → Bool
contains c it = leb c.base it && ltb it (c.base + c.map_info.1)

-- The loop of `get_heap`, on fuel.
pub get_heap : (ℕ → Option ℕ) → ℕ → ℕ → Checked Region
get_heap fallible_map zero heap_size = panic
get_heap fallible_map (suc fuel) heap_size =
    let rest = get_heap fallible_map fuel (heap_size / 2) in
    if ltb (2 ^ 30) heap_size
    then elim (fallible_map heap_size) [ none ↦ rest | some heap ↦ done (heap, heap_size) ]
    else panic

unfoldable pub slush_addr : ℕ → ℕ → ℕ
slush_addr page_size orig_addr =
    if orig_addr == 0
    then orig_addr + page_size
    else if not (orig_addr % page_size == 0)
    then orig_addr + (page_size - orig_addr % page_size)
    else orig_addr

unfoldable pub creek_at : ℕ → Region → Creek
creek_at page_size heap =
    let slush = slush_addr page_size heap.0 in
    record { page_size = page_size; map_info = heap; base = slush + page_size; bump = slush }

-- From `2 << 40` down to `1 << 30` there are 11 sizes.
unfoldable pub new : (ℕ → Option ℕ) → ℕ → Checked Creek
new fallible_map page_size =
    if is_power_of_two page_size && ltb 8 page_size
    then elim (get_heap fallible_map 12 (2 ^ 41)) [
      | panic ↦ panic
      | done heap ↦ done (creek_at page_size heap)
    ]
    else panic
