-- ===== src/Elfmalloc/Arrays.antt =====
-- The module `mmap` and `TypedArray` of elfmalloc/src/utils.rs, on the mappings of mmap-alloc. An
-- element has `size_of` bytes.
mod Tests
pub mod Restored
use allocators_rs.Base.{
  ℕ, ◌+◌, ◌*◌, ◌/◌, ◌%◌, ◌^◌, Bool, true, Option, some, none, Checked, done, panic, min,
}
use allocators_rs.Base.Words.{mul_usize}
use allocators_rs.Slab.Layout.{MemLayout}
use allocators_rs.Malloc.Interface.{AllocResult, ok, exhausted, unsupported}
use allocators_rs.Mmap
use allocators_rs.Mmap.{MapAlloc}
use allocators_rs.Mmap.System.{Os}

pub record TypedArray : Type 0 where
  pub data_ptr : ℕ
  pub len : ℕ
  pub mapped : ℕ

-- A layout with an alignment of 1, which always exists.
abbrev pub unaligned : ℕ → MemLayout
unaligned size = record { size = size; align = 1 }

module _ (O : Os) where
  unfoldable pub page_size : ℕ
  page_size = 2 ^ O.log_pagesize

  -- `MapAllocBuilder::default().exec(true).build()`.
  unfoldable pub exec_alloc : Checked MapAlloc
  exec_alloc = Mmap.build O (record (Mmap.default_builder O) { exec = true })

  unfoldable pub ok_or_none : Checked (AllocResult × O.State) → Checked (Option ℕ × O.State)
  ok_or_none (done (ok ptr, s)) = done (some ptr, s)
  ok_or_none (done (exhausted, s)) = done (none, s)
  ok_or_none (done (unsupported, s)) = done (none, s)
  ok_or_none panic = panic

  unfoldable pub fallible_map : O.State → ℕ → Checked (Option ℕ × O.State)
  fallible_map s size = elim exec_alloc [
    | panic ↦ panic
    | done m ↦ ok_or_none (Mmap.alloc O m s (unaligned size))
  ]

  -- `expect`.
  unfoldable pub expect : Checked (Option ℕ × O.State) → Checked (ℕ × O.State)
  expect (done (some ptr, s)) = done (ptr, s)
  expect (done (none, s)) = panic
  expect panic = panic

  unfoldable pub map : O.State → ℕ → Checked (ℕ × O.State)
  map s size = expect (fallible_map s size)

  unfoldable pub unmap : O.State → ℕ → ℕ → Checked O.State
  unmap s p len = elim exec_alloc [ panic ↦ panic | done m ↦ Mmap.dealloc O m s p (unaligned len) ]

  -- The array at the address of its mapping.
  unfoldable pub array_at :
      (size mapped : ℕ) → Checked (ℕ × O.State) → Checked (TypedArray × O.State)
  array_at size mapped panic = panic
  array_at size mapped (done (mem, s)) =
      done (record { data_ptr = mem; len = size; mapped = mapped }, s)

  unfoldable pub new : O.State → (size_of size : ℕ) → Checked (TypedArray × O.State)
  new s size_of size =
      let bytes = mul_usize size_of size in
      let rem = bytes % page_size in
      let n_pages = bytes / page_size + min 1 rem in
      let region_size = mul_usize n_pages page_size in array_at size region_size (map s region_size)

  unfoldable pub destroy : O.State → TypedArray → Checked O.State
  destroy s a = unmap s a.data_ptr a.mapped

-- The address of an element.
unfoldable pub get : (size_of : ℕ) → TypedArray → ℕ → ℕ
get size_of a n = a.data_ptr + n * size_of
