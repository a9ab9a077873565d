-- ===== src/Malloc.antt =====
-- The C allocation API of malloc-bind/src/lib.rs, on 64-bit Linux and without debug assertions, so
-- that arithmetic wraps. The allocator is a parameter. The layout finder is a table; a layout that
-- is not there is undefined behaviour in the code, and `panic` here, as is an abort.
pub mod Interface
pub mod Round
pub mod Calls
pub mod Resize
pub mod Posix
pub mod Aligned
mod Tests
use allocators_rs.Base.{
  ℕ, zero, suc, ◌+◌, ◌-◌, ◌*◌, ◌<◌, ◌≤◌, ◌%◌, ◌≡◌, ◌≢◌, Bool, true, false, not, ◌&&◌, ◌||◌, Option,
  some, none, Checked, done, panic, ◌==◌, leb, if◌then◌else◌,
}
use allocators_rs.Base.Words.{add_usize, sub_usize, mul_usize, is_power_of_two}
use allocators_rs.Slab.Layout.{MemLayout}
use allocators_rs.Malloc.Interface.{AllocResult, ok, exhausted, unsupported, Allocator}

abbrev pub min_align : ℕ
min_align = 8

abbrev pub word_size : ℕ
word_size = 8

pub data Errno : Type 0 where
  untouched : Errno
  enomem : Errno
  einval : Errno

pub record Heap (A : Allocator) : Type 0 where
  pub heap : A.State
  pub layouts : ℕ → Option MemLayout
  pub errno : Errno

unfoldable pub roundup : ℕ → ℕ → ℕ
roundup n multiple =
    let remainder = n % multiple in
    if n == 0
    then multiple
    else if remainder == 0
    then n
    else sub_usize (add_usize n multiple) remainder

unfoldable pub layout_from_size_align : ℕ → ℕ → MemLayout
layout_from_size_align size align = record { size = size; align = align }

-- `LayoutFinder`.
unfoldable pub insert_layout : (ℕ → Option MemLayout) → ℕ → MemLayout → ℕ → Option MemLayout
insert_layout t ptr layout p = if p == ptr then some layout else t p

unfoldable pub delete_layout : (ℕ → Option MemLayout) → ℕ → ℕ → Option MemLayout
delete_layout t ptr p = if p == ptr then none else t p

module _ {A : Allocator} where
  -- What every allocating function does with the allocator's result.
  unfoldable pub finish : Heap A → MemLayout → AllocResult × A.State → Checked (ℕ × Heap A)
  finish h layout (ok ptr, s) =
      done (ptr, record h { heap = s; layouts = insert_layout h.layouts ptr layout })
  finish h layout (exhausted, s) = done (0, record h { heap = s; errno = enomem })
  finish h layout (unsupported, s) = panic

  unfoldable pub c_malloc : Heap A → ℕ → Checked (ℕ × Heap A)
  c_malloc h size =
      let layout = layout_from_size_align (roundup size min_align) min_align in
      if size == 0 then done (0, h) else finish h layout (A.alloc h.heap layout)

  unfoldable pub c_free : Heap A → ℕ → Checked (Heap A)
  c_free h ptr = if ptr == 0 then done h else elim (h.layouts ptr) [
    | none ↦ panic
    | some layout ↦
        done
          (record h { heap = A.dealloc h.heap ptr layout; layouts = delete_layout h.layouts ptr })
  ]

  unfoldable pub c_calloc : Heap A → ℕ → ℕ → Checked (ℕ × Heap A)
  c_calloc h nmemb size =
      let layout = layout_from_size_align (roundup (mul_usize nmemb size) min_align) min_align in
      if (nmemb == 0) || (size == 0)
      then done (0, h)
      else finish h layout (A.alloc_zeroed h.heap layout)

  -- `c_pvalloc` is the same code.
  unfoldable pub c_valloc : ℕ → Heap A → ℕ → Checked (ℕ × Heap A)
  c_valloc pagesize h size =
      let layout = layout_from_size_align (roundup size pagesize) pagesize in
      if size == 0 then done (0, h) else finish h layout (A.alloc h.heap layout)

  unfoldable pub c_memalign : Heap A → ℕ → ℕ → Checked (ℕ × Heap A)
  c_memalign h alignment size =
      let layout = layout_from_size_align (roundup size alignment) alignment in
      if not (is_power_of_two alignment)
      then done (0, record h { errno = einval })
      else if size == 0
      then done (0, h)
      else finish h layout (A.alloc h.heap layout)

  unfoldable pub c_aligned_alloc : Heap A → ℕ → ℕ → Checked (ℕ × Heap A)
  c_aligned_alloc h alignment size =
      if not (is_power_of_two alignment) || not (size % alignment == 0)
      then done (0, record h { errno = einval })
      else c_memalign h alignment size

  -- The code returned, and what is written to `memptr`, if anything.
  unfoldable pub posix_finish :
      Heap A → MemLayout → AllocResult × A.State → Checked ((Errno × Option ℕ) × Heap A)
  posix_finish h layout (ok ptr, s) =
      done
        ((untouched, some ptr), record h { heap = s; layouts = insert_layout h.layouts ptr layout })
  posix_finish h layout (exhausted, s) = done ((enomem, none), record h { heap = s })
  posix_finish h layout (unsupported, s) = panic

  unfoldable pub c_posix_memalign : Heap A → ℕ → ℕ → Checked ((Errno × Option ℕ) × Heap A)
  c_posix_memalign h alignment size =
      let layout = layout_from_size_align (roundup size alignment) alignment in
      if leb alignment word_size || not (is_power_of_two alignment)
      then done ((einval, none), h)
      else if size == 0
      then done ((untouched, some 0), h)
      else posix_finish h layout (A.alloc h.heap layout)

  -- The `ptr` of the first branch is the new one.
  unfoldable pub finish_realloc : Heap A → MemLayout → AllocResult × A.State → Checked (ℕ × Heap A)
  finish_realloc h new_layout (ok ptr, s) = done (
    ptr,
    record h { heap = s; layouts = insert_layout (delete_layout h.layouts ptr) ptr new_layout },
  )
  finish_realloc h new_layout (exhausted, s) = done (0, record h { heap = s; errno = enomem })
  finish_realloc h new_layout (unsupported, s) = panic

  unfoldable pub freed : Checked (Heap A) → Checked (ℕ × Heap A)
  freed (done h) = done (0, h)
  freed panic = panic

  unfoldable pub c_realloc : Heap A → ℕ → ℕ → Checked (ℕ × Heap A)
  c_realloc h ptr size =
      let new_layout = layout_from_size_align (roundup size min_align) min_align in
      if ptr == 0
      then c_malloc h size
      else if size == 0
      then freed (c_free h ptr)
      else elim (h.layouts ptr) [
        | none ↦ panic
        | some layout ↦ finish_realloc h new_layout (A.realloc h.heap ptr layout new_layout)
      ]
