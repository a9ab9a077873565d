-- ===== src/Slab/Layout.antt =====
-- The layout of a slab in memory, `Layout` of slab-alloc/src/stack.rs: the header, the stack of
-- free objects, then the objects; with the sizes of `util::stack` (slab-alloc/src/util.rs) on a
-- 64-bit target, where an overflow in the search panics. `padding_needed_for` is that of the standard library's `Layout`.
pub mod Fill
pub mod Place
use allocators_rs.Base.{
  ℕ, zero, suc, ◌+◌, ◌-◌, ◌*◌, ◌%◌, ◌≤◌, Option, some, none, Checked, done, panic, leb, ◌==◌,
  if◌then◌else◌,
}
use allocators_rs.Base.Words.{usize_mod}
use allocators_rs.Slab.Color.{ColorSettings, new}

-- `alloc::allocator::Layout`.
pub record MemLayout : Type 0 where
  pub size : ℕ
  pub align : ℕ

pub record Layout : Type 0 where
  pub num_obj : ℕ
  pub layout : MemLayout
  pub stack_begin_offset : ℕ
  pub array_begin_offset : ℕ
  pub color_settings : ColorSettings

-- `size_of::<SlabHeader>()`: the stack's size, the colour and two pointers.
abbrev pub hdr_size : ℕ
hdr_size = 32

-- The bytes that bring `size` up to a multiple of `align`.
unfoldable pub padding_needed_for : ℕ → ℕ → ℕ
padding_needed_for size align = (align - size % align) % align

-- For a stack of words, which are aligned to 8.
unfoldable pub padding_after : ℕ → ℕ
padding_after size = padding_needed_for size 8

unfoldable pub bytes_for : ℕ → ℕ
bytes_for size = size * 8

-- Where the objects begin if the stack has `candidate` slots.
unfoldable pub array_offset : MemLayout → ℕ → ℕ → ℕ
array_offset l stack_begin candidate =
    let total_hdr_size = stack_begin + bytes_for candidate in
    total_hdr_size + padding_needed_for total_hdr_size l.align

-- The loop over candidates, on fuel; the state is `num_obj` and `array_begin_offset`. All parts of the
-- sum are at most the sum, so that some operation overflows just if the sum is no word; with overflow
-- checks that is a panic.
pub fill : ℕ → MemLayout → ℕ → ℕ → ℕ → ℕ → Checked (ℕ × ℕ)
fill zero l stack_begin slab_size num_obj array_begin = done (num_obj, array_begin)
fill (suc fuel) l stack_begin slab_size num_obj array_begin =
    let candidate = num_obj + 1 in
    let offset = array_offset l stack_begin candidate in
    let next = fill fuel l stack_begin slab_size candidate offset in
    if leb usize_mod (offset + candidate * l.size)
    then panic
    else if leb (offset + candidate * l.size) slab_size
    then next
    else done (num_obj, array_begin)

-- What follows the loop.
pub finish : MemLayout → ℕ → ℕ → ℕ × ℕ → Checked (Option (Layout × ℕ))
finish layout stack_begin slab_size (num_obj, array_begin) =
    let unused = slab_size - array_begin - num_obj * layout.size in
    let colors = new layout.align unused in
    let l : Layout = record {
      num_obj = num_obj;
      layout = layout;
      stack_begin_offset = stack_begin;
      array_begin_offset = array_begin;
      color_settings = colors;
    } in
    if num_obj == 0
    then done none
    else if array_begin == 0
    then panic
    else if leb (array_begin + colors.max_color + num_obj * layout.size) slab_size
    then done (some (l, unused))
    else panic

unfoldable pub finish_checked : MemLayout → ℕ → ℕ → Checked (ℕ × ℕ) → Checked (Option (Layout × ℕ))
unfolding finish
finish_checked layout stack_begin slab_size (done r) = finish layout stack_begin slab_size r
finish_checked layout stack_begin slab_size panic = panic

-- A candidate that fits has a stack of at most `slab_size` bytes, so `slab_size + 1` rounds do.
pub for_slab_size : MemLayout → ℕ → Checked (Option (Layout × ℕ))
unfolding padding_after padding_needed_for
for_slab_size layout slab_size =
    let stack_begin = hdr_size + padding_after hdr_size in
    finish_checked layout stack_begin slab_size
      (fill (slab_size + 1) layout stack_begin slab_size 0 0)

unfoldable pub array_begin : Layout → ℕ → ℕ → ℕ
array_begin l slab color = slab + l.array_begin_offset + color

unfoldable pub stack_begin : Layout → ℕ → ℕ
stack_begin l slab = slab + l.stack_begin_offset

unfoldable pub nth_obj : Layout → ℕ → ℕ → ℕ → ℕ
unfolding array_begin
nth_obj l slab color n = array_begin l slab color + n * l.layout.size
