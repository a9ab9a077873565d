-- ===== src/Slab/Large.antt =====
-- The configuration of large slabs, slab-alloc/src/large.rs: a pointer table from the pages of the slabs,
-- or from their objects, to the slabs. The size of a page is `2 ^ log_page`; pointers do not wrap.
pub mod Keys
pub mod Found
mod Tests
use allocators_rs.Base.{
  ℕ, zero, suc, ◌+◌, ◌-◌, ◌*◌, ◌/◌, ◌^◌, Bool, Checked, done, panic, bit_and, if◌then◌else◌,
}
use allocators_rs.Base.Bits.{not_usize}
use allocators_rs.Slab.Layout.{Layout, nth_obj}
use allocators_rs.Slab.PtrMap.{PtrHashMap, get}
use allocators_rs.Slab.PtrMap

pub record ConfigData : Type 0 where
  pub map : PtrHashMap
  pub map_by_page_addr : Bool

unfoldable pub insert_next : ℕ → ℕ → Checked PtrHashMap → Checked PtrHashMap
insert_next key slab (done m) = PtrMap.insert m key slab
insert_next key slab panic = panic

unfoldable pub delete_next : ℕ → Checked PtrHashMap → Checked PtrHashMap
delete_next key (done m) = PtrMap.delete m key
delete_next key panic = panic

-- The loops of `post_alloc` and of `pre_dealloc`, with `n` rounds, over keys by number.
unfoldable pub insert_keys : (ℕ → ℕ) → ℕ → ℕ → Checked PtrHashMap → Checked PtrHashMap
insert_keys key slab zero m = m
insert_keys key slab (suc n) m = insert_next (key n) slab (insert_keys key slab n m)

unfoldable pub delete_keys : (ℕ → ℕ) → ℕ → Checked PtrHashMap → Checked PtrHashMap
delete_keys key zero m = m
delete_keys key (suc n) m = delete_next (key n) (delete_keys key n m)

module _ (log_page : ℕ) where
  abbrev pub page_ptr : ℕ → ℕ → ℕ
  page_ptr slab i = slab + i * 2 ^ log_page

  unfoldable pub with_map : ConfigData → Checked PtrHashMap → Checked ConfigData
  with_map c (done m) = done (record c { map = m })
  with_map c panic = panic

  unfoldable pub post_alloc : Layout → (slab_size slab color : ℕ) → ConfigData → Checked ConfigData
  post_alloc layout slab_size slab color c = with_map c (
      if c.map_by_page_addr
      then insert_keys (page_ptr slab) slab (slab_size / 2 ^ log_page) (done c.map)
      else insert_keys (nth_obj layout slab color) slab layout.num_obj (done c.map))

  unfoldable pub pre_dealloc : Layout → (slab_size slab color : ℕ) → ConfigData → Checked ConfigData
  pre_dealloc layout slab_size slab color c = with_map c (
      if c.map_by_page_addr
      then delete_keys (page_ptr slab) (slab_size / 2 ^ log_page) (done c.map)
      else delete_keys (nth_obj layout slab color) layout.num_obj (done c.map))

  unfoldable pub ptr_to_slab : ConfigData → ℕ → Checked ℕ
  ptr_to_slab c ptr =
      if c.map_by_page_addr
      then get c.map (bit_and ptr (not_usize (2 ^ log_page - 1)))
      else get c.map ptr
