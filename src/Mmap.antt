-- ===== src/Mmap.antt =====
-- mmap-alloc/src/lib.rs on 64-bit Linux, without debug assertions. The state is that of the system.
-- A failed assertion and `unreachable!` are `panic`.
pub mod System
pub mod Pages
pub mod Requests
pub mod Resizes
pub mod Backing
pub mod OneMapping
mod Tests
use allocators_rs.Base.{
  ℕ, zero, suc, ◌+◌, ◌-◌, ◌*◌, ◌%◌, ◌^◌, Bool, true, false, not, Option, some, none, Checked, done,
  panic, ◌==◌, ltb, if◌then◌else◌, bit_or,
}
use allocators_rs.Base.Words.{add_usize, sub_usize}
use allocators_rs.Slab.Layout.{MemLayout}
use allocators_rs.Malloc.Interface.{AllocResult, ok, exhausted, unsupported}
use allocators_rs.Mmap.System.{Os, Mapping, mapped, no_memory, failed}

pub record MapAllocBuilder : Type 0 where
  pub read : Bool
  pub write : Bool
  pub exec : Bool
  pub commit : Bool
  pub pagesize : ℕ
  pub obj_size : Option ℕ

pub record MapAlloc : Type 0 where
  pub pagesize : ℕ
  pub read : Bool
  pub write : Bool
  pub exec : Bool
  pub perms : ℕ
  pub commit : Bool
  pub obj_size : ℕ

unfoldable pub next_multiple : ℕ → ℕ → ℕ
next_multiple size unit =
    let remainder = size % unit in
    if remainder == 0 then size else add_usize size (unit - remainder)

module _ (O : Os) where
  unfoldable pub get_perm : Bool → Bool → Bool → ℕ
  get_perm false false false = O.prot_none
  get_perm true false false = O.prot_read
  get_perm false true false = O.prot_write
  get_perm false false true = O.prot_exec
  get_perm true true false = bit_or O.prot_read O.prot_write
  get_perm true false true = bit_or O.prot_read O.prot_exec
  get_perm false true true = bit_or O.prot_write O.prot_exec
  get_perm true true true = bit_or (bit_or O.prot_read O.prot_write) O.prot_exec

  unfoldable pub default_builder : MapAllocBuilder
  default_builder = record {
    read = true;
    write = true;
    exec = false;
    commit = false;
    pagesize = 2 ^ O.log_pagesize;
    obj_size = none;
  }

  unfoldable pub build : MapAllocBuilder → Checked MapAlloc
  build b =
      let with_size : ℕ → MapAlloc = λ size. record {
        pagesize = b.pagesize;
        read = b.read;
        write = b.write;
        exec = b.exec;
        perms = get_perm b.read b.write b.exec;
        commit = b.commit;
        obj_size = size;
      } in
      elim b.obj_size [
        | none ↦ done (with_size b.pagesize)
        | some size ↦ if size % b.pagesize == 0 then done (with_size size) else panic
      ]

  -- `none` is `ENOMEM`; the code asserts that an address is not null.
  unfoldable pub mapping : Mapping × O.State → Checked (Option ℕ × O.State)
  mapping (mapped ptr, s) = if ptr == 0 then panic else done (some ptr, s)
  mapping (no_memory, s) = done (none, s)
  mapping (failed, s) = panic

  unfoldable pub map : O.State → ℕ → ℕ → Bool → Checked (Option ℕ × O.State)
  map s size perms commit = mapping (O.mmap s size perms commit)

  -- Its assertion is on the old address.
  unfoldable pub remapping : ℕ → Mapping × O.State → Checked (Option ℕ × O.State)
  remapping ptr (mapped new, s) = if ptr == 0 then panic else done (some new, s)
  remapping ptr (no_memory, s) = done (none, s)
  remapping ptr (failed, s) = panic

  unfoldable pub remap : O.State → ℕ → ℕ → ℕ → Bool → Checked (Option ℕ × O.State)
  remap s ptr old_size new_size in_place =
      remapping ptr (O.mremap s ptr old_size new_size (not in_place))

  unfoldable pub unmap : O.State → ℕ → ℕ → Checked O.State
  unmap s ptr size = let r = O.munmap s ptr size in if r.0 then done r.1 else panic

  unfoldable pub ok_or_exhausted : Checked (Option ℕ × O.State) → Checked (AllocResult × O.State)
  ok_or_exhausted (done (some ptr, s)) = done (ok ptr, s)
  ok_or_exhausted (done (none, s)) = done (exhausted, s)
  ok_or_exhausted panic = panic

  -- The `match` of an object's `alloc`.
  unfoldable pub some_or_exhausted : Checked (AllocResult × O.State) → Checked (Option ℕ × O.State)
  some_or_exhausted (done (ok ptr, s)) = done (some ptr, s)
  some_or_exhausted (done (exhausted, s)) = done (none, s)
  some_or_exhausted (done (unsupported, s)) = panic
  some_or_exhausted panic = panic

  -- The `match` of `resize_in_place`: `true` is `Ok(())`.
  unfoldable pub ok_or_cannot : Checked (Option ℕ × O.State) → Checked (Bool × O.State)
  ok_or_cannot (done (some new_ptr, s)) = done (true, s)
  ok_or_cannot (done (none, s)) = done (false, s)
  ok_or_cannot panic = panic

  module _ (m : MapAlloc) where
    unfoldable pub alloc : O.State → MemLayout → Checked (AllocResult × O.State)
    alloc s layout =
        if ltb m.pagesize layout.align
        then done (unsupported, s)
        else ok_or_exhausted (map s (next_multiple layout.size m.pagesize) m.perms m.commit)

    unfoldable pub alloc_zeroed : O.State → MemLayout → Checked (AllocResult × O.State)
    alloc_zeroed s layout = alloc s layout

    unfoldable pub dealloc : O.State → ℕ → MemLayout → Checked O.State
    dealloc s ptr layout = unmap s ptr layout.size

    unfoldable pub usable_size : MemLayout → ℕ × ℕ
    usable_size layout =
        let max_size = next_multiple layout.size m.pagesize in
        (add_usize (sub_usize max_size m.pagesize) 1, max_size)

    unfoldable pub realloc : O.State → ℕ → MemLayout → MemLayout → Checked (AllocResult × O.State)
    realloc s ptr layout new_layout =
        let old_size = next_multiple layout.size m.pagesize in
        let new_size = next_multiple new_layout.size m.pagesize in
        if ltb m.pagesize new_layout.align
        then done (unsupported, s)
        else if old_size == new_size
        then done (ok ptr, s)
        else ok_or_exhausted (remap s ptr old_size new_layout.size false)

    -- `grow_in_place` and `shrink_in_place` are this.
    unfoldable pub resize_in_place : O.State → ℕ → MemLayout → MemLayout → Checked (Bool × O.State)
    resize_in_place s ptr layout new_layout =
        let old_size = next_multiple layout.size m.pagesize in
        let new_size = next_multiple new_layout.size m.pagesize in
        if ltb m.pagesize new_layout.align
        then done (false, s)
        else if old_size == new_size
        then done (true, s)
        else ok_or_cannot (remap s ptr old_size new_size true)

    -- `UntypedObjectAlloc`.
    unfoldable pub object_layout : MemLayout
    object_layout = record { size = m.obj_size; align = m.pagesize }

    unfoldable pub alloc_object : O.State → Checked (Option ℕ × O.State)
    alloc_object s = some_or_exhausted (alloc s object_layout)

    unfoldable pub dealloc_object : O.State → ℕ → Checked O.State
    dealloc_object s ptr = unmap s ptr m.obj_size
