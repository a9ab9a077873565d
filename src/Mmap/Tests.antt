-- ===== src/Mmap/Tests.antt =====
-- The theorems of mmap-alloc applied to a system with room for one mapping.
use allocators_rs.Base.{ℕ, ◌≤◌, done, ◌≡◌, ◌↔◌, refl, true, false, some, none, arith, Returns}
use allocators_rs.Slab.Layout.{MemLayout}
use allocators_rs.Mmap
use allocators_rs.Mmap.{MapAlloc, get_perm}
use allocators_rs.Mmap.System.{pages}
use allocators_rs.Mmap.Pages.{usable_size-pages}
use allocators_rs.Mmap.Requests.{Requested, alloc-Requested}
use allocators_rs.Mmap.Resizes.{
  Realloced, realloc-Realloced, ResizedInPlace, resize_in_place-ResizedInPlace,
}
use allocators_rs.Mmap.Backing.{NewPage, PageGone, alloc_object-NewPage}
use allocators_rs.Mmap.OneMapping.{one_mapping}

-- The default allocator.
abbrev alloc : MapAlloc
alloc = record {
  pagesize = 4096;
  read = true;
  write = true;
  exec = false;
  perms = 3;
  commit = false;
  obj_size = 4096;
}

abbrev bytes : ℕ → MemLayout
bytes n = record { size = n; align = 8 }

build_example : Mmap.build one_mapping (Mmap.default_builder one_mapping) ≡ done alloc
unfolding Mmap.build Mmap.default_builder get_perm
build_example = refl

usable_size-pages_example :
    let r = Mmap.usable_size one_mapping alloc (bytes 5000) in
    (r.0 ≤ 5000)
    × (5000 ≤ r.1)
    × ((n : ℕ) → ((r.0 ≤ n) × (n ≤ r.1)) ↔ (pages 4096 n ≡ pages 4096 5000))
usable_size-pages_example =
    usable_size-pages one_mapping alloc (bytes 5000) (omega arith) (omega arith) (omega arith)

alloc-Requested_example :
    Returns
      (Requested one_mapping none (bytes 5000))
      (Mmap.alloc one_mapping alloc none (bytes 5000))
alloc-Requested_example =
    alloc-Requested one_mapping alloc none (bytes 5000) 3 refl (omega arith, omega arith) refl

realloc-Realloced_example :
    Returns
      (Realloced one_mapping (some 2) 4096 (bytes 20000))
      (Mmap.realloc one_mapping alloc (some 2) 4096 (bytes 5000) (bytes 20000))
unfolding pages
realloc-Realloced_example =
    realloc-Realloced one_mapping alloc (some 2) 4096 (bytes 5000) (bytes 20000) refl (omega arith)
      (omega arith, omega arith) (omega arith, omega arith) refl

resize_in_place-ResizedInPlace_example :
    Returns
      (ResizedInPlace one_mapping (some 2) 4096 (bytes 100))
      (Mmap.resize_in_place one_mapping alloc (some 2) 4096 (bytes 5000) (bytes 100))
unfolding pages
resize_in_place-ResizedInPlace_example =
    resize_in_place-ResizedInPlace one_mapping alloc (some 2) 4096 (bytes 5000) (bytes 100) refl
      (omega arith) (omega arith, omega arith) (omega arith, omega arith) refl

alloc_object-NewPage_example :
    Returns (NewPage one_mapping none) (Mmap.alloc_object one_mapping alloc none)
    × Returns
        (PageGone one_mapping (some 1) 4096)
        (Mmap.dealloc_object one_mapping alloc (some 1) 4096)
alloc_object-NewPage_example =
    alloc_object-NewPage one_mapping alloc none (some 1) 4096 refl refl refl
