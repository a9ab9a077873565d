-- ===== src/Elfmalloc/Tests.antt =====
-- Concrete memory sources, and the theorems of elfmalloc applied to them.
use allocators_rs.Base.{
  bit_or, ℕ, ◌+◌, ◌*◌, ◌^◌, ◌<◌, ◌≡◌, ◌⊎◌, refl, Option, some, none, List, [], ◌∷◌, arith, ◌==◌,
  if◌then◌else◌, Returns, ◌+◌, ◌/◌, ◌≤◌, ◌%◌, true, false,
}
use allocators_rs.Elfmalloc.RefCount.{
  claim, unclaim, inc_n, dec_n, Op, claims, unclaims, increments, decrements, run,
}
use allocators_rs.Elfmalloc.RefCount.Refine.{encode, count_run, results-encode, run-encode}
use allocators_rs.Elfmalloc.Slag.{Metadata, SlagState, available, free}
use allocators_rs.Elfmalloc.Slag.Free.{free-Transition, free-cell}
use allocators_rs.Base.Words.{next_power_of_two}
use allocators_rs.Elfmalloc.SizeClass.{
  round_up, init_multiples, init_tiered, get_tiered, n_small_classes, max_key, init_powers,
  fill_powers,
}
use allocators_rs.Elfmalloc.SizeClass.Tiered.{class_size, get_tiered-init_tiered}
use allocators_rs.Elfmalloc.Sources.{Region, Creek, mmap_carve, get_heap, creek_at}
use allocators_rs.Elfmalloc.Sources.Mmap.{Trimmed, mmap_carve-Trimmed}
use allocators_rs.Elfmalloc.Sources.Carve.{Apart, carve_all, carve_all-Apart}
use allocators_rs.Elfmalloc.Sources.Heap.{Placed, get_heap-mapped, creek_at-Placed}

-- Maps at 12288, and no size above `1 << 40`.
abbrev map_small : ℕ → Option ℕ
map_small size = if size == 2 ^ 41 then none else some 12288

mmap_carve-Trimmed_example :
    (r : ℕ × List Region) × (mmap_carve map_small 4096 (2 ^ 16) 3 ≡ some r)
    × Trimmed (2 ^ 16) 12288 (3 * 2 ^ 16) r
mmap_carve-Trimmed_example =
    mmap_carve-Trimmed map_small 4096 16 3 12288 (omega arith) (omega arith) refl

abbrev creek : Creek
creek = record { page_size = 4096; map_info = (12288, 2 ^ 31); base = 16384; bump = 12288 }

carve_all-Apart_example :
    Apart 16384 4096 (16384 + 0 * 4096) (16384 + 2 ^ 31) (carve_all creek 0 (2 ∷ 1 ∷ 5 ∷ []))
carve_all-Apart_example = carve_all-Apart creek 0 (2 ∷ 1 ∷ 5 ∷ []) (omega arith) (omega arith)

get_heap-mapped_example :
    Returns (λ r. (map_small r.1 ≡ some r.0) × (2 ^ 30 < r.1)) (get_heap map_small 12 (2 ^ 41))
get_heap-mapped_example =
    get_heap-mapped map_small 12 1 (2 ^ 41) 12288 (omega arith) (omega arith) refl

creek_at-Placed_example : Placed 4096 (12300, 2 ^ 31) (creek_at 4096 (12300, 2 ^ 31))
creek_at-Placed_example = creek_at-Placed 4096 (12300, 2 ^ 31) (omega arith)

results-encode_example :
    ((claim (encode (false, 3))).0 ≡ true)
    × ((unclaim (encode (false, 3))).0 ≡ (false, 3))
    × ((inc_n (encode (false, 3)) 2).0 ≡ (false, 3))
    × ((dec_n (encode (false, 3)) 2).0 ≡ (false, 3))
results-encode_example = results-encode false 3 2 (omega arith)

abbrev ops : List Op
ops = claims ∷ increments 5 ∷ decrements 2 ∷ unclaims ∷ []

run-encode_example : run ops (encode (false, 1)) ≡ encode (count_run ops (false, 1))
run-encode_example =
    run-encode ops (false, 1)
      (omega arith, (omega arith, (omega arith, omega arith, (omega arith, omega arith))))

-- The classes of `ElfMalloc::new`.
get_tiered-init_tiered_example :
    (get_tiered (init_tiered 8 25 (λ size. size)) 1000
      ≡ some (class_size (n_small_classes 8 25) 1000))
    × (1000 ≤ class_size (n_small_classes 8 25) 1000)
    × ((class_size (n_small_classes 8 25) 1000 < 1000 + 16)
        ⊎ (class_size (n_small_classes 8 25) 1000 < 2 * 1000))
unfolding init_tiered n_small_classes max_key init_powers next_power_of_two fill_powers
    init_multiples round_up
get_tiered-init_tiered_example =
    get_tiered-init_tiered 8 25 1000 (λ size. size) (omega arith) (omega arith) (omega arith)
      (omega arith) (omega arith)

abbrev metadata : Metadata
metadata = record { n_objects = 100; objects_offset = 128; bit_rep_shift = 5; cutoff_objects = 80 }

abbrev slag : SlagState
slag = record { address = 32768; rc = encode (false, 79); bitset = λ i. 0 }

free-Transition_example :
    ((free slag metadata 33000).0 ≡ available)
    × ((free slag metadata 33000).1.rc ≡ encode (false, 80))
free-Transition_example =
    free-Transition false 79 slag metadata 33000 refl (omega arith) (omega arith) (omega arith)
      (omega arith)

free-cell_example :
    (free
        (record { address = 32768; rc = encode (false, 3); bitset = λ w. 5 })
        metadata
        (128 + 32768 + (70 * 2 ^ 5 + 3))).1.bitset
      1
    ≡ (if 1 == 70 / 64 then bit_or 5 (2 ^ (70 % 64)) else 5)
free-cell_example =
    free-cell (record { address = 32768; rc = encode (false, 3); bitset = λ w. 5 }) 70 3 1 metadata
      (omega arith) (omega arith)
