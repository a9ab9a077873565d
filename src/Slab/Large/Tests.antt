-- ===== src/Slab/Large/Tests.antt =====
-- A large slab of two pages in a new table.
use allocators_rs.Base.{◌≡◌, refl, subst, [], ◌∷◌, arith, true, done, Returns, returns}
use allocators_rs.Base.Words.{next_power_of_two, trailing_zeros}
use allocators_rs.Slab.Layout.{Layout}
use allocators_rs.Slab.PtrMap.{PtrHashMap, new, default}
use allocators_rs.Slab.PtrMap.Represents.{Represents, empty, new-Represents}
use allocators_rs.Slab.Large.{post_alloc, pre_dealloc, ptr_to_slab}
use allocators_rs.Slab.Large.Found.{config, Configured, post_alloc-found}

abbrev table : PtrHashMap
table = record { vec = default ∷ []; size = 0; align_shift = 12 }

table-new : new 8 1 4096 ≡ done table
unfolding new next_power_of_two trailing_zeros
table-new = refl

returned {ℓ κ} : {A : Type ℓ} {P : A → Type κ} {a : A} → Returns P (done a) → P a
returned (returns p) = p

table-Represents : Represents table empty
table-Represents = returned (
    subst (Returns (λ m. Represents m empty)) table-new
      (new-Represents 8 1 4096 (omega arith) (omega arith)))

abbrev two_kilobytes : Layout
two_kilobytes = record {
  num_obj = 3;
  layout = record { size = 2048; align = 64 };
  stack_begin_offset = 32;
  array_begin_offset = 2048;
  color_settings = record { max_color = 0; cur_color = 0 };
}

post_alloc-found_example :
    Returns
      (λ c.
        (ptr_to_slab 12 c 21000 ≡ done 16384)
        × Returns (Configured true empty) (pre_dealloc 12 two_kilobytes 8192 16384 0 c))
      (post_alloc 12 two_kilobytes 8192 16384 0 (config true table))
post_alloc-found_example =
    post_alloc-found 12 two_kilobytes 8192 16384 0 21000 empty table (omega arith) refl refl
      (omega arith) (omega arith) (omega arith) (omega arith) (λ i less. refl) table-Represents
