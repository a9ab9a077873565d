-- ===== src/Slab/PtrMap/Tests.antt =====
-- Histories of a pointer table at concrete keys: a table of one bucket grows with its second entry,
-- and shrinks again.
use allocators_rs.Base.{
  ℕ, ◌≡◌, refl, Option, some, none, List, [], ◌∷◌, Checked, done, panic, Returns, arith, length,
}
use allocators_rs.Slab.PtrMap.{
  PtrHashMap, Bucket, last, linked, vacant, new, get, insert, insert_at, bucket_delete, set_at,
  grow, grow_from, split, move_slots, move_slot, pack_slot, next_free, update_first_free,
  bucket_insert,
}
use allocators_rs.Base.Words.{next_power_of_two, trailing_zeros}
use allocators_rs.Slab.PtrMap.Buckets.{found}
use allocators_rs.Slab.PtrMap.Holes.{bucket_delete-set_at}
use allocators_rs.Slab.PtrMap.Run.{Op, put, drop, after, mapped, Valid, get-after}
use allocators_rs.Slab.PtrMap.Represents.{empty}

abbrev ops : List Op
ops = put 8 1 ∷ put 16 2 ∷ put 24 3 ∷ drop 16 ∷ put 40 4 ∷ []

abbrev ops-Valid : Valid empty ops
ops-Valid = (
  omega arith,
  refl,
  (omega arith, refl, (omega arith, refl, (2, omega arith, refl, (omega arith, refl, tt)))),
)

get-after_example : Returns (λ m. get m 24 ≡ found (mapped empty ops 24)) (after (new 8 1 8) ops)
get-after_example = get-after 8 1 8 ops 24 (omega arith) (omega arith) ops-Valid (omega arith)

abbrev chain : Bucket
chain =
    linked ((8, 1) ∷ (16, 2) ∷ (24, 3) ∷ (32, 4) ∷ [])
      (last ((40, 5) ∷ vacant ∷ vacant ∷ vacant ∷ []))

bucket_delete-set_at_example : bucket_delete chain 16 ≡ done (set_at chain 1 vacant)
bucket_delete-set_at_example = bucket_delete-set_at chain 16 1 (refl, refl) refl

-- The number of buckets and of entries.
abbrev sizes : Checked PtrHashMap → Option (ℕ × ℕ)
sizes panic = none
sizes (done m) = some (length m.vec, m.size)

test_grown : sizes (after (new 8 1 8) (put 8 1 ∷ put 16 2 ∷ put 24 3 ∷ [])) ≡ some (4, 3)
unfolding after new insert insert_at grow grow_from split move_slots move_slot pack_slot next_free
    update_first_free set_at bucket_insert next_power_of_two trailing_zeros
test_grown = refl
