-- ===== src/Slab/Init/Packed.antt =====
-- `InitInitSystem` of slab-alloc/src/init.rs: the lowest bit of the pointer holds the status.
use allocators_rs.Base.{
  ℕ, ◌+◌, ◌-◌, ◌/◌, ◌*◌, ◌%◌, ◌<◌, ◌≡◌, Bool, true, false, not, bit_and, bit_or, arith, ◌==◌,
  if◌then◌else◌,
}
use allocators_rs.Base.Words.{usize_mod}
use allocators_rs.Base.Bits.{or_one, and_one, and_not_mask, or_zero_lem}
use allocators_rs.Slab.Init.{InitSystem}

unfoldable pub pack : ℕ → Bool → ℕ
pack ptr status = bit_or ptr (if status then 1 else 0)

unfoldable pub unpack_status : ℕ → Bool
unpack_status packed = bit_and packed 1 == 1

unfoldable pub unpack_ptr : ℕ → ℕ
unpack_ptr packed = bit_and packed (usize_mod - 1 - 1)

unfoldable pub init : ℕ → Bool → Bool
init obj status = not status

unfoldable pub drop : ℕ → Bool → Bool
drop obj status = status

-- A packed pointer that is aligned to 2 gives back the pointer and its status.
pub unpack-pack :
    (p : ℕ) (s : Bool)
    → p < usize_mod
    → p % 2 ≡ 0
    → (unpack_ptr (pack p s) ≡ p) × (unpack_status (pack p s) ≡ s)
unfolding pack unpack_status unpack_ptr
unpack-pack p true h even =
    let e : p / 2 * 2 + 1 ≡ p + 1 = omega arith in
    rw (or_one p, e, and_not_mask 1 (p + 1) (omega arith) (omega arith), and_one (p + 1))
      (omega arith, ground arith)
unpack-pack p false h even =
    rw (or_zero_lem p, and_not_mask 1 p (omega arith) h, and_one p) (omega arith, ground arith)

abbrev pub init_init : InitSystem
init_init = record {
  Status = Bool;
  status_initialized = true;
  status_uninitialized = false;
  min_align = 2;
  pack = pack;
  unpack_status = unpack_status;
  unpack_ptr = unpack_ptr;
  init = init;
  drop = drop;
  unpack-pack = unpack-pack;
}
