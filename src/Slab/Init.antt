-- ===== src/Slab/Init.antt =====
-- Object initialisation, slab-alloc/src/init.rs: the trait `InitSystem`, and its two
-- implementations. The user's `Initializer` and `drop_in_place` act on memory that no code of the
-- crate reads, so `init` and `drop` say whether they are called on the object.
pub mod Packed
use allocators_rs.Base.{ℕ, ◌%◌, ◌<◌, ◌≡◌, refl, Bool, false}
use allocators_rs.Base.Words.{usize_mod}

-- What the slabs use of an initialisation system: the operations, and the one law that the
-- documentation of `pack` promises.
pub record InitSystem : Type 1 where
  pub Status : Type 0
  pub status_initialized : Status
  pub status_uninitialized : Status
  pub min_align : ℕ
  pub pack : ℕ → Status → ℕ
  pub unpack_status : ℕ → Status
  pub unpack_ptr : ℕ → ℕ
  pub init : ℕ → Status → Bool
  pub drop : ℕ → Status → Bool
  pub unpack-pack :
      (p : ℕ) (s : Status)
      → p < usize_mod
      → p % min_align ≡ 0
      → (unpack_ptr (pack p s) ≡ p) × (unpack_status (pack p s) ≡ s)

-- `NopInitSystem`: no status is kept, and nothing is initialised or dropped.
abbrev pub nop_init : InitSystem
nop_init = record {
  Status = Unit {0};
  status_initialized = tt;
  status_uninitialized = tt;
  min_align = 1;
  pack = λ ptr status. ptr;
  unpack_status = λ packed. tt;
  unpack_ptr = λ packed. packed;
  init = λ obj status. false;
  drop = λ obj status. false;
  unpack-pack = λ p s h aligned. (refl, refl);
}
