-- ===== src/Malloc/Posix.antt =====
-- What `posix_memalign` returns, and what it does to the blocks and to the table of layouts.
use allocators_rs.Base.{
  ℕ, ◌≡◌, ◌⊎◌, true, false, not, ◌||◌, Option, some, none, Checked, panic, Returns, leb,
}
use allocators_rs.Base.Words.{is_power_of_two}
use allocators_rs.Malloc.Interface.{AllocResult, unsupported, Allocator}
use allocators_rs.Malloc
use allocators_rs.Malloc.{Errno, Heap, word_size, einval, enomem, untouched}
use allocators_rs.Malloc.Calls.{Agrees, Given, Kept}

-- The outcomes: a block, or null for size 0; out of memory; a bad alignment.
abbrev pub Outcome : {A : Allocator} → Heap A → ℕ → ℕ → (Errno × Option ℕ) × Heap A → Type 0
Outcome {A} h alignment size ((untouched, some p), k) =
    Agrees k
    × (((p ≡ 0) × (size ≡ 0) × Kept (A.blocks h.heap) (A.blocks k.heap))
        ⊎ Given (A.blocks h.heap) (A.blocks k.heap) size alignment p)
Outcome {A} h alignment size ((enomem, none), k) =
    Agrees k × Kept (A.blocks h.heap) (A.blocks k.heap)
Outcome h alignment size ((einval, none), k) =
    (k ≡ h) × ((leb alignment word_size || not (is_power_of_two alignment)) ≡ true)
Outcome h alignment size ((untouched, none), k) = true ≡ false
Outcome h alignment size ((enomem, some p), k) = true ≡ false
Outcome h alignment size ((einval, some p), k) = true ≡ false

-- An abort if the allocator refuses the layout as unsupported, and else an outcome.
abbrev pub Answered :
    {A : Allocator} → Heap A → ℕ → ℕ → AllocResult → Checked ((Errno × Option ℕ) × Heap A) → Type 0
Answered {A} h alignment size answer call =
    ((answer ≡ unsupported) × (call ≡ panic)) ⊎ Returns (Outcome h alignment size) call
