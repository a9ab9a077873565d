-- ===== src/Malloc/Resize.antt =====
-- What `realloc` does to the blocks and to the table of layouts.
use allocators_rs.Base.{ℕ, ◌<◌, ◌≤◌, ◌%◌, ◌≡◌, ◌≢◌, ◌⊎◌, some, none, Returns, Checked, panic}
use allocators_rs.Slab.Layout.{MemLayout}
use allocators_rs.Malloc.Interface.{AllocResult, unsupported, Allocator}
use allocators_rs.Malloc
use allocators_rs.Malloc.{Heap, min_align}
use allocators_rs.Malloc.Calls.{Agrees, Kept}

-- What is at `q`: a block large enough, with its layout in the table.
abbrev pub Holds : {A : Allocator} → Heap A → ℕ → ℕ → Type 0
Holds {A} k size q =
    (0 < q)
    × (q % min_align ≡ 0)
    × ((l : MemLayout) × (A.blocks k.heap q ≡ some l) × (k.layouts q ≡ some l) × (size ≤ l.size))

-- The block could not be resized; it was, in place; or it moved, and its old layout is still there.
abbrev pub Realloced : {A : Allocator} → Heap A → ℕ → ℕ → MemLayout → ℕ × Heap A → Type 0
Realloced {A} h p size l (q, k) =
    ((q ≡ 0) × Agrees k × Kept (A.blocks h.heap) (A.blocks k.heap))
    ⊎ (((q ≡ p) × Agrees k × Holds k size q)
        ⊎ ((q ≢ p) × Holds k size q × (A.blocks k.heap p ≡ none) × (k.layouts p ≡ some l)))

-- An abort if the allocator refuses the new layout as unsupported, and else one of these.
abbrev pub Answered :
    {A : Allocator} → Heap A → ℕ → ℕ → MemLayout → AllocResult → Checked (ℕ × Heap A) → Type 0
Answered {A} h p size l answer call =
    ((answer ≡ unsupported) × (call ≡ panic)) ⊎ Returns (Realloced h p size l) call
