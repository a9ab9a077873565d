-- ===== src/Bsalloc/Tests.antt =====
-- Two threads of bsalloc on a system with room for one mapping.
use allocators_rs.Base.{
  All, ℕ, ◌+◌, ◌≡◌, refl, true, false, Option, some, none, List, [], ◌∷◌, arith, Checked, done,
  panic, Returns,
}
use allocators_rs.Mmap.{MapAlloc}
use allocators_rs.Mmap.OneMapping.{one_mapping, take}
use allocators_rs.Mmap.System.{pages}
use allocators_rs.Bsalloc.{
  GlobalAllocator, Event, call_alloc, call_free, steps, Task, idle, new, run,
}
use allocators_rs.Bsalloc.Owners.{mapped_with}
use allocators_rs.Bsalloc.Reached.{Callable, owners, run-owners}
use allocators_rs.Bsalloc.Steps.{task_of}
use allocators_rs.Bsalloc.Waiting.{run-idle}
use allocators_rs.Mmap
use allocators_rs.Bsalloc

abbrev ma : MapAlloc
ma = record {
  pagesize = 4096;
  read = true;
  write = true;
  exec = false;
  perms = 3;
  commit = false;
  obj_size = 4096;
}

-- Thread 0 allocates and frees while thread 1 begins to allocate.
abbrev history : List Event
history =
    call_alloc 0 100 0
    ∷ steps 0
    ∷ steps 0
    ∷ steps 0
    ∷ call_alloc 1 200 3
    ∷ steps 1
    ∷ call_free 0 0 0
    ∷ steps 0
    ∷ []

history-Callable : All (Callable one_mapping) history
history-Callable = (omega arith, (tt, (tt, (tt, (omega arith, (tt, (tt, (tt, tt))))))))

run-owners_example :
    Returns
      (λ g.
        owners one_mapping ma 4096 1 g + mapped_with (one_mapping.regions none 4096) 1
        ≡ mapped_with (one_mapping.regions g.sys 4096) 1)
      (run one_mapping ma history (done (new one_mapping ma none 2)))
run-owners_example =
    run-owners one_mapping ma none 2 history 4096 1 refl history-Callable (omega arith)

run-idle_example :
    Returns
      (λ g. task_of one_mapping 1 g ≡ idle)
      (run one_mapping ma
        (steps 1 ∷ steps 0 ∷ steps 1 ∷ call_alloc 0 50 2 ∷ steps 1 ∷ [])
        (run one_mapping ma history (done (new one_mapping ma none 2))))
run-idle_example =
    run-idle one_mapping ma none 2 history
      (steps 1 ∷ steps 0 ∷ steps 1 ∷ call_alloc 0 50 2 ∷ steps 1 ∷ []) 1 refl history-Callable
      (tt, (tt, (tt, (omega arith, (tt, tt)))))
      (tt, (tt, (tt, ((λ e. absurd (omega (arith, e))), (tt, tt))))) (omega arith)

abbrev held_by_callers : Checked (GlobalAllocator one_mapping) → Option (List (ℕ × ℕ))
held_by_callers panic = none
held_by_callers (done g) = some g.held

-- The block that thread 0 freed is found in the cache.
test_reused :
    held_by_callers (
      run one_mapping ma
        (call_alloc 0 100 0 ∷ steps 0 ∷ [])
        (run one_mapping ma history (done (new one_mapping ma none 2))))
    ≡ some ((4096, 100) ∷ [])
unfolding run Bsalloc.exec Bsalloc.begin_alloc Bsalloc.begin_free Bsalloc.continue Bsalloc.resumed
    Bsalloc.step Bsalloc.alloc Bsalloc.free Bsalloc.enter_alloc Bsalloc.enter_free
    Bsalloc.alloc_round Bsalloc.free_round Bsalloc.map_block Bsalloc.mapped_block
    Bsalloc.return_block new Mmap.alloc Mmap.map Mmap.mapping Mmap.ok_or_exhausted
    Mmap.next_multiple take pages
test_reused = refl
