-- ===== src/Bsalloc/Reached.antt =====
-- The owners of the blocks through every interleaving of the threads.
use allocators_rs.Base.{
  ℕ, ◌+◌, ◌^◌, ◌<◌, ◌≡◌, refl, sym, ap, subst, Option, some, none, List, [], ◌∷◌, get_elem?, set,
  All, arith, Checked, done, Returns, returns, Returns-map, ==_ne, ltb, Bool-cases, inl, inr,
  Option-cases,
}
use allocators_rs.Base.Words.{usize_mod}
use allocators_rs.Base.Sums.{sum, sum-replicate}
use allocators_rs.Mmap.{MapAlloc}
use allocators_rs.Mmap.System.{Os}
use allocators_rs.Mmap.Requests.{Paged}
use allocators_rs.Bsalloc.{
  small_objs, large_objs, object_size, Task, idle, allocating, freeing, mapping, unmapping,
  GlobalAllocator, Event, call_alloc, call_free, steps, new, alloc, free, enter_alloc, enter_free,
  begin_alloc, begin_free, step, resumed, continue, exec, run,
}
use allocators_rs.Bsalloc.Owners.{
  block_size, mapped_with, here, in_hand, kept, TaskOk, Lengths, Shared, After, step-After,
  next_slot,
}
use allocators_rs.Bsalloc.Lists.{
  remove_at-sum, set-sum, All-remove_at, All-at, All-set, All-replicate,
}

-- The owners of a block.
abbrev pub owners : (O : Os) → MapAlloc → (p n : ℕ) → GlobalAllocator O → ℕ
owners O ma p n g = kept O ma p n g + sum (in_hand O ma p n) g.tasks

-- A call for a size that does not come within a page of the largest word.
abbrev pub Callable : Os → Event → Type 0
Callable O (call_alloc t size start) = size + 2 ^ O.log_pagesize < usize_mod
Callable O (call_free t i start) = Unit {0}
Callable O (steps t) = Unit {0}

module _ (O : Os) (ma : MapAlloc) (s0 : O.State) where
  pub record Owned (g : GlobalAllocator O) : Type 0 where
    pub lengths : Lengths O ma g
    pub tasks_ok : All (TaskOk O ma) g.tasks
    pub held_ok : All (λ (b : ℕ × ℕ). 0 < b.0) g.held
    pub balance :
        (p n : ℕ)
        → 0 < p
        → owners O ma p n g + mapped_with (O.regions s0 p) n ≡ mapped_with (O.regions g.sys p) n

  -- The other threads, and the mappings that were there before.
  others : GlobalAllocator O → ℕ → (p n : ℕ) → ℕ
  others g t p n = sum (in_hand O ma p n) (set g.tasks t idle) + mapped_with (O.regions s0 p) n

  to_Shared :
      (g : GlobalAllocator O) (t : ℕ) (task : Task)
      → get_elem? g.tasks t ≡ some task
      → Owned g
      → Shared O ma (others g t) task g
  unfolding others
  to_Shared g t task e inv = record {
    lengths = inv.lengths;
    task_ok = All-at (TaskOk O ma) g.tasks t task e inv.tasks_ok;
    held_ok = inv.held_ok;
    balance = λ p n pos.
        omega (arith, inv.balance p n pos, set-sum (in_hand O ma p n) g.tasks t task idle e);
  }

  from_Shared :
      (g g' : GlobalAllocator O) (t : ℕ) (task task' : Task)
      → get_elem? g.tasks t ≡ some task
      → All (TaskOk O ma) g.tasks
      → g'.tasks ≡ g.tasks
      → Shared O ma (others g t) task' g'
      → Owned (record g' { tasks = set g'.tasks t task' })
  unfolding others
  from_Shared g g' t task task' e oks same inv = record {
    lengths = inv.lengths;
    tasks_ok =
        All-set (TaskOk O ma) g'.tasks t task' inv.task_ok
          (subst (All (TaskOk O ma)) (sym same) oks);
    held_ok = inv.held_ok;
    balance = λ p n pos. omega (
      arith,
      inv.balance p n pos,
      ap (λ l. sum (in_hand O ma p n) (set l t task')) same,
      set-sum (in_hand O ma p n) g.tasks t task idle e,
      set-sum (in_hand O ma p n) g.tasks t task task' e,
    );
  }

  resumed-Owned :
      (g : GlobalAllocator O) (t : ℕ) (task : Task) (c : Checked (Task × GlobalAllocator O))
      → get_elem? g.tasks t ≡ some task
      → All (TaskOk O ma) g.tasks
      → (paged : Paged O ma) → Returns (After O ma (others g t) paged g.tasks) c
      → Returns Owned (resumed O ma t c)
  unfolding resumed
  resumed-Owned g t task c e oks paged (returns {a = (task', g')} (inv, same)) =
      returns (from_Shared g g' t task task' e oks same inv)

  continue-Owned :
      (g : GlobalAllocator O) (t : ℕ) → Paged O ma → Owned g → Returns Owned (continue O ma t g)
  unfolding continue
  continue-Owned g t paged inv = elim (Option-cases (get_elem? g.tasks t)) [
    | inl e ↦ rw (continue, e) (returns inv)
    | inr (task, e) ↦
        rw (continue, e)
          (resumed-Owned g t task (step O ma task g) e inv.tasks_ok paged
            (step-After O ma (others g t) paged task g (to_Shared g t task e inv)))
  ]

  -- A call of `alloc` takes no block, and one of `free` takes that of the caller.
  TaskOk-alloc :
      (size start : ℕ) → size + 2 ^ O.log_pagesize < usize_mod → TaskOk O ma (alloc size start)
  unfolding alloc enter_alloc
  TaskOk-alloc size start h = elim (Bool-cases (ltb size (object_size small_objs))) [
    | inl small ↦ rw (alloc, small) (next_slot small_objs start, rw small refl)
    | inr not_small ↦ elim (Bool-cases (ltb size (object_size large_objs))) [
      | inl large ↦
          rw (alloc, not_small, large) (next_slot large_objs start, rw (not_small, large) refl)
      | inr mapped ↦ rw (alloc, not_small, mapped) ((ground arith, h), rw (not_small, mapped) refl)
    ]
  ]

  in_hand-alloc : (p n size start : ℕ) → in_hand O ma p n (alloc size start) ≡ 0
  unfolding alloc enter_alloc
  in_hand-alloc p n size start = elim (Bool-cases (ltb size (object_size small_objs))) [
    | inl small ↦ rw (alloc, small) refl
    | inr not_small ↦ elim (Bool-cases (ltb size (object_size large_objs))) [
      | inl large ↦ rw (alloc, not_small, large) refl
      | inr mapped ↦ rw (alloc, not_small, mapped) refl
    ]
  ]

  TaskOk-free : (ptr size start : ℕ) → 0 < ptr → TaskOk O ma (free ptr size start)
  unfolding free enter_free
  TaskOk-free ptr size start h = elim (Bool-cases (ltb size (object_size small_objs))) [
    | inl small ↦ rw (free, small) (next_slot small_objs start, h)
    | inr not_small ↦ elim (Bool-cases (ltb size (object_size large_objs))) [
      | inl large ↦ rw (free, not_small, large) (next_slot large_objs start, h)
      | inr mapped ↦ rw (free, not_small, mapped) h
    ]
  ]

  in_hand-free :
      (p n ptr size start : ℕ)
      → in_hand O ma p n (free ptr size start) ≡ here O ma p n ptr (block_size size)
  unfolding free enter_free
  in_hand-free p n ptr size start = elim (Bool-cases (ltb size (object_size small_objs))) [
    | inl small ↦ rw (free, small) refl
    | inr not_small ↦ elim (Bool-cases (ltb size (object_size large_objs))) [
      | inl large ↦ rw (free, not_small, large) refl
      | inr mapped ↦ rw (free, not_small, mapped) refl
    ]
  ]

  begin_alloc-Owned :
      (t size start : ℕ) (o : Option Task) (g : GlobalAllocator O)
      → get_elem? g.tasks t ≡ o
      → size + 2 ^ O.log_pagesize < usize_mod
      → Owned g
      → Owned (begin_alloc O ma t size start o g)
  unfolding begin_alloc
  begin_alloc-Owned t size start (some idle) g e fits inv = record {
    lengths = inv.lengths;
    tasks_ok =
        All-set (TaskOk O ma) g.tasks t (alloc size start) (TaskOk-alloc size start fits)
          inv.tasks_ok;
    held_ok = inv.held_ok;
    balance = λ p n pos. omega (
      arith,
      inv.balance p n pos,
      in_hand-alloc p n size start,
      set-sum (in_hand O ma p n) g.tasks t idle (alloc size start) e,
    );
  }
  begin_alloc-Owned t size start (some (allocating k size' c st r)) g e fits inv = inv
  begin_alloc-Owned t size start (some (freeing k p c st r)) g e fits inv = inv
  begin_alloc-Owned t size start (some (mapping size')) g e fits inv = inv
  begin_alloc-Owned t size start (some (unmapping p size')) g e fits inv = inv
  begin_alloc-Owned t size start none g e fits inv = inv

  begin_free-Owned :
      (t i start : ℕ) (o : Option Task) (b : Option (ℕ × ℕ)) (g : GlobalAllocator O)
      → get_elem? g.tasks t ≡ o
      → get_elem? g.held i ≡ b
      → Owned g
      → Owned (begin_free O ma t i start o b g)
  unfolding begin_free
  begin_free-Owned t i start (some idle) (some (ptr, size)) g e f inv = record {
    lengths = inv.lengths;
    tasks_ok =
        All-set (TaskOk O ma) g.tasks t (free ptr size start)
          (TaskOk-free ptr size start
            (All-at (λ (b : ℕ × ℕ). 0 < b.0) g.held i (ptr, size) f inv.held_ok))
          inv.tasks_ok;
    held_ok = All-remove_at (λ (b : ℕ × ℕ). 0 < b.0) g.held i inv.held_ok;
    balance = λ p n pos. omega (
      arith,
      inv.balance p n pos,
      in_hand-free p n ptr size start,
      set-sum (in_hand O ma p n) g.tasks t idle (free ptr size start) e,
      remove_at-sum (λ (b : ℕ × ℕ). here O ma p n b.0 (block_size b.1)) g.held i (ptr, size) f,
    );
  }
  begin_free-Owned t i start (some idle) none g e f inv = inv
  begin_free-Owned t i start (some (allocating k size' c st r)) b g e f inv = inv
  begin_free-Owned t i start (some (freeing k p c st r)) b g e f inv = inv
  begin_free-Owned t i start (some (mapping size')) b g e f inv = inv
  begin_free-Owned t i start (some (unmapping p size')) b g e f inv = inv
  begin_free-Owned t i start none b g e f inv = inv

  pub exec-Owned :
      (e : Event) (g : GlobalAllocator O)
      → Paged O ma
      → Callable O e
      → Owned g
      → Returns Owned (exec O ma e g)
  unfolding exec
  exec-Owned (call_alloc t size start) g paged fits inv =
      returns (begin_alloc-Owned t size start (get_elem? g.tasks t) g refl fits inv)
  exec-Owned (call_free t i start) g paged fits inv =
      returns
        (begin_free-Owned t i start (get_elem? g.tasks t) (get_elem? g.held i) g refl refl inv)
  exec-Owned (steps t) g paged fits inv = continue-Owned g t paged inv

  pub run-Owned :
      (es : List Event) (c : Checked (GlobalAllocator O))
      → Paged O ma
      → All (Callable O) es
      → Returns Owned c
      → Returns Owned (run O ma es c)
  unfolding run
  run-Owned [] c paged fits inv = inv
  run-Owned (e ∷ es) c paged (fit, fits) (returns {a = g} inv) =
      run-Owned es (exec O ma e g) paged fits (exec-Owned e g paged fit inv)

  pub new-Owned : (n : ℕ) → Owned (new O ma s0 n)
  unfolding new
  new-Owned n = record {
    lengths = (refl, refl);
    tasks_ok = All-replicate (TaskOk O ma) n idle tt;
    held_ok = tt;
    balance = λ p k pos.
        let no_block : (b : ℕ) → here O ma p k 0 b ≡ 0 =
          λ b. rw (==_ne 0 p (λ e. omega (arith, e, pos))) refl in
        omega (
          arith,
          sum-replicate (in_hand O ma p k) n idle refl,
          sum-replicate (λ q. here O ma p k q (object_size small_objs)) 8 0
              (no_block (object_size small_objs)),
          sum-replicate (λ q. here O ma p k q (object_size large_objs)) 4 0
              (no_block (object_size large_objs)),
        );
  }

-- Blocks are neither lost nor given out twice, in every interleaving. From new caches with any number of
-- threads, after any sequence of calls, in which sizes do not come within a page of the largest word and
-- callers free what they have, and of steps of the threads, nothing has panicked and no slot outside of
-- a cache was used, and for every address and number of pages, the owners of such a block there, which
-- are cache slots, threads inside `free` and callers, are one if the system has such a mapping there that
-- it did not have at the start, and none otherwise.
pub run-owners :
    (O : Os) (ma : MapAlloc) (s0 : O.State) (n_threads : ℕ) (events : List Event) (p n : ℕ)
    → Paged O ma
    → All (Callable O) events
    → 0 < p
    → Returns
        (λ g.
          owners O ma p n g + mapped_with (O.regions s0 p) n ≡ mapped_with (O.regions g.sys p) n)
        (run O ma events (done (new O ma s0 n_threads)))
run-owners O ma s0 n_threads events p n paged fits pos =
    Returns-map (λ g inv. inv.balance p n pos)
      (run-Owned O ma s0 events (done (new O ma s0 n_threads)) paged fits
        (returns (new-Owned O ma s0 n_threads)))
