-- ===== src/Bsalloc.antt =====
-- bsalloc/src/bsalloc.rs: a cache of blocks of two sizes in front of the allocator of mappings, which
-- is that of mmap-alloc/src/lib.rs on the system of Mmap/System. Threads share the caches, and a step
-- of a thread is one atomic swap, or one call of the allocator of mappings. What the random number
-- generator returns is an argument of each call.
pub mod Lists
pub mod Owners
pub mod Reached
pub mod Steps
pub mod Waiting
mod Tests
use allocators_rs.Base.{
  ℕ, zero, suc, ◌+◌, ◌*◌, ◌/◌, ◌%◌, ◌^◌, ◌≡◌, Option, some, none, List, [], ◌∷◌, get_elem?, set,
  replicate, Checked, done, panic, ltb, ◌==◌, if◌then◌else◌,
}
use allocators_rs.Base.Words.{usize_mod}
use allocators_rs.Slab.Layout.{MemLayout}
use allocators_rs.Malloc.Interface.{AllocResult, ok, exhausted, unsupported}
use allocators_rs.Mmap
use allocators_rs.Mmap.{MapAlloc}
use allocators_rs.Mmap.System.{Os}

-- The caches by the fields of `GlobalAllocator`; `small_objs` is a `large::Cache`, which has more
-- slots.
pub data Kind : Type 0 where
  small_objs : Kind
  large_objs : Kind

abbrev pub cache_size : Kind → ℕ
cache_size small_objs = 8
cache_size large_objs = 4

abbrev pub patience : Kind → ℕ
patience k = cache_size k / 4

abbrev pub object_size : Kind → ℕ
object_size small_objs = 2 ^ 10
object_size large_objs = 18 * 2 ^ 10

-- Where a thread is: between calls, before a round of a loop over cache slots, or before a call of the
-- allocator of mappings for a size that is not cached.
pub data Task : Type 0 where
  idle : Task
  allocating : Kind → (size cur_slot stride rounds : ℕ) → Task
  freeing : Kind → (cur_ptr cur_slot stride rounds : ℕ) → Task
  mapping : (size : ℕ) → Task
  unmapping : (ptr size : ℕ) → Task

-- The heads of `Cache::alloc` and `Cache::free`, up to their loops.
unfoldable pub enter_alloc : Kind → (size start : ℕ) → Task
enter_alloc k size start =
    let cur_slot = start % cache_size k in
    allocating k size cur_slot (cur_slot * 2 + 1) (patience k)

unfoldable pub enter_free : Kind → (item start : ℕ) → Task
enter_free k item start =
    let cur_slot = start % cache_size k in freeing k item cur_slot (cur_slot * 2 + 1) (patience k)

-- `GlobalAllocator::alloc` and `GlobalAllocator::free`, up to the first step.
unfoldable pub alloc : (size start : ℕ) → Task
alloc size start =
    if ltb size (object_size small_objs)
    then enter_alloc small_objs size start
    else if ltb size (object_size large_objs)
    then enter_alloc large_objs size start
    else mapping size

unfoldable pub free : (item size start : ℕ) → Task
free item size start =
    if ltb size (object_size small_objs)
    then enter_free small_objs item start
    else if ltb size (object_size large_objs)
    then enter_free large_objs item start
    else unmapping item size

pub data Event : Type 0 where
  call_alloc : (t size start : ℕ) → Event
  call_free : (t i start : ℕ) → Event
  steps : (t : ℕ) → Event

abbrev pub remove_at {ℓ} : {A : Type ℓ} → List A → ℕ → List A
remove_at [] i = []
remove_at (x ∷ xs) zero = xs
remove_at (x ∷ xs) (suc i) = x ∷ remove_at xs i

-- Null is 0. `held` are the blocks that callers have, with the sizes they asked for, and `tasks` are
-- the threads.
pub record GlobalAllocator (O : Os) : Type 0 where
  pub small_slots : List ℕ
  pub large_slots : List ℕ
  pub sys : O.State
  pub held : List (ℕ × ℕ)
  pub tasks : List Task

module _ (O : Os) (ma : MapAlloc) where
  -- With `n` threads.
  unfoldable pub new : O.State → (n : ℕ) → GlobalAllocator O
  new s n = record {
    small_slots = replicate (cache_size small_objs) 0;
    large_slots = replicate (cache_size large_objs) 0;
    sys = s;
    held = [];
    tasks = replicate n idle;
  }

  abbrev pub slots_of : Kind → GlobalAllocator O → List ℕ
  slots_of small_objs g = g.small_slots
  slots_of large_objs g = g.large_slots

  abbrev pub with_slots : Kind → List ℕ → GlobalAllocator O → GlobalAllocator O
  with_slots k l g = record g {
    small_slots = elim k [ small_objs ↦ l | large_objs ↦ g.small_slots ];
    large_slots = elim k [ small_objs ↦ g.large_slots | large_objs ↦ l ];
  }

  -- The caller gets the block.
  unfoldable pub return_block : (p size : ℕ) → GlobalAllocator O → GlobalAllocator O
  return_block p size g = record g { held = (p, size) ∷ g.held }

  unfoldable pub mapped_block :
      (size : ℕ)
      → GlobalAllocator O
      → Checked (AllocResult × O.State)
      → Checked (Task × GlobalAllocator O)
  mapped_block size g (done (ok p, s)) = done (idle, return_block p size (record g { sys = s }))
  mapped_block size g (done (exhausted, s)) = done (idle, record g { sys = s })
  mapped_block size g (done (unsupported, s)) = done (idle, record g { sys = s })
  mapped_block size g panic = panic

  -- `ma.alloc`, with `Layout::from_size_align(bytes, 1)`.
  unfoldable pub map_block :
      (bytes size : ℕ) → GlobalAllocator O → Checked (Task × GlobalAllocator O)
  map_block bytes size g =
      mapped_block size g (Mmap.alloc O ma g.sys (record { size = bytes; align = 1 }))

  unfoldable pub unmapped_block :
      GlobalAllocator O → Checked O.State → Checked (Task × GlobalAllocator O)
  unmapped_block g (done s) = done (idle, record g { sys = s })
  unmapped_block g panic = panic

  unfoldable pub unmap_block :
      (p bytes : ℕ) → GlobalAllocator O → Checked (Task × GlobalAllocator O)
  unmap_block p bytes g =
      unmapped_block g (Mmap.dealloc O ma g.sys p (record { size = bytes; align = 1 }))

  -- A round of the loop of `Cache::alloc`, which swaps null into the slot and gets `p`.
  unfoldable pub alloc_round :
      Kind → (size cur_slot stride rounds p : ℕ) → GlobalAllocator O → Task × GlobalAllocator O
  alloc_round k size cur_slot stride rounds p g =
      let g1 = with_slots k (set (slots_of k g) cur_slot 0) g in
      if p == 0
      then (allocating k size ((cur_slot + stride) % cache_size k) stride rounds, g1)
      else (idle, return_block p size g1)

  -- A round of the loop of `Cache::free`, which swaps the block into the slot and gets `p`.
  unfoldable pub free_round :
      Kind → (cur_ptr cur_slot stride rounds p : ℕ) → GlobalAllocator O → Task × GlobalAllocator O
  free_round k cur_ptr cur_slot stride rounds p g =
      let g1 = with_slots k (set (slots_of k g) cur_slot cur_ptr) g in
      if p == 0
      then (idle, g1)
      else (freeing k p ((cur_slot + stride) % cache_size k) stride rounds, g1)

  -- One step of a thread. A slot outside the cache is undefined in the code.
  unfoldable pub step : Task → GlobalAllocator O → Checked (Task × GlobalAllocator O)
  step idle g = done (idle, g)
  step (allocating k size cur_slot stride zero) g = map_block (object_size k) size g
  step (allocating k size cur_slot stride (suc rounds)) g =
      elim (get_elem? (slots_of k g) cur_slot) [
        | none ↦ panic
        | some p ↦ done (alloc_round k size cur_slot stride rounds p g)
      ]
  step (freeing k cur_ptr cur_slot stride zero) g = unmap_block cur_ptr (object_size k) g
  step (freeing k cur_ptr cur_slot stride (suc rounds)) g =
      elim (get_elem? (slots_of k g) cur_slot) [
        | none ↦ panic
        | some p ↦ done (free_round k cur_ptr cur_slot stride rounds p g)
      ]
  step (mapping size) g = map_block size size g
  step (unmapping ptr size) g = unmap_block ptr size g

  unfoldable pub resumed : ℕ → Checked (Task × GlobalAllocator O) → Checked (GlobalAllocator O)
  resumed t (done (task, g)) = done (record g { tasks = set g.tasks t task })
  resumed t panic = panic

  -- Thread `t` takes a step.
  unfoldable pub continue : ℕ → GlobalAllocator O → Checked (GlobalAllocator O)
  continue t g = elim (get_elem? g.tasks t) [ none ↦ done g | some task ↦ resumed t (step task g) ]

  -- What happens to the allocator: a thread between calls begins one, or a thread takes a step. A call
  -- of `free` is for a block that a caller has, with the size asked for.
  unfoldable pub begin_alloc :
      (t size start : ℕ) → Option Task → GlobalAllocator O → GlobalAllocator O
  begin_alloc t size start (some idle) g = record g { tasks = set g.tasks t (alloc size start) }
  begin_alloc t size start (some (allocating k size' c st r)) g = g
  begin_alloc t size start (some (freeing k p c st r)) g = g
  begin_alloc t size start (some (mapping size')) g = g
  begin_alloc t size start (some (unmapping p size')) g = g
  begin_alloc t size start none g = g

  unfoldable pub begin_free :
      (t i start : ℕ) → Option Task → Option (ℕ × ℕ) → GlobalAllocator O → GlobalAllocator O
  begin_free t i start (some idle) (some (ptr, size)) g = record g {
    held = remove_at g.held i;
    tasks = set g.tasks t (free ptr size start);
  }
  begin_free t i start (some idle) none g = g
  begin_free t i start (some (allocating k size' c st r)) b g = g
  begin_free t i start (some (freeing k p c st r)) b g = g
  begin_free t i start (some (mapping size')) b g = g
  begin_free t i start (some (unmapping p size')) b g = g
  begin_free t i start none b g = g

  unfoldable pub exec : Event → GlobalAllocator O → Checked (GlobalAllocator O)
  exec (call_alloc t size start) g = done (begin_alloc t size start (get_elem? g.tasks t) g)
  exec (call_free t i start) g =
      done (begin_free t i start (get_elem? g.tasks t) (get_elem? g.held i) g)
  exec (steps t) g = continue t g

  unfoldable pub run : List Event → Checked (GlobalAllocator O) → Checked (GlobalAllocator O)
  run [] c = c
  run (e ∷ es) (done g) = run es (exec e g)
  run (e ∷ es) panic = panic
