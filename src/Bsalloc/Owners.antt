-- ===== src/Bsalloc/Owners.antt =====
-- Every mapping that bsalloc made has exactly one owner: a cache slot, a thread in `Cache::free`, or a
-- caller. A step of a thread passes blocks on.
use native.Mathlib.Nat.{one-le-pow, pow-le-pow_right}
use allocators_rs.Base.{
  ℕ, zero, suc, ◌+◌, ◌%◌, ◌^◌, ◌<◌, ◌≤◌, ◌≡◌, ◌≢◌, refl, sym, ap, ◌∙◌, Option, some, none, List,
  length, length-set, get_or, set, All, arith, Checked, Returns, returns, ◌==◌, ==_ne, ==_self,
  if◌then◌else◌, ltb, ℕ_discrete,
}
use allocators_rs.Base.Sums.{sum, sum-set, get_elem?-get_or}
use allocators_rs.Malloc.Interface.{AllocResult, ok, exhausted, unsupported}
use allocators_rs.Mmap.{MapAlloc}
use allocators_rs.Mmap.System.{Os, pages}
use allocators_rs.Mmap.Requests.{Paged, Sizable, Requested, alloc-Requested, dealloc-regions}
use allocators_rs.Bsalloc.{
  Kind, small_objs, large_objs, cache_size, object_size, Task, idle, allocating, freeing, mapping,
  unmapping, GlobalAllocator, slots_of, with_slots, return_block, mapped_block, map_block,
  unmapped_block, unmap_block, alloc_round, free_round, step,
}

-- The size of the block that serves a request.
abbrev pub block_size : ℕ → ℕ
block_size size =
    if ltb size (object_size small_objs)
    then object_size small_objs
    else if ltb size (object_size large_objs)
    then object_size large_objs
    else size

-- Whether the system has a mapping of `n` pages there.
abbrev pub mapped_with : Option ℕ → ℕ → ℕ
mapped_with none n = 0
mapped_with (some j) n = if j == n then 1 else 0

mapped_with-some : (o : Option ℕ) (n : ℕ) → 0 < mapped_with o n → o ≡ some n
mapped_with-some none n h = absurd (omega (arith, h))
mapped_with-some (some j) n h = ap some (ground (arith, h))

pub next_slot : (k : Kind) (x : ℕ) → x % cache_size k < cache_size k
next_slot small_objs x = omega arith
next_slot large_objs x = omega arith

module _ (O : Os) (ma : MapAlloc) where
  -- Whether a block of some size at `q` is the one of `n` pages at `p`.
  abbrev pub here : (p n : ℕ) → (q bytes : ℕ) → ℕ
  here p n q bytes = if q == p then mapped_with (some (pages (2 ^ O.log_pagesize) bytes)) n else 0

  here_ne : (p n q bytes : ℕ) → q ≢ p → here p n q bytes ≡ 0
  here_ne p n q bytes ne = rw (==_ne q p ne) refl

  here_self :
      (p n bytes : ℕ) → here p n p bytes ≡ mapped_with (some (pages (2 ^ O.log_pagesize) bytes)) n
  here_self p n bytes = rw (==_self p) refl

  null : (p n bytes : ℕ) → 0 < p → here p n 0 bytes ≡ 0
  null p n bytes pos = here_ne p n 0 bytes (λ e. omega (arith, e, pos))

  abbrev pub in_slots : (p n : ℕ) → Kind → List ℕ → ℕ
  in_slots p n k l = sum (λ q. here p n q (object_size k)) l

  abbrev pub in_hand : (p n : ℕ) → Task → ℕ
  in_hand p n idle = 0
  in_hand p n (allocating k size cur_slot stride rounds) = 0
  in_hand p n (freeing k cur_ptr cur_slot stride rounds) = here p n cur_ptr (object_size k)
  in_hand p n (mapping size) = 0
  in_hand p n (unmapping ptr size) = here p n ptr size

  abbrev pub in_held : (p n : ℕ) → List (ℕ × ℕ) → ℕ
  in_held p n l = sum (λ (b : ℕ × ℕ). here p n b.0 (block_size b.1)) l

  -- The owners other than threads.
  abbrev pub kept : (p n : ℕ) → GlobalAllocator O → ℕ
  kept p n g =
      in_slots p n small_objs g.small_slots
      + in_slots p n large_objs g.large_slots
      + in_held p n g.held

  -- What a thread needs to go on.
  abbrev pub TaskOk : Task → Type 0
  TaskOk idle = Unit {0}
  TaskOk (allocating k size cur_slot stride rounds) =
      (cur_slot < cache_size k) × (block_size size ≡ object_size k)
  TaskOk (freeing k cur_ptr cur_slot stride rounds) = (cur_slot < cache_size k) × (0 < cur_ptr)
  TaskOk (mapping size) = Sizable O size × (block_size size ≡ size)
  TaskOk (unmapping ptr size) = 0 < ptr

  abbrev pub Lengths : GlobalAllocator O → Type 0
  Lengths g = (length g.small_slots ≡ 8) × (length g.large_slots ≡ 4)

  slots_length :
      (k : Kind) (g : GlobalAllocator O) → Lengths g → length (slots_of O ma k g) ≡ cache_size k
  slots_length small_objs g (e, e') = e
  slots_length large_objs g (e, e') = e'

  with_slots-Lengths :
      (k : Kind) (l : List ℕ) (g : GlobalAllocator O)
      → Lengths g
      → length l ≡ cache_size k
      → Lengths (with_slots O ma k l g)
  with_slots-Lengths small_objs l g (e, e') h = (h, e')
  with_slots-Lengths large_objs l g (e, e') h = (e, h)

  kept-with_slots :
      (p n : ℕ) (k : Kind) (l : List ℕ) (g : GlobalAllocator O)
      → kept p n (with_slots O ma k l g) + in_slots p n k (slots_of O ma k g)
        ≡ kept p n g + in_slots p n k l
  kept-with_slots p n small_objs l g = omega arith
  kept-with_slots p n large_objs l g = omega arith

  -- With the other owners `F`, every block has one owner if it is mapped, and none otherwise.
  pub record Shared (F : (p n : ℕ) → ℕ) (task : Task) (g : GlobalAllocator O) : Type 0 where
    pub lengths : Lengths g
    pub task_ok : TaskOk task
    pub held_ok : All (λ (b : ℕ × ℕ). 0 < b.0) g.held
    pub balance :
        (p n : ℕ)
        → 0 < p
        → kept p n g + in_hand p n task + F p n ≡ mapped_with (O.regions g.sys p) n

  module _ (F : (p n : ℕ) → ℕ) (paged : Paged O ma) where
    -- What a step of a thread leaves.
    abbrev pub After : List Task → Task × GlobalAllocator O → Type 0
    After tasks (task, g) = Shared F task g × (g.tasks ≡ tasks)

    mapped-After :
        (task : Task) (g : GlobalAllocator O) (bytes size : ℕ) (c : Checked (AllocResult × O.State))
        → Shared F task g
        → ((p n : ℕ) → in_hand p n task ≡ 0)
        → block_size size ≡ bytes
        → Returns (Requested O g.sys (record { size = bytes; align = 1 })) c
        → Returns (After g.tasks) (mapped_block O ma size g c)
    unfolding mapped_block return_block
    mapped-After task g bytes size c inv empty fits
          (returns {a = (ok q, s)} (le, al, (pos, whole, below, fresh, new, same))) =
        returns (
          record {
            lengths = inv.lengths;
            task_ok = tt;
            held_ok = (pos, inv.held_ok);
            balance = λ p n pos'. elim (ℕ_discrete q p) [
              | yes e ↦
                  let gains : here p n q (block_size size)
                      ≡ mapped_with (some (pages (2 ^ O.log_pagesize) bytes)) n =
                    ap (λ x. here p n x (block_size size)) e
                    ∙ here_self p n (block_size size)
                    ∙ ap (λ b. mapped_with (some (pages (2 ^ O.log_pagesize) b)) n) fits in
                  let before : mapped_with (O.regions g.sys p) n ≡ 0 =
                    ap (λ o. mapped_with o n) (ap (O.regions g.sys) (sym e) ∙ fresh) in
                  let after : mapped_with (O.regions s p) n
                      ≡ mapped_with (some (pages (2 ^ O.log_pagesize) bytes)) n =
                    ap (λ o. mapped_with o n) (ap (O.regions s) (sym e) ∙ new) in
                  omega (arith, inv.balance p n pos', empty p n, gains, before, after)
              | no ne ↦ omega (
                arith,
                inv.balance p n pos',
                empty p n,
                here_ne p n q (block_size size) ne,
                ap (λ o. mapped_with o n) (same p (λ e. ne (sym e))),
              )
            ];
          },
          refl,
        )
    mapped-After task g bytes size c inv empty fits (returns {a = (exhausted, s)} (le, same)) =
        returns (
          record {
            lengths = inv.lengths;
            task_ok = tt;
            held_ok = inv.held_ok;
            balance = λ p n pos.
                omega (arith, inv.balance p n pos, empty p n, ap (λ o. mapped_with o n) (same p));
          },
          refl,
        )
    mapped-After task g bytes size c inv empty fits (returns {a = (unsupported, s)} (more, same)) =
        absurd (omega (arith, more, one-le-pow O.log_pagesize 2 (omega arith)))

    unmapped-After :
        (task : Task) (g : GlobalAllocator O) (q bytes : ℕ) (c : Checked O.State)
        → Shared F task g
        → ((p n : ℕ) → in_hand p n task ≡ here p n q bytes)
        → O.regions g.sys q ≡ some (pages (2 ^ O.log_pagesize) bytes)
        → Returns
            (λ t. (O.regions t q ≡ none) × ((y : ℕ) → y ≢ q → O.regions t y ≡ O.regions g.sys y))
            c
        → Returns (After g.tasks) (unmapped_block O ma g c)
    unfolding unmapped_block
    unmapped-After task g q bytes c inv hand there (returns {a = s} (gone, same)) = returns (
      record {
        lengths = inv.lengths;
        task_ok = tt;
        held_ok = inv.held_ok;
        balance = λ p n pos. elim (ℕ_discrete q p) [
          | yes e ↦
              let loses : here p n q bytes
                  ≡ mapped_with (some (pages (2 ^ O.log_pagesize) bytes)) n =
                ap (λ x. here p n x bytes) e ∙ here_self p n bytes in
              let before : mapped_with (O.regions g.sys p) n
                  ≡ mapped_with (some (pages (2 ^ O.log_pagesize) bytes)) n =
                ap (λ o. mapped_with o n) (ap (O.regions g.sys) (sym e) ∙ there) in
              let after : mapped_with (O.regions s p) n ≡ 0 =
                ap (λ o. mapped_with o n) (ap (O.regions s) (sym e) ∙ gone) in
              omega (arith, inv.balance p n pos, hand p n, loses, before, after)
          | no ne ↦ omega (
            arith,
            inv.balance p n pos,
            hand p n,
            here_ne p n q bytes ne,
            ap (λ o. mapped_with o n) (same p (λ e. ne (sym e))),
          )
        ];
      },
      refl,
    )

    -- A block in a thread's hand is mapped.
    in_hand-mapped :
        (task : Task) (g : GlobalAllocator O) (q bytes : ℕ)
        → Shared F task g
        → ((p n : ℕ) → in_hand p n task ≡ here p n q bytes)
        → 0 < q
        → O.regions g.sys q ≡ some (pages (2 ^ O.log_pagesize) bytes)
    in_hand-mapped task g q bytes inv hand pos =
        let n = pages (2 ^ O.log_pagesize) bytes in
        let one : here q n q bytes ≡ 1 =
          here_self q n bytes ∙ ap {B = ℕ} (λ b. if b then 1 else 0) (==_self n) in
        mapped_with-some (O.regions g.sys q) n (omega (arith, inv.balance q n pos, hand q n, one))

    map_block-After :
        (task : Task) (g : GlobalAllocator O) (bytes size : ℕ)
        → Shared F task g
        → ((p n : ℕ) → in_hand p n task ≡ 0)
        → block_size size ≡ bytes
        → Sizable O bytes
        → Returns (After g.tasks) (map_block O ma bytes size g)
    unfolding map_block
    map_block-After task g bytes size inv empty fits sizable =
        mapped-After task g bytes size _ inv empty fits
          (alloc-Requested O ma g.sys (record { size = bytes; align = 1 }) 0 paged sizable refl)

    unmap_block-After :
        (task : Task) (g : GlobalAllocator O) (q bytes : ℕ)
        → Shared F task g
        → ((p n : ℕ) → in_hand p n task ≡ here p n q bytes)
        → 0 < q
        → Returns (After g.tasks) (unmap_block O ma q bytes g)
    unfolding unmap_block
    unmap_block-After task g q bytes inv hand pos =
        let there = in_hand-mapped task g q bytes inv hand pos in
        unmapped-After task g q bytes _ inv hand there
          (dealloc-regions O ma g.sys q (record { size = bytes; align = 1 }) there)

    small_page : 2 ^ O.log_pagesize ≤ 2 ^ 62
    small_page =
        pow-le-pow_right {n = 2} (omega arith) {i = O.log_pagesize} {j = 62}
          (omega (arith, O.log_pagesize-lt))

    object_size-Sizable : (k : Kind) → Sizable O (object_size k)
    object_size-Sizable small_objs = (omega arith, omega (arith, small_page))
    object_size-Sizable large_objs = (omega arith, omega (arith, small_page))

    -- A swap puts `new` into a slot and takes what was there.
    swapped :
        (p n : ℕ) (k : Kind) (g : GlobalAllocator O) (i new : ℕ)
        → i < length (slots_of O ma k g)
        → kept p n (with_slots O ma k (set (slots_of O ma k g) i new) g)
            + here p n (get_or (slots_of O ma k g) i 0) (object_size k)
          ≡ kept p n g + here p n new (object_size k)
    swapped p n k g i new h = omega (
      arith,
      kept-with_slots p n k (set (slots_of O ma k g) i new) g,
      sum-set (λ q. here p n q (object_size k)) (slots_of O ma k g) i new 0 h,
    )

    alloc_round-After :
        (g : GlobalAllocator O) (k : Kind) (size i stride rounds r : ℕ)
        → Shared F (allocating k size i stride r) g
        → After g.tasks (alloc_round O ma k size i stride rounds (get_or (slots_of O ma k g) i 0) g)
    unfolding alloc_round return_block
    alloc_round-After g k size i stride rounds r inv =
        let l = slots_of O ma k g in
        let q = get_or l i 0 in
        let len = slots_length k g inv.lengths in
        let h : i < length l = omega (arith, inv.task_ok.0, len) in
        let lengths' = with_slots-Lengths k (set l i 0) g inv.lengths (length-set l i 0 ∙ len) in
        elim (ℕ_discrete q 0) [
          | yes e ↦
              rw (alloc_round, e)
                (
                  record {
                    lengths = lengths';
                    task_ok = (next_slot k (i + stride), inv.task_ok.1);
                    held_ok = inv.held_ok;
                    balance = λ p n pos.
                        let gone : here p n q (object_size k) ≡ 0 =
                          ap (λ x. here p n x (object_size k)) e ∙ null p n (object_size k) pos in
                        omega (
                          arith,
                          inv.balance p n pos,
                          swapped p n k g i 0 h,
                          null p n (object_size k) pos,
                          gone,
                        );
                  },
                  refl,
                )
          | no ne ↦
              rw (alloc_round, ==_ne q 0 ne)
                (
                  record {
                    lengths = lengths';
                    task_ok = tt;
                    held_ok = (omega (arith, ne), inv.held_ok);
                    balance = λ p n pos.
                        let given : here p n q (block_size size) ≡ here p n q (object_size k) =
                          ap (here p n q) inv.task_ok.1 in
                        omega (
                          arith,
                          inv.balance p n pos,
                          swapped p n k g i 0 h,
                          null p n (object_size k) pos,
                          given,
                        );
                  },
                  refl,
                )
        ]

    free_round-After :
        (g : GlobalAllocator O) (k : Kind) (cur_ptr i stride rounds r : ℕ)
        → Shared F (freeing k cur_ptr i stride r) g
        → After g.tasks
            (free_round O ma k cur_ptr i stride rounds (get_or (slots_of O ma k g) i 0) g)
    unfolding free_round
    free_round-After g k cur_ptr i stride rounds r inv =
        let l = slots_of O ma k g in
        let q = get_or l i 0 in
        let len = slots_length k g inv.lengths in
        let h : i < length l = omega (arith, inv.task_ok.0, len) in
        let lengths' =
          with_slots-Lengths k (set l i cur_ptr) g inv.lengths (length-set l i cur_ptr ∙ len) in
        elim (ℕ_discrete q 0) [
          | yes e ↦
              rw (free_round, e)
                (
                  record {
                    lengths = lengths';
                    task_ok = tt;
                    held_ok = inv.held_ok;
                    balance = λ p n pos.
                        let gone : here p n q (object_size k) ≡ 0 =
                          ap (λ x. here p n x (object_size k)) e ∙ null p n (object_size k) pos in
                        omega (arith, inv.balance p n pos, swapped p n k g i cur_ptr h, gone);
                  },
                  refl,
                )
          | no ne ↦
              rw (free_round, ==_ne q 0 ne)
                (
                  record {
                    lengths = lengths';
                    task_ok = (next_slot k (i + stride), omega (arith, ne));
                    held_ok = inv.held_ok;
                    balance =
                        λ p n pos. omega (arith, inv.balance p n pos, swapped p n k g i cur_ptr h);
                  },
                  refl,
                )
        ]

    -- A step of a thread neither panics nor leaves the caches' arrays, and keeps the balance.
    pub step-After :
        (task : Task) (g : GlobalAllocator O)
        → Shared F task g
        → Returns (After g.tasks) (step O ma task g)
    unfolding step
    step-After idle g inv = returns (inv, refl)
    step-After (allocating k size i stride zero) g inv =
        map_block-After _ g (object_size k) size inv (λ p n. refl) inv.task_ok.1
          (object_size-Sizable k)
    step-After (allocating k size i stride (suc rounds)) g inv =
        let h : i < length (slots_of O ma k g) =
          omega (arith, inv.task_ok.0, slots_length k g inv.lengths) in
        rw (step, get_elem?-get_or (slots_of O ma k g) i 0 h)
          (returns (alloc_round-After g k size i stride rounds (suc rounds) inv))
    step-After (freeing k cur_ptr i stride zero) g inv =
        unmap_block-After _ g cur_ptr (object_size k) inv (λ p n. refl) inv.task_ok.1
    step-After (freeing k cur_ptr i stride (suc rounds)) g inv =
        let h : i < length (slots_of O ma k g) =
          omega (arith, inv.task_ok.0, slots_length k g inv.lengths) in
        rw (step, get_elem?-get_or (slots_of O ma k g) i 0 h)
          (returns (free_round-After g k cur_ptr i stride rounds (suc rounds) inv))
    step-After (mapping size) g inv =
        map_block-After _ g size size inv (λ p n. refl) inv.task_ok.1 inv.task_ok.0
    step-After (unmapping ptr size) g inv =
        unmap_block-After _ g ptr size inv (λ p n. refl) inv.task_ok
