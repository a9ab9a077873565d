-- ===== src/Bsalloc/Steps.antt =====
-- How many steps a call of bsalloc takes: a step takes one of them away.
use allocators_rs.Base.{
  ℕ, zero, suc, ◌+◌, ◌-◌, ◌≤◌, ◌≡◌, ◌≢◌, refl, some, none, List, [], ◌∷◌, get_elem?, get_or, set,
  replicate, arith, Checked, done, panic, ◌==◌, ==_ne, if◌then◌else◌, ltb, Bool-cases, inl, inr,
  Option-cases, ℕ_discrete,
}
use allocators_rs.Malloc.Interface.{AllocResult, ok, exhausted, unsupported}
use allocators_rs.Mmap.{MapAlloc}
use allocators_rs.Mmap.System.{Os}
use allocators_rs.Bsalloc.{
  Kind, small_objs, large_objs, object_size, Task, idle, allocating, freeing, mapping, unmapping,
  slots_of, GlobalAllocator, Event, call_alloc, call_free, steps, alloc, free, enter_alloc,
  enter_free, mapped_block, map_block, unmapped_block, unmap_block, alloc_round, free_round,
  return_block, step,
}

-- The steps that a call still takes, at most.
abbrev pub left : Task → ℕ
left idle = 0
left (allocating k size cur_slot stride rounds) = rounds + 1
left (freeing k cur_ptr cur_slot stride rounds) = rounds + 1
left (mapping size) = 1
left (unmapping ptr size) = 1

pub left-idle : (task : Task) → left task ≡ 0 → task ≡ idle
left-idle idle e = refl
left-idle (allocating k size cur_slot stride rounds) e = absurd (omega (arith, e))
left-idle (freeing k cur_ptr cur_slot stride rounds) e = absurd (omega (arith, e))
left-idle (mapping size) e = absurd (omega (arith, e))
left-idle (unmapping ptr size) e = absurd (omega (arith, e))

left-enter : (k : Kind) (size start : ℕ) → left (enter_alloc k size start) ≤ 3
unfolding enter_alloc
left-enter small_objs size start = omega arith
left-enter large_objs size start = omega arith

left-enter_free : (k : Kind) (ptr start : ℕ) → left (enter_free k ptr start) ≤ 3
unfolding enter_free
left-enter_free small_objs ptr start = omega arith
left-enter_free large_objs ptr start = omega arith

pub left-alloc : (size start : ℕ) → left (alloc size start) ≤ 3
unfolding alloc
left-alloc size start = elim (Bool-cases (ltb size (object_size small_objs))) [
  | inl small ↦ rw (alloc, small) (left-enter small_objs size start)
  | inr not_small ↦ elim (Bool-cases (ltb size (object_size large_objs))) [
    | inl large ↦ rw (alloc, not_small, large) (left-enter large_objs size start)
    | inr mapped ↦ rw (alloc, not_small, mapped) (omega arith)
  ]
]

pub left-free : (ptr size start : ℕ) → left (free ptr size start) ≤ 3
unfolding free
left-free ptr size start = elim (Bool-cases (ltb size (object_size small_objs))) [
  | inl small ↦ rw (free, small) (left-enter_free small_objs ptr start)
  | inr not_small ↦ elim (Bool-cases (ltb size (object_size large_objs))) [
    | inl large ↦ rw (free, not_small, large) (left-enter_free large_objs ptr start)
    | inr mapped ↦ rw (free, not_small, mapped) (omega arith)
  ]
]

-- What thread `t` does.
abbrev pub task_of : (O : Os) → ℕ → GlobalAllocator O → Task
task_of O t g = get_or g.tasks t idle

pub get_or-of_get_elem? :
    (l : List Task) (t : ℕ) (x : Task) → get_elem? l t ≡ some x → get_or l t idle ≡ x
get_or-of_get_elem? [] t x e = absurd (cc e)
get_or-of_get_elem? (y ∷ l) zero x e = cc e
get_or-of_get_elem? (y ∷ l) (suc t) x e = get_or-of_get_elem? l t x e

pub get_or-none : (l : List Task) (t : ℕ) → get_elem? l t ≡ none → get_or l t idle ≡ idle
get_or-none [] t e = refl
get_or-none (y ∷ l) zero e = absurd (cc e)
get_or-none (y ∷ l) (suc t) e = get_or-none l t e

pub get_or-written :
    (l : List Task) (t : ℕ) (x y : Task) → get_elem? l t ≡ some x → get_or (set l t y) t idle ≡ y
get_or-written [] t x y e = absurd (cc e)
get_or-written (z ∷ l) zero x y e = refl
get_or-written (z ∷ l) (suc t) x y e = get_or-written l t x y e

-- Whether an event is not a new call of thread `t`, and the steps of `t`.
abbrev pub Quiet : ℕ → Event → Type 0
Quiet t (call_alloc u size start) = u ≢ t
Quiet t (call_free u i start) = u ≢ t
Quiet t (steps u) = Unit {0}

abbrev pub steps_of : ℕ → List Event → ℕ
steps_of t [] = 0
steps_of t (call_alloc u size start ∷ es) = steps_of t es
steps_of t (call_free u i start ∷ es) = steps_of t es
steps_of t (steps u ∷ es) = (if u == t then 1 else 0) + steps_of t es

pub steps_of-cons :
    (t : ℕ) (e : Event) (es : List Event)
    → steps_of t (e ∷ es) ≡ steps_of t (e ∷ []) + steps_of t es
steps_of-cons t (call_alloc u size start) es = omega arith
steps_of-cons t (call_free u i start) es = omega arith
steps_of-cons t (steps u) es = omega arith

pub get_or-idle : (n t : ℕ) → get_or (replicate n idle) t idle ≡ idle
get_or-idle zero t = refl
get_or-idle (suc n) zero = refl
get_or-idle (suc n) (suc t) = get_or-idle n t

module _ (O : Os) (ma : MapAlloc) where
  -- Whether a step that does not panic leaves at most `n`, and the threads as they were.
  abbrev pub Leaves : ℕ → List Task → Checked (Task × GlobalAllocator O) → Type 0
  Leaves n tasks panic = Unit {0}
  Leaves n tasks (done (task, g)) = (left task ≤ n) × (g.tasks ≡ tasks)

  mapped-Leaves :
      (size n : ℕ) (g : GlobalAllocator O) (c : Checked (AllocResult × O.State))
      → Leaves n g.tasks (mapped_block O ma size g c)
  unfolding mapped_block return_block
  mapped-Leaves size n g (done (ok p, s)) = (omega arith, refl)
  mapped-Leaves size n g (done (exhausted, s)) = (omega arith, refl)
  mapped-Leaves size n g (done (unsupported, s)) = (omega arith, refl)
  mapped-Leaves size n g panic = tt

  unmapped-Leaves :
      (n : ℕ) (g : GlobalAllocator O) (c : Checked O.State)
      → Leaves n g.tasks (unmapped_block O ma g c)
  unfolding unmapped_block
  unmapped-Leaves n g (done s) = (omega arith, refl)
  unmapped-Leaves n g panic = tt

  alloc_round-Leaves :
      (k : Kind) (size cur_slot stride rounds p : ℕ) (g : GlobalAllocator O)
      → Leaves (rounds + 1) g.tasks (done (alloc_round O ma k size cur_slot stride rounds p g))
  unfolding alloc_round return_block
  alloc_round-Leaves k size cur_slot stride rounds p g = elim (ℕ_discrete p 0) [
    | yes e ↦ rw (alloc_round, e) (omega arith, refl)
    | no ne ↦ rw (alloc_round, ==_ne p 0 ne) (omega arith, refl)
  ]

  free_round-Leaves :
      (k : Kind) (cur_ptr cur_slot stride rounds p : ℕ) (g : GlobalAllocator O)
      → Leaves (rounds + 1) g.tasks (done (free_round O ma k cur_ptr cur_slot stride rounds p g))
  unfolding free_round
  free_round-Leaves k cur_ptr cur_slot stride rounds p g = elim (ℕ_discrete p 0) [
    | yes e ↦ rw (free_round, e) (omega arith, refl)
    | no ne ↦ rw (free_round, ==_ne p 0 ne) (omega arith, refl)
  ]

  pub step-Leaves :
      (task : Task) (g : GlobalAllocator O) → Leaves (left task - 1) g.tasks (step O ma task g)
  unfolding step map_block unmap_block
  step-Leaves idle g = (omega arith, refl)
  step-Leaves (allocating k size i stride zero) g = mapped-Leaves size _ g _
  step-Leaves (allocating k size i stride (suc rounds)) g =
      elim (Option-cases (get_elem? (slots_of O ma k g) i)) [
        | inl e ↦ rw (step, e) tt
        | inr (p, e) ↦
            let n : suc rounds + 1 - 1 ≡ rounds + 1 = omega arith in
            rw (step, e, n) (alloc_round-Leaves k size i stride rounds p g)
      ]
  step-Leaves (freeing k cur_ptr i stride zero) g = unmapped-Leaves _ g _
  step-Leaves (freeing k cur_ptr i stride (suc rounds)) g =
      elim (Option-cases (get_elem? (slots_of O ma k g) i)) [
        | inl e ↦ rw (step, e) tt
        | inr (p, e) ↦
            let n : suc rounds + 1 - 1 ≡ rounds + 1 = omega arith in
            rw (step, e, n) (free_round-Leaves k cur_ptr i stride rounds p g)
      ]
  step-Leaves (mapping size) g = mapped-Leaves size _ g _
  step-Leaves (unmapping ptr size) g = unmapped-Leaves _ g _
