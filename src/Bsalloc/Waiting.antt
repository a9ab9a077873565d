-- ===== src/Bsalloc/Waiting.antt =====
-- Calls of bsalloc are wait-free: a thread needs at most three of its own steps, whatever the others do.
use allocators_rs.Base.{
  ℕ, ◌+◌, ◌-◌, ◌≤◌, ◌≡◌, refl, sym, ap, subst, ◌∙◌, Option, some, none, List, [], ◌∷◌, get_elem?,
  get_or, set, All, arith, Checked, done, panic, Returns, returns, Returns-map, ◌==◌, ==_ne,
  if◌then◌else◌, ◌⊎◌, inl, inr, Option-cases, ℕ_discrete, true,
}
use allocators_rs.Base.Sums.{get_or-set_ne}
use allocators_rs.Mmap.{MapAlloc}
use allocators_rs.Mmap.System.{Os}
use allocators_rs.Mmap.Requests.{Paged}
use allocators_rs.Bsalloc.{
  Task, idle, allocating, freeing, mapping, unmapping, GlobalAllocator, Event, call_alloc,
  call_free, steps, new, alloc, free, begin_alloc, begin_free, step, resumed, continue, exec, run,
}
use allocators_rs.Bsalloc.Reached.{Callable, Owned, exec-Owned, new-Owned}
use allocators_rs.Bsalloc.Steps.{
  left, left-idle, left-alloc, left-free, task_of, get_or-of_get_elem?, get_or-none, get_or-written,
  Quiet, steps_of, steps_of-cons, get_or-idle, Leaves, step-Leaves,
}

module _ (O : Os) (ma : MapAlloc) where
  -- Whether, without a panic, thread `t` has at most `n` steps left.
  abbrev Went : ℕ → ℕ → Checked (GlobalAllocator O) → Type 0
  Went t n panic = Unit {0}
  Went t n (done g) = left (task_of O t g) ≤ n

  resumed-Went :
      (t u n : ℕ) (g : GlobalAllocator O) (task : Task) (c : Checked (Task × GlobalAllocator O))
      → get_elem? g.tasks u ≡ some task
      → Leaves O ma (n - 1) g.tasks c
      → left task ≡ n
      → Went t (left (task_of O t g) - (if u == t then 1 else 0)) (resumed O ma u c)
  unfolding resumed
  resumed-Went t u n g task panic e le n_left = tt
  resumed-Went t u n g task (done (task', g')) e (le, same) n_left = elim (ℕ_discrete u t) [
    | yes at ↦
        let now : get_or (set g'.tasks u task') t idle ≡ task' =
          ap (λ l. get_or (set l u task') t idle) same
          ∙ ap (λ i. get_or (set g.tasks u task') i idle) (sym at)
          ∙ get_or-written g.tasks u task task' e in
        let was : get_or g.tasks t idle ≡ task =
          ap (λ i. get_or g.tasks i idle) (sym at) ∙ get_or-of_get_elem? g.tasks u task e in
        let own : (u == t) ≡ true = ground (arith, at) in
        rw (own) (omega (arith, ap left now, ap left was, le, n_left))
    | no ne ↦
        let now : get_or (set g'.tasks u task') t idle ≡ get_or g.tasks t idle =
          ap (λ l. get_or (set l u task') t idle) same
          ∙ get_or-set_ne g.tasks u t task' idle (λ e. ne (sym e)) in
        rw (==_ne u t ne) (omega (arith, ap left now))
  ]

  continue-Went :
      (t u : ℕ) (g : GlobalAllocator O)
      → Went t (left (task_of O t g) - (if u == t then 1 else 0)) (continue O ma u g)
  unfolding continue
  continue-Went t u g = elim (Option-cases (get_elem? g.tasks u)) [
    | inl e ↦ elim (ℕ_discrete u t) [
      | yes at ↦
          let none_left : left (task_of O t g) ≡ 0 =
            ap left (ap (λ i. get_or g.tasks i idle) (sym at) ∙ get_or-none g.tasks u e) in
          rw (continue, e) (omega (arith, none_left))
      | no ne ↦ rw (continue, e, ==_ne u t ne) (omega arith)
    ]
    | inr (task, e) ↦
        rw (continue, e)
          (resumed-Went t u (left task) g task (step O ma task g) e (step-Leaves O ma task g) refl)
  ]

  begin_alloc-task_of :
      (t u size start : ℕ) (o : Option Task) (g : GlobalAllocator O)
      → get_elem? g.tasks u ≡ o
      → (task_of O t (begin_alloc O ma u size start o g) ≡ task_of O t g)
        ⊎ ((u ≡ t) × (task_of O t (begin_alloc O ma u size start o g) ≡ alloc size start))
  unfolding begin_alloc
  begin_alloc-task_of t u size start (some idle) g e = elim (ℕ_discrete u t) [
    | yes at ↦ inr (
      at,
      ap (λ i. get_or (set g.tasks u (alloc size start)) i idle) (sym at)
          ∙ get_or-written g.tasks u idle (alloc size start) e,
    )
    | no ne ↦ inl (get_or-set_ne g.tasks u t (alloc size start) idle (λ e. ne (sym e)))
  ]
  begin_alloc-task_of t u size start (some (allocating k size' c st r)) g e = inl refl
  begin_alloc-task_of t u size start (some (freeing k p c st r)) g e = inl refl
  begin_alloc-task_of t u size start (some (mapping size')) g e = inl refl
  begin_alloc-task_of t u size start (some (unmapping p size')) g e = inl refl
  begin_alloc-task_of t u size start none g e = inl refl

  begin_free-task_of :
      (t u i start : ℕ) (o : Option Task) (b : Option (ℕ × ℕ)) (g : GlobalAllocator O)
      → get_elem? g.tasks u ≡ o
      → (task_of O t (begin_free O ma u i start o b g) ≡ task_of O t g)
        ⊎ ((u ≡ t) × (left (task_of O t (begin_free O ma u i start o b g)) ≤ 3))
  unfolding begin_free
  begin_free-task_of t u i start (some idle) (some (ptr, size)) g e = elim (ℕ_discrete u t) [
    | yes at ↦
        let now : get_or (set g.tasks u (free ptr size start)) t idle ≡ free ptr size start =
          ap (λ j. get_or (set g.tasks u (free ptr size start)) j idle) (sym at)
          ∙ get_or-written g.tasks u idle (free ptr size start) e in
        inr (at, omega (arith, ap left now, left-free ptr size start))
    | no ne ↦ inl (get_or-set_ne g.tasks u t (free ptr size start) idle (λ e. ne (sym e)))
  ]
  begin_free-task_of t u i start (some idle) none g e = inl refl
  begin_free-task_of t u i start (some (allocating k size' c st r)) b g e = inl refl
  begin_free-task_of t u i start (some (freeing k p c st r)) b g e = inl refl
  begin_free-task_of t u i start (some (mapping size')) b g e = inl refl
  begin_free-task_of t u i start (some (unmapping p size')) b g e = inl refl
  begin_free-task_of t u i start none b g e = inl refl

  exec-Went :
      (t : ℕ) (e : Event) (g : GlobalAllocator O)
      → Quiet t e
      → Went t (left (task_of O t g) - steps_of t (e ∷ [])) (exec O ma e g)
  unfolding exec
  exec-Went t (call_alloc u size start) g other =
      elim (begin_alloc-task_of t u size start (get_elem? g.tasks u) g refl) [
        | inl same ↦ omega (arith, ap left same)
        | inr (at, now) ↦ absurd (other at)
      ]
  exec-Went t (call_free u i start) g other =
      elim (begin_free-task_of t u i start (get_elem? g.tasks u) (get_elem? g.held i) g refl) [
        | inl same ↦ omega (arith, ap left same)
        | inr (at, now) ↦ absurd (other at)
      ]
  exec-Went t (steps u) g quiet =
      let n : (if u == t then 1 else 0) + 0 ≡ (if u == t then 1 else 0) = omega arith in
      subst (λ k. Went t (left (task_of O t g) - k) (continue O ma u g)) (sym n)
        (continue-Went t u g)

  -- At every time, every thread has at most three steps left.
  exec-bound :
      (t : ℕ) (e : Event) (g : GlobalAllocator O)
      → left (task_of O t g) ≤ 3
      → Went t 3 (exec O ma e g)
  unfolding exec
  exec-bound t (call_alloc u size start) g le =
      elim (begin_alloc-task_of t u size start (get_elem? g.tasks u) g refl) [
        | inl same ↦ omega (arith, ap left same, le)
        | inr (at, now) ↦ omega (arith, ap left now, left-alloc size start)
      ]
  exec-bound t (call_free u i start) g le =
      elim (begin_free-task_of t u i start (get_elem? g.tasks u) (get_elem? g.held i) g refl) [
        | inl same ↦ omega (arith, ap left same, le)
        | inr (at, now) ↦ now
      ]
  exec-bound t (steps u) g le = within (continue O ma u g) (continue-Went t u g)
    where
      within :
          (c : Checked (GlobalAllocator O))
          → Went t (left (task_of O t g) - (if u == t then 1 else 0)) c
          → Went t 3 c
      within panic w = tt
      within (done g') w = omega (arith, w, le)

  module _ (s0 : O.State) (paged : Paged O ma) where
    abbrev Bounded : GlobalAllocator O → Type 0
    Bounded g = (t : ℕ) → left (task_of O t g) ≤ 3

    exec-Bounded :
        (c : Checked (GlobalAllocator O))
        → Returns (Owned O ma s0) c
        → ((t : ℕ) → Went t 3 c)
        → Returns (λ g. Owned O ma s0 g × Bounded g) c
    exec-Bounded c (returns {a = g} inv) all = returns (inv, all)

    run-Bounded :
        (es : List Event) (c : Checked (GlobalAllocator O))
        → All (Callable O) es
        → Returns (λ g. Owned O ma s0 g × Bounded g) c
        → Returns (λ g. Owned O ma s0 g × Bounded g) (run O ma es c)
    unfolding run
    run-Bounded [] c fits h = h
    run-Bounded (e ∷ es) c (fit, fits) (returns {a = g} (inv, bound)) =
        run-Bounded es (exec O ma e g) fits (
          exec-Bounded (exec O ma e g) (exec-Owned O ma s0 e g paged fit inv)
            (λ t. exec-bound t e g (bound t)))

    abbrev Waited : ℕ → ℕ → GlobalAllocator O → Type 0
    Waited t n g = Owned O ma s0 g × (left (task_of O t g) ≤ n)

    exec-Waited :
        (t n : ℕ) (c : Checked (GlobalAllocator O))
        → Returns (Owned O ma s0) c
        → Went t n c
        → Returns (Waited t n) c
    exec-Waited t n c (returns {a = g} inv) w = returns (inv, w)

    run-Waited :
        (t n : ℕ) (es : List Event) (c : Checked (GlobalAllocator O))
        → All (Callable O) es
        → All (Quiet t) es
        → Returns (Waited t n) c
        → Returns (Waited t (n - steps_of t es)) (run O ma es c)
    unfolding run
    run-Waited t n [] c fits quiet (returns (inv, le)) = returns (inv, omega (arith, le))
    run-Waited t n (e ∷ es) c (fit, fits) (q, quiet) (returns {a = g} (inv, le)) =
        let k = steps_of t (e ∷ []) in
        let here : Returns (Waited t (n - k)) (exec O ma e g) =
          Returns-map (λ g' (i, l). (i, omega (arith, l, le)))
            (exec-Waited t (left (task_of O t g) - k) (exec O ma e g)
              (exec-Owned O ma s0 e g paged fit inv) (exec-Went t e g q)) in
        Returns-map (λ g' (i, l). (i, omega (arith, l, steps_of-cons t e es)))
          (run-Waited t (n - k) es (exec O ma e g) fits quiet here)

    new-Bounded : (n : ℕ) → Bounded (new O ma s0 n)
    unfolding new
    new-Bounded n t = omega (arith, ap left (get_or-idle n t))

-- Calls are wait-free. After any history from new caches, with no call for a size within a page of the
-- largest word, a thread that takes three steps, and begins no further call on the way, is between calls
-- in the end, however the steps and such calls of the other threads fall in between; and nothing panics.
pub run-idle :
    (O : Os) (ma : MapAlloc) (s0 : O.State) (n_threads : ℕ) (before es : List Event) (t : ℕ)
    → Paged O ma
    → All (Callable O) before
    → All (Callable O) es
    → All (Quiet t) es
    → 3 ≤ steps_of t es
    → Returns
        (λ g. task_of O t g ≡ idle)
        (run O ma es (run O ma before (done (new O ma s0 n_threads))))
run-idle O ma s0 n_threads before es t paged fits fits' quiet enough =
    let start =
      run-Bounded O ma s0 paged before (done (new O ma s0 n_threads)) fits
        (returns (new-Owned O ma s0 n_threads, new-Bounded O ma s0 paged n_threads)) in
    Returns-map (λ g (inv, le). left-idle (task_of O t g) (omega (arith, le, enough)))
      (run-Waited O ma s0 paged t 3 es (run O ma before (done (new O ma s0 n_threads))) fits' quiet
        (Returns-map (λ g (inv, bound). (inv, bound t)) start))
