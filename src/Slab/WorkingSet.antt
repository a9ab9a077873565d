-- ===== src/Slab/WorkingSet.antt =====
-- `util::workingset` of slab-alloc/src/util.rs: a value watched over a period of time. The clock
-- is the standard library's, a parameter: `secs_since now begin` is
-- `now.duration_since(begin).as_secs()`.
use allocators_rs.Base.{
  ℕ, ◌≡◌, refl, Option, some, none, List, [], ◌∷◌, arith, ltb, leb, if◌then◌else◌, min,
}

pub record WorkingSet {ℓ} (Instant : Type ℓ) : Type ℓ where
  pub value : ℕ
  pub period_begin : Instant

abbrev pub minimum : ℕ → List ℕ → ℕ
minimum m [] = m
minimum m (n ∷ ns) = minimum (min m n) ns

module _ {ℓ} {Instant : Type ℓ} where
  unfoldable pub new : ℕ → Instant → WorkingSet Instant
  new init now = record { value = init; period_begin = now }

  unfoldable pub set : WorkingSet Instant → ℕ → WorkingSet Instant
  set w n = record w { value = n }

  unfoldable pub update_min : WorkingSet Instant → ℕ → WorkingSet Instant
  update_min w n = if ltb n w.value then record w { value = n } else w

  unfoldable pub refresh_now :
      (Instant → Instant → ℕ) → WorkingSet Instant → ℕ → Instant → Option ℕ × WorkingSet Instant
  refresh_now secs_since w secs now =
      if leb secs (secs_since now w.period_begin)
      then (some w.value, record w { period_begin = now })
      else (none, w)

  -- The values reported during a period, in order.
  pub watch : WorkingSet Instant → List ℕ → WorkingSet Instant
  watch w [] = w
  watch w (n ∷ ns) = watch (update_min w n) ns

  update_min-value : (w : WorkingSet Instant) (n : ℕ) → (update_min w n).value ≡ min w.value n
  unfolding update_min
  update_min-value w n = ground arith

  update_min-begin :
      (w : WorkingSet Instant) (n : ℕ) → (update_min w n).period_begin ≡ w.period_begin
  unfolding update_min
  update_min-begin w n = ground arith

  pub watch-value : (w : WorkingSet Instant) (ns : List ℕ) → (watch w ns).value ≡ minimum w.value ns
  unfolding watch
  watch-value w [] = refl
  watch-value w (n ∷ ns) = rw (watch-value (update_min w n) ns, update_min-value w n)

  watch-begin : (w : WorkingSet Instant) (ns : List ℕ) → (watch w ns).period_begin ≡ w.period_begin
  unfolding watch
  watch-begin w [] = refl
  watch-begin w (n ∷ ns) = rw (watch-begin (update_min w n) ns, update_min-begin w n)

  -- A refresh that comes when the period is over returns the least of the period's first value and
  -- all values reported since, and begins a new period; one that comes earlier returns nothing and
  -- changes nothing.
  pub refresh_now-watch :
      (secs_since : Instant → Instant → ℕ) (v secs : ℕ) (begin now : Instant) (ns : List ℕ)
      → refresh_now secs_since (watch (new v begin) ns) secs now ≡ (
          if leb secs (secs_since now begin)
          then (some (minimum v ns), record { value = minimum v ns; period_begin = now })
          else (none, record { value = minimum v ns; period_begin = begin }))
  unfolding refresh_now new
  refresh_now-watch secs_since v secs begin now ns =
      ground (arith, watch-value (new v begin) ns, watch-begin (new v begin) ns)
