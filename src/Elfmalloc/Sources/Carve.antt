-- ===== src/Elfmalloc/Sources/Carve.antt =====
-- What a `Creek` hands out. Threads share the counter; as `fetch_add` is atomic, the calls of all
-- threads have an order, whatever the interleaving, and `carve_all` runs them in it.
use native.Mathlib.Nat.{mod-eq_of_lt}
use allocators_rs.Base.{
  ℕ, ◌+◌, ◌*◌, ◌<◌, ◌≤◌, ◌≡◌, inl, inr, refl, sym, ap, Option, some, none, List, [], ◌∷◌, arith,
  ltb, ltb→lt, Bool-cases,
}
use allocators_rs.Base.Words.{usize_mod, add_usize, mul_usize}
use allocators_rs.Elfmalloc.Sources.{Region, Creek, carve}

-- The blocks handed out, in order.
abbrev pub add_block : Option ℕ → ℕ → List Region → List Region
add_block none size rest = rest
add_block (some p) size rest = (p, size) ∷ rest

pub carve_all : Creek → ℕ → List ℕ → List Region
carve_all c counter [] = []
carve_all c counter (npages ∷ more) =
    let r = carve c counter npages in add_block r.0 (npages * c.page_size) (carve_all c r.1 more)

abbrev pub sum : List ℕ → ℕ
sum [] = 0
sum (n ∷ ns) = n + sum ns

-- Blocks from `low` on, each behind the one before it, whole pages from the base, and all of them
-- below `high`.
abbrev pub Apart : (base page_size low high : ℕ) → List Region → Type 0
Apart base page_size low high [] = Unit {0}
Apart base page_size low high (r ∷ rs) =
    (low ≤ r.0)
    × (r.0 + r.1 ≤ high)
    × ((n : ℕ) × (r.0 ≡ base + n * page_size))
    × Apart base page_size (r.0 + r.1) high rs

Apart-low :
    (base page_size low low' high : ℕ) (rs : List Region)
    → low ≤ low'
    → Apart base page_size low' high rs
    → Apart base page_size low high rs
Apart-low base page_size low low' high [] h a = tt
Apart-low base page_size low low' high (r ∷ rs) h a = (omega (arith, a.0), a.1, a.2, a.3)

pages_sum : (a n s : ℕ) → (a + n) * s ≡ a * s + n * s
pages_sum a n s = grind arith

-- If the counter does not overflow, whatever the order of the calls, the blocks that a creek hands
-- out do not overlap: each begins behind the end of the one before. Each lies a number of whole
-- pages from the base, and ends before the base plus the size of the mapping.
pub carve_all-Apart :
    (c : Creek) (counter : ℕ) (calls : List ℕ)
    → (counter + sum calls) * c.page_size < usize_mod
    → counter + sum calls < usize_mod
    → Apart c.base c.page_size
        (c.base + counter * c.page_size)
        (c.base + c.map_info.1)
        (carve_all c counter calls)
unfolding carve_all carve
carve_all-Apart c counter [] pages bound = tt
carve_all-Apart c counter (n ∷ more) pages bound =
    let s = c.page_size in
    let step : add_usize counter n ≡ counter + n = mod-eq_of_lt (omega arith) in
    let assoc : counter + (n + sum more) ≡ counter + n + sum more = omega arith in
    let rest = carve_all-Apart c (counter + n) more (rw (sym assoc) pages) (omega arith) in
    let size : mul_usize (counter + n) s ≡ (counter + n) * s =
      mod-eq_of_lt (omega (arith, pages_sum (counter + n) (sum more) s, ap (λ t. t * s) assoc)) in
    elim (Bool-cases (ltb ((counter + n) * s) c.map_info.1)) [
      | inl fits ↦
          rw (carve, step, size, fits)
            (
              omega arith,
              omega (arith, ltb→lt ((counter + n) * s) c.map_info.1 fits, pages_sum counter n s),
              (counter, refl),
              Apart-low c.base s (c.base + counter * s + n * s) (c.base + (counter + n) * s)
                  (c.base + c.map_info.1) (carve_all c (counter + n) more)
                  (omega (arith, pages_sum counter n s)) rest,
            )
      | inr full ↦
          rw (carve, step, size, full)
            (Apart-low c.base s (c.base + counter * s) (c.base + (counter + n) * s)
              (c.base + c.map_info.1) (carve_all c (counter + n) more)
              (omega (arith, pages_sum counter n s)) rest)
    ]
