-- ===== src/Elfmalloc/Sources/Heap.antt =====
-- Creeks as they are made: where their pages begin, and how far they reach.
use native.Mathlib.Nat.{
  div-one, div-le_self, div-div-eq-div-mul, pow-succ', pow-zero, mod-lt, mod_self,
  add-mul-mod_self_right, mod-add-div', dvd_of_mod-eq-zero, mod-eq-zero_of_dvd, dvd-add,
}
use allocators_rs.Base.{
  ℕ, zero, suc, ◌+◌, ◌-◌, ◌*◌, ◌/◌, ◌^◌, ◌%◌, ◌<◌, ◌≤◌, ◌≡◌, max, inl, inr, refl, sym, ap, ◌∙◌,
  true, Option, some, Returns, returns, arith, ltb, ltb→lt, lt→ltb, ==_ne, ℕ_discrete, Option-cases,
}
use allocators_rs.Elfmalloc.Sources.{Region, Creek, get_heap, slush_addr, creek_at}

-- Pages begin at an aligned address, behind a page of slush at the first address that is aligned, not
-- null, and not in front of the mapping.
abbrev pub Placed : ℕ → Region → Creek → Type 0
Placed page_size heap c =
    (c.base % page_size ≡ 0)
    × (c.base ≡ c.bump + page_size)
    × (0 < c.bump)
    × (heap.0 ≤ c.bump)
    × (c.bump < max heap.0 1 + page_size)

slush-aligned :
    (page_size orig : ℕ)
    → 0 < page_size
    → (slush_addr page_size orig % page_size ≡ 0)
      × (0 < slush_addr page_size orig)
      × (orig ≤ slush_addr page_size orig)
      × (slush_addr page_size orig < max orig 1 + page_size)
unfolding slush_addr
slush-aligned page_size orig pos =
    let zero_page : 0 + page_size ≡ page_size = omega arith in
    elim (ℕ_discrete orig 0) [
      | yes e ↦
          rw (slush_addr, e)
            (
              ap {B = ℕ} (λ t. t % page_size) zero_page ∙ mod_self page_size,
              omega arith,
              omega arith,
              omega arith,
            )
      | no ne ↦ elim (ℕ_discrete (orig % page_size) 0) [
        | yes e ↦
            rw (slush_addr, ==_ne orig 0 ne, e)
              (e, omega (arith, ne), omega arith, omega (arith, ne, pos))
        | no inside ↦
            let lt : orig % page_size < page_size = mod-lt orig pos in
            let shape : orig + (page_size - orig % page_size)
                ≡ page_size + orig / page_size * page_size =
              omega (arith, mod-add-div' orig page_size) in
            rw (slush_addr, ==_ne orig 0 ne, ==_ne (orig % page_size) 0 inside)
              (
                ap {B = ℕ} (λ t. t % page_size) shape
                    ∙ add-mul-mod_self_right page_size (orig / page_size) page_size
                    ∙ mod_self page_size,
                omega arith,
                omega arith,
                omega (arith, inside, ne),
              )
      ]
    ]

next_aligned : (a m : ℕ) → a % m ≡ 0 → (a + m) % m ≡ 0
next_aligned a m h =
    mod-eq-zero_of_dvd m (dvd-add m (dvd_of_mod-eq-zero m h) (dvd_of_mod-eq-zero m (mod_self m)))

halve_first : (size j : ℕ) → size / 2 / 2 ^ j ≡ size / 2 ^ suc j
halve_first size j =
    div-div-eq-div-mul size 2 (2 ^ j) ∙ ap {B = ℕ} (λ t. size / t) (sym (pow-succ' 2 j))

-- The loop, which tries sizes from `size` down by halves, ends without a panic on fuel for all sizes
-- above `1 << 30`, once one of the sizes it tries can be mapped; the heap is a mapping of its size.
pub get_heap-mapped :
    (fallible_map : ℕ → Option ℕ) (fuel j size heap : ℕ)
    → j < fuel
    → 2 ^ 30 < size / 2 ^ j
    → fallible_map (size / 2 ^ j) ≡ some heap
    → Returns
        (λ r. (fallible_map r.1 ≡ some r.0) × (2 ^ 30 < r.1))
        (get_heap fallible_map fuel size)
unfolding get_heap
get_heap-mapped fallible_map zero j size heap h large mapped = absurd (omega arith)
get_heap-mapped fallible_map (suc fuel) zero size heap h large mapped =
    let one_part : size / 2 ^ zero ≡ size =
      ap {B = ℕ} (λ t. size / t) (pow-zero 2) ∙ div-one size in
    rw
      (
        get_heap,
        lt→ltb (2 ^ 30) size (omega (arith, one_part)),
        sym (ap fallible_map one_part) ∙ mapped,
      )
      (returns (sym (ap fallible_map one_part) ∙ mapped, omega (arith, one_part)))
get_heap-mapped fallible_map (suc fuel) (suc j) size heap h large mapped =
    let halves : size / 2 / 2 ^ j ≡ size / 2 ^ suc j = halve_first size j in
    let above : ltb (2 ^ 30) size ≡ true =
      lt→ltb (2 ^ 30) size (omega (arith, div-le_self size (2 ^ suc j))) in
    elim (Option-cases (fallible_map size)) [
      | inr (there, e) ↦ rw (get_heap, above, e) (returns (e, ltb→lt (2 ^ 30) size above))
      | inl e ↦
          rw (get_heap, above, e)
            (get_heap-mapped fallible_map fuel j (size / 2) heap (omega arith)
              (omega (arith, halves)) (ap fallible_map halves ∙ mapped))
    ]

-- A creek over any mapping begins its pages aligned to their size, right behind a page of slush. That
-- page starts at an address that is not null, at or behind the start of the mapping, and less than a
-- page behind it, or for a mapping at null, at the first page.
pub creek_at-Placed :
    (page_size : ℕ) (heap : Region)
    → 0 < page_size
    → Placed page_size heap (creek_at page_size heap)
unfolding creek_at
creek_at-Placed page_size heap pos =
    let (aligned, some_page, low, high) = slush-aligned page_size heap.0 pos in
    (next_aligned (slush_addr page_size heap.0) page_size aligned, refl, some_page, low, high)
