-- ===== src/Mmap/Pages.antt =====
-- Sizes in whole pages.
use native.Mathlib.Nat.{mod-lt, mod-eq_of_lt, mod-add-div', add-mul-mod_self_right}
use allocators_rs.Base.{
  ℕ, ◌+◌, ◌-◌, ◌*◌, ◌/◌, ◌%◌, ◌<◌, ◌≤◌, ◌≡◌, ◌↔◌, ap, ◌∙◌, arith, ==_ne, ℕ_discrete, dec_lt,
}
use allocators_rs.Base.Words.{usize_mod, add_usize, sub_usize}
use allocators_rs.Slab.Layout.{MemLayout}
use allocators_rs.Mmap
use allocators_rs.Mmap.{MapAlloc, next_multiple}
use allocators_rs.Mmap.System.{Os, pages}

pub scale : (a b p : ℕ) → a < b → a * p + p ≤ b * p
scale a b p h = grind arith

-- The pages cover the size, and one page fewer does not.
pub pages-bounds : (p n : ℕ) → 0 < p → (n ≤ pages p n * p) × (pages p n * p < n + p)
unfolding pages
pages-bounds p n h =
    let lt : n % p < p = mod-lt n h in
    let shape : n % p + n / p * p ≡ n = mod-add-div' n p in
    elim (ℕ_discrete (n % p) 0) [
      | yes e ↦ rw e (omega (arith, shape, e), omega (arith, shape, e))
      | no ne ↦ rw (==_ne (n % p) 0 ne) (grind (arith, shape, lt), grind (arith, shape, lt, ne))
    ]

pub pages_unique : (p n k : ℕ) → 0 < p → n ≤ k * p → k * p < n + p → pages p n ≡ k
pages_unique p n k h low high =
    let (l, u) = pages-bounds p n h in
    elim (dec_lt (pages p n) k) [
      | yes less ↦ absurd (omega (arith, scale (pages p n) k p less))
      | no not_less ↦ elim (dec_lt k (pages p n)) [
        | yes more ↦ absurd (omega (arith, scale k (pages p n) p more))
        | no not_more ↦ omega arith
      ]
    ]

pub next_multiple-pages : (p n : ℕ) → 0 < p → n + p < usize_mod → next_multiple n p ≡ pages p n * p
unfolding pages next_multiple
next_multiple-pages p n h bound =
    let lt : n % p < p = mod-lt n h in
    let shape : n % p + n / p * p ≡ n = mod-add-div' n p in
    elim (ℕ_discrete (n % p) 0) [
      | yes e ↦ rw (next_multiple, e) (omega (arith, shape, e))
      | no ne ↦
          let sum : (n + (p - n % p)) % usize_mod ≡ n + (p - n % p) = mod-eq_of_lt (omega arith) in
          rw (next_multiple, ==_ne (n % p) 0 ne, sum) (grind (arith, shape, lt))
    ]

pub pages-whole : (p n : ℕ) → 0 < p → pages p (pages p n * p) ≡ pages p n
pages-whole p n h = pages_unique p (pages p n * p) (pages p n) h (omega arith) (omega arith)

pub pages-pos : (p n : ℕ) → 0 < p → 0 < n → 0 < pages p n
pages-pos p n h some =
    let (l, u) = pages-bounds p n h in
    elim (ℕ_discrete (pages p n) 0) [
      | yes e ↦ absurd (omega (arith, l, ap {B = ℕ} (λ k. k * p) e))
      | no ne ↦ omega arith
    ]

-- The sizes that `usable_size` allows for an allocation are from the least to the largest size that
-- takes as many pages, and no others; the size asked for is one of them.
pub usable_size-pages :
    (O : Os) (m : MapAlloc) (l : MemLayout)
    → 0 < m.pagesize
    → 0 < l.size
    → l.size + m.pagesize < usize_mod
    → let r = Mmap.usable_size O m l in
      (r.0 ≤ l.size)
      × (l.size ≤ r.1)
      × ((n : ℕ) → ((r.0 ≤ n) × (n ≤ r.1)) ↔ (pages m.pagesize n ≡ pages m.pagesize l.size))
unfolding Mmap.usable_size
usable_size-pages O m l h some bound =
    let p = m.pagesize in
    let k = pages p l.size in
    let (low, high) = pages-bounds p l.size h in
    let max : next_multiple l.size p ≡ k * p = next_multiple-pages p l.size h bound in
    let one_page : p ≤ k * p = grind (arith, pages-pos p l.size h some) in
    let shape : k * p + usize_mod - p ≡ k * p - p + 1 * usize_mod = omega arith in
    let less : sub_usize (k * p) p ≡ k * p - p =
      ap {B = ℕ} (λ t. t % usize_mod) shape
      ∙ add-mul-mod_self_right (k * p - p) 1 usize_mod
      ∙ mod-eq_of_lt (omega arith) in
    let min : add_usize (k * p - p) 1 ≡ k * p - p + 1 = mod-eq_of_lt (omega arith) in
    rw (max, less, min)
      (
        omega arith,
        low,
        λ n. (
          λ within. pages_unique p n k h within.1 (omega (arith, within.0)),
          λ same.
              let (low', high') = pages-bounds p n h in
              let whole : pages p n * p ≡ k * p = ap {B = ℕ} (λ t. t * p) same in
              (omega (arith, low', high', whole, one_page), omega (arith, low', whole)),
        ),
      )
