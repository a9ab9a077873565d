-- ===== src/Elfmalloc/Sources/Mmap.antt =====
-- What `MmapSource` hands out, and what it gives back to the system.
use native.Mathlib.Nat.{
  mod-eq_of_lt, mod-lt, one-le-pow, mod_self, add-mul-mod_self_right, mod-add-div',
}
use allocators_rs.Base.{
  ℕ, ◌+◌, ◌-◌, ◌*◌, ◌/◌, ◌^◌, ◌%◌, ◌<◌, ◌≤◌, ◌≡◌, ◌⊎◌, inl, inr, sym, ap, ◌∙◌, true, false, Option,
  some, List, [], ◌∷◌, All, arith, ltb, leb, lt→ltb, ℕ_discrete,
}
use allocators_rs.Base.Words.{usize_mod, mul_usize}
use allocators_rs.Base.Bits.{and_low_mask}
use allocators_rs.Elfmalloc.Sources.{Region, mod_size, trim, mmap_carve}

-- The sizes of the regions, added up.
abbrev pub total : List Region → ℕ
total [] = 0
total (r ∷ rs) = r.1 + total rs

-- The region lies in the mapping `[mem, mem + size)` and off the block `[res, res + target)`.
abbrev pub Outside : (mem size res target : ℕ) → Region → Type 0
Outside mem size res target r =
    (mem ≤ r.0) × (r.0 + r.1 ≤ mem + size) × ((r.0 + r.1 ≤ res) ⊎ (res + target ≤ r.0))

-- An aligned block inside the mapping; the rest of it is unmapped.
abbrev pub Trimmed : (page_size mem target : ℕ) → ℕ × List Region → Type 0
Trimmed page_size mem target (res, unmapped) =
    (res % page_size ≡ 0)
    × (mem ≤ res)
    × (res + target ≤ mem + (target + page_size))
    × (total unmapped ≡ page_size)
    × All (Outside mem (target + page_size) res target) unmapped

trim-Trimmed : (k target mem : ℕ) → Trimmed (2 ^ k) mem target (trim (2 ^ k) target mem)
unfolding trim mod_size
trim-Trimmed k target mem =
    let pos : 0 < 2 ^ k = one-le-pow k 2 (omega arith) in
    let lt : mem % 2 ^ k < 2 ^ k = mod-lt mem pos in
    let shape : mem + (2 ^ k - mem % 2 ^ k) ≡ 2 ^ k + mem / 2 ^ k * 2 ^ k =
      omega (arith, mod-add-div' mem (2 ^ k)) in
    let aligned : (mem + (2 ^ k - mem % 2 ^ k)) % 2 ^ k ≡ 0 =
      ap {B = ℕ} (λ t. t % 2 ^ k) shape
      ∙ add-mul-mod_self_right (2 ^ k) (mem / 2 ^ k) (2 ^ k)
      ∙ mod_self (2 ^ k) in
    let rest : ltb 0 (2 ^ k - mem % 2 ^ k) ≡ true = lt→ltb 0 _ (omega arith) in
    elim (ℕ_discrete (mem % 2 ^ k) 0) [
      | yes e ↦
          rw (and_low_mask k mem, rest, e)
            (
              ap {B = ℕ} (λ r. (mem + (2 ^ k - r)) % 2 ^ k) (sym e) ∙ aligned,
              omega arith,
              omega arith,
              omega arith,
              ((omega arith, omega arith, inl (omega arith)), tt),
            )
      | no ne ↦
          rw (and_low_mask k mem, rest, lt→ltb 0 (mem % 2 ^ k) (omega arith))
            (
              aligned,
              omega arith,
              omega arith,
              omega arith,
              (
                (omega arith, omega arith, inr (omega arith)),
                ((omega arith, omega arith, inl (omega arith)), tt),
              ),
            )
    ]

-- For pages larger than the system's, if the mapping succeeds and the sizes do not overflow, a block
-- of `npages` aligned pages inside the mapping is returned, and all of the mapping but the block is
-- unmapped: the regions unmapped lie in the mapping, off the block, and have one page in all.
pub mmap_carve-Trimmed :
    (fallible_map : ℕ → Option ℕ) (system_page_size k npages mem : ℕ)
    → system_page_size < 2 ^ k
    → npages * 2 ^ k + 2 ^ k < usize_mod
    → fallible_map (npages * 2 ^ k + 2 ^ k) ≡ some mem
    → (r : ℕ × List Region) × (mmap_carve fallible_map system_page_size (2 ^ k) npages ≡ some r)
      × Trimmed (2 ^ k) mem (npages * 2 ^ k) r
unfolding mmap_carve
mmap_carve-Trimmed fallible_map system_page_size k npages mem large bound mapped =
    let target : mul_usize npages (2 ^ k) ≡ npages * 2 ^ k = mod-eq_of_lt (omega arith) in
    let whole : (npages * 2 ^ k + 2 ^ k) % usize_mod ≡ npages * 2 ^ k + 2 ^ k =
      mod-eq_of_lt bound in
    let slow : leb (2 ^ k) system_page_size ≡ false = ground arith in
    (
      trim (2 ^ k) (npages * 2 ^ k) mem,
      rw (mmap_carve, slow, target, whole, mapped) (ap (λ t. some (trim (2 ^ k) t mem)) target),
      trim-Trimmed k (npages * 2 ^ k) mem,
    )
