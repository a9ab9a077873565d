-- ===== src/Elfmalloc/General/Large.antt =====
-- Objects larger than the size classes.
use native.Mathlib.Nat.{mod-eq_of_lt}
use allocators_rs.Base.{
  ℕ, ◌+◌, ◌-◌, ◌*◌, ◌/◌, ◌^◌, ◌%◌, ◌<◌, ◌≤◌, ◌≡◌, refl, ap, ◌∙◌, false, ◌&&◌, Option, some, none,
  inl, inr, Bool-cases, done, Returns, returns, arith, min, ◌==◌, ==_self, ==_ne, leb,
  if◌then◌else◌, List,
}
use allocators_rs.Base.Words.{usize_mod, add_usize, sub_usize, next_power_of_two}
use allocators_rs.Base.Bits.{and_not_mask}
use allocators_rs.Elfmalloc.Sources.{Region, mmap_new, mmap_carve}
use allocators_rs.Elfmalloc.Sources.Mmap.{mmap_carve-Trimmed}
use allocators_rs.Elfmalloc.SizeClass.Powers.{sub_small}
use allocators_rs.Elfmalloc.General
use allocators_rs.Elfmalloc.General.{
  Memory, AllocInfo, get_type, get_page_size, get_commitment, get_size, get_layout, large_alloc,
  large_free, round_to_page, AllocType, small_slag, big_slag, large, ElfMalloc, ObjectAllocs,
  elfmalloc_page_size,
}

-- The pages that the mapping for an object has.
abbrev pub large_pages : ℕ → ℕ
large_pages bytes = (bytes + 2 ^ 21) / 2 ^ 16 + min 1 ((bytes + 2 ^ 21) % 2 ^ 16)

round_to_page_lem : (x : ℕ) → x < usize_mod → round_to_page x ≡ x - x % 2 ^ 21
unfolding round_to_page
round_to_page_lem x h = and_not_mask 21 x (omega arith) h

-- The commitment of an object lies in the last 2 MiB in front of it, apart from it.
commitment-apart :
    (base : ℕ)
    → base % 2 ^ 16 ≡ 0
    → base + 2 ^ 21 < usize_mod
    → (base ≤ round_to_page (base + 2 ^ 21 - 1))
      × (round_to_page (base + 2 ^ 21 - 1) + 24 ≤ base + 2 ^ 21)
commitment-apart base aligned bound =
    rw (round_to_page_lem (base + 2 ^ 21 - 1) (omega arith)) (omega arith, omega arith)

large_alloc_lem :
    (fallible_map : ℕ → Option ℕ) (system_page_size bytes : ℕ) (r : ℕ × List Region)
    → bytes + 2 ^ 21 < usize_mod
    → r.0 + 2 ^ 21 < usize_mod
    → mmap_carve fallible_map system_page_size (2 ^ 16) (large_pages bytes) ≡ some r
    → large_alloc fallible_map system_page_size bytes
      ≡ done (r.0 + 2 ^ 21, record { ty = large; base = r.0; region_size = bytes + 2 ^ 21 })
unfolding large_alloc mmap_new next_power_of_two
large_alloc_lem fallible_map system_page_size bytes r fits room e =
    let region : add_usize bytes (2 ^ 21) ≡ bytes + 2 ^ 21 = mod-eq_of_lt fits in
    let object : add_usize r.0 (2 ^ 21) ≡ r.0 + 2 ^ 21 = mod-eq_of_lt room in
    rw (large_alloc, region, e, object)
      (ap (λ n. done (r.0 + 2 ^ 21, record { ty = large; base = r.0; region_size = n })) region)

-- What the commitment says is found again.
module _ (memory : Memory) (p : ℕ) (info : AllocInfo)
    (e : memory (round_to_page (sub_usize p 1)) ≡ info) where
  pub get_page_size-large : p % 2 ^ 16 ≡ 0 → info.ty ≡ large → get_page_size memory p ≡ none
  unfolding get_page_size get_type
  get_page_size-large aligned tag =
      let type : get_type memory p ≡ large = ap (λ (i : AllocInfo). i.ty) e ∙ tag in
      rw (get_page_size, aligned, type) refl

  large_free-some : 0 < info.base → large_free memory p ≡ some (info.base, info.region_size)
  unfolding large_free get_commitment
  large_free-some pos =
      let held : (info.base == 0) ≡ false = ==_ne info.base 0 (λ z. omega (arith, pos, z)) in
      ap {B = Option Region}
        (λ (i : AllocInfo).
          if i.region_size == 0 && i.base == 0 then none else some (i.base, i.region_size))
        e
      ∙ elim (Bool-cases (info.region_size == 0)) [
        | inl zero_size ↦ rw (zero_size, held) refl
        | inr f ↦ rw f refl
      ]

  get_size-sub : get_size memory p ≡ sub_usize info.region_size elfmalloc_page_size
  unfolding get_size get_commitment
  get_size-sub = ap (λ (i : AllocInfo). sub_usize i.region_size elfmalloc_page_size) e

  get_layout-large :
      (object_size : ℕ → ℕ) (system_page_size : ℕ)
      → info.ty ≡ large
      → get_layout memory object_size system_page_size p
        ≡ (sub_usize info.region_size elfmalloc_page_size, system_page_size)
  unfolding get_layout get_type
  get_layout-large object_size system_page_size tag =
      let type : get_type memory p ≡ large = ap (λ (i : AllocInfo). i.ty) e ∙ tag in
      rw (get_layout, type) (ap {B = ℕ × ℕ} (λ n. (n, system_page_size)) get_size-sub)

-- A large object at `p` after a mapping at `mem`: it is 2 MiB behind an aligned address of the mapping,
-- and fits; its commitment is in between. Its size is found again, and a free unmaps what is from that
-- address to its end.
abbrev pub Mapped :
    (O : ObjectAllocs) → (ℕ → Option ℕ) → ℕ → ElfMalloc → (mem bytes : ℕ) → ℕ × O.State → Type 0
Mapped O fallible_map system_page_size e mem bytes (p, t) =
    (base : ℕ) × (p ≡ base + 2 ^ 21)
    × (p % 2 ^ 16 ≡ 0)
    × (mem ≤ base)
    × (p + bytes ≤ mem + (large_pages bytes * 2 ^ 16 + 2 ^ 16))
    × (base ≤ round_to_page (p - 1))
    × (round_to_page (p - 1) + 24 ≤ p)
    × (get_layout (O.memory t) (O.object_size t) system_page_size p ≡ (bytes, system_page_size))
    × (General.free O fallible_map system_page_size e t p ≡ done (some (base, bytes + 2 ^ 21), t))

module _ (O : ObjectAllocs) (fallible_map : ℕ → Option ℕ) (system_page_size : ℕ)
    (e : ElfMalloc) where
  -- A request above the largest class, when the system has a mapping for it and sizes and addresses do
  -- not overflow, returns an object behind its commitment in the mapping; the layout found
  -- by its address is its size and the system's page size, and a free unmaps from the start of the block in the mapping to the end of the object.
  pub alloc-Mapped :
      (bytes mem : ℕ) (s : O.State)
      → e.max_size < bytes
      → 0 < mem
      → system_page_size < 2 ^ 16
      → mem + (large_pages bytes * 2 ^ 16 + 2 ^ 16) < usize_mod
      → fallible_map (large_pages bytes * 2 ^ 16 + 2 ^ 16) ≡ some mem
      → Returns
          (Mapped O fallible_map system_page_size e mem bytes)
          (General.alloc O fallible_map system_page_size e s bytes)
  unfolding General.alloc General.free large_alloc
  alloc-Mapped bytes mem s above there small bound mapped =
      let not_le : leb bytes e.max_size ≡ false = ground (arith, above) in
      let (r, carved, (aligned, behind, inside, total, rest)) =
        mmap_carve-Trimmed fallible_map system_page_size 16 (large_pages bytes) mem small
          (omega (arith, bound)) mapped in
      let enough : bytes + 2 ^ 21 ≤ large_pages bytes * 2 ^ 16 = omega arith in
      let room : r.0 + 2 ^ 21 < usize_mod = omega (arith, inside, enough, bound) in
      let info : AllocInfo = record { ty = large; base = r.0; region_size = bytes + 2 ^ 21 } in
      let p = r.0 + 2 ^ 21 in
      let t = O.write s (round_to_page (sub_usize p 1)) info in
      let written : O.memory t (round_to_page (sub_usize p 1)) ≡ info =
        O.write_lem s (round_to_page (sub_usize p 1)) (round_to_page (sub_usize p 1)) info
        ∙ ap (λ b. if b then info else O.memory s (round_to_page (sub_usize p 1))) (==_self _) in
      let (low, high) = commitment-apart r.0 aligned room in
      let positive : 0 < r.0 = omega (arith, behind, there) in
      rw
        (
          General.alloc,
          not_le,
          large_alloc_lem fallible_map system_page_size bytes r (omega (arith, enough, bound)) room
              carved,
        )
        (returns (
          r.0,
          refl,
          omega (arith, aligned),
          behind,
          omega (arith, inside, enough),
          low,
          high,
          get_layout-large (O.memory t) p info written (O.object_size t) system_page_size refl
              ∙ ap {B = ℕ × ℕ} (λ n. (n, system_page_size))
                  (sub_small (2 ^ 21) (bytes + 2 ^ 21) (omega arith) (omega (arith, enough, bound))
                    ∙ omega arith),
          rw
              (
                General.free,
                get_page_size-large (O.memory t) p info written (omega (arith, aligned)) refl,
                large_free-some (O.memory t) p info written positive,
              )
              refl,
        ))
