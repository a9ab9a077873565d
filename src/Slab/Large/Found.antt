-- ===== src/Slab/Large/Found.antt =====
-- The slab of every object is found, and when the slab is freed the table is what it was.
use native.Mathlib.Nat.{
  one-le-pow, mod-lt, mod-add-div', suc-mul, add-mul-mod_self_right, eq_of_mul-eq-mul_right,
}
use allocators_rs.Base.{
  ℕ, zero, suc, ◌+◌, ◌-◌, ◌*◌, ◌/◌, ◌%◌, ◌^◌, ◌<◌, ◌≤◌, ◌≡◌, refl, sym, ap, subst, ◌∙◌, Bool, true,
  false, some, none, arith, Checked, done, Returns, returns, Returns-map, bit_and, if◌then◌else◌,
  dec_lt,
}
use allocators_rs.Base.Words.{usize_mod}
use allocators_rs.Base.Bits.{not_usize}
use allocators_rs.Slab.Layout.{Layout, nth_obj}
use allocators_rs.Slab.Aligned
use allocators_rs.Slab.Aligned.Place.{ptr_to_slab-inside}
use allocators_rs.Slab.Color.{scale_mono}
use allocators_rs.Slab.PtrMap.{PtrHashMap}
use allocators_rs.Slab.PtrMap.Buckets.{found}
use allocators_rs.Slab.PtrMap.Entries.{Pointers}
use allocators_rs.Slab.PtrMap.Represents.{Represents, get-Represents}
use allocators_rs.Slab.Large.{ConfigData, page_ptr, with_map, post_alloc, pre_dealloc, ptr_to_slab}
use allocators_rs.Slab.Large.Keys.{
  with_keys, New, with_keys-key, insert_keys-Represents, delete_keys-Represents,
}

-- The keys of a slab, and their number.
abbrev pub key : (log_page : ℕ) → Layout → (by_page : Bool) → (slab color : ℕ) → ℕ → ℕ
key log_page layout by_page slab color i =
    if by_page then page_ptr log_page slab i else nth_obj layout slab color i

abbrev pub n_keys : (log_page : ℕ) → Layout → (by_page : Bool) → (slab_size : ℕ) → ℕ
n_keys log_page layout by_page slab_size =
    if by_page then slab_size / 2 ^ log_page else layout.num_obj

abbrev pub config : Bool → PtrHashMap → ConfigData
config by_page m = record { map = m; map_by_page_addr = by_page }

-- The table represents `f`.
abbrev pub Configured : (by_page : Bool) → Pointers → ConfigData → Type 0
Configured by_page f c = (m : PtrHashMap) × (c ≡ config by_page m) × Represents m f

module _ (log_page : ℕ) (layout : Layout) (slab_size slab color : ℕ) (f : Pointers) where
  mapped-Configured :
      (by_page : Bool) (g : Pointers) (m0 : PtrHashMap) (m : Checked PtrHashMap)
      → Returns (λ m'. Represents m' g) m
      → Returns (Configured by_page g) (with_map log_page (config by_page m0) m)
  unfolding with_map
  mapped-Configured by_page g m0 m (returns {a = m'} rep) = returns (m', refl, rep)

  post_alloc-Configured :
      (by_page : Bool) (m : PtrHashMap)
      → Represents m f
      → New
          (key log_page layout by_page slab color)
          slab
          f
          (n_keys log_page layout by_page slab_size)
      → Returns
          (Configured by_page (
            with_keys
              (key log_page layout by_page slab color)
              slab
              f
              (n_keys log_page layout by_page slab_size)))
          (post_alloc log_page layout slab_size slab color (config by_page m))
  unfolding post_alloc
  post_alloc-Configured true m rep new =
      mapped-Configured true _ m _ (
        insert_keys-Represents (page_ptr log_page slab) slab f (slab_size / 2 ^ log_page) m new rep)
  post_alloc-Configured false m rep new =
      mapped-Configured false _ m _
        (insert_keys-Represents (nth_obj layout slab color) slab f layout.num_obj m new rep)

  pre_dealloc-Configured :
      (by_page : Bool) (c : ConfigData)
      → New
          (key log_page layout by_page slab color)
          slab
          f
          (n_keys log_page layout by_page slab_size)
      → Configured by_page
          (with_keys
            (key log_page layout by_page slab color)
            slab
            f
            (n_keys log_page layout by_page slab_size))
          c
      → Returns (Configured by_page f) (pre_dealloc log_page layout slab_size slab color c)
  unfolding pre_dealloc
  pre_dealloc-Configured true c new (m, e, rep) =
      subst (λ c. Returns (Configured true f) (pre_dealloc log_page layout slab_size slab color c))
        (sym e)
        (mapped-Configured true f m _ (
          delete_keys-Represents (page_ptr log_page slab) slab f (slab_size / 2 ^ log_page) m new
            rep))
  pre_dealloc-Configured false c new (m, e, rep) =
      subst (λ c. Returns (Configured false f) (pre_dealloc log_page layout slab_size slab color c))
        (sym e)
        (mapped-Configured false f m _
          (delete_keys-Represents (nth_obj layout slab color) slab f layout.num_obj m new rep))

  pages_New :
      (n : ℕ)
      → 0 < slab
      → ((i : ℕ) → i < n → f (page_ptr log_page slab i) ≡ none)
      → New (page_ptr log_page slab) slab f n
  pages_New zero pos absent = tt
  pages_New (suc n) pos absent = (
    omega (arith, pos),
    absent n (omega arith),
    λ j less e. omega (
      arith,
      less,
      eq_of_mul-eq-mul_right (2 ^ log_page) (one-le-pow log_page 2 (omega arith)) n j
          (omega (arith, e)),
    ),
    pages_New n pos (λ i less. absent i (omega (arith, less))),
  )

  -- The page of a pointer into the slab.
  page_of :
      (p : ℕ)
      → log_page ≤ 64
      → slab % 2 ^ log_page ≡ 0
      → slab_size % 2 ^ log_page ≡ 0
      → slab ≤ p
      → p < slab + slab_size
      → slab + slab_size ≤ usize_mod
      → (j : ℕ) × (j < slab_size / 2 ^ log_page)
        × (bit_and p (not_usize (2 ^ log_page - 1)) ≡ page_ptr log_page slab j)
  unfolding Aligned.ptr_to_slab
  page_of p small aligned whole low high top =
      let page = 2 ^ log_page in
      let pos : 0 < page = one-le-pow log_page 2 (omega arith) in
      let j = (p - slab) / page in
      let at = mod-add-div' (p - slab) page in
      let rest = mod-lt (p - slab) pos in
      let count = mod-add-div' slab_size page in
      let within : j < slab_size / page = elim (dec_lt j (slab_size / page)) [
        | yes less ↦ less
        | no not_less ↦ absurd (
            omega (
              arith,
              scale_mono (slab_size / page) j page (omega (arith, not_less)),
              count,
              whole,
              at,
              high,
              low,
            ))
      ] in
      let behind : j * page + page ≤ slab_size / page * page =
        omega (arith, scale_mono (suc j) (slab_size / page) page within, suc-mul j page) in
      (
        j,
        within,
        ptr_to_slab-inside log_page (page_ptr log_page slab j) p small
            (add-mul-mod_self_right slab j page ∙ aligned) (omega (arith, at, low))
            (omega (arith, at, rest, low)) (omega (arith, count, whole, behind, top)),
      )

  found_slab :
      (g : Pointers) (c : ConfigData) (p : ℕ)
      → Configured true g c
      → 0 < bit_and p (not_usize (2 ^ log_page - 1))
      → g (bit_and p (not_usize (2 ^ log_page - 1))) ≡ some slab
      → ptr_to_slab log_page c p ≡ done slab
  unfolding ptr_to_slab
  found_slab g c p (m, e, rep) pos there =
      subst (λ c. ptr_to_slab log_page c p ≡ done slab) (sym e)
        (get-Represents m g (bit_and p (not_usize (2 ^ log_page - 1))) rep pos ∙ ap found there)

-- A large slab is found from every pointer into it. With the table that maps by pages, and that
-- represents a finite map, let a slab be of whole pages at an aligned address that is not null, with no
-- page in the map. Then `post_alloc` does not panic, and in its table `ptr_to_slab` returns the slab for
-- every pointer into it; and `pre_dealloc` does not panic then, and its table represents the map from
-- before `post_alloc`, so that the slabs of all other pages are still found.
pub post_alloc-found :
    (log_page : ℕ) (layout : Layout) (slab_size slab color p : ℕ) (f : Pointers) (m : PtrHashMap)
    → log_page ≤ 64
    → slab % 2 ^ log_page ≡ 0
    → slab_size % 2 ^ log_page ≡ 0
    → 0 < slab
    → slab ≤ p
    → p < slab + slab_size
    → slab + slab_size ≤ usize_mod
    → ((i : ℕ) → i < slab_size / 2 ^ log_page → f (page_ptr log_page slab i) ≡ none)
    → Represents m f
    → Returns
        (λ c.
          (ptr_to_slab log_page c p ≡ done slab)
          × Returns (Configured true f) (pre_dealloc log_page layout slab_size slab color c))
        (post_alloc log_page layout slab_size slab color (config true m))
post_alloc-found log_page layout slab_size slab color p f m small aligned whole pos low high top
      absent rep =
    let new =
      pages_New log_page layout slab_size slab color f (slab_size / 2 ^ log_page) pos absent in
    let (j, within, at) =
      page_of log_page layout slab_size slab color f p small aligned whole low high top in
    Returns-map
      (λ c h. (
        found_slab log_page layout slab_size slab color f _ c p h (omega (arith, at, pos)) (
            ap (with_keys (page_ptr log_page slab) slab f (slab_size / 2 ^ log_page)) at
            ∙ with_keys-key (page_ptr log_page slab) slab f (slab_size / 2 ^ log_page) j within),
        pre_dealloc-Configured log_page layout slab_size slab color f true c new h,
      ))
      (post_alloc-Configured log_page layout slab_size slab color f true m rep new)
