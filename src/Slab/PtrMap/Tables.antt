-- ===== src/Slab/PtrMap/Tables.antt =====
-- The buckets of a table: every entry is in the bucket of its hash, so that the entries with a key
-- are those of one bucket.
use native.Mathlib.Nat.{mod-lt, one-le-pow}
use allocators_rs.Base.{
  ℕ, zero, suc, ◌+◌, ◌/◌, ◌%◌, ◌^◌, ◌<◌, ◌≤◌, ◌≡◌, ◌≢◌, refl, sym, ap, subst, ◌∙◌, List, [], ◌∷◌,
  length, length-set, get_or, set, All, arith, ==_ne, ℕ_discrete, true, false, not, bit_and, inl,
  inr,
}
use allocators_rs.Base.Bits.{and_low_mask, mod-next_bit, and_bit_cases}
use allocators_rs.Slab.PtrMap.{Slot, vacant, Bucket, slots, default, hash_with_len, get_bucket}
use allocators_rs.Slab.PtrMap.Totals.{
  sum, sum-set, total, total_all, keyed, valued, occupied, get_or-set_self, get_or-set_ne,
}
use allocators_rs.Slab.PtrMap.Buckets.{Shape}
use allocators_rs.Slab.PtrMap.Splitting.{moves}

module _ {ℓ} {A : Type ℓ} where
  pub sum-zero : (g : A → ℕ) (xs : List A) → All (λ x. g x ≡ 0) xs → sum g xs ≡ 0
  sum-zero g [] ps = refl
  sum-zero g (x ∷ xs) (p, ps) = omega (arith, p, sum-zero g xs ps)

  pub sum_mono : (g h : A → ℕ) (xs : List A) → ((x : A) → g x ≤ h x) → sum g xs ≤ sum h xs
  sum_mono g h [] le = omega arith
  sum_mono g h (x ∷ xs) le = omega (arith, le x, sum_mono g h xs le)

  pub sum-none :
      (g : A → ℕ) (xs : List A) (d : A) → ((j : ℕ) → g (get_or xs j d) ≡ 0) → sum g xs ≡ 0
  sum-none g [] d h = refl
  sum-none g (x ∷ xs) d h = omega (arith, h 0, sum-none g xs d (λ j. h (suc j)))

  pub sum-single :
      (g : A → ℕ) (xs : List A) (i : ℕ) (d : A)
      → i < length xs
      → ((j : ℕ) → j ≢ i → g (get_or xs j d) ≡ 0)
      → sum g xs ≡ g (get_or xs i d)
  sum-single g [] i d h off = absurd (omega arith)
  sum-single g (x ∷ xs) zero d h off =
      omega (arith, sum-none g xs d (λ j. off (suc j) (λ e. absurd (cc e))))
  sum-single g (x ∷ xs) (suc i) d h off = omega (
    arith,
    off 0 (λ e. absurd (cc e)),
    sum-single g xs i d (omega (arith, h)) (λ j ne. off (suc j) (λ e. ne (omega (arith, e)))),
  )

  pub All-map {κ} : (P Q : A → Type κ) (xs : List A) → ((x : A) → P x → Q x) → All P xs → All Q xs
  All-map P Q [] h ps = tt
  All-map P Q (x ∷ xs) h (p, ps) = (h x p, All-map P Q xs h ps)

-- A property of every chain of a table, by number.
pub set_all :
    (R : ℕ → Bucket → Type 0) (vec : List Bucket) (i : ℕ) (b : Bucket)
    → i < length vec
    → R i b
    → ((j : ℕ) → j ≢ i → R j (get_bucket vec j))
    → (j : ℕ) → R j (get_bucket (set vec i b) j)
set_all R vec i b h r old j = elim (ℕ_discrete j i) [
  | yes e ↦
      subst (λ t. R t (get_bucket (set vec i b) t)) (sym e)
        (subst (R i) (sym (get_or-set_self vec i b default h)) r)
  | no ne ↦ subst (R j) (sym (get_or-set_ne vec i j b default ne)) (old j ne)
]

pub set_two :
    (R : ℕ → Bucket → Type 0) (vec : List Bucket) (i p : ℕ) (b c : Bucket)
    → i < length vec
    → p < length vec
    → R i b
    → R p c
    → ((j : ℕ) → j ≢ i → j ≢ p → R j (get_bucket vec j))
    → (j : ℕ) → R j (get_bucket (set (set vec i b) p c) j)
set_two R vec i p b c hi hp rb rc old =
    set_all R (set vec i b) p c (omega (arith, hp, length-set vec i b)) rc
      (set_all (λ j x. j ≢ p → R j x) vec i b hi (λ ne. rb) (λ j ne ne'. old j ne ne'))

pub total_all-set :
    (g : Slot → ℕ) (vec : List Bucket) (i : ℕ) (b : Bucket)
    → i < length vec
    → total_all g (set vec i b) + total g (get_bucket vec i) ≡ total_all g vec + total g b
total_all-set g vec i b h = sum-set (total g) vec i b default h

module _ (sh : ℕ) where
  -- The hash in a table of `2 ^ a` buckets.
  abbrev pub home : ℕ → ℕ → ℕ
  home a k = hash_with_len sh k (2 ^ a)

  pub home_mod : (a k : ℕ) → home a k ≡ k / 2 ^ sh % 2 ^ a
  home_mod a k = and_low_mask a (k / 2 ^ sh)

  pub home-lt : (a k : ℕ) → home a k < 2 ^ a
  home-lt a k =
      subst (λ t. t < 2 ^ a) (sym (home_mod a k))
        (mod-lt (k / 2 ^ sh) (one-le-pow a 2 (omega arith)))

  -- The hash in a table of twice the length has one bit more.
  pub home-suc : (a k : ℕ) → home (suc a) k ≡ home a k + bit_and (k / 2 ^ sh) (2 ^ a)
  home-suc a k = omega (arith, home_mod a k, home_mod (suc a) k, mod-next_bit a (k / 2 ^ sh))

  pub home-stays : (a : ℕ) (s : Slot) → moves sh (2 ^ a) s ≡ false → home (suc a) s.0 ≡ home a s.0
  home-stays a s e = elim (ℕ_discrete (bit_and (s.0 / 2 ^ sh) (2 ^ a)) 0) [
    | yes z ↦ omega (arith, home-suc a s.0, z)
    | no ne ↦ absurd (cc (e, ap not (==_ne (bit_and (s.0 / 2 ^ sh) (2 ^ a)) 0 ne)))
  ]

  pub home-moves :
      (a : ℕ) (s : Slot) → moves sh (2 ^ a) s ≡ true → home (suc a) s.0 ≡ home a s.0 + 2 ^ a
  home-moves a s e = elim (and_bit_cases a (s.0 / 2 ^ sh)) [
    | inl z ↦ absurd (cc (e, z))
    | inr one ↦ omega (arith, home-suc a s.0, one)
  ]

  -- An entry of chain `i`.
  abbrev pub Home : (a i : ℕ) → Slot → Type 0
  Home a i s = s.0 ≢ 0 → home a s.0 ≡ i

  pub vacant-Home : (a i : ℕ) → Home a i vacant
  vacant-Home a i ne = absurd (ne refl)

  pub record Table (a : ℕ) (vec : List Bucket) : Type 0 where
    pub len : length vec ≡ 2 ^ a
    pub placed : (i : ℕ) → All (Home a i) (slots (get_bucket vec i))
    pub shaped : (i : ℕ) → Shape (get_bucket vec i)

  -- A weight of the entries with one key.
  abbrev pub Only : ℕ → (Slot → ℕ) → Type 0
  Only k g = (s : Slot) → s.0 ≢ k → g s ≡ 0

  pub total_all-local :
      (a : ℕ) (vec : List Bucket) (k : ℕ) (g : Slot → ℕ)
      → Table a vec
      → 0 < k
      → Only k g
      → total_all g vec ≡ total g (get_bucket vec (home a k))
  total_all-local a vec k g table pos only =
      sum-single (total g) vec (home a k) default
        (subst (λ n. home a k < n) (sym table.len) (home-lt a k))
        (λ j ne. sum-zero g (slots (get_bucket vec j)) (
          All-map (Home a j) (λ s. g s ≡ 0) (slots (get_bucket vec j))
            (λ s at. elim (ℕ_discrete s.0 k) [
              | yes e ↦
                  absurd (ne (sym (at (λ z. omega (arith, z, e, pos))) ∙ ap {B = ℕ} (home a) e))
              | no other ↦ only s other
            ])
            (table.placed j)))

pub keyed-Only : (k : ℕ) (s : Slot) → s.0 ≢ k → keyed k s ≡ 0
keyed-Only k s ne = rw (==_ne k s.0 (λ e. ne (sym e))) refl

pub valued-Only : (k : ℕ) (s : Slot) → s.0 ≢ k → valued k s ≡ 0
valued-Only k s ne = rw (==_ne k s.0 (λ e. ne (sym e))) refl

pub keyed-le : (k : ℕ) → 0 < k → (s : Slot) → keyed k s ≤ occupied s
keyed-le k pos s = ground arith
