-- ===== src/Slab/Large/Keys.antt =====
-- The keys of a slab in the pointer table: they are inserted with the slab, and deleted again.
use allocators_rs.Base.{
  ℕ, zero, suc, ◌<◌, ◌≤◌, ◌≡◌, ◌≢◌, refl, sym, ap, subst, ◌∙◌, some, none, arith, Checked, done,
  Returns, returns, Returns-map, ◌⊎◌, inl, inr, ==_ne, ==_iff, ℕ_discrete,
}
use allocators_rs.Slab.PtrMap.{PtrHashMap}
use allocators_rs.Slab.PtrMap.Entries.{Pointers, update, Entry}
use allocators_rs.Slab.PtrMap.Represents.{Represents, insert-Represents, delete-Represents}
use allocators_rs.Slab.Large.{insert_next, delete_next, insert_keys, delete_keys}

module _ (key : ℕ → ℕ) (slab : ℕ) (f : Pointers) where
  -- The map with the first `n` keys.
  abbrev pub with_keys : ℕ → Pointers
  with_keys zero = f
  with_keys (suc n) = update (with_keys n) (key n) (some slab)

  -- Keys that are not null, differ, and are not in the map.
  abbrev pub New : ℕ → Type 0
  New zero = Unit {0}
  New (suc n) = (0 < key n) × (f (key n) ≡ none) × ((j : ℕ) → j < n → key n ≢ key j) × New n

  pub with_keys-other : (n x : ℕ) → ((j : ℕ) → j < n → x ≢ key j) → with_keys n x ≡ f x
  with_keys-other zero x h = refl
  with_keys-other (suc n) x h =
      rw (==_ne x (key n) (h n (omega arith)))
        (with_keys-other n x (λ j less. h j (omega (arith, less))))

  pub with_keys-key : (n j : ℕ) → j < n → with_keys n (key j) ≡ some slab
  with_keys-key zero j h = absurd (omega (arith, h))
  with_keys-key (suc n) j h = elim (ℕ_discrete (key j) (key n)) [
    | yes e ↦ rw ((==_iff (key j) (key n)).1 e) refl
    | no ne ↦ rw (==_ne (key j) (key n) ne) (
        with_keys-key n j (elim (ℕ_discrete j n) [
          | yes same ↦ absurd (ne (ap key same))
          | no other ↦ omega (arith, h, other)
        ]))
  ]

  insert_next-Represents :
      (n : ℕ) (c : Checked PtrHashMap)
      → New (suc n)
      → Returns (λ m. Represents m (with_keys n)) c
      → Returns (λ m. Represents m (with_keys (suc n))) (insert_next (key n) slab c)
  unfolding insert_next
  insert_next-Represents n c (pos, absent, differ, new) (returns {a = m} rep) =
      insert-Represents m (with_keys n) (key n) slab rep pos
        (with_keys-other n (key n) differ ∙ absent)

  pub insert_keys-Represents :
      (n : ℕ) (m : PtrHashMap)
      → New n
      → Represents m f
      → Returns (λ m'. Represents m' (with_keys n)) (insert_keys key slab n (done m))
  unfolding insert_keys
  insert_keys-Represents zero m new rep = returns rep
  insert_keys-Represents (suc n) m new rep =
      insert_next-Represents n _ new (insert_keys-Represents n m new.3 rep)

  key_ne : (n j i : ℕ) → New n → j < n → i < j → key j ≢ key i
  key_ne zero j i new h less = absurd (omega (arith, h))
  key_ne (suc n) j i (pos, absent, differ, new) h less = elim (ℕ_discrete j n) [
    | yes e ↦ λ same. differ i (omega (arith, less, e)) (ap key (sym e) ∙ same)
    | no ne ↦ key_ne n j i new (omega (arith, h, ne)) less
  ]

  key-New : (n j : ℕ) → New n → j < n → (0 < key j) × (f (key j) ≡ none)
  key-New zero j new h = absurd (omega (arith, h))
  key-New (suc n) j (pos, absent, differ, new) h = elim (ℕ_discrete j n) [
    | yes e ↦ subst (λ i. (0 < key i) × (f (key i) ≡ none)) (sym e) (pos, absent)
    | no ne ↦ key-New n j new (omega (arith, h, ne))
  ]

  -- Whether an address is one of the first `n` keys.
  is_key : (n x : ℕ) → ((j : ℕ) × (j < n) × (x ≡ key j)) ⊎ ((j : ℕ) → j < n → x ≢ key j)
  is_key zero x = inr (λ j h. absurd (omega (arith, h)))
  is_key (suc n) x = elim (ℕ_discrete x (key n)) [
    | yes e ↦ inl (n, omega arith, e)
    | no ne ↦ elim (is_key n x) [
      | inl (j, h, e) ↦ inl (j, omega (arith, h), e)
      | inr other ↦ inr (λ j h. elim (ℕ_discrete j n) [
        | yes same ↦ λ e. ne (e ∙ ap key same)
        | no differs ↦ other j (omega (arith, h, differs))
      ])
    ]
  ]

  module _ (n : ℕ) where
    -- The map with the `n` keys, of which the first `i` are deleted.
    minus : ℕ → Pointers
    minus zero = with_keys n
    minus (suc i) = update (minus i) (key i) none

    minus-other : (i x : ℕ) → ((j : ℕ) → j < i → x ≢ key j) → minus i x ≡ with_keys n x
    unfolding minus
    minus-other zero x h = refl
    minus-other (suc i) x h =
        rw (==_ne x (key i) (h i (omega arith)))
          (minus-other i x (λ j less. h j (omega (arith, less))))

    minus-key : (i j : ℕ) → j < i → minus i (key j) ≡ none
    unfolding minus
    minus-key zero j h = absurd (omega (arith, h))
    minus-key (suc i) j h = elim (ℕ_discrete (key j) (key i)) [
      | yes e ↦ rw ((==_iff (key j) (key i)).1 e) refl
      | no ne ↦ rw (==_ne (key j) (key i) ne) (
          minus-key i j (elim (ℕ_discrete j i) [
            | yes same ↦ absurd (ne (ap key same))
            | no other ↦ omega (arith, h, other)
          ]))
    ]

    minus_all : New n → (x : ℕ) → f x ≡ minus n x
    minus_all new x = elim (is_key n x) [
      | inl (j, h, e) ↦
          ap f e ∙ (key-New n j new h).1 ∙ sym (minus-key n j h) ∙ ap (minus n) (sym e)
      | inr other ↦ sym (minus-other n x other ∙ with_keys-other n x other)
    ]

    delete_next-Represents :
        (i : ℕ) (c : Checked PtrHashMap)
        → New n
        → i < n
        → Returns (λ m. Represents m (minus i)) c
        → Returns (λ m. Represents m (minus (suc i))) (delete_next (key i) c)
    unfolding delete_next minus
    delete_next-Represents i c new h (returns {a = m} rep) =
        delete-Represents m (minus i) (key i) slab rep (key-New n i new h).0
          (minus-other i (key i) (λ j less. key_ne n i j new h less) ∙ with_keys-key n i h)

    delete_keys-minus :
        (i : ℕ) (m : PtrHashMap)
        → New n
        → i ≤ n
        → Represents m (with_keys n)
        → Returns (λ m'. Represents m' (minus i)) (delete_keys key i (done m))
    unfolding delete_keys minus
    delete_keys-minus zero m new h rep = returns rep
    delete_keys-minus (suc i) m new h rep =
        delete_next-Represents i _ new (omega (arith, h))
          (delete_keys-minus i m new (omega (arith, h)) rep)

    same_map :
        (m : PtrHashMap) (g : Pointers) → ((x : ℕ) → f x ≡ g x) → Represents m g → Represents m f
    same_map m g h (a, holds) = (
      a,
      record {
        table = holds.table;
        entries = λ k pos. subst (Entry m.vec k) (sym (h k)) (holds.entries k pos);
        counted = holds.counted;
      },
    )

    pub delete_keys-Represents :
        (m : PtrHashMap)
        → New n
        → Represents m (with_keys n)
        → Returns (λ m'. Represents m' f) (delete_keys key n (done m))
    delete_keys-Represents m new rep =
        Returns-map (λ m' r. same_map m' (minus n) (minus_all new) r)
          (delete_keys-minus n m new (omega arith) rep)
