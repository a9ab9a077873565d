-- ===== src/Slab/PtrMap/Entries.antt =====
-- The table as a finite map: what lookup, insertion and deletion do to the entries.
use allocators_rs.Base.{
  ℕ, suc, ◌+◌, ◌<◌, ◌≡◌, ◌≢◌, refl, sym, ap, subst, ◌∙◌, Option, some, none, List, length,
  length-set, get_elem?, set, All, arith, ◌==◌, ==_ne, ==_self, if◌then◌else◌, ℕ_discrete, Checked,
  Returns, returns,
}
use allocators_rs.Slab.PtrMap.{
  Slot, Bucket, slots, default, get_bucket, find_value, bucket_insert, bucket_delete, PtrHashMap,
  hash, hash_with_len, get, insert_at, put_bucket, delete_at,
}
use allocators_rs.Slab.PtrMap.Totals.{
  sum, Vanishes, total, total_all, keyed, valued, occupied, keyed-Vanishes, valued-Vanishes,
  occupied-Vanishes, find_value-none, find_value-some, values-none, get_elem?-get_or,
}
use allocators_rs.Slab.PtrMap.Buckets.{
  Shape, found, bucket_get-found, bucket_insert-More, bucket_insert-Shape,
}
use allocators_rs.Slab.PtrMap.Deletes.{Deleted, bucket_delete-Deleted}
use allocators_rs.Slab.PtrMap.Tables.{
  home, Home, home-lt, vacant-Home, Table, total_all-local, total_all-set, keyed-Only, valued-Only,
  set_all,
}
use allocators_rs.Slab.PtrMap.Grow.{Same}

-- The finite map from keys to values.
abbrev pub Pointers : Type 0
Pointers = ℕ → Option ℕ

abbrev pub update : Pointers → ℕ → Option ℕ → Pointers
update f k o j = if j == k then o else f j

-- The entries with a key: none, or the one with its value.
abbrev pub Entry : List Bucket → ℕ → Option ℕ → Type 0
Entry vec k none = total_all (keyed k) vec ≡ 0
Entry vec k (some v) = (total_all (keyed k) vec ≡ 1) × (total_all (valued k) vec ≡ suc v)

abbrev pub Entries : List Bucket → Pointers → Type 0
Entries vec f = (k : ℕ) → 0 < k → Entry vec k (f k)

-- A table holds the entries of a map, and their number.
pub record Holds (a : ℕ) (m : PtrHashMap) (f : Pointers) : Type 0 where
  pub table : Table m.align_shift a m.vec
  pub entries : Entries m.vec f
  pub counted : m.size ≡ total_all occupied m.vec

Entry-same :
    (vec vec' : List Bucket) (k : ℕ) (o : Option ℕ)
    → total_all (keyed k) vec' ≡ total_all (keyed k) vec
    → total_all (valued k) vec' ≡ total_all (valued k) vec
    → Entry vec k o
    → Entry vec' k o
Entry-same vec vec' k none p q e = p ∙ e
Entry-same vec vec' k (some v) p q (e, e') = (p ∙ e, q ∙ e')

pub resized :
    (a : ℕ) (m m' : PtrHashMap) (f : Pointers)
    → Table m'.align_shift a m'.vec
    → Same m.vec m'.vec
    → m'.size ≡ m.size
    → Entries m.vec f
    → m.size ≡ total_all occupied m.vec
    → Holds a m' f
resized a m m' f table same size entries counted = record {
  table = table;
  entries = λ k pos.
      Entry-same m.vec m'.vec k (f k) (same (keyed k) (keyed-Vanishes k pos))
        (same (valued k) (valued-Vanishes k pos)) (entries k pos);
  counted = size ∙ counted ∙ sym (same occupied occupied-Vanishes);
}

module _ (a : ℕ) (m : PtrHashMap) (f : Pointers) (holds : Holds a m f) where
  chain : ℕ → Bucket
  chain k = get_bucket m.vec (hash m k)

  hash-home : (k : ℕ) → hash m k ≡ home m.align_shift a k
  hash-home k = ap (hash_with_len m.align_shift k) holds.table.len

  hash-lt : (k : ℕ) → hash m k < length m.vec
  hash-lt k = omega (arith, hash-home k, home-lt m.align_shift a k, holds.table.len)

  at_hash : (k : ℕ) → get_elem? m.vec (hash m k) ≡ some (get_bucket m.vec (hash m k))
  at_hash k = get_elem?-get_or m.vec (hash m k) default (hash-lt k)

  -- The entries with a key are those of its chain.
  local :
      (k : ℕ) (g : Slot → ℕ)
      → 0 < k
      → ((s : Slot) → s.0 ≢ k → g s ≡ 0)
      → total_all g m.vec ≡ total g (get_bucket m.vec (hash m k))
  local k g pos only =
      total_all-local m.align_shift a m.vec k g holds.table pos only
      ∙ ap (λ i. total g (get_bucket m.vec i)) (sym (hash-home k))

  in_chain :
      (k : ℕ) (o : Option ℕ)
      → 0 < k
      → Entry m.vec k o
      → find_value k (slots (get_bucket m.vec (hash m k))) ≡ o
  in_chain k none pos e =
      find_value-none k (slots (get_bucket m.vec (hash m k)))
        (sym (local k (keyed k) pos (keyed-Only k)) ∙ e)
  in_chain k (some v) pos (e, e') =
      find_value-some k v (slots (get_bucket m.vec (hash m k)))
        (sym (local k (keyed k) pos (keyed-Only k)) ∙ e)
        (sym (local k (valued k) pos (valued-Only k)) ∙ e')

  -- Lookup.
  pub get-found : (k : ℕ) → 0 < k → get m k ≡ found (f k)
  unfolding get
  get-found k pos =
      rw (get, at_hash k)
        (bucket_get-found (get_bucket m.vec (hash m k)) k
          ∙ ap found (in_chain k (f k) pos (holds.entries k pos)))

  no_value : (k : ℕ) → 0 < k → total_all (keyed k) m.vec ≡ 0 → total_all (valued k) m.vec ≡ 0
  no_value k pos e =
      local k (valued k) pos (valued-Only k)
      ∙ values-none k (slots (get_bucket m.vec (hash m k)))
          (sym (local k (keyed k) pos (keyed-Only k)) ∙ e)

  -- A chain is replaced by one with the same home.
  replaced :
      (k : ℕ) (b : Bucket)
      → (All (Home m.align_shift a (hash m k)) (slots (get_bucket m.vec (hash m k)))
          → All (Home m.align_shift a (hash m k)) (slots b))
      → Shape b
      → Table m.align_shift a (set m.vec (hash m k) b)
  replaced k b all shape = record {
    len = length-set m.vec (hash m k) b ∙ holds.table.len;
    placed =
        set_all (λ i c. All (Home m.align_shift a i) (slots c)) m.vec (hash m k) b (hash-lt k)
          (all (holds.table.placed (hash m k))) (λ j ne. holds.table.placed j);
    shaped =
        set_all (λ i c. Shape c) m.vec (hash m k) b (hash-lt k) shape
          (λ j ne. holds.table.shaped j);
  }

  -- Insertion into the chain of a key that the map does not have.
  pub insert_at-Holds :
      (k v : ℕ)
      → 0 < k
      → f k ≡ none
      → Returns (λ m'. Holds a m' (update f k (some v))) (insert_at m (k, v))
  unfolding insert_at
  insert_at-Holds k v pos absent =
      let i = hash m k in
      let b = get_bucket m.vec i in
      let b' = bucket_insert b (k, v) in
      let sh = m.align_shift in
      let more : (g : Slot → ℕ)
          → Vanishes g
          → total_all g (set m.vec i b') ≡ total_all g m.vec + g (k, v) =
        λ g z. omega (
          arith,
          total_all-set g m.vec i b' (hash-lt k),
          (bucket_insert-More g (λ s. Unit {0}) z b (k, v) tt).0,
        ) in
      let none_yet : total_all (keyed k) m.vec ≡ 0 =
        subst (Entry m.vec k) absent (holds.entries k pos) in
      rw (insert_at, at_hash k)
        (returns (record {
          table =
              replaced k b'
                (λ ps.
                  (bucket_insert-More (λ s. 0) (Home sh a i) (λ s e. refl) b (k, v)
                      (vacant-Home sh a i)).1
                    (λ ne. sym (hash-home k)) ps)
                (bucket_insert-Shape b (k, v) (holds.table.shaped i));
          entries = λ j pos'. elim (ℕ_discrete j k) [
            | yes e ↦
                rw (e, ==_self k)
                  (
                    omega (
                      arith,
                      more (keyed k) (keyed-Vanishes k pos),
                      none_yet,
                      ap {B = ℕ} (λ t. if t then 1 else 0) (==_self k),
                    ),
                    omega (
                      arith,
                      more (valued k) (valued-Vanishes k pos),
                      no_value k pos none_yet,
                      ap {B = ℕ} (λ t. if t then suc v else 0) (==_self k),
                    ),
                  )
            | no ne ↦ rw (==_ne j k ne) (
                Entry-same m.vec (set m.vec i b') j (f j)
                  (omega (
                    arith,
                    more (keyed j) (keyed-Vanishes j pos'),
                    keyed-Only j (k, v) (λ e. ne (sym e)),
                  ))
                  (omega (
                    arith,
                    more (valued j) (valued-Vanishes j pos'),
                    valued-Only j (k, v) (λ e. ne (sym e)),
                  ))
                  (holds.entries j pos'))
          ];
          counted = ground (arith, more occupied occupied-Vanishes, holds.counted, pos);
        }))

  removed :
      (k : ℕ) (c : Checked Bucket)
      → 0 < k
      → total_all (keyed k) m.vec ≡ 1
      → Returns
          (Deleted
            (Home m.align_shift a (hash m k))
            (vacant-Home m.align_shift a (hash m k))
            k
            (get_bucket m.vec (hash m k)))
          c
      → Returns (λ m'. Holds a m' (update f k none)) (put_bucket m (hash m k) c)
  unfolding put_bucket
  removed k c pos one (returns {a = b'} (less, shape)) =
      let (s, e, sums, all) = less in
      let i = hash m k in
      let fewer : (g : Slot → ℕ)
          → Vanishes g
          → total_all g (set m.vec i b') + g s ≡ total_all g m.vec =
        λ g z. omega (arith, total_all-set g m.vec i b' (hash-lt k), sums g z) in
      returns (record {
        table = replaced k b' all shape;
        entries = λ j pos'. elim (ℕ_discrete j k) [
          | yes same ↦
              rw (same, ==_self k)
                (omega (
                  arith,
                  fewer (keyed k) (keyed-Vanishes k pos),
                  one,
                  ap {B = ℕ} (λ t. if k == t then 1 else 0) e,
                  ap {B = ℕ} (λ t. if t then 1 else 0) (==_self k),
                ))
          | no ne ↦
              let other : s.0 ≢ j = λ same. ne (sym same ∙ e) in
              rw (==_ne j k ne) (
                Entry-same m.vec (set m.vec i b') j (f j)
                  (omega (arith, fewer (keyed j) (keyed-Vanishes j pos'), keyed-Only j s other))
                  (omega (arith, fewer (valued j) (valued-Vanishes j pos'), valued-Only j s other))
                  (holds.entries j pos'))
        ];
        counted = ground (arith, fewer occupied occupied-Vanishes, holds.counted, pos, e);
      })

  -- Deletion from the chain of a key that the map has.
  pub delete_at-Holds :
      (k v : ℕ)
      → 0 < k
      → f k ≡ some v
      → Returns (λ m'. Holds a m' (update f k none)) (delete_at m k)
  unfolding delete_at
  delete_at-Holds k v pos there =
      let i = hash m k in
      let b = get_bucket m.vec i in
      let sh = m.align_shift in
      let entry : Entry m.vec k (some v) = subst (Entry m.vec k) there (holds.entries k pos) in
      let inside : 0 < sum (keyed k) (slots b) =
        omega (arith, local k (keyed k) pos (keyed-Only k), entry.0) in
      rw (delete_at, at_hash k)
        (removed k (bucket_delete b k) pos entry.0 (
          bucket_delete-Deleted (Home sh a i) (vacant-Home sh a i) b k (holds.table.shaped i)
            inside))
