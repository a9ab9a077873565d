-- ===== src/Slab/Sized/History.antt =====
-- Whole histories of a `SizedSlabAlloc`: what its clients do, and what `drop` leaves.
use allocators_rs.Base.{
  ℕ, ◌≡◌, sym, subst, ◌∙◌, Bool, true, Option, some, none, List, [], ◌∷◌, length, arith,
  if◌then◌else◌, ℕ_discrete, Bool-cases, inl, inr, Checked, done, Returns, Returns-map, returns,
  Option-cases,
}
use allocators_rs.Slab.Init.{InitSystem}
use allocators_rs.Slab.System.{has, Distinct, SlabSystem}
use allocators_rs.Slab.Sized
use allocators_rs.Slab.Sized.{SizedSlabAlloc, then_do, remove, drop_slabs}
use allocators_rs.Slab.Sized.Objects.{count}
use allocators_rs.Slab.Sized.Order.{Order-pos}
use allocators_rs.Slab.Sized.Invariant.{Inv, Alloced, Returns-then_do, alloc-Inv, new-Inv}
use allocators_rs.Slab.Sized.Release.{dealloc-Inv}

head-remove : (p : ℕ) (out : List ℕ) → remove p (p ∷ out) ≡ out
unfolding remove
head-remove p out = ground arith

-- What a client asks for; a free comes at some time.
pub data Request (Instant : Type 0) : Type 0 where
  allocate : Request Instant
  free : ℕ → Instant → Request Instant

-- The allocator, and the objects in use.
abbrev pub Session : {I : InitSystem} → SlabSystem I → Type 0 → Type 0
Session S Instant = SizedSlabAlloc S Instant × List ℕ

module _ {I : InitSystem} (S : SlabSystem I) where
  drop_slabs-none :
      (l : List ℕ) (s : S.State)
      → ((x : ℕ) (ps : List ℕ) → S.free s x ≡ some ps → (length ps ≡ S.capacity) × (has x l ≡ true))
      → ((x : ℕ) → has x l ≡ true → (ps : List ℕ) × (S.free s x ≡ some ps))
      → Distinct l
      → (x : ℕ) → S.free (drop_slabs S l s) x ≡ none
  unfolding drop_slabs
  drop_slabs-none [] s all alive d x = elim (Option-cases (S.free s x)) [
    | inl e ↦ e
    | inr (ps, e) ↦ absurd (cc ((all x ps e).1))
  ]
  drop_slabs-none (y ∷ l) s all alive d x =
      let (ps, e) = alive y (ground arith) in
      let (gone, same) = S.dealloc_slab_lem s y ps e (all y ps e).0 in
      drop_slabs-none l (S.dealloc_slab s y)
        (λ z qs f. elim (ℕ_discrete z y) [
          | yes eq ↦ absurd (cc (gone, f, eq))
          | no ne ↦ let (full, there) = all z qs (sym (same z ne) ∙ f) in (full, ground arith)
        ])
        (λ z h. elim (ℕ_discrete z y) [
          | yes eq ↦ absurd (cc (h, eq, d.0))
          | no ne ↦ let (qs, f) = alive z (ground arith) in (qs, same z ne ∙ f)
        ])
        d.1 x

module _ {I : InitSystem} (S : SlabSystem I) {Instant : Type 0} where
  module _ (secs_since : Instant → Instant → ℕ) where
    -- A client frees only what it has.
    abbrev serve : Request Instant → Session S Instant → Checked (Session S Instant)
    serve allocate (a, out) =
        then_do (Sized.alloc S a)
          λ r. elim r.0 [ none ↦ done (r.1, out) | some obj ↦ done (r.1, obj.0 ∷ out) ]
    serve (free p now) (a, out) =
        if has p out
        then then_do (Sized.dealloc S secs_since now a p) (λ b. done (b, remove p out))
        else done (a, out)

    abbrev pub serve_all : List (Request Instant) → Session S Instant → Checked (Session S Instant)
    serve_all [] t = done t
    serve_all (q ∷ qs) t = then_do (serve q t) (serve_all qs)

    serve_alloc :
        (out : List ℕ) (r : Option (ℕ × Bool) × SizedSlabAlloc S Instant)
        → Alloced S out r
        → Returns {A = Session S Instant}
            (λ t. Inv S t.0 t.1)
            (elim r.0 [ none ↦ done (r.1, out) | some obj ↦ done (r.1, obj.0 ∷ out) ])
    serve_alloc out (none, a) h = returns h
    serve_alloc out (some obj, a) h = returns h.1

    serve-Inv :
        (q : Request Instant) (t : Session S Instant)
        → Inv S t.0 t.1
        → Returns (λ u. Inv S u.0 u.1) (serve q t)
    serve-Inv allocate (a, out) inv = Returns-then_do (alloc-Inv S a out inv) (serve_alloc out)
    serve-Inv (free p now) (a, out) inv = elim (Bool-cases (has p out)) [
      | inl there ↦
          rw there
            (Returns-then_do (dealloc-Inv S secs_since now a out p inv there) λ b h. returns h)
      | inr e ↦ rw e (returns inv)
    ]

    serve_all-Inv :
        (qs : List (Request Instant)) (t : Session S Instant)
        → Inv S t.0 t.1
        → Returns (λ u. Inv S u.0 u.1) (serve_all qs t)
    serve_all-Inv [] t inv = returns inv
    serve_all-Inv (q ∷ qs) t inv = Returns-then_do (serve-Inv q t inv) (serve_all-Inv qs)

  -- An allocator with no object in use is dropped without a panic, and no slab is left alive.
  drop-none :
      (a : SizedSlabAlloc S Instant)
      → Inv S a []
      → Returns (λ s. (x : ℕ) → S.free s x ≡ none) (Sized.drop S a)
  unfolding Sized.drop count
  drop-none a inv =
      let k = inv.linked in
      let all_free = λ (x : ℕ) (ps : List ℕ) (e : S.free a.slab_system x ≡ some ps).
        (inv.objects.slabs x ps e).total in
      rw inv.clients (
        returns (
          drop_slabs-none S a.freelist a.slab_system
            (λ x ps e. (
              omega (arith, all_free x ps e),
              k.linked x ps e (omega (arith, all_free x ps e, S.capacity_pos)),
            ))
            (λ x h. let (ps, e, some_free) = Order-pos {x = x} S.capacity_pos k.order h in (ps, e))
            k.distinct))

  module _ (secs_since : Instant → Instant → ℕ) where
    -- Every object still in use is freed, and the allocator dropped.
    abbrev pub close : Instant → List ℕ → SizedSlabAlloc S Instant → Checked S.State
    close now [] a = Sized.drop S a
    close now (p ∷ out) a = then_do (Sized.dealloc S secs_since now a p) (close now out)

    close-none :
        (now : Instant) (out : List ℕ) (a : SizedSlabAlloc S Instant)
        → Inv S a out
        → Returns (λ s. (x : ℕ) → S.free s x ≡ none) (close now out a)
    close-none now [] a inv = drop-none a inv
    close-none now (p ∷ out) a inv =
        Returns-then_do (dealloc-Inv S secs_since now a (p ∷ out) p inv (ground arith))
          λ b h. close-none now out b (subst (Inv S b) (head-remove p out) h)

    -- Whatever clients ask of a new allocator on a system without slabs, in any order and at any
    -- times, it serves without a panic; the objects in use are distinct.
    pub serve_all-Distinct :
        (start : Instant) (s : S.State) (qs : List (Request Instant))
        → ((x : ℕ) → S.free s x ≡ none)
        → Returns (λ t. Distinct t.1) (serve_all secs_since qs (Sized.new S start s, []))
    serve_all-Distinct start s qs empty =
        Returns-map (λ t inv. inv.objects.distinct)
          (serve_all-Inv secs_since qs (Sized.new S start s, []) (new-Inv S start s empty))

    -- After any such history, when the objects left in use are freed and the allocator is dropped,
    -- nothing panics and no slab is left alive.
    pub close-serve_all :
        (start last : Instant) (s : S.State) (qs : List (Request Instant))
        → ((x : ℕ) → S.free s x ≡ none)
        → Returns
            (λ u. (x : ℕ) → S.free u x ≡ none)
            (then_do (serve_all secs_since qs (Sized.new S start s, [])) (λ t. close last t.1 t.0))
    close-serve_all start last s qs empty =
        Returns-then_do
          (serve_all-Inv secs_since qs (Sized.new S start s, []) (new-Inv S start s empty))
          λ t inv. close-none last t.1 t.0 inv
