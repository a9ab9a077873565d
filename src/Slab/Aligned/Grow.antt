-- ===== src/Slab/Aligned/Grow.antt =====
-- New slabs of a `System`, and its invariant.
use allocators_rs.Base.{
  ℕ, zero, suc, ◌+◌, ◌^◌, ◌<◌, ◌≤◌, ◌%◌, ◌≡◌, refl, sym, ap, ap₂, ◌∙◌, false, ◌&&◌, ◌||◌, not, inl,
  inr, Option, some, none, List, [], ◌∷◌, length, All, arith, ◌==◌, ==_self, ==_ne, Returns,
  returns, ℕ_discrete, Option-cases,
}
use allocators_rs.Base.Words.{usize_mod}
use allocators_rs.Slab.Init.{InitSystem}
use allocators_rs.Slab.Color.{at_round, next_color, next_color-at_round}
use allocators_rs.Slab.Stack.{contents, contents-new, contents-push}
use allocators_rs.Slab.System.{has, Distinct, Grown}
use allocators_rs.Slab.Aligned
use allocators_rs.Slab.Aligned.{Backing, System, SlabHeader, put, ptr_to_slab, push_objects}
use allocators_rs.Slab.Aligned.Place.{Config, slab_of, object, color_at, object-slab, object_ne}
use allocators_rs.Slab.Aligned.Laws.{unpacked, free_of, free, Ok, put_self, put_ne}

module _ (I : InitSystem) (B : Backing) (c : Config I B) where
  -- The objects `k - 1`, …, 0 of a slab.
  objects : ℕ → ℕ → ℕ → List ℕ
  objects slab round zero = []
  objects slab round (suc k) = object I B c slab round k ∷ objects slab round k

  length-objects : (slab round k : ℕ) → length (objects slab round k) ≡ k
  unfolding objects
  length-objects slab round zero = refl
  length-objects slab round (suc k) = omega (arith, length-objects slab round k)

  module _ (slab : ℕ) (slab_multiple : slab % 2 ^ B.log_size ≡ 0)
      (top : slab + 2 ^ B.log_size ≤ usize_mod) (round : ℕ) where
    objects-belong :
        (k : ℕ) → k ≤ c.l.num_obj → All (λ p. slab_of I B p ≡ slab) (objects slab round k)
    unfolding objects
    objects-belong zero h = tt
    objects-belong (suc k) h = (
      (object-slab I B c slab slab_multiple top round k (omega arith)).2,
      objects-belong k (omega arith),
    )

    objects-apart :
        (n k : ℕ)
        → k ≤ n
        → n < c.l.num_obj
        → has (object I B c slab round n) (objects slab round k) ≡ false
    unfolding objects
    objects-apart n zero h lt = refl
    objects-apart n (suc k) h lt =
        rw
          (==_ne (object I B c slab round n) (object I B c slab round k)
            (λ e. object_ne I B c slab slab_multiple top round k n (omega arith) lt (sym e)))
          (objects-apart n k (omega arith) lt)

    objects-Distinct : (k : ℕ) → k ≤ c.l.num_obj → Distinct (objects slab round k)
    unfolding objects
    objects-Distinct zero h = tt
    objects-Distinct (suc k) h =
        (objects-apart k k (omega arith) (omega arith), objects-Distinct k (omega arith))

    unpacked-push_objects :
        (memory : ℕ → ℕ) (k : ℕ)
        → k ≤ c.l.num_obj
        → unpacked I (contents (push_objects I B c.l slab (color_at I B c round) memory k))
          ≡ objects slab round k
    unfolding objects unpacked push_objects object
    unpacked-push_objects memory zero h = ap (unpacked I) (contents-new memory)
    unpacked-push_objects memory (suc k) h =
        let (word, aligned, at_slab) =
          object-slab I B c slab slab_multiple top round k (omega arith) in
        ap (unpacked I) (contents-push _ _)
        ∙ ap₂ (λ v t. v ∷ t)
            (I.unpack-pack (object I B c slab round k) I.status_uninitialized word aligned).0
            (unpacked-push_objects memory k (omega arith))

  dead : (s : System B) (x : ℕ) → Ok I B c s → B.live s.alloc x ≡ false → s.headers x ≡ none
  dead s x ok h = elim (Option-cases (s.headers x)) [
    | inl e ↦ e
    | inr (header, e) ↦ absurd (cc (h, (ok.live x header e).0))
  ]

  -- A new slab.
  abbrev pub Made : System B → Option ℕ × System B → Type 0
  Made s r = Ok I B c r.1 × Grown (slab_of I B) c.l.num_obj (free I B s) r.0 (free I B r.1)

  -- In a system in order, a new slab does not panic and leaves the system in order. If the backing
  -- allocator gives a block, it is a slab that was not alive, whose free objects are as many as the
  -- layout says, distinct, and found by the mask to be its own; otherwise no slab changes.
  pub alloc_slab-Made :
      (memory : ℕ → ℕ) (s : System B)
      → Ok I B c s
      → Returns (Made s) (Aligned.alloc_slab I B c.l memory s)
  unfolding Aligned.alloc_slab color_at free free_of
  alloc_slab-Made memory s ok =
      let e : next_color s.color_settings c.l.layout.align
          ≡ some (color_at I B c ok.round, at_round c.l.layout.align c.unused (suc ok.round)) =
        ap (λ t. next_color t c.l.layout.align) ok.colors
        ∙ next_color-at_round c.l.layout.align c.unused ok.round c.align_pos in
      elim (Option-cases (B.alloc s.alloc).0) [
        | inl failed ↦
            rw (Aligned.alloc_slab, e, failed)
              (returns (
                record {
                  round = suc ok.round;
                  colors = refl;
                  live = λ x h at.
                      let (live, pos) = ok.live x h at in
                      (B.alloc_none s.alloc failed x ∙ live, pos);
                },
                λ y. refl,
              ))
        | inr (x, got) ↦
            let (new, multiple, pos, top, live) = B.alloc_lem s.alloc x got in
            rw (Aligned.alloc_slab, e, got)
              (returns (
                record {
                  round = suc ok.round;
                  colors = refl;
                  live = λ y h at. elim (ℕ_discrete y x) [
                    | yes eq ↦ (
                      live y
                          ∙ ap (λ b. b || B.live s.alloc y) (ap (λ t. y == t) (sym eq) ∙ ==_self y),
                      omega (arith, pos, eq),
                    )
                    | no ne ↦
                        let (was, pos') = ok.live y h (sym (put_ne x y _ s.headers ne) ∙ at) in
                        (live y ∙ ap₂ (λ b d. b || d) (==_ne y x ne) was, pos')
                  ];
                },
                record {
                  objects = objects x ok.round c.l.num_obj;
                  absent = ap (free_of I) (dead s x ok new);
                  present =
                      ap (free_of I) (put_self x _ s.headers)
                      ∙ ap some (
                          unpacked-push_objects x multiple top ok.round memory c.l.num_obj
                            (omega arith));
                  count = length-objects x ok.round c.l.num_obj;
                  distinct = objects-Distinct x multiple top ok.round c.l.num_obj (omega arith);
                  belong = objects-belong x multiple top ok.round c.l.num_obj (omega arith);
                  others = λ y ne. ap (free_of I) (put_ne x y _ s.headers ne);
                },
              ))
      ]

  -- A header that changes keeps the invariant.
  keep :
      (s : System B) (x : ℕ) (h g : SlabHeader)
      → Ok I B c s
      → s.headers x ≡ some h
      → Ok I B c (record s { headers = put x (some g) s.headers })
  keep s x h g ok e = record {
    round = ok.round;
    colors = ok.colors;
    live = λ y k at. elim (ℕ_discrete y x) [
      | yes eq ↦ ok.live y h (ap s.headers eq ∙ e)
      | no ne ↦ ok.live y k (sym (put_ne x y (some g) s.headers ne) ∙ at)
    ];
  }

  pub alloc-Ok : (s : System B) (x : ℕ) → Ok I B c s → Ok I B c (Aligned.alloc I B c.l s x).1
  unfolding Aligned.alloc
  alloc-Ok s x ok = elim (Option-cases (s.headers x)) [
    | inl e ↦ rw (Aligned.alloc, e) ok
    | inr (h, e) ↦ rw (Aligned.alloc, e) (keep s x h _ ok e)
  ]

  pub dealloc-Ok :
      (s : System B) (p : ℕ) (status : I.Status)
      → Ok I B c s
      → Ok I B c (Aligned.dealloc I B c.l s p status).1
  unfolding Aligned.dealloc
  dealloc-Ok s p status ok =
      let x = ptr_to_slab (2 ^ B.log_size) p in
      elim (Option-cases (s.headers x)) [
        | inl e ↦ rw (Aligned.dealloc, e) ok
        | inr (h, e) ↦ rw (Aligned.dealloc, e) (keep s x h _ ok e)
      ]

  pub dealloc_slab-Ok :
      (s : System B) (x : ℕ) → Ok I B c s → Ok I B c (Aligned.dealloc_slab I B c.l s x)
  unfolding Aligned.dealloc_slab
  dealloc_slab-Ok s x ok = elim (Option-cases (s.headers x)) [
    | inl e ↦ rw (Aligned.dealloc_slab, e) ok
    | inr (h, e) ↦
        rw (Aligned.dealloc_slab, e)
          (record {
            round = ok.round;
            colors = ok.colors;
            live = λ y g at. elim (ℕ_discrete y x) [
              | yes eq ↦ absurd (cc (at, eq, put_self x none s.headers))
              | no ne ↦
                  let (was, pos) = ok.live y g (sym (put_ne x y none s.headers ne) ∙ at) in
                  (
                    B.dealloc_lem s.alloc x y (ok.live x h e).0
                        ∙ ap₂ (λ b d. not b && d) (==_ne y x ne) was,
                    pos,
                  )
            ];
          })
  ]
