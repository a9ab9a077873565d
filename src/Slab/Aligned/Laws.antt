-- ===== src/Slab/Aligned/Laws.antt =====
-- The invariant of `System`, its free objects, and what each operation does to them.
use allocators_rs.Base.{
  ℕ, ◌^◌, ◌<◌, ◌%◌, ◌≡◌, ◌≢◌, refl, sym, ap, ap₂, ◌∙◌, true, ◌&&◌, inl, inr, Option, some, none,
  List, [], ◌∷◌, length, arith, ◌==◌, if◌then◌else◌, ==_self, ==_ne, ==_iff, Bool-cases, ltb,
  ltb→lt,
}
use allocators_rs.Base.Words.{usize_mod}
use allocators_rs.Slab.Init.{InitSystem}
use allocators_rs.Slab.Color.{at_round}
use allocators_rs.Slab.Stack.{contents, length-contents, contents-push, contents-pop}
use allocators_rs.Slab.System.{View, SameBut}
use allocators_rs.Slab.Aligned
use allocators_rs.Slab.Aligned.{Backing, System, SlabHeader, put, ptr_to_slab}
use allocators_rs.Slab.Aligned.Place.{Config, slab_of}

pub put_self : (x : ℕ) (h : Option SlabHeader) (f : ℕ → Option SlabHeader) → put x h f x ≡ h
unfolding put
put_self x h f = ap (λ b. if b then h else f x) (==_self x)

pub put_ne :
    (x y : ℕ) (h : Option SlabHeader) (f : ℕ → Option SlabHeader) → y ≢ x → put x h f y ≡ f y
unfolding put
put_ne x y h f ne = ap (λ b. if b then h else f y) (==_ne y x ne)

module _ (I : InitSystem) where
  -- The objects of a stack of packed objects.
  unfoldable pub unpacked : List ℕ → List ℕ
  unpacked [] = []
  unpacked (v ∷ vs) = I.unpack_ptr v ∷ unpacked vs

  pub length-unpacked : (vs : List ℕ) → length (unpacked vs) ≡ length vs
  unfolding unpacked
  length-unpacked [] = refl
  length-unpacked (v ∷ vs) = omega (arith, length-unpacked vs)

  unfoldable pub free_of : Option SlabHeader → Option (List ℕ)
  free_of none = none
  free_of (some h) = some (unpacked (contents h.stack))

  free_of-some :
      (o : Option SlabHeader) (ps : List ℕ)
      → free_of o ≡ some ps
      → (h : SlabHeader) × (o ≡ some h)
        × (unpacked (contents h.stack) ≡ ps)
        × (h.stack.size ≡ length ps)
  unfolding free_of
  free_of-some none ps e = absurd cc
  free_of-some (some h) ps e =
      let same : unpacked (contents h.stack) ≡ ps = cc in
      (
        h,
        refl,
        same,
        sym (length-contents h.stack) ∙ sym (length-unpacked (contents h.stack)) ∙ ap length same,
      )

  module _ (B : Backing) where
    unfoldable pub free : System B → View
    free s x = free_of (s.headers x)

    module _ (c : Config I B) where
      pub record Ok (s : System B) : Type 0 where
        pub round : ℕ
        pub colors : s.color_settings ≡ at_round c.l.layout.align c.unused round
        pub live :
            (x : ℕ) (h : SlabHeader) → s.headers x ≡ some h → (B.live s.alloc x ≡ true) × (0 < x)

      pub is_full-free :
          (s : System B) (x : ℕ) (ps : List ℕ)
          → free s x ≡ some ps
          → Aligned.is_full I B c.l s x ≡ (length ps == c.l.num_obj)
      unfolding Aligned.is_full free
      is_full-free s x ps e =
          let (h, at, same, size) = free_of-some (s.headers x) ps e in
          rw (Aligned.is_full, at, size) refl

      pub is_empty-free :
          (s : System B) (x : ℕ) (ps : List ℕ)
          → free s x ≡ some ps
          → Aligned.is_empty I B c.l s x ≡ (length ps == 0)
      unfolding Aligned.is_empty free
      is_empty-free s x ps e =
          let (h, at, same, size) = free_of-some (s.headers x) ps e in
          rw (Aligned.is_empty, at, size) refl

      unpacked_top :
          (vs : List ℕ) (p : ℕ) (ps : List ℕ)
          → unpacked vs ≡ p ∷ ps
          → (v : ℕ) × (ws : List ℕ) × (vs ≡ v ∷ ws) × (I.unpack_ptr v ≡ p) × (unpacked ws ≡ ps)
      unfolding unpacked
      unpacked_top [] p ps e = absurd cc
      unpacked_top (v ∷ ws) p ps e = (v, ws, refl, cc, cc)

      pub alloc-free :
          (s : System B) (x p : ℕ) (ps : List ℕ)
          → free s x ≡ some (p ∷ ps)
          → ((Aligned.alloc I B c.l s x).0.0 ≡ p)
            × (free (Aligned.alloc I B c.l s x).1 x ≡ some ps)
            × SameBut x (free s) (free (Aligned.alloc I B c.l s x).1)
      unfolding Aligned.alloc free free_of
      alloc-free s x p ps e =
          let (h, at, same, size) = free_of-some (s.headers x) (p ∷ ps) e in
          let (v, ws, shape, top, rest) = unpacked_top (contents h.stack) p ps same in
          let (popped, left) = contents-pop h.stack v ws shape in
          rw (Aligned.alloc, at)
            (
              ap I.unpack_ptr popped ∙ top,
              ap free_of (put_self x _ s.headers) ∙ ap some (ap unpacked left ∙ rest),
              λ y ne. ap free_of (put_ne x y _ s.headers ne),
            )

      -- What the alive slab at `x` says of `x`, from a free object list.
      slab_of-valid :
          (s : System B) (p : ℕ) (ps : List ℕ)
          → Ok s
          → free s (slab_of I B p) ≡ some ps
          → (p < usize_mod)
            × (p % I.min_align ≡ 0)
            × (slab_of I B p ≡ ptr_to_slab (2 ^ B.log_size) p)
      unfolding slab_of free
      slab_of-valid s p ps ok e =
          let (h, at, same, size) = free_of-some (s.headers (slab_of I B p)) ps e in
          let (live, pos) = ok.live (slab_of I B p) h at in
          elim (Bool-cases (ltb p usize_mod && (p % I.min_align == 0))) [
            | inl word ↦ (
              ltb→lt p usize_mod (ground arith),
              (==_iff (p % I.min_align) 0).0 (ground arith),
              rw word refl,
            )
            | inr other ↦ absurd (ground (arith, pos))
          ]

      pub dealloc-free :
          (s : System B) (p : ℕ) (ps : List ℕ) (status : I.Status)
          → Ok s
          → free s (slab_of I B p) ≡ some ps
          → ((Aligned.dealloc I B c.l s p status).0 ≡ (slab_of I B p, length ps == 0))
            × (free (Aligned.dealloc I B c.l s p status).1 (slab_of I B p) ≡ some (p ∷ ps))
            × SameBut (slab_of I B p) (free s) (free (Aligned.dealloc I B c.l s p status).1)
      unfolding Aligned.dealloc free free_of unpacked
      dealloc-free s p ps status ok e =
          let (word, aligned, at_slab) = slab_of-valid s p ps ok e in
          let x = ptr_to_slab (2 ^ B.log_size) p in
          let (h, at, same, size) = free_of-some (s.headers x) ps (ap (free s) (sym at_slab) ∙ e) in
          rw (Aligned.dealloc, at_slab, at)
            (
              ap (λ n. (x, n == 0)) size,
              ap free_of (put_self x _ s.headers)
                  ∙ ap some (
                      ap unpacked (contents-push h.stack (I.pack p status))
                      ∙ ap₂ (λ v t. v ∷ t) (I.unpack-pack p status word aligned).0 same),
              λ y ne. ap free_of (put_ne x y _ s.headers ne),
            )

      pub dealloc_slab-free :
          (s : System B) (x : ℕ) (ps : List ℕ)
          → free s x ≡ some ps
          → (free (Aligned.dealloc_slab I B c.l s x) x ≡ none)
            × SameBut x (free s) (free (Aligned.dealloc_slab I B c.l s x))
      unfolding Aligned.dealloc_slab free free_of
      dealloc_slab-free s x ps e =
          let (h, at, same, size) = free_of-some (s.headers x) ps e in
          rw (Aligned.dealloc_slab, at)
            (
              ap free_of (put_self x none s.headers),
              λ y ne. ap free_of (put_ne x y none s.headers ne),
            )
