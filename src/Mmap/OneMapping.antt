-- ===== src/Mmap/OneMapping.antt =====
-- A system with room for one mapping, at 4096, of at most 16 pages.
use allocators_rs.Base.{
  ℕ, ◌≤◌, ◌≡◌, refl, sym, ap, ◌∙◌, inl, Bool, true, false, Option, some, none, arith, ◌==◌, ==_ne,
  if◌then◌else◌, ℕ_discrete, leb,
}
use allocators_rs.Mmap.System.{
  Os, Mapping, mapped, no_memory, failed, pages, Regions, Mapped, Remapped,
}

abbrev pub regions : Option ℕ → Regions
regions s q = if q == 4096 then s else none

-- At most 16 pages; the tests are whether there are any, and whether they fit.
unfoldable pub room : Option ℕ → ℕ → Bool → Bool → Mapping × Option ℕ
room s k true fits = (failed, s)
room s k false true = (mapped 4096, some k)
room s k false false = (no_memory, s)

unfoldable pub take : Option ℕ → ℕ → Mapping × Option ℕ
unfolding room
take none k = room none k (k == 0) (leb k 16)
take (some held) k = (no_memory, some held)

pub room-Mapped :
    (k : ℕ) (empty fits : Bool)
    → empty ≡ (k == 0)
    → fits ≡ leb k 16
    → Mapped 4096 (regions none) (regions (room none k empty fits).1) k (room none k empty fits).0
unfolding room
room-Mapped k true fits e f = ground (arith, e)
room-Mapped k false true e f =
    let small : k ≤ 16 = ground (arith, f) in
    (omega arith, refl, omega arith, refl, refl, λ q ne. rw (==_ne q 4096 ne) refl)
room-Mapped k false false e f = λ q. refl

pub take-Mapped :
    (s : Option ℕ) (k : ℕ) → Mapped 4096 (regions s) (regions (take s k).1) k (take s k).0
unfolding take room
take-Mapped none k = room-Mapped k (k == 0) (leb k 16) refl refl
take-Mapped (some held) k = λ q. refl

pub at_mapping : (s : Option ℕ) (p k : ℕ) → regions s p ≡ some k → p ≡ 4096
at_mapping s p k e = elim (ℕ_discrete p 4096) [
  | yes same ↦ same
  | no ne ↦ absurd (cc (e, ap {B = Option ℕ} (λ b. if b then s else none) (==_ne p 4096 ne)))
]

pub room-Remapped :
    (s : Option ℕ) (p k : ℕ) (may_move empty fits : Bool)
    → empty ≡ (k == 0)
    → p ≡ 4096
    → Remapped 4096
        (regions s)
        (regions (room s k empty fits).1)
        p
        k
        may_move
        (room s k empty fits).0
unfolding room
room-Remapped s p k may_move true fits e at = ground (arith, e)
room-Remapped s p k may_move false true e at =
    (omega arith, refl, inl (sym at), refl, λ y ne ne'. rw (==_ne y 4096 ne') refl)
room-Remapped s p k may_move false false e at = λ q. refl

abbrev pub one_mapping : Os
one_mapping = record {
  State = Option ℕ;
  regions = regions;
  log_pagesize = 12;
  prot_none = 0;
  prot_read = 1;
  prot_write = 2;
  prot_exec = 4;
  mmap = λ s size perms populate. take s (pages 4096 size);
  munmap = λ s p size. (true, none);
  mremap = λ s p old_size new_size may_move.
      room s (pages 4096 new_size) (pages 4096 new_size == 0) (leb (pages 4096 new_size) 16);
  log_pagesize-lt = omega arith;
  mmap_lem = λ s size perms populate. take-Mapped s (pages 4096 size);
  munmap_lem = λ s p size e. (
    refl,
    rw (at_mapping s p _ e) refl,
    λ q ne. rw (==_ne q 4096 (λ at. ne (at ∙ sym (at_mapping s p _ e)))) refl,
  );
  mremap_lem = λ s p old_size new_size may_move e.
      room-Remapped s p (pages 4096 new_size) may_move (pages 4096 new_size == 0)
        (leb (pages 4096 new_size) 16) refl (at_mapping s p _ e);
}
