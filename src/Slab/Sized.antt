-- ===== src/Slab/Sized.antt =====
-- `SizedSlabAlloc` of slab-alloc/src/lib.rs over any slab system and clock. The free list is the
-- sequence of its slabs, front first. A panic, a null pointer dereferenced, or a counter that would
-- be decremented below 0, is `panic`.
pub mod Objects
pub mod Moves
pub mod Order
pub mod Linked
pub mod Relink
pub mod Counts
pub mod Invariant
pub mod Relinked
pub mod Release
pub mod History
use allocators_rs.Base.{
  ℕ, zero, suc, ◌+◌, Bool, true, false, Option, some, none, List, [], ◌∷◌, ◌++◌, length, Checked,
  done, panic, ◌==◌, if◌then◌else◌,
}
use allocators_rs.Slab.Init.{InitSystem}
use allocators_rs.Slab.System.{SlabSystem}
use allocators_rs.Slab.WorkingSet
use allocators_rs.Slab.WorkingSet.{WorkingSet}

abbrev pub working_period_seconds : ℕ
working_period_seconds = 15

abbrev pub then_do {ℓ κ} : {A : Type ℓ} {B : Type κ} → Checked A → (A → Checked B) → Checked B
then_do (done a) f = f a
then_do panic f = panic

-- `-= 1` on a counter.
unfoldable pub decrement : ℕ → Checked ℕ
decrement zero = panic
decrement (suc n) = done n

-- `num_full`, with the front slab, which is full or not, about to give an object.
unfoldable pub full_taken : Bool → ℕ → Checked ℕ
full_taken true n = decrement n
full_taken false n = done n

-- `LinkedList` on sequences.
unfoldable pub remove_back : List ℕ → Option (ℕ × List ℕ)
remove_back [] = none
remove_back (x ∷ xs) = elim (remove_back xs) [
  | none ↦ some (x, [])
  | some (last, front) ↦ some (last, x ∷ front)
]

unfoldable pub remove : ℕ → List ℕ → List ℕ
remove t [] = []
remove t (x ∷ xs) = if x == t then xs else x ∷ remove t xs

unfoldable pub move_to_back : ℕ → List ℕ → List ℕ
move_to_back t xs = remove t xs ++ (t ∷ [])

pub record SizedSlabAlloc {I : InitSystem} (S : SlabSystem I) (Instant : Type 0) : Type 0 where
  pub freelist : List ℕ
  pub total_slabs : ℕ
  pub num_full : ℕ
  pub refcnt : ℕ
  pub full_slab_working_set : WorkingSet Instant
  pub slab_system : S.State

-- The loop of `drop`.
pub drop_slabs : {I : InitSystem} (S : SlabSystem I) → List ℕ → S.State → S.State
drop_slabs S [] s = s
drop_slabs S (x ∷ xs) s = drop_slabs S xs (S.dealloc_slab s x)

module _ {I : InitSystem} (S : SlabSystem I) {Instant : Type 0} where
  pub new : Instant → S.State → SizedSlabAlloc S Instant
  unfolding WorkingSet.new
  new now slabs = record {
    freelist = [];
    total_slabs = 0;
    num_full = 0;
    refcnt = 0;
    full_slab_working_set = WorkingSet.new 0 now;
    slab_system = slabs;
  }

  -- `true` if a slab was allocated; it goes to the back of the free list.
  pub insert_new : SizedSlabAlloc S Instant → Option ℕ × S.State → Bool × SizedSlabAlloc S Instant
  insert_new a (none, s) = (false, record a { slab_system = s })
  insert_new a (some x, s) = (
    true,
    record a {
      freelist = a.freelist ++ (x ∷ []);
      total_slabs = a.total_slabs + 1;
      num_full = a.num_full + 1;
      slab_system = s;
    },
  )

  pub alloc_slab : SizedSlabAlloc S Instant → Checked (Bool × SizedSlabAlloc S Instant)
  unfolding insert_new
  alloc_slab a = then_do (S.alloc_slab a.slab_system) (λ r. done (insert_new a r))

  -- The object of the front slab, and whether it is initialised now.
  -- `num_full` is the counter with the slab no more counted.
  pub take_from : SizedSlabAlloc S Instant → ℕ → ℕ → List ℕ → (ℕ × Bool) × SizedSlabAlloc S Instant
  take_from a num_full slab rest =
      let full = S.is_full a.slab_system slab in
      let watched = a.full_slab_working_set in
      let r = S.alloc a.slab_system slab in
      (
        (r.0.0, I.init r.0.0 r.0.1),
        record a {
          freelist = if S.is_empty r.1 slab then rest else slab ∷ rest;
          num_full = num_full;
          refcnt = a.refcnt + 1;
          full_slab_working_set = if full then WorkingSet.update_min watched num_full else watched;
          slab_system = r.1;
        },
      )

  -- `none` is the error `Exhausted`.
  pub take :
      Bool × SizedSlabAlloc S Instant → Checked (Option (ℕ × Bool) × SizedSlabAlloc S Instant)
  take (false, a) = done (none, a)
  take (true, a) = elim a.freelist [
    | [] ↦ panic
    | slab ∷ rest ↦
        then_do (full_taken (S.is_full a.slab_system slab) a.num_full)
          λ num_full. let r = take_from a num_full slab rest in done (some r.0, r.1)
  ]

  pub alloc : SizedSlabAlloc S Instant → Checked (Option (ℕ × Bool) × SizedSlabAlloc S Instant)
  unfolding take
  alloc a = then_do (if length a.freelist == 0 then alloc_slab a else done (true, a)) take

  -- The loop of `garbage_collect_slabs`: a full slab from the back, `n` times.
  pub free_back : ℕ → SizedSlabAlloc S Instant → Checked (SizedSlabAlloc S Instant)
  free_back zero a = done a
  free_back (suc n) a = elim (remove_back a.freelist) [
    | none ↦ panic
    | some (slab, rest) ↦ then_do (decrement a.total_slabs) λ total_slabs.
        then_do (decrement a.num_full) λ num_full. free_back n (record a {
          freelist = rest;
          total_slabs = total_slabs;
          num_full = num_full;
          slab_system = S.dealloc_slab a.slab_system slab;
        })
  ]

  pub set_working : Option ℕ → SizedSlabAlloc S Instant → Checked (SizedSlabAlloc S Instant)
  set_working none a = done a
  set_working (some min_full) a = then_do (free_back min_full a) λ b.
      done (record b { full_slab_working_set = WorkingSet.set b.full_slab_working_set b.num_full })

  -- Where the freed object's slab goes: was it empty, and is it full now?
  pub relink : Bool → Bool → ℕ → SizedSlabAlloc S Instant → SizedSlabAlloc S Instant
  relink false true slab a = record a {
    freelist = move_to_back slab a.freelist;
    num_full = a.num_full + 1;
  }
  relink true true slab a = record a {
    freelist = a.freelist ++ (slab ∷ []);
    num_full = a.num_full + 1;
  }
  relink true false slab a = record a { freelist = slab ∷ a.freelist }
  relink false false slab a = a

  module _ (secs_since : Instant → Instant → ℕ) (now : Instant) where
    pub garbage_collect_slabs : SizedSlabAlloc S Instant → Checked (SizedSlabAlloc S Instant)
    unfolding set_working
    garbage_collect_slabs a =
        let (min_full, w) =
          WorkingSet.refresh_now secs_since a.full_slab_working_set working_period_seconds now in
        set_working min_full (record a { full_slab_working_set = w })

    pub dealloc : SizedSlabAlloc S Instant → ℕ → Checked (SizedSlabAlloc S Instant)
    dealloc a ptr =
        let r = S.dealloc a.slab_system ptr I.status_initialized in
        let full = S.is_full r.1 r.0.0 in
        let b = relink r.0.1 full r.0.0 (record a { slab_system = r.1 }) in
        then_do (if full then garbage_collect_slabs b else done b)
          λ c. then_do (decrement c.refcnt) λ refcnt. done (record c { refcnt = refcnt })

  -- A panic if an object is still in use (and the thread is not panicking already).
  pub drop : SizedSlabAlloc S Instant → Checked S.State
  drop a = if a.refcnt == 0 then done (drop_slabs S a.freelist a.slab_system) else panic
