-- ===== src/Slab/Aligned.antt =====
-- The slab system `stack::System` of slab-alloc/src/stack.rs, with the `ConfigData` of
-- slab-alloc/src/aligned.rs, whose hooks after allocation and before deallocation do nothing. The
-- backing allocator is a parameter. The headers are a function of the slab's address; the links of
-- a header are in `Sized`'s free list. Reading a header that no slab has is undefined there; here
-- nothing happens.
pub mod Place
pub mod Laws
pub mod Grow
pub mod Instance
use allocators_rs.Base.{
  ℕ, zero, suc, ◌+◌, ◌-◌, ◌*◌, ◌^◌, ◌<◌, ◌≤◌, ◌%◌, ◌≡◌, Bool, true, false, not, ◌&&◌, ◌||◌, Option,
  some, none, List, [], ◌∷◌, ◌++◌, Checked, done, panic, ◌==◌, if◌then◌else◌, bit_and,
}
use allocators_rs.Base.Words.{usize_mod}
use allocators_rs.Base.Bits.{not_usize}
use allocators_rs.Slab.Init.{InitSystem}
use allocators_rs.Slab.Color.{ColorSettings, next_color}
use allocators_rs.Slab.Layout.{Layout, nth_obj}
use allocators_rs.Slab.Stack.{Stack}
use allocators_rs.Slab.Stack

-- The backing allocator, an `UntypedObjectAlloc`: blocks of `2 ^ log_size` bytes, aligned to their
-- size, and no block is handed out twice. `live` are the blocks that are allocated.
pub record Backing : Type 1 where
  pub State : Type 0
  pub log_size : ℕ
  pub live : State → ℕ → Bool
  pub alloc : State → Option ℕ × State
  pub dealloc : State → ℕ → State
  pub log_size-≤ : log_size ≤ 64
  pub alloc_lem :
      (s : State) (x : ℕ)
      → (alloc s).0 ≡ some x
      → (live s x ≡ false)
        × (x % 2 ^ log_size ≡ 0)
        × (0 < x)
        × (x + 2 ^ log_size ≤ usize_mod)
        × ((y : ℕ) → live (alloc s).1 y ≡ ((y == x) || live s y))
  pub alloc_none : (s : State) → (alloc s).0 ≡ none → (y : ℕ) → live (alloc s).1 y ≡ live s y
  pub dealloc_lem :
      (s : State) (x y : ℕ) → live s x ≡ true → live (dealloc s x) y ≡ (not (y == x) && live s y)

pub record SlabHeader : Type 0 where
  pub stack : Stack
  pub color : ℕ

pub record System (B : Backing) : Type 0 where
  pub color_settings : ColorSettings
  pub alloc : B.State
  pub headers : ℕ → Option SlabHeader
  -- the objects that `drop_in_place` has run on
  pub dropped : List ℕ

-- The header at `x` is `h`.
unfoldable pub put : ℕ → Option SlabHeader → (ℕ → Option SlabHeader) → ℕ → Option SlabHeader
put x h headers y = if y == x then h else headers y

unfoldable pub ptr_to_slab : ℕ → ℕ → ℕ
ptr_to_slab slab_size ptr = bit_and ptr (not_usize (slab_size - 1))

module _ (I : InitSystem) (B : Backing) (l : Layout) where
  -- The loop of `alloc_slab`, after `k` rounds.
  unfoldable pub push_objects : (slab color : ℕ) → (ℕ → ℕ) → ℕ → Stack
  push_objects slab color memory zero = Stack.new memory
  push_objects slab color memory (suc k) =
      Stack.push (push_objects slab color memory k)
        (I.pack (nth_obj l slab color k) I.status_uninitialized)

  -- The loop of `dealloc_slab`: the objects that it drops.
  unfoldable pub pop_objects : ℕ → Stack → List ℕ
  pop_objects zero s = []
  pop_objects (suc k) s =
      let (packed, t) = Stack.pop s in
      let rest = pop_objects k t in
      if I.drop (I.unpack_ptr packed) (I.unpack_status packed)
      then I.unpack_ptr packed ∷ rest
      else rest

  -- `none` of the colour is its failed assertion; `memory` is what the new block holds.
  unfoldable pub alloc_slab : (ℕ → ℕ) → System B → Checked (Option ℕ × System B)
  alloc_slab memory s = elim (next_color s.color_settings l.layout.align) [
    | none ↦ panic
    | some (color, settings) ↦ elim (B.alloc s.alloc).0 [
      | none ↦ done (none, record s { color_settings = settings; alloc = (B.alloc s.alloc).1 })
      | some slab ↦ done (
        some slab,
        record s {
          color_settings = settings;
          alloc = (B.alloc s.alloc).1;
          headers =
              put slab
                (some (record { stack = push_objects slab color memory l.num_obj; color = color }))
                s.headers;
        },
      )
    ]
  ]

  unfoldable pub dealloc_slab : System B → ℕ → System B
  dealloc_slab s slab = elim (s.headers slab) [
    | none ↦ s
    | some h ↦ record s {
      alloc = B.dealloc s.alloc slab;
      headers = put slab none s.headers;
      dropped = s.dropped ++ pop_objects l.num_obj h.stack;
    }
  ]

  unfoldable pub is_full : System B → ℕ → Bool
  is_full s slab = elim (s.headers slab) [ none ↦ false | some h ↦ h.stack.size == l.num_obj ]

  unfoldable pub is_empty : System B → ℕ → Bool
  is_empty s slab = elim (s.headers slab) [ none ↦ false | some h ↦ h.stack.size == 0 ]

  unfoldable pub alloc : System B → ℕ → (ℕ × I.Status) × System B
  alloc s slab = elim (s.headers slab) [
    | none ↦ ((0, I.status_uninitialized), s)
    | some h ↦
        let (packed, t) = Stack.pop h.stack in
        (
          (I.unpack_ptr packed, I.unpack_status packed),
          record s { headers = put slab (some (record h { stack = t })) s.headers },
        )
  ]

  unfoldable pub dealloc : System B → ℕ → I.Status → (ℕ × Bool) × System B
  dealloc s obj init_status =
      let slab = ptr_to_slab (2 ^ B.log_size) obj in
      elim (s.headers slab) [
        | none ↦ ((slab, false), s)
        | some h ↦ (
          (slab, h.stack.size == 0),
          record s {
            headers =
                put slab (some (record h { stack = Stack.push h.stack (I.pack obj init_status) }))
                  s.headers;
          },
        )
      ]
