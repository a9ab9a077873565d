-- ===== src/Slab/Tests.antt =====
-- Concrete slab allocators, and the theorems of slab-alloc applied to them.
use allocators_rs.Base.{
  ℕ, ◌+◌, ◌*◌, ◌/◌, ◌%◌, ◌^◌, ◌<◌, ◌≤◌, ◌≡◌, refl, sym, ap, Bool, true, false, not, ◌&&◌, ◌||◌,
  Option, some, none, List, [], ◌∷◌, arith, ◌==◌, Returns,
}
use allocators_rs.Base.Words.{usize_mod}
use allocators_rs.Slab.Init.Packed.{init_init}
use allocators_rs.Slab.Color.{ColorSettings, new, next_color, after, color_cycle}
use allocators_rs.Slab.Layout.{
  Layout, for_slab_size, nth_obj, stack_begin, bytes_for, array_offset, padding_needed_for,
}
use allocators_rs.Slab.Layout.Fill
use allocators_rs.Slab.Layout.Fill.{Fits, for_slab_size-Sized}
use allocators_rs.Slab.Layout.Place.{nth_obj_placed}
use allocators_rs.Slab.WorkingSet
use allocators_rs.Slab.WorkingSet.{refresh_now, watch, minimum, refresh_now-watch}
use allocators_rs.Slab.System.{Distinct, SlabSystem}
use allocators_rs.Slab.Aligned
use allocators_rs.Slab.Aligned.{Backing, ptr_to_slab}
use allocators_rs.Slab.Aligned.Place.{Config, ptr_to_slab-inside}
use allocators_rs.Slab.Aligned.Laws
use allocators_rs.Slab.Aligned.Laws.{free as free_objects}
use allocators_rs.Slab.Aligned.Grow.{Made, alloc_slab-Made}
use allocators_rs.Slab.Aligned.Instance.{Good, fresh, aligned_system}
use allocators_rs.Slab.Sized
use allocators_rs.Slab.Sized.{then_do}
use allocators_rs.Slab.Sized.Invariant.{Alloced, new-Inv, alloc-Inv}
use allocators_rs.Slab.Sized.History.{
  Request, allocate, free, serve_all, close, serve_all-Distinct, close-serve_all,
}

-- A backing allocator of one block.
abbrev block : ℕ
block = 4096

abbrev block_alloc : Bool → Option ℕ × Bool
block_alloc false = (some block, true)
block_alloc true = (none, true)

block_alloc_lem :
    (s : Bool) (x : ℕ)
    → (block_alloc s).0 ≡ some x
    → ((s && (x == block)) ≡ false)
      × (x % 2 ^ 12 ≡ 0)
      × (0 < x)
      × (x + 2 ^ 12 ≤ usize_mod)
      × ((y : ℕ) → ((block_alloc s).1 && (y == block)) ≡ ((y == x) || (s && (y == block))))
block_alloc_lem false x e =
    let at : block ≡ x = cc in
    (refl, ap {B = ℕ} (λ t. t % 2 ^ 12) (sym at), omega arith, omega arith, λ y. ground arith)
block_alloc_lem true x e = absurd cc

block_alloc-none :
    (s : Bool)
    → (block_alloc s).0 ≡ none
    → (y : ℕ) → ((block_alloc s).1 && (y == block)) ≡ (s && (y == block))
block_alloc-none false e y = absurd cc
block_alloc-none true e y = refl

abbrev one_block : Backing
one_block = record {
  State = Bool;
  log_size = 12;
  live = λ s y. s && (y == block);
  alloc = block_alloc;
  dealloc = λ s x. not (x == block) && s;
  log_size-≤ = omega arith;
  alloc_lem = block_alloc_lem;
  alloc_none = block_alloc-none;
  dealloc_lem = λ s x y on. ground arith;
}

-- 56 objects of a cache line each, in a page.
abbrev cache_line : Layout
cache_line = record {
  num_obj = 56;
  layout = record { size = 64; align = 64 };
  stack_begin_offset = 32;
  array_begin_offset = 512;
  color_settings = record { max_color = 0; cur_color = 0 };
}

cache_line-Fits : Fits cache_line 4096 0
unfolding bytes_for array_offset padding_needed_for new
cache_line-Fits = record {
  some_objects = omega arith;
  header = omega arith;
  stack_aligned = refl;
  stack = omega arith;
  aligned = refl;
  whole = refl;
  colors = omega arith;
  coloring = refl;
  maximal = omega arith;
}

abbrev config : Config init_init one_block
config = record {
  l = cache_line;
  unused = 0;
  fits = cache_line-Fits;
  size_pos = omega arith;
  align_pos = omega arith;
  size_aligned = refl;
  slab_aligned = refl;
  min_aligned = refl;
}

abbrev zeros : ℕ → ℕ
zeros i = 0

abbrev lines : SlabSystem init_init
lines = aligned_system init_init one_block config zeros

abbrev start : Good init_init one_block config
start = fresh init_init one_block config false

start-free : (x : ℕ) → free_objects init_init one_block start.system x ≡ none
unfolding fresh free_objects Laws.free_of
start-free x = refl

-- Seconds.
abbrev since : ℕ → ℕ → ℕ
since now begin = now

abbrev requests : List (Request ℕ)
requests = allocate ∷ allocate ∷ free 8128 20 ∷ allocate ∷ []

alloc-Inv_example :
    Returns (Alloced lines {Instant = ℕ} []) (Sized.alloc lines (Sized.new lines 0 start))
alloc-Inv_example = alloc-Inv lines (Sized.new lines 0 start) [] (new-Inv lines 0 start start-free)

serve_all-Distinct_example :
    Returns (λ t. Distinct t.1) (serve_all lines since requests (Sized.new lines 0 start, []))
serve_all-Distinct_example = serve_all-Distinct lines since 0 start requests start-free

close-serve_all_example :
    Returns
      (λ u. (x : ℕ) → free_objects init_init one_block u.system x ≡ none)
      (then_do
        (serve_all lines since requests (Sized.new lines 0 start, []))
        (λ t. close lines since 60 t.1 t.0))
close-serve_all_example = close-serve_all lines since 0 60 start requests start-free

alloc_slab-Made_example :
    Returns
      (Made init_init one_block config start.system)
      (Aligned.alloc_slab init_init one_block cache_line zeros start.system)
alloc_slab-Made_example = alloc_slab-Made init_init one_block config zeros start.system start.ok

ptr_to_slab-inside_example : ptr_to_slab (2 ^ 12) 8128 ≡ 4096
ptr_to_slab-inside_example =
    ptr_to_slab-inside 12 4096 8128 (omega arith) refl (omega arith) (omega arith) (omega arith)

for_slab_size-Sized_example :
    Returns
      (Fill.Sized (record { size = 64; align = 64 }) 4096)
      (for_slab_size (record { size = 64; align = 64 }) 4096)
for_slab_size-Sized_example =
    for_slab_size-Sized (record { size = 64; align = 64 }) 4096 (omega arith) (omega arith)

nth_obj_placed_example :
    (stack_begin cache_line 4096 + bytes_for 56 ≤ nth_obj cache_line 4096 0 2)
    × (nth_obj cache_line 4096 0 2 + 64 ≤ nth_obj cache_line 4096 0 5)
    × (nth_obj cache_line 4096 0 5 + 64 ≤ 4096 + 4096)
nth_obj_placed_example =
    nth_obj_placed cache_line 4096 0 4096 0 5 2 cache_line-Fits (omega arith) (omega arith)
      (omega arith)

color_cycle_example :
    (s t : ColorSettings) × (after 4 (new 8 20) 8 ≡ some s)
    × (next_color s 8 ≡ some (4 % (20 / 8 + 1) * 8, t))
    × (4 % (20 / 8 + 1) * 8 ≤ 20)
    × (t.max_color ≤ 20)
color_cycle_example = color_cycle 8 20 4 (omega arith)

refresh_now-watch_example :
    refresh_now since (watch (WorkingSet.new 5 100) (7 ∷ 3 ∷ 4 ∷ [])) 15 120
    ≡ (some 3, record { value = 3; period_begin = 120 })
refresh_now-watch_example = refresh_now-watch since 5 15 100 120 (7 ∷ 3 ∷ 4 ∷ [])
