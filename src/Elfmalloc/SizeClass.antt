-- ===== src/Elfmalloc/SizeClass.antt =====
-- The maps from sizes to size classes of elfmalloc/src/general.rs: `Multiples`, `PowersOfTwo` and
-- `TieredSizeClasses` with the word-sized class (the target has no minimum alignment of 16). A
-- `TypedArray` is the list of its elements; an index out of it is undefined behaviour in the code,
-- and `none` here. `T` is what a class is: the closure of the source that makes it from its size
-- is a function.
pub mod Multiples
pub mod Powers
pub mod Tiered
pub mod Fixed
use allocators_rs.Base.{
  ℕ, zero, suc, ◌+◌, ◌-◌, ◌*◌, ◌/◌, ◌%◌, Option, some, List, [], ◌∷◌, get_elem?, length, bit_and,
  ◌==◌, if◌then◌else◌, leb, min,
}
use allocators_rs.Base.Words.{add_usize, sub_usize, mul_usize, next_power_of_two, trailing_zeros}
use allocators_rs.Base.Bits.{not_usize}

abbrev pub multiple : ℕ
multiple = 16

unfoldable pub round_up : ℕ → ℕ
round_up n = bit_and (add_usize n (multiple - 1)) (not_usize (multiple - 1))

-- `Multiples`, and `PowersOfTwo`, which has the same fields.
pub record Classes {ℓ} (T : Type ℓ) : Type ℓ where
  pub starting_size : ℕ
  pub max_size : ℕ
  pub classes : List T

module _ {ℓ} {T : Type ℓ} where
  -- The loop that fills the classes, from size `cur_size` on.
  unfoldable pub fill_multiples : (ℕ → T) → ℕ → ℕ → List T
  fill_multiples f zero cur_size = []
  fill_multiples f (suc n) cur_size = f cur_size ∷ fill_multiples f n (cur_size + multiple)

  unfoldable pub init_multiples : ℕ → ℕ → (ℕ → T) → Classes T
  init_multiples start n_classes f = record {
    starting_size = round_up start;
    max_size = n_classes * multiple + round_up start - multiple;
    classes = fill_multiples f n_classes (round_up start);
  }

  unfoldable pub get_multiple : Classes T → ℕ → Option T
  get_multiple m n = get_elem? m.classes ((round_up n - m.starting_size) / multiple)

  -- The loop that fills the classes, and `cur_size` after it.
  unfoldable pub fill_powers : (ℕ → T) → ℕ → ℕ → List T × ℕ
  fill_powers f zero cur_size = ([], cur_size)
  fill_powers f (suc n) cur_size =
      let (rest, last) = fill_powers f n (mul_usize cur_size 2) in (f cur_size ∷ rest, last)

  unfoldable pub init_powers : ℕ → ℕ → (ℕ → T) → Classes T
  init_powers start n_classes f =
      let starting_size = next_power_of_two start in
      let (classes, cur_size) = fill_powers f n_classes starting_size in
      record { starting_size = starting_size; max_size = cur_size / 2; classes = classes }

  unfoldable pub get_power : Classes T → ℕ → Option T
  get_power m k =
      get_elem? m.classes
        (sub_usize (trailing_zeros (next_power_of_two k)) (trailing_zeros m.starting_size))

abbrev pub elfmalloc_small_page_size : ℕ
elfmalloc_small_page_size = 256 * 1024

abbrev pub elfmalloc_small_cutoff : ℕ
elfmalloc_small_cutoff = elfmalloc_small_page_size / 4

pub record TieredSizeClasses {ℓ} (T : Type ℓ) : Type ℓ where
  pub word_objs : Option T
  pub small_objs : Classes T
  pub medium_objs : Classes T

unfoldable pub n_small_classes : ℕ → ℕ → ℕ
n_small_classes start n_classes =
    min (sub_usize (elfmalloc_small_cutoff / multiple) (start / multiple)) (n_classes / 2)

module _ {ℓ} {T : Type ℓ} where
  unfoldable pub init_tiered : ℕ → ℕ → (ℕ → T) → TieredSizeClasses T
  init_tiered start n_classes f =
      let n_small = n_small_classes start n_classes in
      let n_medium = n_classes - n_small in
      let small = init_multiples start n_small f in
      record {
        word_objs = some (f 8);
        small_objs = small;
        medium_objs = init_powers (small.max_size + 1) n_medium f;
      }

  unfoldable pub get_tiered : TieredSizeClasses T → ℕ → Option T
  get_tiered t n =
      if leb n 8
      then t.word_objs
      else if leb n t.small_objs.max_size
      then get_multiple t.small_objs n
      else get_power t.medium_objs n

  unfoldable pub max_key : TieredSizeClasses T → ℕ
  max_key t = t.medium_objs.max_size
