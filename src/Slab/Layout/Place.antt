-- ===== src/Slab/Layout/Place.antt =====
-- Where the objects of a slab lie.
use native.Mathlib.Nat.{dvd-add, dvd_of_mod-eq-zero, mod-eq-zero_of_dvd, dvd-mul_left_of_dvd}
use allocators_rs.Base.{ℕ, ◌+◌, ◌*◌, ◌%◌, ◌≤◌, ◌<◌, ◌≡◌, arith}
use allocators_rs.Slab.Layout.{Layout, bytes_for, nth_obj, stack_begin}
use allocators_rs.Slab.Layout.Fill.{Fits}

scale_room : (n m s : ℕ) → n < m → n * s + s ≤ m * s
scale_room n m s h = grind arith

sum_aligned :
    (a b c d m : ℕ) → a % m ≡ 0 → b % m ≡ 0 → c % m ≡ 0 → d % m ≡ 0 → (a + b + c + d) % m ≡ 0
sum_aligned a b c d m ha hb hc hd = mod-eq-zero_of_dvd m (
    dvd-add m
      (dvd-add m (dvd-add m (dvd_of_mod-eq-zero m ha) (dvd_of_mod-eq-zero m hb))
        (dvd_of_mod-eq-zero m hc))
      (dvd_of_mod-eq-zero m hd))

pub multiple_aligned : (n s m : ℕ) → s % m ≡ 0 → n * s % m ≡ 0
multiple_aligned n s m h = mod-eq-zero_of_dvd m (dvd-mul_left_of_dvd m (dvd_of_mod-eq-zero m h) n)

pub nth_obj_inside :
    (l : Layout) (slab_size unused slab color n : ℕ)
    → Fits l slab_size unused
    → color ≤ l.color_settings.max_color
    → n < l.num_obj
    → (slab ≤ nth_obj l slab color n) × (nth_obj l slab color n + l.layout.size ≤ slab + slab_size)
unfolding nth_obj
nth_obj_inside l slab_size unused slab color n f c hn =
    let last = scale_room n l.num_obj l.layout.size hn in
    (omega arith, omega (arith, f.whole, f.colors))

-- In a slab with a layout that fits, at any address and in any colour up to the largest, the objects
-- lie behind the stack of free objects and before the end of the slab, in order and without overlap.
pub nth_obj_placed :
    (l : Layout) (slab_size unused slab color n m : ℕ)
    → Fits l slab_size unused
    → color ≤ l.color_settings.max_color
    → n < l.num_obj
    → m < n
    → (stack_begin l slab + bytes_for l.num_obj ≤ nth_obj l slab color m)
      × (nth_obj l slab color m + l.layout.size ≤ nth_obj l slab color n)
      × (nth_obj l slab color n + l.layout.size ≤ slab + slab_size)
unfolding nth_obj stack_begin bytes_for
nth_obj_placed l slab_size unused slab color n m f c hn hm =
    let size = l.layout.size in
    let behind = scale_room m n size hm in
    let last = scale_room n l.num_obj size hn in
    let stack : l.stack_begin_offset + l.num_obj * 8 ≤ l.array_begin_offset = f.stack in
    (omega arith, omega arith, omega (arith, f.whole, f.colors))

-- Where the slab, the colour and the size are multiples of the alignment, so is the address of each
-- object.
pub nth_obj_aligned :
    (l : Layout) (slab_size unused slab color n : ℕ)
    → Fits l slab_size unused
    → slab % l.layout.align ≡ 0
    → color % l.layout.align ≡ 0
    → l.layout.size % l.layout.align ≡ 0
    → nth_obj l slab color n % l.layout.align ≡ 0
unfolding nth_obj
nth_obj_aligned l slab_size unused slab color n f hs hc hz =
    sum_aligned slab l.array_begin_offset color (n * l.layout.size) l.layout.align hs f.aligned hc
      (multiple_aligned n l.layout.size l.layout.align hz)
