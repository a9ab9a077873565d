-- ===== src/Elfmalloc/SizeClass/Multiples.antt =====
-- The classes of multiples of 16.
use native.Mathlib.Nat.{mod-eq_of_lt}
use allocators_rs.Base.{
  ℕ, zero, suc, ◌+◌, ◌-◌, ◌*◌, ◌/◌, ◌%◌, ◌<◌, ◌≤◌, ◌≡◌, ap, ◌∙◌, some, get_elem?, arith,
}
use allocators_rs.Base.Words.{usize_mod, add_usize}
use allocators_rs.Base.Bits.{and_not_mask}
use allocators_rs.Elfmalloc.SizeClass.{
  multiple, round_up, fill_multiples, init_multiples, get_multiple,
}

round_up_lem : (n : ℕ) → n + 15 < usize_mod → round_up n ≡ n + 15 - (n + 15) % 16
unfolding round_up
round_up_lem n h =
    let e : add_usize n 15 ≡ n + 15 = mod-eq_of_lt h in
    rw e (and_not_mask 4 (n + 15) (omega arith) h)

pub round_up-bounds :
    (n : ℕ) → n + 15 < usize_mod → (round_up n % 16 ≡ 0) × (n ≤ round_up n) × (round_up n < n + 16)
round_up-bounds n h = rw (round_up_lem n h) (omega arith, omega arith, omega arith)

module _ {ℓ} {T : Type ℓ} where
  fill_multiples-get :
      (f : ℕ → T) (n cur i : ℕ)
      → i < n
      → get_elem? (fill_multiples f n cur) i ≡ some (f (cur + i * multiple))
  unfolding fill_multiples
  fill_multiples-get f zero cur i h = absurd (omega arith)
  fill_multiples-get f (suc n) cur zero h = ap (λ t. some (f t)) (omega arith)
  fill_multiples-get f (suc n) cur (suc i) h =
      fill_multiples-get f n (cur + multiple) i (omega arith) ∙ ap (λ t. some (f t)) (omega arith)

  -- With classes from `start` on, a size up to the largest class, and not rounded up below the first,
  -- is served by the class of its multiple: the least multiple of 16 that is not less than it.
  pub get_multiple-init_multiples :
      (start n_classes n : ℕ) (f : ℕ → T)
      → start + 15 < usize_mod
      → n + 15 < usize_mod
      → round_up start ≤ round_up n
      → n ≤ (init_multiples start n_classes f).max_size
      → 0 < n_classes
      → (get_multiple (init_multiples start n_classes f) n ≡ some (f (round_up n)))
        × (round_up n % 16 ≡ 0)
        × (n ≤ round_up n)
        × (round_up n < n + 16)
  unfolding init_multiples get_multiple
  get_multiple-init_multiples start n_classes n f hs hn low high pos =
      let (ws, ls, us) = round_up-bounds start hs in
      let (wn, ln, un) = round_up-bounds n hn in
      let i = (round_up n - round_up start) / multiple in
      let shape : round_up start + i * multiple ≡ round_up n = omega arith in
      (
        fill_multiples-get f n_classes (round_up start) i (omega arith)
            ∙ ap (λ t. some (f t)) shape,
        wn,
        ln,
        un,
      )
