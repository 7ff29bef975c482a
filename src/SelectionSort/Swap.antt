-- ===== src/SelectionSort/Swap.antt =====
-- What the swaps of swap.c do to an array.
use native.Mathlib.Decide.{ℕ_discrete}
use saw_script.Base.{
  ℕ, zero, suc, ◌+◌, ◌<◌, ◌≡◌, ◌≢◌, ◌∙◌, sym, ap, arith, List, [], ◌∷◌, length, get_or, set,
  bit_xor, true, false, if◌then◌else◌, ◌==◌, set_comm, length-set, get_or-set_self, get_or-set_ne,
  get_or_ext, set-set,
}
use saw_script.Base.Bits.{xor_cancel_left, xor_self, xor_comm}
use saw_script.SelectionSort.{swap, xor_swap}

-- How often a value occurs.
unfoldable pub count : ℕ → List ℕ → ℕ
count v [] = 0
count v (x ∷ xs) = count v xs + (if x == v then 1 else 0)

count-set :
    (v : ℕ) (xs : List ℕ) (i x : ℕ)
    → i < length xs
    → count v (set xs i x) + (if get_or xs i 0 == v then 1 else 0)
      ≡ count v xs + (if x == v then 1 else 0)
unfolding count
count-set v [] i x p = absurd (omega arith)
count-set v (y ∷ xs) zero x p = omega arith
count-set v (y ∷ xs) (suc i) x p = omega (arith, count-set v xs i x (omega arith))

module _ (a : List ℕ) (x y : ℕ) where
  pub length-swap : length (swap a x y) ≡ length a
  unfolding swap
  length-swap = length-set (set a x (get_or a y 0)) y (get_or a x 0) ∙ length-set a x (get_or a y 0)

  module _ (px : x < length a) (py : y < length a) where
    -- The array at each index.
    pub get_or-swap :
        (i : ℕ)
        → get_or (swap a x y) i 0
          ≡ (if y == i then get_or a x 0 else (if x == i then get_or a y 0 else get_or a i 0))
    unfolding swap
    get_or-swap i = elim (ℕ_discrete y i) [
      | yes e ↦
          let second =
            get_or-set_self (set a x (get_or a y 0)) y (get_or a x 0) 0
              (omega (arith, length-set a x (get_or a y 0))) in
          let test : (y == i) ≡ true = ground arith in rw (test, ← e) second
      | no ne ↦
          let test : (y == i) ≡ false = ground arith in
          rw test (
            get_or-set_ne (set a x (get_or a y 0)) y i (get_or a x 0) 0 ne ∙ elim (ℕ_discrete x i) [
              | yes e ↦ ground (arith, get_or-set_self a x (get_or a y 0) 0 px)
              | no ne' ↦ ground (arith, get_or-set_ne a x i (get_or a y 0) 0 ne')
            ])
    ]

    -- Every value occurs as often as before.
    pub count-swap : (v : ℕ) → count v (swap a x y) ≡ count v a
    unfolding swap
    count-swap v =
        let there : get_or (set a x (get_or a y 0)) y 0 ≡ get_or a y 0 = elim (ℕ_discrete x y) [
          | yes e ↦ ground (arith, get_or-set_self a x (get_or a y 0) 0 px)
          | no ne ↦ get_or-set_ne a x y (get_or a y 0) 0 ne
        ] in
        let first = count-set v a x (get_or a y 0) px in
        let second =
          count-set v (set a x (get_or a y 0)) y (get_or a x 0)
            (omega (arith, length-set a x (get_or a y 0))) in
        omega (arith, first, second, ap {B = ℕ} (λ (t : ℕ). if t == v then 1 else 0) there)

-- Swapping twice gives the array back.
pub swap_twice :
    (a : List ℕ) (x y : ℕ) (px : x < length a) (py : y < length a) → swap (swap a x y) x y ≡ a
swap_twice a x y px py =
    get_or_ext 0 (swap (swap a x y) x y) a (length-again ∙ length-swap a x y) (λ i. ground (
      arith,
      get_or-swap (swap a x y) x y inside_x inside_y i,
      get_or-swap a x y px py x,
      get_or-swap a x y px py y,
      get_or-swap a x y px py i,
    ))
  where
    length-again : length (swap (swap a x y) x y) ≡ length (swap a x y)
    length-again = length-swap (swap a x y) x y

    inside_x : x < length (swap a x y)
    inside_x = omega (arith, length-swap a x y)

    inside_y : y < length (swap a x y)
    inside_y = omega (arith, length-swap a x y)

xor_swap_same : (a : List ℕ) (x : ℕ) → xor_swap a x x ≡ set a x 0
unfolding xor_swap
xor_swap_same a x =
    let u = get_or a x 0 in
    let a₁ = set a x (bit_xor u u) in
    let a₂ = set a₁ x (bit_xor (get_or a₁ x 0) (get_or a₁ x 0)) in
    rw (xor_self (get_or a₂ x 0))
      (set-set a₁ x (bit_xor (get_or a₁ x 0) (get_or a₁ x 0)) 0 ∙ set-set a x (bit_xor u u) 0)

xor_swap_other :
    (a : List ℕ) (x y : ℕ) → x < length a → y < length a → x ≢ y → xor_swap a x y ≡ swap a x y
unfolding xor_swap swap
xor_swap_other a x y px py ne =
    let u = get_or a x 0 in
    let v = get_or a y 0 in
    let a₁ = set a x (bit_xor u v) in
    let second : bit_xor v (bit_xor u v) ≡ u = rw (xor_comm u v) (xor_cancel_left v u) in
    let third : bit_xor (bit_xor u v) u ≡ v = rw (xor_comm (bit_xor u v) u) (xor_cancel_left u v) in
    rw
      (
        get_or-set_ne a x y (bit_xor u v) 0 ne,
        get_or-set_self a x (bit_xor u v) 0 px,
        second,
        get_or-set_ne a₁ y x u 0 (λ e. ne (sym e)),
        get_or-set_self a x (bit_xor u v) 0 px,
        get_or-set_self a₁ y u 0 (omega (arith, length-set a x (bit_xor u v))),
        third,
      )
      (set_comm a₁ y x u v (λ e. ne (sym e))
        ∙ ap (λ (t : List ℕ). set t y u) (set-set a x (bit_xor u v) v))

-- The swap by `^=` is the swap for two different places in the array. Where the pointers are equal
-- it writes 0 there.
pub xor_swap-swap :
    (a : List ℕ) (x y : ℕ)
    → x < length a
    → y < length a
    → xor_swap a x y ≡ (if x == y then set a x 0 else swap a x y)
xor_swap-swap a x y px py = elim (ℕ_discrete x y) [
  | yes e ↦ let test : (x == y) ≡ true = ground arith in rw (test, ← e) (xor_swap_same a x)
  | no ne ↦ let test : (x == y) ≡ false = ground arith in rw test (xor_swap_other a x y px py ne)
]
