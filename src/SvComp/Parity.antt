-- ===== src/SvComp/Parity.antt =====
-- examples/sv-comp/parity.c: the parity of a word, bit by bit and with a multiplication.
use mathlib.Core.Option
use saw_script.Base.{
  ℕ, zero, suc, ◌+◌, ◌-◌, ◌*◌, ◌/◌, ◌%◌, ◌^◌, ◌<◌, ◌≡◌, ◌∙◌, refl, ap, arith, inl, inr, Option,
  some, none, true, if◌then◌else◌, ◌==◌, Bool-cases, bit_and, bit_xor, shr, sub,
}
use saw_script.Base.Bits.{and-le, and_low, and_comm, xor-half, xor-parity}
use saw_script.Base.Bits.Split.{and-split}
use saw_script.Base.Bits.Lanes.{weight, weight-le}
use saw_script.Base.Bits.Weight.{weight-zero, weight-drop}
use saw_script.SvComp.{Outcome, returned, verifier_assert}

-- The loop, on fuel; `none` means that the fuel ran out.
unfoldable pub naive_loop : ℕ → ℕ → ℕ → Option ℕ
naive_loop zero v1 parity1 = none
naive_loop (suc fuel) v1 parity1 =
    let rest = naive_loop fuel (bit_and v1 (sub 32 v1 1)) (if parity1 == 0 then 1 else 0) in
    if v1 == 0 then some parity1 else rest

unfoldable pub smart_parity : ℕ → ℕ
smart_parity v =
    let v₁ = bit_xor v (shr v 1) in
    let v₂ = bit_xor v₁ (shr v₁ 2) in
    let v₃ = bit_and v₂ 286331153 * 286331153 % 2 ^ 32 in
    if bit_and (shr v₃ 28) 1 == 0 then 0 else 1

-- Every round takes one of at most 32 bits.
unfoldable pub main : ℕ → Option Outcome
main v =
    Option.map (λ (parity1 : ℕ). verifier_assert (parity1 == smart_parity v) (returned 0))
      (naive_loop 33 v 0)

naive_loop-weight :
    (fuel v parity : ℕ)
    → v < 2 ^ 32
    → parity < 2
    → weight 32 v < fuel
    → naive_loop fuel v parity ≡ some ((parity + weight 32 v) % 2)
unfolding naive_loop
naive_loop-weight zero v parity small bit enough = absurd (omega arith)
naive_loop-weight (suc fuel) v parity small bit enough = elim (Bool-cases (v == 0)) [
  | inl e ↦
      let nothing : v ≡ 0 = ground arith in rw (e, nothing, weight-zero 32) (ap some (omega arith))
  | inr e ↦
      let pos : 0 < v = ground arith in
      let prev : sub 32 v 1 ≡ v - 1 = omega arith in
      let dropped = weight-drop 32 v pos small in
      let flip : (if parity == 0 then 1 else 0) ≡ 1 - parity = ground arith in
      rw
        (
          e,
          prev,
          flip,
          naive_loop-weight fuel (bit_and v (v - 1)) (1 - parity) (omega (arith, and-le v (v - 1)))
              (omega arith) (omega (arith, dropped)),
        )
        (ap some (omega (arith, dropped)))
]

-- The mask 0x11111111 keeps the lowest bit of every half byte.
unfoldable ones : ℕ → ℕ
ones zero = 0
ones (suc n) = 1 + 2 ^ 4 * ones n

unfoldable low_bits : ℕ → ℕ → ℕ
low_bits zero x = 0
low_bits (suc n) x = x % 2 + 2 ^ 4 * low_bits n (x / 2 ^ 4)

unfoldable sum_bits : ℕ → ℕ → ℕ
sum_bits zero x = 0
sum_bits (suc n) x = x % 2 + sum_bits n (x / 2 ^ 4)

and-ones : (n x : ℕ) → bit_and x (ones n) ≡ low_bits n x
unfolding ones low_bits
and-ones zero x = omega (arith, and_comm x 0, and-le 0 x)
and-ones (suc n) x =
    let low : (1 + 2 ^ 4 * ones n) % 2 ^ 4 ≡ 1 = omega arith in
    let high : (1 + 2 ^ 4 * ones n) / 2 ^ 4 ≡ ones n = omega arith in
    rw
      (and-split 4 x (1 + 2 ^ 4 * ones n), low, high, and_low 1 (x % 2 ^ 4), and-ones n (x / 2 ^ 4))
      (omega arith)

multiply_bits : (x : ℕ) → low_bits 8 x * 286331153 % 2 ^ 32 / 2 ^ 28 % 2 ≡ sum_bits 8 x % 2
unfolding low_bits sum_bits
multiply_bits x = omega arith

-- The two lines with `^` make the lowest bit of every half byte its parity.
abbrev fold : ℕ → ℕ
fold x = let y = bit_xor x (shr x 1) in bit_xor y (shr y 2)

xor-nibble : (a b : ℕ) → bit_xor a b / 2 ^ 4 ≡ bit_xor (a / 2 ^ 4) (b / 2 ^ 4)
xor-nibble a b =
    let four : (t : ℕ) → t / 2 ^ 4 ≡ t / 2 / 2 / 2 / 2 = λ t. omega arith in
    rw
      (
        four a,
        four b,
        four (bit_xor a b),
        xor-half a b,
        xor-half (a / 2) (b / 2),
        xor-half (a / 2 / 2) (b / 2 / 2),
        xor-half (a / 2 / 2 / 2) (b / 2 / 2 / 2),
      )
      refl

fold-nibble : (x : ℕ) → fold x / 2 ^ 4 ≡ fold (x / 2 ^ 4)
fold-nibble x =
    let y = bit_xor x (shr x 1) in
    let swap : (t : ℕ) → t / 2 ^ 2 / 2 ^ 4 ≡ t / 2 ^ 4 / 2 ^ 2 = λ t. omega arith in
    let swap_one : x / 2 ^ 1 / 2 ^ 4 ≡ x / 2 ^ 4 / 2 ^ 1 = omega arith in
    rw (xor-nibble y (shr y 2), swap y, xor-nibble x (shr x 1), swap_one) refl

fold-parity : (x : ℕ) → fold x % 2 ≡ (x + x / 2 + x / 2 / 2 + x / 2 / 2 / 2) % 2
fold-parity x =
    let y = bit_xor x (shr x 1) in
    let quarter : y / 2 ^ 2 ≡ y / 2 / 2 = omega arith in
    let one : x / 2 ^ 1 ≡ x / 2 = omega arith in
    rw (xor-parity y (shr y 2), quarter, one)
      (omega (
        arith,
        xor-parity x (x / 2),
        xor-half x (x / 2),
        xor-half (x / 2) (x / 2 / 2),
        xor-parity (x / 2 / 2) (x / 2 / 2 / 2),
        ap (λ (t : ℕ). t / 2) (xor-half x (x / 2)),
      ))

sum_bits-fold : (n x : ℕ) → sum_bits n (fold x) % 2 ≡ weight (n * 4) x % 2
unfolding weight sum_bits
sum_bits-fold zero x = let none_left : zero * 4 ≡ zero = omega arith in rw none_left refl
sum_bits-fold (suc n) x =
    let four : suc n * 4 ≡ suc (suc (suc (suc (n * 4)))) = omega arith in
    let nibble : x / 2 / 2 / 2 / 2 ≡ x / 2 ^ 4 = omega arith in
    rw (fold-nibble x, four, nibble) (omega (arith, fold-parity x, sum_bits-fold n (x / 2 ^ 4)))

smart_parity-weight : (v : ℕ) → smart_parity v ≡ weight 32 v % 2
unfolding smart_parity ones
smart_parity-weight v =
    let z = fold v in
    let lanes : bit_and z 286331153 ≡ low_bits 8 z = and-ones 8 z in
    let bit = and_low 1 (bit_and z 286331153 * 286331153 % 2 ^ 32 / 2 ^ 28) in
    let parity : bit_and (bit_and z 286331153 * 286331153 % 2 ^ 32 / 2 ^ 28) 1 ≡ weight 32 v % 2 =
      bit ∙ rw lanes (multiply_bits z ∙ sum_bits-fold 8 v) in
    rw parity (ground arith)

-- For every 32-bit word both computations end with the number of its set bits modulo 2, and the
-- assertion at the end of the program holds.
pub main-weight :
    (v : ℕ)
    → v < 2 ^ 32
    → (naive_loop 33 v 0 ≡ some (weight 32 v % 2))
      × (smart_parity v ≡ weight 32 v % 2)
      × (main v ≡ some (returned 0))
unfolding main verifier_assert
main-weight v small =
    let naive : naive_loop 33 v 0 ≡ some (weight 32 v % 2) =
      naive_loop-weight 33 v 0 small (omega arith) (omega (arith, weight-le 32 v))
      ∙ ap some (omega arith) in
    let smart = smart_parity-weight v in
    let equal : (weight 32 v % 2 == weight 32 v % 2) ≡ true = ground arith in
    (naive, smart, rw (naive, smart, equal) refl)
