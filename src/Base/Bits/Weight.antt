-- ===== src/Base/Bits/Weight.antt =====
-- The number of set bits of a word: lane sums keep it, and `x & (x - 1)` takes one bit away.
use Prim.Native.Nat.{ℕ, zero, suc, ◌+◌, ◌-◌, ◌/◌, ◌%◌, ◌^◌, ◌<◌, bit_and}
use mathlib.Core.Path.{◌≡◌, refl, ap, ◌∙◌}
use native.Mathlib.Nat.{pow-suc}
use native.Mathlib.Omega.{arith}
use native.Mathlib.Decide.{ℕ_discrete}
use saw_script.Base.Bits.Step.{and_digit}
use saw_script.Base.Bits.Lanes.{weight, sum_lanes, pair_sums, sum_lanes-pair_sums, weight-sum_lanes}

-- Bits added in lanes of 2, of 4 and of 8 keep their number.
pub four_lanes :
    (t : ℕ)
    → sum_lanes (2 ^ 8) 4 (pair_sums (2 ^ 4) 4 (pair_sums (2 ^ 2) 8 (pair_sums 2 16 t)))
      ≡ weight 32 t
four_lanes t =
    sum_lanes-pair_sums (2 ^ 4) 4 (pair_sums (2 ^ 2) 8 (pair_sums 2 16 t)) (omega arith)
    ∙ sum_lanes-pair_sums (2 ^ 2) 8 (pair_sums 2 16 t) (omega arith)
    ∙ sum_lanes-pair_sums 2 16 t (omega arith)
    ∙ weight-sum_lanes 32 t

pub eight_lanes :
    (t : ℕ)
    → sum_lanes (2 ^ 8) 8 (pair_sums (2 ^ 4) 8 (pair_sums (2 ^ 2) 16 (pair_sums 2 32 t)))
      ≡ weight 64 t
eight_lanes t =
    sum_lanes-pair_sums (2 ^ 4) 8 (pair_sums (2 ^ 2) 16 (pair_sums 2 32 t)) (omega arith)
    ∙ sum_lanes-pair_sums (2 ^ 2) 16 (pair_sums 2 32 t) (omega arith)
    ∙ sum_lanes-pair_sums 2 32 t (omega arith)
    ∙ weight-sum_lanes 64 t

pub weight-zero : (k : ℕ) → weight k 0 ≡ 0
unfolding weight
weight-zero zero = refl
weight-zero (suc k) = omega (arith, weight-zero k)

pub weight-pos : (k x : ℕ) → 0 < x → x < 2 ^ k → 0 < weight k x
unfolding weight
weight-pos zero x pos small = absurd (omega arith)
weight-pos (suc k) x pos small = elim (ℕ_discrete (x % 2) 0) [
  | yes e ↦ omega (arith, weight-pos k (x / 2) (omega (arith, e)) (omega (arith, pow-suc 2 k)))
  | no e ↦ omega (arith, e)
]

pub and_self : (k x : ℕ) → x < 2 ^ k → bit_and x x ≡ x
and_self zero x small = let none_left : x ≡ 0 = omega arith in rw none_left refl
and_self (suc k) x small =
    omega (arith, and_digit x x, and_self k (x / 2) (omega (arith, pow-suc 2 k)))

-- A word without its lowest set bit has one bit less.
pub weight-drop : (k x : ℕ) → 0 < x → x < 2 ^ k → weight k (bit_and x (x - 1)) + 1 ≡ weight k x
unfolding weight
weight-drop zero x pos small = absurd (omega arith)
weight-drop (suc k) x pos small = elim (ℕ_discrete (x % 2) 0) [
  | yes e ↦
      let half : (x - 1) / 2 ≡ x / 2 - 1 = omega (arith, e) in
      let deeper = weight-drop k (x / 2) (omega (arith, e)) (omega (arith, pow-suc 2 k)) in
      let digit = and_digit x (x - 1) in
      let step : bit_and x (x - 1) / 2 ≡ bit_and (x / 2) (x / 2 - 1) =
        omega (arith, e, digit, ap (λ (t : ℕ). bit_and (x / 2) t) half) in
      rw step (omega (arith, e, deeper, digit, ap (λ (t : ℕ). bit_and (x / 2) t) half))
  | no e ↦
      let odd : x % 2 ≡ 1 = omega (arith, e) in
      let half : (x - 1) / 2 ≡ x / 2 = omega arith in
      let digit = and_digit x (x - 1) in
      let same : bit_and (x / 2) ((x - 1) / 2) ≡ x / 2 =
        rw half (and_self k (x / 2) (omega (arith, pow-suc 2 k))) in
      let step : bit_and x (x - 1) / 2 ≡ x / 2 = omega (arith, digit) in
      rw step (omega (arith, digit))
]
