-- ===== src/Zuc/Field.antt =====
-- The arithmetic of zuc.c against arithmetic modulo the prime 2 ^ 31 - 1, whose residue 0 is
-- written 2 ^ 31 - 1.
use native.Mathlib.Nat.{pow-suc, div-div-eq-div-mul}
use saw_script.Base.{
  ℕ, zero, suc, ◌+◌, ◌-◌, ◌*◌, ◌/◌, ◌%◌, ◌^◌, ◌≤◌, ◌<◌, ◌≡◌, ◌∙◌, ap, arith, List, get_or, bit_and,
  bit_or,
}
use saw_script.Base.Bits.{and_low, or_disjoint, and_digit, pow_double, shl_field, shr-lt}
use saw_script.Zuc.Lfsr.{add_m, mul_by_pow2, feedback}

abbrev pub prime : ℕ
prime = 2 ^ 31 - 1

abbrev pub IsElement : ℕ → Type 0
IsElement a = (0 < a) × (a ≤ prime)

and_zero : (a : ℕ) → bit_and a 0 ≡ 0
and_zero a = and_low 0 a ∙ omega arith

halves : (a k : ℕ) → a / 2 / 2 ^ k ≡ a / 2 ^ suc k
halves a k = div-div-eq-div-mul a 2 (2 ^ k) ∙ ap (λ (t : ℕ). a / t) (omega (arith, pow-suc 2 k))

-- One bit of a number, by its mask.
pub and_bit : (k a : ℕ) → bit_and a (2 ^ k) ≡ a / 2 ^ k % 2 * 2 ^ k
and_bit zero a = omega (arith, and_digit a 1, and_zero (a / 2))
and_bit (suc k) a = ground (
  arith,
  pow-suc 2 k,
  and_digit a (2 ^ suc k),
  and_bit k (a / 2),
  halves a k,
  pow_double (a / 2 ^ suc k % 2) k,
)

-- For two elements, or for one and any 31-bit number, `AddM` gives an element, so never 0, that
-- is their sum modulo the prime.
pub add_m_lem :
    (a b : ℕ)
    → IsElement a
    → b ≤ prime
    → IsElement (add_m a b) × (add_m a b % prime ≡ (a + b) % prime)
unfolding add_m
add_m_lem a b p q = ground (arith, and_bit 31 (a + b), and_low 31 (a + b))

mul_by_pow2_lem :
    (x k : ℕ)
    → k ≤ 31
    → IsElement x
    → mul_by_pow2 x k ≡ (x % 2 ^ (32 - k) * 2 ^ k + x / 2 ^ (31 - k)) % 2 ^ 31
unfolding mul_by_pow2
mul_by_pow2_lem x k h p =
    ap (λ (t : ℕ). bit_and (bit_or t (x / 2 ^ (31 - k))) (2 ^ 31 - 1))
      (shl_field 32 k x (omega arith))
    ∙ (ap (λ (t : ℕ). bit_and t (2 ^ 31 - 1))
          (or_disjoint k (x % 2 ^ (32 - k)) (x / 2 ^ (31 - k)) (shr-lt 31 k x h (omega arith)))
        ∙ and_low 31 (x % 2 ^ (32 - k) * 2 ^ k + x / 2 ^ (31 - k)))

abbrev ScalesBy : ℕ → Type 0
ScalesBy k =
    (x : ℕ)
    → IsElement x
    → IsElement (mul_by_pow2 x k) × (mul_by_pow2 x k % prime ≡ x * 2 ^ k % prime)

mul_by_pow2_8 : ScalesBy 8
mul_by_pow2_8 x p = omega (arith, mul_by_pow2_lem x 8 (omega arith) p)

mul_by_pow2_15 : ScalesBy 15
mul_by_pow2_15 x p = omega (arith, mul_by_pow2_lem x 15 (omega arith) p)

mul_by_pow2_17 : ScalesBy 17
mul_by_pow2_17 x p = omega (arith, mul_by_pow2_lem x 17 (omega arith) p)

mul_by_pow2_20 : ScalesBy 20
mul_by_pow2_20 x p = omega (arith, mul_by_pow2_lem x 20 (omega arith) p)

mul_by_pow2_21 : ScalesBy 21
mul_by_pow2_21 x p = omega (arith, mul_by_pow2_lem x 21 (omega arith) p)

pub feedback_lem :
    (s : List ℕ)
    → ((i : ℕ) → i < 16 → IsElement (get_or s i 0))
    → IsElement (feedback s)
      × (feedback s % prime
          ≡ (get_or s 15 0 * 2 ^ 15
              + get_or s 13 0 * 2 ^ 17
              + get_or s 10 0 * 2 ^ 21
              + get_or s 4 0 * 2 ^ 20
              + get_or s 0 0 * (1 + 2 ^ 8))
            % prime)
unfolding feedback
feedback_lem s cells =
    let c₀ = cells 0 (omega arith) in
    let m₀ = mul_by_pow2_8 (get_or s 0 0) c₀ in
    let m₄ = mul_by_pow2_20 (get_or s 4 0) (cells 4 (omega arith)) in
    let m₁₀ = mul_by_pow2_21 (get_or s 10 0) (cells 10 (omega arith)) in
    let m₁₃ = mul_by_pow2_17 (get_or s 13 0) (cells 13 (omega arith)) in
    let m₁₅ = mul_by_pow2_15 (get_or s 15 0) (cells 15 (omega arith)) in
    let a₁ = add_m_lem (get_or s 0 0) (mul_by_pow2 (get_or s 0 0) 8) c₀ m₀.0.1 in
    let a₂ = add_m_lem _ (mul_by_pow2 (get_or s 4 0) 20) a₁.0 m₄.0.1 in
    let a₃ = add_m_lem _ (mul_by_pow2 (get_or s 10 0) 21) a₂.0 m₁₀.0.1 in
    let a₄ = add_m_lem _ (mul_by_pow2 (get_or s 13 0) 17) a₃.0 m₁₃.0.1 in
    let a₅ = add_m_lem _ (mul_by_pow2 (get_or s 15 0) 15) a₄.0 m₁₅.0.1 in
    (a₅.0, omega (arith, m₀, m₄, m₁₀, m₁₃, m₁₅, a₁, a₂, a₃, a₄, a₅))
