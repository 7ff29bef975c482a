-- ===== src/SvComp/Modulus/Digits.antt =====
-- The inner loop of modulus.c: the sum of the digits of a number to the base `2 ^ s`.
use native.Mathlib.Nat.{
  mul-suc, suc-mul, le-div_iff_mul-le, mul-add, mul-le-mul_right, mod-add-div', mod-lt, one-le-pow,
  pow-suc, mul_comm,
}
use native.Mathlib.Decide.{ℕ_discrete}
use saw_script.Base.{
  ℕ, zero, suc, ◌+◌, ◌-◌, ◌*◌, ◌/◌, ◌%◌, ◌^◌, ◌≤◌, ◌<◌, ◌≡◌, ◌∙◌, ap, arith, some, true, false, ltb,
  bit_and, add,
}
use saw_script.Base.Bits.{and_low}
use saw_script.SvComp.Modulus.{digits_loop}

pub two_le_pow : (s : ℕ) → 0 < s → 2 ≤ 2 ^ s
two_le_pow zero h = absurd (omega arith)
two_le_pow (suc s) h = omega (arith, pow-suc 2 s, one-le-pow s 2)

-- What is left after one digit to the base `p`: `r` and `q` are for the number without the digit.
digit_split : (p d n r q : ℕ) → p ≡ suc d → n / p ≡ r + d * q → n ≡ n % p + r + d * (r + p * q)
digit_split p d n r q e h = omega (
  arith,
  mod-add-div' n p,
  mul_comm (n / p) p,
  ap (λ (t : ℕ). t * (n / p)) e,
  suc-mul d (n / p),
  ap (λ (t : ℕ). d * t) h,
  mul-add d r (d * q),
  ap (λ (t : ℕ). t * q) e,
  suc-mul d q,
  ap (λ (t : ℕ). d * t) (ap (λ (t : ℕ). t * q) e),
  ap (λ (t : ℕ). d * t) (suc-mul d q),
  mul-add d (d * q) q,
  mul-add d r (p * q),
)

-- The digits added, when every digit but the first is the rest already.
digits_bound : (p q : ℕ) → 2 ≤ p → 2 * q + p ≤ p * suc q
digits_bound p q h = omega (arith, mul-suc p q, mul-le-mul_right q h)

div-lt_half : (p k n : ℕ) → 2 ≤ p → 0 < n → n < 2 ^ k → (0 < k) × (n / p < 2 ^ (k - 1))
div-lt_half p zero n h pos small = absurd (omega arith)
div-lt_half p (suc k) n h pos small =
    let prev : suc k - 1 ≡ k = omega arith in
    (
      omega arith,
      rw prev (
          omega
            (arith, pow-suc 2 k, mod-add-div' n p, mul_comm (n / p) p, mul-le-mul_right (n / p) h)),
    )

low_high_le : (p n : ℕ) → 2 ≤ p → n % p + n / p ≤ n
low_high_le p n h = omega (arith, mod-add-div' n p, mul_comm (n / p) p, mul-le-mul_right (n / p) h)

-- The inner loop adds `r` to `m`, which differs from `n` by a multiple of `d`.
abbrev pub IsSum : ℕ → ℕ → ℕ → ℕ → ℕ → ℕ → Type 0
IsSum fuel s n m r q =
    (digits_loop fuel (2 ^ s - 1) s n m ≡ some (m + r))
    × (n ≡ r + (2 ^ s - 1) * q)
    × (r ≤ n % 2 ^ s + n / 2 ^ s)

IsSum-stop : (fuel s n m : ℕ) → n ≡ 0 → IsSum (suc fuel) s n m 0 0
unfolding digits_loop
IsSum-stop fuel s n m e =
    let stop : ltb 0 n ≡ false = ground arith in
    (rw stop (ap some (omega arith)), omega arith, omega arith)

IsSum-step :
    (fuel s n m r q : ℕ)
    → 2 ≤ 2 ^ s
    → 0 < n
    → n + m < 2 ^ 32
    → IsSum fuel s (n / 2 ^ s) (m + n % 2 ^ s) r q
    → IsSum (suc fuel) s n m (n % 2 ^ s + r) (r + 2 ^ s * q)
unfolding digits_loop
IsSum-step fuel s n m r q two pos fits h =
    let p = 2 ^ s in
    let go_on : ltb 0 n ≡ true = ground arith in
    let digit : add 32 m (bit_and n (p - 1)) ≡ m + n % p =
      omega (arith, and_low s n, low_high_le p n two) in
    let sum : m + n % p + r ≡ m + (n % p + r) = omega arith in
    (
      rw (go_on, digit) (h.0 ∙ ap some sum),
      digit_split p (p - 1) n r q (omega arith) h.1,
      omega (arith, h.2, low_high_le p (n / p) two),
    )

pub digits_loop-IsSum :
    (fuel k s n m : ℕ)
    → 0 < s
    → n < 2 ^ k
    → k < fuel
    → n + m < 2 ^ 32
    → (r q : ℕ) × IsSum fuel s n m r q
digits_loop-IsSum zero k s n m h small enough fits = absurd (omega arith)
digits_loop-IsSum (suc fuel) k s n m h small enough fits = elim (ℕ_discrete n 0) [
  | yes e ↦ (0, 0, IsSum-stop fuel s n m e)
  | no ne ↦
      let p = 2 ^ s in
      let two = two_le_pow s h in
      let pos : 0 < n = omega (arith, ne) in
      let half = div-lt_half p k n two pos small in
      let rest =
        digits_loop-IsSum fuel (k - 1) s (n / p) (m + n % p) h half.1 (omega (arith, half.0))
          (omega (arith, low_high_le p n two)) in
      (n % p + rest.0, rest.0 + p * rest.1, IsSum-step fuel s n m rest.0 rest.1 two pos fits rest.2)
]

-- The digits of a number of more than one digit add up to at most half of it, rounded up.
pub digits_half : (p n r : ℕ) → 2 ≤ p → p ≤ n → r ≤ n % p + n / p → r ≤ (n + 1) / 2
digits_half p n r h more le =
    let q = n / p in
    let some_more : suc (q - 1) ≡ q =
      omega (arith, (le-div_iff_mul-le {k = p} {x = 1} {y = n} (omega arith)).1 (omega arith)) in
    omega (
      arith,
      mod-add-div' n p,
      mul_comm q p,
      digits_bound p (q - 1) h,
      ap (λ (t : ℕ). p * t) some_more,
      mod-lt n {m = p} (omega arith),
    )
