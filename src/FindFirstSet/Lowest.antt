-- ===== src/FindFirstSet/Lowest.antt =====
-- The lowest set bit of a number.
use native.Mathlib.Nat.{pow-suc, div-div-eq-div-mul, one-le-pow, pow-le-pow_right}
use saw_script.Base.{
  ℕ, zero, suc, ◌+◌, ◌-◌, ◌*◌, ◌/◌, ◌%◌, ◌^◌, ◌≤◌, ◌<◌, ◌≡◌, ◌≢◌, ◌∙◌, refl, sym, ap, inl, inr,
  arith, bit_and, shl, ◌==◌, Bool-cases,
}
use saw_script.Base.Bits.Split.{div-pow_suc, mod-pow_suc, and-zero}
use saw_script.Base.Bits.{and_digit, pow_double}

-- `r` is the place of the lowest set bit, counted from 0.
abbrev pub IsLowest : ℕ → ℕ → Type 0
IsLowest x zero = x % 2 ≡ 1
IsLowest x (suc r) = (x % 2 ≡ 0) × IsLowest (x / 2) r

pub lowest : (k x : ℕ) → 0 < x → x < 2 ^ k → (r : ℕ) × (r < k) × IsLowest x r
lowest zero x pos small = absurd (omega arith)
lowest (suc k) x pos small = elim (Bool-cases (x % 2 == 0)) [
  | inl e ↦
      let deeper = lowest k (x / 2) (ground arith) (omega (arith, pow-suc 2 k)) in
      (suc deeper.0, omega (arith, deeper.1), (ground arith, deeper.2))
  | inr e ↦ (0, omega arith, ground arith)
]

pub IsLowest-pos : (x r : ℕ) → IsLowest x r → 0 < x
IsLowest-pos x zero h = omega arith
IsLowest-pos x (suc r) h = omega (arith, IsLowest-pos (x / 2) r h.1)

pub IsLowest-shift :
    (m x r : ℕ) → IsLowest x r → x % 2 ^ m ≡ 0 → (m ≤ r) × IsLowest (x / 2 ^ m) (r - m)
IsLowest-shift zero x r h e = (
  omega arith,
  let same : x / 2 ^ 0 ≡ x = omega arith in let all : r - 0 ≡ r = omega arith in rw (same, all) h,
)
IsLowest-shift (suc m) x zero h e = absurd (omega (arith, mod-pow_suc x m))
IsLowest-shift (suc m) x (suc r) h e =
    let deeper = IsLowest-shift m (x / 2) r h.1 (omega (arith, mod-pow_suc x m)) in
    let drop : suc r - suc m ≡ r - m = omega arith in
    (omega (arith, deeper.0), rw (div-pow_suc x m, drop) deeper.1)

pub IsLowest-stay : (m x r : ℕ) → IsLowest x r → x % 2 ^ m ≢ 0 → r < m
IsLowest-stay zero x r h ne = absurd (ne (omega arith))
IsLowest-stay (suc m) x zero h ne = omega arith
IsLowest-stay (suc m) x (suc r) h ne =
    omega (arith, IsLowest-stay m (x / 2) r h.1 (λ e. ne (omega (arith, mod-pow_suc x m, h.0))))

-- The bit `i` of a word.
pub and_power : (i w : ℕ) → bit_and (2 ^ i) w ≡ 2 ^ i * (w / 2 ^ i % 2)
and_power zero w = omega (arith, and_digit 1 w, and-zero (w / 2))
and_power (suc i) w =
    let half : 2 ^ suc i / 2 ≡ 2 ^ i = omega (arith, pow-suc 2 i) in
    let rest = and_power i (w / 2) in
    let digit = and_digit (2 ^ suc i) w in
    rw (div-pow_suc w i) (
      omega (
        arith,
        pow-suc 2 i,
        digit,
        ap (λ (t : ℕ). bit_and t (w / 2)) half,
        rest,
        pow_double (w / 2 / 2 ^ i % 2) i,
      ))

-- A number and its complement have no bit in common.
and_complement : (k y : ℕ) → y < 2 ^ k → bit_and y (2 ^ k - 1 - y) ≡ 0
and_complement zero y h = let none_left : y ≡ 0 = omega arith in rw none_left refl
and_complement (suc k) y h =
    let half : (2 ^ suc k - 1 - y) / 2 ≡ 2 ^ k - 1 - y / 2 = omega (arith, pow-suc 2 k) in
    omega (
      arith,
      pow-suc 2 k,
      and_digit y (2 ^ suc k - 1 - y),
      ap (λ (t : ℕ). bit_and (y / 2) t) half,
      and_complement k (y / 2) (omega (arith, pow-suc 2 k)),
    )

-- `x & -x` is the lowest set bit.
pub and_negative : (k x r : ℕ) → x < 2 ^ k → IsLowest x r → bit_and x (2 ^ k - x) ≡ 2 ^ r
and_negative zero x r h l = absurd (omega (arith, IsLowest-pos x r l))
and_negative (suc k) x zero h l =
    let half : (2 ^ suc k - x) / 2 ≡ 2 ^ k - 1 - x / 2 = omega (arith, pow-suc 2 k) in
    omega (
      arith,
      pow-suc 2 k,
      and_digit x (2 ^ suc k - x),
      and_complement k (x / 2) (omega (arith, pow-suc 2 k)),
      ap (λ (t : ℕ). bit_and (x / 2) t) half,
    )
and_negative (suc k) x (suc r) h l =
    let half : (2 ^ suc k - x) / 2 ≡ 2 ^ k - x / 2 = omega (arith, pow-suc 2 k, l.0) in
    omega (
      arith,
      pow-suc 2 k,
      pow-suc 2 r,
      and_digit x (2 ^ suc k - x),
      ap (λ (t : ℕ). bit_and (x / 2) t) half,
      and_negative k (x / 2) r (omega (arith, pow-suc 2 k)) l.1,
    )

-- The bit that the loop tests in its round `i`, and the word behind it.
pub one_bit : (i : ℕ) → i < 32 → shl 32 1 i ≡ 2 ^ i
one_bit i h = omega (
  arith,
  one-le-pow i 2,
  pow-suc 2 i,
  pow-le-pow_right {n = 2} (omega arith) {i = suc i} {j = 32} h,
)

pub and-one_bit : (i w : ℕ) → i < 32 → bit_and (shl 32 1 i) w ≡ 2 ^ i * (w / 2 ^ i % 2)
and-one_bit i w h = ap (λ (t : ℕ). bit_and t w) (one_bit i h) ∙ and_power i w

pub pow_pos : (i : ℕ) → 0 < 2 ^ i
pow_pos i = omega (arith, one-le-pow i 2)

pub div-pow_next : (w i : ℕ) → w / 2 ^ (i + 1) ≡ w / 2 ^ i / 2
div-pow_next w i =
    let next : i + 1 ≡ suc i = omega arith in
    let power : 2 ^ (i + 1) ≡ 2 ^ i * 2 = rw next (pow-suc 2 i) in
    ap (λ (t : ℕ). w / t) power ∙ sym (div-div-eq-div-mul w (2 ^ i) 2)
