-- ===== src/Base/Bits/Split.antt =====
-- A number split into its low bits and the others, and `&` on both parts.
use Prim.Native.Nat.{ℕ, zero, suc, ◌+◌, ◌*◌, ◌/◌, ◌%◌, ◌^◌, ◌<◌, bit_and}
use mathlib.Core.Path.{◌≡◌, sym, ap, ap₂, ◌∙◌}
use native.Mathlib.Nat.{
  pow-suc, pow-succ', one-le-pow, add-mul-div_left, add-mul-mod_self_left, div-div-eq-div-mul,
  mod-lt, div-eq_of_lt, mod-eq_of_lt, mod-add-div', mul_assoc, mul-add,
}
use native.Mathlib.Omega.{arith}
use saw_script.Base.Bits.Step.{and_digit}
use saw_script.Base.Bits.Fields.{and-le, pow_double}

-- A number without its low bits.
pub div-pow_suc : (x m : ℕ) → x / 2 ^ suc m ≡ x / 2 / 2 ^ m
div-pow_suc x m = ap (λ (t : ℕ). x / t) (pow-succ' 2 m) ∙ sym (div-div-eq-div-mul x 2 (2 ^ m))

pub mod-pow_suc : (x m : ℕ) → x % 2 ^ suc m ≡ x / 2 % 2 ^ m * 2 + x % 2
mod-pow_suc x m =
    let whole = ap (λ (t : ℕ). t * 2 ^ suc m) (div-pow_suc x m) in
    omega (
      arith,
      mod-add-div' x (2 ^ suc m),
      whole,
      pow_double (x / 2 / 2 ^ m) m,
      mod-add-div' (x / 2) (2 ^ m),
    )

-- The lowest lane of a number, and the others.
module _ (p r q : ℕ) (fits : r < p) where
  pub mod_lane : (r + p * q) % p ≡ r
  mod_lane = add-mul-mod_self_left r p q ∙ mod-eq_of_lt fits

  pub div_lane : (r + p * q) / p ≡ q
  div_lane = omega (arith, add-mul-div_left r q {y = p} (omega arith), div-eq_of_lt fits)

mod-half : (x k : ℕ) → x % 2 ^ suc k / 2 ≡ x / 2 % 2 ^ k
mod-half x k = omega (arith, mod-pow_suc x k)

mod-parity : (x k : ℕ) → x % 2 ^ suc k % 2 ≡ x % 2
mod-parity x k = omega (arith, mod-pow_suc x k)

twice : (a b : ℕ) → a * (2 * b) ≡ 2 * (a * b)
twice a b = sym (mul_assoc a 2 b) ∙ ap (λ (t : ℕ). t * b) (omega arith) ∙ mul_assoc 2 a b

pub and-zero : (b : ℕ) → bit_and 0 b ≡ 0
and-zero b = omega (arith, and-le 0 b)

-- `&` lane by lane.
pub and-split :
    (k a b : ℕ)
    → bit_and a b ≡ bit_and (a % 2 ^ k) (b % 2 ^ k) + 2 ^ k * bit_and (a / 2 ^ k) (b / 2 ^ k)
and-split zero a b =
    let none_a : a % 2 ^ 0 ≡ 0 = omega arith in
    let all_a : a / 2 ^ 0 ≡ a = omega arith in
    let all_b : b / 2 ^ 0 ≡ b = omega arith in
    rw (none_a, all_a, all_b) (omega (arith, and-zero (b % 2 ^ 0)))
and-split (suc k) a b = omega (
  arith,
  and_digit a b,
  and-split k (a / 2) (b / 2),
  and_digit (a % 2 ^ suc k) (b % 2 ^ suc k),
  ap₂ bit_and (mod-half a k) (mod-half b k),
  mod-parity a k,
  mod-parity b k,
  ap₂ bit_and (div-pow_suc a k) (div-pow_suc b k),
  ap (λ (t : ℕ). t * bit_and (a / 2 ^ suc k) (b / 2 ^ suc k)) (pow-suc 2 k),
  mul_assoc (2 ^ k) 2 (bit_and (a / 2 ^ suc k) (b / 2 ^ suc k)),
  mul-add (2 ^ k) (bit_and (a / 2 ^ suc k) (b / 2 ^ suc k))
      (bit_and (a / 2 ^ suc k) (b / 2 ^ suc k)),
  ap (λ (t : ℕ). 2 ^ k * t) (ap₂ bit_and (div-pow_suc a k) (div-pow_suc b k)),
  twice (2 ^ k) (bit_and (a / 2 ^ suc k) (b / 2 ^ suc k)),
)

-- A shift moves the mask along.
pub div-and : (k a b : ℕ) → bit_and a b / 2 ^ k ≡ bit_and (a / 2 ^ k) (b / 2 ^ k)
div-and k a b =
    let low = bit_and (a % 2 ^ k) (b % 2 ^ k) in
    let fits : low < 2 ^ k = omega (
      arith,
      and-le (a % 2 ^ k) (b % 2 ^ k),
      mod-lt a {m = 2 ^ k} (omega (arith, one-le-pow k 2)),
    ) in
    ap (λ (t : ℕ). t / 2 ^ k) (and-split k a b)
    ∙ div_lane (2 ^ k) low (bit_and (a / 2 ^ k) (b / 2 ^ k)) fits
