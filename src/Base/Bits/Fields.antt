-- ===== src/Base/Bits/Fields.antt =====
-- `|` of disjoint fields is a sum, `&` with a low mask is a remainder, and both keep a width.
use Prim.Native.Nat.{
  ℕ, zero, suc, ◌+◌, ◌-◌, ◌*◌, ◌/◌, ◌%◌, ◌^◌, ◌≤◌, ◌<◌, bit_and, bit_or, bit_and-bitwise,
}
use mathlib.Core.Path.{◌≡◌, refl, ap}
use native.Mathlib.Nat.{pow-suc, one-le-pow}
use native.Mathlib.Omega.{arith}
use saw_script.Base.Bits.Step.{or_digit, and_digit}

or-zero_below : (n a : ℕ) → a ≤ n → bit_or a 0 ≡ a
or-zero_below n zero p = refl
or-zero_below zero (suc a) p = absurd (omega arith)
or-zero_below (suc n) (suc a) p =
    omega (arith, or_digit (suc a) 0, or-zero_below n (suc a / 2) (omega arith))

and-zero_below : (n a : ℕ) → a ≤ n → bit_and a 0 ≡ 0
and-zero_below n zero p = refl
and-zero_below zero (suc a) p = absurd (omega arith)
and-zero_below (suc n) (suc a) p =
    omega (arith, and_digit (suc a) 0, and-zero_below n (suc a / 2) (omega arith))

or_comm_below : (n a b : ℕ) → a ≤ n → b ≤ n → bit_or a b ≡ bit_or b a
or_comm_below zero zero zero p q = refl
or_comm_below zero (suc a) b p q = absurd (omega arith)
or_comm_below zero zero (suc b) p q = absurd (omega arith)
or_comm_below (suc n) a b p q =
    omega (
      arith,
      or_digit a b,
      or_digit b a,
      or_comm_below n (a / 2) (b / 2) (omega arith) (omega arith),
    )

pub or_comm : (a b : ℕ) → bit_or a b ≡ bit_or b a
or_comm a b = or_comm_below (a + b) a b (omega arith) (omega arith)

pub pow_double : (q k : ℕ) → q * 2 ^ suc k ≡ 2 * (q * 2 ^ k)
pow_double q k = omega (arith, ap (λ (t : ℕ). q * t) (pow-suc 2 k))

-- The field above bit `k` and the one below it do not overlap.
pub or_disjoint : (k q r : ℕ) → r < 2 ^ k → bit_or (q * 2 ^ k) r ≡ q * 2 ^ k + r
or_disjoint zero q r fits = ground (arith, or-zero_below q q)
or_disjoint (suc k) q r fits = ground (
  arith,
  pow-suc 2 k,
  or_digit (q * 2 ^ suc k) r,
  pow_double q k,
  or_disjoint k q (r / 2) (omega (arith, pow-suc 2 k)),
)

and_fields : (k q r : ℕ) → r < 2 ^ k → bit_and (q * 2 ^ k + r) (2 ^ k - 1) ≡ r
and_fields zero q r fits = ground (arith, and-zero_below (q + r) (q + r))
and_fields (suc k) q r fits = ground (
  arith,
  pow-suc 2 k,
  one-le-pow k 2,
  and_digit (q * 2 ^ suc k + r) (2 ^ suc k - 1),
  pow_double q k,
  and_fields k q (r / 2) (omega (arith, pow-suc 2 k)),
)

-- A mask of `k` low bits is the remainder by `2 ^ k`.
pub and_low : (k a : ℕ) → bit_and a (2 ^ k - 1) ≡ a % 2 ^ k
and_low k a = ground (arith, one-le-pow k 2, and_fields k (a / 2 ^ k) (a % 2 ^ k))

pub or-lt : (k a b : ℕ) → a < 2 ^ k → b < 2 ^ k → bit_or a b < 2 ^ k
or-lt zero zero zero p q = p
or-lt zero (suc a) b p q = absurd (omega arith)
or-lt zero zero (suc b) p q = absurd (omega arith)
or-lt (suc k) a b p q = omega (
  arith,
  or_digit a b,
  pow-suc 2 k,
  or-lt k (a / 2) (b / 2) (omega (arith, pow-suc 2 k)) (omega (arith, pow-suc 2 k)),
)

and-le_below : (n a b : ℕ) → a ≤ n → bit_and a b ≤ a
and-le_below n zero b p = omega (arith, bit_and-bitwise 0 b)
and-le_below zero (suc a) b p = absurd (omega arith)
and-le_below (suc n) (suc a) b p =
    omega (arith, and_digit (suc a) b, and-le_below n (suc a / 2) (b / 2) (omega arith))

pub and-le : (a b : ℕ) → bit_and a b ≤ a
and-le a b = and-le_below a a b (omega arith)

and_comm_below : (n a b : ℕ) → a ≤ n → b ≤ n → bit_and a b ≡ bit_and b a
and_comm_below zero zero zero p q = refl
and_comm_below zero (suc a) b p q = absurd (omega arith)
and_comm_below zero zero (suc b) p q = absurd (omega arith)
and_comm_below (suc n) a b p q = omega (
  arith,
  and_digit a b,
  and_digit b a,
  and_comm_below n (a / 2) (b / 2) (omega arith) (omega arith),
)

pub and_comm : (a b : ℕ) → bit_and a b ≡ bit_and b a
and_comm a b = and_comm_below (a + b) a b (omega arith) (omega arith)
