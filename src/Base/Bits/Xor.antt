-- ===== src/Base/Bits/Xor.antt =====
-- `bit_xor` is commutative and associative, every number is its own inverse, and a width is kept.
use Prim.Native.Nat.{ℕ, zero, suc, ◌+◌, ◌/◌, ◌%◌, ◌^◌, ◌≤◌, ◌<◌, bit_xor, bit_xor-bitwise}
use mathlib.Core.Path.{◌≡◌, refl, ◌∙◌}
use native.Mathlib.Nat.{pow-suc}
use native.Mathlib.Omega.{arith}
use saw_script.Base.Bits.Step.{xor_digit}

zero_of : (x : ℕ) → x ≤ 0 → x ≡ 0
zero_of x h = omega arith

pub xor-half : (a b : ℕ) → bit_xor a b / 2 ≡ bit_xor (a / 2) (b / 2)
xor-half a b = omega (arith, xor_digit a b)

pub xor-parity : (a b : ℕ) → bit_xor a b % 2 ≡ (a + b) % 2
xor-parity a b = omega (arith, xor_digit a b)

-- The recursions go by the digits that are left, hence the bound `n`.
xor_comm_below : (n a b : ℕ) → a ≤ n → b ≤ n → bit_xor a b ≡ bit_xor b a
xor_comm_below zero a b p q = rw (zero_of a p, zero_of b q)
xor_comm_below (suc n) a b p q = omega (
  arith,
  xor_digit a b,
  xor_digit b a,
  xor_comm_below n (a / 2) (b / 2) (omega arith) (omega arith),
)

pub xor_comm : (a b : ℕ) → bit_xor a b ≡ bit_xor b a
xor_comm a b = xor_comm_below (a + b) a b (omega arith) (omega arith)

xor_self_below : (n a : ℕ) → a ≤ n → bit_xor a a ≡ 0
xor_self_below n zero p = refl
xor_self_below zero (suc a) p = absurd (omega arith)
xor_self_below (suc n) (suc a) p =
    omega (arith, xor_digit (suc a) (suc a), xor_self_below n (suc a / 2) (omega arith))

pub xor_self : (a : ℕ) → bit_xor a a ≡ 0
xor_self a = xor_self_below a a (omega arith)

pub zero-xor : (a : ℕ) → bit_xor 0 a ≡ a
zero-xor a = bit_xor-bitwise 0 a

pub xor-zero : (a : ℕ) → bit_xor a 0 ≡ a
xor-zero a = xor_comm a 0 ∙ zero-xor a

xor_assoc_below :
    (n a b c : ℕ) → a ≤ n → b ≤ n → c ≤ n → bit_xor (bit_xor a b) c ≡ bit_xor a (bit_xor b c)
xor_assoc_below zero a b c p q r = rw (zero_of a p, zero_of b q, zero_of c r)
xor_assoc_below (suc n) a b c p q r =
    let ih = xor_assoc_below n (a / 2) (b / 2) (c / 2) (omega arith) (omega arith) (omega arith) in
    rw (xor_digit (bit_xor a b) c, xor_digit a (bit_xor b c), xor-half a b, xor-half b c, ih)
      (omega (arith, xor-parity a b, xor-parity b c))

pub xor_assoc : (a b c : ℕ) → bit_xor (bit_xor a b) c ≡ bit_xor a (bit_xor b c)
xor_assoc a b c = xor_assoc_below (a + b + c) a b c (omega arith) (omega arith) (omega arith)

-- What is mixed in twice cancels.
pub xor_cancel : (a b : ℕ) → bit_xor (bit_xor a b) b ≡ a
xor_cancel a b = rw (xor_assoc, xor_self, xor-zero)

pub xor_cancel_left : (a b : ℕ) → bit_xor a (bit_xor a b) ≡ b
xor_cancel_left a b = rw (← xor_assoc a a b, xor_self, zero-xor)

pub xor-lt : (k a b : ℕ) → a < 2 ^ k → b < 2 ^ k → bit_xor a b < 2 ^ k
xor-lt zero a b p q = rw (zero_of a (omega arith), zero_of b (omega arith)) (omega arith)
xor-lt (suc k) a b p q = omega (
  arith,
  xor_digit a b,
  pow-suc 2 k,
  xor-lt k (a / 2) (b / 2) (omega (arith, pow-suc 2 k)) (omega (arith, pow-suc 2 k)),
)

pub xor_right_comm : (a b c : ℕ) → bit_xor (bit_xor a b) c ≡ bit_xor (bit_xor a c) b
xor_right_comm a b c = rw (xor_assoc a b c, xor_comm b c, ← xor_assoc a c b)
