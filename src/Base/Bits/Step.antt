-- ===== src/Base/Bits/Step.antt =====
-- What the native bit operations do to the lowest binary digit of their arguments.
use Prim.Native.Nat.{ℕ, zero, suc, ◌+◌, ◌-◌, ◌*◌, ◌/◌, ◌%◌, ◌≤◌, ◌<◌, min, max, digits, differ}
use Prim.Native.Nat.{bit_and, bit_or, bit_xor, bit_and-bitwise, bit_or-bitwise, bit_xor-bitwise}
use mathlib.Core.Path.{◌≡◌, refl, sym, ap, ◌∙◌}
use native.Mathlib.Nat.{zero-add, suc-add}
use native.Mathlib.Omega.{arith}

-- `digits` counts down; the count matters only while digits of the first number are left.
module _ (rest : ℕ → ℕ) (op : ℕ → ℕ → ℕ) where
  digits_one_more :
      (count a b : ℕ) → a ≤ count → digits rest op (suc count) a b ≡ digits rest op count a b
  digits_one_more count zero b h =
      elim (count) as (λ n. digits rest op (suc n) 0 b ≡ digits rest op n 0 b) [
        | zero ↦ refl
        | suc n ↦ refl
      ]
  digits_one_more zero (suc a) b h = absurd (omega arith)
  digits_one_more (suc count) (suc a) b h =
      ap (λ (t : ℕ). t * 2 + op (suc a % 2) (b % 2))
        (digits_one_more count (suc a / 2) (b / 2) (omega arith))

  digits_more :
      (extra count a b : ℕ)
      → a ≤ count
      → digits rest op (extra + count) a b ≡ digits rest op count a b
  digits_more zero count a b h = rw (zero-add count)
  digits_more (suc extra) count a b h =
      rw (suc-add extra count)
        (digits_one_more (extra + count) a b (omega arith) ∙ digits_more extra count a b h)

  -- The lowest digit apart, and the count of the others as `bitwise` would take it.
  lowest_digit :
      (a b : ℕ)
      → digits rest op (suc a) (suc a) b
        ≡ digits rest op (suc a / 2) (suc a / 2) (b / 2) * 2 + op (suc a % 2) (b % 2)
  lowest_digit a b =
      let spare : a ≡ a - suc a / 2 + suc a / 2 = omega arith in
      ap (λ (t : ℕ). t * 2 + op (suc a % 2) (b % 2))
        (ap (λ (n : ℕ). digits rest op n (suc a / 2) (b / 2)) spare
          ∙ digits_more (a - suc a / 2) (suc a / 2) (suc a / 2) (b / 2) (omega arith))

pub or_digit : (a b : ℕ) → bit_or a b ≡ bit_or (a / 2) (b / 2) * 2 + max (a % 2) (b % 2)
or_digit zero b = omega (arith, bit_or-bitwise 0 b, bit_or-bitwise 0 (b / 2))
or_digit (suc a) b =
    bit_or-bitwise (suc a) b
    ∙ (lowest_digit (λ y. y) max a b
        ∙ ap (λ (t : ℕ). t * 2 + max (suc a % 2) (b % 2))
            (sym (bit_or-bitwise (suc a / 2) (b / 2))))

pub and_digit : (a b : ℕ) → bit_and a b ≡ bit_and (a / 2) (b / 2) * 2 + min (a % 2) (b % 2)
and_digit zero b = omega (arith, bit_and-bitwise 0 b, bit_and-bitwise 0 (b / 2))
and_digit (suc a) b =
    bit_and-bitwise (suc a) b
    ∙ (lowest_digit (λ y. 0) min a b
        ∙ ap (λ (t : ℕ). t * 2 + min (suc a % 2) (b % 2))
            (sym (bit_and-bitwise (suc a / 2) (b / 2))))

differ_digits : (x y : ℕ) → x < 2 → y < 2 → differ x y ≡ (x + y) % 2
differ_digits zero y p q = omega arith
differ_digits (suc zero) zero p q = refl
differ_digits (suc zero) (suc zero) p q = refl
differ_digits (suc zero) (suc (suc y)) p q = absurd (omega arith)
differ_digits (suc (suc x)) y p q = absurd (omega arith)

differ_mod : (a b : ℕ) → differ (a % 2) (b % 2) ≡ (a + b) % 2
differ_mod a b = omega (arith, differ_digits (a % 2) (b % 2) (omega arith) (omega arith))

pub xor_digit : (a b : ℕ) → bit_xor a b ≡ bit_xor (a / 2) (b / 2) * 2 + (a + b) % 2
xor_digit zero b = omega (arith, bit_xor-bitwise 0 b, bit_xor-bitwise 0 (b / 2))
xor_digit (suc a) b =
    bit_xor-bitwise (suc a) b
    ∙ (lowest_digit (λ y. y) differ a b
        ∙ ap (λ (t : ℕ). t * 2 + differ (suc a % 2) (b % 2))
            (sym (bit_xor-bitwise (suc a / 2) (b / 2))))
    ∙ omega (arith, differ_mod (suc a) b)
