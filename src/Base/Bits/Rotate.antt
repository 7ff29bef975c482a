-- ===== src/Base/Bits/Rotate.antt =====
-- Rotation of a `w`-bit word: its two shifted parts do not overlap, and the two directions are
-- inverse.
use Prim.Native.Nat.{ℕ, zero, suc, ◌+◌, ◌-◌, ◌*◌, ◌/◌, ◌%◌, ◌^◌, ◌≤◌, ◌<◌, bit_or}
use mathlib.Core.Path.{◌≡◌, sym, ◌∙◌, ap}
use native.Mathlib.Nat.{
  pow-suc, one-le-pow, mul_comm, mod-lt, mod-eq_of_lt, add-mul-mod_self_right, div-lt_iff_lt-mul,
  add-mul-div_right, div-eq_of_lt, mul-lt-mul_of_pos_right, mod-add-div', zero-add, suc-add,
  add_comm, le_trans, div-le_self,
}
use native.Mathlib.Omega.{arith}
use saw_script.Base.Word.{shl, shr}
use saw_script.Base.Bits.Fields.{or_disjoint, or_comm, or-lt}

abbrev pub rotl : ℕ → ℕ → ℕ → ℕ
rotl w x n = bit_or (shl w x n) (shr x (w - n))

abbrev pub rotr : ℕ → ℕ → ℕ → ℕ
rotr w x n = bit_or (shr x n) (shl w x (w - n))

pow_of_eq : {a b : ℕ} → a ≡ b → 2 ^ a ≡ 2 ^ b
pow_of_eq e = ap (λ k. 2 ^ k) e

pub pow-add : (a b : ℕ) → 2 ^ (a + b) ≡ 2 ^ a * 2 ^ b
pow-add zero b = pow_of_eq (zero-add b) ∙ omega arith
pow-add (suc a) b =
    pow_of_eq (suc-add a b)
    ∙ omega (
      arith,
      pow-suc 2 (a + b),
      ap (λ (t : ℕ). t * 2 ^ b) (pow-suc 2 a),
      ap (λ (t : ℕ). 2 * t) (pow-add a b),
    )

pub pow_pos : (k : ℕ) → 0 < 2 ^ k
pow_pos k = omega (arith, one-le-pow k 2)

mul-mod-mul : (x p q : ℕ) → 0 < p → 0 < q → x * p % (q * p) ≡ x % q * p
mul-mod-mul x p q hp hq =
    rw (split ∙ add-mul-mod_self_right (x % q * p) (x / q) (q * p))
      (mod-eq_of_lt (mul-lt-mul_of_pos_right (mod-lt x hq) hp))
  where
    split : x * p % (q * p) ≡ (x % q * p + x / q * (q * p)) % (q * p)
    split = ap (λ (t : ℕ). t % (q * p)) (omega (arith, ap (λ (u : ℕ). u * p) (mod-add-div' x q)))

pub pow_split : (w n : ℕ) → n ≤ w → 2 ^ w ≡ 2 ^ (w - n) * 2 ^ n
pow_split w n h = ap (λ (k : ℕ). 2 ^ k) (omega arith) ∙ pow-add (w - n) n

pub shr-lt : (w n x : ℕ) → n ≤ w → x < 2 ^ w → x / 2 ^ (w - n) < 2 ^ n
shr-lt w n x h hx =
    (div-lt_iff_lt-mul (pow_pos (w - n))).1
      (omega (arith, pow_split w n h, mul_comm (2 ^ n) (2 ^ (w - n))))

-- A left shift as the field that it fills.
pub shl_field : (w n x : ℕ) → n ≤ w → shl w x n ≡ x % 2 ^ (w - n) * 2 ^ n
shl_field w n x h =
    ap (λ (t : ℕ). x * 2 ^ n % t) (pow_split w n h)
    ∙ mul-mod-mul x (2 ^ n) (2 ^ (w - n)) (pow_pos n) (pow_pos (w - n))

-- A rotation as arithmetic.
pub rotl_sum :
    (w n x : ℕ) → n ≤ w → x < 2 ^ w → rotl w x n ≡ x % 2 ^ (w - n) * 2 ^ n + x / 2 ^ (w - n)
rotl_sum w n x h hx =
    ap (λ (t : ℕ). bit_or (x * 2 ^ n % t) (x / 2 ^ (w - n))) (pow_split w n h)
    ∙ (rw (mul-mod-mul x (2 ^ n) (2 ^ (w - n)) (pow_pos n) (pow_pos (w - n)))
        (or_disjoint n (x % 2 ^ (w - n)) (x / 2 ^ (w - n)) (shr-lt w n x h hx)))

pub rotr_sum : (w n x : ℕ) → n ≤ w → x < 2 ^ w → rotr w x n ≡ x % 2 ^ n * 2 ^ (w - n) + x / 2 ^ n
rotr_sum w n x h hx =
    or_comm (x / 2 ^ n) (x * 2 ^ (w - n) % 2 ^ w)
    ∙ (ap (λ (k : ℕ). bit_or (x * 2 ^ (w - n) % 2 ^ w) (x / 2 ^ k)) (sym back)
        ∙ (rotl_sum w (w - n) x (omega arith) hx
            ∙ ap (λ (k : ℕ). x % 2 ^ k * 2 ^ (w - n) + x / 2 ^ k) back))
  where
    back : w - (w - n) ≡ n
    back = omega arith

pub rotl-lt : (w n x : ℕ) → n ≤ w → x < 2 ^ w → rotl w x n < 2 ^ w
rotl-lt w n x h hx =
    or-lt w (shl w x n) (shr x (w - n)) (mod-lt (x * 2 ^ n) (pow_pos w))
      (le_trans (omega (arith, div-le_self x (2 ^ (w - n)))) hx)

pub rotr-lt : (w n x : ℕ) → n ≤ w → x < 2 ^ w → rotr w x n < 2 ^ w
rotr-lt w n x h hx =
    or-lt w (shr x n) (shl w x (w - n)) (le_trans (omega (arith, div-le_self x (2 ^ n))) hx)
      (mod-lt (x * 2 ^ (w - n)) (pow_pos w))

-- Rotating left and then right by the same amount gives the word back.
pub rotr-rotl : (w n x : ℕ) → n ≤ w → x < 2 ^ w → rotr w (rotl w x n) n ≡ x
rotr-rotl w n x h hx = ap (λ (y : ℕ). rotr w y n) swapped ∙ (rotr_sum w n y h y_fits ∙ restored)
  where
    r : ℕ
    r = x % 2 ^ (w - n)

    q : ℕ
    q = x / 2 ^ (w - n)

    y : ℕ
    y = q + r * 2 ^ n

    swapped : rotl w x n ≡ y
    swapped = rotl_sum w n x h hx ∙ add_comm (r * 2 ^ n) q

    y_fits : y < 2 ^ w
    y_fits = rw (← swapped) (rotl-lt w n x h hx)

    restored : y % 2 ^ n * 2 ^ (w - n) + y / 2 ^ n ≡ x
    restored =
        rw
          (
            add-mul-mod_self_right q r (2 ^ n),
            add-mul-div_right q r (pow_pos n),
            mod-eq_of_lt (shr-lt w n x h hx),
            div-eq_of_lt (shr-lt w n x h hx),
          )
          (omega (arith, mod-add-div' x (2 ^ (w - n))))

pub rotr-eq-rotl : (w n x : ℕ) → n ≤ w → rotr w x n ≡ rotl w x (w - n)
rotr-eq-rotl w n x h =
    or_comm (shr x n) (shl w x (w - n))
    ∙ ap (λ (k : ℕ). bit_or (x * 2 ^ (w - n) % 2 ^ w) (x / 2 ^ k)) (omega arith)

-- Rotating right and then left by the same amount gives the word back.
pub rotl-rotr : (w n x : ℕ) → n ≤ w → x < 2 ^ w → rotl w (rotr w x n) n ≡ x
rotl-rotr w n x h hx = rw (rotr-eq-rotl w n x h) (turned ∙ rotr-rotl w (w - n) x (omega arith) hx)
  where
    turned : rotl w (rotl w x (w - n)) n ≡ rotr w (rotl w x (w - n)) (w - n)
    turned = sym (
        rotr-eq-rotl w (w - n) (rotl w x (w - n)) (omega arith)
        ∙ ap (λ (k : ℕ). rotl w (rotl w x (w - n)) k) (omega arith))
