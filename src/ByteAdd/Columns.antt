-- ===== src/ByteAdd/Columns.antt =====
-- The loops of byte_add.c add four columns, whatever the number of components.
use mathlib.Core.Option
use saw_script.Base.{
  ℕ, zero, suc, ◌+◌, ◌-◌, ◌%◌, ◌^◌, ◌≤◌, ◌<◌, ◌≡◌, refl, sym, ap, inl, inr, true, false, not, ◌||◌,
  arith, some, bit_and, add, if◌then◌else◌, ◌==◌, ltb, Bool-cases,
}
use saw_script.Base.Bits.{and_low}
use saw_script.ByteAdd.{Bytes, Sums, components, component, put, sum_loop, clear_loop}

-- Every component is a byte.
pub record AreBytes (a : Bytes) : Type 0 where
  pub at0 : a.c0 < 2 ^ 8
  pub at1 : a.c1 < 2 ^ 8
  pub at2 : a.c2 < 2 ^ 8
  pub at3 : a.c3 < 2 ^ 8

-- The sum of a column with the carry into it.
abbrev pub column : Bytes → Bytes → ℕ → ℕ → ℕ
column a b i carry = carry + component a i + component b i

abbrev pub carry_out : ℕ → ℕ
carry_out s = if ltb 254 s then 1 else 0

-- The columns from `i` on, all of them.
unfoldable pub columns : Bytes → Bytes → ℕ → ℕ → ℕ → Bytes → Bytes
columns a b zero i carry r = r
columns a b (suc n) i carry r =
    let s = column a b i carry in columns a b n (i + 1) (carry_out s) (put i (s % 2 ^ 8) r)

component-lt : (a : Bytes) (i : ℕ) → AreBytes a → component a i < 2 ^ 8
unfolding component
component-lt a i h = ground (arith, h.at0, h.at1, h.at2, h.at3)

components-le : (a : Bytes) → components a ≤ 4
unfolding components
components-le a = ground arith

-- Beyond their number, the components are 0.
component_zero : (a : Bytes) (i : ℕ) → ltb i (components a) ≡ false → component a i ≡ 0
unfolding component components
component_zero a i h = ground arith

low_byte : (s : ℕ) → (if ltb 254 s then bit_and s 255 else s) % 2 ^ 8 ≡ s % 2 ^ 8
low_byte s = ground (arith, and_low 8 s)

-- What the loop adds is the column.
partial_lem :
    (a b : Bytes) (i carry : ℕ)
    → AreBytes a
    → AreBytes b
    → carry ≤ 1
    → (if ltb i (components b)
        then add 16
            (if ltb i (components a) then add 16 carry (component a i) else carry)
            (component b i)
        else (if ltb i (components a) then add 16 carry (component a i) else carry))
      ≡ column a b i carry
partial_lem a b i carry ha hb hc =
    ground (arith, component-lt a i ha, component-lt b i hb, component_zero a i, component_zero b i)

carry_out-le : (s : ℕ) → carry_out s ≤ 1
carry_out-le s = ground arith

-- Where the first loop stops, the columns that are left are 0.
columns-clear_loop :
    (a b : Bytes) (n i : ℕ) (r : Bytes)
    → i + n ≡ 4
    → components a ≤ i
    → components b ≤ i
    → columns a b n i 0 r ≡ clear_loop n i r
unfolding columns clear_loop
columns-clear_loop a b zero i r e ha hb = refl
columns-clear_loop a b (suc n) i r e ha hb =
    let sum : column a b i 0 ≡ 0 =
      omega (arith, component_zero a i (ground arith), component_zero b i (ground arith)) in
    let next : add 8 i 1 ≡ i + 1 = omega arith in
    rw (sum, next)
      (columns-clear_loop a b n (i + 1) (put i 0 r) (omega arith) (omega arith) (omega arith))

module _ (a b : Bytes) (ha : AreBytes a) (hb : AreBytes b) where
  abbrev na : ℕ
  na = components a

  abbrev nb : ℕ
  nb = components b

  -- One round of the first loop, under its test.
  round_lem :
      (fuel i carry : ℕ) (r : Bytes)
      → i < 5
      → carry ≤ 1
      → (ltb i na || ltb i nb || not (carry == 0)) ≡ true
      → sum_loop (suc fuel) a b na nb i carry r
        ≡ sum_loop fuel a b na nb
            (i + 1)
            (carry_out (column a b i carry))
            (put i (column a b i carry % 2 ^ 8) r)
  unfolding sum_loop
  round_lem fuel i carry r hi hc test =
      let next : add 8 i 1 ≡ i + 1 = omega arith in
      rw (test, partial_lem a b i carry ha hb hc, low_byte (column a b i carry), next) refl

  stop_lem :
      (fuel i carry : ℕ) (r : Bytes)
      → (ltb i na || ltb i nb || not (carry == 0)) ≡ false
      → sum_loop (suc fuel) a b na nb i carry r ≡ some (record { i = i; r = r })
  unfolding sum_loop
  stop_lem fuel i carry r test = rw test refl

  -- Behind the last column, the first loop runs once more for a carry, and writes nothing.
  last_lem :
      (fuel carry : ℕ) (r : Bytes)
      → carry ≤ 1
      → Option.map
          (λ (s : Sums). clear_loop (4 - s.i) s.i s.r)
          (sum_loop (suc (suc fuel)) a b na nb 4 carry r)
        ≡ some r
  unfolding put component clear_loop
  last_lem fuel carry r hc = elim (Bool-cases (carry == 0)) [
    | inl e ↦
        rw (stop_lem (suc fuel) 4 carry r (ground (arith, components-le a, components-le b))) refl
    | inr ne ↦
        let none_left : carry_out (column a b 4 carry) ≡ 0 = ground arith in
        rw
          (
            round_lem (suc fuel) 4 carry r (omega arith) hc (ground arith),
            none_left,
            stop_lem fuel 5 0 r (ground (arith, components-le a, components-le b)),
          )
          refl
  ]

  pub sum_loop-columns :
      (n fuel i carry : ℕ) (r : Bytes)
      → i + n ≡ 4
      → carry ≤ 1
      → Option.map
          (λ (s : Sums). clear_loop (4 - s.i) s.i s.r)
          (sum_loop (n + suc (suc fuel)) a b na nb i carry r)
        ≡ some (columns a b n i carry r)
  unfolding columns
  sum_loop-columns zero fuel i carry r e hc =
      let here : i ≡ 4 = omega arith in
      let rounds : 0 + suc (suc fuel) ≡ suc (suc fuel) = omega arith in
      rw (here, rounds) (last_lem fuel carry r hc)
  sum_loop-columns (suc n) fuel i carry r e hc =
      let rounds : suc n + suc (suc fuel) ≡ suc (n + suc (suc fuel)) = omega arith in
      elim (Bool-cases (ltb i na || ltb i nb || not (carry == 0))) [
        | inl go ↦
            rw (rounds, round_lem (n + suc (suc fuel)) i carry r (omega arith) hc go)
              (sum_loop-columns n fuel (i + 1) (carry_out (column a b i carry)) _ (omega arith)
                (carry_out-le (column a b i carry)))
        | inr stop ↦
            let left : 4 - i ≡ suc n = omega arith in
            let clean : carry ≡ 0 = ground arith in
            rw (rounds, stop_lem (n + suc (suc fuel)) i carry r stop, left, clean)
              (ap some (sym (columns-clear_loop a b (suc n) i r e (ground arith) (ground arith))))
      ]
