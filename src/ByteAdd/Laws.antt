-- ===== src/ByteAdd/Laws.antt =====
-- What byte_add.c computes: the sum, unless a column adds up to 255 or the last shift is undefined.
use mathlib.Core.Option
use saw_script.Base.{
  ℕ, ◌+◌, ◌-◌, ◌*◌, ◌%◌, ◌^◌, ◌≤◌, ◌<◌, ◌≡◌, ◌≢◌, ◌↔◌, ◌∙◌, refl, sym, ap, arith, Option, some,
  none, shl, if◌then◌else◌, ◌==◌, ltb, Bool-cases, inl, inr,
}
use saw_script.Base.Bits.{or_disjoint, or_comm}
use saw_script.ByteAdd.{
  Bytes, Sums, split, component, put, clear_loop, assembled, Combined, defined, undefined, combine,
  finish, mp_add,
}
use saw_script.ByteAdd.Columns.{AreBytes, carry_out, columns, sum_loop-columns}

split-AreBytes : (a : ℕ) → AreBytes (split a)
split-AreBytes a = record {
  at0 = omega arith;
  at1 = omega arith;
  at2 = omega arith;
  at3 = omega arith;
}

abbrev value_of : Bytes → ℕ
value_of r = r.c0 + 2 ^ 8 * r.c1 + 2 ^ 16 * r.c2 + 2 ^ 24 * r.c3

assembled_lem : (r : Bytes) → AreBytes r → assembled r ≡ value_of r
unfolding assembled
assembled_lem r h =
    let f₁ : shl 32 r.c1 8 ≡ r.c1 * 2 ^ 8 = omega (arith, h.at1) in
    let f₂ : shl 32 r.c2 16 ≡ r.c2 * 2 ^ 16 = omega (arith, h.at2) in
    let f₃ : shl 32 r.c3 24 ≡ r.c3 * 2 ^ 24 = omega (arith, h.at3) in
    let x₁ = r.c1 * 2 ^ 8 + r.c0 in
    let x₂ = r.c2 * 2 ^ 16 + x₁ in
    rw
      (
        f₁,
        f₂,
        f₃,
        or_comm r.c0 (r.c1 * 2 ^ 8),
        or_disjoint 8 r.c1 r.c0 h.at0,
        or_comm x₁ (r.c2 * 2 ^ 16),
        or_disjoint 16 r.c2 x₁ (omega (arith, h.at0, h.at1)),
        or_comm x₂ (r.c3 * 2 ^ 24),
        or_disjoint 24 r.c3 x₂ (omega (arith, h.at0, h.at1, h.at2)),
      )
      (omega arith)

-- The four sums of `columns`.
module _ (a b : Bytes) where
  abbrev sum0 : ℕ
  sum0 = 0 + a.c0 + b.c0

  abbrev sum1 : ℕ
  sum1 = carry_out sum0 + a.c1 + b.c1

  abbrev sum2 : ℕ
  sum2 = carry_out sum1 + a.c2 + b.c2

  abbrev sum3 : ℕ
  sum3 = carry_out sum2 + a.c3 + b.c3

  abbrev all_columns : Bytes
  all_columns = record {
    c0 = sum0 % 2 ^ 8;
    c1 = sum1 % 2 ^ 8;
    c2 = sum2 % 2 ^ 8;
    c3 = sum3 % 2 ^ 8;
  }

  columns_lem : (r : Bytes) → columns a b 4 0 0 r ≡ all_columns
  unfolding columns component put
  columns_lem r = refl

finish_lem :
    (o : Option Sums) (r : Bytes)
    → Option.map (λ (s : Sums). clear_loop (4 - s.i) s.i s.r) o ≡ some r
    → Option.map finish o ≡ some (combine r)
unfolding finish
finish_lem none r e = absurd (cc)
finish_lem (some s) r e = ap (Option.map combine) e

-- The result, before it is put together.
result_lem : (r : Bytes) (a b : ℕ) → mp_add r a b ≡ some (combine (all_columns (split a) (split b)))
unfolding mp_add
result_lem r a b = finish_lem _ (all_columns (split a) (split b)) (
    sum_loop-columns (split a) (split b) (split-AreBytes a) (split-AreBytes b) 4 0 0 0 r refl
      (omega arith)
    ∙ ap some (columns_lem (split a) (split b) r))

-- The carry that the code makes of a sum of 255.
abbrev extra : ℕ → ℕ
extra s = if s == 255 then 1 else 0

digit : (s : ℕ) → s < 2 ^ 9 → s % 2 ^ 8 + 2 ^ 8 * carry_out s ≡ s + 2 ^ 8 * extra s
digit s h = ground arith

carry_out-le : (s : ℕ) → carry_out s ≤ 1
carry_out-le s = ground arith

module _ (a b : Bytes) (ha : AreBytes a) (hb : AreBytes b) where
  digits :
      (sum0 a b % 2 ^ 8 + 2 ^ 8 * carry_out (sum0 a b) ≡ sum0 a b + 2 ^ 8 * extra (sum0 a b))
      × (sum1 a b % 2 ^ 8 + 2 ^ 8 * carry_out (sum1 a b) ≡ sum1 a b + 2 ^ 8 * extra (sum1 a b))
      × (sum2 a b % 2 ^ 8 + 2 ^ 8 * carry_out (sum2 a b) ≡ sum2 a b + 2 ^ 8 * extra (sum2 a b))
      × (sum3 a b % 2 ^ 8 + 2 ^ 8 * carry_out (sum3 a b) ≡ sum3 a b + 2 ^ 8 * extra (sum3 a b))
  digits = (
    digit (sum0 a b) (omega (arith, ha.at0, hb.at0)),
    digit (sum1 a b) (omega (arith, ha.at1, hb.at1, carry_out-le (sum0 a b))),
    digit (sum2 a b) (omega (arith, ha.at2, hb.at2, carry_out-le (sum1 a b))),
    digit (sum3 a b) (omega (arith, ha.at3, hb.at3, carry_out-le (sum2 a b))),
  )

  value_lem :
      value_of (all_columns a b)
      ≡ (value_of a
          + value_of b
          + 2 ^ 8 * extra (sum0 a b)
          + 2 ^ 16 * extra (sum1 a b)
          + 2 ^ 24 * extra (sum2 a b))
        % 2 ^ 32
  value_lem = omega (arith, digits.0, digits.1, digits.2, digits.3)

value-split : (a : ℕ) → a < 2 ^ 32 → value_of (split a) ≡ a
value-split a h = omega arith

-- For `p` = 256 ^ k: the bytes at k, with the carry of those below into them, add up to 255.
abbrev pub Spoiled : ℕ → ℕ → ℕ → Type 0
Spoiled p a b =
    (255 * p ≤ a % (256 * p) + b % (256 * p)) × (a % (256 * p) + b % (256 * p) < 256 * p)

extra-le : (s : ℕ) → extra s ≤ 1
extra-le s = ground arith

extra_iff : (s : ℕ) → (extra s ≡ 0) ↔ (s ≢ 255)
extra_iff s = ground arith

-- The true carries, as long as no column has been spoiled.
module _ (a b : ℕ) where
  first : (sum0 (split a) (split b) ≢ 255) ↔ (¬ Spoiled 1 a b)
  first = ground arith

  second :
      sum0 (split a) (split b) ≢ 255 → (sum1 (split a) (split b) ≢ 255) ↔ (¬ Spoiled (2 ^ 8) a b)
  second h = ground arith

  third :
      sum0 (split a) (split b) ≢ 255
      → sum1 (split a) (split b) ≢ 255
      → (sum2 (split a) (split b) ≢ 255) ↔ (¬ Spoiled (2 ^ 16) a b)
  third h h' = ground arith

result_sum :
    (a b : ℕ)
    → a < 2 ^ 32
    → b < 2 ^ 32
    → assembled (all_columns (split a) (split b))
      ≡ (a
          + b
          + 2 ^ 8 * extra (sum0 (split a) (split b))
          + 2 ^ 16 * extra (sum1 (split a) (split b))
          + 2 ^ 24 * extra (sum2 (split a) (split b)))
        % 2 ^ 32
result_sum a b ha hb = omega (
  arith,
  assembled_lem (all_columns (split a) (split b))
      (record { at0 = omega arith; at1 = omega arith; at2 = omega arith; at3 = omega arith }),
  value_lem (split a) (split b) (split-AreBytes a) (split-AreBytes b),
  value-split a ha,
  value-split b hb,
)

-- Three extra carries do not add up to 2 ^ 32.
no_extra :
    (n x y z : ℕ)
    → x ≤ 1
    → y ≤ 1
    → z ≤ 1
    → (n + 2 ^ 8 * x + 2 ^ 16 * y + 2 ^ 24 * z) % 2 ^ 32 ≡ n % 2 ^ 32
    → (x ≡ 0) × (y ≡ 0) × (z ≡ 0)
no_extra n x y z hx hy hz e = (omega arith, omega arith, omega arith)

-- Whether the bytes put together are the sum.
assembled_iff :
    (a b : ℕ)
    → a < 2 ^ 32
    → b < 2 ^ 32
    → (assembled (all_columns (split a) (split b)) ≡ (a + b) % 2 ^ 32)
      ↔ ((¬ Spoiled 1 a b) × (¬ Spoiled (2 ^ 8) a b) × (¬ Spoiled (2 ^ 16) a b))
assembled_iff a b ha hb = (
  λ e.
      let z =
        no_extra (a + b) (extra e₀) (extra e₁) (extra e₂) (extra-le e₀) (extra-le e₁) (extra-le e₂)
          (sym (result_sum a b ha hb) ∙ e) in
      let n₀ = (extra_iff e₀).0 z.0 in
      let n₁ = (extra_iff e₁).0 z.1 in
      ((first a b).0 n₀, (second a b n₀).0 n₁, (third a b n₀ n₁).0 ((extra_iff e₂).0 z.2)),
  λ h.
      let n₀ = (first a b).1 h.0 in
      let n₁ = (second a b n₀).1 h.1 in
      let n₂ = (third a b n₀ n₁).1 h.2 in
      omega (
        arith,
        result_sum a b ha hb,
        (extra_iff e₀).1 n₀,
        (extra_iff e₁).1 n₁,
        (extra_iff e₂).1 n₂,
      ),
)
  where
    e₀ : ℕ
    e₀ = sum0 (split a) (split b)

    e₁ : ℕ
    e₁ = sum1 (split a) (split b)

    e₂ : ℕ
    e₂ = sum2 (split a) (split b)

number : Combined → ℕ
number (defined n) = n
number undefined = 2 ^ 32

-- Whether the call is defined and comes to `n`.
combine_iff :
    (r : Bytes) (n : ℕ) → AreBytes r → (combine r ≡ defined n) ↔ ((n < 2 ^ 31) × (assembled r ≡ n))
unfolding combine number
combine_iff r n bytes = elim (Bool-cases (ltb 127 r.c3)) [
  | inl e ↦
      let large : 127 < r.c3 = ground arith in
      rw e (λ h. absurd (cc), λ h. absurd (omega (arith, h.0, h.1, large, assembled_lem r bytes)))
  | inr e ↦
      let small : r.c3 ≤ 127 = ground arith in
      rw e (
        λ h.
            let same : assembled r ≡ n = ap number h in
            (
              omega (arith, same, small, assembled_lem r bytes, bytes.at0, bytes.at1, bytes.at2),
              same,
            ),
        λ h. ap defined h.1,
      )
]

-- `mp_add` returns for all 32-bit arguments, whatever the uninitialised bytes hold: the fuel
-- suffices. The call is defined and its result is the sum modulo 2 ^ 32 if and only if this sum is
-- below 2 ^ 31 and none of the columns 0, 1 and 2, with the carry into it, adds up to 255.
pub mp_add_lem :
    (r : Bytes) (a b : ℕ)
    → a < 2 ^ 32
    → b < 2 ^ 32
    → (v : Combined) × (mp_add r a b ≡ some v)
      × ((v ≡ defined ((a + b) % 2 ^ 32)) ↔ (
          ((a + b) % 2 ^ 32 < 2 ^ 31)
          × (¬ Spoiled 1 a b)
          × (¬ Spoiled (2 ^ 8) a b)
          × (¬ Spoiled (2 ^ 16) a b)))
mp_add_lem r a b ha hb =
    let cols = all_columns (split a) (split b) in
    let bytes : AreBytes cols = record {
      at0 = omega arith;
      at1 = omega arith;
      at2 = omega arith;
      at3 = omega arith;
    } in
    let whole = combine_iff cols ((a + b) % 2 ^ 32) bytes in
    let right = assembled_iff a b ha hb in
    (
      combine cols,
      result_lem r a b,
      (
        λ h.
            let both = whole.0 h in
            let unspoiled = right.0 both.1 in (both.0, unspoiled.0, unspoiled.1, unspoiled.2),
        λ h. whole.1 (h.0, right.1 (h.1, h.2, h.3)),
      ),
    )
