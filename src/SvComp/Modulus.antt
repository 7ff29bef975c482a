-- ===== src/SvComp/Modulus.antt =====
-- examples/sv-comp/modulus.c: the remainder by `2^s - 1`, without a division.
pub mod Digits
pub mod Laws
use native.Mathlib.Nat.{
  mul-suc, suc-mul, le-div_iff_mul-le, mul-add, mul-le-mul_right, add-mul-mod_self_left,
  mod-add-div', mod-lt, mod-eq_of_lt, mod_self, one-le-pow, pow-le-pow_right, pow-suc, mul_comm,
}
use mathlib.Core.Option
use native.Mathlib.Decide.{ℕ_discrete}
use saw_script.Base.{
  ℕ, zero, suc, ◌+◌, ◌-◌, ◌*◌, ◌/◌, ◌%◌, ◌^◌, ◌≤◌, ◌<◌, ◌≡◌, ◌∙◌, refl, sym, ap, arith, inl, inr,
  Option, some, none, true, false, if◌then◌else◌, ◌==◌, ltb, Bool-cases, bit_and, shl, shr, add,
  sub,
}
use saw_script.Base.Bits.{and_low}
use saw_script.SvComp.{Outcome, returned, undefined, verifier_assert}

-- The variables `n` and `m`.
pub record State : Type 0 where
  pub n : ℕ
  pub m : ℕ

-- The inner loop, on fuel; `none` means that the fuel ran out. The result is `m`.
unfoldable pub digits_loop : ℕ → ℕ → ℕ → ℕ → ℕ → Option ℕ
digits_loop zero d s n m = none
digits_loop (suc fuel) d s n m =
    let rest = digits_loop fuel d s (shr n s) (add 32 m (bit_and n d)) in
    if ltb 0 n then rest else some m

-- The outer loop, on fuel.
unfoldable pub modulus_loop : ℕ → ℕ → ℕ → State → Option State
modulus_loop zero d s st = none
modulus_loop (suc fuel) d s st =
    let rest =
      Option.bind (digits_loop 33 d s st.n 0)
        (λ m. modulus_loop fuel d s (record { n = m; m = m })) in
    if ltb d st.n then rest else some st

unfoldable pub last_m : ℕ → State → ℕ
last_m d st = if st.m == d then 0 else st.m

-- What follows the computation of `d`. A round of the inner loop shifts out a bit, and one of the
-- outer loop halves `n`.
unfoldable pub divide : ℕ → ℕ → ℕ → Option Outcome
divide n s d =
    if ltb 0 d
    then Option.map (λ (st : State). verifier_assert (last_m d st == st.n % d) (returned 0))
        (modulus_loop 33 d s (record { n = n; m = n }))
    else some (returned 0)

-- `(1 << s) - 1` is computed on a signed `int`: from `s` = 31 on the shift is undefined. The
-- assumption that `s` is below 32 changes nothing here.
unfoldable pub main : ℕ → ℕ → Option Outcome
main n s = if ltb 30 s then some undefined else divide n s (2 ^ s - 1)
