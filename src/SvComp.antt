-- ===== src/SvComp.antt =====
-- examples/sv-comp: two of its programs, parity.c and modulus.c. What `__VERIFIER_nondet_uint`
-- returns is an argument of each `main`.
pub mod Parity
pub mod Modulus
mod Tests
use saw_script.Base.{ℕ, Bool, if◌then◌else◌}

-- How a program ends: `main` returns, or `__VERIFIER_error` is called, which does not return, or the
-- program does what C leaves undefined.
pub data Outcome : Type 0 where
  returned : ℕ → Outcome
  verifier_error : Outcome
  undefined : Outcome

-- `__VERIFIER_assert` before the rest of a program.
unfoldable pub verifier_assert : Bool → Outcome → Outcome
verifier_assert cond rest = if cond then rest else verifier_error
