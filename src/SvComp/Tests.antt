-- ===== src/SvComp/Tests.antt =====
-- The two programs of examples/sv-comp on concrete inputs.
use saw_script.Base.{◌≡◌, ◌%◌, ◌-◌, ◌^◌, refl, arith, some}
use mathlib.Core.Option
use saw_script.Base.Bits.Lanes.{weight}
use saw_script.SvComp.{returned, undefined, verifier_assert}
use saw_script.SvComp.Parity
use saw_script.SvComp.Modulus
use saw_script.SvComp.Parity.{naive_loop, smart_parity, main-weight}
use saw_script.SvComp.Modulus.{State, digits_loop, modulus_loop, last_m, divide}
use saw_script.SvComp.Modulus.Laws.{main-last_m}

smart_odd : smart_parity 0x80000001 ≡ 0
unfolding smart_parity
smart_odd = refl

smart_even : smart_parity 0x70000000 ≡ 1
unfolding smart_parity
smart_even = refl

main_runs : Modulus.main 1000000007 5 ≡ some (returned 0)
unfolding Modulus.main divide modulus_loop digits_loop last_m verifier_assert Option.bind
main_runs = refl

-- For `s` = 0 there is no divisor, and the program does nothing.
main_zero : Modulus.main 1000000007 0 ≡ some (returned 0)
unfolding Modulus.main divide
main_zero = refl

-- The assumption on `s` allows 31, where `1 << s` leaves the range of `int`.
main_undefined : Modulus.main 1000000007 31 ≡ some undefined
unfolding Modulus.main
main_undefined = refl

main-weight_example :
    (naive_loop 33 0xdeadbeef 0 ≡ some (weight 32 0xdeadbeef % 2))
    × (smart_parity 0xdeadbeef ≡ weight 32 0xdeadbeef % 2)
    × (Parity.main 0xdeadbeef ≡ some (returned 0))
main-weight_example = main-weight 0xdeadbeef (omega arith)

main-last_m_example :
    ((st : State) × (modulus_loop 33 (2 ^ 5 - 1) 5 (record { n = 1000; m = 1000 }) ≡ some st)
      × (last_m (2 ^ 5 - 1) st ≡ 1000 % (2 ^ 5 - 1)))
    × (Modulus.main 1000 5 ≡ some (returned 0))
main-last_m_example = main-last_m 1000 5 (omega arith) (omega arith) (omega arith)
