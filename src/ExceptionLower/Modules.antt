-- ===== src/ExceptionLower/Modules.antt =====
-- The pass on a module.
use mathlib.Core.Option
use Prim.Native.String.{String}
use saw_script.Base.{
  ℕ, subst, ◌≡◌, ◌∙◌, refl, sym, ap, inl, inr, arith, true, false, ◌||◌, List, [], ◌∷◌, Bool-cases,
  some, All,
}
use native.Mathlib.Decide.{ℕ_discrete}
use saw_script.ExceptionLower.{
  Global, IrModule, get_or_create_error_state, is_declaration, Funcs, lower_definition, gather,
  run_loop, Outcome, outcome, run,
}
use saw_script.ExceptionLower.Globals.{
  Adds, missing_three, missing-Adds, get_or_create_error_state-Adds,
}
use saw_script.ExceptionLower.Ir.{Block, Func}
use saw_script.ExceptionLower.Edit.{cxa_calls, count_in, count}
use saw_script.ExceptionLower.Lower.{lower_function}
use saw_script.ExceptionLower.Steps.{is_cxa_invoke}
use saw_script.ExceptionLower.Run.{IsLowerable, IsLoweredFrom}
use saw_script.ExceptionLower.Complete.{lower_function_lem, lower_function-nothing}

-- The functions after the pass, one by one.
abbrev pub AllLoweredFrom : List Func → List Func → Type 0
AllLoweredFrom [] [] = Unit
AllLoweredFrom [] (g ∷ gs) = ⊥
AllLoweredFrom (f ∷ fs) [] = ⊥
AllLoweredFrom (f ∷ fs) (g ∷ gs) = IsLoweredFrom f g × AllLoweredFrom fs gs

declared_nothing : (bs : List Block) (k q : ℕ) → is_declaration bs ≡ true → count k q bs ≡ 0
unfolding count_in
declared_nothing [] k q e = refl
declared_nothing (b ∷ bs) k q e = absurd (cc)

lower_definition-lower_function : (f : Func) → lower_definition f ≡ lower_function f
unfolding lower_definition
lower_definition-lower_function f = elim (Bool-cases (is_declaration f.blocks)) [
  | inl e ↦ rw e (sym (lower_function-nothing f (λ k q low high. declared_nothing f.blocks k q e)))
  | inr e ↦ rw e refl
]

run_loop_lem :
    (fs : List Func)
    → All IsLowerable fs
    → (r : Funcs) × (run_loop fs ≡ some r) × AllLoweredFrom fs r.funcs
unfolding run_loop gather
run_loop_lem [] ok = (record { funcs = []; changed = false }, refl, tt)
run_loop_lem (f ∷ fs) ok =
    let first = lower_function_lem f ok.0 in
    let rest = run_loop_lem fs ok.1 in
    rw (lower_definition-lower_function f, first.1, rest.1)
      (
        record {
          funcs = (first.0).func ∷ (rest.0).funcs;
          changed = (first.0).changed || (rest.0).changed;
        },
        refl,
        (first.2, rest.2),
      )

-- The pass returns for every module whose functions are lowerable: it never uses the pointer of an
-- erased instruction. In each function of the result, nothing is left of invokes, resumes and
-- funclets, the calls of the C++ runtime are those that were invokes, and every block ends in its
-- only terminator.
pub run_lem :
    (unique_name : List Global → String → String) (m : IrModule)
    → All IsLowerable m.funcs
    → (o : Outcome) × (run unique_name m ≡ some o) × AllLoweredFrom m.funcs (o.ir).funcs
unfolding run
run_lem unique_name m ok =
    let loop = run_loop_lem m.funcs ok in
    (
      outcome (get_or_create_error_state unique_name m.globals) loop.0,
      ap (Option.map (outcome (get_or_create_error_state unique_name m.globals))) loop.1,
      loop.2,
    )

-- No invoke calls the C++ runtime.
abbrev pub HasNoCxaInvoke : Func → Type 0
HasNoCxaInvoke f = (q : ℕ) → count_in (is_cxa_invoke q) f.blocks ≡ 0

lower_function_again :
    (f f' : Func)
    → HasNoCxaInvoke f
    → IsLoweredFrom f f'
    → lower_function f' ≡ some (record { func = f'; changed = false })
lower_function_again f f' clean is = lower_function-nothing f' (λ k q low high.
    elim (ℕ_discrete k cxa_calls) [
      | yes here ↦ rw here (is.runtime q ∙ clean q)
      | no there ↦ is.gone k q (omega arith) high
    ])

run_loop_again :
    (fs gs : List Func)
    → All HasNoCxaInvoke fs
    → AllLoweredFrom fs gs
    → run_loop gs ≡ some (record { funcs = gs; changed = false })
unfolding run_loop gather
run_loop_again [] [] clean is = refl
run_loop_again [] (g ∷ gs) clean is = absurd is
run_loop_again (f ∷ fs) [] clean is = absurd is
run_loop_again (f ∷ fs) (g ∷ gs) clean is =
    rw
      (
        lower_definition-lower_function g,
        lower_function_again f g clean.0 is.0,
        run_loop_again fs gs clean.1 is.1,
      )
      refl

-- If also no invoke of the module calls the C++ runtime, the pass leaves nothing to lower: run on its
-- own result, it changes no function and reports all analyses as preserved. But every run adds a
-- variable of local linkage for each of its three names that the module has no other variable of, and
-- the second run adds as many as the first.
pub run-run :
    (unique_name : List Global → String → String) (m : IrModule)
    → All IsLowerable m.funcs
    → All HasNoCxaInvoke m.funcs
    → (o o' : Outcome) × (run unique_name m ≡ some o)
      × (run unique_name o.ir ≡ some o')
      × ((o'.ir).funcs ≡ (o.ir).funcs)
      × (o'.preserved ≡ true)
      × Adds m.globals (o.ir).globals (missing_three m.globals)
      × Adds (o.ir).globals (o'.ir).globals (missing_three m.globals)
unfolding run
run-run unique_name m ok clean =
    let loop = run_loop_lem m.funcs ok in
    let state = get_or_create_error_state unique_name m.globals in
    let state' = get_or_create_error_state unique_name state.globals in
    let again = run_loop_again m.funcs (loop.0).funcs clean loop.2 in
    let first = get_or_create_error_state-Adds unique_name m.globals in
    let second = get_or_create_error_state-Adds unique_name state.globals in
    (
      outcome state loop.0,
      outcome state' (record { funcs = (loop.0).funcs; changed = false }),
      ap (Option.map (outcome state)) loop.1,
      ap (Option.map (outcome state')) again,
      refl,
      refl,
      first,
      subst (λ (n : ℕ). Adds state.globals state'.globals n)
          (omega (
            arith,
            missing-Adds m.globals state.globals _ "__exclow_error_flag" first,
            missing-Adds m.globals state.globals _ "__exclow_error_typeinfo" first,
            missing-Adds m.globals state.globals _ "__exclow_error_value" first,
          ))
          second,
    )
