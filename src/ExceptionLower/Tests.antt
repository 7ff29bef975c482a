-- ===== src/ExceptionLower/Tests.antt =====
-- The pass on a module that throws and catches, and the theorems there.
use mathlib.Core.Option
use Prim.Native.String.{String, ◌++◌ as append}
use saw_script.Base.{ℕ, ◌≡◌, refl, arith, true, false, length, if◌then◌else◌, List, [], ◌∷◌, some}
use text.Mathlib.Text.{◌==◌ as str_eq}
use saw_script.ExceptionLower.{
  Global, get_global_variable, found_or_new, get_or_create_thread_local_global,
  get_or_create_error_state, IrModule, Outcome, run,
}
use saw_script.ExceptionLower.Globals.{Adds, missing_three}
use saw_script.ExceptionLower.Ir.{Value, Callee, Op, Inst, RetType, Func}
use saw_script.ExceptionLower.Emit.{
  invoke_code, check_block, landing_pad_code, resume_code, emit_error_return, classify_name,
  classify_cxa_call, erases_trailing,
}
use saw_script.ExceptionLower.Edit.{
  count, cxa_calls, collect, collect_insts, on_blocks, find, find_insts, replace, trailing,
  insts_without, op_without, count_in, count_by, list_of,
}
use saw_script.ExceptionLower.Lower.{
  Lowered, lower_function, nothing_to_lower, lower_all, each, lower_invoke, lower_in_place,
  lower_landing_pad, insert_before, lower_front, lower_cxa_call, all_trailing, blocks_without,
}
use saw_script.ExceptionLower.Shape.{is_terminated}
use saw_script.ExceptionLower.Run.{IsLowerable}
use saw_script.ExceptionLower.Modules.{AllLoweredFrom, HasNoCxaInvoke, run_lem, run-run}

abbrev inst : ℕ → Op → Inst
inst p o = record { at = p; op = o }

abbrev cxa : String → List Value → Op
cxa name args = Op.call (Callee.named name) args 0

-- int f() { try { g(); throw 5; } catch (...) { throw; } }, with one clause of each kind.
abbrev caller : Func
caller = record {
  ret_type = RetType.plain;
  blocks =
      record { label = 0; insts = inst 10 (Op.invoke (Callee.named "g") [] 0 1 2) ∷ [] }
      ∷ record {
        label = 1;
        insts =
            inst 11 (cxa "__cxa_allocate_exception" (Value.constant 4 ∷ []))
            ∷ inst 12 (cxa "__cxa_throw" (Value.reg 11 ∷ Value.constant 7 ∷ []))
            ∷ inst 13 (Op.other 0 [] true)
            ∷ [];
      }
      ∷ record {
        label = 2;
        insts =
            inst 14 (Op.landing_pad 0)
            ∷ inst 15 (cxa "__cxa_begin_catch" (Value.reg 14 ∷ []))
            ∷ inst 16 (Op.resume (Value.reg 14))
            ∷ [];
      }
      ∷ [];
  next = 20;
}

abbrev program : IrModule
program = record {
  globals = record { name = "counter"; is_local = false } ∷ [];
  funcs = caller ∷ [];
}

caller-IsLowerable : IsLowerable caller
unfolding is_terminated classify_name classify_cxa_call erases_trailing count_in count_by list_of
caller-IsLowerable = record {
  shaped = (refl, (refl, (refl, tt)));
  sealed = (
    (λ e. absurd (cc), tt),
    (
      (λ e. absurd (cc), (λ e j q h. ground arith, (λ e. absurd (cc), tt))),
      ((λ e. absurd (cc), (λ e. absurd (cc), (λ e. absurd (cc), tt))), tt),
    ),
  );
  distinct = λ p. ground arith;
}

caller-HasNoCxaInvoke : HasNoCxaInvoke caller
unfolding classify_name classify_cxa_call count_in count_by list_of
caller-HasNoCxaInvoke q = ground arith

-- A name that is taken is made longer, and no name of the tests is taken twice.
abbrev unique : List Global → String → String
unique [] name = name
unique (g ∷ gs) name = if str_eq name g.name then append name ".1" else unique gs name

run_lem_example :
    (o : Outcome) × (run unique program ≡ some o) × AllLoweredFrom program.funcs (o.ir).funcs
run_lem_example = run_lem unique program (caller-IsLowerable, tt)

run-run_example :
    (o o' : Outcome) × (run unique program ≡ some o)
    × (run unique o.ir ≡ some o')
    × ((o'.ir).funcs ≡ (o.ir).funcs)
    × (o'.preserved ≡ true)
    × Adds program.globals (o.ir).globals (missing_three program.globals)
    × Adds (o.ir).globals (o'.ir).globals (missing_three program.globals)
run-run_example = run-run unique program (caller-IsLowerable, tt) (caller-HasNoCxaInvoke, tt)

-- The second run does not find the three variables of the first.
six_globals :
    length (get_or_create_error_state unique (get_or_create_error_state unique []).globals).globals
    ≡ 6
unfolding get_or_create_error_state get_or_create_thread_local_global get_global_variable
    found_or_new
six_globals = refl

-- Where the throw is an invoke, as it is inside a `try`, a call of `__cxa_throw` is left.
abbrev thrower : Func
thrower = record {
  ret_type = RetType.void;
  blocks =
      record { label = 0; insts = inst 10 (Op.invoke (Callee.named "__cxa_throw") [] 0 1 2) ∷ [] }
      ∷ record { label = 1; insts = inst 11 (Op.other 0 [] true) ∷ [] }
      ∷ record {
        label = 2;
        insts = inst 12 (Op.landing_pad 0) ∷ inst 13 (Op.resume (Value.reg 12)) ∷ [];
      }
      ∷ [];
  next = 20;
}

left_over :
    Option.map (λ (l : Lowered). count cxa_calls 10 l.func.blocks) (lower_function thrower) ≡ some 1
unfolding lower_function list_of count_in count_by classify_cxa_call classify_name erases_trailing
    nothing_to_lower lower_all each lower_invoke lower_in_place lower_landing_pad insert_before
    lower_front lower_cxa_call all_trailing blocks_without collect collect_insts on_blocks find
    find_insts replace trailing insts_without op_without invoke_code check_block landing_pad_code
    resume_code emit_error_return
left_over = refl
