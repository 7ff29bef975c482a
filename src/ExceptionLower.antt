-- ===== src/ExceptionLower.antt =====
-- saw-tools/exception-lower/ExceptionLowerPass.cpp: the pass on a module.
pub mod Ir
pub mod Emit
pub mod Edit
pub mod Lower
pub mod Counts
pub mod Steps
pub mod Phases
pub mod Shape
pub mod Laws
pub mod Invokes
pub mod Calls
pub mod Codes
pub mod Run
pub mod Complete
pub mod Globals
pub mod Modules
mod Tests
use mathlib.Core.Option
use Prim.Native.String.{String}
use text.Mathlib.Text.{◌==◌ as str_eq}
use saw_script.Base.{
  ℕ, Bool, true, false, not, ◌||◌, Option, some, none, List, [], ◌∷◌, ◌++◌, if◌then◌else◌,
}
use saw_script.ExceptionLower.Ir.{Func, Block}
use saw_script.ExceptionLower.Lower.{Lowered, lower_function}

-- A global variable: its name, and whether its linkage is local, as internal linkage is.
pub record Global : Type 0 where
  pub name : String
  pub is_local : Bool

-- The global variables and the functions.
pub record IrModule : Type 0 where
  pub globals : List Global
  pub funcs : List Func

abbrev pub not_local : Global → Option Global
not_local g = if g.is_local then none else some g

-- LLVM's `getGlobalVariable(name)`: the variable of that name, unless its linkage is local.
unfoldable pub get_global_variable : List Global → String → Option Global
get_global_variable [] name = none
get_global_variable (g ∷ gs) name =
    let rest = get_global_variable gs name in if str_eq name g.name then not_local g else rest

-- A global variable, and the variables of the module.
pub record Obtained : Type 0 where
  pub global : Global
  pub globals : List Global

-- What `global` is when a variable was found, and when not.
unfoldable pub found_or_new :
    (List Global → String → String) → List Global → String → Option Global → Obtained
found_or_new unique_name globals name (some g) = record { global = g; globals = globals }
found_or_new unique_name globals name none =
    let g : Global = record { name = unique_name globals name; is_local = true } in
    record { global = g; globals = globals ++ g ∷ [] }

-- A name that the module has already is made another by LLVM; `unique_name` is the name that it gives.
unfoldable pub get_or_create_thread_local_global :
    (List Global → String → String) → List Global → String → Obtained
get_or_create_thread_local_global unique_name globals name =
    found_or_new unique_name globals name (get_global_variable globals name)

pub record ErrorState : Type 0 where
  pub in_flight_flag : Global
  pub thrown_type_info : Global
  pub thrown_value_ptr : Global
  pub globals : List Global

unfoldable pub get_or_create_error_state :
    (List Global → String → String) → List Global → ErrorState
get_or_create_error_state unique_name globals =
    let flag = get_or_create_thread_local_global unique_name globals "__exclow_error_flag" in
    let info =
      get_or_create_thread_local_global unique_name flag.globals "__exclow_error_typeinfo" in
    let ptr = get_or_create_thread_local_global unique_name info.globals "__exclow_error_value" in
    record {
      in_flight_flag = flag.global;
      thrown_type_info = info.global;
      thrown_value_ptr = ptr.global;
      globals = ptr.globals;
    }

abbrev pub is_declaration : List Block → Bool
is_declaration [] = true
is_declaration (b ∷ bs) = false

-- The functions after the loop of `run`, and `Changed`.
pub record Funcs : Type 0 where
  pub funcs : List Func
  pub changed : Bool

unfoldable pub lower_definition : Func → Option Lowered
lower_definition f =
    if not (is_declaration f.blocks)
    then lower_function f
    else some (record { func = f; changed = false })

-- The result for one function in front of that for the rest.
unfoldable pub gather : Option Lowered → Option Funcs → Option Funcs
gather none rest = none
gather (some l) none = none
gather (some l) (some r) =
    some (record { funcs = l.func ∷ r.funcs; changed = l.changed || r.changed })

unfoldable pub run_loop : List Func → Option Funcs
run_loop [] = some (record { funcs = []; changed = false })
run_loop (f ∷ fs) = gather (lower_definition f) (run_loop fs)

-- The module after the pass, the variables that a slot stands for in the code that the pass has made,
-- and whether all analyses are reported as preserved.
pub record Outcome : Type 0 where
  pub ir : IrModule
  pub state : ErrorState
  pub preserved : Bool

abbrev pub outcome : ErrorState → Funcs → Outcome
outcome state r = record {
  ir = record { globals = state.globals; funcs = r.funcs };
  state = state;
  preserved = not r.changed;
}

unfoldable pub run : (List Global → String → String) → IrModule → Option Outcome
run unique_name m =
    Option.map (outcome (get_or_create_error_state unique_name m.globals)) (run_loop m.funcs)
