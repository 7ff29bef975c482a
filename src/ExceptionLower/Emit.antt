-- ===== src/ExceptionLower/Emit.antt =====
-- The helpers of ExceptionLowerPass.cpp, and the code that each construct becomes.
use Prim.Native.String.{String}
use text.Mathlib.Text.{◌==◌ as str_eq}
use saw_script.Base.{
  ℕ, ◌+◌, Bool, true, false, Option, some, none, List, [], ◌∷◌, get_or, if◌then◌else◌,
}
use saw_script.ExceptionLower.Ir.{
  Slot, Value, Callee, Op, Inst, Block, RetType, callee, arguments, call_site, normal_dest,
  invoke_unwind_dest, successor, unwind_dest, handlers,
}

-- `makeSentinelReturnValue`: nothing for a function without a result.
unfoldable pub make_sentinel_return_value : RetType → Option Value
make_sentinel_return_value RetType.void = none
make_sentinel_return_value RetType.floating = some Value.not_a_number
make_sentinel_return_value RetType.plain = some Value.null_value

-- The instructions of `emitErrorReturn`; new ones have identities from `n` on.
unfoldable pub emit_error_return : RetType → ℕ → List Inst
emit_error_return t n =
    record { at = n; op = Op.store Value.true_value Slot.in_flight_flag }
    ∷ record { at = n + 1; op = Op.ret (make_sentinel_return_value t) }
    ∷ []

pub data CxaRuntime : Type 0 where
  nothing : CxaRuntime
  allocate_exception : CxaRuntime
  free_exception : CxaRuntime
  throw : CxaRuntime
  rethrow : CxaRuntime
  begin_catch : CxaRuntime
  end_catch : CxaRuntime

unfoldable pub classify_name : String → CxaRuntime
classify_name name =
    if str_eq name "__cxa_allocate_exception"
    then CxaRuntime.allocate_exception
    else if str_eq name "__cxa_free_exception"
    then CxaRuntime.free_exception
    else if str_eq name "__cxa_throw"
    then CxaRuntime.throw
    else if str_eq name "__cxa_rethrow"
    then CxaRuntime.rethrow
    else if str_eq name "__cxa_begin_catch"
    then CxaRuntime.begin_catch
    else if str_eq name "__cxa_end_catch"
    then CxaRuntime.end_catch
    else CxaRuntime.nothing

unfoldable pub classify_cxa_call : Callee → CxaRuntime
classify_cxa_call (Callee.named name) = classify_name name
classify_cxa_call (Callee.indirect v) = CxaRuntime.nothing

-- What `lowerCxaCall` puts in place of a call, by its class. The new instruction that replaces all
-- uses of the call takes over its identity.
unfoldable pub cxa_code : CxaRuntime → RetType → ℕ → Inst → List Inst
cxa_code CxaRuntime.allocate_exception t n x =
    record { at = x.at; op = Op.alloca (get_or (arguments x.op) 0 Value.undef) } ∷ []
cxa_code CxaRuntime.free_exception t n x = []
cxa_code CxaRuntime.end_catch t n x = []
cxa_code CxaRuntime.throw t n x =
    record { at = n; op = Op.store (get_or (arguments x.op) 1 Value.undef) Slot.thrown_type_info }
    ∷ record {
      at = n + 1;
      op = Op.store (get_or (arguments x.op) 0 Value.undef) Slot.thrown_value_ptr;
    }
    ∷ emit_error_return t (n + 2)
cxa_code CxaRuntime.rethrow t n x = emit_error_return t n
cxa_code CxaRuntime.begin_catch t n x =
    record { at = x.at; op = Op.load Slot.thrown_value_ptr }
    ∷ record { at = n; op = Op.store Value.false_value Slot.in_flight_flag }
    ∷ []
cxa_code CxaRuntime.nothing t n x = x ∷ []

-- After a throw the rest of the block is erased.
unfoldable pub erases_trailing : CxaRuntime → Bool
erases_trailing CxaRuntime.throw = true
erases_trailing CxaRuntime.rethrow = true
erases_trailing _ = false

-- The call takes over the identity of the invoke.
unfoldable pub invoke_code : ℕ → Inst → List Inst
invoke_code n x =
    record { at = x.at; op = Op.call (callee x.op) (arguments x.op) (call_site x.op) }
    ∷ record { at = n + 1; op = Op.br n }
    ∷ []

-- The block `.ehcheck`, with the label `n`.
unfoldable pub check_block : ℕ → Op → Block
check_block n op = record {
  label = n;
  insts =
      record { at = n + 2; op = Op.load Slot.in_flight_flag }
      ∷ record {
        at = n + 3;
        op = Op.cond_br (Value.reg (n + 2)) (invoke_unwind_dest op) (normal_dest op);
      }
      ∷ [];
}

unfoldable pub landing_pad_code : ℕ → Inst → List Inst
landing_pad_code n x =
    record { at = n; op = Op.load Slot.thrown_type_info }
    ∷ record { at = n + 1; op = Op.insert_value Value.undef (Value.reg n) 0 }
    ∷ record { at = x.at; op = Op.insert_value (Value.reg (n + 1)) (Value.constant 0) 1 }
    ∷ []

unfoldable pub catch_return_code : RetType → ℕ → Inst → List Inst
catch_return_code t n x =
    record { at = n; op = Op.store Value.false_value Slot.in_flight_flag }
    ∷ record { at = n + 1; op = Op.br (successor x.op) }
    ∷ []

-- A branch, or a return from the function where there is no unwind destination.
unfoldable pub unwind_code : RetType → ℕ → Option ℕ → List Inst
unwind_code t n (some label) = record { at = n; op = Op.br label } ∷ []
unwind_code t n none = emit_error_return t n

unfoldable pub cleanup_return_code : RetType → ℕ → Inst → List Inst
cleanup_return_code t n x = unwind_code t n (unwind_dest x.op)

unfoldable pub catch_pad_code : RetType → ℕ → Inst → List Inst
catch_pad_code t n x = record { at = n; op = Op.store Value.false_value Slot.in_flight_flag } ∷ []

unfoldable pub cleanup_pad_code : RetType → ℕ → Inst → List Inst
cleanup_pad_code t n x = []

unfoldable pub switch_code : RetType → ℕ → List ℕ → Option ℕ → List Inst
switch_code t n (handler ∷ rest) unwind = record { at = n; op = Op.br handler } ∷ []
switch_code t n [] unwind = unwind_code t n unwind

unfoldable pub catch_switch_code : RetType → ℕ → Inst → List Inst
catch_switch_code t n x = switch_code t n (handlers x.op) (unwind_dest x.op)

unfoldable pub resume_code : RetType → ℕ → Inst → List Inst
resume_code t n x = emit_error_return t n
