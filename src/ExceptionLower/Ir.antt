-- ===== src/ExceptionLower/Ir.antt =====
-- What ExceptionLowerPass.cpp reads and writes of LLVM's IR, as data.
use Prim.Native.String.{String}
use saw_script.Base.{ℕ, Bool, true, false, Option, none, List, []}

-- The three fields of `ErrorState`, each for the global variable that it points to in the run of the
-- pass that has made the instruction.
pub data Slot : Type 0 where
  in_flight_flag : Slot
  thrown_type_info : Slot
  thrown_value_ptr : Slot

pub data Value : Type 0 where
  reg : ℕ → Value
  constant : ℕ → Value
  undef : Value
  null_value : Value
  not_a_number : Value
  true_value : Value
  false_value : Value

pub data Callee : Type 0 where
  named : String → Callee
  indirect : Value → Callee

-- `call` and `invoke` carry a number for their function type, calling convention, attributes and
-- operand bundles. `other` stands for every instruction that the pass does not name; the test says
-- whether it is a terminator.
pub data Op : Type 0 where
  call : Callee → List Value → ℕ → Op
  invoke : Callee → List Value → ℕ → ℕ → ℕ → Op
  resume : Value → Op
  landing_pad : ℕ → Op
  catch_return : Value → ℕ → Op
  cleanup_return : Value → Option ℕ → Op
  catch_pad : List Value → Op
  cleanup_pad : List Value → Op
  catch_switch : List ℕ → Option ℕ → Op
  load : Slot → Op
  store : Value → Slot → Op
  insert_value : Value → Value → ℕ → Op
  alloca : Value → Op
  br : ℕ → Op
  cond_br : Value → ℕ → ℕ → Op
  ret : Option Value → Op
  other : ℕ → List Value → Bool → Op

-- `at` is the identity of the instruction, and the name of its value.
pub record Inst : Type 0 where
  pub at : ℕ
  pub op : Op

pub record Block : Type 0 where
  pub label : ℕ
  pub insts : List Inst

pub data RetType : Type 0 where
  void : RetType
  floating : RetType
  plain : RetType

-- A declaration has no blocks. Identities from `next` on are unused.
pub record Func : Type 0 where
  pub ret_type : RetType
  pub blocks : List Block
  pub next : ℕ

-- The accessors of LLVM that the pass calls, each on the instructions that have it.
abbrev pub callee : Op → Callee
callee (call c args s) = c
callee (invoke c args s n u) = c
callee _ = indirect undef

abbrev pub arguments : Op → List Value
arguments (call c args s) = args
arguments (invoke c args s n u) = args
arguments _ = []

abbrev pub call_site : Op → ℕ
call_site (call c args s) = s
call_site (invoke c args s n u) = s
call_site _ = 0

abbrev pub normal_dest : Op → ℕ
normal_dest (invoke c args s n u) = n
normal_dest _ = 0

abbrev pub invoke_unwind_dest : Op → ℕ
invoke_unwind_dest (invoke c args s n u) = u
invoke_unwind_dest _ = 0

abbrev pub successor : Op → ℕ
successor (catch_return p l) = l
successor _ = 0

abbrev pub unwind_dest : Op → Option ℕ
unwind_dest (cleanup_return p l) = l
unwind_dest (catch_switch hs l) = l
unwind_dest _ = none

abbrev pub handlers : Op → List ℕ
handlers (catch_switch hs l) = hs
handlers _ = []

abbrev pub is_landing_pad : Op → Bool
is_landing_pad (landing_pad c) = true
is_landing_pad _ = false

abbrev pub is_terminator : Op → Bool
is_terminator (invoke c args s n u) = true
is_terminator (resume v) = true
is_terminator (catch_return p l) = true
is_terminator (cleanup_return p l) = true
is_terminator (catch_switch hs l) = true
is_terminator (br l) = true
is_terminator (cond_br v l l') = true
is_terminator (ret v) = true
is_terminator (other c vs t) = t
is_terminator _ = false
