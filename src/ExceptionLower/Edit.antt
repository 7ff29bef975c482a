-- ===== src/ExceptionLower/Edit.antt =====
-- ExceptionLowerPass.cpp: the lists of instructions to lower, and what LLVM does to a function when the
-- pass replaces or erases an instruction.
use saw_script.Base.{
  ℕ, ◌+◌, Bool, true, false, ◌&&◌, some, none, List, [], ◌∷◌, ◌++◌, map, if◌then◌else◌, ◌==◌,
}
use saw_script.ExceptionLower.Ir.{Value, Callee, Op, Inst, Block}
use saw_script.ExceptionLower.Emit.{CxaRuntime, classify_cxa_call}

-- The lists of `LoweringWorklist`, by number.
abbrev pub cxa_calls : ℕ
cxa_calls = 1

abbrev pub invokes : ℕ
invokes = 2

abbrev pub resumes : ℕ
resumes = 3

abbrev pub catch_returns : ℕ
catch_returns = 4

abbrev pub cleanup_returns : ℕ
cleanup_returns = 5

abbrev pub catch_pads : ℕ
catch_pads = 6

abbrev pub cleanup_pads : ℕ
cleanup_pads = 7

abbrev pub catch_switches : ℕ
catch_switches = 8

abbrev pub is_cxa : CxaRuntime → Bool
is_cxa CxaRuntime.nothing = false
is_cxa _ = true

-- The list that the visitor puts an instruction on; 0 for none.
unfoldable pub list_of : Op → ℕ
list_of (Op.call c args s) = if is_cxa (classify_cxa_call c) then cxa_calls else 0
list_of (Op.invoke c args s n u) = invokes
list_of (Op.resume v) = resumes
list_of (Op.catch_return p l) = catch_returns
list_of (Op.cleanup_return p l) = cleanup_returns
list_of (Op.catch_pad args) = catch_pads
list_of (Op.cleanup_pad args) = cleanup_pads
list_of (Op.catch_switch hs l) = catch_switches
list_of _ = 0

-- Whether an instruction is the one with the identity `p` on the list `k`.
abbrev pub matches : ℕ → ℕ → Inst → Bool
matches k p x = (list_of x.op == k) && (x.at == p)

-- The identities on the list `k`, in order.
unfoldable pub collect_insts : ℕ → List Inst → List ℕ
collect_insts k [] = []
collect_insts k (x ∷ xs) =
    let rest = collect_insts k xs in if list_of x.op == k then x.at ∷ rest else rest

unfoldable pub collect : ℕ → List Block → List ℕ
collect k [] = []
collect k (b ∷ bs) = collect_insts k b.insts ++ collect k bs

abbrev pub is_empty : List ℕ → Bool
is_empty [] = true
is_empty (x ∷ xs) = false

-- How many instructions pass a test.
unfoldable pub count_by : (Inst → Bool) → List Inst → ℕ
count_by t [] = 0
count_by t (x ∷ xs) = (if t x then 1 else 0) + count_by t xs

unfoldable pub count_in : (Inst → Bool) → List Block → ℕ
count_in t [] = 0
count_in t (b ∷ bs) = count_by t b.insts + count_in t bs

-- How many instructions a pointer on the list `k` names: 0 once its instruction has been erased.
abbrev pub count : ℕ → ℕ → List Block → ℕ
count k p bs = count_in (matches k p) bs

-- The instruction of a pointer.
unfoldable pub find_insts : ℕ → ℕ → List Inst → Op → Op
find_insts k p [] d = d
find_insts k p (x ∷ xs) d = let rest = find_insts k p xs d in if matches k p x then x.op else rest

unfoldable pub find : ℕ → ℕ → List Block → Op
find k p [] = Op.ret none
find k p (b ∷ bs) = find_insts k p b.insts (find k p bs)

-- `code` in place of an instruction; where `stop` holds, nothing of the block is left behind it.
unfoldable pub replace : (Inst → Bool) → ℕ → ℕ → (Inst → List Inst) → List Inst → List Inst
replace stop k p code [] = []
replace stop k p code (x ∷ xs) =
    let rest = replace stop k p code xs in
    if matches k p x then (if stop x then code x else code x ++ rest) else x ∷ rest

-- The identities of what is erased behind the instruction.
unfoldable pub trailing : (Inst → Bool) → ℕ → ℕ → List Inst → List ℕ
trailing stop k p [] = []
trailing stop k p (x ∷ xs) =
    let rest = trailing stop k p xs in
    if matches k p x && stop x then map (λ (y : Inst). y.at) xs else rest

unfoldable pub on_blocks : (List Inst → List Inst) → List Block → List Block
on_blocks h [] = []
on_blocks h (b ∷ bs) = record b { insts = h b.insts } ∷ on_blocks h bs

-- `replaceAllUsesWith(undef)` for the value `p`.
unfoldable pub without : ℕ → Value → Value
without p (Value.reg q) = if q == p then Value.undef else Value.reg q
without p v = v

unfoldable pub callee_without : ℕ → Callee → Callee
callee_without p (Callee.named name) = Callee.named name
callee_without p (Callee.indirect v) = Callee.indirect (without p v)

unfoldable pub op_without : ℕ → Op → Op
op_without p (Op.call c args s) = Op.call (callee_without p c) (map (without p) args) s
op_without p (Op.invoke c args s n u) = Op.invoke (callee_without p c) (map (without p) args) s n u
op_without p (Op.resume v) = Op.resume (without p v)
op_without p (Op.catch_return v l) = Op.catch_return (without p v) l
op_without p (Op.cleanup_return v l) = Op.cleanup_return (without p v) l
op_without p (Op.catch_pad args) = Op.catch_pad (map (without p) args)
op_without p (Op.cleanup_pad args) = Op.cleanup_pad (map (without p) args)
op_without p (Op.store v s) = Op.store (without p v) s
op_without p (Op.insert_value v w i) = Op.insert_value (without p v) (without p w) i
op_without p (Op.alloca v) = Op.alloca (without p v)
op_without p (Op.cond_br v l m) = Op.cond_br (without p v) l m
op_without p (Op.ret (some v)) = Op.ret (some (without p v))
op_without p (Op.other c vs t) = Op.other c (map (without p) vs) t
op_without p op = op

unfoldable pub insts_without : ℕ → List Inst → List Inst
insts_without p [] = []
insts_without p (x ∷ xs) = record x { op = op_without p x.op } ∷ insts_without p xs
