-- ===== src/ExceptionLower/Lower.antt =====
-- ExceptionLowerPass.cpp: the lowering of each construct, and of a function.
use mathlib.Core.Option
use saw_script.Base.{
  ℕ, ◌+◌, Bool, true, false, ◌&&◌, Option, some, none, List, [], ◌∷◌, ◌++◌, if◌then◌else◌, ◌==◌,
  ltb,
}
use saw_script.ExceptionLower.Ir.{
  Inst, Block, RetType, Func, callee, normal_dest, invoke_unwind_dest, is_landing_pad,
}
use saw_script.ExceptionLower.Emit.{
  classify_cxa_call, cxa_code, erases_trailing, invoke_code, check_block, landing_pad_code,
  catch_return_code, cleanup_return_code, catch_pad_code, cleanup_pad_code, catch_switch_code,
  resume_code,
}
use saw_script.ExceptionLower.Edit.{
  cxa_calls, invokes, resumes, catch_returns, cleanup_returns, catch_pads, cleanup_pads,
  catch_switches, collect, is_empty, count, find, replace, trailing, on_blocks, insts_without,
}

-- An erased instruction's pointer names nothing.
abbrev pub is_present : ℕ → ℕ → List Block → Bool
is_present k p bs = ltb 0 (count k p bs)

abbrev pub never : Inst → Bool
never x = false

abbrev pub throws : Inst → Bool
throws x = erases_trailing (classify_cxa_call (callee x.op))

unfoldable pub all_trailing : ℕ → List Block → List ℕ
all_trailing p [] = []
all_trailing p (b ∷ bs) = trailing throws cxa_calls p b.insts ++ all_trailing p bs

unfoldable pub blocks_without : List ℕ → List Block → List Block
blocks_without [] bs = bs
blocks_without (p ∷ ps) bs = blocks_without ps (on_blocks (insts_without p) bs)

-- Each step below uses up to six new identities.
abbrev pub with_blocks : Func → List Block → Func
with_blocks f bs = record f { blocks = bs; next = f.next + 6 }

-- `lowerCxaCall`, for a call that has not been erased by a preceding throw.
unfoldable pub lower_cxa_call : ℕ → Func → Option Func
lower_cxa_call p f =
    let code = λ (x : Inst). cxa_code (classify_cxa_call (callee x.op)) f.ret_type f.next x in
    if is_present cxa_calls p f.blocks
    then some (
        with_blocks f (
          blocks_without (all_trailing p f.blocks)
            (on_blocks (replace throws cxa_calls p code) f.blocks)))
    else some f

-- The new block stands before the normal destination.
unfoldable pub insert_before : ℕ → Block → List Block → List Block
insert_before label new [] = new ∷ []
insert_before label new (b ∷ bs) =
    let rest = insert_before label new bs in if b.label == label then new ∷ b ∷ bs else b ∷ rest

-- `lowerLandingPadInPlace`, on a landing pad at the front of the block.
unfoldable pub lower_front : ℕ → List Inst → List Inst
lower_front n [] = []
lower_front n (x ∷ xs) = if is_landing_pad x.op then landing_pad_code n x ++ xs else x ∷ xs

unfoldable pub lower_landing_pad : ℕ → ℕ → List Block → List Block
lower_landing_pad n label [] = []
lower_landing_pad n label (b ∷ bs) =
    let rest = lower_landing_pad n label bs in
    if b.label == label then record b { insts = lower_front n b.insts } ∷ bs else b ∷ rest

-- `none` here and below: the pointer is used after its instruction has been erased.
unfoldable pub lower_invoke : ℕ → Func → Option Func
lower_invoke p f =
    let n = f.next in
    let op = find invokes p f.blocks in
    let bs₁ = insert_before (normal_dest op) (check_block n op) f.blocks in
    let bs₂ = on_blocks (replace never invokes p (invoke_code n)) bs₁ in
    if is_present invokes p f.blocks
    then some (with_blocks f (lower_landing_pad (n + 4) (invoke_unwind_dest op) bs₂))
    else none

-- The steps that put code in place of an instruction and erase it.
unfoldable pub lower_in_place : ℕ → (RetType → ℕ → Inst → List Inst) → ℕ → Func → Option Func
lower_in_place k code p f =
    if is_present k p f.blocks
    then some (with_blocks f (on_blocks (replace never k p (code f.ret_type f.next)) f.blocks))
    else none

-- The steps for a pad, whose value is replaced by undef.
unfoldable pub lower_pad : ℕ → (RetType → ℕ → Inst → List Inst) → ℕ → Func → Option Func
lower_pad k code p f =
    if is_present k p f.blocks
    then some (
        with_blocks f (
          on_blocks (replace never k p (code f.ret_type f.next))
            (on_blocks (insts_without p) f.blocks)))
    else none

-- A loop over one of the lists.
unfoldable pub each : (ℕ → Func → Option Func) → List ℕ → Option Func → Option Func
each step [] f = f
each step (p ∷ ps) none = none
each step (p ∷ ps) (some f) = each step ps (step p f)

pub record Lowered : Type 0 where
  pub func : Func
  pub changed : Bool

abbrev pub changed_to : Func → Lowered
changed_to f = record { func = f; changed = true }

-- The steps of `lowerFunction`; the lists are made before the first step.
unfoldable pub lower_all : Func → Option Func
lower_all f =
    let f₁ = each lower_cxa_call (collect cxa_calls f.blocks) (some f) in
    let f₂ = each lower_invoke (collect invokes f.blocks) f₁ in
    let f₃ = each (lower_in_place resumes resume_code) (collect resumes f.blocks) f₂ in
    let f₄ =
      each (lower_in_place catch_returns catch_return_code) (collect catch_returns f.blocks) f₃ in
    let f₅ =
      each (lower_in_place cleanup_returns cleanup_return_code) (collect cleanup_returns f.blocks)
        f₄ in
    let f₆ = each (lower_pad catch_pads catch_pad_code) (collect catch_pads f.blocks) f₅ in
    let f₇ = each (lower_pad cleanup_pads cleanup_pad_code) (collect cleanup_pads f.blocks) f₆ in
    each (lower_in_place catch_switches catch_switch_code) (collect catch_switches f.blocks) f₇

unfoldable pub nothing_to_lower : List Block → Bool
nothing_to_lower bs =
    is_empty (collect invokes bs)
    && is_empty (collect resumes bs)
    && is_empty (collect cxa_calls bs)
    && is_empty (collect catch_returns bs)
    && is_empty (collect cleanup_returns bs)
    && is_empty (collect catch_pads bs)
    && is_empty (collect cleanup_pads bs)
    && is_empty (collect catch_switches bs)

unfoldable pub lower_function : Func → Option Lowered
lower_function f =
    if nothing_to_lower f.blocks
    then some (record { func = f; changed = false })
    else Option.map changed_to (lower_all f)
