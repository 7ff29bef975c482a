-- ===== src/ExceptionLower/Codes.antt =====
-- The code for each construct ends a block where the construct does.
use saw_script.Base.{
  ℕ, ◌<◌, ◌≡◌, refl, arith, true, false, not, ◌||◌, List, [], ◌∷◌, ◌==◌, Option, some, none,
}
use saw_script.ExceptionLower.Ir.{Op, Inst, RetType, callee, is_terminator, handlers, unwind_dest}
use saw_script.ExceptionLower.Emit.{
  CxaRuntime, classify_cxa_call, emit_error_return, invoke_code, cxa_code, erases_trailing,
  catch_return_code, cleanup_return_code, catch_pad_code, cleanup_pad_code, catch_switch_code,
  resume_code, unwind_code, switch_code,
}
use saw_script.ExceptionLower.Edit.{
  cxa_calls, invokes, resumes, catch_returns, cleanup_returns, catch_pads, cleanup_pads,
  catch_switches, list_of, is_cxa,
}
use saw_script.ExceptionLower.Lower.{never, throws}
use saw_script.ExceptionLower.Steps.{is_cxa-matches}
use saw_script.ExceptionLower.Shape.{Fits, is_terminated, is_straight}

-- Of what is on the lists behind the first, all but the pads are terminators.
is_terminator-list_of :
    (op : Op)
    → cxa_calls < list_of op
    → is_terminator op ≡ not ((list_of op == catch_pads) || (list_of op == cleanup_pads))
unfolding list_of
is_terminator-list_of (Op.call c args s) h = absurd (ground arith)
is_terminator-list_of (Op.invoke c args s n u) h = refl
is_terminator-list_of (Op.resume v) h = refl
is_terminator-list_of (Op.catch_return v l) h = refl
is_terminator-list_of (Op.cleanup_return v l) h = refl
is_terminator-list_of (Op.catch_pad args) h = refl
is_terminator-list_of (Op.cleanup_pad args) h = refl
is_terminator-list_of (Op.catch_switch hs l) h = refl
is_terminator-list_of _ h = absurd (omega arith)

-- A terminator is replaced by code that ends the block.
Fits-end :
    (k p : ℕ) (code : Inst → List Inst)
    → cxa_calls < k
    → ((k == catch_pads) || (k == cleanup_pads)) ≡ false
    → ((x : Inst) → is_terminated (code x) ≡ true)
    → Fits never k p code
Fits-end k p code above e ends = record {
  cuts = λ x hit s. ends x;
  last = λ x hit t. ends x;
  inner = λ x hit s t. absurd (ground (arith, is_terminator-list_of x.op));
}

-- A pad is replaced by code that goes on.
Fits-pad :
    (k p : ℕ) (code : Inst → List Inst)
    → ((k == catch_pads) || (k == cleanup_pads)) ≡ true
    → ((x : Inst) → is_straight (code x) ≡ true)
    → Fits never k p code
Fits-pad k p code e goes = record {
  cuts = λ x hit s. absurd (cc);
  last = λ x hit t. absurd (ground (arith, is_terminator-list_of x.op));
  inner = λ x hit s t. goes x;
}

module _ (t : RetType) (n : ℕ) where
  is_terminated-emit_error_return : is_terminated (emit_error_return t n) ≡ true
  unfolding emit_error_return is_terminated
  is_terminated-emit_error_return = refl

  is_terminated-unwind_code : (to : Option ℕ) → is_terminated (unwind_code t n to) ≡ true
  unfolding unwind_code is_terminated
  is_terminated-unwind_code (some label) = refl
  is_terminated-unwind_code none = is_terminated-emit_error_return

  is_terminated-switch_code :
      (hs : List ℕ) (to : Option ℕ) → is_terminated (switch_code t n hs to) ≡ true
  unfolding switch_code is_terminated
  is_terminated-switch_code (h ∷ hs) to = refl
  is_terminated-switch_code [] to = is_terminated-unwind_code to

  module _ (p : ℕ) where
    pub Fits-invoke_code : Fits never invokes p (invoke_code n)
    unfolding invoke_code is_terminated
    Fits-invoke_code = Fits-end invokes p (invoke_code n) (omega arith) refl (λ x. refl)

    pub Fits-resume_code : Fits never resumes p (resume_code t n)
    unfolding resume_code
    Fits-resume_code =
        Fits-end resumes p (resume_code t n) (omega arith) refl
          (λ x. is_terminated-emit_error_return)

    pub Fits-catch_return_code : Fits never catch_returns p (catch_return_code t n)
    unfolding catch_return_code is_terminated
    Fits-catch_return_code =
        Fits-end catch_returns p (catch_return_code t n) (omega arith) refl (λ x. refl)

    pub Fits-cleanup_return_code : Fits never cleanup_returns p (cleanup_return_code t n)
    unfolding cleanup_return_code
    Fits-cleanup_return_code =
        Fits-end cleanup_returns p (cleanup_return_code t n) (omega arith) refl
          (λ x. is_terminated-unwind_code (unwind_dest x.op))

    pub Fits-catch_pad_code : Fits never catch_pads p (catch_pad_code t n)
    unfolding catch_pad_code is_straight
    Fits-catch_pad_code = Fits-pad catch_pads p (catch_pad_code t n) refl (λ x. refl)

    pub Fits-cleanup_pad_code : Fits never cleanup_pads p (cleanup_pad_code t n)
    unfolding cleanup_pad_code is_straight
    Fits-cleanup_pad_code = Fits-pad cleanup_pads p (cleanup_pad_code t n) refl (λ x. refl)

    pub Fits-catch_switch_code : Fits never catch_switches p (catch_switch_code t n)
    unfolding catch_switch_code
    Fits-catch_switch_code =
        Fits-end catch_switches p (catch_switch_code t n) (omega arith) refl
          (λ x. is_terminated-switch_code (handlers x.op) (unwind_dest x.op))

-- A call of the runtime is no terminator; after a throw its code ends the block.
is_terminated-cxa_code :
    (r : CxaRuntime) (t : RetType) (n : ℕ) (x : Inst)
    → erases_trailing r ≡ true
    → is_terminated (cxa_code r t n x) ≡ true
unfolding erases_trailing cxa_code emit_error_return is_terminated
is_terminated-cxa_code CxaRuntime.throw t n x e = refl
is_terminated-cxa_code CxaRuntime.rethrow t n x e = refl
is_terminated-cxa_code _ t n x e = absurd (cc)

is_straight-cxa_code :
    (r : CxaRuntime) (t : RetType) (n : ℕ) (x : Inst)
    → erases_trailing r ≡ false
    → is_cxa r ≡ true
    → is_straight (cxa_code r t n x) ≡ true
unfolding erases_trailing cxa_code is_straight
is_straight-cxa_code CxaRuntime.throw t n x e c = absurd (cc)
is_straight-cxa_code CxaRuntime.rethrow t n x e c = absurd (cc)
is_straight-cxa_code CxaRuntime.nothing t n x e c = absurd (cc)
is_straight-cxa_code _ t n x e c = refl

is_terminator-call : (op : Op) → list_of op ≡ cxa_calls → is_terminator op ≡ false
unfolding list_of
is_terminator-call (Op.call c args s) h = refl
is_terminator-call _ h = absurd (omega arith)

pub Fits-cxa_code :
    (t : RetType) (n p : ℕ)
    → Fits throws cxa_calls p (λ (x : Inst). cxa_code (classify_cxa_call (callee x.op)) t n x)
Fits-cxa_code t n p = record {
  cuts = λ x hit s. is_terminated-cxa_code (classify_cxa_call (callee x.op)) t n x s;
  last = λ x hit e. absurd (ground (arith, is_terminator-call x.op));
  inner = λ x hit s e.
      is_straight-cxa_code (classify_cxa_call (callee x.op)) t n x s (is_cxa-matches p x hit);
}
