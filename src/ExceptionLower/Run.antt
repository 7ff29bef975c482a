-- ===== src/ExceptionLower/Run.antt =====
-- `lowerFunction` as a whole.
use native.Mathlib.Decide.{ℕ_discrete}
use saw_script.Base.{ℕ, ◌+◌, ◌≤◌, ◌<◌, ◌≡◌, ◌≢◌, ◌∙◌, refl, sym, ap, arith, ◌==◌, some, Option}
use saw_script.ExceptionLower.Ir.{Inst, Func}
use saw_script.ExceptionLower.Emit.{
  catch_return_code, cleanup_return_code, catch_pad_code, cleanup_pad_code, catch_switch_code,
  resume_code,
}
use saw_script.ExceptionLower.Edit.{
  cxa_calls, invokes, resumes, catch_returns, cleanup_returns, catch_pads, cleanup_pads,
  catch_switches, matches, count_in, count, collect,
}
use saw_script.ExceptionLower.Lower.{
  each, lower_cxa_call, lower_invoke, lower_in_place, lower_pad, lower_all,
}
use saw_script.ExceptionLower.Counts.{count_in-le}
use saw_script.ExceptionLower.Steps.{
  is_cxa_invoke, IsPlain-resume_code, IsPlain-catch_return_code, IsPlain-cleanup_return_code,
  IsPlain-catch_pad_code, IsPlain-cleanup_pad_code, IsPlain-catch_switch_code,
}
use saw_script.ExceptionLower.Phases.{IsStep, each-collect}
use saw_script.ExceptionLower.Codes.{
  Fits-resume_code, Fits-catch_return_code, Fits-cleanup_return_code, Fits-catch_pad_code,
  Fits-cleanup_pad_code, Fits-catch_switch_code,
}
use saw_script.ExceptionLower.Laws.{IsShaped, others, IsStep-lower_in_place, IsStep-lower_pad}
use saw_script.ExceptionLower.Invokes.{runtime_uses, IsStep-lower_invoke}
use saw_script.ExceptionLower.Calls.{AllSealed, IsReadable, IsStep-lower_cxa_call}

-- What the pass asks of a function: every block ends in its only terminator, nothing to lower
-- stands behind a call that throws, and no two instructions have the same identity.
pub record IsLowerable (f : Func) : Type 0 where
  pub shaped : IsShaped f
  pub sealed : AllSealed f.blocks
  pub distinct : (p : ℕ) → count_in (λ (x : Inst). x.at == p) f.blocks ≤ 1

-- What it makes of it: the lists behind the first are empty, and the only calls of the C++ runtime
-- are those that were invokes.
pub record IsLoweredFrom (f f' : Func) : Type 0 where
  pub shaped : IsShaped f'
  pub gone : (k q : ℕ) → cxa_calls < k → k ≤ catch_switches → count k q f'.blocks ≡ 0
  pub runtime : (q : ℕ) → count cxa_calls q f'.blocks ≡ count_in (is_cxa_invoke q) f.blocks

once : (f : Func) → IsLowerable f → (k q : ℕ) → count k q f.blocks ≤ 1
once f ok k q = omega (
  arith,
  count_in-le (matches k q) (λ (x : Inst). x.at == q) (λ x e. ground arith) f.blocks,
  ok.distinct q,
)

-- From `f` to `g`, the lists before `k` have been emptied.
record IsProgress (k : ℕ) (f g : Func) : Type 0 where
  shaped : IsShaped g
  runtime : (q : ℕ) → count cxa_calls q g.blocks ≡ count_in (is_cxa_invoke q) f.blocks
  done : (m q : ℕ) → cxa_calls < m → m < k → count m q g.blocks ≡ 0
  same : (m q : ℕ) → k ≤ m → count m q g.blocks ≡ count m q f.blocks

others-list : (k m q : ℕ) (f : Func) → 0 < m → m ≢ k → others k m q f ≡ count m q f.blocks
unfolding others
others-list k m q f pos ne = ground arith

IsProgress-next :
    (k : ℕ) (step : ℕ → Func → Option Func) (f g : Func)
    → invokes < k
    → IsStep k (others k) step IsShaped
    → IsLowerable f
    → IsProgress k f g
    → (g' : Func) × (each step (collect k f.blocks) (some g) ≡ some g') × IsProgress (k + 1) f g'
IsProgress-next k step f g above law ok before =
    let loop =
      each-collect k (others k) step IsShaped law f g before.shaped
        (λ q. before.same k q (omega arith)) (once f ok k) in
    let kept : (m q : ℕ) → 0 < m → m ≢ k → count m q loop.0.blocks ≡ count m q g.blocks =
      λ m q pos ne.
        sym (others-list k m q loop.0 pos ne) ∙ loop.4 m q ∙ others-list k m q g pos ne in
    (
      loop.0,
      loop.1,
      record {
        shaped = loop.2;
        runtime = λ q. kept cxa_calls q (omega arith) (omega arith) ∙ before.runtime q;
        done = λ m q low high. elim (ℕ_discrete m k) [
          | yes here ↦ rw here (loop.3 q)
          | no there ↦ kept m q (omega arith) there ∙ before.done m q low (omega arith)
        ];
        same = λ m q high. kept m q (omega arith) (omega arith) ∙ before.same m q (omega arith);
      },
    )

-- The first two loops.
others-zero : (k q : ℕ) (f : Func) → others k 0 q f ≡ count_in (is_cxa_invoke q) f.blocks
unfolding others
others-zero k q f = refl

runtime_uses-zero :
    (q : ℕ) (f : Func)
    → runtime_uses 0 q f ≡ count cxa_calls q f.blocks + count_in (is_cxa_invoke q) f.blocks
unfolding runtime_uses
runtime_uses-zero q f = refl

runtime_uses-list : (m q : ℕ) (f : Func) → invokes < m → runtime_uses m q f ≡ count m q f.blocks
unfolding runtime_uses
runtime_uses-list m q f high = ground arith

IsProgress-start :
    (f : Func)
    → IsLowerable f
    → (g : Func) × (each lower_invoke
          (collect invokes f.blocks)
          (each lower_cxa_call (collect cxa_calls f.blocks) (some f))
        ≡ some g)
      × IsProgress resumes f g
IsProgress-start f ok =
    let first =
      each-collect cxa_calls (others cxa_calls) lower_cxa_call IsReadable IsStep-lower_cxa_call f f
        (ok.shaped, ok.sealed) (λ q. refl) (once f ok cxa_calls) in
    let g = first.0 in
    let kept : (m q : ℕ) → cxa_calls < m → count m q g.blocks ≡ count m q f.blocks = λ m q high.
      sym (others-list cxa_calls m q g (omega arith) (omega arith))
      ∙ first.4 m q
      ∙ others-list cxa_calls m q f (omega arith) (omega arith) in
    let second =
      each-collect invokes runtime_uses lower_invoke IsShaped IsStep-lower_invoke f g (first.2).0
        (λ q. kept invokes q (omega arith)) (once f ok invokes) in
    let h = second.0 in
    (
      h,
      ap (each lower_invoke (collect invokes f.blocks)) first.1 ∙ second.1,
      record {
        shaped = second.2;
        runtime = λ q. omega (
          arith,
          runtime_uses-zero q h,
          runtime_uses-zero q g,
          second.4 0 q,
          first.3 q,
          others-zero cxa_calls q g,
          others-zero cxa_calls q f,
          first.4 0 q,
          second.3 q,
          count_in-le (is_cxa_invoke q) (matches invokes q) (λ x e. ground arith) h.blocks,
        );
        done = λ m q low high. let here : m ≡ invokes = omega arith in rw here (second.3 q);
        same = λ m q high.
            sym (runtime_uses-list m q h (omega arith))
            ∙ second.4 m q
            ∙ runtime_uses-list m q g (omega arith)
            ∙ kept m q (omega arith);
      },
    )

pub lower_all_lem :
    (f : Func) → IsLowerable f → (f' : Func) × (lower_all f ≡ some f') × IsLoweredFrom f f'
unfolding lower_all
lower_all_lem f ok =
    let s₃ = IsProgress-start f ok in
    let s₄ =
      IsProgress-next resumes (lower_in_place resumes resume_code) f s₃.0 (omega arith)
        (IsStep-lower_in_place resumes resume_code (omega arith) IsPlain-resume_code
          Fits-resume_code)
        ok s₃.2 in
    let s₅ =
      IsProgress-next catch_returns (lower_in_place catch_returns catch_return_code) f s₄.0
        (omega arith)
        (IsStep-lower_in_place catch_returns catch_return_code (omega arith)
          IsPlain-catch_return_code Fits-catch_return_code)
        ok s₄.2 in
    let s₆ =
      IsProgress-next cleanup_returns (lower_in_place cleanup_returns cleanup_return_code) f s₅.0
        (omega arith)
        (IsStep-lower_in_place cleanup_returns cleanup_return_code (omega arith)
          IsPlain-cleanup_return_code Fits-cleanup_return_code)
        ok s₅.2 in
    let s₇ =
      IsProgress-next catch_pads (lower_pad catch_pads catch_pad_code) f s₆.0 (omega arith)
        (IsStep-lower_pad catch_pads catch_pad_code (omega arith) IsPlain-catch_pad_code
          Fits-catch_pad_code)
        ok s₆.2 in
    let s₈ =
      IsProgress-next cleanup_pads (lower_pad cleanup_pads cleanup_pad_code) f s₇.0 (omega arith)
        (IsStep-lower_pad cleanup_pads cleanup_pad_code (omega arith) IsPlain-cleanup_pad_code
          Fits-cleanup_pad_code)
        ok s₇.2 in
    let s₉ =
      IsProgress-next catch_switches (lower_in_place catch_switches catch_switch_code) f s₈.0
        (omega arith)
        (IsStep-lower_in_place catch_switches catch_switch_code (omega arith)
          IsPlain-catch_switch_code Fits-catch_switch_code)
        ok s₈.2 in
    (
      s₉.0,
      rw (s₃.1, s₄.1, s₅.1, s₆.1, s₇.1, s₈.1) s₉.1,
      record {
        shaped = s₉.2.shaped;
        gone = λ k q low high. s₉.2.done k q low (omega arith);
        runtime = s₉.2.runtime;
      },
    )
