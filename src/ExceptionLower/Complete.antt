-- ===== src/ExceptionLower/Complete.antt =====
-- `lowerFunction` on a function with nothing to lower, and on any that is lowerable.
use saw_script.Base.{
  ℕ, zero, suc, ◌≤◌, ◌<◌, ◌≡◌, ◌∙◌, refl, sym, inl, inr, arith, true, false, List, [], ◌∷◌,
  Bool-cases, some,
}
use saw_script.ExceptionLower.Ir.{Block, Func}
use saw_script.ExceptionLower.Edit.{
  cxa_calls, invokes, resumes, catch_returns, cleanup_returns, catch_pads, cleanup_pads,
  catch_switches, matches, count, collect, is_empty,
}
use saw_script.ExceptionLower.Lower.{nothing_to_lower, Lowered, changed_to, lower_function}
use saw_script.ExceptionLower.Counts.{count_in-le}
use saw_script.ExceptionLower.Steps.{is_cxa_invoke}
use saw_script.ExceptionLower.Phases.{times, times-collect}
use saw_script.ExceptionLower.Run.{IsLowerable, IsLoweredFrom, lower_all_lem}

-- A list is empty if and only if it names nothing.
times-is_empty : (ps : List ℕ) (q : ℕ) → is_empty ps ≡ true → times q ps ≡ 0
unfolding times
times-is_empty [] q e = refl
times-is_empty (p ∷ ps) q e = absurd (cc)

is_empty-times : (ps : List ℕ) → ((q : ℕ) → times q ps ≡ 0) → is_empty ps ≡ true
unfolding times
is_empty-times [] h = refl
is_empty-times (p ∷ ps) h = absurd (ground (arith, h p))

is_empty-collect :
    (k : ℕ) (bs : List Block) → ((q : ℕ) → count k q bs ≡ 0) → is_empty (collect k bs) ≡ true
is_empty-collect k bs h = is_empty-times (collect k bs) (λ q. times-collect k q bs ∙ h q)

count-is_empty : (k q : ℕ) (bs : List Block) → is_empty (collect k bs) ≡ true → count k q bs ≡ 0
count-is_empty k q bs e = sym (times-collect k q bs) ∙ times-is_empty (collect k bs) q e

count-nothing_to_lower :
    (bs : List Block)
    → nothing_to_lower bs ≡ true
    → (k q : ℕ) → 0 < k
    → k ≤ catch_switches
    → count k q bs ≡ 0
unfolding nothing_to_lower
count-nothing_to_lower bs e k q low high = count-is_empty k q bs (pick k low high)
  where
    pick : (k : ℕ) → 0 < k → k ≤ catch_switches → is_empty (collect k bs) ≡ true
    pick zero low high = absurd (omega arith)
    pick (suc zero) low high = ground arith
    pick (suc (suc zero)) low high = ground arith
    pick (suc (suc (suc zero))) low high = ground arith
    pick (suc (suc (suc (suc zero)))) low high = ground arith
    pick (suc (suc (suc (suc (suc zero))))) low high = ground arith
    pick (suc (suc (suc (suc (suc (suc zero)))))) low high = ground arith
    pick (suc (suc (suc (suc (suc (suc (suc zero))))))) low high = ground arith
    pick (suc (suc (suc (suc (suc (suc (suc (suc zero)))))))) low high = ground arith
    pick (suc (suc (suc (suc (suc (suc (suc (suc (suc k))))))))) low high = absurd (omega arith)

-- Where all lists are empty, the function is left alone.
pub lower_function-nothing :
    (f : Func)
    → ((k q : ℕ) → 0 < k → k ≤ catch_switches → count k q f.blocks ≡ 0)
    → lower_function f ≡ some (record { func = f; changed = false })
unfolding lower_function nothing_to_lower
lower_function-nothing f none_left =
    let gone : (k : ℕ) → 0 < k → k ≤ catch_switches → is_empty (collect k f.blocks) ≡ true =
      λ k low high. is_empty-collect k f.blocks (λ q. none_left k q low high) in
    rw
      (
        gone invokes (omega arith) (omega arith),
        gone resumes (omega arith) (omega arith),
        gone cxa_calls (omega arith) (omega arith),
        gone catch_returns (omega arith) (omega arith),
        gone cleanup_returns (omega arith) (omega arith),
        gone catch_pads (omega arith) (omega arith),
        gone cleanup_pads (omega arith) (omega arith),
        gone catch_switches (omega arith) (omega arith),
      )
      refl

-- `lowerFunction` never uses the pointer of an erased instruction, and ends with all lists but the
-- first empty, on every function that is lowerable. The calls of the C++ runtime that are left are
-- those that were invokes, and every block ends in its only terminator.
pub lower_function_lem :
    (f : Func)
    → IsLowerable f
    → (l : Lowered) × (lower_function f ≡ some l) × IsLoweredFrom f l.func
unfolding lower_function
lower_function_lem f ok = elim (Bool-cases (nothing_to_lower f.blocks)) [
  | inl e ↦ rw e (
    record { func = f; changed = false },
    refl,
    record {
      shaped = ok.shaped;
      gone = λ k q low high. count-nothing_to_lower f.blocks e k q (omega arith) high;
      runtime = λ q. omega (
        arith,
        count-nothing_to_lower f.blocks e cxa_calls q (omega arith) (omega arith),
        count-nothing_to_lower f.blocks e invokes q (omega arith) (omega arith),
        count_in-le (is_cxa_invoke q) (matches invokes q) (λ x h. ground arith) f.blocks,
      );
    },
  )
  | inr e ↦ let all = lower_all_lem f ok in rw (e, all.1) (changed_to all.0, refl, all.2)
]
