-- ===== src/Simon/Schedule.antt =====
-- A key loop whose word at `i` depends on the words below `i` alone. Such a loop, run on its own
-- result, changes nothing.
use native.Mathlib.Decide.{ℕ_discrete}
use native.Mathlib.Nat.{zero-add, add-zero, suc-add}
use saw_script.Base.{
  ℕ, zero, suc, ◌+◌, ◌≤◌, ◌<◌, ◌≡◌, refl, sym, ◌∙◌, List, arith, length, get_or, set, length-set,
  set-get_or, get_or-set_self, get_or-set_ne,
}
use saw_script.Simon.{expand_loop}

-- From `lo` on, `next` reads below its index.
abbrev pub IsLocal : ℕ → (ℕ → List ℕ → ℕ) → Type 0
IsLocal lo next = (i j : ℕ) (k : List ℕ) (v : ℕ) → lo ≤ i → i ≤ j → next i (set k j v) ≡ next i k

-- The words from `lo` to `hi` are those that `next` gives.
abbrev pub IsExpanded : (ℕ → List ℕ → ℕ) → ℕ → ℕ → List ℕ → Type 0
IsExpanded next lo hi k = (j : ℕ) → lo ≤ j → j < hi → get_or k j 0 ≡ next j k

pub length-expand_loop :
    (next : ℕ → List ℕ → ℕ) (left i : ℕ) (k : List ℕ)
    → length (expand_loop next left i k) ≡ length k
unfolding expand_loop
length-expand_loop next zero i k = refl
length-expand_loop next (suc left) i k =
    length-expand_loop next left (i + 1) _ ∙ length-set k i (next i k)

-- Loops whose `next` agrees on the indices that they reach agree.
pub expand_loop_congr :
    (next other : ℕ → List ℕ → ℕ) (left i : ℕ) (k : List ℕ)
    → ((j : ℕ) (l : List ℕ) → i ≤ j → j < i + left → next j l ≡ other j l)
    → expand_loop next left i k ≡ expand_loop other left i k
unfolding expand_loop
expand_loop_congr next other zero i k h = refl
expand_loop_congr next other (suc left) i k h =
    rw (h i k (omega arith) (omega arith))
      (expand_loop_congr next other left (i + 1) _ (λ j l p q. h j l (omega arith) (omega arith)))

pub expand_loop-add :
    (next : ℕ → List ℕ → ℕ) (a b i : ℕ) (k : List ℕ)
    → expand_loop next b (i + a) (expand_loop next a i k) ≡ expand_loop next (a + b) i k
unfolding expand_loop
expand_loop-add next zero b i k = rw (add-zero i, zero-add b)
expand_loop-add next (suc a) b i k =
    let index : i + suc a ≡ i + 1 + a = omega arith in
    rw (suc-add a b, index) (expand_loop-add next a b (i + 1) (set k i (next i k)))

module _ (next : ℕ → List ℕ → ℕ) (lo : ℕ) (local : IsLocal lo next) where
  set-IsExpanded :
      (i : ℕ) (k : List ℕ)
      → i < length k
      → IsExpanded next lo i k
      → IsExpanded next lo (i + 1) (set k i (next i k))
  set-IsExpanded i k fits h j p q = elim (ℕ_discrete j i) [
    | yes e ↦ rw e (
        get_or-set_self k i (next i k) 0 fits
        ∙ sym (local i i k (next i k) (omega arith) (omega arith)))
    | no ne ↦
        get_or-set_ne k i j (next i k) 0 (λ e. ne (sym e))
        ∙ (h j p (omega arith) ∙ sym (local j i k (next i k) p (omega arith)))
  ]

  pub expand_loop-IsExpanded :
      (left i : ℕ) (k : List ℕ)
      → i + left ≤ length k
      → IsExpanded next lo i k
      → IsExpanded next lo (i + left) (expand_loop next left i k)
  unfolding expand_loop
  expand_loop-IsExpanded zero i k fits h j p q = h j p (omega arith)
  expand_loop-IsExpanded (suc left) i k fits h j p q =
      expand_loop-IsExpanded left (i + 1) (set k i (next i k))
        (omega (arith, length-set k i (next i k))) (set-IsExpanded i k (omega arith) h) j p
        (omega arith)

  expand_loop_done :
      (hi left i : ℕ) (k : List ℕ)
      → lo ≤ i
      → i + left ≤ hi
      → IsExpanded next lo hi k
      → expand_loop next left i k ≡ k
  unfolding expand_loop
  expand_loop_done hi zero i k p q h = refl
  expand_loop_done hi (suc left) i k p q h =
      rw (← h i p (omega arith), set-get_or k i 0)
        (expand_loop_done hi left (i + 1) k (omega arith) (omega arith) h)

  -- Expanding what is expanded changes nothing.
  pub expand_loop_idem :
      (left : ℕ) (k : List ℕ)
      → lo + left ≤ length k
      → expand_loop next left lo (expand_loop next left lo k) ≡ expand_loop next left lo k
  expand_loop_idem left k fits =
      expand_loop_done (lo + left) left lo (expand_loop next left lo k) (omega arith) (omega arith)
        (expand_loop-IsExpanded left lo k fits (λ j p q. absurd (omega arith)))
