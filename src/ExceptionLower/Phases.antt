-- ===== src/ExceptionLower/Phases.antt =====
-- The loops of `lowerFunction`: each one empties its list, and leaves the other lists alone.
use saw_script.Base.{
  ℕ, ◌+◌, ◌≤◌, ◌<◌, ◌≡◌, ◌∙◌, refl, sym, ap, inl, inr, arith, List, [], ◌∷◌, ◌++◌, if◌then◌else◌,
  ◌==◌, Bool-cases, some, Option,
}
use saw_script.ExceptionLower.Ir.{Inst, Block, Func}
use saw_script.ExceptionLower.Edit.{
  list_of, matches, count_by, count_in, count, collect_insts, collect,
}
use saw_script.ExceptionLower.Lower.{each}

-- How often a pointer is on a list.
unfoldable pub times : ℕ → List ℕ → ℕ
times q [] = 0
times q (p ∷ ps) = (if p == q then 1 else 0) + times q ps

times-append : (q : ℕ) (ps qs : List ℕ) → times q (ps ++ qs) ≡ times q ps + times q qs
unfolding times
times-append q [] qs = omega arith
times-append q (p ∷ ps) qs = omega (arith, times-append q ps qs)

times-collect_insts :
    (k q : ℕ) (xs : List Inst) → times q (collect_insts k xs) ≡ count_by (matches k q) xs
unfolding times collect_insts count_by
times-collect_insts k q [] = refl
times-collect_insts k q (x ∷ xs) = elim (Bool-cases (list_of x.op == k)) [
  | inl e ↦ rw e (omega (arith, times-collect_insts k q xs))
  | inr e ↦ rw e (omega (arith, times-collect_insts k q xs))
]

-- The lists hold what there is to lower.
pub times-collect : (k q : ℕ) (bs : List Block) → times q (collect k bs) ≡ count k q bs
unfolding collect count_in times
times-collect k q [] = refl
times-collect k q (b ∷ bs) = omega (
  arith,
  times-append q (collect_insts k b.insts) (collect k bs),
  times-collect_insts k q b.insts,
  times-collect k q bs,
)

-- A step on the list `k`: it needs the instruction, erases it, and leaves what `keep` counts.
pub record IsStep (k : ℕ) (keep : ℕ → ℕ → Func → ℕ) (step : ℕ → Func → Option Func)
    (Inv : Func → Type 0) : Type 0 where
  pub advance :
      (p : ℕ) (f : Func)
      → Inv f
      → 0 < count k p f.blocks
      → (f' : Func) × (step p f ≡ some f')
        × Inv f'
        × ((q : ℕ) → count k q f'.blocks ≡ (if q == p then 0 else count k q f.blocks))
        × ((m q : ℕ) → keep m q f' ≡ keep m q f)

module _ (k : ℕ) (keep : ℕ → ℕ → Func → ℕ) (step : ℕ → Func → Option Func) (Inv : Func → Type 0)
    (law : IsStep k keep step Inv) where
  each-run :
      (ps : List ℕ) (f : Func)
      → Inv f
      → ((q : ℕ) → times q ps ≡ count k q f.blocks)
      → ((q : ℕ) → times q ps ≤ 1)
      → (f' : Func) × (each step ps (some f) ≡ some f')
        × Inv f'
        × ((q : ℕ) → count k q f'.blocks ≡ 0)
        × ((m q : ℕ) → keep m q f' ≡ keep m q f)
  unfolding each times
  each-run [] f inv all once = (f, refl, inv, λ q. sym (all q), λ m q. refl)
  each-run (p ∷ ps) f inv all once =
      let next = law.advance p f inv (ground (arith, all p)) in
      let rest =
        each-run ps next.0 next.2
          (λ q. elim (Bool-cases (q == p)) [
            | inl e ↦ let here : q ≡ p = ground arith in rw (next.3 q) (ground (arith, once q))
            | inr e ↦ rw (next.3 q) (ground (arith, all q))
          ])
          (λ q. omega (arith, once q)) in
      (rest.0, ap (each step ps) next.1 ∙ rest.1, rest.2, rest.3, λ m q. rest.4 m q ∙ next.4 m q)

  -- The loop over the list that was collected at the start, from `f₀`.
  pub each-collect :
      (f₀ f : Func)
      → Inv f
      → ((q : ℕ) → count k q f.blocks ≡ count k q f₀.blocks)
      → ((q : ℕ) → count k q f₀.blocks ≤ 1)
      → (f' : Func) × (each step (collect k f₀.blocks) (some f) ≡ some f')
        × Inv f'
        × ((q : ℕ) → count k q f'.blocks ≡ 0)
        × ((m q : ℕ) → keep m q f' ≡ keep m q f)
  each-collect f₀ f inv same once =
      each-run (collect k f₀.blocks) f inv (λ q. omega (arith, times-collect k q f₀.blocks, same q))
        (λ q. omega (arith, times-collect k q f₀.blocks, once q))
