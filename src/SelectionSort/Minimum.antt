-- ===== src/SelectionSort/Minimum.antt =====
-- The two searches for a minimum in swap.c.
use native.Mathlib.Decide.{dec_lt}
use saw_script.Base.{
  ℕ, zero, suc, ◌+◌, ◌-◌, ◌≤◌, ◌<◌, ◌≡◌, ◌∙◌, refl, ap, subst, inl, inr, arith, List, get_or, ltb,
  Bool-cases, ltb→lt, ltb-false,
}
use saw_script.SelectionSort.{min_loop, argmin_loop, argmin}

-- `m` is the index of a least entry among those from `lo` up to `hi`.
pub record IsMinimum (a : List ℕ) (lo hi m : ℕ) : Type 0 where
  pub from : lo ≤ m
  pub below : m < hi
  pub least : (q : ℕ) → lo ≤ q → q < hi → get_or a m 0 ≤ get_or a q 0

-- With the candidate at or before `j`: the first entry is counted as seen.
min_loop-IsMinimum :
    (a : List ℕ) (lo left j m : ℕ)
    → lo ≤ m
    → m < j
    → ((q : ℕ) → lo ≤ q → q < j → get_or a m 0 ≤ get_or a q 0)
    → IsMinimum a lo (j + left) (min_loop a left j m)
unfolding min_loop
min_loop-IsMinimum a lo zero j m p q least = record {
  from = p;
  below = omega arith;
  least = λ i u v. least i u (omega arith);
}
min_loop-IsMinimum a lo (suc left) j m p q least =
    elim (Bool-cases (ltb (get_or a j 0) (get_or a m 0))) [
      | inl less ↦ rw less (
          widen (
            min_loop-IsMinimum a lo left (j + 1) j (omega arith) (omega arith) (λ i u v.
              elim (dec_lt i j) [
                | yes old ↦ omega (arith, least i u old, ltb→lt _ _ less)
                | no new ↦ let here : i ≡ j = omega arith in rw here (omega arith)
              ])))
      | inr more ↦ rw more (
          widen (
            min_loop-IsMinimum a lo left (j + 1) m p (omega arith) (λ i u v. elim (dec_lt i j) [
              | yes old ↦ least i u old
              | no new ↦ let here : i ≡ j = omega arith in rw here (ltb-false _ _ more)
            ])))
    ]
  where
    widen : {r : ℕ} → IsMinimum a lo (j + 1 + left) r → IsMinimum a lo (j + suc left) r
    widen m' = record {
      from = m'.from;
      below = omega (arith, m'.below);
      least = λ i u v. m'.least i u (omega arith);
    }

-- The first round compares an entry with itself.
min_loop-first : (a : List ℕ) (n i : ℕ) → min_loop a (suc n) i i ≡ min_loop a n (i + 1) i
unfolding min_loop
min_loop-first a n i = elim (Bool-cases (ltb (get_or a i 0) (get_or a i 0))) [
  | inl e ↦ rw e refl
  | inr e ↦ rw e refl
]

-- The inner loop of `selection_sort`, from `i` on.
pub min_loop_lem : (a : List ℕ) (i len : ℕ) → i < len → IsMinimum a i len (min_loop a (len - i) i i)
min_loop_lem a i len p =
    let rounds : len - i ≡ suc (len - suc i) = omega arith in
    let end : i + 1 + (len - suc i) ≡ len = omega arith in
    let rest =
      min_loop-IsMinimum a i (len - suc i) (i + 1) i (omega arith) (omega arith)
        (λ q u v. let here : q ≡ i = omega arith in rw here (omega arith)) in
    rw (rounds, min_loop-first a (len - suc i) i)
      (subst (λ (t : ℕ). IsMinimum a i t (min_loop a (len - suc i) (i + 1) i)) end rest)

-- `argmin` at `a + base` finds the index that the inner loop finds, from `base` on.
argmin_loop-min_loop :
    (a : List ℕ) (base left j m : ℕ)
    → base + argmin_loop a base left j m ≡ min_loop a left (base + j) (base + m)
unfolding argmin_loop min_loop
argmin_loop-min_loop a base zero j m = refl
argmin_loop-min_loop a base (suc left) j m =
    elim (Bool-cases (ltb (get_or a (base + j) 0) (get_or a (base + m) 0))) [
      | inl e ↦ rw e (
          argmin_loop-min_loop a base left (j + 1) j
          ∙ ap (λ (t : ℕ). min_loop a left t (base + j)) (omega arith))
      | inr e ↦ rw e (
          argmin_loop-min_loop a base left (j + 1) m
          ∙ ap (λ (t : ℕ). min_loop a left t (base + m)) (omega arith))
    ]

pub argmin-min_loop :
    (a : List ℕ) (base len : ℕ) → base + argmin a base len ≡ min_loop a len base base
unfolding argmin
argmin-min_loop a base len =
    argmin_loop-min_loop a base len 0 0 ∙ ap (λ (t : ℕ). min_loop a len t t) (omega arith)
