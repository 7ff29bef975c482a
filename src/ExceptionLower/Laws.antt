-- ===== src/ExceptionLower/Laws.antt =====
-- Each step of the pass, by the list that it works on.
use native.Mathlib.Decide.{ℕ_discrete}
use saw_script.Base.{
  ℕ, ◌<◌, ◌≡◌, ◌∙◌, refl, arith, Bool, true, List, [], ◌∷◌, if◌then◌else◌, ◌==◌, ltb,
}
use saw_script.ExceptionLower.Ir.{Inst, Block, Func, RetType}
use saw_script.ExceptionLower.Edit.{
  invokes, matches, count_by, count_in, count, replace, on_blocks, insts_without,
}
use saw_script.ExceptionLower.Lower.{never, lower_in_place, lower_pad}
use saw_script.ExceptionLower.Counts.{
  Quiet, count_by-replace, count_in-on_blocks, count_by-insts_without,
}
use saw_script.ExceptionLower.Steps.{
  IsPlain, is_cxa_invoke, left, count_in-left, count_in-left_cxa_invoke, IsListed, IsListed-matches,
  IsListed-cxa_invoke, IsPlain-listed, IsStable-left,
}
use saw_script.ExceptionLower.Phases.{IsStep}
use saw_script.ExceptionLower.Shape.{
  AllTerminated, Fits, is_terminated-replace, AllTerminated-on_blocks, is_terminated-insts_without,
}

-- What the steps on the list `k` leave alone: the other lists, and the invokes of the C++ runtime.
unfoldable pub others : ℕ → ℕ → ℕ → Func → ℕ
others k m q f =
    if m == 0 then count_in (is_cxa_invoke q) f.blocks else if m == k then 0 else count m q f.blocks

pub Quiet-never : (u : Inst → Bool) (xs : List Inst) → Quiet never u xs
Quiet-never u [] = tt
Quiet-never u (x ∷ xs) = (λ e. absurd (cc), Quiet-never u xs)

-- A replacement by code with nothing to lower takes one instruction from the count.
count_by-in_place :
    (t : Inst → Bool) (k p : ℕ) (code : Inst → List Inst)
    → IsListed t
    → ((x : Inst) → matches k p x ≡ true → IsPlain (code x))
    → (xs : List Inst) → count_by t (replace never k p code xs) ≡ count_by (left k p t) xs
count_by-in_place t k p code l plain xs =
    count_by-replace never t (left k p t) k p code
      (λ x e. rw e (IsPlain-listed t (code x) l (plain x e) ∙ ground arith))
      (λ x e. rw e (ground arith)) xs (Quiet-never (left k p t) xs)

-- The invariant of the loops.
abbrev pub IsShaped : Func → Type 0
IsShaped f = AllTerminated f.blocks

module _ (k : ℕ) (code : RetType → ℕ → Inst → List Inst) (above : invokes < k)
    (plain : (t : RetType) (n : ℕ) (x : Inst) → IsPlain (code t n x))
    (fits : (t : RetType) (n p : ℕ) → Fits never k p (code t n)) where
  count_in-in_place :
      (t : RetType) (n p : ℕ) (u : Inst → Bool) (bs : List Block)
      → IsListed u
      → count_in u (on_blocks (replace never k p (code t n)) bs) ≡ count_in (left k p u) bs
  count_in-in_place t n p u bs l =
      count_in-on_blocks u (left k p u) (replace never k p (code t n)) bs
        (count_by-in_place u k p (code t n) l (λ x e. plain t n x))

  -- What such a replacement leaves in `bs`.
  others-in_place :
      (f : Func) (p m q : ℕ) (bs : List Block)
      → ((u : Inst → Bool) → IsListed u → count_in (left k p u) bs ≡ count_in (left k p u) f.blocks)
      → (f' : Func) → f'.blocks ≡ on_blocks (replace never k p (code f.ret_type f.next)) bs
      → others k m q f' ≡ others k m q f
  unfolding others
  others-in_place f p m q bs same f' e = rw e (elim (ℕ_discrete m 0) [
    | yes z ↦ rw z (
        count_in-in_place f.ret_type f.next p (is_cxa_invoke q) bs (IsListed-cxa_invoke q)
        ∙ same (is_cxa_invoke q) (IsListed-cxa_invoke q)
        ∙ count_in-left_cxa_invoke k p q f.blocks (omega arith))
    | no nz ↦ elim (ℕ_discrete m k) [
      | yes z ↦ ground arith
      | no nk ↦
          let listed = IsListed-matches m q (omega arith) in
          ground (
            arith,
            count_in-in_place f.ret_type f.next p (matches m q) bs listed,
            same (matches m q) listed,
            count_in-left k p m q f.blocks,
          )
    ]
  ])

  count-in_place :
      (f : Func) (p q : ℕ) (bs : List Block)
      → ((u : Inst → Bool) → IsListed u → count_in (left k p u) bs ≡ count_in (left k p u) f.blocks)
      → count k q (on_blocks (replace never k p (code f.ret_type f.next)) bs)
        ≡ (if q == p then 0 else count k q f.blocks)
  count-in_place f p q bs same =
      let listed = IsListed-matches k q (omega arith) in
      let here : (k == k) ≡ true = ground arith in
      count_in-in_place f.ret_type f.next p (matches k q) bs listed
      ∙ same (matches k q) listed
      ∙ count_in-left k p k q f.blocks
      ∙ rw here refl

  pub IsStep-lower_in_place : IsStep k (others k) (lower_in_place k code) IsShaped
  unfolding lower_in_place
  IsStep-lower_in_place = record {
    advance = λ p f shaped there.
        let present : ltb 0 (count k p f.blocks) ≡ true = ground arith in
        rw present (
          _,
          refl,
          AllTerminated-on_blocks (replace never k p (code f.ret_type f.next)) f.blocks
              (is_terminated-replace never k p (code f.ret_type f.next) (fits f.ret_type f.next p))
              shaped,
          λ q. count-in_place f p q f.blocks (λ u l. refl),
          λ m q. others-in_place f p m q f.blocks (λ u l. refl) _ refl,
        );
  }

  pub IsStep-lower_pad : IsStep k (others k) (lower_pad k code) IsShaped
  unfolding lower_pad
  IsStep-lower_pad = record {
    advance = λ p f shaped there.
        let present : ltb 0 (count k p f.blocks) ≡ true = ground arith in
        let bs = on_blocks (insts_without p) f.blocks in
        let same : (u : Inst → Bool)
            → IsListed u
            → count_in (left k p u) bs ≡ count_in (left k p u) f.blocks =
          λ u l.
            count_in-on_blocks _ _ (insts_without p) f.blocks
              (count_by-insts_without (left k p u) p (IsStable-left k p u l.stable)) in
        rw present (
          _,
          refl,
          AllTerminated-on_blocks (replace never k p (code f.ret_type f.next)) bs
              (is_terminated-replace never k p (code f.ret_type f.next) (fits f.ret_type f.next p))
              (AllTerminated-on_blocks (insts_without p) f.blocks (is_terminated-insts_without p)
                shaped),
          λ q. count-in_place f p q bs same,
          λ m q. others-in_place f p m q bs same _ refl,
        );
  }
