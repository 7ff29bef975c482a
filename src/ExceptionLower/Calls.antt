-- ===== src/ExceptionLower/Calls.antt =====
-- `lowerCxaCall`: a call of the runtime is replaced, and after a throw the rest of its block is erased.
use saw_script.Base.{
  ℕ, ◌≡◌, ◌∙◌, refl, sym, ap, subst, inl, inr, arith, Bool, true, List, [], ◌∷◌, ◌++◌, ltb,
  Bool-cases, All,
}
use native.Mathlib.Decide.{ℕ_discrete}
use saw_script.ExceptionLower.Ir.{Inst, Block, Func, RetType, callee}
use saw_script.ExceptionLower.Emit.{classify_cxa_call, cxa_code, erases_trailing}
use saw_script.ExceptionLower.Edit.{
  cxa_calls, matches, count_by, count_in, count, replace, on_blocks, insts_without,
}
use saw_script.ExceptionLower.Lower.{
  throws, with_blocks, all_trailing, blocks_without, lower_cxa_call,
}
use saw_script.ExceptionLower.Counts.{
  count_by-le, Quiet, count_by-replace, count_in-blocks_without, count_by-insts_without,
  classify-op_without,
}
use saw_script.ExceptionLower.Steps.{
  IsPlain, is_cxa_invoke, left, count_in-left, count_in-left_cxa_invoke, IsListed, IsListed-matches,
  IsListed-cxa_invoke, IsPlain-listed, IsPlain-cxa_code, count_by-cxa_code, is_cxa-matches,
}
use saw_script.ExceptionLower.Phases.{IsStep}
use saw_script.ExceptionLower.Shape.{
  ++-nil_lem, is_terminated-replace, AllTerminated-on_blocks, AllTerminated-blocks_without,
}
use saw_script.ExceptionLower.Codes.{Fits-cxa_code}
use saw_script.ExceptionLower.Laws.{IsShaped, others}

-- Behind a call that throws, nothing is to be lowered: it is never reached.
abbrev pub IsSealed : List Inst → Type 0
IsSealed [] = Unit
IsSealed (x ∷ xs) = (throws x ≡ true → IsPlain xs) × IsSealed xs

abbrev pub AllSealed : List Block → Type 0
AllSealed bs = All (λ (b : Block). IsSealed b.insts) bs

IsSealed-Quiet :
    (t : Inst → Bool) (k p : ℕ) (xs : List Inst)
    → IsListed t
    → IsSealed xs
    → Quiet throws (left k p t) xs
IsSealed-Quiet t k p [] l s = tt
IsSealed-Quiet t k p (x ∷ xs) l s = (
  λ e.
      omega
        (arith, count_by-le (left k p t) t (λ y h. ground arith) xs, IsPlain-listed t xs l (s.0 e)),
  IsSealed-Quiet t k p xs l s.1,
)

IsSealed-append : (xs ys : List Inst) → count_by throws xs ≡ 0 → IsSealed ys → IsSealed (xs ++ ys)
unfolding count_by
IsSealed-append [] ys e s = s
IsSealed-append (x ∷ xs) ys e s =
    (λ h. absurd (ground arith), IsSealed-append xs ys (omega arith) s)

IsSealed-insts_without : (p : ℕ) (xs : List Inst) → IsSealed xs → IsSealed (insts_without p xs)
unfolding insts_without
IsSealed-insts_without p [] s = tt
IsSealed-insts_without p (x ∷ xs) s = (
  λ e j q above.
      let same = classify-op_without p x.op in
      let thrown : throws x ≡ true = ap erases_trailing (sym same) ∙ e in
      count_by-insts_without (matches j q) p (IsListed-matches j q above).stable xs
      ∙ s.0 thrown j q above,
  IsSealed-insts_without p xs s.1,
)

AllSealed-on_blocks :
    (h : List Inst → List Inst) (bs : List Block)
    → ((xs : List Inst) → IsSealed xs → IsSealed (h xs))
    → AllSealed bs
    → AllSealed (on_blocks h bs)
unfolding on_blocks
AllSealed-on_blocks h [] e all = all
AllSealed-on_blocks h (b ∷ bs) e all = (e b.insts all.0, AllSealed-on_blocks h bs e all.1)

AllSealed-blocks_without :
    (ps : List ℕ) (bs : List Block) → AllSealed bs → AllSealed (blocks_without ps bs)
unfolding blocks_without
AllSealed-blocks_without [] bs all = all
AllSealed-blocks_without (p ∷ ps) bs all =
    AllSealed-blocks_without ps (on_blocks (insts_without p) bs)
      (AllSealed-on_blocks (insts_without p) bs (IsSealed-insts_without p) all)

module _ (t : RetType) (n p : ℕ) where
  abbrev code : Inst → List Inst
  code x = cxa_code (classify_cxa_call (callee x.op)) t n x

  count_by-cut :
      (u : Inst → Bool) (xs : List Inst)
      → IsListed u
      → IsSealed xs
      → count_by u (replace throws cxa_calls p code xs) ≡ count_by (left cxa_calls p u) xs
  count_by-cut u xs l s =
      count_by-replace throws u (left cxa_calls p u) cxa_calls p code
        (λ x e.
          let nothing =
            IsPlain-listed u (code x) l
              (IsPlain-cxa_code (classify_cxa_call (callee x.op)) t n x (is_cxa-matches p x e)) in
          rw (e, nothing) (ground arith))
        (λ x e. rw e (ground arith)) xs (IsSealed-Quiet u cxa_calls p xs l s)

  IsSealed-cut : (xs : List Inst) → IsSealed xs → IsSealed (replace throws cxa_calls p code xs)
  unfolding replace
  IsSealed-cut [] s = tt
  IsSealed-cut (x ∷ xs) s =
      let rest = IsSealed-cut xs s.1 in
      elim (Bool-cases (matches cxa_calls p x)) [
        | inl hit ↦
            let silent =
              count_by-cxa_code (classify_cxa_call (callee x.op)) t n x (is_cxa-matches p x hit) in
            elim (Bool-cases (throws x)) [
              | inl e ↦ rw (hit, e) (all_silent (code x) silent)
              | inr e ↦
                  rw (hit, e)
                    (IsSealed-append (code x) (replace throws cxa_calls p code xs) silent rest)
            ]
        | inr miss ↦ rw miss (
          λ e j q above.
              let listed = IsListed-matches j q above in
              omega (
                arith,
                count_by-cut (matches j q) xs listed s.1,
                count_by-le (left cxa_calls p (matches j q)) (matches j q) (λ y h. ground arith) xs,
                s.0 e j q above,
              ),
          rest,
        )
      ]
    where
      all_silent : (ys : List Inst) → count_by throws ys ≡ 0 → IsSealed ys
      all_silent ys e = subst IsSealed (++-nil_lem ys) (IsSealed-append ys [] e tt)

  count_in-cut :
      (u : Inst → Bool) (bs : List Block)
      → IsListed u
      → AllSealed bs
      → count_in u (on_blocks (replace throws cxa_calls p code) bs)
        ≡ count_in (left cxa_calls p u) bs
  unfolding count_in on_blocks
  count_in-cut u [] l s = refl
  count_in-cut u (b ∷ bs) l s = omega (arith, count_by-cut u b.insts l s.0, count_in-cut u bs l s.1)

abbrev cut_blocks : ℕ → Func → List Block
cut_blocks p f = on_blocks (replace throws cxa_calls p (code f.ret_type f.next p)) f.blocks

abbrev lowered : ℕ → Func → List Block
lowered p f = blocks_without (all_trailing p f.blocks) (cut_blocks p f)

count_in-lowered :
    (p : ℕ) (f : Func) (u : Inst → Bool)
    → IsListed u
    → AllSealed f.blocks
    → count_in u (lowered p f) ≡ count_in (left cxa_calls p u) f.blocks
count_in-lowered p f u l s =
    count_in-blocks_without u (all_trailing p f.blocks) (cut_blocks p f) l.stable
    ∙ count_in-cut f.ret_type f.next p u f.blocks l s

-- The invariant of the first loop.
abbrev pub IsReadable : Func → Type 0
IsReadable f = IsShaped f × AllSealed f.blocks

pub IsStep-lower_cxa_call : IsStep cxa_calls (others cxa_calls) lower_cxa_call IsReadable
unfolding lower_cxa_call others
IsStep-lower_cxa_call = record {
  advance = λ p f inv there.
      let present : ltb 0 (count cxa_calls p f.blocks) ≡ true = ground arith in
      rw present (
        with_blocks f (lowered p f),
        refl,
        (
          AllTerminated-blocks_without (all_trailing p f.blocks) (cut_blocks p f) (
              AllTerminated-on_blocks _ f.blocks
                (is_terminated-replace throws cxa_calls p (code f.ret_type f.next p)
                  (Fits-cxa_code f.ret_type f.next p))
                inv.0),
          AllSealed-blocks_without (all_trailing p f.blocks) (cut_blocks p f)
              (AllSealed-on_blocks _ f.blocks (IsSealed-cut f.ret_type f.next p) inv.1),
        ),
        λ q.
            count_in-lowered p f (matches cxa_calls q) (IsListed-matches cxa_calls q (omega arith))
              inv.1
            ∙ count_in-left cxa_calls p cxa_calls q f.blocks,
        λ m q. elim (ℕ_discrete m 0) [
          | yes z ↦ rw z (
              count_in-lowered p f (is_cxa_invoke q) (IsListed-cxa_invoke q) inv.1
              ∙ count_in-left_cxa_invoke cxa_calls p q f.blocks (omega arith))
          | no nz ↦ elim (ℕ_discrete m cxa_calls) [
            | yes z ↦ ground arith
            | no nk ↦ ground (
              arith,
              count_in-lowered p f (matches m q) (IsListed-matches m q (omega arith)) inv.1,
              count_in-left cxa_calls p m q f.blocks,
            )
          ]
        ],
      );
}
