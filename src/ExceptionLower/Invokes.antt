-- ===== src/ExceptionLower/Invokes.antt =====
-- `lowerInvoke`: an invoke becomes a call, and all else keeps its place on the lists.
use saw_script.Base.{
  ℕ, ◌+◌, ◌<◌, ◌≡◌, ◌∙◌, refl, inl, inr, arith, Bool, true, false, ◌&&◌, List, [], ◌∷◌,
  if◌then◌else◌, ◌==◌, ltb, leb, Bool-cases,
}
use native.Mathlib.Decide.{ℕ_discrete}
use saw_script.ExceptionLower.Ir.{
  Op, Inst, Block, Func, callee, is_landing_pad, normal_dest, invoke_unwind_dest,
}
use saw_script.ExceptionLower.Emit.{classify_cxa_call, invoke_code, check_block, landing_pad_code}
use saw_script.ExceptionLower.Edit.{
  cxa_calls, invokes, is_cxa, list_of, matches, count_by, count_in, count, find, replace, on_blocks,
}
use saw_script.ExceptionLower.Lower.{
  never, with_blocks, lower_invoke, insert_before, lower_landing_pad,
}
use saw_script.ExceptionLower.Counts.{
  count_by-le, count_by-replace, count_in-on_blocks, count_in-insert_before,
  count_in-lower_landing_pad,
}
use saw_script.ExceptionLower.Steps.{
  is_cxa_invoke, left, count_in-left, IsListed, IsListed-matches, IsListed-cxa_invoke,
  IsPlain-listed, IsPlain-landing_pad_code, IsPlain-check_block,
}
use saw_script.ExceptionLower.Phases.{IsStep}
use saw_script.ExceptionLower.Shape.{
  is_terminated, is_terminated-replace, AllTerminated-on_blocks, AllTerminated-insert_before,
  AllTerminated-lower_landing_pad,
}
use saw_script.ExceptionLower.Codes.{Fits-invoke_code}
use saw_script.ExceptionLower.Laws.{IsShaped, Quiet-never}

-- Calls and invokes of the C++ runtime together, and the lists behind the first two.
unfoldable pub runtime_uses : ℕ → ℕ → Func → ℕ
runtime_uses m q f =
    if m == 0
    then count cxa_calls q f.blocks + count_in (is_cxa_invoke q) f.blocks
    else if leb m invokes
    then 0
    else count m q f.blocks

-- The instructions that are calls of the runtime once the invoke `p` has become a call.
abbrev call_after : ℕ → ℕ → Inst → Bool
call_after p q x =
    if matches invokes p x
    then (q == p) && is_cxa (classify_cxa_call (callee x.op))
    else matches cxa_calls q x

list_of-landing_pad : (op : Op) → is_landing_pad op ≡ true → list_of op ≡ 0
unfolding list_of
list_of-landing_pad (Op.landing_pad c) h = refl
list_of-landing_pad _ h = absurd (cc)

count_by-invoke_code :
    (n j q : ℕ) (x : Inst) → cxa_calls < j → count_by (matches j q) (invoke_code n x) ≡ 0
unfolding invoke_code count_by list_of
count_by-invoke_code n j q x h = ground arith

count_by-invoke_call :
    (n p q : ℕ) (x : Inst)
    → matches invokes p x ≡ true
    → count_by (matches cxa_calls q) (invoke_code n x) ≡ (if call_after p q x then 1 else 0)
unfolding invoke_code count_by list_of
count_by-invoke_call n p q x e = elim (Bool-cases (is_cxa (classify_cxa_call (callee x.op)))) [
  | inl c ↦ rw (e, c) (ground arith)
  | inr c ↦ rw (e, c) (ground arith)
]

count_by-call_after : (p q n : ℕ) (op : Op) → count_by (call_after p q) (check_block n op).insts ≡ 0
unfolding count_by check_block list_of
count_by-call_after p q n op = ground arith

-- Sums of two counts, instruction by instruction.
count_by-sum :
    (t t' u u' : Inst → Bool)
    → ((x : Inst)
        → (if t x then 1 else 0) + (if t' x then 1 else 0)
          ≡ (if u x then 1 else 0) + (if u' x then 1 else 0))
    → (xs : List Inst) → count_by t xs + count_by t' xs ≡ count_by u xs + count_by u' xs
unfolding count_by
count_by-sum t t' u u' h [] = refl
count_by-sum t t' u u' h (x ∷ xs) = omega (arith, h x, count_by-sum t t' u u' h xs)

count_in-sum :
    (t t' u u' : Inst → Bool)
    → ((x : Inst)
        → (if t x then 1 else 0) + (if t' x then 1 else 0)
          ≡ (if u x then 1 else 0) + (if u' x then 1 else 0))
    → (bs : List Block) → count_in t bs + count_in t' bs ≡ count_in u bs + count_in u' bs
unfolding count_in
count_in-sum t t' u u' h [] = refl
count_in-sum t t' u u' h (b ∷ bs) =
    omega (arith, count_by-sum t t' u u' h b.insts, count_in-sum t t' u u' h bs)

module _ (p : ℕ) (f : Func) where
  abbrev n : ℕ
  n = f.next

  abbrev op : Op
  op = find invokes p f.blocks

  abbrev replaced : List Block
  replaced =
      on_blocks (replace never invokes p (invoke_code n))
        (insert_before (normal_dest op) (check_block n op) f.blocks)

  abbrev lowered : List Block
  lowered = lower_landing_pad (n + 4) (invoke_unwind_dest op) replaced

  count_in-lowered :
      (t u : Inst → Bool)
      → IsListed t
      → ((x : Inst)
          → matches invokes p x ≡ true
          → count_by t (invoke_code n x) ≡ (if u x then 1 else 0))
      → ((x : Inst) → matches invokes p x ≡ false → t x ≡ u x)
      → count_by u (check_block n op).insts ≡ 0
      → count_in t lowered ≡ count_in u f.blocks
  count_in-lowered t u l on off check =
      count_in-lower_landing_pad t (n + 4)
        (λ x e. (
          elim (Bool-cases (t x)) [
            | inl on_list ↦
                let is = l.listed x on_list in
                let zero_list = list_of-landing_pad x.op e in absurd (ground (arith, l.above))
            | inr off_list ↦ off_list
          ],
          IsPlain-listed t (landing_pad_code (n + 4) x) l
              (IsPlain-landing_pad_code f.ret_type (n + 4) x),
        ))
        (invoke_unwind_dest op) replaced
      ∙ count_in-on_blocks t u (replace never invokes p (invoke_code n))
          (insert_before (normal_dest op) (check_block n op) f.blocks)
          (λ xs. count_by-replace never t u invokes p (invoke_code n) on off xs (Quiet-never u xs))
      ∙ count_in-insert_before u (normal_dest op) (check_block n op) f.blocks check

  -- The lists behind the first.
  count_in-lowered-left :
      (t : Inst → Bool) (j i : ℕ)
      → IsListed t
      → cxa_calls < j
      → ((x : Inst) → t x ≡ true → matches j i x ≡ true)
      → count_in t lowered ≡ count_in (left invokes p t) f.blocks
  count_in-lowered-left t j i l above listed =
      count_in-lowered t (left invokes p t) l
        (λ x e.
          let nothing : count_by t (invoke_code n x) ≡ 0 = omega (
            arith,
            count_by-le t (matches j i) listed (invoke_code n x),
            count_by-invoke_code n j i x above,
          ) in
          rw (e, nothing) (ground arith))
        (λ x e. rw e (ground arith))
        (omega (
          arith,
          count_by-le (left invokes p t) t (λ x e. ground arith) (check_block n op).insts,
          IsPlain-listed t (check_block n op).insts l (IsPlain-check_block f.ret_type n x₀ op),
        ))
    where
      x₀ : Inst
      x₀ = record { at = 0; op = op }

  runtime_uses-lowered : (m q : ℕ) → runtime_uses m q (with_blocks f lowered) ≡ runtime_uses m q f
  unfolding runtime_uses
  runtime_uses-lowered m q = elim (ℕ_discrete m 0) [
    | yes z ↦
        let calls =
          count_in-lowered (matches cxa_calls q) (call_after p q)
            (IsListed-matches cxa_calls q (omega arith)) (λ x e. count_by-invoke_call n p q x e)
            (λ x e. rw e refl) (count_by-call_after p q n op) in
        let rest =
          count_in-lowered-left (is_cxa_invoke q) invokes q (IsListed-cxa_invoke q) (omega arith)
            (λ x e. ground arith) in
        let sum =
          count_in-sum (call_after p q) (left invokes p (is_cxa_invoke q)) (matches cxa_calls q)
            (is_cxa_invoke q) (λ x. ground arith) f.blocks in
        rw z (omega (arith, calls, rest, sum))
    | no nz ↦ elim (Bool-cases (leb m invokes)) [
      | inl low ↦ ground arith
      | inr high ↦ ground (
        arith,
        count_in-lowered-left (matches m q) m q (IsListed-matches m q (omega arith)) (ground arith)
            (λ x e. e),
        count_in-left invokes p m q f.blocks,
      )
    ]
  ]

ends : (n : ℕ) (o : Op) → is_terminated (check_block n o).insts ≡ true
unfolding check_block is_terminated
ends n o = refl

pub IsStep-lower_invoke : IsStep invokes runtime_uses lower_invoke IsShaped
unfolding lower_invoke
IsStep-lower_invoke = record {
  advance = λ p f shaped there.
      let present : ltb 0 (count invokes p f.blocks) ≡ true = ground arith in
      rw present (
        with_blocks f (lowered p f),
        refl,
        AllTerminated-lower_landing_pad (f.next + 4) (invoke_unwind_dest (find invokes p f.blocks))
            (replaced p f)
            (AllTerminated-on_blocks (replace never invokes p (invoke_code f.next)) _
              (is_terminated-replace never invokes p (invoke_code f.next)
                (Fits-invoke_code f.ret_type f.next p))
              (AllTerminated-insert_before (normal_dest (find invokes p f.blocks))
                (check_block f.next (find invokes p f.blocks)) f.blocks
                (ends f.next (find invokes p f.blocks)) shaped)),
        λ q.
            count_in-lowered-left p f (matches invokes q) invokes q
              (IsListed-matches invokes q (omega arith)) (omega arith) (λ x e. e)
            ∙ count_in-left invokes p invokes q f.blocks,
        runtime_uses-lowered p f,
      );
}
