-- ===== src/ExceptionLower/Steps.antt =====
-- What one step of the pass removes, and what it leaves.
use saw_script.Base.{
  ℕ, ◌<◌, ◌≡◌, ◌≢◌, ◌∙◌, refl, ap, ap₂, inl, inr, arith, Bool, true, false, not, ◌&&◌, List, [],
  ◌∷◌, if◌then◌else◌, ◌==◌, Bool-cases, none, some, Option,
}
use saw_script.ExceptionLower.Ir.{Op, Inst, Block, RetType, callee, handlers, unwind_dest}
use saw_script.ExceptionLower.Emit.{
  CxaRuntime, classify_cxa_call, cxa_code, emit_error_return, landing_pad_code, check_block,
  erases_trailing, catch_return_code, unwind_code, switch_code, cleanup_return_code, catch_pad_code,
  cleanup_pad_code, catch_switch_code, resume_code,
}
use saw_script.ExceptionLower.Edit.{
  cxa_calls, invokes, is_cxa, list_of, matches, count_by, count_in, count,
}
use saw_script.ExceptionLower.Lower.{throws}
use saw_script.ExceptionLower.Counts.{
  count_by-le, IsStable, list_of-op_without, classify-op_without,
}

-- No instruction is on a list.
abbrev pub IsPlain : List Inst → Type 0
IsPlain xs = (j q : ℕ) → 0 < j → count_by (matches j q) xs ≡ 0

-- An invoke of a function of the C++ runtime.
abbrev pub is_cxa_invoke : ℕ → Inst → Bool
is_cxa_invoke q x = matches invokes q x && is_cxa (classify_cxa_call (callee x.op))

pub count_by-cong :
    (t u : Inst → Bool)
    → ((x : Inst) → t x ≡ u x)
    → (xs : List Inst) → count_by t xs ≡ count_by u xs
unfolding count_by
count_by-cong t u h [] = refl
count_by-cong t u h (x ∷ xs) = rw (h x) (omega (arith, count_by-cong t u h xs))

pub count_in-cong :
    (t u : Inst → Bool)
    → ((x : Inst) → t x ≡ u x)
    → (bs : List Block) → count_in t bs ≡ count_in u bs
unfolding count_in
count_in-cong t u h [] = refl
count_in-cong t u h (b ∷ bs) = omega (arith, count_by-cong t u h b.insts, count_in-cong t u h bs)

count_by-none : (xs : List Inst) → count_by (λ x. false) xs ≡ 0
unfolding count_by
count_by-none [] = refl
count_by-none (x ∷ xs) = omega (arith, count_by-none xs)

count_in-none : (bs : List Block) → count_in (λ x. false) bs ≡ 0
unfolding count_in
count_in-none [] = refl
count_in-none (b ∷ bs) = omega (arith, count_by-none b.insts, count_in-none bs)

-- The instructions that pass `t`, without the one that is replaced.
abbrev pub left : ℕ → ℕ → (Inst → Bool) → Inst → Bool
left k p t x = t x && not (matches k p x)

pub count_in-left :
    (k p j q : ℕ) (bs : List Block)
    → count_in (left k p (matches j q)) bs ≡ (if (j == k) && (q == p) then 0 else count j q bs)
count_in-left k p j q bs = elim (Bool-cases ((j == k) && (q == p))) [
  | inl e ↦ rw e (count_in-cong _ (λ x. false) (λ x. ground arith) bs ∙ count_in-none bs)
  | inr e ↦ rw e (count_in-cong _ (matches j q) (λ x. ground arith) bs)
]

pub count_in-left_cxa_invoke :
    (k p q : ℕ) (bs : List Block)
    → k ≢ invokes
    → count_in (left k p (is_cxa_invoke q)) bs ≡ count_in (is_cxa_invoke q) bs
count_in-left_cxa_invoke k p q bs h = count_in-cong _ (is_cxa_invoke q) (λ x. ground arith) bs

IsStable-matches : (j q : ℕ) → IsStable (matches j q)
IsStable-matches j q p x = rw (list_of-op_without p x.op) refl

pub IsStable-left : (k p : ℕ) (t : Inst → Bool) → IsStable t → IsStable (left k p t)
IsStable-left k p t h r x = ap₂ ◌&&◌ (h r x) (ap not (IsStable-matches k p r x))

IsStable-cxa_invoke : (q : ℕ) → IsStable (is_cxa_invoke q)
IsStable-cxa_invoke q p x = rw (list_of-op_without p x.op, classify-op_without p x.op) refl

-- A test that only passes what is on some list.
pub record IsListed (t : Inst → Bool) : Type 0 where
  pub list : ℕ
  pub identity : ℕ
  pub above : 0 < list
  pub listed : (x : Inst) → t x ≡ true → matches list identity x ≡ true
  pub stable : IsStable t

pub IsListed-matches : (j q : ℕ) → 0 < j → IsListed (matches j q)
IsListed-matches j q h = record {
  list = j;
  identity = q;
  above = h;
  listed = λ x e. e;
  stable = IsStable-matches j q;
}

pub IsListed-cxa_invoke : (q : ℕ) → IsListed (is_cxa_invoke q)
IsListed-cxa_invoke q = record {
  list = invokes;
  identity = q;
  above = omega arith;
  listed = λ x e. ground arith;
  stable = IsStable-cxa_invoke q;
}

pub IsPlain-listed :
    (t : Inst → Bool) (xs : List Inst) → IsListed t → IsPlain xs → count_by t xs ≡ 0
IsPlain-listed t xs l h =
    omega
      (arith, count_by-le t (matches l.list l.identity) l.listed xs, h l.list l.identity l.above)

-- The code for each construct has nothing to lower.
module _ (t : RetType) (n : ℕ) (x : Inst) where
  pub IsPlain-emit_error_return : IsPlain (emit_error_return t n)
  unfolding emit_error_return count_by list_of
  IsPlain-emit_error_return j q h = ground arith

  pub IsPlain-landing_pad_code : IsPlain (landing_pad_code n x)
  unfolding landing_pad_code count_by list_of
  IsPlain-landing_pad_code j q h = ground arith

  pub IsPlain-resume_code : IsPlain (resume_code t n x)
  unfolding resume_code
  IsPlain-resume_code = IsPlain-emit_error_return

  pub IsPlain-catch_return_code : IsPlain (catch_return_code t n x)
  unfolding catch_return_code count_by list_of
  IsPlain-catch_return_code j q h = ground arith

  IsPlain-unwind_code : (to : Option ℕ) → IsPlain (unwind_code t n to)
  unfolding unwind_code count_by list_of
  IsPlain-unwind_code (some label) j q h = ground arith
  IsPlain-unwind_code none j q h = IsPlain-emit_error_return j q h

  pub IsPlain-cleanup_return_code : IsPlain (cleanup_return_code t n x)
  unfolding cleanup_return_code
  IsPlain-cleanup_return_code = IsPlain-unwind_code (unwind_dest x.op)

  pub IsPlain-catch_pad_code : IsPlain (catch_pad_code t n x)
  unfolding catch_pad_code count_by list_of
  IsPlain-catch_pad_code j q h = ground arith

  pub IsPlain-cleanup_pad_code : IsPlain (cleanup_pad_code t n x)
  unfolding cleanup_pad_code count_by
  IsPlain-cleanup_pad_code j q h = refl

  IsPlain-switch_code : (hs : List ℕ) (to : Option ℕ) → IsPlain (switch_code t n hs to)
  unfolding switch_code count_by list_of
  IsPlain-switch_code (handler ∷ rest) to j q h = ground arith
  IsPlain-switch_code [] to j q h = IsPlain-unwind_code to j q h

  pub IsPlain-catch_switch_code : IsPlain (catch_switch_code t n x)
  unfolding catch_switch_code
  IsPlain-catch_switch_code = IsPlain-switch_code (handlers x.op) (unwind_dest x.op)

  pub IsPlain-check_block : (op : Op) → IsPlain (check_block n op).insts
  unfolding check_block count_by list_of
  IsPlain-check_block op j q h = ground arith

-- The code for a call of the runtime.
pub IsPlain-cxa_code :
    (r : CxaRuntime) (t : RetType) (n : ℕ) (x : Inst) → is_cxa r ≡ true → IsPlain (cxa_code r t n x)
unfolding cxa_code emit_error_return count_by list_of
IsPlain-cxa_code CxaRuntime.allocate_exception t n x e j q h = ground arith
IsPlain-cxa_code CxaRuntime.free_exception t n x e j q h = refl
IsPlain-cxa_code CxaRuntime.throw t n x e j q h = ground arith
IsPlain-cxa_code CxaRuntime.rethrow t n x e j q h = ground arith
IsPlain-cxa_code CxaRuntime.begin_catch t n x e j q h = ground arith
IsPlain-cxa_code CxaRuntime.end_catch t n x e j q h = refl
IsPlain-cxa_code CxaRuntime.nothing t n x e j q h = absurd (cc)

pub count_by-cxa_code :
    (r : CxaRuntime) (t : RetType) (n : ℕ) (x : Inst)
    → is_cxa r ≡ true
    → count_by throws (cxa_code r t n x) ≡ 0
unfolding cxa_code emit_error_return count_by classify_cxa_call erases_trailing
count_by-cxa_code CxaRuntime.allocate_exception t n x e = refl
count_by-cxa_code CxaRuntime.free_exception t n x e = refl
count_by-cxa_code CxaRuntime.throw t n x e = refl
count_by-cxa_code CxaRuntime.rethrow t n x e = refl
count_by-cxa_code CxaRuntime.begin_catch t n x e = refl
count_by-cxa_code CxaRuntime.end_catch t n x e = refl
count_by-cxa_code CxaRuntime.nothing t n x e = absurd (cc)

is_cxa-list_of : (op : Op) → list_of op ≡ cxa_calls → is_cxa (classify_cxa_call (callee op)) ≡ true
unfolding list_of
is_cxa-list_of (Op.call c args s) h = ground arith
is_cxa-list_of _ h = absurd (omega arith)

-- What is on the first list calls the runtime.
pub is_cxa-matches :
    (p : ℕ) (x : Inst)
    → matches cxa_calls p x ≡ true
    → is_cxa (classify_cxa_call (callee x.op)) ≡ true
is_cxa-matches p x e = is_cxa-list_of x.op (ground arith)
