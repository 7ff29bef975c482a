-- ===== src/ExceptionLower/Counts.antt =====
-- How many instructions pass a test before and after the edits of the pass.
use saw_script.Base.{
  ℕ, ◌+◌, ◌≤◌, ◌≡◌, ◌∙◌, refl, inl, inr, arith, Bool, true, false, List, [], ◌∷◌, ◌++◌,
  if◌then◌else◌, ◌==◌, Bool-cases, none, some,
}
use saw_script.ExceptionLower.Ir.{Op, Callee, Inst, Block, callee, is_landing_pad}
use saw_script.ExceptionLower.Emit.{classify_cxa_call, landing_pad_code}
use saw_script.ExceptionLower.Edit.{
  list_of, matches, count_by, count_in, replace, on_blocks, op_without, callee_without,
  insts_without,
}
use saw_script.ExceptionLower.Lower.{insert_before, lower_front, lower_landing_pad, blocks_without}

pub count_by-append :
    (t : Inst → Bool) (xs ys : List Inst) → count_by t (xs ++ ys) ≡ count_by t xs + count_by t ys
unfolding count_by
count_by-append t [] ys = omega arith
count_by-append t (x ∷ xs) ys = omega (arith, count_by-append t xs ys)

pub count_by-le :
    (t u : Inst → Bool)
    → ((x : Inst) → t x ≡ true → u x ≡ true)
    → (xs : List Inst) → count_by t xs ≤ count_by u xs
unfolding count_by
count_by-le t u h [] = omega arith
count_by-le t u h (x ∷ xs) = elim (Bool-cases (t x)) [
  | inl e ↦ rw (e, h x e) (omega (arith, count_by-le t u h xs))
  | inr e ↦ rw e (omega (arith, count_by-le t u h xs))
]

pub count_in-le :
    (t u : Inst → Bool)
    → ((x : Inst) → t x ≡ true → u x ≡ true)
    → (bs : List Block) → count_in t bs ≤ count_in u bs
unfolding count_in
count_in-le t u h [] = omega arith
count_in-le t u h (b ∷ bs) = omega (arith, count_by-le t u h b.insts, count_in-le t u h bs)

-- Nothing that passes the test `u` follows an instruction that passes `stop`.
abbrev pub Quiet : (Inst → Bool) → (Inst → Bool) → List Inst → Type 0
Quiet stop u [] = Unit
Quiet stop u (x ∷ xs) = (stop x ≡ true → count_by u xs ≡ 0) × Quiet stop u xs

-- `t` after the replacement counts what `u` counts before it.
pub count_by-replace :
    (stop t u : Inst → Bool) (k p : ℕ) (code : Inst → List Inst)
    → ((x : Inst) → matches k p x ≡ true → count_by t (code x) ≡ (if u x then 1 else 0))
    → ((x : Inst) → matches k p x ≡ false → t x ≡ u x)
    → (xs : List Inst) → Quiet stop u xs
    → count_by t (replace stop k p code xs) ≡ count_by u xs
unfolding count_by replace
count_by-replace stop t u k p code on off [] quiet = refl
count_by-replace stop t u k p code on off (x ∷ xs) quiet =
    let rest = count_by-replace stop t u k p code on off xs quiet.1 in
    elim (Bool-cases (matches k p x)) [
      | inl hit ↦ elim (Bool-cases (stop x)) [
        | inl s ↦ rw (hit, s) (omega (arith, on x hit, quiet.0 s))
        | inr s ↦
            rw (hit, s, count_by-append t (code x) (replace stop k p code xs))
              (omega (arith, on x hit, rest))
      ]
      | inr miss ↦ rw (miss, off x miss) (omega (arith, rest))
    ]

-- An edit of every block.
pub count_in-on_blocks :
    (t u : Inst → Bool) (h : List Inst → List Inst) (bs : List Block)
    → ((xs : List Inst) → count_by t (h xs) ≡ count_by u xs)
    → count_in t (on_blocks h bs) ≡ count_in u bs
unfolding count_in on_blocks
count_in-on_blocks t u h [] e = refl
count_in-on_blocks t u h (b ∷ bs) e = omega (arith, e b.insts, count_in-on_blocks t u h bs e)

pub list_of-op_without : (p : ℕ) (op : Op) → list_of (op_without p op) ≡ list_of op
unfolding list_of op_without classify_cxa_call callee_without
list_of-op_without p (Op.call (Callee.named n) args s) = refl
list_of-op_without p (Op.call (Callee.indirect v) args s) = refl
list_of-op_without p (Op.ret (some v)) = refl
list_of-op_without p (Op.ret none) = refl
list_of-op_without p _ = refl

pub classify-op_without :
    (p : ℕ) (op : Op) → classify_cxa_call (callee (op_without p op)) ≡ classify_cxa_call (callee op)
unfolding op_without classify_cxa_call callee_without
classify-op_without p (Op.call (Callee.named n) args s) = refl
classify-op_without p (Op.call (Callee.indirect v) args s) = refl
classify-op_without p (Op.invoke (Callee.named n) args s m u) = refl
classify-op_without p (Op.invoke (Callee.indirect v) args s m u) = refl
classify-op_without p (Op.ret (some v)) = refl
classify-op_without p (Op.ret none) = refl
classify-op_without p _ = refl

-- A test that only looks at the identity, the list and the callee's class.
abbrev pub IsStable : (Inst → Bool) → Type 0
IsStable t = (p : ℕ) (x : Inst) → t (record x { op = op_without p x.op }) ≡ t x

pub count_by-insts_without :
    (t : Inst → Bool) (p : ℕ)
    → IsStable t
    → (xs : List Inst) → count_by t (insts_without p xs) ≡ count_by t xs
unfolding count_by insts_without
count_by-insts_without t p h [] = refl
count_by-insts_without t p h (x ∷ xs) = rw (h p x) (omega (arith, count_by-insts_without t p h xs))

pub count_in-blocks_without :
    (t : Inst → Bool) (ps : List ℕ) (bs : List Block)
    → IsStable t
    → count_in t (blocks_without ps bs) ≡ count_in t bs
unfolding blocks_without
count_in-blocks_without t [] bs h = refl
count_in-blocks_without t (p ∷ ps) bs h =
    count_in-blocks_without t ps (on_blocks (insts_without p) bs) h
    ∙ count_in-on_blocks t t (insts_without p) bs (count_by-insts_without t p h)

-- The new block has nothing to lower, and neither has a lowered landing pad.
pub count_in-insert_before :
    (t : Inst → Bool) (label : ℕ) (new : Block) (bs : List Block)
    → count_by t new.insts ≡ 0
    → count_in t (insert_before label new bs) ≡ count_in t bs
unfolding count_in insert_before
count_in-insert_before t label new [] h = omega (arith, h)
count_in-insert_before t label new (b ∷ bs) h = elim (Bool-cases (b.label == label)) [
  | inl e ↦ rw e (omega (arith, h))
  | inr e ↦ rw e (omega (arith, count_in-insert_before t label new bs h))
]

module _ (t : Inst → Bool) (n : ℕ)
    (pad : (x : Inst)
      → is_landing_pad x.op ≡ true
      → (t x ≡ false) × (count_by t (landing_pad_code n x) ≡ 0)) where
  count_by-lower_front : (xs : List Inst) → count_by t (lower_front n xs) ≡ count_by t xs
  unfolding count_by lower_front
  count_by-lower_front [] = refl
  count_by-lower_front (x ∷ xs) = elim (Bool-cases (is_landing_pad x.op)) [
    | inl e ↦ rw (e, count_by-append t (landing_pad_code n x) xs, (pad x e).1, (pad x e).0) refl
    | inr e ↦ rw e refl
  ]

  pub count_in-lower_landing_pad :
      (label : ℕ) (bs : List Block) → count_in t (lower_landing_pad n label bs) ≡ count_in t bs
  unfolding count_in lower_landing_pad
  count_in-lower_landing_pad label [] = refl
  count_in-lower_landing_pad label (b ∷ bs) = elim (Bool-cases (b.label == label)) [
    | inl e ↦ rw e (omega (arith, count_by-lower_front b.insts))
    | inr e ↦ rw e (omega (arith, count_in-lower_landing_pad label bs))
  ]
