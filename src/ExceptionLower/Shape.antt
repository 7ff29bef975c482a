-- ===== src/ExceptionLower/Shape.antt =====
-- Every block ends in its only terminator, before and after the edits of the pass.
use saw_script.Base.{
  ℕ, ◌≡◌, ◌∙◌, refl, ap, inl, inr, arith, Bool, true, false, not, ◌&&◌, List, [], ◌∷◌, ◌++◌, ◌==◌,
  Bool-cases, none, some, All,
}
use saw_script.ExceptionLower.Ir.{Op, Inst, Block, is_landing_pad, is_terminator}
use saw_script.ExceptionLower.Emit.{landing_pad_code}
use saw_script.ExceptionLower.Edit.{matches, replace, on_blocks, op_without, insts_without}
use saw_script.ExceptionLower.Lower.{insert_before, lower_front, lower_landing_pad, blocks_without}

-- No terminator is in the list.
unfoldable pub is_straight : List Inst → Bool
is_straight [] = true
is_straight (x ∷ xs) = not (is_terminator x.op) && is_straight xs

unfoldable pub is_terminated : List Inst → Bool
is_terminated [] = false
is_terminated (x ∷ []) = is_terminator x.op
is_terminated (x ∷ y ∷ xs) = not (is_terminator x.op) && is_terminated (y ∷ xs)

abbrev pub AllTerminated : List Block → Type 0
AllTerminated bs = All (λ (b : Block). is_terminated b.insts ≡ true) bs

-- An instruction in front.
is_terminated-cons :
    (x : Inst) (xs : List Inst)
    → is_terminator x.op ≡ false
    → is_terminated xs ≡ true
    → is_terminated (x ∷ xs) ≡ true
unfolding is_terminated
is_terminated-cons x [] e h = absurd (cc)
is_terminated-cons x (y ∷ xs) e h = rw e h

is_terminated-append :
    (xs ys : List Inst)
    → is_straight xs ≡ true
    → is_terminated ys ≡ true
    → is_terminated (xs ++ ys) ≡ true
unfolding is_straight
is_terminated-append [] ys e h = h
is_terminated-append (x ∷ xs) ys e h =
    is_terminated-cons x (xs ++ ys) (ground arith) (is_terminated-append xs ys (ground arith) h)

-- What has to be said of the code for an instruction.
pub record Fits (stop : Inst → Bool) (k p : ℕ) (code : Inst → List Inst) : Type 0 where
  pub cuts : (x : Inst) → matches k p x ≡ true → stop x ≡ true → is_terminated (code x) ≡ true
  pub last :
      (x : Inst) → matches k p x ≡ true → is_terminator x.op ≡ true → is_terminated (code x) ≡ true
  pub inner :
      (x : Inst)
      → matches k p x ≡ true
      → stop x ≡ false
      → is_terminator x.op ≡ false
      → is_straight (code x) ≡ true

pub ++-nil_lem : (xs : List Inst) → xs ++ [] ≡ xs
++-nil_lem [] = refl
++-nil_lem (x ∷ xs) = ap (λ t. x ∷ t) (++-nil_lem xs)

pub is_terminated-replace :
    (stop : Inst → Bool) (k p : ℕ) (code : Inst → List Inst)
    → Fits stop k p code
    → (xs : List Inst) → is_terminated xs ≡ true
    → is_terminated (replace stop k p code xs) ≡ true
unfolding is_terminated replace
is_terminated-replace stop k p code fits [] h = h
is_terminated-replace stop k p code fits (x ∷ []) h = elim (Bool-cases (matches k p x)) [
  | inl hit ↦ elim (Bool-cases (stop x)) [
    | inl s ↦ rw (hit, s) (fits.cuts x hit s)
    | inr s ↦ rw (hit, s, ++-nil_lem (code x)) (fits.last x hit h)
  ]
  | inr miss ↦ rw miss h
]
is_terminated-replace stop k p code fits (x ∷ y ∷ xs) h =
    let rest = is_terminated-replace stop k p code fits (y ∷ xs) (ground arith) in
    let straight : is_terminator x.op ≡ false = ground arith in
    elim (Bool-cases (matches k p x)) [
      | inl hit ↦ elim (Bool-cases (stop x)) [
        | inl s ↦ rw (hit, s) (fits.cuts x hit s)
        | inr s ↦
            rw (hit, s)
              (is_terminated-append (code x) (replace stop k p code (y ∷ xs))
                (fits.inner x hit s straight) rest)
      ]
      | inr miss ↦ rw miss (is_terminated-cons x (replace stop k p code (y ∷ xs)) straight rest)
    ]

pub AllTerminated-on_blocks :
    (h : List Inst → List Inst) (bs : List Block)
    → ((xs : List Inst) → is_terminated xs ≡ true → is_terminated (h xs) ≡ true)
    → AllTerminated bs
    → AllTerminated (on_blocks h bs)
unfolding on_blocks
AllTerminated-on_blocks h [] e all = all
AllTerminated-on_blocks h (b ∷ bs) e all = (e b.insts all.0, AllTerminated-on_blocks h bs e all.1)

is_terminator-op_without : (p : ℕ) (op : Op) → is_terminator (op_without p op) ≡ is_terminator op
unfolding op_without
is_terminator-op_without p (Op.ret (some v)) = refl
is_terminator-op_without p (Op.ret none) = refl
is_terminator-op_without p _ = refl

pub is_terminated-insts_without :
    (p : ℕ) (xs : List Inst) → is_terminated xs ≡ true → is_terminated (insts_without p xs) ≡ true
unfolding is_terminated insts_without
is_terminated-insts_without p [] h = h
is_terminated-insts_without p (x ∷ []) h = is_terminator-op_without p x.op ∙ h
is_terminated-insts_without p (x ∷ y ∷ xs) h =
    rw (is_terminator-op_without p x.op)
      (let rest = is_terminated-insts_without p (y ∷ xs) (ground arith) in ground arith)

pub AllTerminated-blocks_without :
    (ps : List ℕ) (bs : List Block) → AllTerminated bs → AllTerminated (blocks_without ps bs)
unfolding blocks_without
AllTerminated-blocks_without [] bs all = all
AllTerminated-blocks_without (p ∷ ps) bs all =
    AllTerminated-blocks_without ps (on_blocks (insts_without p) bs)
      (AllTerminated-on_blocks (insts_without p) bs (is_terminated-insts_without p) all)

pub AllTerminated-insert_before :
    (label : ℕ) (new : Block) (bs : List Block)
    → is_terminated new.insts ≡ true
    → AllTerminated bs
    → AllTerminated (insert_before label new bs)
unfolding insert_before
AllTerminated-insert_before label new [] h all = (h, all)
AllTerminated-insert_before label new (b ∷ bs) h all = elim (Bool-cases (b.label == label)) [
  | inl e ↦ rw e (h, all)
  | inr e ↦ rw e (all.0, AllTerminated-insert_before label new bs h all.1)
]

is_landing_pad-is_terminator : (op : Op) → is_landing_pad op ≡ true → is_terminator op ≡ false
is_landing_pad-is_terminator (Op.landing_pad c) h = refl
is_landing_pad-is_terminator _ h = absurd (cc)

is_terminated-lower_front :
    (n : ℕ) (xs : List Inst) → is_terminated xs ≡ true → is_terminated (lower_front n xs) ≡ true
unfolding lower_front is_terminated landing_pad_code
is_terminated-lower_front n [] h = h
is_terminated-lower_front n (x ∷ []) h = elim (Bool-cases (is_landing_pad x.op)) [
  | inl e ↦ let no = is_landing_pad-is_terminator x.op e in absurd (cc)
  | inr e ↦ rw e h
]
is_terminated-lower_front n (x ∷ y ∷ xs) h = elim (Bool-cases (is_landing_pad x.op)) [
  | inl e ↦ rw e (ground arith)
  | inr e ↦ rw e h
]

pub AllTerminated-lower_landing_pad :
    (n label : ℕ) (bs : List Block)
    → AllTerminated bs
    → AllTerminated (lower_landing_pad n label bs)
unfolding lower_landing_pad
AllTerminated-lower_landing_pad n label [] all = all
AllTerminated-lower_landing_pad n label (b ∷ bs) all = elim (Bool-cases (b.label == label)) [
  | inl e ↦ rw e (is_terminated-lower_front n b.insts all.0, all.1)
  | inr e ↦ rw e (all.0, AllTerminated-lower_landing_pad n label bs all.1)
]
