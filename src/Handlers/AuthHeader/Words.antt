-- ===== src/Handlers/AuthHeader/Words.antt =====
-- The words of a text: what an authorization header is split into.
use saw_script.Base.{
  ℕ, suc, ◌≡◌, ◌∙◌, refl, sym, ap, ap₂, arith, List, [], ◌∷◌, take, drop, length, inl, inr,
  if◌then◌else◌, ◌==◌, Bool-cases, ◌≤◌, true, false,
}

-- The word that a text begins with, which may be empty, and the other words.
pub record Cut : Type 0 where
  pub first : List ℕ
  pub others : List (List ℕ)

abbrev pub close : List ℕ → List (List ℕ) → List (List ℕ)
close [] others = others
close (c ∷ first) others = (c ∷ first) ∷ others

unfoldable pub cut : List ℕ → Cut
cut [] = record { first = []; others = [] }
cut (c ∷ text) =
    let rest = cut text in
    if c == 32
    then record { first = []; others = close rest.first rest.others }
    else record { first = c ∷ rest.first; others = rest.others }

-- The longest parts without a space, in order.
unfoldable pub words : List ℕ → List (List ℕ)
words text = let whole = cut text in close whole.first whole.others

-- The number of spaces, and of other bytes, that a text begins with.
unfoldable pub gap : List ℕ → ℕ
gap [] = 0
gap (c ∷ text) = let rest = suc (gap text) in if c == 32 then rest else 0

unfoldable pub run : List ℕ → ℕ
run [] = 0
run (c ∷ text) = let rest = suc (run text) in if c == 32 then 0 else rest

pub gap-le : (text : List ℕ) → gap text ≤ length text
unfolding gap
gap-le [] = omega arith
gap-le (c ∷ text) = elim (Bool-cases (c == 32)) [
  | inl e ↦ rw e (omega (arith, gap-le text))
  | inr e ↦ rw e (omega arith)
]

pub run-le : (text : List ℕ) → run text ≤ length text
unfolding run
run-le [] = omega arith
run-le (c ∷ text) = elim (Bool-cases (c == 32)) [
  | inl e ↦ rw e (omega arith)
  | inr e ↦ rw e (omega (arith, run-le text))
]

-- One byte of a text, which is a space or is none.
module _ (c : ℕ) (text : List ℕ) (space : (c == 32) ≡ true) where
  gap_space : gap (c ∷ text) ≡ suc (gap text)
  unfolding gap
  gap_space = rw space refl

  run_space : run (c ∷ text) ≡ 0
  unfolding run
  run_space = rw space refl

  first_space : (cut (c ∷ text)).first ≡ []
  unfolding cut
  first_space = rw space refl

  others_space : (cut (c ∷ text)).others ≡ words text
  unfolding cut words
  others_space = rw space refl

  words_space : words (c ∷ text) ≡ words text
  unfolding words
  words_space = ap₂ close first_space others_space

module _ (c : ℕ) (text : List ℕ) (other : (c == 32) ≡ false) where
  gap_other : gap (c ∷ text) ≡ 0
  unfolding gap
  gap_other = rw other refl

  run_other : run (c ∷ text) ≡ suc (run text)
  unfolding run
  run_other = rw other refl

  first_other : (cut (c ∷ text)).first ≡ c ∷ (cut text).first
  unfolding cut
  first_other = rw other refl

  others_other : (cut (c ∷ text)).others ≡ (cut text).others
  unfolding cut
  others_other = rw other refl

words-gap_nil : words (drop (gap []) []) ≡ words []
unfolding gap
words-gap_nil = refl

other_words_nil : (cut []).others ≡ words (drop (run []) [])
unfolding words cut run
other_words_nil = refl

-- Leading spaces do not matter.
pub words-gap : (text : List ℕ) → words (drop (gap text) text) ≡ words text
words-gap [] = words-gap_nil
words-gap (c ∷ text) = elim (Bool-cases (c == 32)) [
  | inl e ↦ rw (gap_space c text e, words_space c text e) (words-gap text)
  | inr e ↦ rw (gap_other c text e) refl
]

first_word : (text : List ℕ) → (cut text).first ≡ take (run text) text
unfolding cut run
first_word [] = refl
first_word (c ∷ text) = elim (Bool-cases (c == 32)) [
  | inl e ↦ rw e refl
  | inr e ↦ rw e (ap (λ t. c ∷ t) (first_word text))
]

other_words : (text : List ℕ) → (cut text).others ≡ words (drop (run text) text)
other_words [] = other_words_nil
other_words (c ∷ text) = elim (Bool-cases (c == 32)) [
  | inl e ↦ rw (run_space c text e) (others_space c text e ∙ sym (words_space c text e))
  | inr e ↦ rw (run_other c text e) (others_other c text e ∙ other_words text)
]

-- A text that begins with a byte that is no space begins with a word.
pub words-run :
    (c : ℕ) (text : List ℕ)
    → (c == 32) ≡ false
    → words (c ∷ text) ≡ take (run (c ∷ text)) (c ∷ text) ∷ words (drop (run (c ∷ text)) (c ∷ text))
unfolding words
words-run c text e = rw (run_other c text e) (
    ap₂ close (first_other c text e ∙ ap (λ t. c ∷ t) (first_word text))
      (others_other c text e ∙ other_words text))

-- Behind the leading spaces there is no space.
pub gap-gap : (text : List ℕ) → gap (drop (gap text) text) ≡ 0
unfolding gap
gap-gap [] = refl
gap-gap (c ∷ text) = elim (Bool-cases (c == 32)) [
  | inl e ↦ rw e (gap-gap text)
  | inr e ↦ rw e (gap_other c text e)
]

pub gap-pos : (c : ℕ) (text : List ℕ) → gap (c ∷ text) ≡ 0 → (c == 32) ≡ false
gap-pos c text h = elim (Bool-cases (c == 32)) [
  | inl e ↦ absurd (omega (arith, gap_space c text e))
  | inr e ↦ e
]

pub words-nil : words [] ≡ []
unfolding words cut
words-nil = refl
