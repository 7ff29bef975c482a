-- ===== src/Handlers/AuthHeader/Laws.antt =====
-- What parse_auth_header and validate_auth_scheme find: the words of the header.
use mathlib.Core.List.{map-append, append_assoc, append-nil}
use native.Mathlib.Nat.{suc-add}
use saw_script.Base.{
  ℕ, zero, suc, ◌+◌, ◌-◌, ◌≤◌, ◌<◌, ◌≡◌, ◌∙◌, refl, sym, ap, subst, arith, List, [], ◌∷◌, ◌++◌, map,
  take, drop, length, get_or, set, inl, inr, ◌==◌, ltb, Bool-cases, true, false, length-set,
  length-drop, All,
}
use saw_script.Base.Slices.{take-set}
use saw_script.Handlers.AuthHeader.{
  Token, skip_loop, token_loop, Parsed, parse_loop, parse_auth_header,
}
use saw_script.Handlers.AuthHeader.Words.{
  words, gap, run, gap-le, run-le, words-gap, words-run, words-nil, gap-gap, gap-pos,
}

-- The byte at an index, and the text behind it.
pub drop-head :
    (input : List ℕ) (i : ℕ) (c : ℕ) (text : List ℕ)
    → drop i input ≡ c ∷ text
    → get_or input i 0 ≡ c
drop-head [] zero c text e = ap (λ t. get_or t 0 0) e
drop-head [] (suc i) c text e = ap (λ t. get_or t 0 0) e
drop-head (x ∷ input) zero c text e = ap (λ t. get_or t 0 0) e
drop-head (x ∷ input) (suc i) c text e = drop-head input i c text e

drop-drop : (m n : ℕ) (xs : List ℕ) → drop (m + n) xs ≡ drop n (drop m xs)
drop-drop zero n xs = ap (λ (t : ℕ). drop t xs) (omega arith)
drop-drop (suc m) zero [] = rw (suc-add m 0) refl
drop-drop (suc m) (suc n) [] = rw (suc-add m (suc n)) refl
drop-drop (suc m) n (x ∷ xs) = rw (suc-add m n) (drop-drop m n xs)

pub drop-tail :
    (input : List ℕ) (i : ℕ) (c : ℕ) (text : List ℕ)
    → drop i input ≡ c ∷ text
    → drop (i + 1) input ≡ text
drop-tail input i c text e = drop-drop i 1 input ∙ ap (λ t. drop 1 t) e

skip_loop-gap :
    (input : List ℕ) (text : List ℕ) (i : ℕ)
    → drop i input ≡ text
    → skip_loop input (length text) i ≡ i + gap text
unfolding skip_loop gap
skip_loop-gap input [] i e = omega arith
skip_loop-gap input (c ∷ text) i e = elim (Bool-cases (c == 32)) [
  | inl h ↦
      rw (drop-head input i c text e, h)
        (skip_loop-gap input text (i + 1) (drop-tail input i c text e) ∙ omega arith)
  | inr h ↦ rw (drop-head input i c text e, h) (omega arith)
]

token_loop-run :
    (input : List ℕ) (text : List ℕ) (i : ℕ)
    → drop i input ≡ text
    → token_loop input (length text) i ≡ i + run text
unfolding token_loop run
token_loop-run input [] i e = omega arith
token_loop-run input (c ∷ text) i e = elim (Bool-cases (c == 32)) [
  | inl h ↦ rw (drop-head input i c text e, h) (omega arith)
  | inr h ↦
      rw (drop-head input i c text e, h)
        (token_loop-run input text (i + 1) (drop-tail input i c text e) ∙ omega arith)
]

-- The part of the header that a token stands for.
abbrev pub text_of : List ℕ → Token → List ℕ
text_of input t = take t.len (drop t.start input)

-- Where the next token starts when the current one starts at `i`.
abbrev next_start : ℕ → List ℕ → ℕ
next_start i text = i + run text + gap (drop (run text) text)

abbrev next_text : List ℕ → List ℕ
next_text text = drop (gap (drop (run text) text)) (drop (run text) text)

next_lem :
    (input : List ℕ) (i : ℕ) (text : List ℕ)
    → drop i input ≡ text
    → drop (next_start i text) input ≡ next_text text
next_lem input i text e =
    drop-drop (i + run text) (gap (drop (run text) text)) input
    ∙ ap (λ t. drop (gap (drop (run text) text)) t)
        (drop-drop i (run text) input ∙ ap (λ t. drop (run text) t) e)

next_length :
    (i : ℕ) (text : List ℕ) → next_start i text + length (next_text text) ≡ i + length text
next_length i text =
    let tail = drop (run text) text in
    omega
      (arith, run-le text, gap-le tail, length-drop (run text) text, length-drop (gap tail) tail)

parse_loop-next :
    (input : List ℕ) (n left i count : ℕ) (tokens : List Token) (c : ℕ) (rest : List ℕ)
    → drop i input ≡ c ∷ rest
    → i + length (c ∷ rest) ≡ n
    → parse_loop input n (suc left) i count tokens
      ≡ parse_loop input n left
          (next_start i (c ∷ rest))
          (count + 1)
          (set tokens count (record { start = i; len = run (c ∷ rest) }))
unfolding parse_loop
parse_loop-next input n left i count tokens c rest e whole =
    let text = c ∷ rest in
    let tail = drop (run text) text in
    let more : ltb i n ≡ true = ground arith in
    let remaining : n - i ≡ length text = omega arith in
    let end : token_loop input (length text) i ≡ i + run text = token_loop-run input text i e in
    let behind : drop (i + run text) input ≡ tail =
      drop-drop i (run text) input ∙ ap (λ t. drop (run text) t) e in
    let remaining_tail : n - (i + run text) ≡ length tail =
      omega (arith, run-le text, length-drop (run text) text) in
    let next : skip_loop input (length tail) (i + run text) ≡ next_start i text =
      skip_loop-gap input tail (i + run text) behind in
    let len : i + run text - i ≡ run text = omega arith in
    rw (more, remaining, end, remaining_tail, next, len) refl

-- A token inside the header.
abbrev pub IsInside : List ℕ → Token → Type 0
IsInside input t = t.start + t.len ≤ length input

All-append :
    (P : Token → Type 0) (xs : List Token) (t : Token) → All P xs → P t → All P (xs ++ (t ∷ []))
All-append P [] t all h = (h, tt)
All-append P (x ∷ xs) t all h = (all.0, All-append P xs t all.1 h)

-- The result of a loop that started with `count` tokens and has found the words `found`.
abbrev pub IsParsed : List ℕ → Parsed → ℕ → List Token → List (List ℕ) → Type 0
IsParsed input r count tokens found =
    (All (IsInside input) (take count tokens) → All (IsInside input) (take r.count r.tokens))
    × (r.count ≡ count + length found)
    × (map (text_of input) (take r.count r.tokens)
        ≡ map (text_of input) (take count tokens) ++ found)
    × (length r.tokens ≡ length tokens)

-- One token more.
IsParsed-cons :
    (input : List ℕ) (r : Parsed) (count : ℕ) (tokens : List Token) (t : Token)
    (found : List (List ℕ))
    → count < length tokens
    → IsInside input t
    → IsParsed input r (count + 1) (set tokens count t) found
    → IsParsed input r count tokens (text_of input t ∷ found)
IsParsed-cons input r count tokens t found room inside h =
    let next : count + 1 ≡ suc count = omega arith in
    let texts = map (text_of input) (take count tokens) in
    let longer : take (count + 1) (set tokens count t) ≡ take count tokens ++ (t ∷ []) =
      rw next (take-set count tokens t room) in
    let taken : map (text_of input) (take (count + 1) (set tokens count t))
        ≡ texts ++ (text_of input t ∷ []) =
      ap (map (text_of input)) longer ∙ map-append (text_of input) (take count tokens) (t ∷ []) in
    (
      λ all. h.0 (
          subst (All (IsInside input)) (sym longer)
            (All-append (IsInside input) (take count tokens) t all inside)),
      omega (arith, h.1),
      h.2 ∙ ap (λ z. z ++ found) taken ∙ append_assoc texts (text_of input t ∷ []) found,
      h.3 ∙ length-set tokens count t,
    )

text_of-run :
    (input : List ℕ) (i : ℕ) (text : List ℕ)
    → drop i input ≡ text
    → text_of input (record { start = i; len = run text }) ≡ take (run text) text
text_of-run input i text e = ap (λ t. take (run text) t) e

parse_loop-IsParsed :
    (input : List ℕ) (n left i count : ℕ) (tokens : List Token) (text : List ℕ)
    → drop i input ≡ text
    → i + length text ≡ n
    → length input ≡ n
    → gap text ≡ 0
    → count + left ≤ length tokens
    → IsParsed input (parse_loop input n left i count tokens) count tokens (take left (words text))
unfolding parse_loop
parse_loop-IsParsed input n zero i count tokens text e whole size starts room =
    (λ all. all, omega arith, sym (append-nil _), refl)
parse_loop-IsParsed input n (suc left) i count tokens [] e whole size starts room =
    let done : ltb i n ≡ false = ground arith in
    rw (done, words-nil) (λ all. all, omega arith, sym (append-nil _), refl)
parse_loop-IsParsed input n (suc left) i count tokens (c ∷ rest) e whole size starts room =
    let text = c ∷ rest in
    let t : Token = record { start = i; len = run text } in
    let inside : IsInside input t = omega (arith, run-le text, whole, size) in
    let r = parse_loop input n left (next_start i text) (count + 1) (set tokens count t) in
    let later =
      parse_loop-IsParsed input n left (next_start i text) (count + 1) (set tokens count t)
        (next_text text) (next_lem input i text e) (next_length i text ∙ whole) size
        (gap-gap (drop (run text) text)) (omega (arith, length-set tokens count t)) in
    let found : text_of input t ∷ take left (words (next_text text))
        ≡ take (suc left) (words text) =
      rw (words-run c rest (gap-pos c rest starts), words-gap (drop (run text) text))
        (ap (λ z. z ∷ take left (words (drop (run text) text))) (text_of-run input i text e)) in
    subst (λ p. IsParsed input p count tokens (take (suc left) (words text)))
      (sym (parse_loop-next input n left i count tokens c rest e whole))
      (subst (λ z. IsParsed input r count tokens z) found
        (IsParsed-cons input r count tokens t _ (omega arith) inside later))

-- The tokens of a header are its words, from the first one on.
pub parse_auth_header-IsParsed :
    (input : List ℕ) (tokens : List Token) (max_tokens : ℕ)
    → max_tokens ≤ length tokens
    → IsParsed input
        (parse_auth_header input (length input) tokens max_tokens)
        0
        tokens
        (take max_tokens (words input))
unfolding parse_auth_header
parse_auth_header-IsParsed input tokens zero room = (λ all. all, refl, refl, refl)
parse_auth_header-IsParsed input tokens (suc m) room =
    let some_tokens : (suc m == 0) ≡ false = ground arith in
    let start : skip_loop input (length input) 0 ≡ gap input =
      skip_loop-gap input input 0 refl ∙ omega arith in
    let text = drop (gap input) input in
    let all_left : length input - 0 ≡ length input = omega arith in
    let parsed =
      parse_loop-IsParsed input (length input) (suc m) (gap input) 0 tokens text refl
        (omega (arith, length-drop (gap input) input, gap-le input)) refl (gap-gap input)
        (omega arith) in
    rw (some_tokens, start, ← words-gap input) parsed
