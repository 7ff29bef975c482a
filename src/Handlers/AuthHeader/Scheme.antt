-- ===== src/Handlers/AuthHeader/Scheme.antt =====
-- Which headers validate_auth_scheme accepts.
use native.Mathlib.Decide.{ℕ_discrete}
use saw_script.Base.{
  ℕ, zero, suc, min, ◌+◌, ◌≤◌, ◌<◌, ◌≡◌, ◌∙◌, refl, sym, ap, ap₂, arith, List, [], ◌∷◌, map, take,
  drop, length, get_or, inl, inr, ◌⊎◌, if◌then◌else◌, ◌==◌, not, Bool-cases, true, false,
  length-take, length-drop, All,
}
use saw_script.Handlers.AuthHeader.{
  Token, no_token, parse_auth_header, expected, scheme_loop, validate_auth_scheme,
}
use saw_script.Handlers.AuthHeader.Words.{words}
use saw_script.Handlers.AuthHeader.Laws.{
  drop-head, drop-tail, text_of, IsInside, parse_auth_header-IsParsed,
}

-- `v` is 1 when `P` holds, and 0 when it does not.
abbrev pub Tells : ℕ → Type 0 → Type 0
Tells v P = ((v ≡ 1) × P) ⊎ ((v ≡ 0) × (P → ⊥))

Tells-map : (v : ℕ) (P Q : Type 0) → (P → Q) → (Q → P) → Tells v P → Tells v Q
Tells-map v P Q f g (inl h) = inl (h.0, f h.1)
Tells-map v P Q f g (inr h) = inr (h.0, λ q. h.1 (g q))

scheme_loop-Tells :
    (header : List ℕ) (start i : ℕ) (rest text : List ℕ)
    → drop i expected ≡ rest
    → drop (start + i) header ≡ text
    → length rest ≤ length text
    → Tells (scheme_loop header start (length rest) i) (take (length rest) text ≡ rest)
unfolding scheme_loop
scheme_loop-Tells header start i [] text e d room = inl (refl, refl)
scheme_loop-Tells header start i (x ∷ rest) [] e d room = absurd (omega arith)
scheme_loop-Tells header start i (x ∷ rest) (y ∷ text) e d room = elim (ℕ_discrete y x) [
  | yes same ↦
      let test : (y == x) ≡ true = ground arith in
      let next : start + i + 1 ≡ start + (i + 1) = omega arith in
      let later =
        scheme_loop-Tells header start (i + 1) rest text (drop-tail expected i x rest e)
          (ap (λ (t : ℕ). drop t header) (sym next) ∙ drop-tail header (start + i) y text d)
          (omega arith) in
      rw (drop-head header (start + i) y text d, drop-head expected i x rest e, test)
        (Tells-map _ _ _ (λ h. ap₂ ◌∷◌ same h) (λ h. ap (drop 1) h) later)
  | no differ ↦
      let test : (y == x) ≡ false = ground arith in
      rw (drop-head header (start + i) y text d, drop-head expected i x rest e, test)
        (inr (refl, λ h. differ (ap (λ z. get_or z 0 0) h)))
]

-- The first token of a parsed header.
first_text :
    (f : Token → List ℕ) (n : ℕ) (tokens : List Token)
    → 0 < n
    → 0 < length tokens
    → get_or (map f (take n tokens)) 0 [] ≡ f (get_or tokens 0 no_token)
first_text f zero tokens some room = absurd (omega arith)
first_text f (suc n) [] some room = absurd (omega arith)
first_text f (suc n) (t ∷ tokens) some room = refl

first_inside :
    (P : Token → Type 0) (n : ℕ) (tokens : List Token)
    → 0 < n
    → 0 < length tokens
    → All P (take n tokens)
    → P (get_or tokens 0 no_token)
first_inside P zero tokens some room all = absurd (omega arith)
first_inside P (suc n) [] some room all = absurd (omega arith)
first_inside P (suc n) (t ∷ tokens) some room all = all.0

first_word :
    (n : ℕ) (found : List (List ℕ)) → 0 < n → get_or (take n found) 0 [] ≡ get_or found 0 []
first_word zero found some = absurd (omega arith)
first_word (suc n) [] some = refl
first_word (suc n) (w ∷ found) some = refl

-- The three ways through the function, by the number of tokens and the length of the first one.
abbrev verdict : ℕ → ℕ → ℕ → ℕ
verdict count len v = if not (count == 3) then 0 else if not (len == 11) then 0 else v

verdict-Tells :
    (header found : List ℕ) (few count : ℕ) (t : Token)
    → count ≡ min 3 few
    → (3 ≤ few → (found ≡ text_of header t) × IsInside header t)
    → Tells (verdict count t.len (scheme_loop header t.start 11 0)) ((3 ≤ few) × (found ≡ expected))
verdict-Tells header found few count t e parsed = elim (Bool-cases (count == 3)) [
  | inr h ↦ rw h (inr (refl, λ both. absurd (ground (arith, both.0))))
  | inl h ↦
      let three : 3 ≤ few = ground arith in
      let word = (parsed three).0 in
      let inside = (parsed three).1 in
      let tail = drop t.start header in
      let size : length found ≡ t.len =
        ap length word
        ∙ omega (arith, length-take t.len tail, length-drop t.start header, inside) in
      elim (Bool-cases (t.len == 11)) [
        | inr h₂ ↦ rw (h, h₂) (inr (refl, λ both. absurd (ground (arith, size, ap length both.1))))
        | inl h₂ ↦
            let eleven : t.len ≡ 11 = ground arith in
            let cut : take 11 tail ≡ found = rw (← eleven) (sym word) in
            let same =
              scheme_loop-Tells header t.start 0 expected tail refl
                (ap (λ (s : ℕ). drop s header) (omega arith))
                (omega (arith, length-drop t.start header, inside)) in
            rw (h, h₂) (Tells-map _ _ _ (λ s. (three, sym cut ∙ s)) (λ both. cut ∙ both.1) same)
      ]
]

validate_auth_scheme-Tells :
    (header : List ℕ) (tokens : List Token)
    → 3 ≤ length tokens
    → Tells
        (validate_auth_scheme tokens header (length header))
        ((3 ≤ length (words header)) × (get_or (words header) 0 [] ≡ expected))
unfolding validate_auth_scheme
validate_auth_scheme-Tells header tokens room =
    let found = words header in
    let p = parse_auth_header header (length header) tokens 3 in
    let parsed = parse_auth_header-IsParsed header tokens 3 room in
    let count : p.count ≡ min 3 (length found) = omega (arith, parsed.1, length-take 3 found) in
    verdict-Tells header (get_or found 0 []) (length found) p.count (get_or p.tokens 0 no_token)
      count
      (λ three.
        let some : 0 < p.count = omega arith in
        let some_token : 0 < length p.tokens = omega (arith, parsed.3) in
        (
          sym (first_word 3 found (omega arith))
              ∙ sym (ap (λ z. get_or z 0 []) parsed.2)
              ∙ first_text (text_of header) p.count p.tokens some some_token,
          first_inside (IsInside header) p.count p.tokens some some_token (parsed.0 tt),
        ))

-- The tokens that parse_auth_header has written are the words of the header from the first one on,
-- but no more than asked for, and lie inside the header.
abbrev pub FindsWords : List ℕ → List Token → ℕ → Type 0
FindsWords header tokens max_tokens =
    let p = parse_auth_header header (length header) tokens max_tokens in
    (p.count ≡ min max_tokens (length (words header)))
    × All (IsInside header) (take p.count p.tokens)
    × (map (text_of header) (take p.count p.tokens) ≡ take max_tokens (words header))

-- For every header and an array of at least three tokens and as many as are asked for,
-- parse_auth_header returns the number of words, but no more than asked for, and its tokens are the
-- words of the header in order and lie inside it; validate_auth_scheme returns 1 when the header has
-- three words or more and the first is "HMAC-SHA256", and 0 when not.
pub validate_auth_scheme-words :
    (header : List ℕ) (tokens : List Token) (max_tokens : ℕ)
    → max_tokens ≤ length tokens
    → 3 ≤ length tokens
    → FindsWords header tokens max_tokens
      × Tells
          (validate_auth_scheme tokens header (length header))
          ((3 ≤ length (words header)) × (get_or (words header) 0 [] ≡ expected))
validate_auth_scheme-words header tokens max_tokens room three =
    let parsed = parse_auth_header-IsParsed header tokens max_tokens room in
    (
      (omega (arith, parsed.1, length-take max_tokens (words header)), parsed.0 tt, parsed.2),
      validate_auth_scheme-Tells header tokens three,
    )
