-- ===== src/Handlers/AuthHeader.antt =====
-- intTests/test_llvm_auth_header_parse/test.c: an authorization header split at its spaces.
pub mod Words
pub mod Laws
pub mod Scheme
use saw_script.Base.{
  ℕ, zero, suc, ◌+◌, ◌-◌, List, [], ◌∷◌, get_or, set, not, if◌then◌else◌, ◌==◌, ltb,
}

pub record Token : Type 0 where
  pub start : ℕ
  pub len : ℕ

abbrev pub no_token : Token
no_token = record { start = 0; len = 0 }

-- The loops over spaces and over the other bytes; `left` is `data_len - i`, and 32 is the space. An
-- index does not pass `data_len`, so it does not wrap.
unfoldable pub skip_loop : List ℕ → ℕ → ℕ → ℕ
skip_loop input zero i = i
skip_loop input (suc left) i =
    let rest = skip_loop input left (i + 1) in if get_or input i 0 == 32 then rest else i

unfoldable pub token_loop : List ℕ → ℕ → ℕ → ℕ
token_loop input zero i = i
token_loop input (suc left) i =
    let rest = token_loop input left (i + 1) in if not (get_or input i 0 == 32) then rest else i

-- The number that the function returns, and the array of tokens.
pub record Parsed : Type 0 where
  pub count : ℕ
  pub tokens : List Token

-- `left` is `max_tokens - count`. Both fields of the token are written.
unfoldable pub parse_loop : List ℕ → ℕ → ℕ → ℕ → ℕ → List Token → Parsed
parse_loop input data_len zero i count tokens = record { count = count; tokens = tokens }
parse_loop input data_len (suc left) i count tokens =
    let end = token_loop input (data_len - i) i in
    let next = skip_loop input (data_len - end) end in
    let rest =
      parse_loop input data_len left next (count + 1)
        (set tokens count (record { start = i; len = end - i })) in
    if ltb i data_len then rest else record { count = count; tokens = tokens }

unfoldable pub parse_auth_header : List ℕ → ℕ → List Token → ℕ → Parsed
parse_auth_header input data_len tokens max_tokens =
    if max_tokens == 0
    then record { count = 0; tokens = tokens }
    else parse_loop input data_len max_tokens (skip_loop input data_len 0) 0 tokens

-- The bytes of "HMAC-SHA256".
abbrev pub expected : List ℕ
expected = 72 ∷ 77 ∷ 65 ∷ 67 ∷ 45 ∷ 83 ∷ 72 ∷ 65 ∷ 50 ∷ 53 ∷ 54 ∷ []

unfoldable pub scheme_loop : List ℕ → ℕ → ℕ → ℕ → ℕ
scheme_loop header start zero i = 1
scheme_loop header start (suc left) i =
    let rest = scheme_loop header start left (i + 1) in
    if not (get_or header (start + i) 0 == get_or expected i 0) then 0 else rest

-- `tokens` is what the uninitialised array of three tokens holds.
unfoldable pub validate_auth_scheme : List Token → List ℕ → ℕ → ℕ
validate_auth_scheme tokens header header_len =
    let p = parse_auth_header header header_len tokens 3 in
    let first = get_or p.tokens 0 no_token in
    if not (p.count == 3)
    then 0
    else if not (first.len == 11)
    then 0
    else scheme_loop header first.start 11 0
