-- ===== src/Handlers/Requests.antt =====
-- Checks of requests: intTests/test_llvm_verify_header_validation/test.c,
-- intTests/test_llvm_verify_rust_validators/test.c and intTests/test_llvm_deny_on_alloc_fail/test.c.
use saw_script.Base.{
  ℕ, zero, suc, ◌+◌, ◌-◌, ◌^◌, ◌≡◌, refl, ap, Option, none, some, List, ◌||◌, ◌&&◌, get_or, set,
  if◌then◌else◌, ◌==◌, ltb, leb, not, inl, inr, Bool-cases,
}

unfoldable pub to_lower : ℕ → ℕ
to_lower c = if leb 65 c && leb c 90 then c + 32 else c

unfoldable pub is_valid_metadata_header : List ℕ → ℕ → ℕ
is_valid_metadata_header bytes len =
    if not (len == 4)
    then 0
    else if not (to_lower (get_or bytes 0 0) == 116)
    then 0
    else if not (to_lower (get_or bytes 1 0) == 114)
    then 0
    else if not (to_lower (get_or bytes 2 0) == 117)
    then 0
    else if not (to_lower (get_or bytes 3 0) == 101)
    then 0
    else 1

-- The payload is not looked at.
unfoldable pub process_request : List ℕ → ℕ → List ℕ → ℕ → ℕ
process_request header_value header_len payload payload_len =
    if is_valid_metadata_header header_value header_len == 0 then 0 else 1

-- The loop at index `i`, with `left` rounds to go.
unfoldable pub digits_only : List ℕ → ℕ → ℕ → ℕ
digits_only bytes zero i = 1
digits_only bytes (suc left) i =
    let rest = digits_only bytes left (i + 1) in
    if (i == 4) || (i == 7)
    then rest
    else if ltb (get_or bytes i 0) 48 || ltb 57 (get_or bytes i 0)
    then 0
    else rest

unfoldable pub is_valid_request_date : List ℕ → ℕ → ℕ
is_valid_request_date bytes len =
    if not (len == 10)
    then 0
    else if not (get_or bytes 4 0 == 45) || not (get_or bytes 7 0 == 45)
    then 0
    else digits_only bytes 10 0

unfoldable pub is_valid_claims_header : List ℕ → ℕ → ℕ
is_valid_claims_header bytes len =
    if len == 0 then 0 else if not (get_or bytes 0 0 == 123) then 0 else 1

-- What a latch returns, and its state afterwards.
pub record Latched : Type 0 where
  pub rc : ℕ
  pub state : ℕ

unfoldable pub latch_local : ℕ → Latched
latch_local state =
    if state == 0 then record { rc = 0; state = 1 } else record { rc = 1; state = state }

unfoldable pub latch_key_local : ℕ → List ℕ → ℕ → Latched
latch_key_local state key key_len =
    if key_len == 0
    then record { rc = 2; state = state }
    else if state == 0
    then record { rc = 0; state = 1 }
    else record { rc = 1; state = state }

unfoldable pub copy_header : List ℕ → ℕ → ℕ → List ℕ → List ℕ
copy_header header zero i normalized = normalized
copy_header header (suc left) i normalized =
    copy_header header left (i + 1) (set normalized i (get_or header i 0))

-- The rest of `is_valid_authorization` by the string that it has got, or `none` for the null pointer.
-- `-1` is a number modulo 2 ^ 32. The string is freed before the function returns.
unfoldable pub normalized_starts : List ℕ → ℕ → Option (List ℕ) → ℕ
normalized_starts header header_len none = 2 ^ 32 - 1
normalized_starts header header_len (some string) =
    let normalized = set (copy_header header header_len 0 string) header_len 0 in
    if leb 4 header_len
      && (get_or normalized 0 0 == 72)
      && (get_or normalized 1 0 == 77)
      && (get_or normalized 2 0 == 65)
      && (get_or normalized 3 0 == 67)
    then 1
    else 0

-- `string_alloc n` is what a new string of `n` bytes holds.
unfoldable pub is_valid_authorization : (ℕ → Option (List ℕ)) → List ℕ → ℕ → ℕ
is_valid_authorization string_alloc header header_len =
    normalized_starts header header_len (string_alloc (header_len + 1))

-- `result <= 0` for a signed `result`.
unfoldable pub check_authorization : (ℕ → Option (List ℕ)) → List ℕ → ℕ → ℕ
check_authorization string_alloc header header_len =
    let result = is_valid_authorization string_alloc header header_len in
    if (result == 0) || leb (2 ^ 31) result then 0 else 1

-- A failed allocation is a denial.
check_authorization-none :
    (string_alloc : ℕ → Option (List ℕ)) (header : List ℕ) (header_len : ℕ)
    → string_alloc (header_len + 1) ≡ none
    → check_authorization string_alloc header header_len ≡ 0
unfolding check_authorization is_valid_authorization normalized_starts
check_authorization-none string_alloc header header_len e =
    let failed = ap (normalized_starts header header_len) e in rw failed refl

-- After one call of a latch every other one reports that it is latched and changes nothing.
latch_local_twice :
    (state : ℕ)
    → latch_local (latch_local state).state ≡ record { rc = 1; state = (latch_local state).state }
unfolding latch_local
latch_local_twice state = elim (Bool-cases (state == 0)) [
  | inl e ↦ rw e refl
  | inr e ↦ rw (e, e) refl
]
