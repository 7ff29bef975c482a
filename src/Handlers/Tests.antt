-- ===== src/Handlers/Tests.antt =====
-- The handlers on concrete requests.
use native.Mathlib.Decide.{ℕ_discrete}
use saw_script.Base.{
  ℕ, ◌≡◌, ◌≢◌, ◌≤◌, Option, some, none, inl, inr, false, if◌then◌else◌, ◌==◌, Bool-cases, refl,
  arith, List, [], ◌∷◌, ◌++◌, replicate, length, get_or,
}
use saw_script.Handlers.AuthHeader.{
  Token, no_token, skip_loop, token_loop, parse_loop, parse_auth_header, expected, scheme_loop,
  validate_auth_scheme,
}
use saw_script.Handlers.KeyBuffer.{
  Allocated, Allocator, KeyBuffer, Return, key_buffer_init, process_with_cleanup,
}
use saw_script.Handlers.KeyBuffer.Cleanup.{
  init_call, free_call, run, IsClean, process_with_cleanup-IsClean,
}
use saw_script.Handlers.AuthHeader.Words.{words}
use saw_script.Handlers.AuthHeader.Scheme.{FindsWords, Tells, validate_auth_scheme-words}

abbrev slots : List Token
slots = replicate 3 no_token

-- "HMAC-SHA256 a b", with two spaces before the last word.
abbrev header : List ℕ
header = expected ++ (32 ∷ 97 ∷ 32 ∷ 32 ∷ 98 ∷ [])

accepted : validate_auth_scheme slots header 16 ≡ 1
unfolding validate_auth_scheme parse_auth_header parse_loop skip_loop token_loop scheme_loop
accepted = refl

-- A fourth word is not noticed.
four_words : validate_auth_scheme slots (header ++ (32 ∷ 99 ∷ [])) 18 ≡ 1
unfolding validate_auth_scheme parse_auth_header parse_loop skip_loop token_loop scheme_loop
four_words = refl

two_words : validate_auth_scheme slots (expected ++ (32 ∷ 97 ∷ [])) 13 ≡ 0
unfolding validate_auth_scheme parse_auth_header parse_loop skip_loop token_loop scheme_loop
two_words = refl

validate_auth_scheme-words_example :
    FindsWords header slots 2
    × Tells
        (validate_auth_scheme slots header (length header))
        ((3 ≤ length (words header)) × (get_or (words header) 0 [] ≡ expected))
validate_auth_scheme-words_example =
    validate_auth_scheme-words header slots 2 (omega arith) (omega arith)

-- An allocator with room for one block, at address 1. The heap is the size of the block.
abbrev alloc_one : Option ℕ → ℕ → Allocated (Option ℕ)
alloc_one none n = record { ptr = 1; heap = some n }
alloc_one (some m) n = record { ptr = 0; heap = some m }

abbrev size_of_one : Option ℕ → ℕ → Option ℕ
size_of_one h p = if p == 1 then h else none

abbrev free_one : Option ℕ → ℕ → Option ℕ
free_one h p = if p == 1 then none else h

no_other : (h k : Option ℕ) (q : ℕ) → q ≢ 1 → size_of_one h q ≡ size_of_one k q
no_other h k q ne = let test : (q == 1) ≡ false = ground arith in rw test refl

none_there : (q : ℕ) → size_of_one none q ≡ none
none_there q = elim (Bool-cases (q == 1)) [ inl e ↦ rw e refl | inr e ↦ rw e refl ]

fails_one :
    (h : Option ℕ) (n q : ℕ)
    → (alloc_one h n).ptr ≡ 0
    → size_of_one (alloc_one h n).heap q ≡ size_of_one h q
fails_one none n q e = absurd (omega (arith, e))
fails_one (some m) n q e = refl

fresh_one :
    (h : Option ℕ) (n : ℕ) → (alloc_one h n).ptr ≢ 0 → size_of_one h (alloc_one h n).ptr ≡ none
fresh_one none n e = refl
fresh_one (some m) n e = absurd (e refl)

size_one :
    (h : Option ℕ) (n : ℕ)
    → (alloc_one h n).ptr ≢ 0
    → size_of_one (alloc_one h n).heap (alloc_one h n).ptr ≡ some n
size_one none n e = refl
size_one (some m) n e = absurd (e refl)

other_one :
    (h : Option ℕ) (n q : ℕ)
    → q ≢ (alloc_one h n).ptr
    → size_of_one (alloc_one h n).heap q ≡ size_of_one h q
other_one none n q ne = no_other (some n) none q ne
other_one (some m) n q ne = refl

gone_one : (h : Option ℕ) (p : ℕ) → size_of_one (free_one h p) p ≡ none
gone_one h p = elim (Bool-cases (p == 1)) [ inl e ↦ rw e refl | inr e ↦ rw e refl ]

free_other_one : (h : Option ℕ) (p q : ℕ) → q ≢ p → size_of_one (free_one h p) q ≡ size_of_one h q
free_other_one h p q ne = elim (ℕ_discrete q 1) [
  | yes e ↦ let test : (p == 1) ≡ false = ground (arith, e, ne) in rw test refl
  | no other ↦ no_other (free_one h p) h q other
]

abbrev one_block : Allocator (Option ℕ)
one_block = record {
  model_alloc = alloc_one;
  model_free = free_one;
  size_of = size_of_one;
  alloc_fails = fails_one;
  alloc_fresh = fresh_one;
  alloc_size = size_one;
  alloc_other = other_one;
  free_gone = gone_one;
  free_other = free_other_one;
}

abbrev no_buffer : KeyBuffer
no_buffer = record { data_ptr = 0; len = 0; is_allocated = 0 }

-- A buffer of no bytes is written to all the same.
no_bytes : process_with_cleanup one_block none 0 ≡ none
unfolding process_with_cleanup key_buffer_init
no_bytes = refl

process_with_cleanup-IsClean_example :
    ((r : Return (Option ℕ)) × (process_with_cleanup one_block none 32 ≡ some r)
      × IsClean one_block none 32 r)
    × ((r : Return (Option ℕ)) × (run one_block
            (init_call 16 ∷ free_call ∷ free_call ∷ [])
            no_buffer
            none
          ≡ some r))
process_with_cleanup-IsClean_example =
    process_with_cleanup-IsClean one_block none 32 (init_call 16 ∷ free_call ∷ free_call ∷ [])
      no_buffer (omega arith) refl
