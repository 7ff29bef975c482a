-- ===== src/Handlers/Secrets.antt =====
-- Key material that must not leave a function: intTests/test_llvm_no_key_leak_to_log/test.c and
-- intTests/test_llvm_no_key_leak_unwind/test.c. The messages given to trace_log are a list, and what
-- crypto_derive writes and returns is an argument.
use mathlib.Core.List.{append_assoc}
use saw_script.Base.{
  ℕ, zero, suc, ◌+◌, ◌-◌, ◌^◌, ◌≡◌, ◌≢◌, ◌∙◌, refl, ap, arith, List, [], ◌∷◌, ◌++◌, ◌||◌, get_or,
  set, take, replicate, length, if◌then◌else◌, ◌==◌, ltb, not, inl, inr, ◌⊎◌, length-append,
  Bool-cases,
}

pub record Secret : Type 0 where
  pub key : List ℕ
  pub key_len : ℕ

pub record Logged : Type 0 where
  pub rc : ℕ
  pub log : List (List ℕ)

-- "invalid key length", "processing key" and "zero key byte".
abbrev err_msg : List ℕ
err_msg =
    105 ∷ 110 ∷ 118 ∷ 97 ∷ 108 ∷ 105 ∷ 100 ∷ 32 ∷ 107 ∷ 101 ∷ 121 ∷ 32 ∷ 108 ∷ 101 ∷ 110 ∷ 103 ∷ 116
    ∷ 104 ∷ []

abbrev info_msg : List ℕ
info_msg = 112 ∷ 114 ∷ 111 ∷ 99 ∷ 101 ∷ 115 ∷ 115 ∷ 105 ∷ 110 ∷ 103 ∷ 32 ∷ 107 ∷ 101 ∷ 121 ∷ []

abbrev warn_msg : List ℕ
warn_msg = 122 ∷ 101 ∷ 114 ∷ 111 ∷ 32 ∷ 107 ∷ 101 ∷ 121 ∷ 32 ∷ 98 ∷ 121 ∷ 116 ∷ 101 ∷ []

-- `-1` and `-2` are numbers modulo 2 ^ 32.
unfoldable pub process_key : Secret → Logged
process_key ks =
    if (ks.key_len == 0) || ltb 32 ks.key_len
    then record { rc = 2 ^ 32 - 1; log = err_msg ∷ [] }
    else if get_or ks.key 0 0 == 0
    then record { rc = 2 ^ 32 - 2; log = info_msg ∷ warn_msg ∷ [] }
    else record { rc = 0; log = info_msg ∷ [] }

unfoldable pub process_key_leaky : Secret → Logged
process_key_leaky ks = record { rc = 0; log = take ks.key_len ks.key ∷ [] }

-- The messages and the result are the same for two keys of one length whose first byte is 0 in both
-- or in none.
process_key_silent :
    (a b : Secret)
    → a.key_len ≡ b.key_len
    → (get_or a.key 0 0 == 0) ≡ (get_or b.key 0 0 == 0)
    → process_key a ≡ process_key b
unfolding process_key
process_key_silent a b len first = rw (len, first) refl

pub record Attestation : Type 0 where
  pub proof : List ℕ
  pub proof_len : ℕ
  pub valid : ℕ

-- What a call of crypto_derive returns, and what `out` holds afterwards.
pub record Derived : Type 0 where
  pub rc : ℕ
  pub out : List ℕ

unfoldable pub zero_bytes : ℕ → ℕ → List ℕ → List ℕ
zero_bytes zero i proof = proof
zero_bytes (suc left) i proof = zero_bytes left (i + 1) (set proof i 0)

pub record Attested : Type 0 where
  pub rc : ℕ
  pub attestation : Attestation

unfoldable pub create_attestation :
    (List ℕ → ℕ → List ℕ → ℕ → Derived) → List ℕ → ℕ → Attestation → Attested
create_attestation crypto_derive key key_len result =
    let proof = zero_bytes 32 0 result.proof in
    let d = crypto_derive proof 32 key key_len in
    if not (d.rc == 0)
    then record {
      rc = 2 ^ 32 - 1;
      attestation = record { proof = zero_bytes 32 0 d.out; proof_len = 0; valid = 0 };
    }
    else record { rc = 0; attestation = record { proof = d.out; proof_len = 32; valid = 1 } }

set_end :
    (done : List ℕ) (i x : ℕ) (rest : List ℕ) (v : ℕ)
    → length done ≡ i
    → set (done ++ x ∷ rest) i v ≡ (done ++ (v ∷ [])) ++ rest
set_end [] zero x rest v h = refl
set_end [] (suc i) x rest v h = absurd (omega (arith, h))
set_end (y ∷ done) zero x rest v h = absurd (omega (arith, h))
set_end (y ∷ done) (suc i) x rest v h = ap (λ z. y ∷ z) (set_end done i x rest v (omega arith))

zero_bytes-append :
    (left i : ℕ) (done rest : List ℕ)
    → length done ≡ i
    → length rest ≡ left
    → zero_bytes left i (done ++ rest) ≡ done ++ replicate left 0
unfolding zero_bytes
zero_bytes-append zero i done [] hi hl = refl
zero_bytes-append zero i done (x ∷ rest) hi hl = absurd (omega arith)
zero_bytes-append (suc left) i done [] hi hl = absurd (omega arith)
zero_bytes-append (suc left) i done (x ∷ rest) hi hl = rw (set_end done i x rest 0 hi) (
    zero_bytes-append left (i + 1) (done ++ (0 ∷ [])) rest
      (omega (arith, length-append done (0 ∷ []))) (omega arith)
    ∙ append_assoc done (0 ∷ []) (replicate left 0))

zero_bytes_lem : (proof : List ℕ) → length proof ≡ 32 → zero_bytes 32 0 proof ≡ replicate 32 0
zero_bytes_lem proof size = zero_bytes-append 32 0 [] proof refl size

-- When the derivation fails, the proof is all zeros, whatever crypto_derive has written; when it
-- does not, the proof is what crypto_derive makes of a cleared buffer.
create_attestation_lem :
    (crypto_derive : List ℕ → ℕ → List ℕ → ℕ → Derived) (key : List ℕ) (key_len : ℕ)
    (result : Attestation)
    → length result.proof ≡ 32
    → length (crypto_derive (replicate 32 0) 32 key key_len).out ≡ 32
    → (((crypto_derive (replicate 32 0) 32 key key_len).rc ≢ 0)
        × (create_attestation crypto_derive key key_len result ≡ record {
          rc = 2 ^ 32 - 1;
          attestation = record { proof = replicate 32 0; proof_len = 0; valid = 0 };
        }))
      ⊎ (((crypto_derive (replicate 32 0) 32 key key_len).rc ≡ 0)
          × (create_attestation crypto_derive key key_len result ≡ record {
            rc = 0;
            attestation = record {
              proof = (crypto_derive (replicate 32 0) 32 key key_len).out;
              proof_len = 32;
              valid = 1;
            };
          }))
unfolding create_attestation
create_attestation_lem crypto_derive key key_len result size derived =
    let d = crypto_derive (replicate 32 0) 32 key key_len in
    elim (Bool-cases (d.rc == 0)) [
      | inl e ↦ inr (ground arith, rw (zero_bytes_lem result.proof size, e) refl)
      | inr e ↦ inl (
        ground arith,
        rw (zero_bytes_lem result.proof size, e, zero_bytes_lem d.out derived) refl,
      )
    ]
