-- ===== src/Simon/Wide.antt =====
-- examples/simon-speck/simon-128-128.c: 64-bit words, 2 key words, 68 rounds.
use saw_script.Base.{
  ℕ, ◌-◌, ◌≤◌, ◌≡◌, refl, arith, List, [], ◌∷◌, length, get_or, complement, bit_xor, get_or-set_ne,
  if◌then◌else◌, ltb,
}
use saw_script.Simon.{Block, rotate_right, encrypt_loop, decrypt_loop, expand_loop}
use saw_script.Simon.Feistel.{decrypt_loop-encrypt_loop, encrypt_loop-decrypt_loop}
use saw_script.Simon.Schedule.{IsLocal, expand_loop_idem, expand_loop_congr, expand_loop-add}

-- The array `z` of 62 bits.
abbrev z_bits : List ℕ
z_bits =
    1 ∷ 0 ∷ 1 ∷ 0 ∷ 1 ∷ 1 ∷ 1 ∷ 1 ∷ 0 ∷ 1 ∷ 1 ∷ 1 ∷ 0 ∷ 0 ∷ 0 ∷ 0 ∷ 0 ∷ 0 ∷ 1 ∷ 1 ∷ 0 ∷ 1 ∷ 0 ∷ 0
    ∷ 1 ∷ 0 ∷ 0 ∷ 1 ∷ 1 ∷ 0 ∷ 0 ∷ 0 ∷ 1 ∷ 0 ∷ 1 ∷ 0 ∷ 0 ∷ 0 ∷ 0 ∷ 1 ∷ 0 ∷ 0 ∷ 0 ∷ 1 ∷ 1 ∷ 1 ∷ 1 ∷ 1
    ∷ 1 ∷ 0 ∷ 0 ∷ 1 ∷ 0 ∷ 1 ∷ 1 ∷ 0 ∷ 1 ∷ 1 ∷ 0 ∷ 0 ∷ 1 ∷ 1 ∷ []

-- What both loops of `KeyExpansion` store into `k[i]`, given the bit of `z`.
unfoldable pub key_word : ℕ → ℕ → List ℕ → ℕ
unfolding rotate_right
key_word bit i k =
    let tmp₁ = rotate_right 64 (get_or k (i - 1) 0) 3 in
    let tmp₂ = bit_xor tmp₁ (rotate_right 64 tmp₁ 1) in
    bit_xor (bit_xor (bit_xor (complement 64 (get_or k (i - 2) 0)) tmp₂) bit) 3

-- The first loop, for `i < 64`.
unfoldable pub next_key : ℕ → List ℕ → ℕ
unfolding key_word
next_key i k = key_word (get_or z_bits (i - 2) 0) i k

-- The second loop, where the bits of `z` begin again.
unfoldable pub next_key_again : ℕ → List ℕ → ℕ
unfolding key_word
next_key_again i k = key_word (get_or z_bits (i - 2 - 62) 0) i k

unfoldable pub key_expansion : List ℕ → List ℕ
unfolding expand_loop next_key next_key_again
key_expansion k = expand_loop next_key_again 4 64 (expand_loop next_key 62 2 k)

-- Both functions overwrite `key` as well: the result has the block and the keys.
unfoldable pub encrypt : Block → List ℕ → record { crypt : Block; key : List ℕ }
unfolding key_expansion encrypt_loop
encrypt text key =
    let expanded = key_expansion key in
    record { crypt = encrypt_loop 64 expanded 68 0 text; key = expanded }

unfoldable pub decrypt : Block → List ℕ → record { crypt : Block; key : List ℕ }
unfolding key_expansion decrypt_loop
decrypt text key =
    let expanded = key_expansion key in
    record { crypt = decrypt_loop 64 expanded 67 68 0 text; key = expanded }

-- The two loops as one.
abbrev next_of_both : ℕ → List ℕ → ℕ
next_of_both i k =
    key_word (if ltb i 64 then get_or z_bits (i - 2) 0 else get_or z_bits (i - 2 - 62) 0) i k

next_of_both-IsLocal : IsLocal 2 next_of_both
unfolding key_word
next_of_both-IsLocal i j k v p q =
    rw (get_or-set_ne k j (i - 1) v 0 (omega arith), get_or-set_ne k j (i - 2) v 0 (omega arith))

key_expansion_as_one : (k : List ℕ) → key_expansion k ≡ expand_loop next_of_both 66 2 k
unfolding key_expansion
key_expansion_as_one k =
    rw
      (
        expand_loop_congr next_key next_of_both 62 2 k (λ j l p q. ground arith),
        expand_loop_congr next_key_again next_of_both 4 64 _ (λ j l p q. ground arith),
      )
      (expand_loop-add next_of_both 62 4 2 k)

-- Expanding a key array of at least 68 words that has been expanded changes nothing.
pub wide_key_expansion_idem :
    (k : List ℕ) → 68 ≤ length k → key_expansion (key_expansion k) ≡ key_expansion k
wide_key_expansion_idem k fits =
    rw (key_expansion_as_one, key_expansion_as_one k)
      (expand_loop_idem next_of_both 2 next_of_both-IsLocal 66 k fits)

-- Decryption gives the text back, with a fresh copy of the key as well as with the array that the
-- encryption has expanded in place, if that holds at least 68 words.
pub wide_decrypt-encrypt :
    (text : Block) (key : List ℕ)
    → 68 ≤ length key
    → ((decrypt (encrypt text key).crypt key).crypt ≡ text)
      × ((decrypt (encrypt text key).crypt (encrypt text key).key).crypt ≡ text)
unfolding encrypt decrypt
wide_decrypt-encrypt text key fits =
    let fresh = decrypt_loop-encrypt_loop 64 (key_expansion key) 67 68 0 text refl in
    (fresh, rw (wide_key_expansion_idem key fits) fresh)

-- Encryption gives back the text that was decrypted, with a fresh copy of the key as well as with
-- the array that the decryption has expanded in place, if that holds at least 68 words.
pub wide_encrypt-decrypt :
    (text : Block) (key : List ℕ)
    → 68 ≤ length key
    → ((encrypt (decrypt text key).crypt key).crypt ≡ text)
      × ((encrypt (decrypt text key).crypt (decrypt text key).key).crypt ≡ text)
unfolding encrypt decrypt
wide_encrypt-decrypt text key fits =
    let fresh = encrypt_loop-decrypt_loop 64 (key_expansion key) 67 68 0 text refl in
    (fresh, rw (wide_key_expansion_idem key fits) fresh)
