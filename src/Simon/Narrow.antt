-- ===== src/Simon/Narrow.antt =====
-- examples/simon-speck/simon-64-128.c: 32-bit words, 4 key words, 44 rounds.
use saw_script.Base.{
  ℕ, ◌-◌, ◌≤◌, ◌≡◌, refl, arith, List, [], ◌∷◌, length, get_or, complement, bit_xor, get_or-set_ne,
}
use saw_script.Simon.{Block, rotate_right, encrypt_loop, decrypt_loop, expand_loop}
use saw_script.Simon.Feistel.{decrypt_loop-encrypt_loop, encrypt_loop-decrypt_loop}
use saw_script.Simon.Schedule.{IsLocal, expand_loop_idem}

-- The array `z` of 62 bits.
abbrev z_bits : List ℕ
z_bits =
    1 ∷ 1 ∷ 0 ∷ 1 ∷ 1 ∷ 0 ∷ 1 ∷ 1 ∷ 1 ∷ 0 ∷ 1 ∷ 0 ∷ 1 ∷ 1 ∷ 0 ∷ 0 ∷ 0 ∷ 1 ∷ 1 ∷ 0 ∷ 0 ∷ 1 ∷ 0 ∷ 1
    ∷ 1 ∷ 1 ∷ 1 ∷ 0 ∷ 0 ∷ 0 ∷ 0 ∷ 0 ∷ 0 ∷ 1 ∷ 0 ∷ 0 ∷ 1 ∷ 0 ∷ 0 ∷ 0 ∷ 1 ∷ 0 ∷ 1 ∷ 0 ∷ 0 ∷ 1 ∷ 1 ∷ 1
    ∷ 0 ∷ 0 ∷ 1 ∷ 1 ∷ 0 ∷ 1 ∷ 0 ∷ 0 ∷ 0 ∷ 0 ∷ 1 ∷ 1 ∷ 1 ∷ 1 ∷ []

-- What the loop of `KeyExpansion` stores into `k[i]`.
unfoldable pub next_key : ℕ → List ℕ → ℕ
unfolding rotate_right
next_key i k =
    let tmp₁ = rotate_right 32 (get_or k (i - 1) 0) 3 in
    let tmp₂ = bit_xor tmp₁ (get_or k (i - 3) 0) in
    let tmp₃ = bit_xor tmp₂ (rotate_right 32 tmp₂ 1) in
    bit_xor (bit_xor (bit_xor (complement 32 (get_or k (i - 4) 0)) tmp₃) (get_or z_bits (i - 4) 0))
      3

unfoldable pub key_expansion : List ℕ → List ℕ
unfolding expand_loop next_key
key_expansion k = expand_loop next_key 40 4 k

-- Both functions overwrite `key` as well: the result has the block and the keys.
unfoldable pub encrypt : Block → List ℕ → record { crypt : Block; key : List ℕ }
unfolding key_expansion encrypt_loop
encrypt text key =
    let expanded = key_expansion key in
    record { crypt = encrypt_loop 32 expanded 44 0 text; key = expanded }

unfoldable pub decrypt : Block → List ℕ → record { crypt : Block; key : List ℕ }
unfolding key_expansion decrypt_loop
decrypt text key =
    let expanded = key_expansion key in
    record { crypt = decrypt_loop 32 expanded 43 44 0 text; key = expanded }

next_key-IsLocal : IsLocal 4 next_key
unfolding next_key
next_key-IsLocal i j k v p q = rw (
  get_or-set_ne k j (i - 1) v 0 (omega arith),
  get_or-set_ne k j (i - 3) v 0 (omega arith),
  get_or-set_ne k j (i - 4) v 0 (omega arith),
)

-- Expanding a key array of at least 44 words that has been expanded changes nothing.
pub narrow_key_expansion_idem :
    (k : List ℕ) → 44 ≤ length k → key_expansion (key_expansion k) ≡ key_expansion k
unfolding key_expansion
narrow_key_expansion_idem k fits = expand_loop_idem next_key 4 next_key-IsLocal 40 k fits

-- Decryption gives the text back, with a fresh copy of the key as well as with the array that the
-- encryption has expanded in place, if that holds at least 44 words.
pub narrow_decrypt-encrypt :
    (text : Block) (key : List ℕ)
    → 44 ≤ length key
    → ((decrypt (encrypt text key).crypt key).crypt ≡ text)
      × ((decrypt (encrypt text key).crypt (encrypt text key).key).crypt ≡ text)
unfolding encrypt decrypt
narrow_decrypt-encrypt text key fits =
    let fresh = decrypt_loop-encrypt_loop 32 (key_expansion key) 43 44 0 text refl in
    (fresh, rw (narrow_key_expansion_idem key fits) fresh)

-- Encryption gives back the text that was decrypted, with a fresh copy of the key as well as with
-- the array that the decryption has expanded in place, if that holds at least 44 words.
pub narrow_encrypt-decrypt :
    (text : Block) (key : List ℕ)
    → 44 ≤ length key
    → ((encrypt (decrypt text key).crypt key).crypt ≡ text)
      × ((encrypt (decrypt text key).crypt (decrypt text key).key).crypt ≡ text)
unfolding encrypt decrypt
narrow_encrypt-decrypt text key fits =
    let fresh = encrypt_loop-decrypt_loop 32 (key_expansion key) 43 44 0 text refl in
    (fresh, rw (narrow_key_expansion_idem key fits) fresh)
