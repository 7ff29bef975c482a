-- ===== src/Simon/Tests.antt =====
-- The inputs of the two files' `main`, and the theorems at them.
use saw_script.Base.{ℕ, List, [], ◌∷◌, ◌++◌, replicate, ◌≡◌, refl, arith}
use saw_script.Simon.{Block}
use saw_script.Simon.Narrow
use saw_script.Simon.Wide

abbrev narrow_text : Block
narrow_text = record { fst = 0x656b696c; snd = 0x20646e75 }

abbrev narrow_key : List ℕ
narrow_key = (0x03020100 ∷ 0x0b0a0908 ∷ 0x13121110 ∷ 0x1b1a1918 ∷ []) ++ replicate 40 0

abbrev wide_text : Block
wide_text = record { fst = 0x6373656420737265; snd = 0x6c6c657661727420 }

abbrev wide_key : List ℕ
wide_key = (0x0706050403020100 ∷ 0x0f0e0d0c0b0a0908 ∷ []) ++ replicate 66 0

narrow_vector :
    (Narrow.encrypt narrow_text narrow_key).crypt ≡ record { fst = 0x44c8fc20; snd = 0xb9dfa07a }
unfolding Narrow.encrypt
narrow_vector = refl

wide_vector :
    (Wide.encrypt wide_text wide_key).crypt
    ≡ record { fst = 0x49681b1e1e54fe3f; snd = 0x65aa832af84e0bbc }
unfolding Wide.encrypt
wide_vector = refl

narrow_decrypt-encrypt_example :
    ((Narrow.decrypt (Narrow.encrypt narrow_text narrow_key).crypt narrow_key).crypt ≡ narrow_text)
    × ((Narrow.decrypt
          (Narrow.encrypt narrow_text narrow_key).crypt
          (Narrow.encrypt narrow_text narrow_key).key).crypt
        ≡ narrow_text)
narrow_decrypt-encrypt_example = Narrow.narrow_decrypt-encrypt narrow_text narrow_key (omega arith)

narrow_encrypt-decrypt_example :
    ((Narrow.encrypt (Narrow.decrypt narrow_text narrow_key).crypt narrow_key).crypt ≡ narrow_text)
    × ((Narrow.encrypt
          (Narrow.decrypt narrow_text narrow_key).crypt
          (Narrow.decrypt narrow_text narrow_key).key).crypt
        ≡ narrow_text)
narrow_encrypt-decrypt_example = Narrow.narrow_encrypt-decrypt narrow_text narrow_key (omega arith)

wide_decrypt-encrypt_example :
    ((Wide.decrypt (Wide.encrypt wide_text wide_key).crypt wide_key).crypt ≡ wide_text)
    × ((Wide.decrypt
          (Wide.encrypt wide_text wide_key).crypt
          (Wide.encrypt wide_text wide_key).key).crypt
        ≡ wide_text)
wide_decrypt-encrypt_example = Wide.wide_decrypt-encrypt wide_text wide_key (omega arith)

wide_encrypt-decrypt_example :
    ((Wide.encrypt (Wide.decrypt wide_text wide_key).crypt wide_key).crypt ≡ wide_text)
    × ((Wide.encrypt
          (Wide.decrypt wide_text wide_key).crypt
          (Wide.decrypt wide_text wide_key).key).crypt
        ≡ wide_text)
wide_encrypt-decrypt_example = Wide.wide_encrypt-decrypt wide_text wide_key (omega arith)
