-- ===== src/Speck/Tests.antt =====
-- The file's own test vector for 32-bit words and 4 key words, and the theorems at it.
use saw_script.Base.{
  ℕ, List, [], ◌∷◌, ◌++◌, ◌*◌, ◌^◌, replicate, ◌≡◌, ◌==◌, false, refl, arith, AllBelow,
  AllBelow-by_test, inl,
}
use saw_script.Speck.{Block, rounds, encrypt, decrypt}
use saw_script.Speck.Stats.{
  count_set_bits_32, count_set_bits_64, count_set_bits, test_vector, test_test_vector,
  confusion_once, diffusion_once,
}
use saw_script.Speck.Histogram.{IsComplete, confusion_once-IsComplete}
use saw_script.Speck.Laws.{decrypt-encrypt, encrypt-decrypt}

abbrev plain : Block
plain = record { hi = 0x3b726574; lo = 0x7475432d }

abbrev key : List ℕ
key = (0x03020100 ∷ 0x0b0a0908 ∷ 0x13121110 ∷ 0x1b1a1918 ∷ []) ++ replicate 23 0

key_fits : AllBelow (2 ^ 32) key
key_fits = AllBelow-by_test (2 ^ 32) key (omega arith) refl

encrypt_vector : (encrypt 32 4 plain key).io ≡ record { hi = 0x8c6fa548; lo = 0x454e028b }
unfolding encrypt
encrypt_vector = refl

-- `speck_encrypt` leaves the round keys in the key array, and `speck_decrypt` would expand them
-- again: decrypting needs a fresh copy of the key.
expanded_key_fails :
    ((decrypt 32 4 (encrypt 32 4 plain key).io (encrypt 32 4 plain key).keys).io.lo == plain.lo)
    ≡ false
unfolding encrypt decrypt
expanded_key_fails = refl

decrypt-encrypt_example : (decrypt 32 4 (encrypt 32 4 plain key).io key).io ≡ plain
decrypt-encrypt_example =
    decrypt-encrypt 32 (omega arith) 4 (omega arith) key key_fits plain (omega arith)

encrypt-decrypt_example : (encrypt 32 4 (decrypt 32 4 plain key).io key).io ≡ plain
encrypt-decrypt_example =
    encrypt-decrypt 32 (omega arith) 4 (omega arith) key key_fits plain (omega arith)

-- The file's own test passes in the two configurations that its vectors are for.
test_32_4 : test_test_vector 32 4 ≡ 0
unfolding test_test_vector test_vector encrypt decrypt rounds
test_32_4 = refl

test_64_2 : test_test_vector 64 2 ≡ 0
unfolding test_test_vector test_vector encrypt decrypt rounds
test_64_2 = refl

-- It has no vector for the other configurations that the file accepts.
test_64_4 : test_test_vector 64 4 ≡ 1
unfolding test_test_vector test_vector encrypt decrypt rounds
test_64_4 = refl

count_all_32 : count_set_bits 32 0xffffffff ≡ 32
unfolding count_set_bits count_set_bits_32
count_all_32 = refl

count_all_64 : count_set_bits 64 0xffffffffffffffff ≡ 64
unfolding count_set_bits count_set_bits_64
count_all_64 = refl

abbrev fresh : List ℕ
fresh = replicate 27 0

fresh_fits : AllBelow (2 ^ 32) fresh
fresh_fits = AllBelow-by_test (2 ^ 32) fresh (omega arith) refl

confusion_once-IsComplete_example :
    IsComplete (confusion_once (λ n. n * 7) 32 4 fresh fresh) 32 0
    × IsComplete (diffusion_once (λ n. n * 7) 32 4 fresh fresh) 32 0
confusion_once-IsComplete_example =
    confusion_once-IsComplete (λ n. n * 7) 32 4 fresh fresh 0 (inl refl) (omega arith) fresh_fits
      fresh_fits
