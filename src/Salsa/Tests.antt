-- ===== src/Salsa/Tests.antt =====
-- Runs of salsa20.c, and the theorems at them.
use saw_script.Base.{ℕ, ◌≡◌, refl, arith, List, [], ◌∷◌, replicate, drop, none, some}
use saw_script.Base.Region.{IsXored}
use saw_script.Salsa.{crypt_bytes, crypt32, s20_success, s20_failure}
use saw_script.Salsa.Core.{quarterround, mix}
use saw_script.Salsa.Laws.{stream_byte, crypt_bytes-IsXored}
use saw_script.Salsa.Seek.{crypt32_twice, crypt_bytes-drop}

-- The specification's examples for the quarter round.
quarterround_vector :
    quarterround (0xe7e8c006 ∷ 0xc4f9417d ∷ 0x6479b4b2 ∷ 0x68c67137 ∷ []) 0 1 2 3
    ≡ 0xe876d72b ∷ 0x9361dfd5 ∷ 0xf1460244 ∷ 0x948541a3 ∷ []
unfolding quarterround mix
quarterround_vector = refl

-- A null pointer.
null_buffer : crypt32 (some []) (some []) 0 none 0 [] ≡ s20_failure
unfolding crypt32
null_buffer = refl

abbrev key : List ℕ
key = replicate 32 7

abbrev nonce : List ℕ
nonce = replicate 8 3

abbrev text : List ℕ
text = 0x68 ∷ 0x65 ∷ 0x6c ∷ 0x6c ∷ 0x6f ∷ []

-- The position 62 is inside a block, and the run crosses into the next one.
crypt_bytes-IsXored_example :
    IsXored
      (stream_byte key nonce 62)
      0
      0
      0
      5
      text
      (crypt_bytes key nonce 62 text 5 (replicate 64 9))
crypt_bytes-IsXored_example =
    crypt_bytes-IsXored key nonce 62 5 text (replicate 64 9) (omega arith) (omega arith) refl

crypt32_twice_example :
    crypt32
      (some key)
      (some nonce)
      62
      (some (crypt_bytes key nonce 62 text 5 (replicate 64 9)))
      5
      (replicate 64 0)
    ≡ s20_success text
crypt32_twice_example =
    crypt32_twice key nonce 62 5 text (replicate 64 9) (replicate 64 0) (omega arith) (omega arith)
      refl refl

crypt_bytes-drop_example :
    drop 2 (crypt_bytes key nonce 62 text 5 (replicate 64 9))
    ≡ crypt_bytes key nonce 64 (drop 2 text) 3 (replicate 64 0)
crypt_bytes-drop_example =
    crypt_bytes-drop key nonce 62 2 5 text (replicate 64 9) (replicate 64 0) (omega arith)
      (omega arith) (omega arith) refl refl
