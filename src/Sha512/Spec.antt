-- ===== src/Sha512/Spec.antt =====
-- The hash function that sha512.c implements, on a whole message: the padding of FIPS 180-4, and
-- the blocks of the padded message hashed in order.
use saw_script.Base.{ℕ, ◌-◌, ◌*◌, ◌/◌, ◌%◌, ◌^◌, List, ◌∷◌, ◌++◌, length, replicate}
use saw_script.Sha512.Words.{store_u64_be}
use saw_script.Sha512.Constants.{initial_hash}
use saw_script.Sha512.Rounds.{block_data_order}
use saw_script.Sha512.Context.{output_words}

-- The length in bits, as two 64-bit words.
abbrev pub length_bytes : ℕ → List ℕ
length_bytes n = store_u64_be (8 * n / 2 ^ 64 % 2 ^ 64) ++ store_u64_be (8 * n % 2 ^ 64)

-- A byte 0x80, the least number of zeros that lets the length end a block, and the length.
abbrev pub padding : ℕ → List ℕ
padding n = 0x80 ∷ (replicate ((239 - n % 128) % 128) 0 ++ length_bytes n)

abbrev pub padded : List ℕ → List ℕ
padded m = m ++ padding (length m)

unfoldable pub digest : List ℕ → List ℕ
digest m = output_words (block_data_order initial_hash (padded m) (length (padded m) / 128)) 8 0
