-- ===== src/Chacha/Tests.antt =====
-- The first test vector of the file, and the theorems at concrete inputs.
use saw_script.Base.{ℕ, List, [], ◌∷◌, ◌++◌, ◌≡◌, refl, inl, arith, replicate, take, some}
use saw_script.Chacha.Block.{core, kexp, load32, store32}
use saw_script.Chacha.Stream.{stream_xor, stream}
use saw_script.Chacha.Laws.{keystream, Streams, stream_xor-Streams, stream_xor_twice}
use saw_script.Chacha.Keystream.{Fills, stream-Fills}
use saw_script.Chacha.Words.{load32-store32}

abbrev key : List ℕ
key = replicate 32 0

abbrev nonce : List ℕ
nonce = replicate 12 0

first_block :
    take 8 (core (kexp 0 nonce key)) ≡ 0x76 ∷ 0xb8 ∷ 0xe0 ∷ 0xad ∷ 0xa0 ∷ 0xf1 ∷ 0x3d ∷ 0x90 ∷ []
unfolding core kexp
first_block = refl

-- The second half of the memory is encrypted into the first.
abbrev memory : List ℕ
memory = replicate 140 65

stream_xor-Streams_example :
    Streams (keystream 1 nonce key) 0 70 70 memory (stream_xor 0 70 70 1 nonce key memory)
stream_xor-Streams_example =
    stream_xor-Streams 0 70 70 1 nonce key memory (omega arith) (inl (omega arith)) (omega arith)

stream_xor_twice_example :
    (mid : List ℕ) × (stream_xor 3 3 70 1 nonce key memory ≡ some mid)
    × (stream_xor 3 3 70 1 nonce key mid ≡ some memory)
stream_xor_twice_example = stream_xor_twice 3 70 1 nonce key memory (omega arith) (omega arith)

stream-Fills_example : Fills (keystream 7 nonce key) 2 70 memory (stream 2 70 7 nonce key memory)
stream-Fills_example = stream-Fills 2 70 7 nonce key memory (omega arith) (omega arith)

load32-store32_example : load32 (store32 0x12345678 ++ (1 ∷ [])) 0 ≡ 0x12345678
load32-store32_example = load32-store32 0x12345678 (1 ∷ []) (omega arith)
