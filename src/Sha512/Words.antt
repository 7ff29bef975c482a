-- ===== src/Sha512/Words.antt =====
-- sha512.c: byte swaps, big-endian loads and stores, the rotation, and the six functions on words.
-- `memcpy` between a word and its bytes is that of a little-endian host.
use saw_script.Base.{
  ℕ, zero, suc, ◌+◌, ◌*◌, ◌%◌, ◌^◌, List, [], ◌∷◌, get_or, bit_and, bit_or, bit_xor, shl, shr, sub,
  complement,
}

unfoldable pub bswap2 : ℕ → ℕ
bswap2 x = bit_or (shr x 8) (shl 16 x 8)

unfoldable pub bswap4 : ℕ → ℕ
bswap4 x =
    let y = bit_or (shr x 16) (shl 32 x 16) in
    bit_or (shr (bit_and y 0xff00ff00) 8) (shl 32 (bit_and y 0x00ff00ff) 8)

-- The arguments of `CRYPTO_bswap4` are converted to 32 bits.
unfoldable pub bswap8 : ℕ → ℕ
unfolding bswap4
bswap8 x = bit_or (bswap4 (shr x 32 % 2 ^ 32)) (shl 64 (bswap4 (x % 2 ^ 32)) 32)

-- `memcpy(&ret, ptr, n)`: the value of `n` bytes from `at` on, the lowest byte first.
unfoldable pub host_word : ℕ → List ℕ → ℕ → ℕ
host_word zero bytes at = 0
host_word (suc n) bytes at = get_or bytes at 0 + host_word n bytes (at + 1) * 2 ^ 8

-- `memcpy(out, &v, n)`: the bytes that are written, in order.
unfoldable pub host_bytes : ℕ → ℕ → List ℕ
host_bytes zero v = []
host_bytes (suc n) v = (v % 2 ^ 8) ∷ host_bytes n (shr v 8)

unfoldable pub load_u64_be : List ℕ → ℕ → ℕ
load_u64_be bytes at = bswap8 (host_word 8 bytes at)

unfoldable pub store_u64_be : ℕ → List ℕ
store_u64_be v = host_bytes 8 (bswap8 v)

-- `(-shift) & 63` is computed on 32-bit integers.
unfoldable pub rotr_u64 : ℕ → ℕ → ℕ
rotr_u64 value shift = bit_or (shr value shift) (shl 64 value (bit_and (sub 32 0 shift) 63))

unfoldable pub big_sigma0 : ℕ → ℕ
unfolding rotr_u64
big_sigma0 x = bit_xor (bit_xor (rotr_u64 x 28) (rotr_u64 x 34)) (rotr_u64 x 39)

unfoldable pub big_sigma1 : ℕ → ℕ
unfolding rotr_u64
big_sigma1 x = bit_xor (bit_xor (rotr_u64 x 14) (rotr_u64 x 18)) (rotr_u64 x 41)

unfoldable pub small_sigma0 : ℕ → ℕ
unfolding rotr_u64
small_sigma0 x = bit_xor (bit_xor (rotr_u64 x 1) (rotr_u64 x 8)) (shr x 7)

unfoldable pub small_sigma1 : ℕ → ℕ
unfolding rotr_u64
small_sigma1 x = bit_xor (bit_xor (rotr_u64 x 19) (rotr_u64 x 61)) (shr x 6)

unfoldable pub ch : ℕ → ℕ → ℕ → ℕ
ch x y z = bit_xor (bit_and x y) (bit_and (complement 64 x) z)

unfoldable pub maj : ℕ → ℕ → ℕ → ℕ
maj x y z = bit_xor (bit_xor (bit_and x y) (bit_and x z)) (bit_and y z)
