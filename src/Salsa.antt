-- ===== src/Salsa.antt =====
-- examples/salsa20/salsa20.c. Arrays are lists; a function that writes through a pointer gives the
-- array's new contents. The buffer, the key and the nonce do not overlap.
mod Core
pub mod Expand
mod Expand16
pub mod Laws
pub mod Seek
mod Tests
use Core.{rev_littleendian, hash}
use saw_script.Base.{
  ℕ, zero, suc, ◌+◌, ◌*◌, ◌/◌, ◌%◌, List, [], ◌∷◌, Option, none, some, get_or, set, replicate,
  bit_xor, add, if◌then◌else◌, ◌==◌, not,
}

-- `t[i / 20][j]`, the bytes of "expand 32-byte k" for `o`.
abbrev o : List ℕ
o =
    0x65 ∷ 0x78 ∷ 0x70 ∷ 0x61 ∷ 0x6e ∷ 0x64 ∷ 0x20 ∷ 0x33 ∷ 0x32 ∷ 0x2d ∷ 0x62 ∷ 0x79 ∷ 0x74 ∷ 0x65
    ∷ 0x20 ∷ 0x6b ∷ []

-- The inner loop over `j`.
unfoldable pub word_loop : ℕ → ℕ → ℕ → List ℕ → List ℕ
word_loop zero i j keystream = keystream
word_loop (suc left) i j keystream =
    word_loop left i (j + 1) (set keystream (i + j) (get_or o (4 * (i / 20) + j) 0))

-- The outer loop, in steps of 20.
unfoldable pub constants_loop : ℕ → ℕ → List ℕ → List ℕ
constants_loop zero i keystream = keystream
constants_loop (suc left) i keystream = constants_loop left (i + 20) (word_loop 4 i 0 keystream)

-- The loop that copies the key and the nonce.
unfoldable pub copy_loop : List ℕ → List ℕ → ℕ → ℕ → List ℕ → List ℕ
copy_loop k n zero i keystream = keystream
copy_loop k n (suc left) i keystream =
    let a = set keystream (4 + i) (get_or k i 0) in
    let b = set a (44 + i) (get_or k (i + 16) 0) in
    copy_loop k n left (i + 1) (set b (24 + i) (get_or n i 0))

unfoldable pub expand32 : List ℕ → List ℕ → List ℕ → List ℕ
expand32 k n keystream = hash (copy_loop k n 16 0 (constants_loop 4 0 keystream))

unfoldable pub nonce_loop : List ℕ → ℕ → ℕ → List ℕ → List ℕ
nonce_loop nonce zero i n = n
nonce_loop nonce (suc left) i n = nonce_loop nonce left (i + 1) (set n i (get_or nonce i 0))

-- One round of the loop of `s20_crypt32` is before the recursive call.
unfoldable pub crypt_loop : List ℕ → ℕ → ℕ → ℕ → List ℕ → List ℕ → List ℕ → List ℕ
crypt_loop key si zero i n keystream buf = buf
crypt_loop key si (suc left) i n keystream buf =
    let at = add 32 si i in
    let boundary = at % 64 == 0 in
    let n' = if boundary then rev_littleendian n 8 (at / 64) else n in
    let keystream' = if boundary then expand32 key n' keystream else keystream in
    crypt_loop key si left (i + 1) n' keystream'
      (set buf i (bit_xor (get_or buf i 0) (get_or keystream' (at % 64) 0)))

-- `uninit` is what the array `keystream` holds before anything is written to it.
unfoldable pub crypt_bytes : List ℕ → List ℕ → ℕ → List ℕ → ℕ → List ℕ → List ℕ
crypt_bytes key nonce si buf buflen uninit =
    let n = nonce_loop nonce 8 0 (replicate 16 0) in
    let inside = not (si % 64 == 0) in
    let n' = if inside then rev_littleendian n 8 (si / 64) else n in
    let keystream = if inside then expand32 key n' uninit else uninit in
    crypt_loop key si buflen 0 n' keystream buf

-- S20_FAILURE, or S20_SUCCESS with the new contents of `buf`.
pub data Status : Type 0 where
  s20_success : List ℕ → Status
  s20_failure : Status

-- `none` is a null pointer.
unfoldable pub crypt32 :
    Option (List ℕ) → Option (List ℕ) → ℕ → Option (List ℕ) → ℕ → List ℕ → Status
crypt32 (some key) (some nonce) si (some buf) buflen uninit =
    s20_success (crypt_bytes key nonce si buf buflen uninit)
crypt32 none _ si _ buflen uninit = s20_failure
crypt32 (some key) none si _ buflen uninit = s20_failure
crypt32 (some key) (some nonce) si none buflen uninit = s20_failure
