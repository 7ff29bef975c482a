-- ===== src/Salsa/Laws.antt =====
-- What `s20_crypt32` does to the buffer: byte `i` is mixed with the byte of the key stream at the
-- position `si + i`, whatever the call started from.
use saw_script.Base.{
  ℕ, zero, suc, ◌+◌, ◌/◌, ◌%◌, ◌^◌, ◌≤◌, ◌<◌, ◌≡◌, ◌≢◌, ◌∙◌, refl, sym, ap, ap₂, subst, arith, inl,
  inr, List, length, get_or, set, replicate, bit_xor, add, length-set, ◌==◌, ==-false, Bool-cases,
}
use saw_script.Base.Region.{IsXored, IsXored-empty, IsXored-set, IsXored-append}
use saw_script.Salsa.{expand32, nonce_loop, crypt_loop, crypt_bytes}
use saw_script.Salsa.Core.{rev_littleendian}
use saw_script.Salsa.Expand.{expand32_overwrites, number_overwrites, length-expand32}

-- The array `n` for a block number, and the block of key stream of that number.
abbrev pub start : List ℕ → List ℕ
start nonce = nonce_loop nonce 8 0 (replicate 16 0)

abbrev pub block : List ℕ → List ℕ → ℕ → List ℕ
block key nonce number = expand32 key (rev_littleendian (start nonce) 8 number) (replicate 64 0)

-- The key stream from the position `si` on; positions wrap as 32-bit numbers.
abbrev pub stream_byte : List ℕ → List ℕ → ℕ → ℕ → ℕ
stream_byte key nonce si j =
    get_or (block key nonce ((si + j) % 2 ^ 32 / 64)) ((si + j) % 2 ^ 32 % 64) 0

length-nonce_loop :
    (nonce : List ℕ) (left i : ℕ) (n : List ℕ) → length (nonce_loop nonce left i n) ≡ length n
unfolding nonce_loop
length-nonce_loop nonce zero i n = refl
length-nonce_loop nonce (suc left) i n =
    length-nonce_loop nonce left (i + 1) (set n i (get_or nonce i 0)) ∙ length-set n i _

-- The loop's state before the byte at position `at`: `n` is the nonce with any block number, and
-- within a block the key stream is that block's.
record IsReady (key nonce : List ℕ) (at : ℕ) (n keystream : List ℕ) : Type 0 where
  number : (w : ℕ) → rev_littleendian n 8 w ≡ rev_littleendian (start nonce) 8 w
  size : length keystream ≡ 64
  current : at % 64 ≢ 0 → keystream ≡ block key nonce (at / 64)

module _ (key nonce : List ℕ) where
  n_size : length (start nonce) ≡ 16
  n_size = length-nonce_loop nonce 8 0 (replicate 16 0)

  number_again :
      (n : List ℕ) (v : ℕ)
      → ((w : ℕ) → rev_littleendian n 8 w ≡ rev_littleendian (start nonce) 8 w)
      → (w : ℕ) → rev_littleendian (rev_littleendian n 8 v) 8 w ≡ rev_littleendian (start nonce) 8 w
  number_again n v h w =
      ap (λ (t : List ℕ). rev_littleendian t 8 w) (h v) ∙ number_overwrites (start nonce) v w n_size

  -- Making the block of a number, from any state.
  fresh_block :
      (n keystream : List ℕ) (number : ℕ)
      → rev_littleendian n 8 number ≡ rev_littleendian (start nonce) 8 number
      → length keystream ≡ 64
      → expand32 key (rev_littleendian n 8 number) keystream ≡ block key nonce number
  fresh_block n keystream number e size =
      ap (λ (t : List ℕ). expand32 key t keystream) e
      ∙ expand32_overwrites key _ keystream (replicate 64 0) size refl

  length-block : (number : ℕ) → length (block key nonce number) ≡ 64
  length-block number = length-expand32 key _ (replicate 64 0)

  IsReady-next :
      (si i : ℕ) (n keystream : List ℕ)
      → ((w : ℕ) → rev_littleendian n 8 w ≡ rev_littleendian (start nonce) 8 w)
      → keystream ≡ block key nonce (add 32 si i / 64)
      → IsReady key nonce (add 32 si (i + 1)) n keystream
  IsReady-next si i n keystream number here = record {
    number = number;
    size = ap length here ∙ length-block (add 32 si i / 64);
    current = λ inside. here ∙ ap (block key nonce) (omega arith);
  }

  one_write :
      (si i : ℕ) (keystream buf : List ℕ)
      → i < length buf
      → keystream ≡ block key nonce (add 32 si i / 64)
      → IsXored
          (stream_byte key nonce si)
          0
          0
          i
          (i + 1)
          buf
          (set buf i (bit_xor (get_or buf i 0) (get_or keystream (add 32 si i % 64) 0)))
  one_write si i keystream buf fits here =
      let v : ℕ = bit_xor (get_or buf i 0) (get_or keystream (add 32 si i % 64) 0) in
      let at : 0 + i ≡ i = omega arith in
      subst (λ (t : ℕ). IsXored (stream_byte key nonce si) 0 0 i (i + 1) buf (set buf t v)) at
        (IsXored-set (stream_byte key nonce si) 0 0 i v buf (omega arith) (
          ap₂ (λ (p : ℕ) (t : List ℕ). bit_xor (get_or buf p 0) (get_or t (add 32 si i % 64) 0))
            (sym at) here))

  -- One byte, before the bytes that the recursive call mixes.
  one_byte :
      (si left i : ℕ) (keystream buf after : List ℕ)
      → i + suc left ≤ length buf
      → keystream ≡ block key nonce (add 32 si i / 64)
      → IsXored
          (stream_byte key nonce si)
          0
          0
          (i + 1)
          (i + 1 + left)
          (set buf i (bit_xor (get_or buf i 0) (get_or keystream (add 32 si i % 64) 0)))
          after
      → IsXored (stream_byte key nonce si) 0 0 i (i + suc left) buf after
  one_byte si left i keystream buf after fits here rest =
      let mid : List ℕ =
        set buf i (bit_xor (get_or buf i 0) (get_or keystream (add 32 si i % 64) 0)) in
      IsXored-append (stream_byte key nonce si) 0 0 (i + suc left) i (i + 1) (i + suc left) buf mid
        after (inl (omega arith)) (omega arith) (omega arith) (omega arith)
        (one_write si i keystream buf (omega arith) here)
        (subst (λ (t : ℕ). IsXored (stream_byte key nonce si) 0 0 (i + 1) t mid after) (omega arith)
          rest)

  crypt_loop-IsXored :
      (si left i : ℕ) (n keystream buf : List ℕ)
      → IsReady key nonce (add 32 si i) n keystream
      → i + left ≤ length buf
      → IsXored
          (stream_byte key nonce si)
          0
          0
          i
          (i + left)
          buf
          (crypt_loop key si left i n keystream buf)
  unfolding crypt_loop
  crypt_loop-IsXored si zero i n keystream buf ready fits =
      subst (λ (t : ℕ). IsXored (stream_byte key nonce si) 0 0 i t buf buf) (omega arith)
        (IsXored-empty (stream_byte key nonce si) 0 0 i buf)
  crypt_loop-IsXored si (suc left) i n keystream buf ready fits =
      elim (Bool-cases (add 32 si i % 64 == 0)) [
        | inl e ↦ rw e (
            let n' = rev_littleendian n 8 (add 32 si i / 64) in
            let here = fresh_block n keystream (add 32 si i / 64) (ready.number _) ready.size in
            let again = number_again n (add 32 si i / 64) ready.number in
            one_byte si left i (expand32 key n' keystream) buf _ fits here (
              crypt_loop-IsXored si left (i + 1) n' (expand32 key n' keystream) (set buf i _)
                (IsReady-next si i n' (expand32 key n' keystream) again here)
                (rw (length-set) (omega arith))))
        | inr e ↦ rw e (
            let here = ready.current (==-false _ _ e) in
            one_byte si left i keystream buf _ fits here (
              crypt_loop-IsXored si left (i + 1) n keystream (set buf i _)
                (IsReady-next si i n keystream ready.number here) (rw (length-set) (omega arith))))
      ]

-- `s20_crypt32` mixes byte `i` of the buffer, for each `i` below `buflen`, with the byte of the key
-- stream at the position `si + i`, and changes nothing else. What `keystream` holds before the
-- call does not matter. The buffer has at least `buflen` bytes, and `si` is a 32-bit number.
pub crypt_bytes-IsXored :
    (key nonce : List ℕ) (si buflen : ℕ) (buf uninit : List ℕ)
    → si < 2 ^ 32
    → buflen ≤ length buf
    → length uninit ≡ 64
    → IsXored
        (stream_byte key nonce si)
        0
        0
        0
        buflen
        buf
        (crypt_bytes key nonce si buf buflen uninit)
unfolding crypt_bytes
crypt_bytes-IsXored key nonce si buflen buf uninit si_fits fits size =
    elim (Bool-cases (si % 64 == 0)) [
      | inl e ↦ rw e (
          from_ready (start nonce) uninit
            (record { number = λ w. refl; size = size; current = λ inside. absurd (ground arith) }))
      | inr e ↦ rw e (
          let here = fresh_block key nonce (start nonce) uninit (si / 64) refl size in
          from_ready _ _ (record {
            number = number_again key nonce (start nonce) (si / 64) (λ w. refl);
            size = ap length here ∙ length-block key nonce (si / 64);
            current = λ inside. here ∙ ap (block key nonce) (omega arith);
          }))
    ]
  where
    from_ready :
        (n keystream : List ℕ)
        → IsReady key nonce (add 32 si 0) n keystream
        → IsXored
            (stream_byte key nonce si)
            0
            0
            0
            buflen
            buf
            (crypt_loop key si buflen 0 n keystream buf)
    from_ready n keystream ready =
        subst
          (λ (t : ℕ).
            IsXored (stream_byte key nonce si) 0 0 0 t buf
              (crypt_loop key si buflen 0 n keystream buf))
          (omega arith)
          (crypt_loop-IsXored key nonce si buflen 0 n keystream buf ready (omega arith))
