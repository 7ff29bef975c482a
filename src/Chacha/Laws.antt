-- ===== src/Chacha/Laws.antt =====
-- The stream functions of chacha20.c against the cipher's description: byte `j` of the key stream
-- is byte `j % 64` of the block at counter `counter + j / 64`.
use native.Mathlib.Nat.{mod-eq_of_lt, div-eq_of_lt}
use saw_script.Base.{
  ℕ, zero, suc, ◌+◌, ◌-◌, ◌/◌, ◌%◌, ◌^◌, ◌≤◌, ◌<◌, ◌≡◌, refl, ap, ◌∙◌, inl, inr, arith, List,
  Option, some, length, get_or, set, length-set, set-get_or, set-set, get_or-set_self, bit_xor, add,
  leb, Bool-cases,
}
use saw_script.Base.Region.{
  IsXored, CanStream, IsXored-empty, IsXored-set, IsXored-append, IsXored-shift, IsXored-congr,
  IsXored-twice,
}
use saw_script.Chacha.Block.{core, kexp}
use saw_script.Chacha.Stream.{xor_loop, stream_loop, stream_xor}

-- The state whose block counter is `n` further on.
abbrev pub advance : ℕ → List ℕ → List ℕ
advance n st = set st 12 (add 32 (get_or st 12 0) n)

-- The key stream from the state `st` on.
abbrev pub stream_byte : List ℕ → ℕ → ℕ
stream_byte st j = get_or (core (advance (j / 64) st)) (j % 64) 0

-- The key stream that a key, a nonce and a first counter give.
pub keystream : ℕ → List ℕ → List ℕ → ℕ → ℕ
keystream counter nonce key j = get_or (core (kexp (add 32 counter (j / 64)) nonce key)) (j % 64) 0

module _ (blk : List ℕ) (out msg n : ℕ) (can : CanStream out msg n) where
  pub xor_loop-IsXored :
      (left i hi : ℕ) (mem : List ℕ)
      → i + left ≡ hi
      → hi ≤ n
      → out + n ≤ length mem
      → IsXored (λ j. get_or blk j 0) out msg i hi mem (xor_loop blk out msg left i mem)
  unfolding xor_loop
  xor_loop-IsXored zero i hi mem e h fits =
      let none_left : hi ≡ i = omega arith in rw none_left (IsXored-empty _ out msg i mem)
  xor_loop-IsXored (suc left) i hi mem e h fits =
      let v = bit_xor (get_or mem (msg + i) 0) (get_or blk i 0) in
      IsXored-append _ out msg n i (i + 1) hi mem (set mem (out + i) v) _ can (omega arith)
        (omega arith) h (IsXored-set _ out msg i v mem (omega arith) refl)
        (xor_loop-IsXored left (i + 1) hi (set mem (out + i) v) (omega arith) h
          (omega (arith, length-set mem (out + i) v)))

-- A state has 16 words, and its counter is a word.
pub record IsState (st : List ℕ) : Type 0 where
  pub size : length st ≡ 16
  pub counter_fits : get_or st 12 0 < 2 ^ 32

advance-IsState : (n : ℕ) (st : List ℕ) → IsState st → IsState (advance n st)
advance-IsState n st v = record {
  size = length-set st 12 _ ∙ v.size;
  counter_fits =
      rw (get_or-set_self st 12 (add 32 (get_or st 12 0) n) 0 (omega arith)) (omega arith);
}

advance_zero : (st : List ℕ) → IsState st → advance 0 st ≡ st
advance_zero st v =
    let same : add 32 (get_or st 12 0) 0 ≡ get_or st 12 0 = omega arith in
    rw same (set-get_or st 12 0)

advance-advance :
    (a b : ℕ) (st : List ℕ) → IsState st → advance a (advance b st) ≡ advance (b + a) st
advance-advance a b st v =
    let word : add 32 (add 32 (get_or st 12 0) b) a ≡ add 32 (get_or st 12 0) (b + a) =
      omega arith in
    rw (get_or-set_self st 12 (add 32 (get_or st 12 0) b) 0 (omega arith), set-set, word)

-- The first 64 bytes of the key stream, and those after them.
stream_byte_first :
    (st : List ℕ) (j : ℕ) → IsState st → j < 64 → get_or (core st) j 0 ≡ stream_byte st j
stream_byte_first st j v h =
    rw (div-eq_of_lt {n = j} {m = 64} h, mod-eq_of_lt {n = j} {m = 64} h, advance_zero st v)

stream_byte_later :
    (st : List ℕ) (j : ℕ) → IsState st → stream_byte (advance 1 st) j ≡ stream_byte st (64 + j)
stream_byte_later st j v =
    let block : (64 + j) / 64 ≡ 1 + j / 64 = omega arith in
    let byte : (64 + j) % 64 ≡ j % 64 = omega arith in
    rw (block, byte, advance-advance (j / 64) 1 st v)

-- What the function has done when it returns.
pub record Streams (ks : ℕ → ℕ) (out msg n : ℕ) (mem : List ℕ) (result : Option (List ℕ))
    : Type 0 where
  pub after : List ℕ
  pub returns : result ≡ some after
  pub xored : IsXored ks out msg 0 n mem after

module _ (st : List ℕ) (v : IsState st) (out msg mlen : ℕ) (can : CanStream out msg mlen)
    (mem : List ℕ) (fits : out + mlen ≤ length mem) where
  -- One block, or the beginning of one.
  first_block :
      (n : ℕ)
      → n ≤ 64
      → n ≤ mlen
      → IsXored (stream_byte st) out msg 0 n mem (xor_loop (core st) out msg n 0 mem)
  first_block n h k =
      IsXored-congr (stream_byte st) (λ j. get_or (core st) j 0) out msg n mem _
        (λ j below. stream_byte_first st j v (omega arith))
        (xor_loop-IsXored (core st) out msg mlen can n 0 n mem (omega arith) k fits)

  -- A whole block, and what the loop does from the next state on.
  block_then :
      (result : Option (List ℕ))
      → 64 < mlen
      → Streams
          (stream_byte (advance 1 st))
          (out + 64)
          (msg + 64)
          (mlen - 64)
          (xor_loop (core st) out msg 64 0 mem)
          result
      → Streams (stream_byte st) out msg mlen mem result
  block_then result long rest =
      let whole : 64 + (mlen - 64) ≡ mlen = omega arith in
      let mid = xor_loop (core st) out msg 64 0 mem in
      let tail : IsXored (stream_byte st) out msg 64 (64 + (mlen - 64)) mid rest.after =
        IsXored-shift (stream_byte st) (stream_byte (advance 1 st)) out msg 64 (mlen - 64) mid
          rest.after (λ j. stream_byte_later st j v) rest.xored in
      record {
        after = rest.after;
        returns = rest.returns;
        xored =
            IsXored-append (stream_byte st) out msg mlen 0 64 mlen mem mid rest.after can
              (omega arith) (omega arith) (omega arith) (first_block 64 (omega arith) (omega arith))
              (rw whole at tail);
      }

-- From any state, with more fuel than there are whole blocks, the loop returns and has mixed the
-- key stream of the state into the message.
pub stream_loop-Streams :
    (fuel : ℕ) (st : List ℕ) (out msg mlen : ℕ) (mem : List ℕ)
    → mlen / 64 < fuel
    → IsState st
    → CanStream out msg mlen
    → out + mlen ≤ length mem
    → Streams (stream_byte st) out msg mlen mem (stream_loop fuel st out msg mlen mem)
unfolding stream_loop
stream_loop-Streams zero st out msg mlen mem enough v can fits = absurd (omega arith)
stream_loop-Streams (suc fuel) st out msg mlen mem enough v can fits =
    elim (Bool-cases (leb mlen 64)) [
      | inl short ↦ rw short (record {
        after = xor_loop (core st) out msg mlen 0 mem;
        returns = refl;
        xored = first_block st v out msg mlen can mem fits mlen (ground arith) (omega arith);
      })
      | inr long ↦
          let more : 64 < mlen = ground arith in
          let mid = xor_loop (core st) out msg 64 0 mem in
          let kept : length mid ≡ length mem =
            (first_block st v out msg mlen can mem fits 64 (omega arith)
              (omega arith)).same_length in
          rw long (
            block_then st v out msg mlen can mem fits _ more (
              stream_loop-Streams fuel (advance 1 st) (out + 64) (msg + 64) (mlen - 64) mid
                (omega arith) (advance-IsState 1 st v) (omega arith) (omega arith)))
    ]

kexp-IsState :
    (counter : ℕ) (nonce key : List ℕ) → counter < 2 ^ 32 → IsState (kexp counter nonce key)
unfolding kexp
kexp-IsState counter nonce key h = record { size = refl; counter_fits = h }

stream_byte-kexp :
    (counter : ℕ) (nonce key : List ℕ) (j : ℕ)
    → stream_byte (kexp counter nonce key) j ≡ keystream counter nonce key j
unfolding kexp keystream
stream_byte-kexp counter nonce key j = refl

-- `crypto_stream_chacha20_xor` returns, and then the `mlen` bytes at `out` are those that were at
-- `msg`, mixed byte by byte with the key stream, and no other byte has changed; this holds if the
-- counter is a 32-bit number, `out` has room, and `out` is not inside the message past its start.
pub stream_xor-Streams :
    (out msg mlen counter : ℕ) (nonce key mem : List ℕ)
    → counter < 2 ^ 32
    → CanStream out msg mlen
    → out + mlen ≤ length mem
    → Streams
        (keystream counter nonce key)
        out
        msg
        mlen
        mem
        (stream_xor out msg mlen counter nonce key mem)
unfolding stream_xor
stream_xor-Streams out msg mlen counter nonce key mem h can fits =
    let run =
      stream_loop-Streams (mlen / 64 + 1) (kexp counter nonce key) out msg mlen mem (omega arith)
        (kexp-IsState counter nonce key h) can fits in
    record {
      after = run.after;
      returns = run.returns;
      xored =
          IsXored-congr _ _ out msg mlen mem run.after (λ j _. stream_byte-kexp counter nonce key j)
            run.xored;
    }

-- Encrypting in place and then decrypting with the same counter, nonce and key gives the memory
-- back: both calls return.
pub stream_xor_twice :
    (buf len counter : ℕ) (nonce key mem : List ℕ)
    → counter < 2 ^ 32
    → buf + len ≤ length mem
    → (mid : List ℕ) × (stream_xor buf buf len counter nonce key mem ≡ some mid)
      × (stream_xor buf buf len counter nonce key mid ≡ some mem)
stream_xor_twice buf len counter nonce key mem h fits =
    (there.after, there.returns, back.returns ∙ ap some restored)
  where
    there :
        Streams
          (keystream counter nonce key)
          buf
          buf
          len
          mem
          (stream_xor buf buf len counter nonce key mem)
    there = stream_xor-Streams buf buf len counter nonce key mem h (inl (omega arith)) fits

    back :
        Streams
          (keystream counter nonce key)
          buf
          buf
          len
          there.after
          (stream_xor buf buf len counter nonce key there.after)
    back =
        stream_xor-Streams buf buf len counter nonce key there.after h (inl (omega arith))
          (omega (arith, there.xored.same_length))

    restored : back.after ≡ mem
    restored = IsXored-twice _ buf len mem there.after back.after there.xored back.xored
