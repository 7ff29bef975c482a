-- ===== src/Salsa/Seek.antt =====
-- What the key stream of `s20_crypt32` gives its callers: decryption, and seeking.
use saw_script.Base.{
  ℕ, ◌+◌, ◌-◌, ◌/◌, ◌%◌, ◌^◌, ◌≤◌, ◌<◌, ◌≡◌, ◌∙◌, sym, ap, ap₂, arith, inr, List, length, get_or,
  bit_xor, add, get_or_ext, drop, length-drop, some,
}
use saw_script.Base.Slices.{get_or-drop}
use saw_script.Base.Region.{IsXored, IsXored-twice}
use native.Mathlib.Decide.{dec_lt}
use saw_script.Salsa.{crypt_bytes, crypt32, s20_success}
use saw_script.Salsa.Laws.{block, stream_byte, crypt_bytes-IsXored}

at_zero : (i : ℕ) (xs : List ℕ) → get_or xs i 0 ≡ get_or xs (0 + i) 0
at_zero i xs = ap (λ (t : ℕ). get_or xs t 0) (omega arith)

-- Calling `s20_crypt32` again on what it wrote, with the same key, nonce and position, succeeds and
-- gives the buffer back. The buffer has at least `buflen` bytes, and `si` is a 32-bit number.
pub crypt32_twice :
    (key nonce : List ℕ) (si buflen : ℕ) (buf uninit uninit' : List ℕ)
    → si < 2 ^ 32
    → buflen ≤ length buf
    → length uninit ≡ 64
    → length uninit' ≡ 64
    → crypt32
        (some key)
        (some nonce)
        si
        (some (crypt_bytes key nonce si buf buflen uninit))
        buflen
        uninit'
      ≡ s20_success buf
unfolding crypt32
crypt32_twice key nonce si buflen buf uninit uninit' si_fits fits size size' =
    let once = crypt_bytes-IsXored key nonce si buflen buf uninit si_fits fits size in
    let again =
      crypt_bytes-IsXored key nonce si buflen (crypt_bytes key nonce si buf buflen uninit) uninit'
        si_fits (omega (arith, once.same_length)) size' in
    ap s20_success (IsXored-twice (stream_byte key nonce si) 0 buflen buf _ _ once again)

-- Seeking: the rest of the result from the byte `m` on is what a call at the position `si + m`
-- makes of the rest of the buffer, positions wrapping at 32 bits. The buffer has at least `buflen`
-- bytes, `m` is at most `buflen`, and `si` is a 32-bit number.
pub crypt_bytes-drop :
    (key nonce : List ℕ) (si m buflen : ℕ) (buf uninit uninit' : List ℕ)
    → si < 2 ^ 32
    → m ≤ buflen
    → buflen ≤ length buf
    → length uninit ≡ 64
    → length uninit' ≡ 64
    → drop m (crypt_bytes key nonce si buf buflen uninit)
      ≡ crypt_bytes key nonce (add 32 si m) (drop m buf) (buflen - m) uninit'
crypt_bytes-drop key nonce si m buflen buf uninit uninit' si_fits m_le fits size size' =
    get_or_ext 0 _ _ same_length same_byte
  where
    whole :
        IsXored
          (stream_byte key nonce si)
          0
          0
          0
          buflen
          buf
          (crypt_bytes key nonce si buf buflen uninit)
    whole = crypt_bytes-IsXored key nonce si buflen buf uninit si_fits fits size

    rest :
        IsXored
          (stream_byte key nonce (add 32 si m))
          0
          0
          0
          (buflen - m)
          (drop m buf)
          (crypt_bytes key nonce (add 32 si m) (drop m buf) (buflen - m) uninit')
    rest =
        crypt_bytes-IsXored key nonce (add 32 si m) (buflen - m) (drop m buf) uninit' (omega arith)
          (omega (arith, length-drop m buf)) size'

    same_length :
        length (drop m (crypt_bytes key nonce si buf buflen uninit))
        ≡ length (crypt_bytes key nonce (add 32 si m) (drop m buf) (buflen - m) uninit')
    same_length = omega (
      arith,
      length-drop m (crypt_bytes key nonce si buf buflen uninit),
      length-drop m buf,
      whole.same_length,
      rest.same_length,
    )

    position : (i : ℕ) → (si + (m + i)) % 2 ^ 32 ≡ (add 32 si m + i) % 2 ^ 32
    position i = omega arith

    same_byte :
        (i : ℕ)
        → get_or (drop m (crypt_bytes key nonce si buf buflen uninit)) i 0
          ≡ get_or (crypt_bytes key nonce (add 32 si m) (drop m buf) (buflen - m) uninit') i 0
    same_byte i = elim (dec_lt i (buflen - m)) [
      | yes p ↦
          get_or-drop m (crypt_bytes key nonce si buf buflen uninit) i 0
          ∙ (at_zero (m + i) _
              ∙ (whole.inside (m + i) (omega arith) (omega arith)
                  ∙ (ap₂ bit_xor (sym (at_zero (m + i) buf) ∙ sym (get_or-drop m buf i 0))
                        (ap (λ (t : ℕ). get_or (block key nonce (t / 64)) (t % 64) 0) (position i))
                      ∙ (ap (λ (t : ℕ). bit_xor t (stream_byte key nonce (add 32 si m) i))
                            (at_zero i (drop m buf))
                          ∙ (sym (rest.inside i (omega arith) p) ∙ sym (at_zero i _))))))
      | no np ↦
          get_or-drop m (crypt_bytes key nonce si buf buflen uninit) i 0
          ∙ (whole.outside (m + i) (inr (omega arith))
              ∙ (sym (get_or-drop m buf i 0) ∙ sym (rest.outside i (inr (omega arith)))))
    ]
