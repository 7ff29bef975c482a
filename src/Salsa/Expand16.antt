-- ===== src/Salsa/Expand16.antt =====
-- `s20_expand16` of salsa20.c, the expansion of a 16-byte key, which no other function calls.
use saw_script.Base.{
  ℕ, zero, suc, ◌+◌, ◌*◌, ◌/◌, ◌≤◌, ◌≡◌, ◌∙◌, refl, sym, ap, arith, List, [], ◌∷◌, ◌++◌, length,
  get_or, set,
}
use saw_script.Base.Slices.{get_or-append_left, get_or-drop, drop-append_exact}
use saw_script.Salsa.Core.{hash}
use saw_script.Salsa.{copy_loop}

-- `t[i / 20][j]`, the bytes of "expand 16-byte k".
abbrev tau : List ℕ
tau =
    0x65 ∷ 0x78 ∷ 0x70 ∷ 0x61 ∷ 0x6e ∷ 0x64 ∷ 0x20 ∷ 0x31 ∷ 0x36 ∷ 0x2d ∷ 0x62 ∷ 0x79 ∷ 0x74 ∷ 0x65
    ∷ 0x20 ∷ 0x6b ∷ []

unfoldable tau_word_loop : ℕ → ℕ → ℕ → List ℕ → List ℕ
tau_word_loop zero i j keystream = keystream
tau_word_loop (suc left) i j keystream =
    tau_word_loop left i (j + 1) (set keystream (i + j) (get_or tau (4 * (i / 20) + j) 0))

unfoldable tau_loop : ℕ → ℕ → List ℕ → List ℕ
tau_loop zero i keystream = keystream
tau_loop (suc left) i keystream = tau_loop left (i + 20) (tau_word_loop 4 i 0 keystream)

unfoldable copy16_loop : List ℕ → List ℕ → ℕ → ℕ → List ℕ → List ℕ
copy16_loop k n zero i keystream = keystream
copy16_loop k n (suc left) i keystream =
    let a = set keystream (4 + i) (get_or k i 0) in
    let b = set a (44 + i) (get_or k i 0) in
    copy16_loop k n left (i + 1) (set b (24 + i) (get_or n i 0))

unfoldable expand16 : List ℕ → List ℕ → List ℕ → List ℕ
expand16 k n keystream = hash (copy16_loop k n 16 0 (tau_loop 4 0 keystream))

copy16_loop-copy_loop :
    (k n : List ℕ) (left i : ℕ) (ks : List ℕ)
    → length k ≡ 16
    → i + left ≤ 16
    → copy16_loop k n left i ks ≡ copy_loop (k ++ k) n left i ks
unfolding copy16_loop copy_loop
copy16_loop-copy_loop k n zero i ks len fits = refl
copy16_loop-copy_loop k n (suc left) i ks len fits =
    let low = get_or-append_left k k i 0 (omega arith) in
    let swap : i + 16 ≡ 16 + i = omega arith in
    let high : get_or (k ++ k) (i + 16) 0 ≡ get_or k i 0 = rw swap (
      sym (get_or-drop 16 (k ++ k) i 0)
      ∙ ap (λ (t : List ℕ). get_or t i 0) (drop-append_exact 16 k k (sym len))) in
    rw (low, high) (copy16_loop-copy_loop k n left (i + 1) _ len (omega arith))

-- A 16-byte key is laid out as the 32-byte key that holds it twice, with other constants.
expand16-hash :
    (k n ks : List ℕ)
    → length k ≡ 16
    → expand16 k n ks ≡ hash (copy_loop (k ++ k) n 16 0 (tau_loop 4 0 ks))
unfolding expand16
expand16-hash k n ks len =
    ap hash (copy16_loop-copy_loop k n 16 0 (tau_loop 4 0 ks) len (omega arith))
