-- ===== src/Simon/Feistel.antt =====
-- A round of Simon is undone by the round with the same key, so the two loops undo each other.
use native.Mathlib.Nat.{zero-add}
use saw_script.Base.{ℕ, zero, suc, ◌+◌, ◌-◌, ◌≡◌, refl, ap, ◌∙◌, List, arith, get_or, bit_xor}
use saw_script.Base.Bits.{xor_cancel, xor_right_comm}
use saw_script.Simon.{Block, encrypt_round, decrypt_round, encrypt_loop, decrypt_loop}

-- What is mixed in three parts cancels part by part.
cancel_three :
    (a b c d : ℕ) → bit_xor (bit_xor (bit_xor (bit_xor (bit_xor (bit_xor a b) c) d) b) c) d ≡ a
cancel_three a b c d = rw (
  xor_right_comm (bit_xor (bit_xor a b) c) d b,
  xor_right_comm (bit_xor (bit_xor (bit_xor a b) c) b) d c,
  xor_cancel,
  xor_right_comm (bit_xor a b) c b,
  xor_cancel,
  xor_cancel,
)

module _ (w : ℕ) where
  pub decrypt_round-encrypt_round :
      (c : Block) (k : ℕ) → decrypt_round w (encrypt_round w c k) k ≡ c
  unfolding encrypt_round decrypt_round
  decrypt_round-encrypt_round c k =
      ap (λ (x : ℕ). let b : Block = record { fst = c.fst; snd = x } in b)
        (cancel_three c.snd _ _ k)

  pub encrypt_round-decrypt_round :
      (c : Block) (k : ℕ) → encrypt_round w (decrypt_round w c k) k ≡ c
  unfolding encrypt_round decrypt_round
  encrypt_round-decrypt_round c k =
      ap (λ (x : ℕ). let b : Block = record { fst = x; snd = c.snd } in b)
        (cancel_three c.fst _ _ k)

  -- The loop of `Encrypt` seen from its last round.
  encrypt_loop-suc :
      (key : List ℕ) (left i : ℕ) (c : Block)
      → encrypt_loop w key (suc left) i c
        ≡ encrypt_round w (encrypt_loop w key left i c) (get_or key (i + left) 0)
  unfolding encrypt_loop
  encrypt_loop-suc key zero i c = ap (λ (j : ℕ). encrypt_round w c (get_or key j 0)) (omega arith)
  encrypt_loop-suc key (suc left) i c =
      encrypt_loop-suc key left (i + 1) (encrypt_round w c (get_or key i 0))
      ∙ ap (λ (j : ℕ). encrypt_round w (encrypt_loop w key (suc left) i c) (get_or key j 0))
          (omega arith)

  -- After `n` rounds of encryption, `n` rounds of decryption that begin at round key `n - 1`.
  pub decrypt_loop-encrypt_loop :
      (key : List ℕ) (last n i : ℕ) (c : Block)
      → i + n ≡ last + 1
      → decrypt_loop w key last n i (encrypt_loop w key n 0 c) ≡ c
  unfolding decrypt_loop
  decrypt_loop-encrypt_loop key last zero i c e = unfold encrypt_loop in refl
  decrypt_loop-encrypt_loop key last (suc n) i c e =
      let index : last - i ≡ n = omega arith in
      rw
        (
          encrypt_loop-suc key n 0 c,
          zero-add n,
          index,
          decrypt_round-encrypt_round (encrypt_loop w key n 0 c) (get_or key n 0),
        )
        (decrypt_loop-encrypt_loop key last n (i + 1) c (omega arith))

  -- The loop of `Decrypt` from round key `n - 1` down, and then `n` rounds of encryption.
  pub encrypt_loop-decrypt_loop :
      (key : List ℕ) (last n i : ℕ) (c : Block)
      → i + n ≡ last + 1
      → encrypt_loop w key n 0 (decrypt_loop w key last n i c) ≡ c
  unfolding decrypt_loop
  encrypt_loop-decrypt_loop key last zero i c e = unfold encrypt_loop in refl
  encrypt_loop-decrypt_loop key last (suc n) i c e =
      let index : last - i ≡ n = omega arith in
      encrypt_loop-suc key n 0 _
      ∙ rw (zero-add n, encrypt_loop-decrypt_loop key last n (i + 1) _ (omega arith), index)
          (encrypt_round-decrypt_round c (get_or key n 0))
