-- ===== src/Simon.antt =====
-- The parts that examples/simon-speck/simon-64-128.c and simon-128-128.c share: the rotations of
-- simon.h, the body of the encryption and decryption loops, and the shape of the key loops. The
-- two files are the children `Narrow` and `Wide`; they differ in the word size `w`, the number of
-- rounds and the key schedule.
pub mod Feistel
pub mod Schedule
pub mod Narrow
pub mod Wide
mod Tests
use saw_script.Base.{ℕ, zero, suc, ◌+◌, ◌-◌, List, get_or, set, bit_and, bit_or, bit_xor, shl, shr}

-- The array `crypt`: `fst` is `crypt[0]`, `snd` is `crypt[1]`.
pub record Block : Type 0 where
  pub fst : ℕ
  pub snd : ℕ

-- ROTATE_LEFT_32 and ROTATE_LEFT_64
unfoldable pub rotate_left : ℕ → ℕ → ℕ → ℕ
rotate_left w x n = bit_or (shl w x n) (shr x (w - n))

-- ROTATE_RIGHT_32 and ROTATE_RIGHT_64
unfoldable pub rotate_right : ℕ → ℕ → ℕ → ℕ
rotate_right w x n = bit_or (shr x n) (shl w x (w - n))

-- The body of the loop of `Encrypt`, with the round key `k`.
unfoldable pub encrypt_round : ℕ → Block → ℕ → Block
unfolding rotate_left
encrypt_round w c k = record {
  fst =
      bit_xor
        (bit_xor (bit_xor c.snd (bit_and (rotate_left w c.fst 1) (rotate_left w c.fst 8)))
          (rotate_left w c.fst 2))
        k;
  snd = c.fst;
}

-- The body of the loop of `Decrypt`.
unfoldable pub decrypt_round : ℕ → Block → ℕ → Block
unfolding rotate_left
decrypt_round w c k = record {
  fst = c.snd;
  snd =
      bit_xor
        (bit_xor (bit_xor c.fst (bit_and (rotate_left w c.snd 1) (rotate_left w c.snd 8)))
          (rotate_left w c.snd 2))
        k;
}

unfoldable pub encrypt_loop : ℕ → List ℕ → ℕ → ℕ → Block → Block
unfolding encrypt_round
encrypt_loop w key zero i c = c
encrypt_loop w key (suc left) i c =
    encrypt_loop w key left (i + 1) (encrypt_round w c (get_or key i 0))

-- `last` is the index of the last round key; the loop reads `key[last-i]`.
unfoldable pub decrypt_loop : ℕ → List ℕ → ℕ → ℕ → ℕ → Block → Block
unfolding decrypt_round
decrypt_loop w key last zero i c = c
decrypt_loop w key last (suc left) i c =
    decrypt_loop w key last left (i + 1) (decrypt_round w c (get_or key (last - i) 0))

-- A loop `for (...; i++) k[i] = next(i, k);` with `left` rounds to go.
unfoldable pub expand_loop : (ℕ → List ℕ → ℕ) → ℕ → ℕ → List ℕ → List ℕ
expand_loop next zero i k = k
expand_loop next (suc left) i k = expand_loop next left (i + 1) (set k i (next i k))
