-- ===== src/Chacha/Words.antt =====
-- The words of chacha20.c: `l32` is a rotation, `load32` and `store32` are inverse, and a block is
-- 64 bytes.
use saw_script.Base.{
  ℕ, zero, suc, ◌+◌, ◌-◌, ◌*◌, ◌/◌, ◌%◌, ◌^◌, ◌<◌, ◌≡◌, refl, arith, List, ◌++◌, length, get_or,
  bit_or, bit_and, sub, shl, length-append,
}
use saw_script.Base.Bits.{rotl, or_disjoint, and_low}
use saw_script.Chacha.Block.{l32, load32, store32, output_loop, add_input_loop, rounds_loop, core}

-- For shifts from 1 to 31 the masked shift count is `32 - n`, so `l32` is the rotation.
pub l32-rotl : (x n : ℕ) → 0 < n → n < 32 → l32 x n ≡ rotl 32 x n
unfolding l32
l32-rotl x n h k =
    let count : bit_and (sub 32 0 n) 31 ≡ 32 - n = omega (arith, and_low 5 (sub 32 0 n)) in rw count

-- One step of `load32`: a byte goes in below what is there.
push_byte : (q r : ℕ) → q < 2 ^ 24 → r < 2 ^ 8 → bit_or (shl 32 q 8) r ≡ q * 2 ^ 8 + r
push_byte q r hq hr =
    let fits : shl 32 q 8 ≡ q * 2 ^ 8 = omega arith in rw fits (or_disjoint 8 q r hr)

-- Storing a word and loading it again gives the word, whatever follows it.
pub load32-store32 : (u : ℕ) (rest : List ℕ) → u < 2 ^ 32 → load32 (store32 u ++ rest) 0 ≡ u
unfolding load32 store32
load32-store32 u rest h =
    let b₁ : ℕ = u / 2 ^ 8 % 2 ^ 8 in
    let b₂ : ℕ = u / 2 ^ 8 / 2 ^ 8 % 2 ^ 8 in
    let b₃ : ℕ = u / 2 ^ 8 / 2 ^ 8 / 2 ^ 8 % 2 ^ 8 in
    rw
      (
        push_byte b₃ b₂ (omega arith) (omega arith),
        push_byte (b₃ * 2 ^ 8 + b₂) b₁ (omega arith) (omega arith),
        push_byte ((b₃ * 2 ^ 8 + b₂) * 2 ^ 8 + b₁) (u % 2 ^ 8) (omega arith) (omega arith),
      )
      (omega arith)

length-store32 : (u : ℕ) → length (store32 u) ≡ 4
unfolding store32
length-store32 u = refl

length-output_loop : (x : List ℕ) (left i : ℕ) → length (output_loop x left i) ≡ 4 * left
unfolding output_loop
length-output_loop x zero i = refl
length-output_loop x (suc left) i = omega (
  arith,
  length-append (store32 (get_or x i 0)) (output_loop x left (i + 1)),
  length-store32 (get_or x i 0),
  length-output_loop x left (i + 1),
)

pub length-core : (input : List ℕ) → length (core input) ≡ 64
unfolding core
length-core input = length-output_loop (add_input_loop input 16 0 (rounds_loop 10 input)) 16 0
