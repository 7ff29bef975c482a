-- ===== src/Popcount.antt =====
-- exercises/functional-correctness/popcount/popcount.c: three ways to count the bits of a word.
pub mod Laws
mod Tests
use saw_script.Base.{
  ℕ, zero, suc, ◌+◌, ◌*◌, ◌%◌, ◌^◌, Option, some, none, bit_and, add, sub, shr, if◌then◌else◌, ◌==◌,
}

-- The three lines that two of the functions begin with.
unfoldable pub byte_counts : ℕ → ℕ
byte_counts x =
    let x₁ = sub 32 x (bit_and (shr x 1) 0x55555555) in
    let x₂ = add 32 (bit_and x₁ 0x33333333) (bit_and (shr x₁ 2) 0x33333333) in
    bit_and (add 32 x₂ (shr x₂ 4)) 0x0F0F0F0F

unfoldable pub pop_count : ℕ → ℕ
pop_count x =
    let x₁ = byte_counts x in
    let x₂ = add 32 x₁ (shr x₁ 8) in let x₃ = add 32 x₂ (shr x₂ 16) in bit_and x₃ 0x0000003F

unfoldable pub pop_count_mul : ℕ → ℕ
pop_count_mul x = shr (byte_counts x * 0x01010101 % 2 ^ 32) 24

-- The loop, on fuel; `none` means that the fuel ran out.
unfoldable pub sparse_loop : ℕ → ℕ → ℕ → Option ℕ
sparse_loop zero x n = none
sparse_loop (suc fuel) x n =
    let rest = sparse_loop fuel (bit_and x (sub 32 x 1)) (n + 1) in if x == 0 then some n else rest

-- Every round takes one of at most 32 bits.
unfoldable pub pop_count_sparse : ℕ → Option ℕ
pop_count_sparse x = sparse_loop 33 x 0
