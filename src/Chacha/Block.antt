-- ===== src/Chacha/Block.antt =====
-- chacha20.c, from `l32` to `kexp`: words, the quarter round, the block function, the key state.
use saw_script.Base.{
  ℕ, zero, suc, ◌+◌, ◌%◌, ◌^◌, List, [], ◌∷◌, ◌++◌, get_or, set, bit_and, bit_or, bit_xor, shl, shr,
  add, sub,
}

-- `-n&31` is computed on 32-bit unsigned numbers.
unfoldable pub l32 : ℕ → ℕ → ℕ
l32 x n = bit_or (shl 32 x n) (shr x (bit_and (sub 32 0 n) 31))

-- The four bytes of `x` from `at` on.
unfoldable pub load32 : List ℕ → ℕ → ℕ
load32 x at =
    let u₁ = get_or x (at + 3) 0 in
    let u₂ = bit_or (shl 32 u₁ 8) (get_or x (at + 2) 0) in
    let u₃ = bit_or (shl 32 u₂ 8) (get_or x (at + 1) 0) in bit_or (shl 32 u₃ 8) (get_or x at 0)

store32_loop : ℕ → ℕ → List ℕ
store32_loop zero u = []
store32_loop (suc left) u = (u % 2 ^ 8) ∷ store32_loop left (shr u 8)

-- The four bytes that are written, in order.
unfoldable pub store32 : ℕ → List ℕ
unfolding store32_loop
store32 u = store32_loop 4 u

-- One line of `qround`: x[a] += x[b]; x[d] = l32(x[d]^x[a], n).
unfoldable pub quarter_step : List ℕ → ℕ → ℕ → ℕ → ℕ → List ℕ
unfolding l32
quarter_step x a b d n =
    let x₁ = set x a (add 32 (get_or x a 0) (get_or x b 0)) in
    set x₁ d (l32 (bit_xor (get_or x₁ d 0) (get_or x₁ a 0)) n)

unfoldable pub qround : List ℕ → ℕ → ℕ → ℕ → ℕ → List ℕ
unfolding quarter_step
qround x a b c d =
    let x₁ = quarter_step x a b d 16 in
    let x₂ = quarter_step x₁ c d b 12 in let x₃ = quarter_step x₂ a b d 8 in quarter_step x₃ c d b 7

-- The body of the loop over ten iterations: a column round and a diagonal round.
unfoldable pub double_round : List ℕ → List ℕ
unfolding qround
double_round x =
    let x₁ = qround x 0 4 8 12 in
    let x₂ = qround x₁ 1 5 9 13 in
    let x₃ = qround x₂ 2 6 10 14 in
    let x₄ = qround x₃ 3 7 11 15 in
    let x₅ = qround x₄ 0 5 10 15 in
    let x₆ = qround x₅ 1 6 11 12 in let x₇ = qround x₆ 2 7 8 13 in qround x₇ 3 4 9 14

unfoldable pub rounds_loop : ℕ → List ℕ → List ℕ
unfolding double_round
rounds_loop zero x = x
rounds_loop (suc left) x = rounds_loop left (double_round x)

-- `x[i] = x[i] + in[i]`
unfoldable pub add_input_loop : List ℕ → ℕ → ℕ → List ℕ → List ℕ
add_input_loop input zero i x = x
add_input_loop input (suc left) i x =
    add_input_loop input left (i + 1) (set x i (add 32 (get_or x i 0) (get_or input i 0)))

-- The loop that stores the words; what it writes is contiguous.
unfoldable pub output_loop : List ℕ → ℕ → ℕ → List ℕ
unfolding store32
output_loop x zero i = []
output_loop x (suc left) i = store32 (get_or x i 0) ++ output_loop x left (i + 1)

-- The 64 bytes that `core` writes to `out`.
unfoldable pub core : List ℕ → List ℕ
unfolding rounds_loop add_input_loop output_loop
core input = output_loop (add_input_loop input 16 0 (rounds_loop 10 input)) 16 0

unfoldable pub kexp : ℕ → List ℕ → List ℕ → List ℕ
unfolding load32
kexp counter nonce key =
    0x61707865
    ∷ 0x3320646e
    ∷ 0x79622d32
    ∷ 0x6b206574
    ∷ load32 key 0
    ∷ load32 key 4
    ∷ load32 key 8
    ∷ load32 key 12
    ∷ load32 key 16
    ∷ load32 key 20
    ∷ load32 key 24
    ∷ load32 key 28
    ∷ counter
    ∷ load32 nonce 0
    ∷ load32 nonce 4
    ∷ load32 nonce 8
    ∷ []
