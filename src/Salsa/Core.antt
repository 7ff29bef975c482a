-- ===== src/Salsa/Core.antt =====
-- examples/salsa20/salsa20.c, from `s20_quarterround` to `s20_hash`.
use saw_script.Base.{
  ℕ, zero, suc, ◌+◌, ◌*◌, ◌%◌, ◌^◌, List, [], ◌∷◌, get_or, set, bit_xor, add, shl, shr,
}
use saw_script.Base.Bits.{rotl}

-- One line of the quarter round: y[b] ^= rotl(y[c] + y[d], n).
unfoldable pub mix : List ℕ → ℕ → ℕ → ℕ → ℕ → List ℕ
mix y b c d n = set y b (bit_xor (get_or y b 0) (rotl 32 (add 32 (get_or y c 0) (get_or y d 0)) n))

-- The four pointers are into one array, at different places.
unfoldable pub quarterround : List ℕ → ℕ → ℕ → ℕ → ℕ → List ℕ
quarterround y p0 p1 p2 p3 = mix (mix (mix (mix y p1 p0 p3 7) p2 p1 p0 9) p3 p2 p1 13) p0 p3 p2 18

unfoldable pub rowround : List ℕ → List ℕ
rowround y =
    let y₁ = quarterround y 0 1 2 3 in
    let y₂ = quarterround y₁ 5 6 7 4 in
    let y₃ = quarterround y₂ 10 11 8 9 in quarterround y₃ 15 12 13 14

unfoldable pub columnround : List ℕ → List ℕ
columnround x =
    let x₁ = quarterround x 0 4 8 12 in
    let x₂ = quarterround x₁ 5 9 13 1 in
    let x₃ = quarterround x₂ 10 14 2 6 in quarterround x₃ 15 3 7 11

unfoldable pub doubleround : List ℕ → List ℕ
doubleround x = rowround (columnround x)

-- The four bytes of `b` from `at` on; the sum is stored in 32 bits.
unfoldable pub littleendian : List ℕ → ℕ → ℕ
littleendian b at =
    add 32
      (add 32 (add 32 (get_or b at 0) (shl 32 (get_or b (at + 1) 0) 8))
        (shl 32 (get_or b (at + 2) 0) 16))
      (shl 32 (get_or b (at + 3) 0) 24)

-- Writes the four bytes from `at` on.
unfoldable pub rev_littleendian : List ℕ → ℕ → ℕ → List ℕ
rev_littleendian b at w =
    let b₀ = set b at (w % 2 ^ 8) in
    let b₁ = set b₀ (at + 1) (shr w 8 % 2 ^ 8) in
    let b₂ = set b₁ (at + 2) (shr w 16 % 2 ^ 8) in set b₂ (at + 3) (shr w 24 % 2 ^ 8)

-- The words of the first loop of `s20_hash`, which both `x` and `z` get.
unfoldable pub load_loop : List ℕ → ℕ → ℕ → List ℕ
load_loop seq zero i = []
load_loop seq (suc left) i = littleendian seq (4 * i) ∷ load_loop seq left (i + 1)

unfoldable pub rounds_loop : ℕ → List ℕ → List ℕ
rounds_loop zero z = z
rounds_loop (suc left) z = rounds_loop left (doubleround z)

-- The last loop: the sum of the two words at `i` is stored to `z` and written to `seq`.
unfoldable pub store_loop : List ℕ → List ℕ → ℕ → ℕ → List ℕ → List ℕ
store_loop x z zero i seq = seq
store_loop x z (suc left) i seq =
    let z' = set z i (add 32 (get_or z i 0) (get_or x i 0)) in
    store_loop x z' left (i + 1) (rev_littleendian seq (4 * i) (get_or z' i 0))

unfoldable pub hash : List ℕ → List ℕ
hash seq = let x = load_loop seq 16 0 in store_loop x (rounds_loop 10 x) 16 0 seq
