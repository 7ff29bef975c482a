-- ===== src/Speck/Stats.antt =====
-- The statistics of speck.c: how many output bits change with one bit of the key or of the block.
-- `rand n` is what the call number `n` of the C library's `rand` returns.
use saw_script.Base.{
  ℕ, zero, suc, ◌+◌, ◌-◌, ◌*◌, ◌/◌, ◌%◌, List, [], ◌∷◌, ◌++◌, not, ◌&&◌, ◌||◌, Option, some, none,
  get_or, set, replicate, bit_or, bit_and, bit_xor, shl, shr, add, if◌then◌else◌, ◌==◌, leb,
}
use saw_script.Speck.{Block, rounds, encrypt, decrypt}

-- Both versions of `count_set_bits`, for `N` = 32 and for `N` = 64.
unfoldable pub count_set_bits_32 : ℕ → ℕ
count_set_bits_32 t =
    let t₁ = add 32 (shr (bit_and t 0xAAAAAAAA) 1) (bit_and t 0x55555555) in
    let t₂ = add 32 (shr (bit_and t₁ 0xCCCCCCCC) 2) (bit_and t₁ 0x33333333) in
    let t₃ = add 32 (shr (bit_and t₂ 0xF0F0F0F0) 4) (bit_and t₂ 0x0F0F0F0F) in
    let t₄ = add 32 t₃ (shr t₃ 16) in let t₅ = add 32 t₄ (shr t₄ 8) in bit_and t₅ 0xFF

unfoldable pub count_set_bits_64 : ℕ → ℕ
count_set_bits_64 t =
    let t₁ = add 64 (shr (bit_and t 0xAAAAAAAAAAAAAAAA) 1) (bit_and t 0x5555555555555555) in
    let t₂ = add 64 (shr (bit_and t₁ 0xCCCCCCCCCCCCCCCC) 2) (bit_and t₁ 0x3333333333333333) in
    let t₃ = add 64 (shr (bit_and t₂ 0xF0F0F0F0F0F0F0F0) 4) (bit_and t₂ 0x0F0F0F0F0F0F0F0F) in
    let t₄ = add 64 t₃ (shr t₃ 32) in
    let t₅ = add 64 t₄ (shr t₄ 16) in let t₆ = add 64 t₅ (shr t₅ 8) in bit_and t₆ 0xFF

unfoldable pub count_set_bits : ℕ → ℕ → ℕ
count_set_bits w t = if w == 32 then count_set_bits_32 t else count_set_bits_64 t

-- A value, and the number of the next call of `rand`.
pub record Draw : Type 0 where
  pub value : ℕ
  pub next : ℕ

unfoldable pub rand_loop : (ℕ → ℕ) → ℕ → ℕ → ℕ → ℕ → Draw
rand_loop rand w zero result n = record { value = result; next = n }
rand_loop rand w (suc left) result n =
    rand_loop rand w left (bit_or (shl w result 8) (bit_and (rand n) 0xFF)) (n + 1)

unfoldable pub rand_word : (ℕ → ℕ) → ℕ → ℕ → Draw
rand_word rand w n = rand_loop rand w (w / 8) 0 n

-- Two arrays of keys that are filled alike.
pub record Keys : Type 0 where
  pub a : List ℕ
  pub b : List ℕ
  pub next : ℕ

unfoldable pub keys_loop : (ℕ → ℕ) → ℕ → ℕ → ℕ → Keys → Keys
keys_loop rand w zero i k = k
keys_loop rand w (suc left) i k =
    let d = rand_word rand w k.next in
    keys_loop rand w left (i + 1)
      (record { a = set k.a i d.value; b = set k.b i d.value; next = d.next })

-- Two blocks that are filled alike are one.
pub record Io : Type 0 where
  pub io : Block
  pub next : ℕ

unfoldable pub rand_block : (ℕ → ℕ) → ℕ → ℕ → Io
rand_block rand w n =
    let lo = rand_word rand w n in
    let hi = rand_word rand w lo.next in
    record { io = record { hi = hi.value; lo = lo.value }; next = hi.next }

unfoldable pub distance : ℕ → Block → Block → ℕ
distance w a b = count_set_bits w (bit_xor a.lo b.lo) + count_set_bits w (bit_xor a.hi b.hi)

-- The index is drawn before the place of the bit. `k` has what the arrays hold at first.
unfoldable pub confusion_once : (ℕ → ℕ) → ℕ → ℕ → List ℕ → List ℕ → ℕ → Draw
confusion_once rand w m ka kb n =
    let k = keys_loop rand w m 0 (record { a = ka; b = kb; next = n }) in
    let index = rand k.next % m in
    let bit = shl w 1 (bit_and (rand (k.next + 1)) (w - 1)) in
    let b = set k.b index (bit_xor (get_or k.b index 0) bit) in
    let io = rand_block rand w (k.next + 2) in
    let out_a = encrypt w m io.io k.a in
    let out_b = encrypt w m io.io b in
    record { value = distance w out_a.io out_b.io; next = io.next }

-- One bit of the word `io[0]` or `io[1]` changed.
unfoldable pub flip_block : ℕ → ℕ → Block → Block
flip_block index bit b =
    if index == 0 then record b { lo = bit_xor b.lo bit } else record b { hi = bit_xor b.hi bit }

unfoldable pub diffusion_once : (ℕ → ℕ) → ℕ → ℕ → List ℕ → List ℕ → ℕ → Draw
diffusion_once rand w m ka kb n =
    let k = keys_loop rand w m 0 (record { a = ka; b = kb; next = n }) in
    let io = rand_block rand w k.next in
    let index = bit_and (rand io.next) 1 in
    let bit = shl w 1 (bit_and (rand (io.next + 1)) (w - 1)) in
    let out_a = encrypt w m io.io k.a in
    let out_b = encrypt w m (flip_block index bit io.io) k.b in
    record { value = distance w out_a.io out_b.io; next = io.next + 2 }

-- The loop of `test`; `none` is the call of `abort`.
unfoldable pub pass_loop : (ℕ → Draw) → ℕ → ℕ → ℕ → List ℕ → Option (List ℕ)
pass_loop pfun w zero n histogram = some histogram
pass_loop pfun w (suc left) n histogram =
    let d = pfun n in
    let rest =
      pass_loop pfun w left d.next
        (set histogram d.value (add 64 (get_or histogram d.value 0) 1)) in
    if leb d.value (w * 2) then rest else none

abbrev pub passes : ℕ
passes = 1222333

unfoldable pub histogram_of : (ℕ → Draw) → ℕ → ℕ → Option (List ℕ)
histogram_of pfun w n = pass_loop pfun w passes n (replicate (w * 2 + 1) 0)

-- The first loop of `compute_mean_and_vari_from_hist`, which adds up the counts and the counts
-- times their index. What it does with them is floating point.
pub record MeanSums : Type 0 where
  pub sum0 : ℕ
  pub sum1 : ℕ

unfoldable pub sums_loop : List ℕ → ℕ → ℕ → MeanSums → MeanSums
sums_loop counts zero i s = s
sums_loop counts (suc left) i s =
    let tmp = get_or counts i 0 in
    sums_loop counts left (i + 1)
      (record { sum0 = add 64 s.sum0 tmp; sum1 = add 64 s.sum1 (tmp * i) })

-- The file's test: 0 when encrypting and decrypting give the expected words, else 1 or 2. The words
-- behind the given ones of a key array are 0. For 32-bit words and 4 key words the file has one
-- vector, for all others a second.
pub record Vector : Type 0 where
  pub p : Block
  pub c : Block
  pub k : List ℕ

abbrev pub vector_32_4 : Vector
vector_32_4 = record {
  p = record { hi = 0x3b726574; lo = 0x7475432d };
  c = record { hi = 0x8c6fa548; lo = 0x454e028b };
  k = 0x03020100 ∷ 0x0b0a0908 ∷ 0x13121110 ∷ 0x1b1a1918 ∷ [];
}

abbrev pub vector_64_2 : Vector
vector_64_2 = record {
  p = record { hi = 0x6C61766975716520; lo = 0x7469206564616D20 };
  c = record { hi = 0xA65D985179783265; lo = 0x7860FEDF5C570D18 };
  k = 0x0706050403020100 ∷ 0x0F0E0D0C0B0A0908 ∷ [];
}

unfoldable pub test_vector : ℕ → ℕ → Vector → ℕ
test_vector w m v =
    let k = v.k ++ replicate (rounds w m - m) 0 in
    let k2 = v.k ++ replicate (rounds w m - m) 0 in
    let io = (encrypt w m v.p k).io in
    let io₂ = (decrypt w m io k2).io in
    if not (io.lo == v.c.lo) || not (io.hi == v.c.hi)
    then 1
    else if not (io₂.lo == v.p.lo) || not (io₂.hi == v.p.hi)
    then 2
    else 0

unfoldable pub test_test_vector : ℕ → ℕ → ℕ
test_test_vector w m =
    if (w == 32) && (m == 4) then test_vector w m vector_32_4 else test_vector w m vector_64_2
