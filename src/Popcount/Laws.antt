-- ===== src/Popcount/Laws.antt =====
-- The three functions of popcount.c count the set bits.
use saw_script.Base.{
  ℕ, zero, suc, ◌+◌, ◌-◌, ◌*◌, ◌/◌, ◌%◌, ◌^◌, ◌≤◌, ◌<◌, ◌≡◌, ◌∙◌, ap, arith, inl, inr, some, ◌==◌,
  Bool-cases, bit_and, shr, add, sub,
}
use saw_script.Base.Bits.{and_low, and-le}
use saw_script.Base.Bits.Lanes.{
  weight, sum_lanes, low_lanes, lane_mask, pair_sums, and-lane_mask, pair_sums-low_lanes,
  unzip_lanes, pair_sums-le, weight-le, AllLanes, AllLanes-bits, AllLanes-pair_sums,
}
use saw_script.Base.Bits.Weight.{four_lanes, weight-drop, weight-zero}
use saw_script.Popcount.{byte_counts, pop_count, pop_count_mul, sparse_loop, pop_count_sparse}

-- The first line: twice the upper bits are taken from `x`.
first_line : (x : ℕ) → x < 2 ^ 32 → sub 32 x (bit_and (shr x 1) 0x55555555) ≡ pair_sums 2 16 x
unfolding lane_mask
first_line x small =
    let upper : bit_and (shr x 1) 0x55555555 ≡ low_lanes 2 16 (x / 2) =
      and-lane_mask 1 16 (x / 2) in
    rw upper (omega (arith, pair_sums-low_lanes 2 16 x, unzip_lanes 2 16 x (omega arith) small))

second_line :
    (t : ℕ)
    → t < 2 ^ 32
    → add 32 (bit_and t 0x33333333) (bit_and (shr t 2) 0x33333333) ≡ pair_sums (2 ^ 2) 8 t
unfolding lane_mask
second_line t small =
    let lower : bit_and t 0x33333333 ≡ low_lanes (2 ^ 2) 8 t = and-lane_mask 2 8 t in
    let upper : bit_and (shr t 2) 0x33333333 ≡ low_lanes (2 ^ 2) 8 (t / 2 ^ 2) =
      and-lane_mask 2 8 (t / 2 ^ 2) in
    rw (lower, upper)
      (omega (arith, pair_sums-low_lanes (2 ^ 2) 8 t, pair_sums-le (2 ^ 2) 8 t (omega arith)))

-- The third line masks after it adds: no sum of two half bytes leaves its half byte.
third_line :
    (t : ℕ)
    → t < 2 ^ 32
    → AllLanes (2 ^ 4) 8 4 t
    → bit_and (add 32 t (shr t 4)) 0x0F0F0F0F ≡ pair_sums (2 ^ 4) 4 t
unfolding lane_mask low_lanes pair_sums
third_line t small (a, (b, (c, (d, (e, (f, (g, (h, all)))))))) =
    let lanes : bit_and (add 32 t (shr t 4)) 0x0F0F0F0F ≡ low_lanes (2 ^ 4) 4 (add 32 t (shr t 4)) =
      and-lane_mask 4 4 (add 32 t (shr t 4)) in
    rw lanes (omega arith)

nibbles : (t : ℕ) → AllLanes (2 ^ 4) 8 4 (pair_sums (2 ^ 2) 8 (pair_sums 2 16 t))
nibbles t =
    AllLanes-pair_sums (2 ^ 2) 8 2 (pair_sums 2 16 t) (omega arith)
      (AllLanes-pair_sums 2 16 1 t (omega arith) (AllLanes-bits 32 t))

-- After the three lines every byte holds the number of its own bits.
byte_counts_lem :
    (x : ℕ)
    → x < 2 ^ 32
    → (byte_counts x < 2 ^ 32) × (sum_lanes (2 ^ 8) 4 (byte_counts x) ≡ weight 32 x)
unfolding byte_counts
byte_counts_lem x small =
    let t₁ = pair_sums 2 16 x in
    let t₂ = pair_sums (2 ^ 2) 8 t₁ in
    let le₁ : t₁ ≤ x = pair_sums-le 2 16 x (omega arith) in
    let le₂ : t₂ ≤ t₁ = pair_sums-le (2 ^ 2) 8 t₁ (omega arith) in
    let le₃ : pair_sums (2 ^ 4) 4 t₂ ≤ t₂ = pair_sums-le (2 ^ 4) 4 t₂ (omega arith) in
    rw (first_line x small, second_line t₁ (omega arith), third_line t₂ (omega arith) (nibbles x))
      (omega arith, four_lanes x)

fold_bytes :
    (t : ℕ)
    → t < 2 ^ 32
    → sum_lanes (2 ^ 8) 4 t ≤ 32
    → add 32 (add 32 t (shr t 8)) (shr (add 32 t (shr t 8)) 16) % 2 ^ 6 ≡ sum_lanes (2 ^ 8) 4 t
unfolding sum_lanes
fold_bytes t small few = omega arith

multiply_bytes :
    (t : ℕ)
    → t < 2 ^ 32
    → sum_lanes (2 ^ 8) 4 t ≤ 32
    → shr (t * 0x01010101 % 2 ^ 32) 24 ≡ sum_lanes (2 ^ 8) 4 t
unfolding sum_lanes
multiply_bytes t small few = omega arith

-- The loop ends with the bits counted, when it may run one round more than there are bits.
sparse_loop-weight :
    (fuel x n : ℕ) → x < 2 ^ 32 → weight 32 x < fuel → sparse_loop fuel x n ≡ some (n + weight 32 x)
unfolding sparse_loop
sparse_loop-weight zero x n small enough = absurd (omega arith)
sparse_loop-weight (suc fuel) x n small enough = elim (Bool-cases (x == 0)) [
  | inl e ↦
      let nothing : x ≡ 0 = ground arith in rw (e, nothing, weight-zero 32) (ap some (omega arith))
  | inr e ↦
      let pos : 0 < x = ground arith in
      let prev : sub 32 x 1 ≡ x - 1 = omega arith in
      let dropped = weight-drop 32 x pos small in
      rw
        (
          e,
          prev,
          sparse_loop-weight fuel (bit_and x (x - 1)) (n + 1) (omega (arith, and-le x (x - 1)))
              (omega (arith, dropped)),
        )
        (ap some (omega (arith, dropped)))
]

-- For every 32-bit word the three functions return the number of its set bits: the one with the
-- loop ends too.
pub pop_count-weight :
    (x : ℕ)
    → x < 2 ^ 32
    → (pop_count x ≡ weight 32 x)
      × (pop_count_mul x ≡ weight 32 x)
      × (pop_count_sparse x ≡ some (weight 32 x))
unfolding pop_count pop_count_mul pop_count_sparse
pop_count-weight x small =
    let t = byte_counts x in
    let bytes = byte_counts_lem x small in
    let few : sum_lanes (2 ^ 8) 4 t ≤ 32 = omega (arith, bytes.1, weight-le 32 x) in
    (
      and_low 6 (add 32 (add 32 t (shr t 8)) (shr (add 32 t (shr t 8)) 16))
          ∙ fold_bytes t bytes.0 few
          ∙ bytes.1,
      multiply_bytes t bytes.0 few ∙ bytes.1,
      sparse_loop-weight 33 x 0 small (omega (arith, weight-le 32 x)) ∙ ap some (omega arith),
    )
