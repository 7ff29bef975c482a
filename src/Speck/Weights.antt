-- ===== src/Speck/Weights.antt =====
-- `count_set_bits` of speck.c counts the set bits.
use native.Mathlib.Nat.{mod-eq_of_lt, one-le-pow}
use saw_script.Base.{
  ℕ, ◌/◌, ◌%◌, ◌^◌, ◌≤◌, ◌<◌, ◌≡◌, ◌⊎◌, inl, inr, ◌∙◌, refl, subst, arith, bit_and, shr, add,
}
use saw_script.Base.Bits.{and_low}
use saw_script.Base.Bits.Lanes.{
  weight, sum_lanes, lane_mask, pair_sums, add_lanes, pair_sums-le, weight-le,
}
use saw_script.Base.Bits.Weight.{four_lanes, eight_lanes}
use saw_script.Speck.Stats.{count_set_bits_32, count_set_bits_64, count_set_bits}

-- One line of the function: the sum does not leave the word.
line_lem :
    (w s n upper lower t : ℕ)
    → t < 2 ^ w
    → upper / 2 ^ s ≡ lane_mask (2 ^ s) n
    → lower ≡ lane_mask (2 ^ s) n
    → add w (shr (bit_and t upper) s) (bit_and t lower) ≡ pair_sums (2 ^ s) n t
line_lem w s n upper lower t small hu hl =
    rw (add_lanes s n upper lower t hu hl)
      (mod-eq_of_lt (omega (arith, pair_sums-le (2 ^ s) n t (omega (arith, one-le-pow s 2)))))

fold_32 :
    (t : ℕ)
    → t < 2 ^ 32
    → sum_lanes (2 ^ 8) 4 t ≤ 32
    → add 32 (add 32 t (shr t 16)) (shr (add 32 t (shr t 16)) 8) % 2 ^ 8 ≡ sum_lanes (2 ^ 8) 4 t
unfolding sum_lanes
fold_32 t small few = omega arith

fold_64 :
    (t : ℕ)
    → t < 2 ^ 64
    → sum_lanes (2 ^ 8) 8 t ≤ 64
    → add 64
          (add 64 (add 64 t (shr t 32)) (shr (add 64 t (shr t 32)) 16))
          (shr (add 64 (add 64 t (shr t 32)) (shr (add 64 t (shr t 32)) 16)) 8)
        % 2 ^ 8
      ≡ sum_lanes (2 ^ 8) 8 t
unfolding sum_lanes
fold_64 t small few = omega arith

count_set_bits_32-weight : (t : ℕ) → t < 2 ^ 32 → count_set_bits_32 t ≡ weight 32 t
unfolding count_set_bits_32 lane_mask
count_set_bits_32-weight t small =
    let t₁ = pair_sums 2 16 t in
    let t₂ = pair_sums (2 ^ 2) 8 t₁ in
    let t₃ = pair_sums (2 ^ 4) 4 t₂ in
    let le₁ : t₁ ≤ t = pair_sums-le 2 16 t (omega arith) in
    let le₂ : t₂ ≤ t₁ = pair_sums-le (2 ^ 2) 8 t₁ (omega arith) in
    let le₃ : t₃ ≤ t₂ = pair_sums-le (2 ^ 4) 4 t₂ (omega arith) in
    rw
      (
        line_lem 32 1 16 0xAAAAAAAA 0x55555555 t small refl refl,
        line_lem 32 2 8 0xCCCCCCCC 0x33333333 t₁ (omega arith) refl refl,
        line_lem 32 4 4 0xF0F0F0F0 0x0F0F0F0F t₂ (omega arith) refl refl,
        and_low 8 (add 32 (add 32 t₃ (shr t₃ 16)) (shr (add 32 t₃ (shr t₃ 16)) 8)),
      )
      (fold_32 t₃ (omega arith) (omega (arith, four_lanes t, weight-le 32 t)) ∙ four_lanes t)

count_set_bits_64-weight : (t : ℕ) → t < 2 ^ 64 → count_set_bits_64 t ≡ weight 64 t
unfolding count_set_bits_64 lane_mask
count_set_bits_64-weight t small =
    let t₁ = pair_sums 2 32 t in
    let t₂ = pair_sums (2 ^ 2) 16 t₁ in
    let t₃ = pair_sums (2 ^ 4) 8 t₂ in
    let le₁ : t₁ ≤ t = pair_sums-le 2 32 t (omega arith) in
    let le₂ : t₂ ≤ t₁ = pair_sums-le (2 ^ 2) 16 t₁ (omega arith) in
    let le₃ : t₃ ≤ t₂ = pair_sums-le (2 ^ 4) 8 t₂ (omega arith) in
    let t₄ = add 64 t₃ (shr t₃ 32) in
    let t₅ = add 64 t₄ (shr t₄ 16) in
    rw
      (
        line_lem 64 1 32 0xAAAAAAAAAAAAAAAA 0x5555555555555555 t small refl refl,
        line_lem 64 2 16 0xCCCCCCCCCCCCCCCC 0x3333333333333333 t₁ (omega arith) refl refl,
        line_lem 64 4 8 0xF0F0F0F0F0F0F0F0 0x0F0F0F0F0F0F0F0F t₂ (omega arith) refl refl,
        and_low 8 (add 64 t₅ (shr t₅ 8)),
      )
      (fold_64 t₃ (omega arith) (omega (arith, eight_lanes t, weight-le 64 t)) ∙ eight_lanes t)

-- For a word of 32 or 64 bits, `count_set_bits` is the number of its set bits.
pub count_set_bits-weight :
    (w t : ℕ) → (w ≡ 32) ⊎ (w ≡ 64) → t < 2 ^ w → count_set_bits w t ≡ weight w t
unfolding count_set_bits
count_set_bits-weight w t (inl e) small =
    rw e (count_set_bits_32-weight t (subst (λ (n : ℕ). t < 2 ^ n) e small))
count_set_bits-weight w t (inr e) small =
    rw e (count_set_bits_64-weight t (subst (λ (n : ℕ). t < 2 ^ n) e small))
