-- ===== src/Zuc/Vectors.antt =====
-- One round of initialization of zuc.c, version 1.5, tells initialization vectors apart.
use saw_script.Base.{
  ℕ, zero, suc, ◌+◌, ◌*◌, ◌%◌, ◌^◌, ◌<◌, ◌≡◌, ◌∙◌, refl, sym, ap, arith, false, List, get_or, shr,
  AllBelow,
}
use saw_script.Zuc.{Zuc, f, bit_reorganization, load_key, init_round, initialization_one}
use saw_script.Zuc.Field.{prime}
use saw_script.Zuc.Lfsr.{lfsr_with_initialisation_mode}
use saw_script.Zuc.Laws.{
  IsLfsr, recurrence, shift_in-old, initialisation_mode_cell, initialisation_mode_recurrence,
}
use saw_script.Zuc.Words.{f-word-lt}
use saw_script.Zuc.Keys.{load_key_sum, load_key-IsLfsr}

-- The globals from which the round starts.
abbrev loaded : List ℕ → List ℕ → Zuc → Zuc
loaded k iv z = record z { lfsr = load_key k iv; f_r1 = 0; f_r2 = 0 }

-- The number that the round mixes in, `w >> 1`.
abbrev mixed : List ℕ → List ℕ → Zuc → ℕ
mixed k iv z = shr (f (bit_reorganization (loaded k iv z))).word 1

round_lfsr :
    (k iv : List ℕ) (z : Zuc)
    → (initialization_one false k iv z).lfsr
      ≡ lfsr_with_initialisation_mode false (load_key k iv) (mixed k iv z)
unfolding initialization_one init_round f bit_reorganization
round_lfsr k iv z = refl

-- It depends on the cells 14 and 15 only.
mixed-congr :
    (k iv iv' : List ℕ) (z z' : Zuc)
    → get_or (load_key k iv) 14 0 ≡ get_or (load_key k iv') 14 0
    → get_or (load_key k iv) 15 0 ≡ get_or (load_key k iv') 15 0
    → mixed k iv z ≡ mixed k iv' z'
unfolding f bit_reorganization
mixed-congr k iv iv' z z' e₁₄ e₁₅ = rw (e₁₄, e₁₅)

-- 257 is invertible, and two bytes differ by less than the prime.
byte_of_recurrence :
    (base a b c : ℕ)
    → a < 256
    → b < 256
    → ((base + a) * (1 + 2 ^ 8) + c) % prime ≡ ((base + b) * (1 + 2 ^ 8) + c) % prime
    → a ≡ b
byte_of_recurrence base a b c p q e = omega arith

module _ (k iv : List ℕ) (k_bytes : AllBelow 256 k) (iv_bytes : AllBelow 256 iv) (z : Zuc) where
  register : IsLfsr (load_key k iv)
  register = load_key-IsLfsr k iv k_bytes iv_bytes

  mixed-lt : mixed k iv z < 2 ^ 31
  mixed-lt = omega (arith, f-word-lt (bit_reorganization (loaded k iv z)))

  -- The cells that the round moves.
  moved_cell :
      (i : ℕ)
      → i < 15
      → get_or (initialization_one false k iv z).lfsr i 0 ≡ get_or (load_key k iv) (suc i) 0
  moved_cell i p =
      ap (λ (t : List ℕ). get_or t i 0)
        (round_lfsr k iv z
          ∙ initialisation_mode_cell (load_key k iv) (mixed k iv z) register mixed-lt)
      ∙ shift_in-old (load_key k iv) _ i p

  -- The cell that the round computes.
  new_cell :
      get_or (initialization_one false k iv z).lfsr 15 0 % prime
      ≡ (recurrence (load_key k iv) + mixed k iv z) % prime
  new_cell =
      ap (λ (t : List ℕ). get_or t 15 0 % prime) (round_lfsr k iv z)
      ∙ (initialisation_mode_recurrence false (load_key k iv) (mixed k iv z) register mixed-lt).1

module _ (k iv iv' : List ℕ) (k_bytes : AllBelow 256 k) (iv_bytes : AllBelow 256 iv)
    (iv'_bytes : AllBelow 256 iv') (z z' : Zuc)
    (same : (initialization_one false k iv z).lfsr ≡ (initialization_one false k iv' z').lfsr) where
  same_moved :
      (i : ℕ) → i < 15 → get_or (load_key k iv) (suc i) 0 ≡ get_or (load_key k iv') (suc i) 0
  same_moved i p =
      sym (moved_cell k iv k_bytes iv_bytes z i p)
      ∙ (ap (λ (t : List ℕ). get_or t i 0) same ∙ moved_cell k iv' k_bytes iv'_bytes z' i p)

  same_mixed : mixed k iv z ≡ mixed k iv' z'
  same_mixed = mixed-congr k iv iv' z z' (same_moved 13 (omega arith)) (same_moved 14 (omega arith))

  same_first : get_or iv 0 0 ≡ get_or iv' 0 0
  same_first = omega (
    arith,
    iv_bytes 0,
    iv'_bytes 0,
    load_key_sum k iv k_bytes iv_bytes 0 (omega arith),
    load_key_sum k iv' k_bytes iv'_bytes 0 (omega arith),
    same_moved 3 (omega arith),
    same_moved 9 (omega arith),
    same_moved 12 (omega arith),
    same_moved 14 (omega arith),
    same_mixed,
    new_cell k iv k_bytes iv_bytes z,
    new_cell k iv' k_bytes iv'_bytes z',
    ap (λ (t : List ℕ). get_or t 15 0) same,
  )

-- In version 1.5, if one round of initialization with the same key ends in the same register for
-- two initialization vectors of bytes, then the vectors agree in all 16 bytes.
pub initialization_one_injective :
    (k iv iv' : List ℕ) (z z' : Zuc)
    → AllBelow 256 k
    → AllBelow 256 iv
    → AllBelow 256 iv'
    → (initialization_one false k iv z).lfsr ≡ (initialization_one false k iv' z').lfsr
    → (i : ℕ) → i < 16
    → get_or iv i 0 ≡ get_or iv' i 0
initialization_one_injective k iv iv' z z' kb b b' same zero p =
    same_first k iv iv' kb b b' z z' same
initialization_one_injective k iv iv' z z' kb b b' same (suc i) p = omega (
  arith,
  b (suc i),
  b' (suc i),
  load_key_sum k iv kb b (suc i) p,
  load_key_sum k iv' kb b' (suc i) p,
  same_moved k iv iv' kb b b' z z' same i (omega arith),
)
