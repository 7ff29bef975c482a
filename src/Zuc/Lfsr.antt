-- ===== src/Zuc/Lfsr.antt =====
-- examples/zuc/zuc.c, the registers of the linear part: addition and multiplication by powers of
-- two modulo 2 ^ 31 - 1, and one step of the shift register in its two modes. The globals
-- LFSR_S0 to LFSR_S15 are a list of 16 numbers. `version_1_4` says whether that macro is defined,
-- as it is where zuc14.c includes the file.
use saw_script.Base.{
  ℕ, ◌-◌, Bool, List, [], ◌∷◌, get_or, bit_and, bit_or, bit_xor, shl, shr, add, if◌then◌else◌, ◌==◌,
}

unfoldable pub add_m : ℕ → ℕ → ℕ
add_m a b =
    let c = add 32 a b in if bit_and c 0x80000000 == 0 then c else add 32 (bit_and c 0x7FFFFFFF) 1

unfoldable pub mul_by_pow2 : ℕ → ℕ → ℕ
mul_by_pow2 x k = bit_and (bit_or (shl 32 x k) (shr x (31 - k))) 0x7FFFFFFF

-- The assignments to `f` and `v`, which the two modes share.
unfoldable pub feedback : List ℕ → ℕ
feedback s =
    let f₁ = add_m (get_or s 0 0) (mul_by_pow2 (get_or s 0 0) 8) in
    let f₂ = add_m f₁ (mul_by_pow2 (get_or s 4 0) 20) in
    let f₃ = add_m f₂ (mul_by_pow2 (get_or s 10 0) 21) in
    let f₄ = add_m f₃ (mul_by_pow2 (get_or s 13 0) 17) in add_m f₄ (mul_by_pow2 (get_or s 15 0) 15)

-- `LFSR_S0 = LFSR_S1; ...; LFSR_S14 = LFSR_S15;` and the assignment to LFSR_S15.
unfoldable pub shift_in : List ℕ → ℕ → List ℕ
shift_in s v =
    get_or s 1 0
    ∷ get_or s 2 0
    ∷ get_or s 3 0
    ∷ get_or s 4 0
    ∷ get_or s 5 0
    ∷ get_or s 6 0
    ∷ get_or s 7 0
    ∷ get_or s 8 0
    ∷ get_or s 9 0
    ∷ get_or s 10 0
    ∷ get_or s 11 0
    ∷ get_or s 12 0
    ∷ get_or s 13 0
    ∷ get_or s 14 0
    ∷ get_or s 15 0
    ∷ v
    ∷ []

unfoldable pub lfsr_with_initialisation_mode : Bool → List ℕ → ℕ → List ℕ
lfsr_with_initialisation_mode version_1_4 s u =
    let f = feedback s in
    let v = if version_1_4 then bit_xor f u else add_m f u in
    shift_in s (if v == 0 then 0x7FFFFFFF else v)

unfoldable pub lfsr_with_work_mode : List ℕ → List ℕ
lfsr_with_work_mode s = shift_in s (feedback s)
