-- ===== src/Zuc/Tests.antt =====
-- Runs of zuc.c, and the theorems at them.
use saw_script.Base.{
  ℕ, ◌+◌, ◌-◌, ◌%◌, ◌^◌, ◌<◌, ◌≡◌, refl, arith, true, false, suc, List, [], ◌∷◌, length, get_or,
  AllBelow, AllBelow-by_test,
}
use saw_script.Zuc.{
  Zuc, f, bit_reorganization, make_u31, init_round, load_key, initialization, initialization_one,
  generate_keystream,
}
use saw_script.Zuc.Lfsr.{
  add_m, mul_by_pow2, feedback, shift_in, lfsr_with_work_mode, lfsr_with_initialisation_mode,
}
use saw_script.Zuc.Field.{prime, IsElement, add_m_lem}
use saw_script.Zuc.Laws.{IsLfsr, recurrence, work_mode_recurrence, initialisation_mode_recurrence}
use saw_script.Zuc.Keys.{load_key-IsLfsr, initialization-IsWellFormed}
use saw_script.Zuc.Words.{IsWellFormed}
use saw_script.Zuc.Stream.{generate_keystream-Words}
use saw_script.Zuc.Vectors.{initialization_one_injective}

abbrev blank : Zuc
blank = record { lfsr = []; f_r1 = 0; f_r2 = 0; brc_x0 = 0; brc_x1 = 0; brc_x2 = 0; brc_x3 = 0 }

abbrev key : List ℕ
key =
    0x3d ∷ 0xff ∷ 0xff ∷ 0xff ∷ 0x35 ∷ 0x09 ∷ 0xff ∷ 0xff ∷ 0xff ∷ 0x89 ∷ 0x01 ∷ 0xff ∷ 0xff ∷ 0x50
    ∷ 0xff ∷ 0x94 ∷ []

abbrev iv_a : List ℕ
iv_a =
    0x7b ∷ 0x00 ∷ 0x70 ∷ 0x00 ∷ 0xc6 ∷ 0x00 ∷ 0x00 ∷ 0x10 ∷ 0x00 ∷ 0x00 ∷ 0x70 ∷ 0xe9 ∷ 0x00 ∷ 0xde
    ∷ 0x2e ∷ 0x86 ∷ []

abbrev iv_b : List ℕ
iv_b =
    0xd3 ∷ 0x00 ∷ 0x70 ∷ 0x00 ∷ 0xc6 ∷ 0x00 ∷ 0x00 ∷ 0x10 ∷ 0x00 ∷ 0x00 ∷ 0x70 ∷ 0xe9 ∷ 0x00 ∷ 0xde
    ∷ 0x2e ∷ 0x86 ∷ []

-- Version 1.4 gives the same state for two vectors that differ in their first byte.
collision : initialization_one true key iv_a blank ≡ initialization_one true key iv_b blank
unfolding initialization_one load_key make_u31 init_round bit_reorganization f
    lfsr_with_initialisation_mode feedback mul_by_pow2 add_m shift_in
collision = refl

-- The prime stands for 0 and is absorbed.
add_m_lem_example :
    IsElement (add_m (2 ^ 31 - 1) 5) × (add_m (2 ^ 31 - 1) 5 % prime ≡ (2 ^ 31 - 1 + 5) % prime)
add_m_lem_example = add_m_lem (2 ^ 31 - 1) 5 (omega arith) (omega arith)

key_bytes : AllBelow 256 key
key_bytes = AllBelow-by_test 256 key (omega arith) refl

iv_a_bytes : AllBelow 256 iv_a
iv_a_bytes = AllBelow-by_test 256 iv_a (omega arith) refl

work_mode_recurrence_example :
    IsLfsr (lfsr_with_work_mode (load_key key iv_a))
    × ((i : ℕ)
        → i < 15
        → get_or (lfsr_with_work_mode (load_key key iv_a)) i 0
          ≡ get_or (load_key key iv_a) (suc i) 0)
    × (get_or (lfsr_with_work_mode (load_key key iv_a)) 15 0 % prime
        ≡ recurrence (load_key key iv_a) % prime)
work_mode_recurrence_example =
    work_mode_recurrence (load_key key iv_a) (load_key-IsLfsr key iv_a key_bytes iv_a_bytes)

initialisation_mode_recurrence_example :
    IsLfsr (lfsr_with_initialisation_mode true (load_key key iv_a) 77)
    × (get_or (lfsr_with_initialisation_mode false (load_key key iv_a) 77) 15 0 % prime
        ≡ (recurrence (load_key key iv_a) + 77) % prime)
initialisation_mode_recurrence_example =
    initialisation_mode_recurrence true (load_key key iv_a) 77
      (load_key-IsLfsr key iv_a key_bytes iv_a_bytes) (omega arith)

initialization-IsWellFormed_example : IsWellFormed (initialization true key iv_a blank)
initialization-IsWellFormed_example =
    initialization-IsWellFormed true key iv_a blank key_bytes iv_a_bytes

generate_keystream-Words_example :
    (length (generate_keystream 3 (initialization false key iv_a blank)).words ≡ 3)
    × AllBelow (2 ^ 32) (generate_keystream 3 (initialization false key iv_a blank)).words
    × IsWellFormed (generate_keystream 3 (initialization false key iv_a blank)).state
generate_keystream-Words_example =
    generate_keystream-Words 3 (initialization false key iv_a blank)
      (initialization-IsWellFormed false key iv_a blank key_bytes iv_a_bytes)

same_register :
    (initialization_one false key iv_a blank).lfsr
    ≡ (initialization_one false key iv_a (record blank { brc_x3 = 9 })).lfsr
unfolding initialization_one init_round bit_reorganization
same_register = refl

-- The globals before the two calls differ.
initialization_one_injective_example : get_or iv_a 3 0 ≡ get_or iv_a 3 0
initialization_one_injective_example =
    initialization_one_injective key iv_a iv_a blank (record blank { brc_x3 = 9 }) key_bytes
      iv_a_bytes iv_a_bytes same_register 3 (omega arith)
