-- ===== src/Zuc.antt =====
-- examples/zuc/zuc.c: bit reorganization, the function F, key loading and the key stream. The
-- file's globals are the record `Zuc`; the children have the linear part, the tables and laws.
mod Tables
pub mod Lfsr
pub mod Field
pub mod Laws
pub mod Keys
pub mod Stream
pub mod Words
pub mod Vectors
mod Tests
use Tables.{s0, s1, ek_d}
use Lfsr.{lfsr_with_initialisation_mode, lfsr_with_work_mode}
use saw_script.Base.{
  ℕ, zero, suc, ◌-◌, Bool, List, [], ◌∷◌, get_or, bit_and, bit_or, bit_xor, shl, shr, add,
  if◌then◌else◌,
}
use saw_script.Base.Bits.{rotl}

-- LFSR_S0 to LFSR_S15, F_R1 and F_R2, BRC_X0 to BRC_X3.
pub record Zuc : Type 0 where
  pub lfsr : List ℕ
  pub f_r1 : ℕ
  pub f_r2 : ℕ
  pub brc_x0 : ℕ
  pub brc_x1 : ℕ
  pub brc_x2 : ℕ
  pub brc_x3 : ℕ

unfoldable pub bit_reorganization : Zuc → Zuc
bit_reorganization z =
    let s = z.lfsr in
    record z {
      brc_x0 =
          bit_or (shl 32 (bit_and (get_or s 15 0) 0x7FFF8000) 1) (bit_and (get_or s 14 0) 0xFFFF);
      brc_x1 = bit_or (shl 32 (bit_and (get_or s 11 0) 0xFFFF) 16) (shr (get_or s 9 0) 15);
      brc_x2 = bit_or (shl 32 (bit_and (get_or s 7 0) 0xFFFF) 16) (shr (get_or s 5 0) 15);
      brc_x3 = bit_or (shl 32 (bit_and (get_or s 2 0) 0xFFFF) 16) (shr (get_or s 0 0) 15);
    }

-- The macro ROT at width 32 is `rotl 32`.
unfoldable pub l1 : ℕ → ℕ
l1 x =
    bit_xor (bit_xor (bit_xor (bit_xor x (rotl 32 x 2)) (rotl 32 x 10)) (rotl 32 x 18))
      (rotl 32 x 24)

unfoldable pub l2 : ℕ → ℕ
l2 x =
    bit_xor (bit_xor (bit_xor (bit_xor x (rotl 32 x 8)) (rotl 32 x 14)) (rotl 32 x 22))
      (rotl 32 x 30)

unfoldable pub make_u32 : ℕ → ℕ → ℕ → ℕ → ℕ
make_u32 a b c d = bit_or (bit_or (bit_or (shl 32 a 24) (shl 32 b 16)) (shl 32 c 8)) d

-- The four table lookups that make a register from a word.
unfoldable pub s_box : ℕ → ℕ
s_box u =
    make_u32 (get_or s0 (shr u 24) 0) (get_or s1 (bit_and (shr u 16) 0xFF) 0)
      (get_or s0 (bit_and (shr u 8) 0xFF) 0) (get_or s1 (bit_and u 0xFF) 0)

-- What F returns, and the globals it leaves.
unfoldable pub f : Zuc → record { word : ℕ; state : Zuc }
f z =
    let w = add 32 (bit_xor z.brc_x0 z.f_r1) z.f_r2 in
    let w1 = add 32 z.f_r1 z.brc_x1 in
    let w2 = bit_xor z.f_r2 z.brc_x2 in
    let u = l1 (bit_or (shl 32 w1 16) (shr w2 16)) in
    let v = l2 (bit_or (shl 32 w2 16) (shr w1 16)) in
    record { word = w; state = record z { f_r1 = s_box u; f_r2 = s_box v } }

unfoldable pub make_u31 : ℕ → ℕ → ℕ → ℕ
make_u31 a b c = bit_or (bit_or (shl 32 a 23) (shl 32 b 8)) c

-- `expand key`: LFSR_S0 to LFSR_S15.
unfoldable pub load_key : List ℕ → List ℕ → List ℕ
load_key k iv =
    make_u31 (get_or k 0 0) (get_or ek_d 0 0) (get_or iv 0 0)
    ∷ make_u31 (get_or k 1 0) (get_or ek_d 1 0) (get_or iv 1 0)
    ∷ make_u31 (get_or k 2 0) (get_or ek_d 2 0) (get_or iv 2 0)
    ∷ make_u31 (get_or k 3 0) (get_or ek_d 3 0) (get_or iv 3 0)
    ∷ make_u31 (get_or k 4 0) (get_or ek_d 4 0) (get_or iv 4 0)
    ∷ make_u31 (get_or k 5 0) (get_or ek_d 5 0) (get_or iv 5 0)
    ∷ make_u31 (get_or k 6 0) (get_or ek_d 6 0) (get_or iv 6 0)
    ∷ make_u31 (get_or k 7 0) (get_or ek_d 7 0) (get_or iv 7 0)
    ∷ make_u31 (get_or k 8 0) (get_or ek_d 8 0) (get_or iv 8 0)
    ∷ make_u31 (get_or k 9 0) (get_or ek_d 9 0) (get_or iv 9 0)
    ∷ make_u31 (get_or k 10 0) (get_or ek_d 10 0) (get_or iv 10 0)
    ∷ make_u31 (get_or k 11 0) (get_or ek_d 11 0) (get_or iv 11 0)
    ∷ make_u31 (get_or k 12 0) (get_or ek_d 12 0) (get_or iv 12 0)
    ∷ make_u31 (get_or k 13 0) (get_or ek_d 13 0) (get_or iv 13 0)
    ∷ make_u31 (get_or k 14 0) (get_or ek_d 14 0) (get_or iv 14 0)
    ∷ make_u31 (get_or k 15 0) (get_or ek_d 15 0) (get_or iv 15 0)
    ∷ []

-- The body of the loop of `Initialization`.
unfoldable pub init_round : Bool → Zuc → Zuc
init_round version_1_4 z =
    let b = bit_reorganization z in
    let r = f b in
    let w = if version_1_4 then bit_xor r.word r.state.brc_x3 else r.word in
    record r.state { lfsr = lfsr_with_initialisation_mode version_1_4 r.state.lfsr (shr w 1) }

unfoldable pub init_loop : Bool → ℕ → Zuc → Zuc
init_loop version_1_4 zero z = z
init_loop version_1_4 (suc count) z = init_loop version_1_4 count (init_round version_1_4 z)

-- The globals before the call matter only for BRC_X0 to BRC_X3, which nothing reads before it
-- writes them.
unfoldable pub initialization : Bool → List ℕ → List ℕ → Zuc → Zuc
initialization version_1_4 k iv z =
    init_loop version_1_4 32 (record z { lfsr = load_key k iv; f_r1 = 0; f_r2 = 0 })

unfoldable pub initialization_one : Bool → List ℕ → List ℕ → Zuc → Zuc
initialization_one version_1_4 k iv z =
    init_round version_1_4 (record z { lfsr = load_key k iv; f_r1 = 0; f_r2 = 0 })

-- One round of the work mode: the word that F gives, mixed with BRC_X3, and the new globals.
unfoldable pub work_round : Zuc → record { word : ℕ; state : Zuc }
work_round z =
    let r = f (bit_reorganization z) in
    record {
      word = bit_xor r.word r.state.brc_x3;
      state = record r.state { lfsr = lfsr_with_work_mode r.state.lfsr };
    }

unfoldable pub keystream_loop : ℕ → Zuc → record { words : List ℕ; state : Zuc }
keystream_loop zero z = record { words = []; state = z }
keystream_loop (suc left) z =
    let r = work_round z in
    let rest = keystream_loop left r.state in
    record { words = r.word ∷ rest.words; state = rest.state }

-- The words written to pKeystream; the first round's word is discarded.
unfoldable pub generate_keystream : ℕ → Zuc → record { words : List ℕ; state : Zuc }
generate_keystream keystream_len z = keystream_loop keystream_len (work_round z).state
