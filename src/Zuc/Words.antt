-- ===== src/Zuc/Words.antt =====
-- The words of zuc.c: what the S-boxes, the bit reorganization and F give fits 32 bits.
use saw_script.Base.{ℕ, ◌^◌, ◌<◌, arith, refl, bit_and, AllBelow-by_test}
use saw_script.Base.Bits.{or-lt}
use saw_script.Zuc.{Zuc, s_box, make_u32, bit_reorganization, f}
use saw_script.Zuc.Tables.{s1}
use saw_script.Zuc.Laws.{IsLfsr}

-- The linear part is a register and the two words of F have 32 bits.
pub record IsWellFormed (z : Zuc) : Type 0 where
  pub register : IsLfsr z.lfsr
  pub r1_fits : z.f_r1 < 2 ^ 32
  pub r2_fits : z.f_r2 < 2 ^ 32

s_box-lt : (u : ℕ) → s_box u < 2 ^ 32
unfolding s_box make_u32
s_box-lt u =
    or-lt 32 _ _ (or-lt 32 _ _ (or-lt 32 _ _ (omega arith) (omega arith)) (omega arith))
      (omega (arith, AllBelow-by_test 256 s1 (omega arith) refl (bit_and u 0xFF)))

pub f-word-lt : (z : Zuc) → (f z).word < 2 ^ 32
unfolding f
f-word-lt z = omega arith

pub f-IsWellFormed : (z : Zuc) → IsLfsr z.lfsr → IsWellFormed (f z).state
unfolding f
f-IsWellFormed z reg = record { register = reg; r1_fits = s_box-lt _; r2_fits = s_box-lt _ }

-- `brc_x3` is the only part of the reorganized bits that is mixed into a result directly.
pub brc_x3-lt : (z : Zuc) → IsLfsr z.lfsr → (f (bit_reorganization z)).state.brc_x3 < 2 ^ 32
unfolding f bit_reorganization
brc_x3-lt z reg = or-lt 32 _ _ (omega arith) (omega (arith, reg.cells 0 (omega arith)))
