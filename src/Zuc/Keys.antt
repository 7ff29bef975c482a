-- ===== src/Zuc/Keys.antt =====
-- Key loading and initialization of zuc.c: they end in a well-formed state, and one round of
-- initialization of version 1.5 keeps different initialization vectors apart.
use saw_script.Base.{
  ℕ, zero, suc, ◌+◌, ◌*◌, ◌^◌, ◌<◌, ◌≡◌, ◌∙◌, refl, arith, Bool, true, false, List, length, get_or,
  shl, AllBelow, Below-at, AllBelow-by_test, ltb, ltb→lt,
}
use saw_script.Base.Bits.{or_disjoint, xor-lt}
use saw_script.Zuc.{
  Zuc, f, bit_reorganization, make_u31, load_key, init_round, init_loop, initialization,
}
use saw_script.Zuc.Tables.{ek_d}
use saw_script.Zuc.Laws.{IsLfsr, initialisation_mode-IsLfsr}
use saw_script.Zuc.Words.{IsWellFormed, f-IsWellFormed, f-word-lt, brc_x3-lt}

make_u31_sum :
    (a b c : ℕ) → a < 2 ^ 8 → b < 2 ^ 15 → c < 2 ^ 8 → make_u31 a b c ≡ a * 2 ^ 23 + b * 2 ^ 8 + c
unfolding make_u31
make_u31_sum a b c p q r =
    let high : shl 32 a 23 ≡ a * 2 ^ 23 = omega arith in
    let mid : shl 32 b 8 ≡ b * 2 ^ 8 = omega arith in
    let both : a * 2 ^ 23 + b * 2 ^ 8 ≡ (a * 2 ^ 15 + b) * 2 ^ 8 = omega arith in
    rw
      (
        high,
        mid,
        or_disjoint 23 a (b * 2 ^ 8) (omega arith),
        both,
        or_disjoint 8 (a * 2 ^ 15 + b) c r,
      )
      (omega arith)

load_key-cell :
    (k iv : List ℕ) (i : ℕ)
    → i < 16
    → get_or (load_key k iv) i 0 ≡ make_u31 (get_or k i 0) (get_or ek_d i 0) (get_or iv i 0)
unfolding load_key
load_key-cell k iv i p =
    Below-at
      (λ j. get_or (load_key k iv) j 0 ≡ make_u31 (get_or k j 0) (get_or ek_d j 0) (get_or iv j 0))
      16 i
      (
        refl,
        (
          refl,
          (
            refl,
            (
              refl,
              (
                refl,
                (
                  refl,
                  (
                    refl,
                    (refl, (refl, (refl, (refl, (refl, (refl, (refl, (refl, (refl, tt))))))))),
                  ),
                ),
              ),
            ),
          ),
        ),
      )
      p

load_key-length : (k iv : List ℕ) → length (load_key k iv) ≡ 16
unfolding load_key
load_key-length k iv = refl

-- The constants are positive 15-bit numbers.
ek_d-range : (i : ℕ) → i < 16 → (0 < get_or ek_d i 0) × (get_or ek_d i 0 < 2 ^ 15)
ek_d-range i p = (
  ltb→lt _ _ (
      Below-at (λ j. ltb 0 (get_or ek_d j 0) ≡ true) 16 i
        (
          refl,
          (
            refl,
            (
              refl,
              (
                refl,
                (
                  refl,
                  (
                    refl,
                    (
                      refl,
                      (refl, (refl, (refl, (refl, (refl, (refl, (refl, (refl, (refl, tt))))))))),
                    ),
                  ),
                ),
              ),
            ),
          ),
        )
        p),
  AllBelow-by_test (2 ^ 15) ek_d (omega arith) refl i,
)

module _ (k iv : List ℕ) (k_bytes : AllBelow 256 k) (iv_bytes : AllBelow 256 iv) where
  pub load_key_sum :
      (i : ℕ)
      → i < 16
      → get_or (load_key k iv) i 0 ≡ get_or k i 0 * 2 ^ 23 + get_or ek_d i 0 * 2 ^ 8 + get_or iv i 0
  load_key_sum i p =
      load_key-cell k iv i p
      ∙ make_u31_sum (get_or k i 0) (get_or ek_d i 0) (get_or iv i 0) (k_bytes i)
          ((ek_d-range i p).1) (iv_bytes i)

  pub load_key-IsLfsr : IsLfsr (load_key k iv)
  load_key-IsLfsr = record {
    size = load_key-length k iv;
    cells = λ i p. omega (arith, load_key_sum i p, ek_d-range i p, k_bytes i, iv_bytes i);
  }

init_round-IsWellFormed :
    (version_1_4 : Bool) (z : Zuc) → IsLfsr z.lfsr → IsWellFormed (init_round version_1_4 z)
unfolding init_round f bit_reorganization
init_round-IsWellFormed true z reg =
    let z' = bit_reorganization z in
    let fw = f-IsWellFormed z' reg in
    let mixed = xor-lt 32 (f z').word z'.brc_x3 (f-word-lt z') (brc_x3-lt z reg) in
    record {
      register = initialisation_mode-IsLfsr true z.lfsr _ reg (omega (arith, mixed));
      r1_fits = fw.r1_fits;
      r2_fits = fw.r2_fits;
    }
init_round-IsWellFormed false z reg =
    let z' = bit_reorganization z in
    let fw = f-IsWellFormed z' reg in
    record {
      register = initialisation_mode-IsLfsr false z.lfsr _ reg (omega (arith, f-word-lt z'));
      r1_fits = fw.r1_fits;
      r2_fits = fw.r2_fits;
    }

init_loop-IsWellFormed :
    (version_1_4 : Bool) (count : ℕ) (z : Zuc)
    → IsWellFormed z
    → IsWellFormed (init_loop version_1_4 count z)
unfolding init_loop
init_loop-IsWellFormed v zero z wf = wf
init_loop-IsWellFormed v (suc count) z wf =
    init_loop-IsWellFormed v count (init_round v z) (init_round-IsWellFormed v z wf.register)

-- Initialization from a key and an initialization vector of bytes ends in a well-formed state, in
-- both versions and whatever the globals held before: every cell of the register is between 1 and
-- 2 ^ 31 - 1, and the words of F have 32 bits.
pub initialization-IsWellFormed :
    (version_1_4 : Bool) (k iv : List ℕ) (z : Zuc)
    → AllBelow 256 k
    → AllBelow 256 iv
    → IsWellFormed (initialization version_1_4 k iv z)
unfolding initialization
initialization-IsWellFormed v k iv z k_bytes iv_bytes = init_loop-IsWellFormed v 32 _ (record {
  register = load_key-IsLfsr k iv k_bytes iv_bytes;
  r1_fits = omega arith;
  r2_fits = omega arith;
})
