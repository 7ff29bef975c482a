-- ===== src/Zuc/Laws.antt =====
-- The shift register of zuc.c: its cells stay elements of the prime field, and the cell that is
-- shifted in follows the recurrence of the cipher.
use native.Mathlib.Decide.{dec_lt}
use saw_script.Base.{
  ℕ, suc, ◌+◌, ◌*◌, ◌%◌, ◌^◌, ◌<◌, ◌≡◌, refl, ap, arith, Bool, true, false, List, length, get_or,
  Below-at,
}
use saw_script.Base.Bits.{xor-lt}
use saw_script.Zuc.Lfsr.{
  add_m, feedback, shift_in, lfsr_with_initialisation_mode, lfsr_with_work_mode,
}
use saw_script.Zuc.Field.{prime, IsElement, add_m_lem, feedback_lem}

-- 16 cells, each an element.
pub record IsLfsr (s : List ℕ) : Type 0 where
  pub size : length s ≡ 16
  pub cells : (i : ℕ) → i < 16 → IsElement (get_or s i 0)

-- What the cells of a register contribute to the next one.
abbrev pub recurrence : List ℕ → ℕ
recurrence s =
    get_or s 15 0 * 2 ^ 15
    + get_or s 13 0 * 2 ^ 17
    + get_or s 10 0 * 2 ^ 21
    + get_or s 4 0 * 2 ^ 20
    + get_or s 0 0 * (1 + 2 ^ 8)

pub shift_in-old : (s : List ℕ) (v i : ℕ) → i < 15 → get_or (shift_in s v) i 0 ≡ get_or s (suc i) 0
unfolding shift_in
shift_in-old s v i p =
    Below-at (λ j. get_or (shift_in s v) j 0 ≡ get_or s (suc j) 0) 15 i
      (
        refl,
        (
          refl,
          (
            refl,
            (
              refl,
              (
                refl,
                (refl, (refl, (refl, (refl, (refl, (refl, (refl, (refl, (refl, (refl, tt)))))))))),
              ),
            ),
          ),
        ),
      )
      p

pub shift_in-new : (s : List ℕ) (v : ℕ) → get_or (shift_in s v) 15 0 ≡ v
unfolding shift_in
shift_in-new s v = refl

shift_in-length : (s : List ℕ) (v : ℕ) → length (shift_in s v) ≡ 16
unfolding shift_in
shift_in-length s v = refl

shift_in-IsLfsr : (s : List ℕ) (v : ℕ) → IsLfsr s → IsElement v → IsLfsr (shift_in s v)
shift_in-IsLfsr s v reg e = record {
  size = shift_in-length s v;
  cells = λ i p. elim (dec_lt i 15) [
    | yes old ↦ rw (shift_in-old s v i old) (reg.cells (suc i) (omega arith))
    | no new ↦ let last : i ≡ 15 = omega arith in rw (last, shift_in-new s v) e
  ];
}

-- A step in work mode keeps a register well formed: in particular no cell ever becomes 0, though
-- the code omits the test for it. Cell `i` takes the value of cell `i + 1`, and the last one is
-- the recurrence of the cipher modulo 2 ^ 31 - 1.
pub work_mode_recurrence :
    (s : List ℕ)
    → IsLfsr s
    → IsLfsr (lfsr_with_work_mode s)
      × ((i : ℕ) → i < 15 → get_or (lfsr_with_work_mode s) i 0 ≡ get_or s (suc i) 0)
      × (get_or (lfsr_with_work_mode s) 15 0 % prime ≡ recurrence s % prime)
unfolding lfsr_with_work_mode
work_mode_recurrence s reg =
    let fb = feedback_lem s reg.cells in
    (
      shift_in-IsLfsr s (feedback s) reg fb.0,
      shift_in-old s (feedback s),
      rw (shift_in-new s (feedback s)) fb.1,
    )

-- What version 1.5 shifts in: the test for 0 never succeeds.
pub initialisation_mode_cell :
    (s : List ℕ) (u : ℕ)
    → IsLfsr s
    → u < 2 ^ 31
    → lfsr_with_initialisation_mode false s u ≡ shift_in s (add_m (feedback s) u)
unfolding lfsr_with_initialisation_mode
initialisation_mode_cell s u reg h =
    let fb = feedback_lem s reg.cells in
    let sum = add_m_lem (feedback s) u fb.0 (omega arith) in ap (shift_in s) (ground (arith, sum.0))

pub initialisation_mode-IsLfsr :
    (version_1_4 : Bool) (s : List ℕ) (u : ℕ)
    → IsLfsr s
    → u < 2 ^ 31
    → IsLfsr (lfsr_with_initialisation_mode version_1_4 s u)
unfolding lfsr_with_initialisation_mode
initialisation_mode-IsLfsr true s u reg h =
    let fb = feedback_lem s reg.cells in
    let bound = xor-lt 31 (feedback s) u (omega (arith, fb.0)) h in
    shift_in-IsLfsr s _ reg (ground (arith, bound))
initialisation_mode-IsLfsr false s u reg h =
    let fb = feedback_lem s reg.cells in
    let sum = add_m_lem (feedback s) u fb.0 (omega arith) in
    shift_in-IsLfsr s _ reg (ground (arith, sum.0))

-- A step in initialisation mode keeps a register well formed in both versions, whatever 31-bit
-- number is mixed in. In version 1.5 the new cell is the recurrence plus that number, modulo
-- 2 ^ 31 - 1.
pub initialisation_mode_recurrence :
    (version_1_4 : Bool) (s : List ℕ) (u : ℕ)
    → IsLfsr s
    → u < 2 ^ 31
    → IsLfsr (lfsr_with_initialisation_mode version_1_4 s u)
      × (get_or (lfsr_with_initialisation_mode false s u) 15 0 % prime ≡ (recurrence s + u) % prime)
initialisation_mode_recurrence version_1_4 s u reg h =
    (initialisation_mode-IsLfsr version_1_4 s u reg h, cell)
  where
    cell :
        get_or (lfsr_with_initialisation_mode false s u) 15 0 % prime ≡ (recurrence s + u) % prime
    cell =
        let fb = feedback_lem s reg.cells in
        let sum = add_m_lem (feedback s) u fb.0 (omega arith) in
        rw (initialisation_mode_cell s u reg h, shift_in-new s (add_m (feedback s) u))
          (omega (arith, fb.1, sum.1))
