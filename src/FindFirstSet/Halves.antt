-- ===== src/FindFirstSet/Halves.antt =====
-- The loop of ffs.c and the search by halves find the lowest bit.
use saw_script.Base.{
  ℕ, zero, suc, ◌+◌, ◌-◌, ◌*◌, ◌/◌, ◌^◌, ◌≤◌, ◌<◌, ◌≡◌, ◌∙◌, refl, ap, inl, inr, arith, true, false,
  bit_and, add, shl, ◌==◌, Bool-cases,
}
use saw_script.Base.Bits.{and_low}
use saw_script.FindFirstSet.{ref_loop, ffs_ref, halve, answer, ffs_imp}
use saw_script.FindFirstSet.Lowest.{
  IsLowest, IsLowest-pos, IsLowest-shift, IsLowest-stay, div-pow_next, and-one_bit, pow_pos,
}

-- The loop finds the bit.
ref_loop_lem :
    (w left i r : ℕ)
    → i + left ≤ 32
    → r < left
    → IsLowest (w / 2 ^ i) r
    → ref_loop w left i ≡ i + r + 1
unfolding ref_loop
ref_loop_lem w zero i r fits h l = absurd (omega arith)
ref_loop_lem w (suc left) i zero fits h l =
    let test : (bit_and (shl 32 1 i) w == 0) ≡ false =
      ground (arith, and-one_bit i w (omega arith), ap (λ (t : ℕ). 2 ^ i * t) l, pow_pos i) in
    rw test (omega arith)
ref_loop_lem w (suc left) i (suc r) fits h l =
    let test : (bit_and (shl 32 1 i) w == 0) ≡ true =
      ground (arith, and-one_bit i w (omega arith), ap (λ (t : ℕ). 2 ^ i * t) l.0) in
    let next = div-pow_next w i in
    rw test (ref_loop_lem w left (i + 1) r (omega arith) (omega arith) (rw next l.1) ∙ omega arith)

pub ffs_ref_lem : (w r : ℕ) → r < 32 → IsLowest w r → ffs_ref w ≡ r + 1
unfolding ffs_ref
ffs_ref_lem w r h l =
    let some_bit : (w == 0) ≡ false = ground (arith, IsLowest-pos w r l) in
    let whole : w / 2 ^ 0 ≡ w = omega arith in
    rw some_bit (ref_loop_lem w 32 0 r (omega arith) h (rw whole l) ∙ omega arith)

-- A half is skipped if the bit is not in it.
halve_lem :
    (m n i r : ℕ)
    → 0 < m
    → r < m + m
    → IsLowest i r
    → (s : ℕ) × (s < m)
      × IsLowest (halve (2 ^ m - 1) m (record { n = n; i = i })).i s
      × ((halve (2 ^ m - 1) m (record { n = n; i = i })).n + s ≡ n + r)
unfolding halve
halve_lem m n i r pos h l = elim (Bool-cases (bit_and i (2 ^ m - 1) == 0)) [
  | inl e ↦
      let shift = IsLowest-shift m i r l (ground (arith, and_low m i)) in
      rw e (r - m, omega arith, shift.1, omega (arith, shift.0))
  | inr e ↦ rw e (r, IsLowest-stay m i r l (ground (arith, and_low m i)), l, refl)
]

answer_lem : (n i r : ℕ) → r < 2 → IsLowest i r → answer (record { n = n; i = i }) ≡ n + r
unfolding answer
answer_lem n i zero h l =
    let some_bit : (i == 0) ≡ false = ground arith in
    let digit : bit_and (add 32 i 1) 1 ≡ 0 = omega (arith, and_low 1 (add 32 i 1)) in
    rw (some_bit, digit) refl
answer_lem n i (suc zero) h l =
    let some_bit : (i == 0) ≡ false = ground (arith, IsLowest-pos i 1 l) in
    let digit : bit_and (add 32 i 1) 1 ≡ 1 = omega (arith, and_low 1 (add 32 i 1), l.0) in
    rw (some_bit, digit) refl
answer_lem n i (suc (suc r)) h l = absurd (omega arith)

pub ffs_imp_lem : (w r : ℕ) → r < 32 → IsLowest w r → ffs_imp w ≡ r + 1
unfolding ffs_imp
ffs_imp_lem w r h l =
    let s₁ = halve 0xffff 16 (record { n = 1; i = w }) in
    let s₂ = halve 0x00ff 8 s₁ in
    let s₃ = halve 0x000f 4 s₂ in
    let s₄ = halve 0x0003 2 s₃ in
    let h₁ = halve_lem 16 1 w r (omega arith) (omega arith) l in
    let h₂ = halve_lem 8 s₁.n s₁.i h₁.0 (omega arith) (omega (arith, h₁.1)) h₁.2 in
    let h₃ = halve_lem 4 s₂.n s₂.i h₂.0 (omega arith) (omega (arith, h₂.1)) h₂.2 in
    let h₄ = halve_lem 2 s₃.n s₃.i h₃.0 (omega arith) (omega (arith, h₃.1)) h₃.2 in
    answer_lem s₄.n s₄.i h₄.0 h₄.1 h₄.2 ∙ omega (arith, h₁.3, h₂.3, h₃.3, h₄.3)
