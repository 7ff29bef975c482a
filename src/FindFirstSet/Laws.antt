-- ===== src/FindFirstSet/Laws.antt =====
-- The versions of ffs.c agree.
use native.Mathlib.Decide.{ℕ_discrete}
use saw_script.Base.{
  ℕ, ◌+◌, ◌-◌, ◌*◌, ◌%◌, ◌^◌, ◌<◌, ◌≡◌, ◌≢◌, ◌↔◌, ◌∙◌, refl, sym, ap, inl, inr, arith, false,
  get_or, bit_and, sub, shl, shr, ◌==◌, Bool-cases, Below, Below-at,
}
use saw_script.FindFirstSet.{
  ref_loop, ffs_ref, Scan, halve, answer, ffs_imp, halve_nobranch, ffs_imp_nobranch, ffs_bug,
  debruijn32, ffs_musl,
}
use saw_script.FindFirstSet.Lowest.{IsLowest, lowest, IsLowest-pos, and_negative}
use saw_script.FindFirstSet.Halves.{ffs_ref_lem, ffs_imp_lem}

-- The shift of the truth value gives the number of places, or none.
halve_nobranch-halve :
    (mask places by : ℕ) (s : Scan)
    → shl 32 1 places ≡ by
    → shl 32 0 places ≡ 0
    → halve_nobranch mask places s ≡ halve mask by s
unfolding halve_nobranch halve
halve_nobranch-halve mask places by s one none = elim (Bool-cases (bit_and s.i mask == 0)) [
  | inl e ↦ rw (e, one) refl
  | inr e ↦
      let all : shr s.i 0 ≡ s.i = omega arith in
      let n : s.n + 0 ≡ s.n = omega arith in rw (e, none, n, all) refl
]

ffs_imp_nobranch-ffs_imp : (w : ℕ) → ffs_imp_nobranch w ≡ ffs_imp w
unfolding ffs_imp_nobranch ffs_imp
ffs_imp_nobranch-ffs_imp w =
    let s₀ : Scan = record { n = 1; i = w } in
    rw
      (
        halve_nobranch-halve 0xffff 4 16 s₀ refl refl,
        halve_nobranch-halve 0x00ff 3 8 (halve 0xffff 16 s₀) refl refl,
        halve_nobranch-halve 0x000f 2 4 (halve 0x00ff 8 (halve 0xffff 16 s₀)) refl refl,
        halve_nobranch-halve 0x0003 1 2 (halve 0x000f 4 (halve 0x00ff 8 (halve 0xffff 16 s₀))) refl
            refl,
      )
      refl

-- The product with a power of two moves one of 32 different 5-bit windows to the top.
abbrev IsWindow : ℕ → Type 0
IsWindow r = get_or debruijn32 (shr (2 ^ r * 0x076be629 % 2 ^ 32) 27) 0 ≡ r

windows : Below IsWindow 32
windows = (
  refl,
  (
    refl,
    (
      refl,
      (
        refl,
        (
          refl,
          (
            refl,
            (
              refl,
              (
                refl,
                (
                  refl,
                  (
                    refl,
                    (
                      refl,
                      (
                        refl,
                        (
                          refl,
                          (
                            refl,
                            (
                              refl,
                              (
                                refl,
                                (
                                  refl,
                                  (
                                    refl,
                                    (
                                      refl,
                                      (
                                        refl,
                                        (
                                          refl,
                                          (
                                            refl,
                                            (
                                              refl,
                                              (
                                                refl,
                                                (
                                                  refl,
                                                  (
                                                    refl,
                                                    (
                                                      refl,
                                                      (refl, (refl, (refl, (refl, (refl, tt))))),
                                                    ),
                                                  ),
                                                ),
                                              ),
                                            ),
                                          ),
                                        ),
                                      ),
                                    ),
                                  ),
                                ),
                              ),
                            ),
                          ),
                        ),
                      ),
                    ),
                  ),
                ),
              ),
            ),
          ),
        ),
      ),
    ),
  ),
)

ffs_musl_lem : (w r : ℕ) → w < 2 ^ 32 → r < 32 → IsLowest w r → ffs_musl w ≡ r + 1
unfolding ffs_musl
ffs_musl_lem w r small h l =
    let pos = IsLowest-pos w r l in
    let some_bit : (w == 0) ≡ false = ground (arith, pos) in
    let negated : sub 32 0 w ≡ 2 ^ 32 - w = omega (arith, pos) in
    rw (some_bit, negated, and_negative 32 w r small l)
      (ap (λ (t : ℕ). t + 1) (Below-at IsWindow 32 r windows h))

zero_imp : ffs_imp 0 ≡ ffs_ref 0
unfolding ffs_imp ffs_ref halve answer
zero_imp = refl

zero_nobranch : ffs_imp_nobranch 0 ≡ ffs_ref 0
zero_nobranch = ffs_imp_nobranch-ffs_imp 0 ∙ zero_imp

zero_musl : ffs_musl 0 ≡ ffs_ref 0
unfolding ffs_musl ffs_ref
zero_musl = refl

bug_ref : ffs_ref 0x101010 ≡ 5
unfolding ffs_ref ref_loop
bug_ref = refl

-- The search by halves, the one without branches and the one by multiplication give the result of
-- the loop, for every 32-bit word.
pub ffs_agree :
    (w : ℕ)
    → w < 2 ^ 32
    → (ffs_imp w ≡ ffs_ref w) × (ffs_imp_nobranch w ≡ ffs_ref w) × (ffs_musl w ≡ ffs_ref w)
ffs_agree w small = elim (ℕ_discrete w 0) [
  | yes z ↦ rw z (zero_imp, zero_nobranch, zero_musl)
  | no nz ↦
      let bit = lowest 32 w (omega arith) small in
      let reference = sym (ffs_ref_lem w bit.0 bit.1 bit.2) in
      let imp = ffs_imp_lem w bit.0 bit.1 bit.2 ∙ reference in
      (imp, ffs_imp_nobranch-ffs_imp w ∙ imp, ffs_musl_lem w bit.0 small bit.1 bit.2 ∙ reference)
]

-- `ffs_bug` gives the result of the loop for every number but 0x101010.
pub ffs_bug_iff : (w : ℕ) → (ffs_bug w ≡ ffs_ref w) ↔ (w ≢ 0x101010)
unfolding ffs_bug
ffs_bug_iff w = elim (ℕ_discrete w 0x101010) [
  | yes e ↦ rw e (λ h. absurd (omega (arith, h, bug_ref)), λ h. absurd (h refl))
  | no ne ↦ let test : (w == 0x101010) ≡ false = ground arith in rw test (λ h. ne, λ h. refl)
]
