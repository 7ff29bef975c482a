-- ===== src/FindFirstSet.antt =====
-- intTests/test_intro_examples/ffs.c: the position of the first set bit, from 1, or 0 for no bit.
pub mod Lowest
pub mod Halves
pub mod Laws
mod Tests
use saw_script.Base.{
  ℕ, zero, suc, ◌+◌, ◌*◌, ◌/◌, ◌%◌, ◌^◌, List, [], ◌∷◌, get_or, bit_and, add, sub, shl, shr,
  if◌then◌else◌, ◌==◌,
}

unfoldable pub ref_loop : ℕ → ℕ → ℕ → ℕ
ref_loop word zero i = 0
ref_loop word (suc left) i =
    let rest = ref_loop word left (i + 1) in if bit_and (shl 32 1 i) word == 0 then rest else i + 1

unfoldable pub ffs_ref : ℕ → ℕ
ffs_ref word = if word == 0 then 0 else ref_loop word 32 0

-- The variables `n` and `i` of the two searches by halves.
pub record Scan : Type 0 where
  pub n : ℕ
  pub i : ℕ

-- One of the four lines with a test.
unfoldable pub halve : ℕ → ℕ → Scan → Scan
halve mask by s = if bit_and s.i mask == 0 then record { n = s.n + by; i = shr s.i by } else s

unfoldable pub answer : Scan → ℕ
answer s = if s.i == 0 then 0 else s.n + bit_and (add 32 s.i 1) 0x01

unfoldable pub ffs_imp : ℕ → ℕ
ffs_imp i =
    answer
      (halve 0x0003 2 (halve 0x000f 4 (halve 0x00ff 8 (halve 0xffff 16 (record { n = 1; i = i })))))

-- The same without a branch: the truth value is shifted to the number of places.
unfoldable pub halve_nobranch : ℕ → ℕ → Scan → Scan
halve_nobranch mask places s =
    let by = shl 32 (if bit_and s.i mask == 0 then 1 else 0) places in
    record { n = s.n + by; i = shr s.i by }

unfoldable pub ffs_imp_nobranch : ℕ → ℕ
ffs_imp_nobranch i = answer (
    halve_nobranch 0x0003 1 (
      halve_nobranch 0x000f 2
        (halve_nobranch 0x00ff 3 (halve_nobranch 0xffff 4 (record { n = 1; i = i })))))

unfoldable pub ffs_bug : ℕ → ℕ
ffs_bug word = if word == 0x101010 then 4 else ffs_ref word

abbrev pub debruijn32 : List ℕ
debruijn32 =
    0 ∷ 1 ∷ 23 ∷ 2 ∷ 29 ∷ 24 ∷ 19 ∷ 3 ∷ 30 ∷ 27 ∷ 25 ∷ 11 ∷ 20 ∷ 8 ∷ 4 ∷ 13 ∷ 31 ∷ 22 ∷ 28 ∷ 18 ∷ 26
    ∷ 10 ∷ 7 ∷ 12 ∷ 21 ∷ 17 ∷ 9 ∷ 6 ∷ 16 ∷ 5 ∷ 15 ∷ 14 ∷ []

unfoldable pub ffs_musl : ℕ → ℕ
ffs_musl x =
    if x == 0
    then 0
    else get_or debruijn32 (shr (bit_and x (sub 32 0 x) * 0x076be629 % 2 ^ 32) 27) 0 + 1
