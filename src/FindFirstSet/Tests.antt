-- ===== src/FindFirstSet/Tests.antt =====
-- Runs of ffs.c, and the theorem at a number.
use saw_script.Base.{◌≡◌, refl, arith}
use saw_script.FindFirstSet.{ref_loop, ffs_ref, ffs_imp, ffs_imp_nobranch, ffs_musl, halve, answer}
use saw_script.FindFirstSet.Laws.{ffs_agree}

low_bit : ffs_ref 0x101010 ≡ 5
unfolding ffs_ref ref_loop
low_bit = refl

high_bit : ffs_imp 0x80000000 ≡ 32
unfolding ffs_imp halve answer
high_bit = refl

ffs_agree_example :
    (ffs_imp 48 ≡ ffs_ref 48) × (ffs_imp_nobranch 48 ≡ ffs_ref 48) × (ffs_musl 48 ≡ ffs_ref 48)
ffs_agree_example = ffs_agree 48 (omega arith)
