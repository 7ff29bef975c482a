-- ===== src/Zuc/Stream.antt =====
-- The key stream of zuc.c.
use saw_script.Base.{ℕ, zero, suc, ◌^◌, ◌<◌, ◌≡◌, ap, refl, arith, length, AllBelow, AllBelow-cons}
use saw_script.Base.Bits.{xor-lt}
use saw_script.Zuc.{Zuc, f, bit_reorganization, work_round, keystream_loop, generate_keystream}
use saw_script.Zuc.Laws.{work_mode_recurrence}
use saw_script.Zuc.Words.{IsWellFormed, f-IsWellFormed, f-word-lt, brc_x3-lt}

work_round-IsWellFormed : (z : Zuc) → IsWellFormed z → IsWellFormed (work_round z).state
unfolding work_round f bit_reorganization
work_round-IsWellFormed z wf =
    let fw = f-IsWellFormed (bit_reorganization z) wf.register in
    record {
      register = (work_mode_recurrence z.lfsr wf.register).0;
      r1_fits = fw.r1_fits;
      r2_fits = fw.r2_fits;
    }

work_round-word-lt : (z : Zuc) → IsWellFormed z → (work_round z).word < 2 ^ 32
unfolding work_round
work_round-word-lt z wf = xor-lt 32 _ _ (f-word-lt (bit_reorganization z)) (brc_x3-lt z wf.register)

keystream_loop_lem :
    (n : ℕ) (z : Zuc)
    → IsWellFormed z
    → (length (keystream_loop n z).words ≡ n)
      × AllBelow (2 ^ 32) (keystream_loop n z).words
      × IsWellFormed (keystream_loop n z).state
unfolding keystream_loop
keystream_loop_lem zero z wf = (refl, λ i. omega arith, wf)
keystream_loop_lem (suc n) z wf =
    let rest = keystream_loop_lem n (work_round z).state (work_round-IsWellFormed z wf) in
    (ap suc rest.0, AllBelow-cons _ _ _ (work_round-word-lt z wf) rest.1, rest.2)

-- From a well-formed state the code writes exactly the number of words that it is asked for, each
-- of 32 bits, and leaves a well-formed state for the next call.
pub generate_keystream-Words :
    (keystream_len : ℕ) (z : Zuc)
    → IsWellFormed z
    → (length (generate_keystream keystream_len z).words ≡ keystream_len)
      × AllBelow (2 ^ 32) (generate_keystream keystream_len z).words
      × IsWellFormed (generate_keystream keystream_len z).state
unfolding generate_keystream
generate_keystream-Words n z wf =
    keystream_loop_lem n (work_round z).state (work_round-IsWellFormed z wf)
