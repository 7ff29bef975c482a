-- ===== src/Sha512/Tests.antt =====
-- The digest of "abc", and the theorems at concrete inputs.
use saw_script.Base.{ℕ, List, [], ◌∷◌, ◌≡◌, refl, replicate, take, true, false, arith}
use saw_script.Sha512.Words.{
  bswap8, host_word, host_bytes, load_u64_be, store_u64_be, big_sigma0, big_sigma1, small_sigma0,
  small_sigma1, ch, maj,
}
use saw_script.Sha512.Rounds.{
  round_00_15, next_word, loading_rounds, sixteen_rounds, later_rounds, compress, block_data_order,
}
use saw_script.Sha512.Context.{
  Ctx, Outcome, init, count_bits, absorb, fill, update, pad_buffer, output_words, write_digest,
  final, finished, sha512, aborted, no_output,
}
use saw_script.Sha512.Spec.{digest}
use saw_script.Sha512.Streaming.{Represents, init-Represents, update-Represents}
use saw_script.Sha512.Digest.{update_all, streaming-digest, sha512-digest}

abbrev ctx : Ctx
ctx = record { h = []; nl = 5; nh = 6; p = replicate 128 7; num = 99; md_len = 0 }

abbrev digest_of : Outcome → List ℕ
digest_of aborted = []
digest_of (no_output c) = []
digest_of (finished bytes c) = bytes

abc : take 4 (digest_of (sha512 ctx (97 ∷ 98 ∷ 99 ∷ []) 3 true)) ≡ 0xdd ∷ 0xaf ∷ 0x35 ∷ 0xa1 ∷ []
unfolding bswap8 host_word host_bytes load_u64_be store_u64_be big_sigma0 big_sigma1 small_sigma0
    small_sigma1 ch maj round_00_15 next_word loading_rounds sixteen_rounds later_rounds compress
    block_data_order init count_bits absorb fill update pad_buffer output_words write_digest final
    sha512
abc = refl

abbrev chunks : List (List ℕ)
chunks = (97 ∷ 98 ∷ []) ∷ (99 ∷ []) ∷ []

streaming-digest_example :
    let c = update_all (init ctx) chunks in
    (final true c ≡ finished (digest (97 ∷ 98 ∷ 99 ∷ [])) (pad_buffer c))
    × (final false c ≡ no_output (pad_buffer c))
streaming-digest_example = streaming-digest chunks ctx refl (omega arith)

sha512-digest_example :
    (c : Ctx) × (sha512 ctx (97 ∷ 98 ∷ 99 ∷ []) 3 true ≡ finished (digest (97 ∷ 98 ∷ 99 ∷ [])) c)
sha512-digest_example = sha512-digest ctx (97 ∷ 98 ∷ 99 ∷ []) 3 refl refl (omega arith)

update-Represents_example : Represents (97 ∷ 98 ∷ []) (update (init ctx) (97 ∷ 98 ∷ []) 2)
update-Represents_example =
    update-Represents [] (97 ∷ 98 ∷ []) (init ctx) 2 refl (omega arith) (init-Represents ctx refl)
