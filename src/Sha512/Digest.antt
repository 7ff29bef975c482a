-- ===== src/Sha512/Digest.antt =====
-- `SHA512_Final` pads the message that the context stands for and returns its digest; so
-- `SHA512`, and any sequence of calls of `SHA512_Update`, compute the digest of the whole message.
use saw_script.Base.{
  ℕ, ◌/◌, ◌%◌, ◌^◌, ◌<◌, ◌≡◌, refl, ap, ◌∙◌, List, [], ◌∷◌, ◌++◌, length, true, false, ◌==◌, All,
  if◌then◌else◌,
}
use mathlib.Core.List.{append-nil, append_assoc}
use saw_script.Sha512.Spec.{digest}
use saw_script.Sha512.Padding.{pad_buffer-hash}
use saw_script.Sha512.Context.{
  Ctx, init, update, pad_buffer, output_words, write_digest, final, sha512, Outcome, aborted,
  no_output, finished,
}
use saw_script.Sha512.Streaming.{Represents, init-Represents, update-Represents}

-- How `SHA512_Final` answers on a context that stands for `m`, with and without an output.
pub final-digest :
    (m : List ℕ) (c : Ctx)
    → Represents m c
    → (final true c ≡ finished (digest m) (pad_buffer c))
      × (final false c ≡ no_output (pad_buffer c))
unfolding final write_digest digest pad_buffer
final-digest m c v = (
  ap (λ (n : ℕ). if n == 64 then written c.md_len else aborted) v.counts.md
      ∙ (ap written v.counts.md
          ∙ ap (λ h. finished (output_words h 8 0) (pad_buffer c)) (pad_buffer-hash m c v)),
  ap (λ (n : ℕ). if n == 64 then no_output (pad_buffer c) else aborted) v.counts.md,
)
  where
    written : ℕ → Outcome
    written n =
        if n % 8 == 0
        then finished (output_words (pad_buffer c).h (n / 8) 0) (pad_buffer c)
        else aborted

-- Several calls of `SHA512_Update`, one for each chunk, with its length.
abbrev pub update_all : Ctx → List (List ℕ) → Ctx
update_all c [] = c
update_all c (chunk ∷ chunks) = update_all (update c chunk (length chunk)) chunks

abbrev pub joined : List (List ℕ) → List ℕ
joined [] = []
joined (chunk ∷ chunks) = chunk ++ joined chunks

update_all-Represents :
    (chunks : List (List ℕ)) (m : List ℕ) (c : Ctx)
    → All (λ chunk. length chunk < 2 ^ 64) chunks
    → Represents m c
    → Represents (m ++ joined chunks) (update_all c chunks)
update_all-Represents [] m c fits v = rw (append-nil m) v
update_all-Represents (chunk ∷ chunks) m c fits v = rw (← append_assoc m chunk (joined chunks)) (
    update_all-Represents chunks (m ++ chunk) (update c chunk (length chunk)) fits.1
      (update-Represents m chunk c (length chunk) refl fits.0 v))

-- However a message is cut into chunks, `SHA512_Init`, one `SHA512_Update` for each chunk and
-- `SHA512_Final` write the digest of the whole message to a non-null output, and return 0 on a null
-- one; this holds if the buffer has its 128 bytes and each chunk's length fits `size_t`.
pub streaming-digest :
    (chunks : List (List ℕ)) (ctx : Ctx)
    → length ctx.p ≡ 128
    → All (λ chunk. length chunk < 2 ^ 64) chunks
    → let c = update_all (init ctx) chunks in
      (final true c ≡ finished (digest (joined chunks)) (pad_buffer c))
      × (final false c ≡ no_output (pad_buffer c))
streaming-digest chunks ctx size fits =
    final-digest (joined chunks) (update_all (init ctx) chunks)
      (update_all-Represents chunks [] (init ctx) fits (init-Represents ctx size))

-- `SHA512` of `len` bytes writes their digest, whatever the context on the stack holds; this holds
-- if the context's buffer has its 128 bytes and the length fits `size_t`.
pub sha512-digest :
    (ctx : Ctx) (input : List ℕ) (len : ℕ)
    → length ctx.p ≡ 128
    → length input ≡ len
    → len < 2 ^ 64
    → (c : Ctx) × (sha512 ctx input len true ≡ finished (digest input) c)
unfolding sha512
sha512-digest ctx input len size e fits = (
  pad_buffer (update (init ctx) input len),
  (final-digest input (update (init ctx) input len)
      (update-Represents [] input (init ctx) len e fits (init-Represents ctx size))).0,
)
