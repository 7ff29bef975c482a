-- ===== src/Sha512/Context.antt =====
-- sha512.h's context, and sha512.c's `SHA512_Init`, `SHA512_Update`, `SHA512_Final`, `SHA512`.
-- `SHA512_Init` and `SHA512_Update` always return 1, so their result is the context alone.
use saw_script.Base.{
  ℕ, zero, suc, ◌+◌, ◌-◌, ◌/◌, ◌%◌, ◌^◌, List, [], ◌++◌, Bool, get_or, set, take, drop, replicate,
  add, sub, shl, shr, if◌then◌else◌, ltb, leb, ◌==◌,
}
use saw_script.Sha512.Words.{store_u64_be}
use saw_script.Sha512.Constants.{initial_hash}
use saw_script.Sha512.Rounds.{block_data_order}

-- SHA512_CTX: `nl` and `nh` count the bits, `p` holds `num` bytes that wait for a whole block.
pub record Ctx : Type 0 where
  pub h : List ℕ
  pub nl : ℕ
  pub nh : ℕ
  pub p : List ℕ
  pub num : ℕ
  pub md_len : ℕ

-- `memcpy(dst + at, src, n)` and `memset(dst + at, v, n)`, inside the bounds of `dst`.
abbrev pub memcpy : List ℕ → ℕ → List ℕ → ℕ → List ℕ
memcpy dst at src n = take at dst ++ (take n src ++ drop (at + n) dst)

abbrev pub memset : List ℕ → ℕ → ℕ → ℕ → List ℕ
memset dst at v n = take at dst ++ (replicate n v ++ drop (at + n) dst)

-- `SHA512_Init` leaves the buffer `p` as it is.
unfoldable pub init : Ctx → Ctx
init sha = record { h = initial_hash; nl = 0; nh = 0; p = sha.p; num = 0; md_len = 64 }

-- The bit count at the head of `SHA512_Update`.
unfoldable pub count_bits : Ctx → ℕ → Ctx
count_bits c len =
    let l = add 64 c.nl (shl 64 len 3) in
    let carried = if ltb l c.nl then add 64 c.nh 1 else c.nh in
    record c { nl = l; nh = add 64 carried (shr len 61) }

-- The end of `SHA512_Update`, from `if (len >= sizeof(c->p))` on.
unfoldable pub absorb : Ctx → List ℕ → ℕ → Ctx
absorb c input len =
    let whole = leb 128 len in
    let h' = if whole then block_data_order c.h input (len / 128) else c.h in
    let left = if whole then len % 128 else len in
    let rest = if whole then drop (len - len % 128) input else input in
    if left == 0
    then record c { h = h' }
    else record c { h = h'; p = memcpy c.p 0 rest left; num = left }

-- `SHA512_Update` from `if (c->num != 0)` on.
unfoldable pub fill : Ctx → List ℕ → ℕ → Ctx
fill c input len =
    let n = sub 64 128 c.num in
    if c.num == 0
    then absorb c input len
    else if ltb len n
    then record c { p = memcpy c.p c.num input len; num = add 32 c.num (len % 2 ^ 32) }
    else let p' = memcpy c.p c.num input n in
      absorb (record c { p = p'; num = 0; h = block_data_order c.h p' 1 }) (drop n input) (len - n)

unfoldable pub update : Ctx → List ℕ → ℕ → Ctx
update c input len = if len == 0 then c else fill (count_bits c len) input len

-- How `SHA512_Final` ends: an assertion that fails, the return of 0 for a null `out`, or the return
-- of 1 with the bytes that were written to `out`.
pub data Outcome : Type 0 where
  aborted : Outcome
  no_output : Ctx → Outcome
  finished : List ℕ → Ctx → Outcome

-- The padding of `SHA512_Final`, up to the last block.
unfoldable pub pad_buffer : Ctx → Ctx
pad_buffer c =
    let marked = set c.p c.num 0x80 in
    let n = c.num + 1 in
    let crowded = ltb (128 - 16) n in
    let first = memset marked n 0 (128 - n) in
    let h' = if crowded then block_data_order c.h first 1 else c.h in
    let n' = if crowded then 0 else n in
    let p₁ = memset (if crowded then first else marked) n' 0 (128 - 16 - n') in
    let p₂ = memcpy p₁ (128 - 16) (store_u64_be c.nh) 8 in
    let p₃ = memcpy p₂ (128 - 8) (store_u64_be c.nl) 8 in
    record c { h = block_data_order h' p₃ 1; p = p₃ }

-- The loop over `out_words`, with `left` words to go.
unfoldable pub output_words : List ℕ → ℕ → ℕ → List ℕ
output_words h zero i = []
output_words h (suc left) i = store_u64_be (get_or h i 0) ++ output_words h left (i + 1)

-- The end of `SHA512_Final`, after the last block; `has_out` says that `out` is not null.
unfoldable pub write_digest : Bool → Ctx → Outcome
write_digest has_out c =
    if has_out
    then (if c.md_len % 8 == 0 then finished (output_words c.h (c.md_len / 8) 0) c else aborted)
    else no_output c

unfoldable pub final : Bool → Ctx → Outcome
final has_out sha = if sha.md_len == 64 then write_digest has_out (pad_buffer sha) else aborted

-- `ctx` is the context on the stack, whose contents at the start are not known, and which is wiped
-- at the end. The result is that of the call of `SHA512_Final`, which `SHA512` ignores.
unfoldable pub sha512 : Ctx → List ℕ → ℕ → Bool → Outcome
sha512 ctx input len has_out = final has_out (update (init ctx) input len)
