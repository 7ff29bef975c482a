-- ===== src/Chacha/Stream.antt =====
-- chacha20.c, `crypto_stream_chacha20_xor` and `crypto_stream_chacha20`. `mem` is the memory that
-- `out` and `msg` point into, so the two may overlap; the key and the nonce are read before
-- anything is written by the first function, and lie outside `mem`.
use saw_script.Base.{
  ℕ, zero, suc, ◌+◌, ◌-◌, ◌/◌, List, Option, none, some, get_or, set, bit_xor, add, if◌then◌else◌,
  leb,
}
use saw_script.Chacha.Block.{core, kexp}

-- `for (i = ...; ...; ++i) out[i] = msg[i] ^ blk[i];` with `left` rounds to go.
unfoldable pub xor_loop : List ℕ → ℕ → ℕ → ℕ → ℕ → List ℕ → List ℕ
xor_loop blk out msg zero i mem = mem
xor_loop blk out msg (suc left) i mem =
    xor_loop blk out msg left (i + 1)
      (set mem (out + i) (bit_xor (get_or mem (msg + i) 0) (get_or blk i 0)))

-- The loop `for(;;)`, on fuel; `none` means that the fuel ran out.
unfoldable pub stream_loop : ℕ → List ℕ → ℕ → ℕ → ℕ → List ℕ → Option (List ℕ)
stream_loop zero st out msg mlen mem = none
stream_loop (suc fuel) st out msg mlen mem =
    let blk = core st in
    let st' = set st 12 (add 32 (get_or st 12 0) 1) in
    let rest =
      stream_loop fuel st' (out + 64) (msg + 64) (mlen - 64) (xor_loop blk out msg 64 0 mem) in
    if leb mlen 64 then some (xor_loop blk out msg mlen 0 mem) else rest

-- The memory at the return; the returned status is always 0.
unfoldable pub stream_xor : ℕ → ℕ → ℕ → ℕ → List ℕ → List ℕ → List ℕ → Option (List ℕ)
stream_xor out msg mlen counter nonce key mem =
    stream_loop (mlen / 64 + 1) (kexp counter nonce key) out msg mlen mem

unfoldable pub zero_loop : ℕ → ℕ → ℕ → List ℕ → List ℕ
zero_loop out zero i mem = mem
zero_loop out (suc left) i mem = zero_loop out left (i + 1) (set mem (out + i) 0)

unfoldable pub stream : ℕ → ℕ → ℕ → List ℕ → List ℕ → List ℕ → Option (List ℕ)
stream out olen counter nonce key mem =
    stream_xor out out olen counter nonce key (zero_loop out olen 0 mem)
