-- ===== src/Chacha/Keystream.antt =====
-- `crypto_stream_chacha20`: the key stream itself, by encrypting zeros in place.
use native.Mathlib.Decide.{ℕ_discrete}
use saw_script.Base.{
  ℕ, zero, suc, ◌+◌, ◌≤◌, ◌<◌, ◌^◌, ◌≡◌, refl, ◌∙◌, ◌⊎◌, inl, arith, List, Option, some, length,
  get_or, set, length-set, get_or-set_self, get_or-set_ne,
}
use saw_script.Base.Bits.{zero-xor}
use saw_script.Chacha.Stream.{zero_loop, stream}
use saw_script.Chacha.Laws.{keystream, stream_xor-Streams}

-- `zero_loop` has cleared the offsets from `lo` to `hi` of `out`, and nothing else.
record IsCleared (out lo hi : ℕ) (before after : List ℕ) : Type 0 where
  same_length : length after ≡ length before
  inside : (j : ℕ) → lo ≤ j → j < hi → get_or after (out + j) 0 ≡ 0
  outside : (p : ℕ) → (p < out + lo) ⊎ (out + hi ≤ p) → get_or after p 0 ≡ get_or before p 0

clear_byte :
    (out i hi : ℕ) (mem after : List ℕ)
    → i < hi
    → out + hi ≤ length mem
    → IsCleared out (i + 1) hi (set mem (out + i) 0) after
    → IsCleared out i hi mem after
clear_byte out i hi mem after below fits rest = record {
  same_length = rest.same_length ∙ length-set mem (out + i) 0;
  inside = λ j p q. elim (ℕ_discrete j i) [
    | yes here ↦
        rest.outside (out + j) (inl (omega arith))
        ∙ rw here (get_or-set_self mem (out + i) 0 0 (omega arith))
    | no later ↦ rest.inside j (omega arith) q
  ];
  outside = λ p h. rest.outside p (grind arith) ∙ get_or-set_ne mem (out + i) p 0 0 (grind arith);
}

zero_loop-IsCleared :
    (out left i hi : ℕ) (mem : List ℕ)
    → i + left ≡ hi
    → out + hi ≤ length mem
    → IsCleared out i hi mem (zero_loop out left i mem)
unfolding zero_loop
zero_loop-IsCleared out zero i hi mem e fits = record {
  same_length = refl;
  inside = λ j p q. absurd (omega arith);
  outside = λ p h. refl;
}
zero_loop-IsCleared out (suc left) i hi mem e fits =
    clear_byte out i hi mem _ (omega arith) (omega arith) (
      zero_loop-IsCleared out left (i + 1) hi (set mem (out + i) 0) (omega arith)
        (omega (arith, length-set mem (out + i) 0)))

-- What `crypto_stream_chacha20` has done when it returns.
pub record Fills (ks : ℕ → ℕ) (out n : ℕ) (mem : List ℕ) (result : Option (List ℕ)) : Type 0 where
  pub after : List ℕ
  pub returns : result ≡ some after
  pub same_length : length after ≡ length mem
  pub inside : (j : ℕ) → j < n → get_or after (out + j) 0 ≡ ks j
  pub outside : (p : ℕ) → (p < out) ⊎ (out + n ≤ p) → get_or after p 0 ≡ get_or mem p 0

-- `crypto_stream_chacha20` returns, and then the `olen` bytes at `out` are the key stream, whatever
-- they were before, and no other byte has changed; this holds if the counter is a 32-bit number and
-- `out` has room.
pub stream-Fills :
    (out olen counter : ℕ) (nonce key mem : List ℕ)
    → counter < 2 ^ 32
    → out + olen ≤ length mem
    → Fills (keystream counter nonce key) out olen mem (stream out olen counter nonce key mem)
unfolding stream
stream-Fills out olen counter nonce key mem h fits =
    let zeroed = zero_loop out olen 0 mem in
    let cleared = zero_loop-IsCleared out olen 0 olen mem (omega arith) fits in
    let run =
      stream_xor-Streams out out olen counter nonce key zeroed h (inl (omega arith))
        (omega (arith, cleared.same_length)) in
    record {
      after = run.after;
      returns = run.returns;
      same_length = run.xored.same_length ∙ cleared.same_length;
      inside = λ j q.
          run.xored.inside j (omega arith) q
          ∙ rw (cleared.inside j (omega arith) q) (zero-xor (keystream counter nonce key j));
      outside = λ p k. run.xored.outside p (grind arith) ∙ cleared.outside p (grind arith);
    }
