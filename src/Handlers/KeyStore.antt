-- ===== src/Handlers/KeyStore.antt =====
-- intTests/test_llvm_vtable_verify/test.c: a key store in memory. Its vtable has its two functions,
-- and the caller calls them directly.
use saw_script.Base.{
  ℕ, zero, suc, ◌+◌, ◌-◌, ◌^◌, ◌≤◌, ◌<◌, ◌≡◌, ◌∙◌, refl, sym, ap, subst, arith, false, List, [],
  ◌∷◌, ◌++◌, get_or, set, take, length, if◌then◌else◌, ◌==◌, ltb, not, length-set,
}
use saw_script.Base.Slices.{take-set}

pub record KeyStore : Type 0 where
  pub storage : List ℕ
  pub stored_len : ℕ

-- `left` bytes from index `i` on.
unfoldable pub copy_bytes : List ℕ → ℕ → ℕ → List ℕ → List ℕ
copy_bytes from zero i to = to
copy_bytes from (suc left) i to = copy_bytes from left (i + 1) (set to i (get_or from i 0))

-- The C value -1.
abbrev failure : ℕ
failure = 2 ^ 32 - 1

-- What a function returns, the store, and the buffer that it may have written.
pub record Access : Type 0 where
  pub rc : ℕ
  pub store : KeyStore
  pub out : List ℕ

unfoldable pub mem_read : KeyStore → List ℕ → ℕ → Access
mem_read ks buf len =
    if ltb ks.stored_len len
    then record { rc = failure; store = ks; out = buf }
    else record { rc = 0; store = ks; out = copy_bytes ks.storage len 0 buf }

unfoldable pub mem_write : KeyStore → List ℕ → ℕ → Access
mem_write ks buf len =
    if ltb 64 len then record { rc = failure; store = ks; out = buf } else record {
      rc = 0;
      store = record { storage = copy_bytes buf len 0 ks.storage; stored_len = len };
      out = buf;
    }

unfoldable pub store_and_retrieve : KeyStore → List ℕ → ℕ → List ℕ → ℕ → Access
store_and_retrieve ks bytes bytes_len out out_len =
    let written = mem_write ks bytes bytes_len in
    let read = mem_read written.store out out_len in
    if not (written.rc == 0)
    then record { rc = written.rc; store = written.store; out = out }
    else read

-- The bytes copied so far are those of the source.
copy_bytes-take :
    (from to : List ℕ) (left i : ℕ)
    → i + left ≤ length from
    → i + left ≤ length to
    → take i to ≡ take i from
    → (take (i + left) (copy_bytes from left i to) ≡ take (i + left) from)
      × (length (copy_bytes from left i to) ≡ length to)
unfolding copy_bytes
copy_bytes-take from to zero i hf ht e = let all : i + 0 ≡ i = omega arith in (rw all e, refl)
copy_bytes-take from to (suc left) i hf ht e =
    let next : i + 1 + left ≡ i + suc left = omega arith in
    let one_more : i + 1 ≡ suc i = omega arith in
    let rest =
      copy_bytes-take from (set to i (get_or from i 0)) left (i + 1) (omega arith)
        (omega (arith, length-set to i (get_or from i 0)))
        (rw one_more (
          take-set i to (get_or from i 0) (omega arith)
          ∙ ap (λ z. z ++ (get_or from i 0 ∷ [])) e
          ∙ sym (take-suc from i (omega arith)))) in
    (rw (← next) rest.0, rest.1 ∙ length-set to i (get_or from i 0))
  where
    take-suc :
        (xs : List ℕ) (n : ℕ) → n < length xs → take (suc n) xs ≡ take n xs ++ (get_or xs n 0 ∷ [])
    take-suc [] n h = absurd (omega arith)
    take-suc (x ∷ xs) zero h = refl
    take-suc (x ∷ xs) (suc n) h = ap (λ z. x ∷ z) (take-suc xs n (omega arith))

copied :
    (from to : List ℕ) (len : ℕ)
    → len ≤ length from
    → len ≤ length to
    → (take len (copy_bytes from len 0 to) ≡ take len from)
      × (length (copy_bytes from len 0 to) ≡ length to)
copied from to len hf ht =
    let all : 0 + len ≡ len = omega arith in
    let whole = copy_bytes-take from to len 0 (omega arith) (omega arith) refl in
    (subst (λ (n : ℕ). take n (copy_bytes from len 0 to) ≡ take n from) all whole.0, whole.1)

-- What was stored is read back.
store_and_retrieve_lem :
    (ks : KeyStore) (bytes : List ℕ) (bytes_len : ℕ) (out : List ℕ) (out_len : ℕ)
    → length ks.storage ≡ 64
    → bytes_len ≤ 64
    → bytes_len ≤ length bytes
    → out_len ≤ bytes_len
    → out_len ≤ length out
    → ((store_and_retrieve ks bytes bytes_len out out_len).rc ≡ 0)
      × (take out_len (store_and_retrieve ks bytes bytes_len out out_len).out ≡ take out_len bytes)
unfolding store_and_retrieve mem_write mem_read
store_and_retrieve_lem ks bytes bytes_len out out_len size fits has less room =
    let writes : ltb 64 bytes_len ≡ false = ground arith in
    let reads : ltb bytes_len out_len ≡ false = ground arith in
    let written = copied bytes ks.storage bytes_len has (omega (arith, size)) in
    let storage = copy_bytes bytes bytes_len 0 ks.storage in
    let read = copied storage out out_len (omega (arith, written.1, size)) room in
    rw (writes, reads) (refl, read.0 ∙ shorter storage bytes bytes_len out_len less written.0)
  where
    take-take : (xs : List ℕ) (n k : ℕ) → k ≤ n → take k (take n xs) ≡ take k xs
    take-take xs n zero le = refl
    take-take xs zero (suc k) le = absurd (omega arith)
    take-take [] (suc n) (suc k) le = refl
    take-take (x ∷ xs) (suc n) (suc k) le = ap (λ z. x ∷ z) (take-take xs n k (omega arith))

    shorter : (xs ys : List ℕ) (n k : ℕ) → k ≤ n → take n xs ≡ take n ys → take k xs ≡ take k ys
    shorter xs ys n k le e = sym (take-take xs n k le) ∙ ap (take k) e ∙ take-take ys n k le
