-- ===== src/Chacha/Driver.antt =====
-- The test driver of chacha20.c.
use mathlib.Core.Option
use saw_script.Base.{
  ℕ, zero, suc, ◌+◌, List, ◌++◌, Option, none, some, length, get_or, set, take, bit_xor, bit_or,
  bit_and, sub, shr, if◌then◌else◌, ◌==◌,
}
use saw_script.Chacha.Stream.{stream_xor}
use saw_script.Chacha.Vectors.{msg1, out1, msg2, out2, key3, msg3, out3}

unfoldable pub clear_loop : ℕ → ℕ → List ℕ → List ℕ
clear_loop zero i o = o
clear_loop (suc left) i o = clear_loop left (i + 1) (set o i 0)

unfoldable pub clear : List ℕ → ℕ → List ℕ
clear o n = clear_loop n 0 o

unfoldable pub verify_loop : List ℕ → List ℕ → ℕ → ℕ → ℕ → ℕ
verify_loop x y zero i d = d
verify_loop x y (suc left) i d =
    verify_loop x y left (i + 1) (bit_or d (bit_xor (get_or x i 0) (get_or y i 0)))

-- The result is an `int`, given as its 32 bits.
unfoldable pub verify : List ℕ → List ℕ → ℕ → ℕ
verify x y n = let d = verify_loop x y n 0 0 in sub 32 (bit_and 1 (shr (sub 32 d 1) 8)) 1

-- The arrays of `main`.
pub record Arrays : Type 0 where
  pub out : List ℕ
  pub key : List ℕ
  pub nonce : List ℕ

-- The macro WIPE.
unfoldable pub wipe : Arrays → Arrays
wipe a = record { out = clear a.out 512; key = clear a.key 32; nonce = clear a.nonce 12 }

-- The macros ENCRYPT and CHECK: the array `out`, or the exit status 1. `out` and `msg` are separate
-- parts of the memory.
unfoldable pub encrypt : List ℕ → ℕ → List ℕ → List ℕ → List ℕ → Option (List ℕ)
encrypt msg cnt nonce key out =
    Option.map (take 512) (stream_xor 0 512 (length msg) cnt nonce key (out ++ msg))

pub data Check : Type 0 where
  passed : List ℕ → Check
  exits : ℕ → Check

unfoldable pub check : List ℕ → List ℕ → Check
check buf out = if verify out buf (length buf) == 0 then Check.passed out else Check.exits 1

-- The status that `main` ends with; `rest` is what follows a check.
unfoldable pub after_check : (List ℕ → Option ℕ) → Check → Option ℕ
after_check rest (Check.passed out) = rest out
after_check rest (Check.exits status) = some status

unfoldable pub then_check : List ℕ → (List ℕ → Option ℕ) → Option (List ℕ) → Option ℕ
then_check buf rest none = none
then_check buf rest (some out) = after_check rest (check buf out)

unfoldable pub third_vector : Arrays → List ℕ → Option ℕ
third_vector b out =
    let a = wipe (record b { out = out }) in
    let nonce = set a.nonce 11 0x02 in
    then_check out3 (λ out. some 0) (encrypt msg3 42 nonce key3 a.out)

unfoldable pub second_vector : Arrays → List ℕ → Option ℕ
second_vector b out =
    let a = wipe (record b { out = out }) in
    let key = set a.key 31 0x01 in
    let nonce = set a.nonce 11 0x02 in
    then_check out2 (third_vector (record { out = a.out; key = key; nonce = nonce }))
      (encrypt msg2 1 nonce key a.out)

-- `none` would mean that the fuel of the stream function runs out.
unfoldable pub main : Arrays → Option ℕ
main b = let a = wipe b in then_check out1 (second_vector a) (encrypt msg1 0 a.nonce a.key a.out)
