-- ===== src/ByteAdd.antt =====
-- examples/sv-comp/byte_add.c: addition of two 32-bit numbers byte by byte.
use mathlib.Core.Option
pub mod Columns
pub mod Laws
mod Tests
use saw_script.Base.{
  ℕ, zero, suc, ◌-◌, ◌%◌, ◌^◌, Option, some, none, not, ◌||◌, bit_and, bit_or, add, shl, shr,
  if◌then◌else◌, ◌==◌, ltb,
}

-- `a0` to `a3`, `b0` to `b3`, and `r0` to `r3`.
pub record Bytes : Type 0 where
  pub c0 : ℕ
  pub c1 : ℕ
  pub c2 : ℕ
  pub c3 : ℕ

abbrev pub split : ℕ → Bytes
split a = record {
  c0 = a % 2 ^ 8;
  c1 = shr a 8 % 2 ^ 8;
  c2 = shr a 16 % 2 ^ 8;
  c3 = shr a 24 % 2 ^ 8;
}

-- The number of components, `na` and `nb`.
unfoldable pub components : Bytes → ℕ
components a =
    if a.c3 == 0
    then (if a.c2 == 0 then (if a.c1 == 0 then 4 - 1 - 1 - 1 else 4 - 1 - 1) else 4 - 1)
    else 4

-- What the four tests on `i` add.
unfoldable pub component : Bytes → ℕ → ℕ
component a i =
    if i == 0
    then a.c0
    else if i == 1
    then a.c1
    else if i == 2
    then a.c2
    else if i == 3
    then a.c3
    else 0

-- What the four tests on `i` write.
unfoldable pub put : ℕ → ℕ → Bytes → Bytes
put i v r =
    if i == 0
    then record r { c0 = v }
    else if i == 1
    then record r { c1 = v }
    else if i == 2
    then record r { c2 = v }
    else if i == 3
    then record r { c3 = v }
    else r

-- `i` and the result bytes after the first loop.
pub record Sums : Type 0 where
  pub i : ℕ
  pub r : Bytes

-- The first loop, on fuel; `none` means that the fuel ran out.
unfoldable pub sum_loop : ℕ → Bytes → Bytes → ℕ → ℕ → ℕ → ℕ → Bytes → Option Sums
sum_loop zero a b na nb i carry r = none
sum_loop (suc fuel) a b na nb i carry r =
    let with_a = if ltb i na then add 16 carry (component a i) else carry in
    let partial_sum = if ltb i nb then add 16 with_a (component b i) else with_a in
    let over = ltb 254 partial_sum in
    let low = if over then bit_and partial_sum 255 else partial_sum in
    let rest =
      sum_loop fuel a b na nb (add 8 i 1) (if over then 1 else 0) (put i (low % 2 ^ 8) r) in
    if ltb i na || ltb i nb || not (carry == 0) then rest else some (record { i = i; r = r })

-- The second loop, which has `4 - i` rounds.
unfoldable pub clear_loop : ℕ → ℕ → Bytes → Bytes
clear_loop zero i r = r
clear_loop (suc left) i r = clear_loop left (add 8 i 1) (put i 0 r)

-- The result bytes put together.
unfoldable pub assembled : Bytes → ℕ
assembled r = bit_or (bit_or (bit_or r.c0 (shl 32 r.c1 8)) (shl 32 r.c2 16)) (shl 32 r.c3 24)

-- What a call comes to. `r3` is promoted to `int`, so its shift by 24 is undefined when `r3` is above
-- 127, as the comment in the source says.
pub data Combined : Type 0 where
  defined : ℕ → Combined
  undefined : Combined

unfoldable pub combine : Bytes → Combined
combine r = if ltb 127 r.c3 then undefined else defined (assembled r)

unfoldable pub finish : Sums → Combined
finish s = combine (clear_loop (4 - s.i) s.i s.r)

-- `r` is what the uninitialised bytes hold. There are four columns and one more for a carry.
unfoldable pub mp_add : Bytes → ℕ → ℕ → Option Combined
mp_add r a b =
    Option.map finish
      (sum_loop 6 (split a) (split b) (components (split a)) (components (split b)) 0 0 r)
