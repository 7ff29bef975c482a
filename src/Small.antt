-- ===== src/Small.antt =====
-- Small programs: exercises/memory-safety/u128/u128.c, exercises/functional-correctness/point/point.c,
-- examples/llvm/dotprod_struct.c and examples/loop-fixpoint/simple_loop.c.
mod Laws
use saw_script.Base.{
  ℕ, zero, suc, ◌+◌, ◌*◌, ◌%◌, ◌^◌, min, List, Option, some, none, Bool, ◌&&◌, get_or, set, add,
  if◌then◌else◌, ◌==◌,
}

-- The two words of a 128-bit number, the low one first.
pub record Words128 : Type 0 where
  pub lo : ℕ
  pub hi : ℕ

unfoldable pub increment_u128 : Words128 → Words128
increment_u128 x =
    let lo = add 64 x.lo 1 in
    if lo == 0 then record { lo = lo; hi = add 64 x.hi 1 } else record { lo = lo; hi = x.hi }

pub record Point : Type 0 where
  pub x : ℕ
  pub y : ℕ

abbrev pub zero_point : Point
zero_point = record { x = 0; y = 0 }

unfoldable pub point_eq : Point → Point → Bool
point_eq p1 p2 = (p1.x == p2.x) && (p1.y == p2.y)

-- `has_memory` tells whether malloc returns a block. The null pointer is written to all the same,
-- which is `none`.
unfoldable pub point_new : Bool → ℕ → ℕ → Option Point
point_new has_memory x y = if has_memory then some (record { x = x; y = y }) else none

unfoldable pub point_copy : Bool → Point → Option Point
point_copy has_memory p = point_new has_memory p.x p.y

unfoldable pub point_add : Bool → Point → Point → Option Point
point_add has_memory p1 p2 =
    if point_eq p1 zero_point
    then point_copy has_memory p2
    else if point_eq p2 zero_point
    then point_copy has_memory p1
    else point_new has_memory (add 32 p1.x p2.x) (add 32 p1.y p2.y)

pub record Vec : Type 0 where
  pub elts : List ℕ
  pub size : ℕ

-- The loops at index `i`, with `left` rounds to go.
unfoldable pub dotprod_loop : List ℕ → List ℕ → ℕ → ℕ → ℕ → ℕ
dotprod_loop x y zero i res = res
dotprod_loop x y (suc left) i res =
    dotprod_loop x y left (i + 1) (add 32 res (get_or x i 0 * get_or y i 0 % 2 ^ 32))

unfoldable pub dotprod_struct : Vec → Vec → ℕ
dotprod_struct x y = dotprod_loop x.elts y.elts (min x.size y.size) 0 0

unfoldable pub dotprod_wrap : Vec → Vec → ℕ
dotprod_wrap x y = dotprod_struct x y

unfoldable pub sum_loop_upto : ℕ → ℕ → ℕ → ℕ
sum_loop_upto zero i acc = acc
sum_loop_upto (suc left) i acc = sum_loop_upto left (i + 1) (add 32 acc i)

unfoldable pub sum_upto : ℕ → ℕ
sum_upto n = sum_loop_upto n 0 0

unfoldable pub zero_fill_loop : ℕ → ℕ → List ℕ → List ℕ
zero_fill_loop zero i buf = buf
zero_fill_loop (suc left) i buf = zero_fill_loop left (i + 1) (set buf i 0)

unfoldable pub zero_fill : List ℕ → ℕ → List ℕ
zero_fill buf len = zero_fill_loop len 0 buf

unfoldable pub count_loop : List ℕ → ℕ → ℕ → ℕ → ℕ
count_loop buf zero i count = count
count_loop buf (suc left) i count =
    count_loop buf left (i + 1) (if get_or buf i 0 == 0 then count else add 32 count 1)

unfoldable pub count_nonzero : List ℕ → ℕ → ℕ
count_nonzero buf len = count_loop buf len 0 0
