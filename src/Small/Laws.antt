-- ===== src/Small/Laws.antt =====
-- What the small programs compute.
use native.Mathlib.Nat.{mul-add, suc-mul, mul-suc}
use saw_script.Base.{
  ℕ, zero, suc, ◌+◌, ◌-◌, ◌*◌, ◌/◌, ◌%◌, ◌^◌, ◌<◌, ◌≡◌, refl, ap, ap₂, arith, Option, some, true,
  add, ◌==◌, inl, inr, Bool-cases,
}
use saw_script.Small.{
  Words128, increment_u128, Point, zero_point, point_eq, point_new, point_copy, point_add,
  sum_loop_upto, sum_upto,
}

-- The two words together count up by one, modulo 2 ^ 128.
increment_u128_lem :
    (x : Words128)
    → x.lo < 2 ^ 64
    → x.hi < 2 ^ 64
    → (increment_u128 x).lo + 2 ^ 64 * (increment_u128 x).hi ≡ (x.lo + 2 ^ 64 * x.hi + 1) % 2 ^ 128
unfolding increment_u128
increment_u128_lem x fits_lo fits_hi = elim (Bool-cases (add 64 x.lo 1 == 0)) [
  | inl e ↦ let wrapped : add 64 x.lo 1 ≡ 0 = ground arith in rw e (omega (arith, wrapped))
  | inr e ↦ let stays : 0 < add 64 x.lo 1 = ground arith in rw e (omega (arith, stays))
]

pair :
    {x y u v : ℕ}
    → x ≡ u
    → y ≡ v
    → Path (Option Point) (some (record { x = x; y = y })) (some (record { x = u; y = v }))
pair e f = ap₂ (λ (x y : ℕ). some (record { x = x; y = y })) e f

is_zero : (p : Point) → point_eq p zero_point ≡ true → (p.x ≡ 0) × (p.y ≡ 0)
unfolding point_eq
is_zero p h = (ground (arith, h), ground (arith, h))

-- The shortcuts for zero do not change the sum.
point_add_lem :
    (p1 p2 : Point)
    → p1.x < 2 ^ 32
    → p1.y < 2 ^ 32
    → p2.x < 2 ^ 32
    → p2.y < 2 ^ 32
    → point_add true p1 p2 ≡ some (record { x = add 32 p1.x p2.x; y = add 32 p1.y p2.y })
unfolding point_add point_copy point_new
point_add_lem p1 p2 a b c d = elim (Bool-cases (point_eq p1 zero_point)) [
  | inl e ↦ let z = is_zero p1 e in rw e (pair (omega (arith, z.0)) (omega (arith, z.1)))
  | inr e ↦ elim (Bool-cases (point_eq p2 zero_point)) [
    | inl f ↦ let z = is_zero p2 f in rw (e, f) (pair (omega (arith, z.0)) (omega (arith, z.1)))
    | inr f ↦ rw (e, f) refl
  ]
]

-- The numbers from `i` on, `n` of them.
run_sum : ℕ → ℕ → ℕ
run_sum zero i = 0
run_sum (suc n) i = i + run_sum n (i + 1)

run_sum_lem : (n i : ℕ) → 2 * run_sum n i + n ≡ n * (2 * i + n)
unfolding run_sum
run_sum_lem zero i = omega arith
run_sum_lem (suc n) i = omega (
  arith,
  run_sum_lem n (i + 1),
  mul-add n (2 * (i + 1)) n,
  ap (λ (t : ℕ). n * t) (twice_next i),
  mul-add n (2 * i) 2,
  suc-mul n (2 * i + suc n),
  ap (λ (t : ℕ). n * t) (next_sum (2 * i) n),
  mul-add n (2 * i + n) 1,
  mul-add n (2 * i) n,
)
  where
    twice_next : (i : ℕ) → 2 * (i + 1) ≡ 2 * i + 2
    twice_next i = omega arith

    next_sum : (a n : ℕ) → a + suc n ≡ a + n + 1
    next_sum a n = omega arith

sum_loop_upto-run_sum :
    (left i acc : ℕ) → acc < 2 ^ 32 → sum_loop_upto left i acc ≡ (acc + run_sum left i) % 2 ^ 32
unfolding sum_loop_upto run_sum
sum_loop_upto-run_sum zero i acc fits = omega arith
sum_loop_upto-run_sum (suc left) i acc fits =
    omega (arith, sum_loop_upto-run_sum left (i + 1) (add 32 acc i) (omega arith))

-- The closed form in the comment, modulo 2 ^ 32.
sum_upto_lem : (n : ℕ) → sum_upto n ≡ n * (n - 1) / 2 % 2 ^ 32
unfolding sum_upto sum_loop_upto
sum_upto_lem zero = refl
sum_upto_lem (suc n) =
    let prev : suc n - 1 ≡ n = omega arith in
    rw prev (
      omega (
        arith,
        sum_loop_upto-run_sum (suc n) 0 0 (omega arith),
        run_sum_lem (suc n) 0,
        mul-suc (suc n) n,
      ))
