-- ===== src/Base/Bits/Lanes.antt =====
-- Numbers as lanes, digits to the base `p`: masks that keep every other lane, sums of neighbouring
-- lanes, and the number of set bits.
use Prim.Native.Nat.{ℕ, zero, suc, ◌+◌, ◌-◌, ◌*◌, ◌/◌, ◌%◌, ◌^◌, ◌≤◌, ◌<◌, bit_and}
use mathlib.Core.Path.{◌≡◌, refl, ap, subst, ◌∙◌}
use native.Mathlib.Nat.{
  pow-suc, one-le-pow, div-div-eq-div-mul, mod-lt, div-lt_iff_lt-mul, pow-zero, mod-add-div',
  mul-le-mul_right, mul-le-mul_left, mul_comm, add-mul, mul_assoc, mul-add, mul-mod_right,
  mul-div_cancel_left, mod-mod,
}
use native.Mathlib.Omega.{arith}
use saw_script.Base.Bits.Fields.{and_low, and_comm}
use saw_script.Base.Bits.Split.{mod_lane, div_lane, and-zero, and-split, div-and}

-- The set bits among the `n` lowest.
unfoldable pub weight : ℕ → ℕ → ℕ
weight zero x = 0
weight (suc n) x = x % 2 + weight n (x / 2)

-- The sum of `n` lanes.
unfoldable pub sum_lanes : ℕ → ℕ → ℕ → ℕ
sum_lanes p zero x = 0
sum_lanes p (suc n) x = x % p + sum_lanes p n (x / p)

-- Of `n` pairs of lanes, the lower ones.
unfoldable pub low_lanes : ℕ → ℕ → ℕ → ℕ
low_lanes p zero x = 0
low_lanes p (suc n) x = x % p + p * (p * low_lanes p n (x / p / p))

-- The mask that keeps these.
unfoldable pub lane_mask : ℕ → ℕ → ℕ
lane_mask p zero = 0
lane_mask p (suc n) = p - 1 + p * (p * lane_mask p n)

-- Of `n` pairs of lanes, the sums.
unfoldable pub pair_sums : ℕ → ℕ → ℕ → ℕ
pair_sums p zero x = 0
pair_sums p (suc n) x = x % p + x / p % p + p * (p * pair_sums p n (x / p / p))

pub and-lane_mask : (w n x : ℕ) → bit_and x (lane_mask (2 ^ w) n) ≡ low_lanes (2 ^ w) n x
unfolding lane_mask low_lanes
and-lane_mask w zero x = and_comm x 0 ∙ and-zero x
and-lane_mask w (suc n) x =
    let p = 2 ^ w in
    let pos : 0 < p = omega (arith, one-le-pow w 2) in
    let rest = p * lane_mask p n in
    rw
      (
        and-split w x (p - 1 + p * rest),
        mod_lane p (p - 1) rest (omega arith),
        div_lane p (p - 1) rest (omega arith),
        and-split w (x / p) rest,
        mul-mod_right p (lane_mask p n),
        mul-div_cancel_left (lane_mask p n) pos,
        and_low w (x % p),
        mod-mod x p,
        and_comm (x / p % p) 0,
        and-zero (x / p % p),
        and-lane_mask w n (x / p / p),
      )
      (omega arith)

pub pair_sums-low_lanes : (p n x : ℕ) → pair_sums p n x ≡ low_lanes p n x + low_lanes p n (x / p)
unfolding pair_sums low_lanes
pair_sums-low_lanes p zero x = refl
pair_sums-low_lanes p (suc n) x =
    let a = low_lanes p n (x / p / p) in
    let b = low_lanes p n (x / p / p / p) in
    omega (
      arith,
      ap (λ (t : ℕ). p * (p * t)) (pair_sums-low_lanes p n (x / p / p)),
      ap (λ (t : ℕ). p * t) (mul-add p a b),
      mul-add p (p * a) (p * b),
    )

pair_sum-lt : (p x : ℕ) → 1 < p → x % p + x / p % p < p * p
pair_sum-lt p x h = omega (
  arith,
  mod-lt x {m = p} (omega arith),
  mod-lt (x / p) {m = p} (omega arith),
  mul-le-mul_right p h,
)

pub sum_lanes-pair_sums :
    (p n x : ℕ) → 1 < p → sum_lanes (p * p) n (pair_sums p n x) ≡ sum_lanes p (n + n) x
unfolding sum_lanes pair_sums
sum_lanes-pair_sums p zero x h = refl
sum_lanes-pair_sums p (suc n) x h =
    let s : ℕ = x % p + x / p % p in
    let f = pair_sums p n (x / p / p) in
    let small = pair_sum-lt p x h in
    let rounds : suc n + suc n ≡ suc (suc (n + n)) = omega arith in
    rw (← mul_assoc p p f, mod_lane (p * p) s f small, div_lane (p * p) s f small, rounds)
      (omega (arith, sum_lanes-pair_sums p n (x / p / p) h))

pub weight-sum_lanes : (n x : ℕ) → sum_lanes 2 n x ≡ weight n x
unfolding weight sum_lanes
weight-sum_lanes zero x = refl
weight-sum_lanes (suc n) x = omega (arith, weight-sum_lanes n (x / 2))

-- Neighbouring lanes added with two masks, the upper one shifted down.
pub add_lanes :
    (w n upper lower x : ℕ)
    → upper / 2 ^ w ≡ lane_mask (2 ^ w) n
    → lower ≡ lane_mask (2 ^ w) n
    → bit_and x upper / 2 ^ w + bit_and x lower ≡ pair_sums (2 ^ w) n x
add_lanes w n upper lower x hu hl =
    rw (div-and w x upper, hu, hl, and-lane_mask w n (x / 2 ^ w), and-lane_mask w n x)
      (omega (arith, pair_sums-low_lanes (2 ^ w) n x))

pub pair_sums-le : (p n x : ℕ) → 0 < p → pair_sums p n x ≤ x
unfolding pair_sums
pair_sums-le p zero x h = omega arith
pair_sums-le p (suc n) x h =
    let rest = pair_sums p n (x / p / p) in
    omega (
      arith,
      mod-add-div' x p,
      ap (λ (t : ℕ). t * p) (mod-add-div' (x / p) p),
      add-mul (x / p % p) (x / p / p * p) p,
      mul-le-mul_right {m = rest} {n = x / p / p} (p * p) (pair_sums-le p n (x / p / p) h),
      mul_assoc (x / p / p) p p,
      mul_comm rest (p * p),
      mul_assoc p p rest,
      mul-le-mul_left {m = 1} {n = p} (x / p % p) h,
    )

pub weight-le : (n x : ℕ) → weight n x ≤ n
unfolding weight
weight-le zero x = omega arith
weight-le (suc n) x = omega (arith, weight-le n (x / 2))

-- All lanes are at most `b`.
abbrev pub AllLanes : ℕ → ℕ → ℕ → ℕ → Type 0
AllLanes p zero b x = Unit
AllLanes p (suc n) b x = (x % p ≤ b) × AllLanes p n b (x / p)

pub AllLanes-bits : (n x : ℕ) → AllLanes 2 n 1 x
AllLanes-bits zero x = tt
AllLanes-bits (suc n) x = (omega arith, AllLanes-bits n (x / 2))

pub AllLanes-pair_sums :
    (p n b x : ℕ) → 1 < p → AllLanes p (n + n) b x → AllLanes (p * p) n (b + b) (pair_sums p n x)
unfolding pair_sums
AllLanes-pair_sums p zero b x h all = tt
AllLanes-pair_sums p (suc n) b x h all =
    let s : ℕ = x % p + x / p % p in
    let f = pair_sums p n (x / p / p) in
    let rounds : suc n + suc n ≡ suc (suc (n + n)) = omega arith in
    let lanes = subst (λ (k : ℕ). AllLanes p k b x) rounds all in
    let small = pair_sum-lt p x h in
    rw (← mul_assoc p p f, mod_lane (p * p) s f small, div_lane (p * p) s f small)
      (omega (arith, lanes.0, (lanes.1).0), AllLanes-pair_sums p n b (x / p / p) h (lanes.1).1)

square_pos : (p : ℕ) → 0 < p → 0 < p * p
square_pos p h = omega (arith, mul-le-mul_left {m = 1} {n = p} p h)

-- A number of `n` pairs of lanes is its lower and its upper lanes.
pub unzip_lanes :
    (p n x : ℕ) → 0 < p → x < (p * p) ^ n → low_lanes p n x + p * low_lanes p n (x / p) ≡ x
unfolding low_lanes
unzip_lanes p zero x h small = let one = pow-zero (p * p) in omega arith
unzip_lanes p (suc n) x h small =
    let a = low_lanes p n (x / p / p) in
    let b = low_lanes p n (x / p / p / p) in
    let less : x / p / p < (p * p) ^ n =
      rw (div-div-eq-div-mul x p p)
        ((div-lt_iff_lt-mul {k = p * p} (square_pos p h)).1 (omega (arith, pow-suc (p * p) n))) in
    omega (
      arith,
      ap (λ (t : ℕ). p * (p * t)) (unzip_lanes p n (x / p / p) h less),
      mod-add-div' x p,
      mul_comm (x / p) p,
      ap (λ (t : ℕ). p * t) (mod-add-div' (x / p) p),
      mul_comm (x / p / p) p,
      mul-add p (x / p % p) (x / p / p * p),
      ap (λ (t : ℕ). p * t) (mul_comm (x / p / p) p),
      mul-add p a (p * b),
      ap (λ (t : ℕ). p * t) (mul-add p a (p * b)),
      mul-add p (p * a) (p * (p * b)),
      mul-add p (x / p % p) (p * (p * b)),
    )
