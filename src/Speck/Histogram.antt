-- ===== src/Speck/Histogram.antt =====
-- The tests of speck.c never abort: the number of changed bits is an index of the histogram.
use native.Mathlib.Nat.{mod-lt, pow-le-pow_right, one-le-pow}
use saw_script.Base.{
  ℕ, zero, suc, ◌+◌, ◌-◌, ◌*◌, ◌/◌, ◌%◌, ◌^◌, ◌≤◌, ◌<◌, ◌≡◌, ◌⊎◌, inl, inr, refl, ap, arith, true,
  List, [], ◌∷◌, some, length, get_or, set, replicate, bit_or, bit_and, bit_xor, shl, add, ◌==◌,
  leb, Bool-cases, length-set, length-replicate, AllBelow, AllBelow-set,
}
use saw_script.Base.Bits.{and_low, or-lt, xor-lt}
use saw_script.Base.Bits.Lanes.{weight-le}
use saw_script.Speck.{Block, encrypt}
use saw_script.Speck.Stats.{
  Draw, rand_loop, rand_word, Keys, keys_loop, rand_block, distance, confusion_once, flip_block,
  diffusion_once, pass_loop, passes, histogram_of, MeanSums, sums_loop,
}
use saw_script.Speck.Weights.{count_set_bits-weight}
use saw_script.Speck.Laws.{IsBlock, encrypt-IsBlock}

module _ (rand : ℕ → ℕ) (w : ℕ) (size : (w ≡ 32) ⊎ (w ≡ 64)) where
  wide : 8 ≤ w
  wide = ground (arith, size)

  big : 2 ^ 8 ≤ 2 ^ w
  big = pow-le-pow_right {n = 2} (omega arith) {i = 8} {j = w} wide

  shl-lt : (x n : ℕ) → shl w x n < 2 ^ w
  shl-lt x n = mod-lt (x * 2 ^ n) {m = 2 ^ w} (omega (arith, one-le-pow w 2))

  rand_loop-lt :
      (left result n : ℕ) → result < 2 ^ w → (rand_loop rand w left result n).value < 2 ^ w
  unfolding rand_loop
  rand_loop-lt zero result n h = h
  rand_loop-lt (suc left) result n h =
      let byte : bit_and (rand n) 0xFF < 2 ^ w = omega (arith, and_low 8 (rand n), big) in
      rand_loop-lt left (bit_or (shl w result 8) (bit_and (rand n) 0xFF)) (n + 1)
        (or-lt w (shl w result 8) (bit_and (rand n) 0xFF) (shl-lt result 8) byte)

  rand_word-lt : (n : ℕ) → (rand_word rand w n).value < 2 ^ w
  unfolding rand_word
  rand_word-lt n = rand_loop-lt (w / 8) 0 n (omega (arith, big))

  rand_block-IsBlock : (n : ℕ) → IsBlock w (rand_block rand w n).io
  unfolding rand_block
  rand_block-IsBlock n = record {
    hi_fits = rand_word-lt (rand_word rand w n).next;
    lo_fits = rand_word-lt n;
  }

  keys_loop-AllBelow :
      (left i : ℕ) (k : Keys)
      → AllBelow (2 ^ w) k.a
      → AllBelow (2 ^ w) k.b
      → AllBelow (2 ^ w) (keys_loop rand w left i k).a
        × AllBelow (2 ^ w) (keys_loop rand w left i k).b
  unfolding keys_loop
  keys_loop-AllBelow zero i k ha hb = (ha, hb)
  keys_loop-AllBelow (suc left) i k ha hb =
      let d = rand_word rand w k.next in
      keys_loop-AllBelow left (i + 1) _
        (AllBelow-set (2 ^ w) k.a i d.value ha (rand_word-lt k.next))
        (AllBelow-set (2 ^ w) k.b i d.value hb (rand_word-lt k.next))

  -- Two blocks differ in at most all bits.
  distance-le : (a b : Block) → IsBlock w a → IsBlock w b → distance w a b ≤ w * 2
  unfolding distance
  distance-le a b ha hb =
      let lo = bit_xor a.lo b.lo in
      let hi = bit_xor a.hi b.hi in
      omega (
        arith,
        count_set_bits-weight w lo size (xor-lt w a.lo b.lo ha.lo_fits hb.lo_fits),
        count_set_bits-weight w hi size (xor-lt w a.hi b.hi ha.hi_fits hb.hi_fits),
        weight-le w lo,
        weight-le w hi,
      )

  flip_block-IsBlock :
      (index bit : ℕ) (b : Block) → bit < 2 ^ w → IsBlock w b → IsBlock w (flip_block index bit b)
  unfolding flip_block
  flip_block-IsBlock index bit b h v = elim (Bool-cases (index == 0)) [
    | inl e ↦ rw e (record { hi_fits = v.hi_fits; lo_fits = xor-lt w b.lo bit v.lo_fits h })
    | inr e ↦ rw e (record { hi_fits = xor-lt w b.hi bit v.hi_fits h; lo_fits = v.lo_fits })
  ]

  module _ (m : ℕ) (few : m ≤ 4) (ka kb : List ℕ) (ha : AllBelow (2 ^ w) ka)
      (hb : AllBelow (2 ^ w) kb) where
    confusion_once-le : (n : ℕ) → (confusion_once rand w m ka kb n).value ≤ w * 2
    unfolding confusion_once
    confusion_once-le n =
        let k = keys_loop rand w m 0 (record { a = ka; b = kb; next = n }) in
        let fit = keys_loop-AllBelow m 0 (record { a = ka; b = kb; next = n }) ha hb in
        let index = rand k.next % m in
        let bit = shl w 1 (bit_and (rand (k.next + 1)) (w - 1)) in
        let flipped = bit_xor (get_or k.b index 0) bit in
        let b = set k.b index flipped in
        let io = rand_block rand w (k.next + 2) in
        let v = rand_block-IsBlock (k.next + 2) in
        distance-le (encrypt w m io.io k.a).io (encrypt w m io.io b).io
          (encrypt-IsBlock w wide m few k.a fit.0 io.io v)
          (encrypt-IsBlock w wide m few b
            (AllBelow-set (2 ^ w) k.b index flipped fit.1
              (xor-lt w (get_or k.b index 0) bit (fit.1 index) (shl-lt 1 _)))
            io.io v)

    diffusion_once-le : (n : ℕ) → (diffusion_once rand w m ka kb n).value ≤ w * 2
    unfolding diffusion_once
    diffusion_once-le n =
        let k = keys_loop rand w m 0 (record { a = ka; b = kb; next = n }) in
        let fit = keys_loop-AllBelow m 0 (record { a = ka; b = kb; next = n }) ha hb in
        let io = rand_block rand w k.next in
        let v = rand_block-IsBlock k.next in
        let index = bit_and (rand io.next) 1 in
        let bit = shl w 1 (bit_and (rand (io.next + 1)) (w - 1)) in
        distance-le (encrypt w m io.io k.a).io (encrypt w m (flip_block index bit io.io) k.b).io
          (encrypt-IsBlock w wide m few k.a fit.0 io.io v)
          (encrypt-IsBlock w wide m few k.b fit.1 (flip_block index bit io.io)
            (flip_block-IsBlock index bit io.io (shl-lt 1 _) v))

-- All counts together.
unfoldable total : List ℕ → ℕ
total [] = 0
total (x ∷ xs) = x + total xs

get_or-le-total : (xs : List ℕ) (i : ℕ) → get_or xs i 0 ≤ total xs
unfolding total
get_or-le-total [] i = omega arith
get_or-le-total (x ∷ xs) zero = omega arith
get_or-le-total (x ∷ xs) (suc i) = omega (arith, get_or-le-total xs i)

total-set :
    (xs : List ℕ) (i v : ℕ) → i < length xs → total (set xs i v) + get_or xs i 0 ≡ total xs + v
unfolding total
total-set [] i v h = absurd (omega arith)
total-set (x ∷ xs) zero v h = omega arith
total-set (x ∷ xs) (suc i) v h = omega (arith, total-set xs i v (omega arith))

total-replicate : (n : ℕ) → total (replicate n 0) ≡ 0
unfolding total
total-replicate zero = refl
total-replicate (suc n) = omega (arith, total-replicate n)

pass_loop-total :
    (pfun : ℕ → Draw) (w left n : ℕ) (h : List ℕ)
    → ((i : ℕ) → (pfun i).value ≤ w * 2)
    → length h ≡ w * 2 + 1
    → total h + left < 2 ^ 64
    → (h' : List ℕ) × (pass_loop pfun w left n h ≡ some h')
      × (length h' ≡ w * 2 + 1)
      × (total h' ≡ total h + left)
unfolding pass_loop
pass_loop-total pfun w zero n h le len small = (h, refl, len, omega arith)
pass_loop-total pfun w (suc left) n h le len small =
    let d = pfun n in
    let counted = add 64 (get_or h d.value 0) 1 in
    let one_more = total-set h d.value counted (omega (arith, le n)) in
    let test : leb d.value (w * 2) ≡ true = ground (arith, le n) in
    let rest =
      pass_loop-total pfun w left d.next (set h d.value counted) le
        (omega (arith, length-set h d.value counted))
        (omega (arith, one_more, get_or-le-total h d.value)) in
    (rest.0, rw test rest.1, rest.2, omega (arith, rest.3, one_more, get_or-le-total h d.value))

-- The sum of the places from `i` on, as many as given.
unfoldable sum_from : List ℕ → ℕ → ℕ → ℕ
sum_from xs zero i = 0
sum_from xs (suc left) i = get_or xs i 0 + sum_from xs left (i + 1)

sum_from-cons :
    (x : ℕ) (xs : List ℕ) (left i : ℕ) → sum_from (x ∷ xs) left (suc i) ≡ sum_from xs left i
unfolding sum_from
sum_from-cons x xs zero i = refl
sum_from-cons x xs (suc left) i =
    let next : suc i + 1 ≡ suc (i + 1) = omega arith in
    rw next (ap (λ (t : ℕ). get_or xs i 0 + t) (sum_from-cons x xs left (i + 1)))

sum_from-total : (xs : List ℕ) → sum_from xs (length xs) 0 ≡ total xs
unfolding sum_from total
sum_from-total [] = refl
sum_from-total (x ∷ xs) =
    let first : 0 + 1 ≡ suc 0 = refl in
    omega (arith, sum_from-cons x xs (length xs) 0, sum_from-total xs)

sums_loop-sum_from :
    (counts : List ℕ) (left i : ℕ) (s : MeanSums)
    → s.sum0 + sum_from counts left i < 2 ^ 64
    → (sums_loop counts left i s).sum0 ≡ s.sum0 + sum_from counts left i
unfolding sums_loop sum_from
sums_loop-sum_from counts zero i s small = omega arith
sums_loop-sum_from counts (suc left) i s small =
    let tmp = get_or counts i 0 in
    let next : MeanSums = record { sum0 = add 64 s.sum0 tmp; sum1 = add 64 s.sum1 (tmp * i) } in
    omega (arith, sums_loop-sum_from counts left (i + 1) next (omega arith))

-- The test runs to its end, and its passes are all counted.
abbrev pub IsComplete : (ℕ → Draw) → ℕ → ℕ → Type 0
IsComplete pfun w n =
    (h : List ℕ) × (histogram_of pfun w n ≡ some h)
    × (length h ≡ w * 2 + 1)
    × ((sums_loop h (w * 2 + 1) 0 (record { sum0 = 0; sum1 = 0 })).sum0 ≡ passes)

pass_loop-IsComplete :
    (pfun : ℕ → Draw) (w n : ℕ) → ((i : ℕ) → (pfun i).value ≤ w * 2) → IsComplete pfun w n
unfolding histogram_of
pass_loop-IsComplete pfun w n le =
    let run =
      pass_loop-total pfun w passes n (replicate (w * 2 + 1) 0) le (length-replicate (w * 2 + 1) 0)
        (omega (arith, total-replicate (w * 2 + 1))) in
    let sums =
      sums_loop-sum_from run.0 (w * 2 + 1) 0 (record { sum0 = 0; sum1 = 0 })
        (omega (arith, run.3, all run.0 run.2, total-replicate (w * 2 + 1))) in
    (run.0, run.1, run.2, omega (arith, sums, all run.0 run.2, run.3, total-replicate (w * 2 + 1)))
  where
    all : (h : List ℕ) → length h ≡ w * 2 + 1 → sum_from h (w * 2 + 1) 0 ≡ total h
    all h e = rw (← e) (sum_from-total h)

-- For words of 32 or 64 bits and at most four key words, both tests run to their end without an
-- abort, whatever `rand` returns and the arrays of keys hold at first, and the counts of the
-- histogram add up to the number of passes.
pub confusion_once-IsComplete :
    (rand : ℕ → ℕ) (w m : ℕ) (ka kb : List ℕ) (n : ℕ)
    → (w ≡ 32) ⊎ (w ≡ 64)
    → m ≤ 4
    → AllBelow (2 ^ w) ka
    → AllBelow (2 ^ w) kb
    → IsComplete (confusion_once rand w m ka kb) w n
      × IsComplete (diffusion_once rand w m ka kb) w n
confusion_once-IsComplete rand w m ka kb n size few ha hb = (
  pass_loop-IsComplete (confusion_once rand w m ka kb) w n
      (confusion_once-le rand w size m few ka kb ha hb),
  pass_loop-IsComplete (diffusion_once rand w m ka kb) w n
      (diffusion_once-le rand w size m few ka kb ha hb),
)
