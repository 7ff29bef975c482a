-- ===== src/SvComp/Modulus/Laws.antt =====
-- The outer loop of modulus.c and the whole program.
use native.Mathlib.Nat.{add-mul-mod_self_left, mod-eq_of_lt, mod_self, pow-suc}
use mathlib.Core.Option
use native.Mathlib.Decide.{ℕ_discrete}
use saw_script.Base.{
  ℕ, zero, suc, ◌+◌, ◌-◌, ◌/◌, ◌%◌, ◌^◌, ◌≤◌, ◌<◌, ◌≡◌, ◌∙◌, refl, sym, ap, arith, inl, inr, some,
  true, false, ◌==◌, ltb, Bool-cases,
}
use saw_script.SvComp.{returned, verifier_assert}
use saw_script.SvComp.Modulus.{State, digits_loop, modulus_loop, last_m, divide, main}
use saw_script.SvComp.Modulus.Digits.{two_le_pow, IsSum, digits_loop-IsSum, digits_half}

-- The outer loop ends with a number of one digit, which differs from `n` by a multiple of `d`.
abbrev IsEnd : ℕ → ℕ → ℕ → ℕ → Type 0
IsEnd fuel s n last =
    (modulus_loop fuel (2 ^ s - 1) s (record { n = n; m = n })
      ≡ some (record { n = last; m = last }))
    × (last ≤ 2 ^ s - 1)
    × (last % (2 ^ s - 1) ≡ n % (2 ^ s - 1))

IsEnd-stop : (fuel s n : ℕ) → n ≤ 2 ^ s - 1 → IsEnd (suc fuel) s n n
unfolding modulus_loop
IsEnd-stop fuel s n few =
    let stop : ltb (2 ^ s - 1) n ≡ false = ground arith in (rw stop refl, few, refl)

IsEnd-step :
    (fuel s n r q last : ℕ)
    → 2 ^ s - 1 < n
    → IsSum 33 s n 0 r q
    → IsEnd fuel s r last
    → IsEnd (suc fuel) s n last
unfolding modulus_loop Option.bind
IsEnd-step fuel s n r q last more h end =
    let d = 2 ^ s - 1 in
    let go_on : ltb d n ≡ true = ground arith in
    let sum : digits_loop 33 d s n 0 ≡ some r = h.0 ∙ ap some (omega arith) in
    let same : n % d ≡ r % d = ap (λ (t : ℕ). t % d) h.1 ∙ add-mul-mod_self_left r d q in
    (rw (go_on, sum) end.0, end.1, omega (arith, end.2, same))

modulus_loop-IsEnd :
    (fuel k s n : ℕ) → 0 < s → n ≤ 2 ^ k → k < fuel → n < 2 ^ 32 → (last : ℕ) × IsEnd fuel s n last
modulus_loop-IsEnd zero k s n h small enough fits = absurd (omega arith)
modulus_loop-IsEnd (suc fuel) k s n h small enough fits = elim (Bool-cases (ltb (2 ^ s - 1) n)) [
  | inr e ↦ (n, IsEnd-stop fuel s n (ground arith))
  | inl e ↦
      let more : 2 ^ s - 1 < n = ground arith in
      let two = two_le_pow s h in
      let sum = digits_loop-IsSum 33 32 s n 0 h fits (omega arith) (omega arith) in
      let half = digits_half (2 ^ s) n sum.0 two (omega arith) ((sum.2).2) in
      let fewer = halves k n sum.0 (omega arith) small half in
      let rest =
        modulus_loop-IsEnd fuel (k - 1) s sum.0 h fewer.1 (omega (arith, fewer.0)) (omega arith) in
      (rest.0, IsEnd-step fuel s n sum.0 sum.1 rest.0 more sum.2 rest.1)
]
  where
    halves : (k n r : ℕ) → 1 < n → n ≤ 2 ^ k → r ≤ (n + 1) / 2 → (0 < k) × (r ≤ 2 ^ (k - 1))
    halves zero n r a b c = absurd (omega arith)
    halves (suc k) n r a b c =
        let prev : suc k - 1 ≡ k = omega arith in
        (omega arith, rw prev (omega (arith, pow-suc 2 k)))

-- For every 32-bit `n` and 0 < `s` < 31 the loops end, the last value of `m` is the remainder of `n`
-- by `2 ^ s - 1`, and the assertion at the end of the program holds.
pub main-last_m :
    (n s : ℕ)
    → n < 2 ^ 32
    → 0 < s
    → s < 31
    → ((st : State) × (modulus_loop 33 (2 ^ s - 1) s (record { n = n; m = n }) ≡ some st)
        × (last_m (2 ^ s - 1) st ≡ n % (2 ^ s - 1)))
      × (main n s ≡ some (returned 0))
unfolding main divide verifier_assert last_m
main-last_m n s fits h few =
    let d = 2 ^ s - 1 in
    let two = two_le_pow s h in
    let end = modulus_loop-IsEnd 33 32 s n h (omega arith) (omega arith) fits in
    let small : ltb 30 s ≡ false = ground arith in
    let some_divisor : ltb 0 d ≡ true = ground arith in
    let reduced : last_m d (record { n = end.0; m = end.0 }) ≡ end.0 % d =
      reduce d end.0 (omega arith) (end.1).1 in
    let equal : (end.0 % d == end.0 % d) ≡ true = ground arith in
    (
      (record { n = end.0; m = end.0 }, (end.1).0, reduced ∙ (end.1).2),
      rw (small, some_divisor, (end.1).0, reduced, equal) refl,
    )
  where
    reduce : (d last : ℕ) → 0 < d → last ≤ d → last_m d (record { n = last; m = last }) ≡ last % d
    reduce d last pos le = elim (ℕ_discrete last d) [
      | yes e ↦ let test : (last == d) ≡ true = ground arith in rw (test, e) (sym (mod_self d))
      | no ne ↦
          let test : (last == d) ≡ false = ground arith in
          rw test (sym (mod-eq_of_lt (omega (arith, ne))))
    ]
