-- ===== src/Chacha/Selftest.antt =====
-- The test driver of chacha20.c: what its helpers do, and that it passes.
use native.Mathlib.Decide.{ℕ_discrete, dec_lt}
use saw_script.Base.{
  ℕ, zero, suc, ◌+◌, ◌-◌, ◌/◌, ◌^◌, ◌≤◌, ◌<◌, ◌≡◌, ◌∙◌, refl, sym, ap, arith, List, [], ◌∷◌, some,
  length, get_or, set, replicate, bit_xor, bit_or, sub, shr, if◌then◌else◌, ◌==◌, length-set,
  length-replicate, get_or-set_self, get_or-set_ne, get_or_ext, AllBelow, Bool, true, ◌&&◌,
}
use saw_script.Base.Bits.{
  or_digit, or_comm, or-lt, xor-lt, xor_self, xor_cancel, zero-xor, and_low, and_comm,
}
use saw_script.Chacha.Block.{core, kexp}
use saw_script.Chacha.Stream.{stream_xor, stream_loop, xor_loop}
use saw_script.Chacha.Vectors.{msg1, out1}
use saw_script.Chacha.Driver.{
  clear_loop, clear, verify_loop, verify, Arrays, wipe, encrypt, check, after_check, then_check,
  third_vector, second_vector, main,
}

abbrev pub zeros : Arrays
zeros = record { out = replicate 512 0; key = replicate 32 0; nonce = replicate 12 0 }

main-zeros : main zeros ≡ some 0
unfolding main second_vector third_vector then_check after_check check encrypt wipe clear clear_loop
    verify verify_loop stream_xor stream_loop xor_loop core kexp
main-zeros = refl

-- `clear` writes 0 to every place of an array of its size.
length-clear_loop : (left i : ℕ) (o : List ℕ) → length (clear_loop left i o) ≡ length o
unfolding clear_loop
length-clear_loop zero i o = refl
length-clear_loop (suc left) i o = length-clear_loop left (i + 1) (set o i 0) ∙ length-set o i 0

get_or-clear_loop :
    (left i : ℕ) (o : List ℕ) (j : ℕ)
    → i + left ≤ length o
    → (j < i → get_or o j 0 ≡ 0)
    → j < i + left
    → get_or (clear_loop left i o) j 0 ≡ 0
unfolding clear_loop
get_or-clear_loop zero i o j fits before h = before (omega arith)
get_or-clear_loop (suc left) i o j fits before h =
    get_or-clear_loop left (i + 1) (set o i 0) j (omega (arith, length-set o i 0))
      (λ early. elim (ℕ_discrete i j) [
        | yes e ↦ rw (← e) (get_or-set_self o i 0 0 (omega arith))
        | no ne ↦ get_or-set_ne o i j 0 0 ne ∙ before (omega arith)
      ])
      (omega arith)

get_or-replicate : (n j : ℕ) → get_or {A = ℕ} (replicate n 0) j 0 ≡ 0
get_or-replicate zero j = refl
get_or-replicate (suc n) zero = refl
get_or-replicate (suc n) (suc j) = get_or-replicate n j

get_or-beyond : (o : List ℕ) (j : ℕ) → length o ≤ j → get_or o j 0 ≡ 0
get_or-beyond [] j h = refl
get_or-beyond (x ∷ o) zero h = absurd (omega arith)
get_or-beyond (x ∷ o) (suc j) h = get_or-beyond o j (omega arith)

clear_lem : (o : List ℕ) (n : ℕ) → length o ≡ n → clear o n ≡ replicate n 0
unfolding clear
clear_lem o n len =
    get_or_ext 0 (clear_loop n 0 o) (replicate n 0)
      (length-clear_loop n 0 o ∙ len ∙ sym (length-replicate n 0))
      (λ j. elim (dec_lt j n) [
        | yes h ↦
            get_or-clear_loop n 0 o j (omega arith) (λ early. absurd (omega arith)) (omega arith)
            ∙ sym (get_or-replicate n j)
        | no h ↦
            get_or-beyond (clear_loop n 0 o) j (omega (arith, length-clear_loop n 0 o))
            ∙ sym (get_or-replicate n j)
      ])

wipe-zeros :
    (a : Arrays) → length a.out ≡ 512 → length a.key ≡ 32 → length a.nonce ≡ 12 → wipe a ≡ zeros
unfolding wipe
wipe-zeros a len_out len_key len_nonce =
    rw (clear_lem a.out 512 len_out, clear_lem a.key 32 len_key, clear_lem a.nonce 12 len_nonce)
      refl

main-wipe : (a b : Arrays) → wipe a ≡ wipe b → main a ≡ main b
unfolding main
main-wipe a b e =
    ap (λ (w : Arrays). then_check out1 (second_vector w) (encrypt msg1 0 w.nonce w.key w.out)) e

-- The test driver passes its three test vectors and ends with status 0, whatever its arrays hold
-- before they are cleared.
pub main_lem :
    (a : Arrays) → length a.out ≡ 512 → length a.key ≡ 32 → length a.nonce ≡ 12 → main a ≡ some 0
main_lem a len_out len_key len_nonce =
    main-wipe a zeros
      (wipe-zeros a len_out len_key len_nonce ∙ sym (wipe-zeros zeros refl refl refl))
    ∙ main-zeros

-- A disjunction is 0 if and only if both numbers are.
bit_or-ge_below : (n a b : ℕ) → a ≤ n → a ≤ bit_or a b
bit_or-ge_below zero a b h = omega arith
bit_or-ge_below (suc n) a b h =
    omega (arith, or_digit a b, bit_or-ge_below n (a / 2) (b / 2) (omega arith))

bit_or_zero : (a b : ℕ) → (bit_or a b == 0) ≡ ((a == 0) && (b == 0))
bit_or_zero a b = elim (ℕ_discrete a 0) [
  | yes e ↦ elim (ℕ_discrete b 0) [
    | yes e' ↦ rw (e, e') refl
    | no ne ↦ ground (arith, or_comm a b, bit_or-ge_below b b a (omega arith))
  ]
  | no ne ↦ ground (arith, bit_or-ge_below a a b (omega arith))
]

-- So is an exclusive disjunction if and only if they are equal.
bit_xor_zero : (a b : ℕ) → (bit_xor a b == 0) ≡ (a == b)
bit_xor_zero a b = elim (ℕ_discrete a b) [
  | yes e ↦ let itself : (b == b) ≡ true = ground arith in rw (e, xor_self b, itself) refl
  | no ne ↦ elim (ℕ_discrete (bit_xor a b) 0) [
    | yes z ↦ absurd (ne (sym (xor_cancel a b) ∙ ap (λ (t : ℕ). bit_xor t b) z ∙ zero-xor b))
    | no nz ↦ ground arith
  ]
]

-- Whether two arrays agree in the places from `i` on, as many as given.
unfoldable pub agree : List ℕ → List ℕ → ℕ → ℕ → Bool
agree x y zero i = true
agree x y (suc left) i = (get_or x i 0 == get_or y i 0) && agree x y left (i + 1)

module _ (x y : List ℕ) (hx : AllBelow 256 x) (hy : AllBelow 256 y) where
  verify_loop-agree :
      (left i d : ℕ)
      → d < 256
      → (verify_loop x y left i d < 256)
        × ((verify_loop x y left i d == 0) ≡ ((d == 0) && agree x y left i))
  unfolding verify_loop agree
  verify_loop-agree zero i d h = (h, ground arith)
  verify_loop-agree (suc left) i d h =
      let u = get_or x i 0 in
      let v = get_or y i 0 in
      let byte : bit_or d (bit_xor u v) < 256 =
        or-lt 8 d (bit_xor u v) h (xor-lt 8 u v (hx i) (hy i)) in
      let rest = verify_loop-agree left (i + 1) (bit_or d (bit_xor u v)) byte in
      (rest.0, ground (arith, rest.1, bit_or_zero d (bit_xor u v), bit_xor_zero u v))

  -- `verify` compares the first `n` bytes of two arrays of bytes: it gives 0 if they all agree, and
  -- -1 otherwise.
  pub verify-agree : (n : ℕ) → verify x y n ≡ (if agree x y n 0 then 0 else 2 ^ 32 - 1)
  unfolding verify
  verify-agree n =
      let loop = verify_loop-agree n 0 0 (omega arith) in
      let d = verify_loop x y n 0 0 in
      ground
        (arith, loop.0, loop.1, and_comm 1 (shr (sub 32 d 1) 8), and_low 1 (shr (sub 32 d 1) 8))
