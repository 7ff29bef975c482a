-- ===== src/Base/Lists.antt =====
-- C arrays as lists, indexed by native numbers.
use Prim.Native.Nat.{ℕ, zero, suc, ◌+◌, ◌-◌, ◌<◌, min}
use mathlib.Core.Path.{◌≡◌, refl, sym, subst, ap, ap₂}
use mathlib.Core.Logic.{◌≢◌}
use mathlib.Core.List.{List, [], ◌∷◌, ◌++◌}
use mathlib.Core.Bool.{Bool, true, ◌&&◌}
use native.Mathlib.Decide.{ℕ_discrete}
use native.Mathlib.Omega.{arith}
use saw_script.Base.Tests.{ltb}

module _ {ℓ} {A : Type ℓ} where
  abbrev pub length : List A → ℕ
  length [] = 0
  length (x ∷ xs) = suc (length xs)

  abbrev pub get_or : List A → ℕ → A → A
  get_or [] i d = d
  get_or (x ∷ xs) zero d = x
  get_or (x ∷ xs) (suc i) d = get_or xs i d

  -- A write out of bounds changes nothing.
  abbrev pub set : List A → ℕ → A → List A
  set [] i v = []
  set (x ∷ xs) zero v = v ∷ xs
  set (x ∷ xs) (suc i) v = x ∷ set xs i v

  abbrev pub take : ℕ → List A → List A
  take zero xs = []
  take (suc n) [] = []
  take (suc n) (x ∷ xs) = x ∷ take n xs

  abbrev pub drop : ℕ → List A → List A
  drop zero xs = xs
  drop (suc n) [] = []
  drop (suc n) (x ∷ xs) = drop n xs

  abbrev pub replicate : ℕ → A → List A
  replicate zero a = []
  replicate (suc n) a = a ∷ replicate n a

  pub length-append : (xs ys : List A) → length (xs ++ ys) ≡ length xs + length ys
  length-append [] ys = omega arith
  length-append (x ∷ xs) ys = omega (arith, length-append xs ys)

  pub length-set : (xs : List A) (i : ℕ) (v : A) → length (set xs i v) ≡ length xs
  length-set [] i v = refl
  length-set (x ∷ xs) zero v = refl
  length-set (x ∷ xs) (suc i) v = ap suc (length-set xs i v)

  pub length-take : (n : ℕ) (xs : List A) → length (take n xs) ≡ min n (length xs)
  length-take zero xs = omega arith
  length-take (suc n) [] = omega arith
  length-take (suc n) (x ∷ xs) = omega (arith, length-take n xs)

  pub length-drop : (n : ℕ) (xs : List A) → length (drop n xs) ≡ length xs - n
  length-drop zero xs = omega arith
  length-drop (suc n) [] = omega arith
  length-drop (suc n) (x ∷ xs) = omega (arith, length-drop n xs)

  pub length-replicate : (n : ℕ) (a : A) → length (replicate n a) ≡ n
  length-replicate zero a = refl
  length-replicate (suc n) a = ap suc (length-replicate n a)

  pub take-append-drop : (n : ℕ) (xs : List A) → take n xs ++ drop n xs ≡ xs
  take-append-drop zero xs = refl
  take-append-drop (suc n) [] = refl
  take-append-drop (suc n) (x ∷ xs) = ap (λ t. x ∷ t) (take-append-drop n xs)

  pub get_or-set_self :
      (xs : List A) (i : ℕ) (v d : A) → i < length xs → get_or (set xs i v) i d ≡ v
  get_or-set_self [] i v d h = absurd (omega arith)
  get_or-set_self (x ∷ xs) zero v d h = refl
  get_or-set_self (x ∷ xs) (suc i) v d h = get_or-set_self xs i v d (omega arith)

  pub get_or-set_ne :
      (xs : List A) (i j : ℕ) (v d : A) → i ≢ j → get_or (set xs i v) j d ≡ get_or xs j d
  get_or-set_ne [] i j v d h = refl
  get_or-set_ne (x ∷ xs) zero zero v d h = absurd (h refl)
  get_or-set_ne (x ∷ xs) zero (suc j) v d h = refl
  get_or-set_ne (x ∷ xs) (suc i) zero v d h = refl
  get_or-set_ne (x ∷ xs) (suc i) (suc j) v d h = get_or-set_ne xs i j v d (λ e. h (ap suc e))

  pub set-set : (xs : List A) (i : ℕ) (u v : A) → set (set xs i u) i v ≡ set xs i v
  set-set [] i u v = refl
  set-set (x ∷ xs) zero u v = refl
  set-set (x ∷ xs) (suc i) u v = ap (λ t. x ∷ t) (set-set xs i u v)

  pub set_comm :
      (xs : List A) (i j : ℕ) (u v : A) → i ≢ j → set (set xs i u) j v ≡ set (set xs j v) i u
  set_comm [] i j u v ne = refl
  set_comm (x ∷ xs) zero zero u v ne = absurd (ne refl)
  set_comm (x ∷ xs) zero (suc j) u v ne = refl
  set_comm (x ∷ xs) (suc i) zero u v ne = refl
  set_comm (x ∷ xs) (suc i) (suc j) u v ne =
      ap (λ t. x ∷ t) (set_comm xs i j u v (λ e. ne (ap suc e)))

  pub set-get_or : (xs : List A) (i : ℕ) (d : A) → set xs i (get_or xs i d) ≡ xs
  set-get_or [] i d = refl
  set-get_or (x ∷ xs) zero d = refl
  set-get_or (x ∷ xs) (suc i) d = ap (λ t. x ∷ t) (set-get_or xs i d)

  pub get_or_ext :
      (d : A) (xs ys : List A)
      → length xs ≡ length ys
      → ((i : ℕ) → get_or xs i d ≡ get_or ys i d)
      → xs ≡ ys
  get_or_ext d [] [] e h = refl
  get_or_ext d [] (y ∷ ys) e h = absurd (omega arith)
  get_or_ext d (x ∷ xs) [] e h = absurd (omega arith)
  get_or_ext d (x ∷ xs) (y ∷ ys) e h =
      ap₂ ◌∷◌ (h 0) (get_or_ext d xs ys (omega arith) (λ i. h (suc i)))

-- Every element satisfies `P`.
abbrev pub All {ℓ κ} : {A : Type ℓ} → (A → Type κ) → List A → Type κ
All P [] = Unit
All P (x ∷ xs) = P x × All P xs

-- Every value read from the array is below `b`; out of range reads give 0.
abbrev pub AllBelow : ℕ → List ℕ → Type 0
AllBelow b xs = (i : ℕ) → get_or xs i 0 < b

pub AllBelow-set : (b : ℕ) (xs : List ℕ) (i v : ℕ) → AllBelow b xs → v < b → AllBelow b (set xs i v)
AllBelow-set b [] i v h hv j = h j
AllBelow-set b (x ∷ xs) zero v h hv zero = hv
AllBelow-set b (x ∷ xs) zero v h hv (suc j) = h (suc j)
AllBelow-set b (x ∷ xs) (suc i) v h hv zero = h 0
AllBelow-set b (x ∷ xs) (suc i) v h hv (suc j) = AllBelow-set b xs i v (λ k. h (suc k)) hv j

pub AllBelow-cons : (b x : ℕ) (xs : List ℕ) → x < b → AllBelow b xs → AllBelow b (x ∷ xs)
AllBelow-cons b x xs hx h zero = hx
AllBelow-cons b x xs hx h (suc i) = h i

pub AllBelow-take : (b n : ℕ) (xs : List ℕ) → AllBelow b xs → AllBelow b (take n xs)
AllBelow-take b zero xs h j = omega (arith, h 0)
AllBelow-take b (suc n) [] h j = h j
AllBelow-take b (suc n) (x ∷ xs) h zero = h 0
AllBelow-take b (suc n) (x ∷ xs) h (suc j) = AllBelow-take b n xs (λ k. h (suc k)) j

-- A test for `AllBelow` at concrete arrays.
abbrev pub all_ltb : ℕ → List ℕ → Bool
all_ltb b [] = true
all_ltb b (x ∷ xs) = ltb x b && all_ltb b xs

pub AllBelow-by_test : (b : ℕ) (xs : List ℕ) → 0 < b → all_ltb b xs ≡ true → AllBelow b xs
AllBelow-by_test b [] pos h i = pos
AllBelow-by_test b (x ∷ xs) pos h zero = ground arith
AllBelow-by_test b (x ∷ xs) pos h (suc i) = AllBelow-by_test b xs pos (ground arith) i

-- `P` at every number below `n`, the last one first, for the cases of a concrete `n`.
abbrev pub Below {κ} : (ℕ → Type κ) → ℕ → Type κ
Below P zero = Unit
Below P (suc n) = P n × Below P n

pub Below-at {κ} : (P : ℕ → Type κ) (n i : ℕ) → Below P n → i < n → P i
Below-at P zero i h p = absurd (omega arith)
Below-at P (suc n) i h p = elim (ℕ_discrete i n) [
  | yes e ↦ subst P (sym e) h.0
  | no ne ↦ Below-at P n i h.1 (omega arith)
]
