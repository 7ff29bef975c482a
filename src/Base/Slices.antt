-- ===== src/Base/Slices.antt =====
-- `take`, `drop` and indexing on a list that is put together from two.
use Prim.Native.Nat.{ℕ, zero, suc, ◌+◌, ◌≤◌, ◌<◌}
use mathlib.Core.Path.{◌≡◌, refl, ap, ◌∙◌}
use mathlib.Core.List.{List, [], ◌∷◌, ◌++◌}
use native.Mathlib.Nat.{suc-add}
use native.Mathlib.Omega.{arith}
use saw_script.Base.Lists.{length, get_or, set, replicate, take, drop}

module _ {ℓ} {A : Type ℓ} where
  pub get_or-append_left :
      (xs ys : List A) (i : ℕ) (d : A) → i < length xs → get_or (xs ++ ys) i d ≡ get_or xs i d
  get_or-append_left [] ys i d h = absurd (omega arith)
  get_or-append_left (x ∷ xs) ys zero d h = refl
  get_or-append_left (x ∷ xs) ys (suc i) d h = get_or-append_left xs ys i d (omega arith)

  pub take-append_left : (n : ℕ) (xs ys : List A) → n ≤ length xs → take n (xs ++ ys) ≡ take n xs
  take-append_left zero xs ys h = refl
  take-append_left (suc n) [] ys h = absurd (omega arith)
  take-append_left (suc n) (x ∷ xs) ys h = ap (λ t. x ∷ t) (take-append_left n xs ys (omega arith))

  pub drop-append_left :
      (n : ℕ) (xs ys : List A) → n ≤ length xs → drop n (xs ++ ys) ≡ drop n xs ++ ys
  drop-append_left zero xs ys h = refl
  drop-append_left (suc n) [] ys h = absurd (omega arith)
  drop-append_left (suc n) (x ∷ xs) ys h = drop-append_left n xs ys (omega arith)

  pub take_all : (n : ℕ) (xs : List A) → length xs ≤ n → take n xs ≡ xs
  take_all zero [] h = refl
  take_all zero (x ∷ xs) h = absurd (omega arith)
  take_all (suc n) [] h = refl
  take_all (suc n) (x ∷ xs) h = ap (λ t. x ∷ t) (take_all n xs (omega arith))

  pub drop_all : (n : ℕ) (xs : List A) → length xs ≤ n → drop n xs ≡ []
  drop_all zero [] h = refl
  drop_all zero (x ∷ xs) h = absurd (omega arith)
  drop_all (suc n) [] h = refl
  drop_all (suc n) (x ∷ xs) h = drop_all n xs (omega arith)

  -- The whole first part.
  pub take-append_exact : (n : ℕ) (xs ys : List A) → n ≡ length xs → take n (xs ++ ys) ≡ xs
  take-append_exact n xs ys e = take-append_left n xs ys (omega arith) ∙ take_all n xs (omega arith)

  pub drop-append_exact : (n : ℕ) (xs ys : List A) → n ≡ length xs → drop n (xs ++ ys) ≡ ys
  drop-append_exact n xs ys e =
      drop-append_left n xs ys (omega arith) ∙ ap (λ t. t ++ ys) (drop_all n xs (omega arith))

  -- The first part and some of the second.
  pub take-append_add :
      (k n : ℕ) (xs ys : List A) → n ≡ length xs → take (n + k) (xs ++ ys) ≡ xs ++ take k ys
  take-append_add k n [] ys e = ap (λ t. take t ys) (omega arith)
  take-append_add k zero (x ∷ xs) ys e = absurd (omega arith)
  take-append_add k (suc n) (x ∷ xs) ys e =
      rw (suc-add n k) (ap (λ t. x ∷ t) (take-append_add k n xs ys (omega arith)))

  pub take-set :
      (n : ℕ) (xs : List A) (v : A)
      → n < length xs
      → take (suc n) (set xs n v) ≡ take n xs ++ (v ∷ [])
  take-set n [] v h = absurd (omega arith)
  take-set zero (x ∷ xs) v h = refl
  take-set (suc n) (x ∷ xs) v h = ap (λ t. x ∷ t) (take-set n xs v (omega arith))

  pub replicate-append : (a b : ℕ) (x : A) → replicate a x ++ replicate b x ≡ replicate (a + b) x
  replicate-append zero b x = ap (λ (k : ℕ). replicate k x) (omega arith)
  replicate-append (suc a) b x = rw (suc-add a b) (ap (λ t. x ∷ t) (replicate-append a b x))

pub get_or-drop {ℓ} :
    {A : Type ℓ} (n : ℕ) (xs : List A) (i : ℕ) (d : A)
    → get_or (drop n xs) i d ≡ get_or xs (n + i) d
get_or-drop zero xs i d = ap (λ (t : ℕ). get_or xs t d) (omega arith)
get_or-drop (suc n) [] i d = refl
get_or-drop (suc n) (x ∷ xs) i d = rw (suc-add n i) (get_or-drop n xs i d)

pub get_or-append_end : (xs : List ℕ) (x : ℕ) → get_or (xs ++ x ∷ []) (length xs) 0 ≡ x
get_or-append_end [] x = refl
get_or-append_end (y ∷ xs) x = get_or-append_end xs x
