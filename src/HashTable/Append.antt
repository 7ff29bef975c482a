-- ===== src/HashTable/Append.antt =====
-- The end of a chain of ht_simplified.c, and what a key that is added behind it changes.
use saw_script.Base.{
  ℕ, zero, suc, ◌+◌, ◌≤◌, ◌<◌, ◌≡◌, ◌⊎◌, ◌∙◌, inl, inr, refl, ap, arith, false, List, [], ◌∷◌, ◌++◌,
  length, get_or, drop, if◌then◌else◌, ◌==◌, Bool-cases, ==_iff,
}
use saw_script.HashTable.{nullindex, poolsize, get_bucket, at, absent}
use saw_script.HashTable.Search.{seek, scan}

-- The index of the last key of the bucket `b`, or `prev`.
unfoldable pub last : ℕ → List ℕ → ℕ → ℕ → ℕ
last b [] i prev = prev
last b (k ∷ ks) i prev = last b ks (i + 1) (if get_bucket k == b then i else prev)

pub last_of_absent :
    (key : ℕ) (ks : List ℕ) (i prev p : ℕ)
    → scan key ks i prev ≡ absent p
    → p ≡ last (get_bucket key) ks i prev
unfolding scan last
last_of_absent key [] i prev p e = cc
last_of_absent key (k ∷ ks) i prev p e = elim (Bool-cases (k == key)) [
  | inl hit ↦ absurd (at-ne-absent (rw hit at e))
  | inr miss ↦ last_of_absent key ks (i + 1) _ p (rw miss at e)
]
  where
    at-ne-absent : at i ≡ absent p → ⊥
    at-ne-absent h = cc

pub seek-last :
    (b : ℕ) (ks : List ℕ) (i prev : ℕ)
    → i + length ks ≤ poolsize
    → seek b ks i ≡ nullindex
    → last b ks i prev ≡ prev
unfolding seek last
seek-last b [] i prev fits none_left = refl
seek-last b (k ∷ ks) i prev fits none_left = elim (Bool-cases (get_bucket k == b)) [
  | inl same ↦ absurd (not_null (rw same at none_left))
  | inr other ↦ rw other (seek-last b ks (i + 1) prev (omega arith) (rw other at none_left))
]
  where
    not_null : i ≡ nullindex → ⊥
    not_null e = omega arith

pub last_range :
    (b : ℕ) (ks : List ℕ) (i prev : ℕ)
    → (last b ks i prev ≡ prev) ⊎ ((i ≤ last b ks i prev) × (last b ks i prev < i + length ks))
unfolding last
last_range b [] i prev = inl refl
last_range b (k ∷ ks) i prev = elim (Bool-cases (get_bucket k == b)) [
  | inl same ↦ rw same (omega (arith, last_range b ks (i + 1) i))
  | inr other ↦ rw other (omega (arith, last_range b ks (i + 1) prev))
]

pub last-seek :
    (b : ℕ) (ks : List ℕ) (i prev : ℕ)
    → (prev < i) ⊎ (i + length ks ≤ prev)
    → last b ks i prev ≡ prev
    → seek b ks i ≡ nullindex
unfolding seek last
last-seek b [] i prev out e = refl
last-seek b (k ∷ ks) i prev out e = elim (Bool-cases (get_bucket k == b)) [
  | inl same ↦
      let moved : last b ks (i + 1) i ≡ prev = rw same at e in
      absurd (omega (arith, last_range b ks (i + 1) i))
  | inr other ↦ rw other (last-seek b ks (i + 1) prev (omega arith) (rw other at e))
]

-- The last key of the bucket has no later one, and is the only such key of the bucket.
pub last_at :
    (b : ℕ) (ks : List ℕ) (i prev j : ℕ)
    → (prev < i) ⊎ (i + length ks ≤ prev)
    → j < length ks
    → last b ks i prev ≡ i + j
    → (get_bucket (get_or ks j 0) ≡ b) × (seek b (drop (suc j) ks) (i + suc j) ≡ nullindex)
unfolding last
last_at b [] i prev j out p e = absurd (omega arith)
last_at b (k ∷ ks) i prev zero out p e = elim (Bool-cases (get_bucket k == b)) [
  | inl same ↦
      let moved : last b ks (i + 1) i ≡ i + 0 = rw same at e in
      ((==_iff _ _).0 same, last-seek b ks (i + 1) i (omega arith) (omega arith))
  | inr other ↦
      let moved : last b ks (i + 1) prev ≡ i + 0 = rw other at e in
      absurd (omega (arith, last_range b ks (i + 1) prev))
]
last_at b (k ∷ ks) i prev (suc j) out p e =
    let from : ℕ = if get_bucket k == b then i else prev in
    let rest = last_at b ks (i + 1) from j (ground arith) (omega arith) (e ∙ omega arith) in
    (rest.0, ap (seek b (drop (suc j) ks)) (omega arith) ∙ rest.1)

pub last_only :
    (b : ℕ) (ks : List ℕ) (i prev j : ℕ)
    → i + length ks ≤ poolsize
    → j < length ks
    → get_bucket (get_or ks j 0) ≡ b
    → seek b (drop (suc j) ks) (i + suc j) ≡ nullindex
    → last b ks i prev ≡ i + j
unfolding last
last_only b [] i prev j fits p same none_left = absurd (omega arith)
last_only b (k ∷ ks) i prev zero fits p same none_left =
    rw ((==_iff (get_bucket k) b).1 same)
      (seek-last b ks (i + 1) i (omega arith) none_left ∙ omega arith)
last_only b (k ∷ ks) i prev (suc j) fits p same none_left =
    last_only b ks (i + 1) _ j (omega arith) (omega arith) same
      (ap (seek b (drop (suc j) ks)) (omega arith) ∙ none_left)
    ∙ omega arith

-- One more key, behind the others.
pub seek-append :
    (b key : ℕ) (ks : List ℕ) (i : ℕ)
    → i + length ks ≤ poolsize
    → seek b (ks ++ key ∷ []) i ≡ (
        if seek b ks i == nullindex
        then (if get_bucket key == b then i + length ks else nullindex)
        else seek b ks i)
unfolding seek
seek-append b key [] i fits =
    ap (λ (t : ℕ). if get_bucket key == b then t else nullindex) (omega arith)
seek-append b key (k ∷ ks) i fits = elim (Bool-cases (get_bucket k == b)) [
  | inl same ↦ rw (same, not_null)
  | inr other ↦ rw other (
      seek-append b key ks (i + 1) (omega arith)
      ∙ ap
          (λ (t : ℕ).
            if seek b ks (i + 1) == nullindex
            then (if get_bucket key == b then t else nullindex)
            else seek b ks (i + 1))
          (omega arith))
]
  where
    not_null : (i == nullindex) ≡ false
    not_null = ground arith
