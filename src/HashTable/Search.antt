-- ===== src/HashTable/Search.antt =====
-- What the chains of ht_simplified.c stand for. The used slots hold the keys in the order of their
-- arrival; a chain links those of one bucket, in that order.
use saw_script.Base.{
  ℕ, zero, suc, ◌+◌, ◌≤◌, ◌<◌, ◌≡◌, ◌∙◌, inl, inr, refl, ap, arith, false, List, [], ◌∷◌, some,
  length, get_or, drop, if◌then◌else◌, ◌==◌, Bool-cases, ==-false, ==_iff,
}
use saw_script.HashTable.{Entry, nullindex, poolsize, no_entry, get_bucket, Found, at, absent, walk}

-- The index of the first key of the bucket `b` in a list that starts at index `i`.
unfoldable pub seek : ℕ → List ℕ → ℕ → ℕ
seek b [] i = nullindex
seek b (k ∷ ks) i = if get_bucket k == b then i else seek b ks (i + 1)

-- How looking for a key ends, along all keys.
unfoldable pub scan : ℕ → List ℕ → ℕ → ℕ → Found
scan key [] i prev = absent prev
scan key (k ∷ ks) i prev =
    if k == key
    then at i
    else scan key ks (i + 1) (if get_bucket k == get_bucket key then i else prev)

-- The pool holds the keys from index `i` on, each linked to the next one of its bucket.
pub record IsLinked (pool : List Entry) (ks : List ℕ) (i : ℕ) : Type 0 where
  pub key_at : (j : ℕ) → j < length ks → (get_or pool (i + j) no_entry).key ≡ get_or ks j 0
  pub next_at :
      (j : ℕ)
      → j < length ks
      → (get_or pool (i + j) no_entry).next
        ≡ seek (get_bucket (get_or ks j 0)) (drop (suc j) ks) (i + suc j)

IsLinked-tail :
    (pool : List Entry) (k : ℕ) (ks : List ℕ) (i : ℕ)
    → IsLinked pool (k ∷ ks) i
    → IsLinked pool ks (i + 1)
IsLinked-tail pool k ks i l = record {
  key_at = λ j p.
      ap (λ (t : ℕ). (get_or pool t no_entry).key) (shift j) ∙ l.key_at (suc j) (omega arith);
  next_at = λ j p.
      ap (λ (t : ℕ). (get_or pool t no_entry).next) (shift j)
      ∙ (l.next_at (suc j) (omega arith)
          ∙ ap (seek (get_bucket (get_or ks j 0)) (drop (suc j) ks)) (omega arith));
}
  where
    shift : (j : ℕ) → i + 1 + j ≡ i + suc j
    shift j = omega arith

module _ (pool : List Entry) (k : ℕ) (ks : List ℕ) (i : ℕ) (l : IsLinked pool (k ∷ ks) i) where
  head_key : (get_or pool i no_entry).key ≡ k
  head_key = ap (λ (t : ℕ). (get_or pool t no_entry).key) (omega arith) ∙ l.key_at 0 (omega arith)

  head_next : (get_or pool i no_entry).next ≡ seek (get_bucket k) ks (i + 1)
  head_next =
      ap (λ (t : ℕ). (get_or pool t no_entry).next) (omega arith) ∙ l.next_at 0 (omega arith)

other_key : (k key : ℕ) → (get_bucket k == get_bucket key) ≡ false → (k == key) ≡ false
other_key k key other = elim (Bool-cases (k == key)) [
  | inl hit ↦ absurd (==-false _ _ other (ap get_bucket ((==_iff k key).0 hit)))
  | inr miss ↦ miss
]

-- The walk along the chain of the key's bucket ends as looking through all the keys does, and the
-- fuel suffices.
pub walk-scan :
    (fuel key : ℕ) (pool : List Entry) (ks : List ℕ) (i prev : ℕ)
    → IsLinked pool ks i
    → i + length ks ≤ poolsize
    → length ks < fuel
    → walk fuel key pool (seek (get_bucket key) ks i) prev ≡ some (scan key ks i prev)
unfolding walk seek scan
walk-scan zero key pool ks i prev l fits enough = absurd (omega arith)
walk-scan (suc fuel) key pool [] i prev l fits enough = refl
walk-scan (suc fuel) key pool (k ∷ ks) i prev l fits enough =
    elim (Bool-cases (get_bucket k == get_bucket key)) [
      | inl same ↦
          rw (same, not_null, head_key pool k ks i l)
            (elim (Bool-cases (k == key)) [
              | inl hit ↦ rw hit
              | inr miss ↦
                  rw (miss, head_next pool k ks i l, (==_iff _ _).0 same)
                    (walk-scan fuel key pool ks (i + 1) i (IsLinked-tail pool k ks i l)
                      (omega arith) (omega arith))
            ])
      | inr other ↦
          rw (other, other_key k key other)
            (walk-scan (suc fuel) key pool ks (i + 1) prev (IsLinked-tail pool k ks i l)
              (omega arith) (omega arith))
    ]
  where
    not_null : (i == nullindex) ≡ false
    not_null = ground arith
