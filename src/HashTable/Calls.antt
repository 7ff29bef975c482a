-- ===== src/HashTable/Calls.antt =====
-- `init_table` of ht_simplified.c, and then any sequence of calls of `increment_value`.
use mathlib.Core.Path.{fun_ext}
use saw_script.Base.{
  ℕ, ◌+◌, ◌≤◌, ◌≡◌, ◌⊎◌, ◌∙◌, inl, inr, refl, ap, subst, min, arith, List, [], ◌∷◌, ◌++◌, Option,
  none, some, length, if◌then◌else◌, ltb, ◌==◌, Bool-cases, ltb→lt, ltb-false, length-append,
}
use saw_script.HashTable.{Table, Result, poolsize, cap, init_table, increment_value}
use saw_script.HashTable.Counts.{
  Count, capped, count_of, raise, increment_found, increment, IsTable,
}
use saw_script.HashTable.Run.{init_table-IsTable, increment_value-increment}

-- A sequence of calls, with the table that the last one leaves.
unfoldable pub run : List ℕ → Table → Option Table
run [] t = some t
run (key ∷ keys) t = elim (increment_value key t) [ none ↦ none | some r ↦ run keys r.table ]

unfoldable pub occurs : ℕ → List ℕ → ℕ
occurs key [] = 0
occurs key (k ∷ ks) = occurs key ks + (if k == key then 1 else 0)

-- `past` says how often each key has been counted so far. A key with a slot has that count, up to
-- the cap; one without has not been seen, or all slots are in use.
pub record IsCounted (cs : List Count) (past : ℕ → ℕ) : Type 0 where
  pub tracked : (key n : ℕ) → count_of cs key ≡ some n → n ≡ min (past key) cap
  pub untracked : (key : ℕ) → count_of cs key ≡ none → (past key ≡ 0) ⊎ (length cs ≡ poolsize)
  pub bounded : length cs ≤ poolsize

count_of-raise :
    (k key n : ℕ) (cs : List Count)
    → count_of cs k ≡ some n
    → count_of (raise k cs) key ≡ (if k == key then some (capped n) else count_of cs key)
unfolding count_of raise
count_of-raise k key n [] e = absurd (apart e)
  where
    apart : none ≡ some n → ⊥
    apart h = cc
count_of-raise k key n (c ∷ cs) e = elim (Bool-cases (c.key == k)) [
  | inl hit ↦ ground (arith)
  | inr miss ↦ ground (arith, count_of-raise k key n cs)
]

length-raise : (k : ℕ) (cs : List Count) → length (raise k cs) ≡ length cs
unfolding raise
length-raise k [] = refl
length-raise k (c ∷ cs) = ground (arith, length-raise k cs)

count_of-end :
    (k key : ℕ) (cs : List Count)
    → count_of cs k ≡ none
    → count_of (cs ++ record { key = k; count = 1 } ∷ []) key
      ≡ (if k == key then some 1 else count_of cs key)
unfolding count_of
count_of-end k key [] e = refl
count_of-end k key (c ∷ cs) e = ground (arith, count_of-end k key cs)

abbrev next_past : ℕ → (ℕ → ℕ) → ℕ → ℕ
next_past k past key = past key + (if k == key then 1 else 0)

-- One call counts its key once more.
increment-IsCounted :
    (k : ℕ) (cs : List Count) (past : ℕ → ℕ)
    → IsCounted cs past
    → IsCounted (increment k cs).counts (next_past k past)
unfolding increment
increment-IsCounted k cs past c = by_count (count_of cs k) refl
  where
    by_count :
        (found : Option ℕ)
        → count_of cs k ≡ found
        → IsCounted (increment_found found k cs).counts (next_past k past)
    by_count (some n) e = record {
      tracked = λ key m h.
          ground (arith, count_of-raise k key n cs e, c.tracked key m, c.tracked k n e, e);
      untracked =
          λ key h. ground (arith, count_of-raise k key n cs e, c.untracked key, length-raise k cs);
      bounded = omega (arith, c.bounded, length-raise k cs);
    }
    by_count none e = elim (Bool-cases (ltb (length cs) poolsize)) [
      | inl room ↦ rw room (record {
        tracked =
            λ key m h. ground (arith, count_of-end k key cs e, c.tracked key m, c.untracked k e);
        untracked =
            λ key h. ground (arith, count_of-end k key cs e, c.untracked key, c.untracked k e);
        bounded =
            omega
              (arith, ltb→lt _ _ room, length-append {0} cs (record { key = k; count = 1 } ∷ []));
      })
      | inr full ↦ rw full (record {
        tracked = λ key m h. ground (arith, c.tracked key m, e);
        untracked = λ key h. inr (omega (arith, ltb-false _ _ full, c.bounded));
        bounded = c.bounded;
      })
    ]

IsCounted-empty : IsCounted [] (λ key. 0)
unfolding count_of
IsCounted-empty = record {
  tracked = λ key n h. cc;
  untracked = λ key h. inl refl;
  bounded = omega arith;
}

run-IsCounted :
    (keys : List ℕ) (t : Table) (cs : List Count) (past : ℕ → ℕ)
    → IsTable t cs
    → IsCounted cs past
    → (t' : Table) × (cs' : List Count) × (run keys t ≡ some t')
      × IsTable t' cs'
      × IsCounted cs' (λ key. past key + occurs key keys)
unfolding run occurs
run-IsCounted [] t cs past is c =
    (t, cs, refl, is, subst (IsCounted cs) (fun_ext (λ key. omega arith)) c)
run-IsCounted (k ∷ keys) t cs past is c =
    let step = increment_value-increment k t cs is in
    let rest =
      run-IsCounted keys step.0.table (increment k cs).counts (next_past k past) step.3
        (increment-IsCounted k cs past c) in
    (
      rest.0,
      rest.1,
      ap (λ (x : Option Result). elim x [ none ↦ none | some r ↦ run keys r.table ]) step.1
          ∙ rest.2,
      rest.3,
      subst (IsCounted rest.1) (fun_ext (λ key. omega arith)) rest.4,
    )

-- After `init_table`, all calls of `increment_value` return, whatever their keys. The table then
-- stands for counts of at most POOLSIZE keys: a key with a slot has the number of calls that were
-- made with it, up to CAP, and a key without one has not been given, or all slots are in use.
pub init_table-run :
    (keys : List ℕ) (t : Table)
    → length t.entry_pool ≡ poolsize
    → length t.buckets ≡ 2
    → (t' : Table) × (cs : List Count) × (run keys (init_table t) ≡ some t')
      × IsTable t' cs
      × IsCounted cs (λ key. occurs key keys)
init_table-run keys t pool buckets =
    let all =
      run-IsCounted keys (init_table t) [] (λ key. 0) (init_table-IsTable t pool buckets)
        IsCounted-empty in
    (all.0, all.1, all.2, all.3, subst (IsCounted all.1) (fun_ext (λ key. omega arith)) all.4)
