-- ===== src/HashTable/Counts.antt =====
-- What the table of ht_simplified.c promises: a map from keys to counts that stop at CAP, which has
-- room for POOLSIZE keys. The operations of the code refine it.
use saw_script.Base.{
  ℕ, zero, suc, ◌+◌, ◌<◌, ◌≡◌, ◌∙◌, inl, inr, refl, ap, arith, List, [], ◌∷◌, ◌++◌, map, Option,
  none, some, length, get_or, set, if◌then◌else◌, ltb, ◌==◌, Bool-cases,
}
use saw_script.HashTable.{Table, poolsize, cap, no_entry, at, absent}
use saw_script.HashTable.Search.{scan}
use saw_script.HashTable.Slot.{IsChained}

pub record Count : Type 0 where
  pub key : ℕ
  pub count : ℕ

abbrev pub no_count : Count
no_count = record { key = 0; count = 0 }

-- One more, up to the cap.
abbrev pub capped : ℕ → ℕ
capped n = if ltb n cap then n + 1 else n

unfoldable pub count_of : List Count → ℕ → Option ℕ
count_of [] key = none
count_of (c ∷ cs) key = if c.key == key then some c.count else count_of cs key

unfoldable pub raise : ℕ → List Count → List Count
raise key [] = []
raise key (c ∷ cs) =
    if c.key == key then record c { count = capped c.count } ∷ cs else c ∷ raise key cs

pub record Incremented : Type 0 where
  pub value : ℕ
  pub counts : List Count

unfoldable pub increment_found : Option ℕ → ℕ → List Count → Incremented
increment_found (some n) key cs = record { value = capped n; counts = raise key cs }
increment_found none key cs =
    if ltb (length cs) poolsize
    then record { value = 1; counts = cs ++ record { key = key; count = 1 } ∷ [] }
    else record { value = 0; counts = cs }

-- A key that is there is counted; a new one is taken in while there is room, and 0 tells that there
-- is none.
unfoldable pub increment : ℕ → List Count → Incremented
unfolding increment_found
increment key cs = increment_found (count_of cs key) key cs

abbrev pub keys_of : List Count → List ℕ
keys_of cs = map (λ c. c.key) cs

-- The table stands for the counts.
pub record IsTable (t : Table) (cs : List Count) : Type 0 where
  pub chained : IsChained t (keys_of cs)
  pub values :
      (j : ℕ)
      → j < length cs
      → (get_or t.entry_pool j no_entry).value ≡ (get_or cs j no_count).count

pub length-keys_of : (cs : List Count) → length (keys_of cs) ≡ length cs
length-keys_of [] = refl
length-keys_of (c ∷ cs) = ap suc (length-keys_of cs)

pub get_or-keys_of :
    (cs : List Count) (j : ℕ) → j < length cs → get_or (keys_of cs) j 0 ≡ (get_or cs j no_count).key
get_or-keys_of [] j p = absurd (omega arith)
get_or-keys_of (c ∷ cs) zero p = refl
get_or-keys_of (c ∷ cs) (suc j) p = get_or-keys_of cs j (omega arith)

-- A key that is found at index `i + j`.
pub record IsAt (key : ℕ) (cs : List Count) (i x : ℕ) : Type 0 where
  pub j : ℕ
  pub index : x ≡ i + j
  pub inside : j < length cs
  pub counted : count_of cs key ≡ some (get_or cs j no_count).count
  pub raised :
      raise key cs
      ≡ set cs j (record (get_or cs j no_count) { count = capped (get_or cs j no_count).count })

pub scan-IsAt :
    (key : ℕ) (cs : List Count) (i prev x : ℕ)
    → scan key (keys_of cs) i prev ≡ at x
    → IsAt key cs i x
unfolding scan count_of raise
scan-IsAt key [] i prev x e = absurd (apart e)
  where
    apart : absent prev ≡ at x → ⊥
    apart h = cc
scan-IsAt key (c ∷ cs) i prev x e = elim (Bool-cases (c.key == key)) [
  | inl hit ↦ record {
    j = 0;
    index = index_of (rw hit at e) ∙ omega arith;
    inside = omega arith;
    counted = rw hit refl;
    raised = rw hit refl;
  }
  | inr miss ↦
      let rest = scan-IsAt key cs (i + 1) _ x (rw miss at e) in
      record {
        j = suc rest.j;
        index = rest.index ∙ omega arith;
        inside = omega (arith, rest.inside);
        counted = rw miss rest.counted;
        raised = rw miss (ap (λ t. c ∷ t) rest.raised);
      }
]
  where
    index_of : at i ≡ at x → x ≡ i
    index_of h = cc

pub scan-absent :
    (key : ℕ) (cs : List Count) (i prev p : ℕ)
    → scan key (keys_of cs) i prev ≡ absent p
    → count_of cs key ≡ none
unfolding scan count_of
scan-absent key [] i prev p e = refl
scan-absent key (c ∷ cs) i prev p e = elim (Bool-cases (c.key == key)) [
  | inl hit ↦ absurd (apart (rw hit at e))
  | inr miss ↦ rw miss (scan-absent key cs (i + 1) _ p (rw miss at e))
]
  where
    apart : at i ≡ absent p → ⊥
    apart h = cc
