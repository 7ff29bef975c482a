-- ===== src/HashTable/Tests.antt =====
-- Runs of ht_simplified.c, and the theorems at them.
use saw_script.Base.{ℕ, ◌≡◌, refl, List, [], ◌∷◌, replicate, some}
use saw_script.HashTable.{Table, Result, init_table, increment_value, hash}
use saw_script.HashTable.Counts.{Count, increment, IsTable}
use saw_script.HashTable.Run.{increment_value-increment, init_table-IsTable}
use saw_script.HashTable.Calls.{run, occurs, IsCounted, init_table-run}

-- Storage that holds anything.
abbrev storage : Table
storage = record {
  entry_pool = replicate 5 (record { key = 3; value = 7; next = 1 });
  buckets = 9 ∷ 9 ∷ [];
  cur_entry = 4;
}

hash_zero : hash 0 ≡ 2075347461
unfolding hash
hash_zero = refl

init_table-IsTable_example : IsTable (init_table storage) []
init_table-IsTable_example = init_table-IsTable storage refl refl

increment_value-increment_example :
    (r : Result) × (increment_value 42 (init_table storage) ≡ some r)
    × (r.value ≡ (increment 42 []).value)
    × IsTable r.table (increment 42 []).counts
increment_value-increment_example =
    increment_value-increment 42 (init_table storage) [] (init_table-IsTable storage refl refl)

-- Seven calls with one key, and more keys than there are slots.
abbrev keys : List ℕ
keys = 1 ∷ 1 ∷ 1 ∷ 1 ∷ 1 ∷ 1 ∷ 1 ∷ 2 ∷ 3 ∷ 4 ∷ 5 ∷ 6 ∷ []

init_table-run_example :
    (t' : Table) × (cs : List Count) × (run keys (init_table storage) ≡ some t')
    × IsTable t' cs
    × IsCounted cs (λ key. occurs key keys)
init_table-run_example = init_table-run keys storage refl refl
