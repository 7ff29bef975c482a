-- ===== src/HashTable/Run.antt =====
-- `init_table` of ht_simplified.c, and one call of `increment_value`.
use mathlib.Core.Option
use native.Mathlib.Decide.{ℕ_discrete}
use saw_script.Base.{
  ℕ, ◌+◌, ◌≡◌, ◌∙◌, inl, inr, refl, ap, arith, List, [], Option, some, length, get_or, set, ltb,
  Bool-cases, ltb→lt, length-set, get_or-set_self, get_or-set_ne,
}
use saw_script.HashTable.{
  Table, Result, nullindex, poolsize, get_bucket, init_table, Found, at, absent, walk, after_walk,
  increment_value,
}
use saw_script.HashTable.Search.{scan, seek, walk-scan}
use saw_script.HashTable.Append.{last_of_absent}
use saw_script.HashTable.Slot.{get_bucket-lt}
use saw_script.HashTable.Counts.{
  Count, increment, keys_of, IsTable, scan-IsAt, scan-absent, length-keys_of,
}
use saw_script.HashTable.Refine.{slot_value, slot-IsTable, slot_new-IsTable}

-- After `init_table` the table stands for no counts, whatever the pool holds.
pub init_table-IsTable :
    (t : Table) → length t.entry_pool ≡ poolsize → length t.buckets ≡ 2 → IsTable (init_table t) []
unfolding init_table seek
init_table-IsTable t pool buckets = record {
  chained = record {
    pool_size = pool;
    bucket_count =
        length-set (set t.buckets 0 nullindex) 1 nullindex
        ∙ (length-set t.buckets 0 nullindex ∙ buckets);
    used = refl;
    fits = omega arith;
    heads = λ b q. elim (ℕ_discrete b 1) [
      | yes one ↦ rw one (
          get_or-set_self (set t.buckets 0 nullindex) 1 nullindex 0
            (omega (arith, length-set t.buckets 0 nullindex)))
      | no other ↦
          let first : b ≡ 0 = omega arith in
          rw first (
            get_or-set_ne (set t.buckets 0 nullindex) 1 0 nullindex 0 (λ h. absurd (omega arith))
            ∙ get_or-set_self t.buckets 0 nullindex 0 (omega arith))
    ];
    links = record { key_at = λ j p. absurd (omega arith); next_at = λ j p. absurd (omega arith) };
  };
  values = λ j p. absurd (omega arith);
}

module _ (key : ℕ) (t : Table) (cs : List Count) (is : IsTable t cs) where
  walked :
      walk (poolsize + 1) key t.entry_pool (get_or t.buckets (get_bucket key) 0) nullindex
      ≡ some (scan key (keys_of cs) 0 nullindex)
  walked =
      ap (λ (x : ℕ). walk (poolsize + 1) key t.entry_pool x nullindex)
        (is.chained.heads (get_bucket key) (get_bucket-lt key))
      ∙ walk-scan (poolsize + 1) key t.entry_pool (keys_of cs) 0 nullindex is.chained.links
          (omega (arith, is.chained.fits)) (omega (arith, is.chained.fits))

  -- What a call makes of the end of the walk.
  after :
      (found : Found)
      → scan key (keys_of cs) 0 nullindex ≡ found
      → ((after_walk key (get_bucket key) t found).value ≡ (increment key cs).value)
        × IsTable (after_walk key (get_bucket key) t found).table (increment key cs).counts
  unfolding after_walk increment
  after (at x) e =
      let hit = scan-IsAt key cs 0 nullindex x e in
      let index : x ≡ hit.j = hit.index ∙ omega arith in
      rw (index, hit.counted, hit.raised)
        (slot_value t cs is hit.j hit.inside, slot-IsTable t cs is hit.j hit.inside)
  after (absent p) e =
      let missing = scan-absent key cs 0 nullindex p e in
      let end = last_of_absent key (keys_of cs) 0 nullindex p e in
      let count : t.cur_entry ≡ length cs = is.chained.used ∙ length-keys_of cs in
      let same : ltb t.cur_entry poolsize ≡ ltb (length cs) poolsize =
        ap (λ (x : ℕ). ltb x poolsize) count in
      rw (missing, end)
        (elim (Bool-cases (ltb (length cs) poolsize)) [
          | inl room ↦ rw (same ∙ room, room) (refl, slot_new-IsTable t cs is key (ltb→lt _ _ room))
          | inr full ↦ rw (same ∙ full, full) (refl, is)
        ])

  -- A call of `increment_value` on a table returns: the fuel suffices. It returns the count of the
  -- key after the call, or 0 if there is no room for a new key, and the table stands for the new
  -- counts.
  pub increment_value-increment :
      (r : Result) × (increment_value key t ≡ some r)
      × (r.value ≡ (increment key cs).value)
      × IsTable r.table (increment key cs).counts
  unfolding increment_value
  increment_value-increment =
      let found : Found = scan key (keys_of cs) 0 nullindex in
      let done = after found refl in
      (
        after_walk key (get_bucket key) t found,
        ap (λ (x : Option Found). Option.map (after_walk key (get_bucket key) t) x) walked,
        done.0,
        done.1,
      )
