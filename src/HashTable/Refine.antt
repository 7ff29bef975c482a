-- ===== src/HashTable/Refine.antt =====
-- The operations of ht_simplified.c against the counts that they stand for.
use native.Mathlib.Decide.{ℕ_discrete, dec_lt}
use saw_script.Base.{
  ℕ, zero, suc, ◌+◌, ◌<◌, ◌≡◌, ◌∙◌, refl, sym, ap, ap₂, arith, false, List, [], ◌∷◌, ◌++◌, length,
  get_or, set, if◌then◌else◌, ◌==◌, ==_iff, length-set, get_or-set_self, get_or-set_ne,
  length-append,
}
use saw_script.Base.Slices.{get_or-append_left}
use saw_script.HashTable.{
  Entry, Table, nullindex, poolsize, no_entry, get_bucket, increment_slot, new_slot,
}
use saw_script.HashTable.Append.{last}
use saw_script.HashTable.Slot.{IsChained, new_slot-IsChained, old_value, new_at}
use saw_script.HashTable.Counts.{Count, no_count, capped, keys_of, IsTable, length-keys_of}

keys_of-set :
    (cs : List Count) (j v : ℕ)
    → keys_of (set cs j (record (get_or cs j no_count) { count = v })) ≡ keys_of cs
keys_of-set [] j v = refl
keys_of-set (c ∷ cs) zero v = refl
keys_of-set (c ∷ cs) (suc j) v = ap (λ t. c.key ∷ t) (keys_of-set cs j v)

get_or-end : (cs : List Count) (c : Count) → get_or (cs ++ c ∷ []) (length cs) no_count ≡ c
get_or-end [] c = refl
get_or-end (d ∷ cs) c = get_or-end cs c

module _ (pool : List Entry) (j v : ℕ) where
  abbrev stored : List Entry
  stored = set pool j (record (get_or pool j no_entry) { value = v })

  stored_rest :
      (i : ℕ)
      → j < length pool
      → ((get_or stored i no_entry).key ≡ (get_or pool i no_entry).key)
        × ((get_or stored i no_entry).next ≡ (get_or pool i no_entry).next)
        × ((get_or stored i no_entry).value
            ≡ (if j == i then v else (get_or pool i no_entry).value))
  stored_rest i inside = elim (ℕ_discrete j i) [
    | yes here ↦
        let written =
          get_or-set_self pool j (record (get_or pool j no_entry) { value = v }) no_entry inside in
        rw ((==_iff j i).1 here, ← here, written) (refl, refl, refl)
    | no there ↦
        let kept =
          get_or-set_ne pool j i (record (get_or pool j no_entry) { value = v }) no_entry there in
        let other : (j == i) ≡ false = ground arith in rw (other, kept) (refl, refl, refl)
  ]

module _ (t : Table) (cs : List Count) (is : IsTable t cs) where
  inside_pool : (j : ℕ) → j < length cs → j < length t.entry_pool
  inside_pool j p = omega (arith, is.chained.pool_size, is.chained.fits, length-keys_of cs)

  pub slot_value :
      (j : ℕ) → j < length cs → (increment_slot j t).value ≡ capped (get_or cs j no_count).count
  unfolding increment_slot
  slot_value j p = ap capped (is.values j p)

  slot-IsChained : (j : ℕ) → j < length cs → IsChained (increment_slot j t).table (keys_of cs)
  unfolding increment_slot
  slot-IsChained j p = record {
    pool_size = length-set t.entry_pool j _ ∙ is.chained.pool_size;
    bucket_count = is.chained.bucket_count;
    used = is.chained.used;
    fits = is.chained.fits;
    heads = is.chained.heads;
    links = record {
      key_at = λ i q.
          (stored_rest t.entry_pool j _ (0 + i) (inside_pool j p)).0 ∙ is.chained.links.key_at i q;
      next_at = λ i q.
          (stored_rest t.entry_pool j _ (0 + i) (inside_pool j p)).1 ∙ is.chained.links.next_at i q;
    };
  }

  slot_stored :
      (j i : ℕ)
      → j < length cs
      → i < length cs
      → (get_or (increment_slot j t).table.entry_pool i no_entry).value
        ≡ (if j == i then capped (get_or cs j no_count).count else (get_or cs i no_count).count)
  unfolding increment_slot
  slot_stored j i p q =
      (stored_rest t.entry_pool j _ i (inside_pool j p)).2
      ∙ ap₂ (λ (x y : ℕ). if j == i then x else y) (ap capped (is.values j p)) (is.values i q)

  pub slot-IsTable :
      (j : ℕ)
      → j < length cs
      → IsTable
          (increment_slot j t).table
          (set cs j (record (get_or cs j no_count) { count = capped (get_or cs j no_count).count }))
  slot-IsTable j p = record {
    chained = rw (keys_of-set cs j (capped (get_or cs j no_count).count)) (slot-IsChained j p);
    values = λ i q.
        let old : i < length cs = omega (
          arith,
          length-set cs j
              (record (get_or cs j no_count) { count = capped (get_or cs j no_count).count }),
        ) in
        slot_stored j i p old ∙ at_index i old;
  }
    where
      at_index :
          (i : ℕ)
          → i < length cs
          → (if j == i then capped (get_or cs j no_count).count else (get_or cs i no_count).count)
            ≡ (get_or
                (set cs j
                  (record (get_or cs j no_count) { count = capped (get_or cs j no_count).count }))
                i
                no_count).count
      at_index i q = elim (ℕ_discrete j i) [
        | yes here ↦
            let written =
              get_or-set_self cs j
                (record (get_or cs j no_count) { count = capped (get_or cs j no_count).count })
                no_count p in
            rw ((==_iff j i).1 here, ← here, written)
        | no there ↦
            let kept =
              get_or-set_ne cs j i
                (record (get_or cs j no_count) { count = capped (get_or cs j no_count).count })
                no_count there in
            let other : (j == i) ≡ false = ground arith in rw (other, kept)
      ]

  keys_of-end :
      (cs : List Count) (key : ℕ)
      → keys_of (cs ++ record { key = key; count = 1 } ∷ []) ≡ keys_of cs ++ key ∷ []
  keys_of-end [] key = refl
  keys_of-end (d ∷ ds) key = ap (λ r. d.key ∷ r) (keys_of-end ds key)

  pub slot_new-IsTable :
      (key : ℕ)
      → length cs < poolsize
      → IsTable
          (new_slot key (get_bucket key) (last (get_bucket key) (keys_of cs) 0 nullindex) t)
          (cs ++ record { key = key; count = 1 } ∷ [])
  slot_new-IsTable key room =
      let room' : length (keys_of cs) < poolsize = omega (arith, length-keys_of cs) in
      record {
        chained = rw (keys_of-end cs key) (new_slot-IsChained key t (keys_of cs) is.chained room');
        values = λ j q. elim (dec_lt j (length cs)) [
          | yes old ↦
              old_value key t (keys_of cs) is.chained room' j (omega (arith, length-keys_of cs))
              ∙ (is.values j old
                  ∙ ap (λ (x : Count). x.count)
                      (sym (
                        get_or-append_left cs (record { key = key; count = 1 } ∷ []) j no_count
                          old)))
          | no new ↦
              let last_one : j ≡ length cs =
                omega (arith, length-append {0} cs (record { key = key; count = 1 } ∷ [])) in
              let index : j ≡ length (keys_of cs) = last_one ∙ sym (length-keys_of cs) in
              ap
                (λ (x : ℕ).
                  (get_or
                    (new_slot key (get_bucket key) (last (get_bucket key) (keys_of cs) 0 nullindex)
                      t).entry_pool
                    x no_entry).value)
                index
              ∙ (ap (λ (x : Entry). x.value) (new_at key t (keys_of cs) is.chained room')
                  ∙ (sym (
                        ap (λ (x : Count). x.count)
                          (get_or-end cs (record { key = key; count = 1 })))
                      ∙ ap
                          (λ (x : ℕ).
                            (get_or (cs ++ record { key = key; count = 1 } ∷ []) x no_count).count)
                          (sym last_one)))
        ];
      }
