-- ===== src/HashTable.antt =====
-- intTests/test_hash_table/ht_simplified.c: a hash table of counters in a static pool of entries.
-- The two globals, the pool and `ptable`, are one record.
pub mod Search
pub mod Append
pub mod Slot
pub mod Counts
pub mod Refine
pub mod Run
pub mod Calls
mod Tests
use mathlib.Core.Option
use saw_script.Base.{
  ℕ, zero, suc, ◌+◌, ◌-◌, ◌*◌, ◌%◌, ◌^◌, List, [], ◌∷◌, Option, none, some, get_or, set, replicate,
  bit_and, shr, add, if◌then◌else◌, ltb, ◌==◌,
}

pub record Entry : Type 0 where
  pub key : ℕ
  pub value : ℕ
  pub next : ℕ

abbrev pub poolsize : ℕ
poolsize = 5

abbrev pub numbuckets : ℕ
numbuckets = 2

abbrev pub nullindex : ℕ
nullindex = 2 ^ 32 - 1

abbrev pub cap : ℕ
cap = 5

pub record Table : Type 0 where
  pub entry_pool : List Entry
  pub buckets : List ℕ
  pub cur_entry : ℕ

-- What a read out of the pool would give; the theorems show that there is none.
abbrev pub no_entry : Entry
no_entry = record { key = 0; value = 0; next = 0 }

bucket_loop : ℕ → ℕ → List ℕ → List ℕ
bucket_loop zero i buckets = buckets
bucket_loop (suc left) i buckets = bucket_loop left (i + 1) (set buckets i nullindex)

-- The pool is not touched.
unfoldable pub init_table : Table → Table
unfolding bucket_loop
init_table t = record t { cur_entry = 0; buckets = bucket_loop numbuckets 0 t.buckets }

hash_loop : ℕ → ℕ → ℕ → ℕ → ℕ
hash_loop v zero i h = h
hash_loop v (suc left) i h =
    let c = bit_and (shr v i) 0xff in hash_loop v left (i + 8) ((33 * h + c) % 2 ^ 32)

unfoldable pub hash : ℕ → ℕ
unfolding hash_loop
hash v = hash_loop v 8 0 5381

unfoldable pub get_bucket : ℕ → ℕ
unfolding hash
get_bucket key = hash key % numbuckets

-- How the loop ends: at the index of an entry with the key, or at the end of the chain, with the
-- last index that it has passed.
pub data Found : Type 0 where
  at : ℕ → Found
  absent : ℕ → Found

-- The loop of `increment_value` up to a match, on fuel; `none` means that the fuel ran out.
unfoldable pub walk : ℕ → ℕ → List Entry → ℕ → ℕ → Option Found
walk zero key pool cur_index prev_index = none
walk (suc fuel) key pool cur_index prev_index =
    let cur_entry = get_or pool cur_index no_entry in
    let rest = walk fuel key pool cur_entry.next cur_index in
    if cur_index == nullindex
    then some (absent prev_index)
    else if cur_entry.key == key
    then some (at cur_index)
    else rest

-- What a call returns, and the globals that it leaves.
pub record Result : Type 0 where
  pub value : ℕ
  pub table : Table

-- The branch for a key that has a slot.
unfoldable pub increment_slot : ℕ → Table → Result
increment_slot index t =
    let entry = get_or t.entry_pool index no_entry in
    let value = if ltb entry.value cap then entry.value + 1 else entry.value in
    record {
      value = value;
      table = record t { entry_pool = set t.entry_pool index (record entry { value = value }) };
    }

-- The writes for a key that gets a slot: the link to it, the count of used slots, the slot.
unfoldable pub new_slot : ℕ → ℕ → ℕ → Table → Table
new_slot key bucket prev_index t =
    let index = t.cur_entry in
    let prev_entry = get_or t.entry_pool prev_index no_entry in
    let t₁ =
      if prev_index == nullindex
      then record t { buckets = set t.buckets bucket index }
      else record t {
        entry_pool = set t.entry_pool prev_index (record prev_entry { next = index });
      } in
    record t₁ {
      cur_entry = index + 1;
      entry_pool = set t₁.entry_pool index (record { key = key; next = nullindex; value = 1 });
    }

unfoldable pub after_walk : ℕ → ℕ → Table → Found → Result
after_walk key bucket t (at index) = increment_slot index t
after_walk key bucket t (absent prev_index) =
    if ltb t.cur_entry poolsize
    then record { value = 1; table = new_slot key bucket prev_index t }
    else record { value = 0; table = t }

-- A chain has at most `poolsize` entries.
unfoldable pub increment_value : ℕ → Table → Option Result
increment_value key t =
    let bucket = get_bucket key in
    Option.map (after_walk key bucket t)
      (walk (poolsize + 1) key t.entry_pool (get_or t.buckets bucket 0) nullindex)
