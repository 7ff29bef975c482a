-- ===== src/HashTable/Slot.antt =====
-- The slot that `increment_value` gives to a new key keeps the chains of ht_simplified.c.
use native.Mathlib.Decide.{ℕ_discrete, dec_lt}
use native.Mathlib.Nat.{zero-add}
use saw_script.Base.{
  ℕ, suc, ◌+◌, ◌≤◌, ◌<◌, ◌≡◌, ◌≢◌, ◌∙◌, inl, inr, refl, sym, ap, ap₂, arith, false, List, [], ◌∷◌,
  ◌++◌, length, get_or, set, drop, if◌then◌else◌, ◌==◌, Bool-cases, ==-false, ==_iff, length-set,
  length-append, length-drop, get_or-set_self, get_or-set_ne,
}
use saw_script.Base.Slices.{get_or-append_left, drop-append_left, drop_all, get_or-append_end}
use saw_script.HashTable.{Entry, Table, nullindex, poolsize, no_entry, get_bucket, new_slot}
use saw_script.HashTable.Search.{seek, IsLinked}
use saw_script.HashTable.Append.{
  last, seek-append, seek-last, last-seek, last_range, last_at, last_only,
}

-- The table holds these keys, in the order of their arrival.
pub record IsChained (t : Table) (ks : List ℕ) : Type 0 where
  pub pool_size : length t.entry_pool ≡ poolsize
  pub bucket_count : length t.buckets ≡ 2
  pub used : t.cur_entry ≡ length ks
  pub fits : length ks ≤ poolsize
  pub heads : (b : ℕ) → b < 2 → get_or t.buckets b 0 ≡ seek b ks 0
  pub links : IsLinked t.entry_pool ks 0

pub get_bucket-lt : (key : ℕ) → get_bucket key < 2
unfolding get_bucket
get_bucket-lt key = omega arith

-- The pool after the link to the new slot.
abbrev relinked : List Entry → ℕ → ℕ → List Entry
relinked pool p n =
    if p == nullindex then pool else set pool p (record (get_or pool p no_entry) { next = n })

module _ (pool : List Entry) (p n : ℕ) (in_pool : p ≢ nullindex → p < length pool) where
  length-relinked : length (relinked pool p n) ≡ length pool
  length-relinked = elim (Bool-cases (p == nullindex)) [
    | inl e ↦ rw e
    | inr e ↦ rw e (length-set pool p _)
  ]

  -- Any function of the entries that does not read the link.
  relinked-keeps :
      (g : Entry → ℕ)
      → ((e : Entry) (m : ℕ) → g (record e { next = m }) ≡ g e)
      → (j : ℕ) → g (get_or (relinked pool p n) j no_entry) ≡ g (get_or pool j no_entry)
  relinked-keeps g blind j = elim (Bool-cases (p == nullindex)) [
    | inl e ↦ rw e
    | inr e ↦ rw e (elim (ℕ_discrete p j) [
      | yes here ↦ rw (← here) (
          ap g (get_or-set_self pool p _ no_entry (in_pool (==-false _ _ e)))
          ∙ blind (get_or pool p no_entry) n)
      | no there ↦ ap g (get_or-set_ne pool p j _ no_entry there)
    ])
  ]

  relinked-next :
      (j : ℕ)
      → j < nullindex
      → (get_or (relinked pool p n) j no_entry).next
        ≡ (if p == j then n else (get_or pool j no_entry).next)
  relinked-next j small = elim (Bool-cases (p == nullindex)) [
    | inl e ↦ let other : (p == j) ≡ false = ground arith in rw (e, other)
    | inr e ↦ rw e (elim (ℕ_discrete p j) [
      | yes here ↦
          rw ((==_iff p j).1 here, ← here)
            (ap (λ (x : Entry). x.next)
              (get_or-set_self pool p _ no_entry (in_pool (==-false _ _ e))))
      | no there ↦
          let other : (p == j) ≡ false = ground arith in
          rw other (ap (λ (x : Entry). x.next) (get_or-set_ne pool p j _ no_entry there))
    ])
  ]

abbrev pub new_entry : ℕ → Entry
new_entry key = record { key = key; value = 1; next = nullindex }

module _ (key b p : ℕ) (t : Table) where
  new_slot-entry_pool :
      (new_slot key b p t).entry_pool
      ≡ set (relinked t.entry_pool p t.cur_entry) t.cur_entry (new_entry key)
  unfolding new_slot
  new_slot-entry_pool = elim (Bool-cases (p == nullindex)) [ inl e ↦ rw e | inr e ↦ rw e ]

  new_slot-buckets :
      (new_slot key b p t).buckets
      ≡ (if p == nullindex then set t.buckets b t.cur_entry else t.buckets)
  unfolding new_slot
  new_slot-buckets = elim (Bool-cases (p == nullindex)) [ inl e ↦ rw e | inr e ↦ rw e ]

  new_slot-cur_entry : (new_slot key b p t).cur_entry ≡ t.cur_entry + 1
  unfolding new_slot
  new_slot-cur_entry = refl

module _ (key : ℕ) (t : Table) (ks : List ℕ) (c : IsChained t ks)
    (room : length ks < poolsize) where
  abbrev pub p : ℕ
  p = last (get_bucket key) ks 0 nullindex

  in_pool : p ≢ nullindex → p < length t.entry_pool
  in_pool ne = omega (arith, c.pool_size, last_range (get_bucket key) ks 0 nullindex)

  -- The pool at an index of an old entry.
  old_keeps :
      (g : Entry → ℕ)
      → ((e : Entry) (m : ℕ) → g (record e { next = m }) ≡ g e)
      → (j : ℕ) → j < length ks
      → g (get_or (new_slot key (get_bucket key) p t).entry_pool j no_entry)
        ≡ g (get_or t.entry_pool j no_entry)
  old_keeps g blind j q =
      ap (λ (x : List Entry). g (get_or x j no_entry))
        (new_slot-entry_pool key (get_bucket key) p t)
      ∙ (ap g (
            get_or-set_ne (relinked t.entry_pool p t.cur_entry) t.cur_entry j (new_entry key)
              no_entry (omega (arith, c.used)))
          ∙ relinked-keeps t.entry_pool p t.cur_entry in_pool g blind j)

  old_key :
      (j : ℕ)
      → j < length ks
      → (get_or (new_slot key (get_bucket key) p t).entry_pool j no_entry).key ≡ get_or ks j 0
  old_key j q =
      old_keeps (λ (x : Entry). x.key) (λ e m. refl) j q
      ∙ (ap (λ (x : ℕ). (get_or t.entry_pool x no_entry).key) (omega arith) ∙ c.links.key_at j q)

  pub old_value :
      (j : ℕ)
      → j < length ks
      → (get_or (new_slot key (get_bucket key) p t).entry_pool j no_entry).value
        ≡ (get_or t.entry_pool j no_entry).value
  old_value j q = old_keeps (λ (x : Entry). x.value) (λ e m. refl) j q

  old_next :
      (j : ℕ)
      → j < length ks
      → (get_or (new_slot key (get_bucket key) p t).entry_pool j no_entry).next ≡ (
          if p == j then length ks else seek (get_bucket (get_or ks j 0)) (drop (suc j) ks) (suc j))
  old_next j q =
      ap (λ (x : List Entry). (get_or x j no_entry).next)
        (new_slot-entry_pool key (get_bucket key) p t)
      ∙ (ap (λ (x : Entry). x.next)
            (get_or-set_ne (relinked t.entry_pool p t.cur_entry) t.cur_entry j (new_entry key)
              no_entry (omega (arith, c.used)))
          ∙ (relinked-next t.entry_pool p t.cur_entry in_pool j (omega (arith, c.fits))
              ∙ ap₂ (λ (x y : ℕ). if p == j then x else y) c.used
                  (ap (λ (x : ℕ). (get_or t.entry_pool x no_entry).next) (omega arith)
                    ∙ (c.links.next_at j q
                        ∙ ap (seek (get_bucket (get_or ks j 0)) (drop (suc j) ks)) (omega arith)))))

  only :
      (j : ℕ)
      → j < length ks
      → get_bucket key ≡ get_bucket (get_or ks j 0)
      → seek (get_bucket (get_or ks j 0)) (drop (suc j) ks) (suc j) ≡ nullindex
      → p ≡ j
  only j q same n =
      last_only (get_bucket key) ks 0 nullindex j (omega arith) q (sym same)
        (ap₂ (λ (x y : ℕ). seek x (drop (suc j) ks) y) same (omega arith) ∙ n)
      ∙ omega arith

  -- The chain of a bucket behind the index `j`, with the new key.
  linked_next :
      (j : ℕ)
      → j < length ks
      → (if p == j then length ks else seek (get_bucket (get_or ks j 0)) (drop (suc j) ks) (suc j))
        ≡ seek (get_bucket (get_or ks j 0)) (drop (suc j) ks ++ key ∷ []) (suc j)
  linked_next j q =
      let left : suc j + length (drop (suc j) ks) ≡ length ks =
        omega (arith, length-drop (suc j) ks) in
      let appended =
        seek-append (get_bucket (get_or ks j 0)) key (drop (suc j) ks) (suc j)
          (omega (arith, left)) in
      elim (ℕ_discrete p j) [
        | yes here ↦
            let final =
              last_at (get_bucket key) ks 0 nullindex j (omega arith) q (here ∙ omega arith) in
            let none_left : seek (get_bucket (get_or ks j 0)) (drop (suc j) ks) (suc j)
                ≡ nullindex =
              ap₂ (λ (x y : ℕ). seek x (drop (suc j) ks) y) final.0 (omega arith) ∙ final.1 in
            ground (arith, appended, left, final.0)
        | no not_last ↦ elim (Bool-cases (get_bucket key == get_bucket (get_or ks j 0))) [
          | inl same ↦ ground (
            arith,
            appended,
            λ (n : seek (get_bucket (get_or ks j 0)) (drop (suc j) ks) (suc j) ≡ nullindex).
                not_last (only j q ((==_iff _ _).0 same) n),
          )
          | inr other ↦ ground (arith, appended)
        ]
      ]

  new_head :
      (b : ℕ)
      → b < 2
      → get_or (new_slot key (get_bucket key) p t).buckets b 0 ≡ seek b (ks ++ key ∷ []) 0
  new_head b q =
      let appended = seek-append b key ks 0 (omega arith) in
      ap (λ (x : List ℕ). get_or x b 0) (new_slot-buckets key (get_bucket key) p t)
      ∙ elim (Bool-cases (p == nullindex)) [
        | inl e ↦
            let empty : seek (get_bucket key) ks 0 ≡ nullindex =
              last-seek (get_bucket key) ks 0 nullindex (omega arith) ((==_iff _ _).0 e) in
            rw e (elim (ℕ_discrete (get_bucket key) b) [
              | yes same ↦
                  let empty' : seek b ks 0 ≡ nullindex =
                    ap (λ (x : ℕ). seek x ks 0) (sym same) ∙ empty in
                  let written : get_or (set t.buckets (get_bucket key) t.cur_entry) b 0
                      ≡ t.cur_entry =
                    ap (λ (x : ℕ). get_or (set t.buckets (get_bucket key) t.cur_entry) x 0)
                      (sym same)
                    ∙ get_or-set_self t.buckets (get_bucket key) t.cur_entry 0
                        (omega (arith, c.bucket_count)) in
                  written ∙ ground (arith, appended, c.used)
              | no other ↦
                  get_or-set_ne t.buckets (get_bucket key) b t.cur_entry 0 other
                  ∙ (c.heads b q ∙ ground (arith, appended))
            ])
        | inr e ↦ rw e (
            c.heads b q ∙ elim (ℕ_discrete (get_bucket key) b) [
              | yes same ↦
                  let used = λ (n : seek b ks 0 ≡ nullindex). ==-false _ _ e (
                    seek-last (get_bucket key) ks 0 nullindex (omega arith)
                      (ap (λ (x : ℕ). seek x ks 0) same ∙ n)) in
                  ground (arith, appended, used)
              | no other ↦ ground (arith, appended)
            ])
      ]

  -- The new slot.
  pub new_at :
      get_or (new_slot key (get_bucket key) p t).entry_pool (length ks) no_entry ≡ new_entry key
  new_at =
      ap₂ (λ (x : List Entry) (y : ℕ). get_or x y no_entry)
        (new_slot-entry_pool key (get_bucket key) p t) (sym c.used)
      ∙ get_or-set_self (relinked t.entry_pool p t.cur_entry) t.cur_entry (new_entry key) no_entry
          (omega (arith, c.used, c.pool_size, length-relinked t.entry_pool p t.cur_entry in_pool))

  old_link :
      (j : ℕ)
      → j < length ks
      → (get_or (new_slot key (get_bucket key) p t).entry_pool j no_entry).next
        ≡ seek (get_bucket (get_or (ks ++ key ∷ []) j 0)) (drop (suc j) (ks ++ key ∷ [])) (suc j)
  old_link j q =
      rw
        (
          get_or-append_left ks (key ∷ []) j 0 q,
          drop-append_left (suc j) ks (key ∷ []) (omega arith),
        )
        (old_next j q ∙ linked_next j q)

  new_link :
      (get_or (new_slot key (get_bucket key) p t).entry_pool (length ks) no_entry).next
      ≡ seek
          (get_bucket (get_or (ks ++ key ∷ []) (length ks) 0))
          (drop (suc (length ks)) (ks ++ key ∷ []))
          (suc (length ks))
  unfolding seek
  new_link =
      ap (λ (x : Entry). x.next) new_at
      ∙ ap
          (λ (x : List ℕ).
            seek (get_bucket (get_or (ks ++ key ∷ []) (length ks) 0)) x (suc (length ks)))
          (sym (
            drop_all (suc (length ks)) (ks ++ key ∷ [])
              (omega (arith, length-append {0} ks (key ∷ [])))))

  new_links : IsLinked (new_slot key (get_bucket key) p t).entry_pool (ks ++ key ∷ []) 0
  new_links = record {
    key_at = λ j q. elim (dec_lt j (length ks)) [
      | yes old ↦ rw (zero-add, get_or-append_left ks (key ∷ []) j 0 old) (old_key j old)
      | no new ↦
          let last_one : j ≡ length ks = omega (arith, length-append {0} ks (key ∷ [])) in
          rw (zero-add, last_one, get_or-append_end ks key) (ap (λ (x : Entry). x.key) new_at)
    ];
    next_at = λ j q. elim (dec_lt j (length ks)) [
      | yes old ↦ rw (zero-add, zero-add) (old_link j old)
      | no new ↦
          let last_one : j ≡ length ks = omega (arith, length-append {0} ks (key ∷ [])) in
          rw (zero-add, zero-add, last_one) new_link
    ];
  }

  -- The table holds the new key behind the others.
  pub new_slot-IsChained : IsChained (new_slot key (get_bucket key) p t) (ks ++ key ∷ [])
  new_slot-IsChained = record {
    pool_size =
        ap length (new_slot-entry_pool key (get_bucket key) p t)
        ∙ (length-set (relinked t.entry_pool p t.cur_entry) t.cur_entry (new_entry key)
            ∙ (length-relinked t.entry_pool p t.cur_entry in_pool ∙ c.pool_size));
    bucket_count =
        ap length (new_slot-buckets key (get_bucket key) p t) ∙ elim (Bool-cases (p == nullindex)) [
          | inl e ↦ rw e (length-set t.buckets (get_bucket key) t.cur_entry ∙ c.bucket_count)
          | inr e ↦ rw e c.bucket_count
        ];
    used =
        new_slot-cur_entry key (get_bucket key) p t
        ∙ omega (arith, c.used, length-append {0} ks (key ∷ []));
    fits = omega (arith, length-append {0} ks (key ∷ []));
    heads = new_head;
    links = new_links;
  }
