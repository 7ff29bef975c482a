-- ===== src/Sha512/Padding.antt =====
-- The blocks that `SHA512_Final` makes in the buffer are the end of the padded message.
use native.Mathlib.Numerals.{add-one}
use mathlib.Core.List.{append-nil, append_assoc}
use saw_script.Base.{
  ℕ, ◌+◌, ◌-◌, ◌*◌, ◌/◌, ◌%◌, ◌≤◌, ◌<◌, ◌≡◌, refl, sym, ap, ap₂, ◌∙◌, arith, List, [], ◌∷◌, ◌++◌,
  length, set, take, drop, replicate, length-append, length-take, length-drop, length-set,
  length-replicate, ltb, ltb→lt, ltb-false, Bool-cases, inl, inr,
}
use saw_script.Base.Slices.{
  take-append_exact, take-append_add, take_all, drop_all, take-set, replicate-append,
}
use saw_script.Sha512.Words.{store_u64_be, host_bytes}
use saw_script.Sha512.Constants.{initial_hash}
use saw_script.Sha512.Rounds.{block_data_order}
use saw_script.Sha512.Blocks.{block_data_order-append}
use saw_script.Sha512.Spec.{length_bytes, padding, padded}
use saw_script.Sha512.Context.{Ctx, memcpy, memset, pad_buffer}
use saw_script.Sha512.Streaming.{Represents, length-memcpy, take-memcpy}

length-store_u64_be : (v : ℕ) → length (store_u64_be v) ≡ 8
unfolding store_u64_be host_bytes
length-store_u64_be v = refl

module _ (dst : List ℕ) (at v n : ℕ) (room : at + n ≤ length dst) where
  length-memset : length (memset dst at v n) ≡ length dst
  length-memset = omega (
    arith,
    length-append (take at dst) (replicate n v ++ drop (at + n) dst),
    length-append (replicate n v) (drop (at + n) dst),
    length-take at dst,
    length-replicate n v,
    length-drop (at + n) dst,
  )

  take-memset : take (at + n) (memset dst at v n) ≡ take at dst ++ replicate n v
  take-memset =
      take-append_add n at (take at dst) (replicate n v ++ drop (at + n) dst)
        (omega (arith, length-take at dst))
      ∙ ap (λ t. take at dst ++ t)
          (take-append_exact n (replicate n v) (drop (at + n) dst)
            (omega (arith, length-replicate n v)))

-- The last block: what precedes the length, and the length.
last_block :
    (p front hi lo : List ℕ)
    → length p ≡ 128
    → take 112 p ≡ front
    → length hi ≡ 8
    → length lo ≡ 8
    → memcpy (memcpy p 112 hi 8) 120 lo 8 ≡ front ++ (hi ++ lo)
last_block p front hi lo size begins eh el =
    ap₂ ◌++◌
      (take-memcpy p hi 112 8 (omega arith) (omega arith)
        ∙ ap₂ ◌++◌ begins (take_all 8 hi (omega arith)))
      (ap₂ ◌++◌ (take_all 8 lo (omega arith)) (
        drop_all 128 (memcpy p 112 hi 8)
          (omega (arith, length-memcpy p hi 112 8 (omega arith) (omega arith)))))
    ∙ (ap (λ t. (front ++ hi) ++ t) (append-nil lo) ∙ append_assoc front hi lo)

-- A padded message that ends in `j` blocks after those that are hashed.
hash_tail :
    (m full tail : List ℕ) (blocks j : ℕ)
    → padded m ≡ full ++ tail
    → length full ≡ 128 * blocks
    → length tail ≡ 128 * j
    → block_data_order (block_data_order initial_hash full blocks) tail j
      ≡ block_data_order initial_hash (padded m) (length (padded m) / 128)
hash_tail m full tail blocks j e ef et =
    sym (block_data_order-append blocks j initial_hash full tail ef)
    ∙ ap₂ (λ t u. block_data_order initial_hash t u) (sym e) count
  where
    count : blocks + j ≡ length (padded m) / 128
    count = omega (arith, ap length e, length-append full tail)

module _ (m : List ℕ) (c : Ctx) (v : Represents m c) where
  open v use {holds, counts}

  marked : List ℕ
  marked = set c.p c.num 0x80

  length-marked : length marked ≡ 128
  unfolding marked
  length-marked = length-set c.p c.num 0x80 ∙ holds.buffer

  hi : List ℕ
  hi = store_u64_be c.nh

  lo : List ℕ
  lo = store_u64_be c.nl

  take-marked : take (c.num + 1) marked ≡ holds.part ++ (0x80 ∷ [])
  unfolding marked
  take-marked = rw (add-one c.num) (
      take-set c.num c.p 0x80 (omega (arith, holds.buffer, holds.part_short))
      ∙ ap (λ t. t ++ (0x80 ∷ [])) holds.pending)

  -- The message ends in `num` bytes that are not hashed yet.
  length-message : length m ≡ 128 * holds.blocks + c.num
  length-message = omega (
    arith,
    ap length holds.split,
    length-append holds.full holds.part,
    holds.full_size,
    holds.part_size,
  )

  length_bytes-eq : length_bytes (length m) ≡ hi ++ lo
  unfolding hi lo
  length_bytes-eq = ap₂ (λ t u. store_u64_be t ++ store_u64_be u) (sym counts.high) (sym counts.low)

  -- The padded message with `k` zeros.
  padded-eq :
      (k : ℕ)
      → (239 - c.num) % 128 ≡ k
      → padded m ≡ holds.full ++ ((holds.part ++ (0x80 ∷ [])) ++ (replicate k 0 ++ (hi ++ lo)))
  padded-eq k e =
      ap (λ t. t ++ padding (length m)) holds.split
      ∙ (append_assoc holds.full holds.part (padding (length m))
          ∙ ap (λ t. holds.full ++ t)
              (ap₂ (λ n l. holds.part ++ (0x80 ∷ (replicate n 0 ++ l))) zeros length_bytes-eq
                ∙ sym (append_assoc holds.part (0x80 ∷ []) (replicate k 0 ++ (hi ++ lo)))))
    where
      zeros : (239 - length m % 128) % 128 ≡ k
      zeros = omega (arith, length-message)

  last_bytes : List ℕ → List ℕ
  last_bytes p = memcpy (memcpy p 112 hi 8) 120 lo 8

  last_bytes-eq :
      (p front : List ℕ) → length p ≡ 128 → take 112 p ≡ front → last_bytes p ≡ front ++ (hi ++ lo)
  unfolding last_bytes hi lo
  last_bytes-eq p front size begins =
      last_block p front hi lo size begins (length-store_u64_be c.nh) (length-store_u64_be c.nl)

  length-last_bytes : (p : List ℕ) → length p ≡ 128 → length (last_bytes p) ≡ 128
  unfolding last_bytes hi lo
  length-last_bytes p size =
      length-memcpy (memcpy p 112 hi 8) lo 120 8 (omega (arith, first))
        (omega (arith, length-store_u64_be c.nl))
      ∙ (first ∙ size)
    where
      first : length (memcpy p 112 hi 8) ≡ length p
      first = length-memcpy p hi 112 8 (omega arith) (omega (arith, length-store_u64_be c.nh))

  -- There is room for the length behind the marker.
  pad_calm :
      (c.num + 1 ≤ 112)
      → block_data_order c.h (last_bytes (memset marked (c.num + 1) 0 (112 - (c.num + 1)))) 1
        ≡ block_data_order initial_hash (padded m) (length (padded m) / 128)
  pad_calm room =
      ap (λ t. block_data_order t (last_bytes p₁) 1) holds.hash
      ∙ hash_tail m holds.full (last_bytes p₁) holds.blocks 1 padded_tail holds.full_size
          (length-last_bytes p₁ size)
    where
      k : ℕ
      k = 112 - (c.num + 1)

      p₁ : List ℕ
      p₁ = memset marked (c.num + 1) 0 k

      size : length p₁ ≡ 128
      size = length-memset marked (c.num + 1) 0 k (omega (arith, length-marked)) ∙ length-marked

      begins : take 112 p₁ ≡ (holds.part ++ (0x80 ∷ [])) ++ replicate k 0
      begins =
          let whole : 112 ≡ c.num + 1 + k = omega arith in
          ap (λ (t : ℕ). take t p₁) whole
          ∙ (take-memset marked (c.num + 1) 0 k (omega (arith, length-marked))
              ∙ ap (λ t. t ++ replicate k 0) take-marked)

      padded_tail : padded m ≡ holds.full ++ last_bytes p₁
      padded_tail =
          padded-eq k (omega arith)
          ∙ ap (λ t. holds.full ++ t)
              (sym (
                last_bytes-eq p₁ _ size begins
                ∙ append_assoc (holds.part ++ (0x80 ∷ [])) (replicate k 0) (hi ++ lo)))

  -- The length needs a block of its own.
  pad_crowded :
      112 < c.num + 1
      → let first = memset marked (c.num + 1) 0 (128 - (c.num + 1)) in
        block_data_order (block_data_order c.h first 1) (last_bytes (memset first 0 0 112)) 1
        ≡ block_data_order initial_hash (padded m) (length (padded m) / 128)
  pad_crowded over =
      sym (block_data_order-append 1 1 c.h first (last_bytes p₁) first_size)
      ∙ (ap (λ t. block_data_order t (first ++ last_bytes p₁) 2) holds.hash
          ∙ hash_tail m holds.full (first ++ last_bytes p₁) holds.blocks 2 padded_tail
              holds.full_size
              (omega (
                arith,
                length-append first (last_bytes p₁),
                first_size,
                length-last_bytes p₁ size,
              )))
    where
      k : ℕ
      k = 128 - (c.num + 1)

      first : List ℕ
      first = memset marked (c.num + 1) 0 k

      first_size : length first ≡ 128
      first_size =
          length-memset marked (c.num + 1) 0 k (omega (arith, length-marked, holds.part_short))
          ∙ length-marked

      first-eq : first ≡ (holds.part ++ (0x80 ∷ [])) ++ replicate k 0
      first-eq =
          let whole : 128 ≡ c.num + 1 + k = omega (arith, holds.part_short) in
          sym (take_all 128 first (omega (arith, first_size)))
          ∙ (ap (λ (t : ℕ). take t first) whole
              ∙ (take-memset marked (c.num + 1) 0 k (omega (arith, length-marked, holds.part_short))
                  ∙ ap (λ t. t ++ replicate k 0) take-marked))

      p₁ : List ℕ
      p₁ = memset first 0 0 112

      size : length p₁ ≡ 128
      size = length-memset first 0 0 112 (omega (arith, first_size)) ∙ first_size

      last-eq : last_bytes p₁ ≡ replicate 112 0 ++ (hi ++ lo)
      last-eq =
          last_bytes-eq p₁ (replicate 112 0) size
            (take-memset first 0 0 112 (omega (arith, first_size)))

      zeros : replicate (k + 112) 0 ++ (hi ++ lo) ≡ replicate k 0 ++ (replicate 112 0 ++ (hi ++ lo))
      zeros =
          ap (λ t. t ++ (hi ++ lo)) (sym (replicate-append k 112 0))
          ∙ append_assoc (replicate k 0) (replicate 112 0) (hi ++ lo)

      padded_tail : padded m ≡ holds.full ++ (first ++ last_bytes p₁)
      padded_tail =
          padded-eq (k + 112) (omega (arith, holds.part_short))
          ∙ ap (λ t. holds.full ++ t)
              (ap (λ t. (holds.part ++ (0x80 ∷ [])) ++ t) zeros
                ∙ (sym (
                      append_assoc (holds.part ++ (0x80 ∷ [])) (replicate k 0)
                        (replicate 112 0 ++ (hi ++ lo)))
                    ∙ ap₂ ◌++◌ (sym first-eq) (sym last-eq)))

  -- The state after the padding is the hash of the padded message.
  pub pad_buffer-hash :
      (pad_buffer c).h ≡ block_data_order initial_hash (padded m) (length (padded m) / 128)
  unfolding pad_buffer marked last_bytes hi lo
  pad_buffer-hash = elim (Bool-cases (ltb 112 (c.num + 1))) [
    | inl over ↦ rw over (pad_crowded (ltb→lt _ _ over))
    | inr room ↦ rw room (pad_calm (ltb-false _ _ room))
  ]

pub pad_buffer-md_len : (c : Ctx) → (pad_buffer c).md_len ≡ c.md_len
unfolding pad_buffer
pad_buffer-md_len c = refl
