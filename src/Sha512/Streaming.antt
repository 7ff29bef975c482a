-- ===== src/Sha512/Streaming.antt =====
-- `SHA512_Update` against the message that it has been given so far.
use native.Mathlib.Nat.{zero-add}
use mathlib.Core.List.{append-nil, append_assoc}
use saw_script.Base.{
  ℕ, ◌+◌, ◌-◌, ◌*◌, ◌/◌, ◌%◌, ◌^◌, ◌≤◌, ◌<◌, ◌≡◌, refl, sym, ap, ap₂, subst, ◌∙◌, arith, List, [],
  ◌++◌, length, take, drop, length-append, length-take, length-drop, take-append-drop, add, sub,
  shl, shr, if◌then◌else◌, ltb, ltb→lt, ltb-false, leb, leb-false, ◌==◌, ==_iff, ==-false,
  Bool-cases, inl, inr,
}
use saw_script.Base.Slices.{take-append_exact, take-append_add, take_all, drop_all}
use saw_script.Sha512.Constants.{initial_hash}
use saw_script.Sha512.Rounds.{block_data_order}
use saw_script.Sha512.Blocks.{block_data_order-append, block_data_order-take}
use saw_script.Sha512.Context.{Ctx, memcpy, init, count_bits, absorb, fill, update}

-- The context has hashed the whole blocks of the message `m`, and its buffer holds the rest.
pub record Holds (m : List ℕ) (c : Ctx) : Type 0 where
  pub full : List ℕ
  pub part : List ℕ
  pub blocks : ℕ
  pub split : m ≡ full ++ part
  pub full_size : length full ≡ 128 * blocks
  pub part_size : length part ≡ c.num
  pub part_short : c.num < 128
  pub hash : c.h ≡ block_data_order initial_hash full blocks
  pub buffer : length c.p ≡ 128
  pub pending : take c.num c.p ≡ part

-- Its counters hold the number of bits, modulo `2 ^ 128`.
pub record Counts (m : List ℕ) (c : Ctx) : Type 0 where
  pub low : c.nl ≡ 8 * length m % 2 ^ 64
  pub high : c.nh ≡ 8 * length m / 2 ^ 64 % 2 ^ 64
  pub md : c.md_len ≡ 64

module _ (dst src : List ℕ) (at n : ℕ) (room : at + n ≤ length dst) (enough : n ≤ length src) where
  pub length-memcpy : length (memcpy dst at src n) ≡ length dst
  length-memcpy = omega (
    arith,
    length-append (take at dst) (take n src ++ drop (at + n) dst),
    length-append (take n src) (drop (at + n) dst),
    length-take at dst,
    length-take n src,
    length-drop (at + n) dst,
  )

  pub take-memcpy : take (at + n) (memcpy dst at src n) ≡ take at dst ++ take n src
  take-memcpy =
      take-append_add n at (take at dst) (take n src ++ drop (at + n) dst)
        (omega (arith, length-take at dst))
      ∙ ap (λ t. take at dst ++ t)
          (take-append_exact n (take n src) (drop (at + n) dst) (omega (arith, length-take n src)))

-- The carry out of the low 64 bits of `t + 8 * n`, with `t` held in two words.
carry :
    (t n : ℕ)
    → n < 2 ^ 64
    → add 64
        (if ltb (add 64 (t % 2 ^ 64) (shl 64 n 3)) (t % 2 ^ 64)
          then add 64 (t / 2 ^ 64 % 2 ^ 64) 1
          else t / 2 ^ 64 % 2 ^ 64)
        (shr n 61)
      ≡ (t + 8 * n) / 2 ^ 64 % 2 ^ 64
carry t n fits = elim (Bool-cases (ltb (add 64 (t % 2 ^ 64) (shl 64 n 3)) (t % 2 ^ 64))) [
  | inl over ↦ rw over (omega (arith, ltb→lt _ _ over))
  | inr within ↦ rw within (omega (arith, ltb-false _ _ within))
]

-- The bit count of the longer message.
count_bits-Counts :
    (m input : List ℕ) (c : Ctx) (len : ℕ)
    → length input ≡ len
    → len < 2 ^ 64
    → Counts m c
    → Counts (m ++ input) (count_bits c len)
unfolding count_bits
count_bits-Counts m input c len e fits v =
    let longer : 8 * length (m ++ input) ≡ 8 * length m + 8 * len =
      omega (arith, length-append m input) in
    record {
      low = rw (longer, v.low) (omega arith);
      high = rw (longer, v.low, v.high) (carry (8 * length m) len fits);
      md = v.md;
    }

-- `absorb` without its case for short inputs: no whole block is hashed then.
finish : Ctx → List ℕ → ℕ → Ctx
finish c rest left = if left == 0 then c else record c { p = memcpy c.p 0 rest left; num = left }

absorb_uniform :
    (c : Ctx) (input : List ℕ) (len : ℕ)
    → absorb c input len
      ≡ finish
          (record c { h = block_data_order c.h input (len / 128) })
          (drop (128 * (len / 128)) input)
          (len % 128)
unfolding absorb finish
absorb_uniform c input len = elim (Bool-cases (leb 128 len)) [
  | inl whole ↦ let start : len - len % 128 ≡ 128 * (len / 128) = omega arith in rw (whole, start)
  | inr short ↦
      let none_whole : len / 128 ≡ 0 = omega (arith, leb-false _ _ short) in
      let all_left : len % 128 ≡ len = omega (arith, leb-false _ _ short) in
      rw (short, none_whole, all_left) (unfold block_data_order in refl)
]

finish-Holds :
    (c : Ctx) (full rest : List ℕ) (blocks left : ℕ)
    → c.num ≡ 0
    → length c.p ≡ 128
    → left < 128
    → length rest ≡ left
    → length full ≡ 128 * blocks
    → c.h ≡ block_data_order initial_hash full blocks
    → Holds (full ++ rest) (finish c rest left)
unfolding finish
finish-Holds c full rest blocks left empty size short e k hash = elim (Bool-cases (left == 0)) [
  | inl done ↦
      let zero_left : left ≡ 0 = (==_iff left 0).0 done in
      let nothing : rest ≡ [] = sym (take_all 0 rest (omega arith)) in
      rw done (record {
        full = full;
        part = rest;
        blocks = blocks;
        split = refl;
        full_size = k;
        part_size = omega arith;
        part_short = omega arith;
        hash = hash;
        buffer = size;
        pending = rw (empty, nothing);
      })
  | inr some_left ↦ rw some_left (record {
    full = full;
    part = rest;
    blocks = blocks;
    split = refl;
    full_size = k;
    part_size = e;
    part_short = short;
    hash = hash;
    buffer = length-memcpy c.p rest 0 left (omega arith) (omega arith) ∙ size;
    pending =
        ap (λ n. take n (memcpy c.p 0 rest left)) (sym (zero-add left))
        ∙ (take-memcpy c.p rest 0 left (omega arith) (omega arith)
            ∙ take_all left rest (omega arith));
  })
]

absorb-Holds :
    (m input : List ℕ) (c : Ctx) (len : ℕ)
    → length input ≡ len
    → c.num ≡ 0
    → Holds m c
    → Holds (m ++ input) (absorb c input len)
absorb-Holds m input c len e empty v =
    subst (λ t. Holds t (absorb c input len)) (sym regrouped)
      (rw (absorb_uniform c input len) (
        finish-Holds (record c { h = block_data_order c.h input q })
          (v.full ++ take (128 * q) input) (drop (128 * q) input) (v.blocks + q) (len % 128) empty
          v.buffer (omega arith) (omega (arith, length-drop (128 * q) input))
          (omega (
            arith,
            length-append v.full (take (128 * q) input),
            length-take (128 * q) input,
            v.full_size,
          ))
          hashed))
  where
    q : ℕ
    q = len / 128

    nothing : v.part ≡ []
    nothing = sym (take_all 0 v.part (omega (arith, v.part_size)))

    only_full : m ≡ v.full
    only_full = v.split ∙ (ap (λ t. v.full ++ t) nothing ∙ append-nil v.full)

    regrouped : m ++ input ≡ (v.full ++ take (128 * q) input) ++ drop (128 * q) input
    regrouped =
        ap₂ ◌++◌ only_full (sym (take-append-drop (128 * q) input))
        ∙ sym (append_assoc v.full (take (128 * q) input) (drop (128 * q) input))

    hashed :
        block_data_order c.h input q
        ≡ block_data_order initial_hash (v.full ++ take (128 * q) input) (v.blocks + q)
    hashed =
        block_data_order-take q c.h input (omega arith)
        ∙ (ap (λ t. block_data_order t (take (128 * q) input) q) v.hash
            ∙ sym (
                block_data_order-append v.blocks q initial_hash v.full (take (128 * q) input)
                  v.full_size))

-- The buffer has room for all of a short input.
fill_short :
    (m input : List ℕ) (c : Ctx) (len : ℕ)
    → length input ≡ len
    → c.num + len < 128
    → Holds m c
    → Holds
        (m ++ input)
        (record c { p = memcpy c.p c.num input len; num = add 32 c.num (len % 2 ^ 32) })
fill_short m input c len e room v =
    let count : add 32 c.num (len % 2 ^ 32) ≡ c.num + len = omega arith in
    record {
      full = v.full;
      part = v.part ++ input;
      blocks = v.blocks;
      split = ap (λ t. t ++ input) v.split ∙ append_assoc v.full v.part input;
      full_size = v.full_size;
      part_size = omega (arith, length-append v.part input, v.part_size);
      part_short = omega arith;
      hash = v.hash;
      buffer = length-memcpy c.p input c.num len (omega (arith, v.buffer)) (omega arith) ∙ v.buffer;
      pending =
          ap (λ n. take n (memcpy c.p c.num input len)) count
          ∙ (take-memcpy c.p input c.num len (omega (arith, v.buffer)) (omega arith)
              ∙ ap₂ ◌++◌ v.pending (take_all len input (omega arith)));
    }

-- The input completes the block in the buffer, which is hashed.
fill_block :
    (m input : List ℕ) (c : Ctx) (n : ℕ)
    → c.num + n ≡ 128
    → n ≤ length input
    → Holds m c
    → let p' = memcpy c.p c.num input n in
      Holds (m ++ take n input) (record c { p = p'; num = 0; h = block_data_order c.h p' 1 })
fill_block m input c n exact enough v = record {
  full = v.full ++ p';
  part = [];
  blocks = v.blocks + 1;
  split =
      ap (λ t. t ++ take n input) v.split
      ∙ (append_assoc v.full v.part (take n input)
          ∙ (ap (λ t. v.full ++ t) (sym filled) ∙ sym (append-nil (v.full ++ p'))));
  full_size = omega (arith, length-append v.full p', v.full_size, size);
  part_size = refl;
  part_short = omega arith;
  hash =
      ap (λ t. block_data_order t p' 1) v.hash
      ∙ sym (block_data_order-append v.blocks 1 initial_hash v.full p' v.full_size);
  buffer = size;
  pending = refl;
}
  where
    p' : List ℕ
    p' = memcpy c.p c.num input n

    size : length p' ≡ 128
    size = length-memcpy c.p input c.num n (omega (arith, v.buffer)) enough ∙ v.buffer

    filled : p' ≡ v.part ++ take n input
    filled = ap₂ ◌++◌ v.pending (
        ap (λ t. take n input ++ t) (drop_all (c.num + n) c.p (omega (arith, v.buffer)))
        ∙ append-nil (take n input))

fill-Holds :
    (m input : List ℕ) (c : Ctx) (len : ℕ)
    → length input ≡ len
    → Holds m c
    → Holds (m ++ input) (fill c input len)
unfolding fill
fill-Holds m input c len e v = elim (Bool-cases (c.num == 0)) [
  | inl empty ↦ rw empty (absorb-Holds m input c len e ((==_iff c.num 0).0 empty) v)
  | inr some_bytes ↦ elim (Bool-cases (ltb len (sub 64 128 c.num))) [
    | inl short ↦
        rw (some_bytes, short)
          (fill_short m input c len e (omega (arith, ltb→lt _ _ short, v.part_short)) v)
    | inr long ↦
        let n : ℕ = sub 64 128 c.num in
        let enough : n ≤ len = ltb-false _ _ long in
        let exact : c.num + n ≡ 128 = omega (arith, ==-false c.num 0 some_bytes, v.part_short) in
        let block = fill_block m input c n exact (omega arith) v in
        let p' = memcpy c.p c.num input n in
        let c' = record c { p = p'; num = 0; h = block_data_order c.h p' 1 } in
        let joined : (m ++ take n input) ++ drop n input ≡ m ++ input =
          append_assoc m (take n input) (drop n input)
          ∙ ap (λ t. m ++ t) (take-append-drop n input) in
        rw (some_bytes, long)
          (subst (λ t. Holds t (absorb c' (drop n input) (len - n))) joined
            (absorb-Holds (m ++ take n input) (drop n input) c' (len - n)
              (omega (arith, length-drop n input)) refl block))
  ]
]

count_bits-Holds : (m : List ℕ) (c : Ctx) (len : ℕ) → Holds m c → Holds m (count_bits c len)
unfolding count_bits
count_bits-Holds m c len v = record {
  full = v.full;
  part = v.part;
  blocks = v.blocks;
  split = v.split;
  full_size = v.full_size;
  part_size = v.part_size;
  part_short = v.part_short;
  hash = v.hash;
  buffer = v.buffer;
  pending = v.pending;
}

fill_keeps :
    (c : Ctx) (input : List ℕ) (len : ℕ)
    → ((fill c input len).nl ≡ c.nl)
      × ((fill c input len).nh ≡ c.nh)
      × ((fill c input len).md_len ≡ c.md_len)
unfolding fill absorb
fill_keeps c input len = ground arith

fill-Counts : (m input : List ℕ) (c : Ctx) (len : ℕ) → Counts m c → Counts m (fill c input len)
fill-Counts m input c len v =
    let kept = fill_keeps c input len in
    record { low = kept.0 ∙ v.low; high = kept.1 ∙ v.high; md = kept.2 ∙ v.md }

-- What the context stands for: the message so far, with its bit count.
pub record Represents (m : List ℕ) (c : Ctx) : Type 0 where
  pub holds : Holds m c
  pub counts : Counts m c

-- `SHA512_Init` leaves a context that stands for the empty message, if its buffer is 128 bytes.
pub init-Represents : (c : Ctx) → length c.p ≡ 128 → Represents [] (init c)
unfolding init
init-Represents c size = record {
  holds = record {
    full = [];
    part = [];
    blocks = 0;
    split = refl;
    full_size = refl;
    part_size = refl;
    part_short = omega arith;
    hash = unfold block_data_order in refl;
    buffer = size;
    pending = refl;
  };
  counts = record { low = refl; high = refl; md = refl };
}

-- `SHA512_Update` with `len` bytes appends them to the message that the context stands for.
pub update-Represents :
    (m input : List ℕ) (c : Ctx) (len : ℕ)
    → length input ≡ len
    → len < 2 ^ 64
    → Represents m c
    → Represents (m ++ input) (update c input len)
unfolding update
update-Represents m input c len e fits v = elim (Bool-cases (len == 0)) [
  | inl nothing ↦
      let none_read : input ≡ [] =
        sym (take_all 0 input (omega (arith, (==_iff len 0).0 nothing))) in
      rw (nothing, none_read, append-nil m) v
  | inr bytes ↦ rw bytes (record {
    holds = fill-Holds m input (count_bits c len) len e (count_bits-Holds m c len v.holds);
    counts =
        fill-Counts (m ++ input) input (count_bits c len) len
          (count_bits-Counts m input c len e fits v.counts);
  })
]
