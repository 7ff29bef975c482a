-- ===== src/Speck/Laws.antt =====
-- The rounds of speck.c invert each other on words, for every word size from 8 bits on, and the
-- key schedule writes words.
use native.Mathlib.Nat.{mod-lt, zero-add, pow-le-pow_right}
use saw_script.Base.{
  ℕ, zero, suc, ◌+◌, ◌-◌, ◌%◌, ◌^◌, ◌≤◌, ◌<◌, ◌≡◌, refl, ap, ◌∙◌, List, arith, get_or, set, take,
  bit_xor, add, sub, AllBelow, AllBelow-set, AllBelow-take,
}
use saw_script.Base.Bits.{
  rotl, rotr, rotl-lt, rotr-lt, rotl-rotr, rotr-rotl, xor-lt, xor_cancel, pow_pos,
}
use saw_script.Speck.{
  Block, rounds, round, inv_round, keyexpand_loop, keyexpand, encrypt_loop, encrypt, decrypt_loop,
  decrypt,
}

-- Both words fit `w` bits.
pub record IsBlock (w : ℕ) (b : Block) : Type 0 where
  pub hi_fits : b.hi < 2 ^ w
  pub lo_fits : b.lo < 2 ^ w

sub-add : (w x y : ℕ) → x < 2 ^ w → y < 2 ^ w → sub w (add w x y) y ≡ x
sub-add w x y hx hy = grind arith

add-sub : (w x y : ℕ) → x < 2 ^ w → y < 2 ^ w → add w (sub w x y) y ≡ x
add-sub w x y hx hy = grind arith

module _ (w : ℕ) (wide : 8 ≤ w) where
  pub round-IsBlock : (b : Block) (k : ℕ) → IsBlock w b → k < 2 ^ w → IsBlock w (round w b k)
  unfolding round
  round-IsBlock b k v hk = record {
    hi_fits = new_hi;
    lo_fits = xor-lt w (rotl w b.lo 3) _ (rotl-lt w 3 b.lo (omega arith) v.lo_fits) new_hi;
  }
    where
      new_hi : bit_xor (add w (rotr w b.hi 8) b.lo) k < 2 ^ w
      new_hi = xor-lt w (add w (rotr w b.hi 8) b.lo) k (mod-lt _ (pow_pos w)) hk

  pub inv_round-IsBlock :
      (b : Block) (k : ℕ) → IsBlock w b → k < 2 ^ w → IsBlock w (inv_round w b k)
  unfolding inv_round
  inv_round-IsBlock b k v hk = record {
    hi_fits = rotl-lt w 8 _ wide (mod-lt _ (pow_pos w));
    lo_fits = rotr-lt w 3 _ (omega arith) (xor-lt w b.lo b.hi v.lo_fits v.hi_fits);
  }

  pub inv_round-round :
      (b : Block) (k : ℕ) → IsBlock w b → k < 2 ^ w → inv_round w (round w b k) k ≡ b
  unfolding round inv_round
  inv_round-round b k v hk = rw (
    xor_cancel (rotl w b.lo 3) (bit_xor (add w (rotr w b.hi 8) b.lo) k),
    xor_cancel (add w (rotr w b.hi 8) b.lo) k,
    rotr-rotl w 3 b.lo (omega arith) v.lo_fits,
    sub-add w (rotr w b.hi 8) b.lo (rotr-lt w 8 b.hi wide v.hi_fits) v.lo_fits,
    rotl-rotr w 8 b.hi wide v.hi_fits,
  )

  pub round-inv_round :
      (b : Block) (k : ℕ) → IsBlock w b → k < 2 ^ w → round w (inv_round w b k) k ≡ b
  unfolding round inv_round
  round-inv_round b k v hk =
      let y = rotr w (bit_xor b.lo b.hi) 3 in
      let mixed : bit_xor b.lo b.hi < 2 ^ w = xor-lt w b.lo b.hi v.lo_fits v.hi_fits in
      rw (
        rotr-rotl w 8 (sub w (bit_xor b.hi k) y) wide (mod-lt _ (pow_pos w)),
        add-sub w (bit_xor b.hi k) y (xor-lt w b.hi k v.hi_fits hk)
            (rotr-lt w 3 _ (omega arith) mixed),
        xor_cancel b.hi k,
        rotl-rotr w 3 (bit_xor b.lo b.hi) (omega arith) mixed,
        xor_cancel b.lo b.hi,
      )

  -- The loop of `speck_encrypt` seen from its last round.
  encrypt_loop-suc :
      (keys : List ℕ) (left i : ℕ) (io : Block)
      → encrypt_loop w keys (suc left) i io
        ≡ round w (encrypt_loop w keys left i io) (get_or keys (i + left) 0)
  unfolding encrypt_loop
  encrypt_loop-suc keys zero i io = ap (λ (j : ℕ). round w io (get_or keys j 0)) (omega arith)
  encrypt_loop-suc keys (suc left) i io =
      encrypt_loop-suc keys left (i + 1) (round w io (get_or keys i 0))
      ∙ ap (λ (j : ℕ). round w (encrypt_loop w keys (suc left) i io) (get_or keys j 0))
          (omega arith)

  module _ (keys : List ℕ) (keys_fit : AllBelow (2 ^ w) keys) where
    encrypt_loop-IsBlock :
        (left i : ℕ) (io : Block) → IsBlock w io → IsBlock w (encrypt_loop w keys left i io)
    unfolding encrypt_loop
    encrypt_loop-IsBlock zero i io v = v
    encrypt_loop-IsBlock (suc left) i io v =
        encrypt_loop-IsBlock left (i + 1) _ (round-IsBlock io _ v (keys_fit i))

    decrypt_loop-IsBlock :
        (n : ℕ) (io : Block) → IsBlock w io → IsBlock w (decrypt_loop w keys n io)
    unfolding decrypt_loop
    decrypt_loop-IsBlock zero io v = v
    decrypt_loop-IsBlock (suc n) io v =
        decrypt_loop-IsBlock n _ (inv_round-IsBlock io _ v (keys_fit n))

    pub decrypt_loop-encrypt_loop :
        (n : ℕ) (io : Block)
        → IsBlock w io
        → decrypt_loop w keys n (encrypt_loop w keys n 0 io) ≡ io
    unfolding decrypt_loop
    decrypt_loop-encrypt_loop zero io v = unfold encrypt_loop in refl
    decrypt_loop-encrypt_loop (suc n) io v =
        rw
          (
            encrypt_loop-suc keys n 0 io,
            zero-add n,
            inv_round-round _ _ (encrypt_loop-IsBlock n 0 io v) (keys_fit n),
          )
          (decrypt_loop-encrypt_loop n io v)

    pub encrypt_loop-decrypt_loop :
        (n : ℕ) (io : Block)
        → IsBlock w io
        → encrypt_loop w keys n 0 (decrypt_loop w keys n io) ≡ io
    unfolding decrypt_loop
    encrypt_loop-decrypt_loop zero io v = unfold encrypt_loop in refl
    encrypt_loop-decrypt_loop (suc n) io v =
        let last = inv_round w io (get_or keys n 0) in
        encrypt_loop-suc keys n 0 (decrypt_loop w keys n last)
        ∙ rw (zero-add n, encrypt_loop-decrypt_loop n last (inv_round-IsBlock io _ v (keys_fit n)))
            (round-inv_round io _ v (keys_fit n))

  keyexpand_loop-AllBelow :
      (m left i : ℕ) (tmp keys : List ℕ)
      → i + left < 2 ^ w
      → AllBelow (2 ^ w) tmp
      → AllBelow (2 ^ w) keys
      → AllBelow (2 ^ w) (keyexpand_loop w m left i tmp keys)
  unfolding keyexpand_loop
  keyexpand_loop-AllBelow m zero i tmp keys h ht hk = hk
  keyexpand_loop-AllBelow m (suc left) i tmp keys h ht hk =
      let p : ℕ = 1 + i % (m - 1) in
      let r = round w (record { hi = get_or tmp p 0; lo = get_or tmp 0 0 }) i in
      let v =
        round-IsBlock (record { hi = get_or tmp p 0; lo = get_or tmp 0 0 }) i
          (record { hi_fits = ht p; lo_fits = ht 0 }) (omega arith) in
      keyexpand_loop-AllBelow m left (i + 1) (set (set tmp p r.hi) 0 r.lo) (set keys (i + 1) r.lo)
        (omega arith)
        (AllBelow-set (2 ^ w) _ 0 r.lo (AllBelow-set (2 ^ w) tmp p r.hi ht v.hi_fits) v.lo_fits)
        (AllBelow-set (2 ^ w) keys (i + 1) r.lo hk v.lo_fits)

  module _ (m : ℕ) (few : m ≤ 4) (keys : List ℕ) (keys_fit : AllBelow (2 ^ w) keys) where
    rounds-lt : rounds w m - 1 < 2 ^ w
    unfolding rounds
    rounds-lt = let big : 2 ^ 8 ≤ 2 ^ w = pow-le-pow_right (omega arith) wide in ground arith

    pub keyexpand-AllBelow : AllBelow (2 ^ w) (keyexpand w m keys)
    unfolding keyexpand
    keyexpand-AllBelow =
        keyexpand_loop-AllBelow m (rounds w m - 1) 0 (take m keys) keys (omega (arith, rounds-lt))
          (AllBelow-take (2 ^ w) m keys keys_fit) keys_fit

    pub encrypt-IsBlock : (io : Block) → IsBlock w io → IsBlock w (encrypt w m io keys).io
    unfolding encrypt
    encrypt-IsBlock io v =
        encrypt_loop-IsBlock (keyexpand w m keys) keyexpand-AllBelow (rounds w m) 0 io v

    -- For words of at least 8 bits and at most 4 key words, decrypting with the key that a block
    -- of words was encrypted with gives the block back.
    pub decrypt-encrypt :
        (io : Block) → IsBlock w io → (decrypt w m (encrypt w m io keys).io keys).io ≡ io
    unfolding decrypt encrypt
    decrypt-encrypt io v =
        decrypt_loop-encrypt_loop (keyexpand w m keys) keyexpand-AllBelow (rounds w m) io v

    -- For words of at least 8 bits and at most 4 key words, encrypting with the key that a block
    -- of words was decrypted with gives the block back.
    pub encrypt-decrypt :
        (io : Block) → IsBlock w io → (encrypt w m (decrypt w m io keys).io keys).io ≡ io
    unfolding decrypt encrypt
    encrypt-decrypt io v =
        encrypt_loop-decrypt_loop (keyexpand w m keys) keyexpand-AllBelow (rounds w m) io v
