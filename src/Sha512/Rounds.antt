-- ===== src/Sha512/Rounds.antt =====
-- sha512.c: the round macros and `sha512_block_data_order`.
use saw_script.Base.{
  ℕ, zero, suc, ◌+◌, ◌*◌, List, [], ◌∷◌, get_or, set, drop, replicate, add, bit_and,
}
use saw_script.Sha512.Words.{
  load_u64_be, big_sigma0, big_sigma1, small_sigma0, small_sigma1, ch, maj,
}
use saw_script.Sha512.Constants.{k512}

-- The eight variables, under the names that a call of the round macro gives them.
pub record Vars : Type 0 where
  pub a : ℕ
  pub b : ℕ
  pub c : ℕ
  pub d : ℕ
  pub e : ℕ
  pub f : ℕ
  pub g : ℕ
  pub h : ℕ

-- Each call of a round macro passes the variables of the call before it moved on by one place.
abbrev pub rename : Vars → Vars
rename v = record { a = v.h; b = v.a; c = v.b; d = v.c; e = v.d; f = v.e; g = v.f; h = v.g }

-- ROUND_00_15(i, a, ..., h), with `t1` in T1.
unfoldable pub round_00_15 : ℕ → ℕ → Vars → Vars
round_00_15 i t1 v =
    let t =
      add 64 t1
        (add 64 (add 64 (add 64 v.h (big_sigma1 v.e)) (ch v.e v.f v.g)) (get_or k512 i 0)) in
    let h₁ = add 64 (big_sigma0 v.a) (maj v.a v.b v.c) in
    record v { d = add 64 v.d t; h = add 64 h₁ t }

-- What ROUND_16_80(i, j, ...) stores into X[j] before the round.
unfoldable pub next_word : List ℕ → ℕ → ℕ
next_word x j =
    let s0 = small_sigma0 (get_or x (bit_and (j + 1) 0x0f) 0) in
    let s1 = small_sigma1 (get_or x (bit_and (j + 14) 0x0f) 0) in
    add 64 (get_or x (bit_and j 0x0f) 0) (add 64 (add 64 s0 s1) (get_or x (bit_and (j + 9) 0x0f) 0))

pub record Working : Type 0 where
  pub vars : Vars
  pub x : List ℕ

-- The sixteen rounds that load the block, from round `i` on.
unfoldable pub loading_rounds : List ℕ → ℕ → ℕ → Working → Working
loading_rounds input zero i s = s
loading_rounds input (suc left) i s =
    let w = load_u64_be input (i * 8) in
    loading_rounds input left (i + 1)
      (record { vars = rename (round_00_15 i w s.vars); x = set s.x i w })

-- The body of the loop over `i`, from ROUND_16_80(i, j, ...) on.
unfoldable pub sixteen_rounds : ℕ → ℕ → ℕ → Working → Working
sixteen_rounds i zero j s = s
sixteen_rounds i (suc left) j s =
    let w = next_word s.x j in
    sixteen_rounds i left (j + 1)
      (record { vars = rename (round_00_15 (i + j) w s.vars); x = set s.x (bit_and j 0x0f) w })

-- `for (i = 16; i < 80; i += 16)`, with `left` turns to go.
unfoldable pub later_rounds : ℕ → ℕ → Working → Working
later_rounds zero i s = s
later_rounds (suc left) i s = later_rounds left (i + 16) (sixteen_rounds i 16 0 s)

-- One turn of the loop over the blocks: `input` begins with the block.
unfoldable pub compress : List ℕ → List ℕ → List ℕ
compress state input =
    let v : Vars = record {
      a = get_or state 0 0;
      b = get_or state 1 0;
      c = get_or state 2 0;
      d = get_or state 3 0;
      e = get_or state 4 0;
      f = get_or state 5 0;
      g = get_or state 6 0;
      h = get_or state 7 0;
    } in
    let s = loading_rounds input 16 0 (record { vars = v; x = replicate 16 0 }) in
    let r = (later_rounds 4 16 s).vars in
    add 64 (get_or state 0 0) r.a
    ∷ add 64 (get_or state 1 0) r.b
    ∷ add 64 (get_or state 2 0) r.c
    ∷ add 64 (get_or state 3 0) r.d
    ∷ add 64 (get_or state 4 0) r.e
    ∷ add 64 (get_or state 5 0) r.f
    ∷ add 64 (get_or state 6 0) r.g
    ∷ add 64 (get_or state 7 0) r.h
    ∷ []

-- `while (num--)`, with `in += 16 * 8`.
unfoldable pub block_data_order : List ℕ → List ℕ → ℕ → List ℕ
block_data_order state input zero = state
block_data_order state input (suc num) =
    block_data_order (compress state input) (drop (16 * 8) input) num
