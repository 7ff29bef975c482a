-- ===== src/Speck.antt =====
-- examples/simon-speck/speck.c: the Speck block cipher for `N`-bit words and `M` key words. `w`
-- is `N` (32 or 64) and `m` is `M`; both are macros of the file, so every function takes them.
pub mod Stats
pub mod Weights
pub mod Histogram
pub mod Laws
mod Tests
use saw_script.Base.{
  ℕ, zero, suc, ◌+◌, ◌-◌, ◌%◌, List, get_or, set, take, bit_or, bit_xor, shl, shr, add, sub,
  if◌then◌else◌, ◌==◌,
}

-- The two words of `io`: `lo` is `io[0]`, `hi` is `io[1]`. The macros ROUND and INV_ROUND take
-- them as `y` and `x`.
pub record Block : Type 0 where
  pub hi : ℕ
  pub lo : ℕ

-- R
unfoldable pub rounds : ℕ → ℕ → ℕ
rounds w m = if w == 32 then 23 + m else 30 + m

unfoldable pub lcs : ℕ → ℕ → ℕ → ℕ
lcs w x n = bit_or (shl w x n) (shr x (w - n))

unfoldable pub rcs : ℕ → ℕ → ℕ → ℕ
rcs w x n = bit_or (shr x n) (shl w x (w - n))

-- ROUND(x, y, k), a chain of assignments.
unfoldable pub round : ℕ → Block → ℕ → Block
unfolding lcs rcs
round w b k =
    let x₁ = rcs w b.hi 8 in
    let x₂ = add w x₁ b.lo in
    let x₃ = bit_xor x₂ k in let y₁ = lcs w b.lo 3 in record { hi = x₃; lo = bit_xor y₁ x₃ }

-- INV_ROUND(x, y, k)
unfoldable pub inv_round : ℕ → Block → ℕ → Block
unfolding lcs rcs
inv_round w b k =
    let y₁ = bit_xor b.lo b.hi in
    let y₂ = rcs w y₁ 3 in
    let x₁ = bit_xor b.hi k in let x₂ = sub w x₁ y₂ in record { hi = lcs w x₂ 8; lo = y₂ }

-- The loop of `speck_keyexpand` at index `i`, with `left` rounds to go.
unfoldable pub keyexpand_loop : ℕ → ℕ → ℕ → ℕ → List ℕ → List ℕ → List ℕ
unfolding round
keyexpand_loop w m zero i tmp keys = keys
keyexpand_loop w m (suc left) i tmp keys =
    let p = 1 + i % (m - 1) in
    let r = round w (record { hi = get_or tmp p 0; lo = get_or tmp 0 0 }) i in
    keyexpand_loop w m left (i + 1) (set (set tmp p r.hi) 0 r.lo) (set keys (i + 1) r.lo)

-- `keys` is the array `K` of `R` words, whose first `m` are the key.
unfoldable pub keyexpand : ℕ → ℕ → List ℕ → List ℕ
unfolding keyexpand_loop rounds
keyexpand w m keys = keyexpand_loop w m (rounds w m - 1) 0 (take m keys) keys

unfoldable pub encrypt_loop : ℕ → List ℕ → ℕ → ℕ → Block → Block
unfolding round
encrypt_loop w keys zero i io = io
encrypt_loop w keys (suc left) i io =
    encrypt_loop w keys left (i + 1) (round w io (get_or keys i 0))

-- Both arguments are arrays that the function overwrites: the result has the block and the keys.
unfoldable pub encrypt : ℕ → ℕ → Block → List ℕ → record { io : Block; keys : List ℕ }
unfolding encrypt_loop keyexpand
encrypt w m io keys =
    let expanded = keyexpand w m keys in
    record { io = encrypt_loop w expanded (rounds w m) 0 io; keys = expanded }

-- `for (int i=R; i-->0;)`: the body runs at the index below the argument.
unfoldable pub decrypt_loop : ℕ → List ℕ → ℕ → Block → Block
unfolding inv_round
decrypt_loop w keys zero io = io
decrypt_loop w keys (suc i) io = decrypt_loop w keys i (inv_round w io (get_or keys i 0))

unfoldable pub decrypt : ℕ → ℕ → Block → List ℕ → record { io : Block; keys : List ℕ }
unfolding decrypt_loop keyexpand
decrypt w m io keys =
    let expanded = keyexpand w m keys in
    record { io = decrypt_loop w expanded (rounds w m) io; keys = expanded }
