-- ===== src/Base/Word.antt =====
-- Machine words: a `w`-bit unsigned value is a number below `2 ^ w`, and every operation that
-- can leave the range wraps by `% 2 ^ w`.
use Prim.Native.Nat.{ℕ, ◌+◌, ◌-◌, ◌*◌, ◌/◌, ◌%◌, ◌^◌}

-- C's `(uintw_t)(x << n)`, with `n < w`.
abbrev pub shl : ℕ → ℕ → ℕ → ℕ
shl w x n = x * 2 ^ n % 2 ^ w

abbrev pub shr : ℕ → ℕ → ℕ
shr x n = x / 2 ^ n

abbrev pub add : ℕ → ℕ → ℕ → ℕ
add w a b = (a + b) % 2 ^ w

-- `-` on ℕ stops at 0, so the modulus is added first.
abbrev pub sub : ℕ → ℕ → ℕ → ℕ
sub w a b = (a + 2 ^ w - b) % 2 ^ w

-- C's `~x` on a `w`-bit word.
abbrev pub complement : ℕ → ℕ → ℕ
complement w x = 2 ^ w - 1 - x
