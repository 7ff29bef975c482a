-- ===== src/Sha512/Blocks.antt =====
-- `sha512_block_data_order` reads nothing past its blocks, and blocks can be hashed in several calls.
use native.Mathlib.Nat.{zero-add, add-zero, suc-add}
use saw_script.Base.{
  ℕ, zero, suc, ◌+◌, ◌*◌, ◌≤◌, ◌≡◌, refl, ap, ap₂, ◌∙◌, arith, List, [], ◌∷◌, ◌++◌, length, get_or,
  drop, length-drop, length-take, take, sym, take-append-drop,
}
use saw_script.Base.Slices.{get_or-append_left, drop-append_left}
use saw_script.Sha512.Words.{host_word, load_u64_be, bswap8}
use saw_script.Sha512.Rounds.{loading_rounds, Working, compress, block_data_order}

host_word-append :
    (n at : ℕ) (xs ys : List ℕ) → at + n ≤ length xs → host_word n (xs ++ ys) at ≡ host_word n xs at
unfolding host_word
host_word-append zero at xs ys h = refl
host_word-append (suc n) at xs ys h =
    rw (get_or-append_left xs ys at 0 (omega arith))
      (ap (λ (t : ℕ). get_or xs at 0 + t * 256) (host_word-append n (at + 1) xs ys (omega arith)))

load_u64_be-append :
    (at : ℕ) (xs ys : List ℕ) → at + 8 ≤ length xs → load_u64_be (xs ++ ys) at ≡ load_u64_be xs at
unfolding load_u64_be
load_u64_be-append at xs ys h = ap bswap8 (host_word-append 8 at xs ys h)

loading_rounds-append :
    (left i : ℕ) (xs ys : List ℕ) (s : Working)
    → (i + left) * 8 ≤ length xs
    → loading_rounds (xs ++ ys) left i s ≡ loading_rounds xs left i s
unfolding loading_rounds
loading_rounds-append zero i xs ys s h = refl
loading_rounds-append (suc left) i xs ys s h =
    rw (load_u64_be-append (i * 8) xs ys (omega arith))
      (loading_rounds-append left (i + 1) xs ys _ (omega arith))

-- A block is 128 bytes.
pub compress-append :
    (state xs ys : List ℕ) → 128 ≤ length xs → compress state (xs ++ ys) ≡ compress state xs
unfolding compress
compress-append state xs ys h = rw (loading_rounds-append 16 0 xs ys _ (omega arith))

-- Hashing blocks in two calls is hashing them in one.
pub block_data_order-append :
    (k n : ℕ) (state xs ys : List ℕ)
    → length xs ≡ 128 * k
    → block_data_order state (xs ++ ys) (k + n)
      ≡ block_data_order (block_data_order state xs k) ys n
unfolding block_data_order
block_data_order-append zero n state [] ys e = ap (block_data_order state ys) (zero-add n)
block_data_order-append zero n state (x ∷ xs) ys e = absurd (omega arith)
block_data_order-append (suc k) n state xs ys e =
    ap (block_data_order state (xs ++ ys)) (suc-add k n)
    ∙ (ap₂ (λ t u. block_data_order t u (k + n)) (compress-append state xs ys (omega arith))
          (drop-append_left 128 xs ys (omega arith))
        ∙ block_data_order-append k n (compress state xs) (drop 128 xs) ys
            (omega (arith, length-drop 128 xs)))

pub block_data_order-take :
    (k : ℕ) (state xs : List ℕ)
    → 128 * k ≤ length xs
    → block_data_order state xs k ≡ block_data_order state (take (128 * k) xs) k
block_data_order-take k state xs h =
    ap₂ (λ t u. block_data_order state t u) (sym (take-append-drop (128 * k) xs)) (sym (add-zero k))
    ∙ (block_data_order-append k 0 state (take (128 * k) xs) (drop (128 * k) xs)
          (omega (arith, length-take (128 * k) xs))
        ∙ unfold block_data_order in refl)
