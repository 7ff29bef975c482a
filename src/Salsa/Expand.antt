-- ===== src/Salsa/Expand.antt =====
-- `s20_expand32` overwrites all 64 bytes that it is given, so what they held does not matter; the
-- block number overwrites its own four bytes of `n`.
use saw_script.Base.{
  ℕ, zero, suc, ◌+◌, ◌*◌, ◌≡◌, ◌∙◌, sym, subst, refl, ap, add, set, arith, List, [], ◌∷◌, length,
  get_or, length-set,
}
use saw_script.Salsa.{word_loop, constants_loop, copy_loop, expand32}
use saw_script.Salsa.Core.{rev_littleendian, store_loop, hash}

-- An array written out, entry by entry.
abbrev pub tabulate : (ℕ → ℕ) → ℕ → List ℕ
tabulate g zero = []
tabulate g (suc n) = g 0 ∷ tabulate (λ i. g (suc i)) n

tabulate-get_or : (xs : List ℕ) (n : ℕ) → length xs ≡ n → tabulate (λ i. get_or xs i 0) n ≡ xs
tabulate-get_or [] zero e = refl
tabulate-get_or [] (suc n) e = absurd (omega arith)
tabulate-get_or (x ∷ xs) zero e = absurd (omega arith)
tabulate-get_or (x ∷ xs) (suc n) e = ap (λ t. x ∷ t) (tabulate-get_or xs n (omega arith))

-- What is passed to the hash.
abbrev layout : List ℕ → List ℕ → List ℕ → List ℕ
layout k n keystream = copy_loop k n 16 0 (constants_loop 4 0 keystream)

layout_of_tabulate :
    (k n : List ℕ) (g h : ℕ → ℕ) → layout k n (tabulate g 64) ≡ layout k n (tabulate h 64)
unfolding copy_loop constants_loop word_loop
layout_of_tabulate k n g h = refl

pub expand32_overwrites :
    (k n a b : List ℕ) → length a ≡ 64 → length b ≡ 64 → expand32 k n a ≡ expand32 k n b
unfolding expand32
expand32_overwrites k n a b p q = ap hash (
    ap (layout k n) (sym (tabulate-get_or a 64 p))
    ∙ (layout_of_tabulate k n (λ i. get_or a i 0) (λ i. get_or b i 0)
        ∙ ap (layout k n) (tabulate-get_or b 64 q)))

number_of_tabulate :
    (g : ℕ → ℕ) (v w : ℕ)
    → rev_littleendian (rev_littleendian (tabulate g 16) 8 v) 8 w
      ≡ rev_littleendian (tabulate g 16) 8 w
unfolding rev_littleendian
number_of_tabulate g v w = refl

pub number_overwrites :
    (n : List ℕ) (v w : ℕ)
    → length n ≡ 16
    → rev_littleendian (rev_littleendian n 8 v) 8 w ≡ rev_littleendian n 8 w
number_overwrites n v w e =
    subst (λ t. rev_littleendian (rev_littleendian t 8 v) 8 w ≡ rev_littleendian t 8 w)
      (tabulate-get_or n 16 e) (number_of_tabulate (λ i. get_or n i 0) v w)

pub length-rev_littleendian : (b : List ℕ) (at w : ℕ) → length (rev_littleendian b at w) ≡ length b
unfolding rev_littleendian
length-rev_littleendian b at w = rw (length-set, length-set, length-set, length-set)

length-store_loop :
    (x z : List ℕ) (left i : ℕ) (seq : List ℕ) → length (store_loop x z left i seq) ≡ length seq
unfolding store_loop
length-store_loop x z zero i seq = refl
length-store_loop x z (suc left) i seq =
    length-store_loop x (set z i (add 32 (get_or z i 0) (get_or x i 0))) left (i + 1) _
    ∙ length-rev_littleendian seq (4 * i) _

length-word_loop : (left i j : ℕ) (ks : List ℕ) → length (word_loop left i j ks) ≡ length ks
unfolding word_loop
length-word_loop zero i j ks = refl
length-word_loop (suc left) i j ks = length-word_loop left i (j + 1) _ ∙ length-set ks (i + j) _

length-constants_loop : (left i : ℕ) (ks : List ℕ) → length (constants_loop left i ks) ≡ length ks
unfolding constants_loop
length-constants_loop zero i ks = refl
length-constants_loop (suc left) i ks =
    length-constants_loop left (i + 20) _ ∙ length-word_loop 4 i 0 ks

length-copy_loop :
    (k n : List ℕ) (left i : ℕ) (ks : List ℕ) → length (copy_loop k n left i ks) ≡ length ks
unfolding copy_loop
length-copy_loop k n zero i ks = refl
length-copy_loop k n (suc left) i ks =
    length-copy_loop k n left (i + 1) _ ∙ rw (length-set, length-set, length-set)

pub length-expand32 : (k n ks : List ℕ) → length (expand32 k n ks) ≡ length ks
unfolding expand32 hash
length-expand32 k n ks =
    length-store_loop _ _ 16 0 _ ∙ (length-copy_loop k n 16 0 _ ∙ length-constants_loop 4 0 ks)
