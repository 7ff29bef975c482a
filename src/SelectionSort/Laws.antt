-- ===== src/SelectionSort/Laws.antt =====
-- The sorts of swap.c: they sort in place, and agree.
use native.Mathlib.Decide.{dec_lt}
use native.Mathlib.Nat.{mod-lt}
use saw_script.Base.{
  ℕ, zero, suc, ◌+◌, ◌-◌, ◌%◌, ◌^◌, ◌≤◌, ◌<◌, ◌≡◌, ◌∙◌, refl, arith, List, length, get_or, sub,
}
use saw_script.SelectionSort.{
  swap, min_loop, sort_loop, selection_sort, argmin, swap_array, composed_loop,
  selection_sort_composed, wacky_loop, wacky_sort,
}
use saw_script.SelectionSort.Swap.{count, length-swap, get_or-swap, count-swap, swap_twice}
use saw_script.SelectionSort.Minimum.{IsMinimum, min_loop_lem, argmin-min_loop}

-- The first `n` of `len` entries are in order, and none of the others is below them.
abbrev pub IsSortedTo : ℕ → ℕ → List ℕ → Type 0
IsSortedTo n len a = (p q : ℕ) → p < n → p ≤ q → q < len → get_or a p 0 ≤ get_or a q 0

-- The entries from `len` on are as before, and so is how often each value occurs.
pub record IsRearranged (len : ℕ) (before after : List ℕ) : Type 0 where
  pub same_length : length after ≡ length before
  pub same_counts : (v : ℕ) → count v after ≡ count v before
  pub outside : (q : ℕ) → len ≤ q → get_or after q 0 ≡ get_or before q 0

IsRearranged-swap :
    (a : List ℕ) (len x y : ℕ)
    → x < len
    → y < len
    → len ≤ length a
    → IsRearranged len a (swap a x y)
IsRearranged-swap a len x y p q fits = record {
  same_length = length-swap a x y;
  same_counts = count-swap a x y (omega arith) (omega arith);
  outside = λ i h. ground (arith, get_or-swap a x y (omega arith) (omega arith) i);
}

IsRearranged-trans :
    (len : ℕ) (a b c : List ℕ) → IsRearranged len a b → IsRearranged len b c → IsRearranged len a c
IsRearranged-trans len a b c r s = record {
  same_length = s.same_length ∙ r.same_length;
  same_counts = λ v. s.same_counts v ∙ r.same_counts v;
  outside = λ q h. s.outside q h ∙ r.outside q h;
}

-- One round puts a least entry of the rest behind those that are in order.
round-IsSortedTo :
    (a : List ℕ) (len i m : ℕ)
    → i < len
    → len ≤ length a
    → IsSortedTo i len a
    → IsMinimum a i len m
    → IsSortedTo (i + 1) len (swap a i m)
round-IsSortedTo a len i m p fits sorted is q r hq hr h = ground (
  arith,
  get_or-swap a i m (omega arith) (omega (arith, is.below)) q,
  get_or-swap a i m (omega arith) (omega (arith, is.below)) r,
  is.from,
  is.below,
  sorted q m,
  sorted q i,
  sorted q r,
  is.least r,
  is.least i,
  is.least m,
)

IsRearranged-refl : (len : ℕ) (a : List ℕ) → IsRearranged len a a
IsRearranged-refl len a = record {
  same_length = refl;
  same_counts = λ v. refl;
  outside = λ q h. refl;
}

sort_loop_lem :
    (len left i : ℕ) (a : List ℕ)
    → i + left < len
    → len ≤ length a
    → IsSortedTo i len a
    → IsSortedTo (i + left) len (sort_loop len left i a)
      × IsRearranged len a (sort_loop len left i a)
unfolding sort_loop
sort_loop_lem len zero i a p fits sorted =
    (λ x y u v w. sorted x y (omega arith) v w, IsRearranged-refl len a)
sort_loop_lem len (suc left) i a p fits sorted =
    let m = min_loop a (len - i) i i in
    let is = min_loop_lem a i len (omega arith) in
    let moved = IsRearranged-swap a len i m (omega arith) is.below fits in
    let rest =
      sort_loop_lem len left (i + 1) (swap a i m) (omega arith) (omega (arith, moved.same_length))
        (round-IsSortedTo a len i m (omega arith) fits sorted is) in
    (
      λ x y u v w. rest.0 x y (omega arith) v w,
      IsRearranged-trans len a (swap a i m) _ moved rest.1,
    )

-- The entries below `len` are in order.
abbrev pub IsSorted : ℕ → List ℕ → Type 0
IsSorted len a = (p q : ℕ) → p ≤ q → q < len → get_or a p 0 ≤ get_or a q 0

-- `selection_sort` puts the first `len` entries in order, for 0 < len within the array and below
-- 2 ^ 64; the array keeps its length, every value occurs in it as often as before, and the entries
-- from `len` on keep their places.
pub selection_sort-IsSorted :
    (a : List ℕ) (len : ℕ)
    → 0 < len
    → len < 2 ^ 64
    → len ≤ length a
    → IsSorted len (selection_sort a len) × IsRearranged len a (selection_sort a len)
unfolding selection_sort
selection_sort-IsSorted a len pos small fits =
    let rounds : sub 64 len 1 ≡ len - 1 = omega arith in
    let all = sort_loop_lem len (len - 1) 0 a (omega arith) fits (λ p q h. absurd (omega arith)) in
    rw rounds (
      λ p q le h. elim (dec_lt p (len - 1)) [
        | yes early ↦ all.0 p q (omega arith) le h
        | no late ↦ let here : p ≡ q = omega arith in rw here (omega arith)
      ],
      all.1,
    )

composed_loop-sort_loop :
    (len left i : ℕ) (a : List ℕ) → composed_loop len left i a ≡ sort_loop len left i a
unfolding composed_loop sort_loop swap_array
composed_loop-sort_loop len zero i a = refl
composed_loop-sort_loop len (suc left) i a =
    rw (argmin-min_loop a i (len - i)) (composed_loop-sort_loop len left (i + 1) _)

-- The composed sort is the sort, on every array and every length.
pub selection_sort_composed-selection_sort :
    (a : List ℕ) (len : ℕ) → selection_sort_composed a len ≡ selection_sort a len
unfolding selection_sort_composed selection_sort
selection_sort_composed-selection_sort a len = composed_loop-sort_loop len (sub 64 len 1) 0 a

wacky_loop_lem :
    (len left i : ℕ) (a : List ℕ) → 0 < len → len ≤ length a → wacky_loop len left i a ≡ a
unfolding wacky_loop swap_array
wacky_loop_lem len zero i a pos fits = refl
wacky_loop_lem len (suc left) i a pos fits =
    rw
      (swap_twice a 0 ((argmin a 0 len + i) % len) (omega arith)
        (omega (arith, mod-lt (argmin a 0 len + i) pos)))
      (wacky_loop_lem len left (i + 1) a pos fits)

-- The four pairs of swaps before `wacky_sort` sorts undo each other: it is the sort, for 0 < len
-- within the array.
pub wacky_sort-selection_sort :
    (a : List ℕ) (len : ℕ) → 0 < len → len ≤ length a → wacky_sort a len ≡ selection_sort a len
unfolding wacky_sort
wacky_sort-selection_sort a len pos fits =
    rw (wacky_loop_lem len 4 0 a pos fits) (selection_sort_composed-selection_sort a len)
