-- ===== src/SelectionSort.antt =====
-- exercises/functional-correctness/swap/solution/swap.c: swapping and sorting in place. Pointers
-- are indices into one array, so two of them may be equal.
pub mod Swap
pub mod Minimum
pub mod Laws
mod Tests
use saw_script.Base.{
  ℕ, zero, suc, ◌+◌, ◌-◌, ◌%◌, List, get_or, set, bit_xor, sub, if◌then◌else◌, ltb,
}

unfoldable pub swap : List ℕ → ℕ → ℕ → List ℕ
swap a x y = let tmp = get_or a x 0 in let a₁ = set a x (get_or a y 0) in set a₁ y tmp

unfoldable pub xor_swap : List ℕ → ℕ → ℕ → List ℕ
xor_swap a x y =
    let a₁ = set a x (bit_xor (get_or a x 0) (get_or a y 0)) in
    let a₂ = set a₁ y (bit_xor (get_or a₁ y 0) (get_or a₁ x 0)) in
    set a₂ x (bit_xor (get_or a₂ x 0) (get_or a₂ y 0))

-- The inner loop, which leaves `j_min`.
unfoldable pub min_loop : List ℕ → ℕ → ℕ → ℕ → ℕ
min_loop a zero j j_min = j_min
min_loop a (suc left) j j_min =
    min_loop a left (j + 1) (if ltb (get_or a j 0) (get_or a j_min 0) then j else j_min)

unfoldable pub sort_loop : ℕ → ℕ → ℕ → List ℕ → List ℕ
sort_loop len zero i a = a
sort_loop len (suc left) i a = sort_loop len left (i + 1) (swap a i (min_loop a (len - i) i i))

-- `len - 1` is computed on 64-bit unsigned numbers.
unfoldable pub selection_sort : List ℕ → ℕ → List ℕ
selection_sort a len = sort_loop len (sub 64 len 1) 0 a

-- The loop of `argmin` at the pointer `a + base`.
unfoldable pub argmin_loop : List ℕ → ℕ → ℕ → ℕ → ℕ → ℕ
argmin_loop a base zero j j_min = j_min
argmin_loop a base (suc left) j j_min =
    argmin_loop a base left (j + 1)
      (if ltb (get_or a (base + j) 0) (get_or a (base + j_min) 0) then j else j_min)

unfoldable pub argmin : List ℕ → ℕ → ℕ → ℕ
argmin a base len = argmin_loop a base len 0 0

unfoldable pub swap_array : List ℕ → ℕ → ℕ → List ℕ
swap_array a i j = swap a i j

unfoldable pub composed_loop : ℕ → ℕ → ℕ → List ℕ → List ℕ
composed_loop len zero i a = a
composed_loop len (suc left) i a =
    composed_loop len left (i + 1) (swap_array a i (i + argmin a i (len - i)))

unfoldable pub selection_sort_composed : List ℕ → ℕ → List ℕ
selection_sort_composed a len = composed_loop len (sub 64 len 1) 0 a

-- The sum of an index and `i` does not reach 2 ^ 64.
unfoldable pub wacky_loop : ℕ → ℕ → ℕ → List ℕ → List ℕ
wacky_loop len zero i a = a
wacky_loop len (suc left) i a =
    let swap_idx = (argmin a 0 len + i) % len in
    wacky_loop len left (i + 1) (swap_array (swap_array a 0 swap_idx) 0 swap_idx)

unfoldable pub wacky_sort : List ℕ → ℕ → List ℕ
wacky_sort a len = selection_sort_composed (wacky_loop len 4 0 a) len
