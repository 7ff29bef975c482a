-- ===== src/SelectionSort/Tests.antt =====
-- Runs of swap.c, and instances of the theorems.
use saw_script.Base.{ℕ, ◌≡◌, refl, arith, List, [], ◌∷◌, set, if◌then◌else◌, ◌==◌}
use saw_script.SelectionSort.{
  swap, min_loop, sort_loop, composed_loop, swap_array, wacky_loop, argmin, argmin_loop, xor_swap,
  selection_sort, selection_sort_composed, wacky_sort,
}
use saw_script.SelectionSort.Swap.{xor_swap-swap}
use saw_script.SelectionSort.Laws.{
  IsSorted, IsRearranged, selection_sort-IsSorted, selection_sort_composed-selection_sort,
  wacky_sort-selection_sort,
}

abbrev three : List ℕ
three = 3 ∷ 1 ∷ 2 ∷ []

sorted_three : selection_sort three 3 ≡ 1 ∷ 2 ∷ 3 ∷ []
unfolding selection_sort sort_loop min_loop swap
sorted_three = refl

sorted_front : selection_sort three 2 ≡ 1 ∷ 3 ∷ 2 ∷ []
unfolding selection_sort sort_loop min_loop swap
sorted_front = refl

wacky_three : wacky_sort three 3 ≡ 1 ∷ 2 ∷ 3 ∷ []
unfolding wacky_sort selection_sort_composed composed_loop swap_array swap wacky_loop argmin
    argmin_loop
wacky_three = refl

selection_sort-IsSorted_example :
    IsSorted 2 (selection_sort three 2) × IsRearranged 2 three (selection_sort three 2)
selection_sort-IsSorted_example =
    selection_sort-IsSorted three 2 (omega arith) (omega arith) (omega arith)

selection_sort_composed-selection_sort_example :
    selection_sort_composed three 3 ≡ selection_sort three 3
selection_sort_composed-selection_sort_example = selection_sort_composed-selection_sort three 3

wacky_sort-selection_sort_example : wacky_sort three 3 ≡ selection_sort three 3
wacky_sort-selection_sort_example = wacky_sort-selection_sort three 3 (omega arith) (omega arith)

xor_swap-swap_example : xor_swap three 1 2 ≡ (if 1 == 2 then set three 1 0 else swap three 1 2)
xor_swap-swap_example = xor_swap-swap three 1 2 (omega arith) (omega arith)
