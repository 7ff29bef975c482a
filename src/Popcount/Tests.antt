-- ===== src/Popcount/Tests.antt =====
-- popcount.c on concrete words.
use saw_script.Base.{◌≡◌, refl, arith, some}
use saw_script.Base.Bits.Lanes.{weight}
use saw_script.Popcount.Laws.{pop_count-weight}
use saw_script.Popcount.{byte_counts, pop_count, pop_count_mul, sparse_loop, pop_count_sparse}

pop_count_dead : pop_count 0xdeadbeef ≡ 24
unfolding byte_counts pop_count
pop_count_dead = refl

pop_count_mul_ones : pop_count_mul 0xffffffff ≡ 32
unfolding byte_counts pop_count_mul
pop_count_mul_ones = refl

pop_count_sparse_ones : pop_count_sparse 0xffffffff ≡ some 32
unfolding pop_count_sparse sparse_loop
pop_count_sparse_ones = refl

pop_count-weight_example :
    (pop_count 0xdeadbeef ≡ weight 32 0xdeadbeef)
    × (pop_count_mul 0xdeadbeef ≡ weight 32 0xdeadbeef)
    × (pop_count_sparse 0xdeadbeef ≡ some (weight 32 0xdeadbeef))
pop_count-weight_example = pop_count-weight 0xdeadbeef (omega arith)
