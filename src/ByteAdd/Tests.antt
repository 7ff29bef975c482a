-- ===== src/ByteAdd/Tests.antt =====
-- Runs of byte_add.c, and the theorem at concrete numbers.
use saw_script.Base.{◌+◌, ◌%◌, ◌^◌, ◌<◌, ◌≡◌, ◌↔◌, refl, arith, some}
use saw_script.ByteAdd.{
  Bytes, components, component, put, sum_loop, clear_loop, assembled, Combined, defined, undefined,
  combine, finish, mp_add,
}
use saw_script.ByteAdd.Laws.{Spoiled, mp_add_lem}

abbrev junk : Bytes
junk = record { c0 = 9; c1 = 9; c2 = 9; c3 = 9 }

small_sum : mp_add junk 1000 70000 ≡ some (defined 71000)
unfolding mp_add sum_loop components component put clear_loop assembled combine finish
small_sum = refl

-- 4294967295 + 2 wraps.
wrapped_sum : mp_add junk 4294967295 2 ≡ some (defined 1)
unfolding mp_add sum_loop components component put clear_loop assembled combine finish
wrapped_sum = refl

-- 255 + 0 is not 511.
spoiled_sum : mp_add junk 255 0 ≡ some (defined 511)
unfolding mp_add sum_loop components component put clear_loop assembled combine finish
spoiled_sum = refl

-- 2147483648 + 0 shifts the byte 128.
large_sum : mp_add junk 2147483648 0 ≡ some undefined
unfolding mp_add sum_loop components component put clear_loop assembled combine finish
large_sum = refl

mp_add_lem_example :
    (v : Combined) × (mp_add junk 1000 70000 ≡ some v)
    × ((v ≡ defined ((1000 + 70000) % 2 ^ 32)) ↔ (
        ((1000 + 70000) % 2 ^ 32 < 2 ^ 31)
        × (¬ Spoiled 1 1000 70000)
        × (¬ Spoiled (2 ^ 8) 1000 70000)
        × (¬ Spoiled (2 ^ 16) 1000 70000)))
mp_add_lem_example = mp_add_lem junk 1000 70000 (omega arith) (omega arith)
