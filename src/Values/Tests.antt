-- ===== src/Values/Tests.antt =====
-- The laws at concrete longs.
use c_algorithm.Base.{◌+◌, ◌*◌, ◌%◌, ◌^◌, ◌≡◌, refl, arith, pos, negsuc}
use c_algorithm.Values.{int_value, asc_order_int, desc_order_int}
use c_algorithm.Values.Laws.{order_int-far}

-- 2 against -3
across_zero : asc_order_int (int_value (pos 2)) (int_value (negsuc 2)) ≡ pos 5
unfolding asc_order_int int_value
across_zero = refl

order_int-far_example :
    (asc_order_int ((7 + 1 * 2 ^ 32) % 2 ^ 64) 7 ≡ pos 0)
    × (desc_order_int ((7 + 1 * 2 ^ 32) % 2 ^ 64) 7 ≡ pos 0)
order_int-far_example = order_int-far 7 1 (omega arith) (omega arith)
