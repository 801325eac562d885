-- ===== src/Values/Laws.antt =====
-- When the integer COMPARE functions give the sign of the difference, and when they do not.
use c_algorithm.Base.{ℕ, ◌+◌, ◌-◌, ◌*◌, ◌%◌, ◌^◌, ◌<◌, ◌≡◌, arith, pos, negsuc}
use c_algorithm.Values.{asc_order_int, desc_order_int}

-- For two longs whose difference fits an int, asc_order_int is the difference and desc_order_int
-- its negation: at `b + d` against `b`, for 0 < d < 2^31, over the whole range of longs, that is
-- for `b` below zero and `b + d` above it too.
pub order_int-near :
    (b d : ℕ)
    → b < 2 ^ 64
    → 0 < d
    → d < 2 ^ 31
    → (asc_order_int ((b + d) % 2 ^ 64) b ≡ pos d)
      × (asc_order_int b ((b + d) % 2 ^ 64) ≡ negsuc (d - 1))
      × (desc_order_int ((b + d) % 2 ^ 64) b ≡ negsuc (d - 1))
      × (desc_order_int b ((b + d) % 2 ^ 64) ≡ pos d)
unfolding asc_order_int desc_order_int
order_int-near b d hb pos_d h = ground arith

-- Two longs that are a multiple of 2^32 apart compare as equal, however far apart they are.
pub order_int-far :
    (b m : ℕ)
    → b < 2 ^ 64
    → m < 2 ^ 32
    → (asc_order_int ((b + m * 2 ^ 32) % 2 ^ 64) b ≡ pos 0)
      × (desc_order_int ((b + m * 2 ^ 32) % 2 ^ 64) b ≡ pos 0)
unfolding asc_order_int desc_order_int
order_int-far b m hb h = ground arith
