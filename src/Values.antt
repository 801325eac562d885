-- ===== src/Values.antt =====
-- src/algorithm.c and include/algorithm.h: the VALUE union as its 64-bit pattern, and the COMPARE
-- functions on integers. `float_value` is left out: the model has no doubles. `asc_order_str` and
-- `desc_order_str` are over the texts that pointers lead to, and over the library's `strcmp`.
pub mod Laws
mod Tests
use c_algorithm.Base.{ℕ, ◌+◌, ◌-◌, ◌%◌, ◌^◌, List, ℤ, pos, negsuc, ltb, if◌then◌else◌, Value}

-- the pattern of a `long`
unfoldable pub int_value : ℤ → Value
int_value (pos n) = n % 2 ^ 64
int_value (negsuc n) = 2 ^ 64 - 1 - n % 2 ^ 64

-- a pointer is its address
pub ptr_value : ℕ → Value
ptr_value p = p

-- the conversion of a `long` pattern to `int`: the low 32 bits, signed
to_int : ℕ → ℤ
to_int x = let low = x % 2 ^ 32 in if ltb low (2 ^ 31) then pos low else negsuc (2 ^ 32 - 1 - low)

-- The difference is a `long`, which wraps here, and the result is converted to `int`.
unfoldable pub asc_order_int : Value → Value → ℤ
unfolding to_int
asc_order_int a b = to_int ((a + 2 ^ 64 - b) % 2 ^ 64)

unfoldable pub desc_order_int : Value → Value → ℤ
unfolding to_int
desc_order_int a b = to_int ((b + 2 ^ 64 - a) % 2 ^ 64)

module _ (text : ℕ → List ℕ) (strcmp : List ℕ → List ℕ → ℤ) where
  pub asc_order_str : Value → Value → ℤ
  asc_order_str a b = strcmp (text a) (text b)

  pub desc_order_str : Value → Value → ℤ
  desc_order_str a b = strcmp (text b) (text a)
