-- ===== src/Order.antt =====
-- COMPARE functions: what a caller of the library hands over.
use c_algorithm.Base.{◌≡◌, Bool, true, false, ℤ, is_pos, Value, arith}

abbrev pub Compare : Type 0
Compare = Value → Value → ℤ

-- `compare(a, b) > 0`
abbrev pub gt : Compare → Value → Value → Bool
gt cmp a b = is_pos (cmp a b)

-- `compare(a, b) <= 0`
abbrev pub Le : Compare → Value → Value → Type 0
Le cmp a b = gt cmp a b ≡ false

-- what the sorts and the heap need of a COMPARE
pub record IsOrder (cmp : Compare) : Type 0 where
  pub total : (a b : Value) → gt cmp a b ≡ true → Le cmp b a
  pub trans : (a b c : Value) → Le cmp a b → Le cmp b c → Le cmp a c

pub Le_refl : (cmp : Compare) → IsOrder cmp → (a : Value) → Le cmp a a
Le_refl cmp o a = ground (arith, o.total a a)
