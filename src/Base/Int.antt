-- ===== src/Base/Int.antt =====
-- Signed integers over the native numbers, for the results of a COMPARE and for signed indices.
use Prim.Native.Nat.{ℕ, ◌+◌, ◌-◌}
use mathlib.Core.Bool.{Bool, true, false}
use c_algorithm.Base.Tests.{leb, ltb, ◌==◌, if◌then◌else◌}

-- `negsuc n` is -(n + 1).
pub data ℤ : Type 0 where
  pos : ℕ → ℤ
  negsuc : ℕ → ℤ

-- `c > 0`; the source's `c <= 0` is its negation
abbrev pub is_pos : ℤ → Bool
is_pos (pos n) = ltb 0 n
is_pos (negsuc n) = false

-- `c < 0`
abbrev pub is_neg : ℤ → Bool
is_neg (pos n) = false
is_neg (negsuc n) = true

-- a - b, as an integer
abbrev pub sub_ℕ : ℕ → ℕ → ℤ
sub_ℕ a b = if leb b a then pos (a - b) else negsuc (b - a - 1)

-- a + 1
abbrev pub suc_ℤ : ℤ → ℤ
suc_ℤ (pos n) = pos (n + 1)
suc_ℤ (negsuc n) = if n == 0 then pos 0 else negsuc (n - 1)

-- a - 1
abbrev pub pred_ℤ : ℤ → ℤ
pred_ℤ (pos n) = if n == 0 then negsuc 0 else pos (n - 1)
pred_ℤ (negsuc n) = negsuc (n + 1)

-- a + n
abbrev pub add_ℕ : ℤ → ℕ → ℤ
add_ℕ (pos a) n = pos (a + n)
add_ℕ (negsuc a) n = sub_ℕ n (a + 1)

-- a - b
abbrev pub sub_ℤ : ℤ → ℤ → ℤ
sub_ℤ (pos a) (pos b) = sub_ℕ a b
sub_ℤ (pos a) (negsuc b) = pos (a + b + 1)
sub_ℤ (negsuc a) (pos b) = negsuc (a + b)
sub_ℤ (negsuc a) (negsuc b) = sub_ℕ b a

abbrev pub is_minus_one : ℤ → Bool
is_minus_one (pos n) = false
is_minus_one (negsuc n) = n == 0

-- a = n
abbrev pub is_nat : ℤ → ℕ → Bool
is_nat (pos a) n = a == n
is_nat (negsuc a) n = false

-- a = b
abbrev pub same_ℤ : ℤ → ℤ → Bool
same_ℤ (pos a) b = is_nat b a
same_ℤ (negsuc a) (pos b) = false
same_ℤ (negsuc a) (negsuc b) = a == b
