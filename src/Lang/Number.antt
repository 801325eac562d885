-- ===== src/Lang/Number.antt =====
-- tlang/teval.c: arithmetic and comparison of two numbers, of two booleans, of two strings and
-- with null.
use c_algorithm.Base.{
  ℕ, ◌+◌, ◌-◌, ◌*◌, ◌/◌, ◌%◌, ◌^◌, ltb, leb, ◌==◌, if◌then◌else◌, Bool, true, false, not, ◌&&◌,
  ◌||◌, Option, none, some, is_pos, is_neg, ◌++◌,
}
use c_algorithm.Lang.{
  Long, Double, Text, logical_op_integer_operand_err, logical_op_double_operand_err,
  division_by_zero_err, not_boolean_operator_err, not_null_operator_err,
  bad_operator_for_string_err, CrbValue, null_value, boolean_value, int_value, float_value,
  string_value, trap, Operator, add_expression, sub_expression, mul_expression, div_expression,
  mod_expression, eq_expression, ne_expression, gt_expression, ge_expression, lt_expression,
  le_expression, logical_and_expression, logical_or_expression, Eval, pure, ◌>>=◌, crashes, Library,
  crb_runtime_error,
}

abbrev pub crb_is_math_operator : Operator → Bool
crb_is_math_operator add_expression = true
crb_is_math_operator sub_expression = true
crb_is_math_operator mul_expression = true
crb_is_math_operator div_expression = true
crb_is_math_operator mod_expression = true
crb_is_math_operator _ = false

-- the arithmetic of `long`, which wraps around at 64 bits
abbrev pub add_long : Long → Long → Long
add_long a b = (a + b) % 2 ^ 64

abbrev pub neg_long : Long → Long
neg_long a = (2 ^ 64 - a) % 2 ^ 64

abbrev pub sub_long : Long → Long → Long
sub_long a b = (a + (2 ^ 64 - b)) % 2 ^ 64

abbrev pub mul_long : Long → Long → Long
mul_long a b = a * b % 2 ^ 64

abbrev pub is_neg_long : Long → Bool
is_neg_long a = leb (2 ^ 63) a

-- the absolute value
abbrev pub abs_long : Long → ℕ
abs_long a = if is_neg_long a then 2 ^ 64 - a else a

-- the quotient, towards 0
abbrev pub div_long : Long → Long → Long
div_long a b =
    if is_neg_long a
    then if is_neg_long b then abs_long a / abs_long b else neg_long (abs_long a / abs_long b)
    else if is_neg_long b
    then neg_long (abs_long a / abs_long b)
    else abs_long a / abs_long b

-- the remainder, with the sign of the first operand
abbrev pub mod_long : Long → Long → Long
mod_long a b = if is_neg_long a then neg_long (abs_long a % abs_long b) else abs_long a % abs_long b

abbrev pub lt_long : Long → Long → Bool
lt_long a b = ltb ((a + 2 ^ 63) % 2 ^ 64) ((b + 2 ^ 63) % 2 ^ 64)

-- LONG_MIN / -1 and LONG_MIN % -1, which trap
abbrev pub quotient_overflows : Long → Long → Bool
quotient_overflows a b = (a == 2 ^ 63) && (b == 2 ^ 64 - 1)

-- the check of DIV_EXPRESSION and MOD_EXPRESSION
abbrev pub checked : Long → Long → Long → Eval CrbValue
checked left right result =
    if right == 0
    then crb_runtime_error division_by_zero_err
    else if quotient_overflows left right
    then crashes trap
    else pure (int_value result)

unfoldable pub eval_binary_int : Operator → (left right : Long) → Eval CrbValue
eval_binary_int add_expression left right = pure (int_value (add_long left right))
eval_binary_int sub_expression left right = pure (int_value (sub_long left right))
eval_binary_int mul_expression left right = pure (int_value (mul_long left right))
eval_binary_int div_expression left right = checked left right (div_long left right)
eval_binary_int mod_expression left right = checked left right (mod_long left right)
eval_binary_int eq_expression left right = pure (boolean_value (left == right))
eval_binary_int ne_expression left right = pure (boolean_value (not (left == right)))
eval_binary_int gt_expression left right = pure (boolean_value (lt_long right left))
eval_binary_int ge_expression left right = pure (boolean_value (not (lt_long left right)))
eval_binary_int lt_expression left right = pure (boolean_value (lt_long left right))
eval_binary_int le_expression left right = pure (boolean_value (not (lt_long right left)))
eval_binary_int logical_and_expression left right = crb_runtime_error logical_op_integer_operand_err
eval_binary_int logical_or_expression left right = crb_runtime_error logical_op_integer_operand_err

unfoldable pub eval_binary_boolean : Operator → (left right : Bool) → Eval Bool
eval_binary_boolean eq_expression left right = pure (if left then right else not right)
eval_binary_boolean ne_expression left right = pure (if left then not right else right)
eval_binary_boolean _ left right = crb_runtime_error not_boolean_operator_err

abbrev pub is_null : CrbValue → Bool
is_null null_value = true
is_null _ = false

unfoldable pub eval_binary_null : Operator → (left right : CrbValue) → Eval Bool
eval_binary_null eq_expression left right = pure (is_null left && is_null right)
eval_binary_null ne_expression left right = pure (not (is_null left && is_null right))
eval_binary_null _ left right = crb_runtime_error not_null_operator_err

module _ (c : Library) where
  unfoldable pub eval_binary_double : Operator → (left right : Double) → Eval CrbValue
  eval_binary_double add_expression left right = pure (float_value (c.double_add left right))
  eval_binary_double sub_expression left right = pure (float_value (c.double_sub left right))
  eval_binary_double mul_expression left right = pure (float_value (c.double_mul left right))
  eval_binary_double div_expression left right = pure (float_value (c.double_div left right))
  eval_binary_double mod_expression left right = pure (float_value (c.fmod left right))
  eval_binary_double eq_expression left right = pure (boolean_value (c.double_eq left right))
  eval_binary_double ne_expression left right = pure (boolean_value (not (c.double_eq left right)))
  eval_binary_double gt_expression left right = pure (boolean_value (c.double_lt right left))
  eval_binary_double ge_expression left right = pure (boolean_value (c.double_le right left))
  eval_binary_double lt_expression left right = pure (boolean_value (c.double_lt left right))
  eval_binary_double le_expression left right = pure (boolean_value (c.double_le left right))
  eval_binary_double logical_and_expression left right =
      crb_runtime_error logical_op_double_operand_err
  eval_binary_double logical_or_expression left right =
      crb_runtime_error logical_op_double_operand_err

  -- none is a `*result` that nothing is written to
  unfoldable pub eval_binary_numeric : Operator → (left right : CrbValue) → Eval (Option CrbValue)
  eval_binary_numeric op (int_value left) (int_value right) = do
    v ← eval_binary_int op left right
    pure (some v)
  eval_binary_numeric op (float_value left) (float_value right) = do
    v ← eval_binary_double op left right
    pure (some v)
  eval_binary_numeric op (int_value left) (float_value right) = do
    v ← eval_binary_double op (c.double_of_long left) right
    pure (some v)
  eval_binary_numeric op (float_value left) (int_value right) = do
    v ← eval_binary_double op left (c.double_of_long right)
    pure (some v)
  eval_binary_numeric op left right = pure none

  unfoldable pub eval_compare_string : Operator → (left right : Text) → Eval Bool
  eval_compare_string op left right =
      let cmp = c.wcscmp left right in
      elim op [
        | eq_expression ↦ pure (not (is_pos cmp || is_neg cmp))
        | ne_expression ↦ pure (is_pos cmp || is_neg cmp)
        | gt_expression ↦ pure (is_pos cmp)
        | ge_expression ↦ pure (not (is_neg cmp))
        | lt_expression ↦ pure (is_neg cmp)
        | le_expression ↦ pure (not (is_pos cmp))
        | _ ↦ crb_runtime_error bad_operator_for_string_err
      ]

  -- the left operand is a string already
  unfoldable pub chain_string : Text → CrbValue → CrbValue
  chain_string left right = string_value (left ++ c.value_to_string right)
