-- ===== src/Lang/Operands.antt =====
-- tlang/teval.c: what a binary operator or an assignment computes from the values of its operands.
use c_algorithm.Base.{if◌then◌else◌, ◌&&◌, ◌||◌, Option, none, some}
use c_algorithm.Lang.{
  CrbValue, boolean_value, Operator, add_expression, sub_expression, mul_expression, div_expression,
  mod_expression, AssignmentOperator, normal_assign, add_assign, sub_assign, mul_assign, div_assign,
  mod_assign, Eval, pure, ◌>>=◌, Library, crb_runtime_error, bad_operand_type_err,
}
use c_algorithm.Lang.Number.{
  is_null, eval_binary_numeric, eval_binary_boolean, eval_binary_null, eval_compare_string,
  chain_string,
}
use c_algorithm.Lang.Stack.{
  boolean_member, text_member, is_numeric, is_boolean, is_string, is_object, same_object, is_add,
  written,
}

-- the values of two operands, by their types
abbrev pub numeric_result : Library → Operator → (left right : CrbValue) → Eval CrbValue
numeric_result c op left right = do r ← eval_binary_numeric c op left right; written r

abbrev pub boolean_result : Operator → (left right : CrbValue) → Eval CrbValue
boolean_result op left right = do
  a ← boolean_member left
  b ← boolean_member right
  r ← eval_binary_boolean op a b
  pure (boolean_value r)

abbrev pub chained_result : Library → (left right : CrbValue) → Eval CrbValue
chained_result c left right = do a ← text_member left; pure (chain_string c a right)

abbrev pub compared_result : Library → Operator → (left right : CrbValue) → Eval CrbValue
compared_result c op left right = do
  a ← text_member left
  b ← text_member right
  r ← eval_compare_string c op a b
  pure (boolean_value r)

abbrev pub null_result : Operator → (left right : CrbValue) → Eval CrbValue
null_result op left right = do r ← eval_binary_null op left right; pure (boolean_value r)

-- the value that eval_binary_expression computes from its operands'
unfoldable pub binary_result : Library → Operator → (left right : CrbValue) → Eval CrbValue
binary_result c op left right =
    if is_numeric left && is_numeric right
    then numeric_result c op left right
    else if is_boolean left && is_boolean right
    then boolean_result op left right
    else if is_string left && is_add op
    then chained_result c left right
    else if is_string left && is_string right
    then compared_result c op left right
    else if is_null left || is_null right
    then null_result op left right
    else if is_object left && is_object right
    then pure (boolean_value (same_object left right))
    else crb_runtime_error bad_operand_type_err

-- the operator of a compound assignment
abbrev pub operator_of : AssignmentOperator → Option Operator
operator_of normal_assign = none
operator_of add_assign = some add_expression
operator_of sub_assign = some sub_expression
operator_of mul_assign = some mul_expression
operator_of div_assign = some div_expression
operator_of mod_assign = some mod_expression

-- what `*dest` becomes
unfoldable pub do_assign : Library → (src dest : CrbValue) → AssignmentOperator → Eval CrbValue
do_assign c src dest op = elim (operator_of op) [
  | none ↦ pure src
  | some op ↦
      if is_string dest && is_add op
      then chained_result c dest src
      else numeric_result c op dest src
]
