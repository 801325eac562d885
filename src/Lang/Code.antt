-- ===== src/Lang/Code.antt =====
-- tlang/tcode.c: the expressions that the parser creates, where it computes with literals.
use c_algorithm.Base.{if◌then◌else◌, Bool, true, false, ◌&&◌}
use c_algorithm.Lang.{CrbValue, boolean_value, int_value, float_value, ◌>>=◌, ◌>>◌, Eval, pure}
use c_algorithm.Lang.Stack.{pop_value}
use c_algorithm.Lang.{Operator, Library, Expression}
use c_algorithm.Lang.{
  boolean_expression, int_expression, double_expression, binary_expression, minus_expression,
}
use c_algorithm.Lang.Eval.{eval_minus_expression, eval_binary_expression, eval_expression}

-- `operand->type == INT_EXPRESSION || operand->type == DOUBLE_EXPRESSION`
abbrev pub is_number : Expression → Bool
is_number (int_expression n) = true
is_number (double_expression d) = true
is_number _ = false

-- the literal of a value; other values leave the expression
unfoldable pub set_expression : Expression → CrbValue → Expression
set_expression e (int_value n) = int_expression n
set_expression e (float_value d) = double_expression d
set_expression e (boolean_value b) = boolean_expression b
set_expression e _ = e

unfoldable pub crb_eval_minus_expression : Library → Expression → Eval CrbValue
crb_eval_minus_expression c operand = do
  eval_minus_expression c (eval_expression c operand)
  pop_value

unfoldable pub crb_eval_binary_expression :
    Library → Operator → (left right : Expression) → Eval CrbValue
crb_eval_binary_expression c op left right = do
  eval_binary_expression c op (eval_expression c left) (eval_expression c right)
  pop_value

-- what replaces the operand
abbrev pub fold_minus : Library → Expression → Eval Expression
fold_minus c operand = do v ← crb_eval_minus_expression c operand; pure (set_expression operand v)

abbrev pub fold_binary : Library → Operator → (left right : Expression) → Eval Expression
fold_binary c op left right = do
  v ← crb_eval_binary_expression c op left right
  pure (set_expression left v)

unfoldable pub crb_create_minus_expression : Library → Expression → Eval Expression
crb_create_minus_expression c operand =
    if is_number operand then fold_minus c operand else pure (minus_expression operand)

unfoldable pub crb_create_binary_expression :
    Library → Operator → (left right : Expression) → Eval Expression
crb_create_binary_expression c op left right =
    if is_number left && is_number right
    then fold_binary c op left right
    else pure (binary_expression op left right)
