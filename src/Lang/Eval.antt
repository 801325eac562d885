-- ===== src/Lang/Eval.antt =====
-- tlang/teval.c: eval_expression, which leaves its value on the stack.
use c_algorithm.Base.{
  ◌+◌, ◌-◌, ◌%◌, ◌^◌, ltb, if◌then◌else◌, Bool, true, false, not, Option, none, some,
}
use c_algorithm.Lang.{
  Name, Long, CrbValue, null_value, boolean_value, int_value, float_value, string_value,
  closure_value, module_value, Operator, logical_and_expression, logical_or_expression,
  AssignmentOperator, normal_assign, Expression, boolean_expression, int_expression,
  double_expression, string_expression, identifier_expression, comma_expression, assign_expression,
  concat_string_expression, binary_expression, minus_expression, logical_not_expression,
  null_expression, increment_expression, decrement_expression, Eval, ◌>>=◌, ◌>>◌, crashes,
  null_pointer, Library, crb_runtime_error, identifier_not_found_err, not_boolean_type_err,
  minus_operand_type_err, not_lvalue_err, inc_dec_operand_type_err, inc_dec_operand_not_exist_err,
}
use c_algorithm.Lang.Number.{add_long, sub_long, neg_long, chain_string}
use c_algorithm.Lang.Variables.{
  Place, Found, search_identifier, search_function, has_name, crb_get_identifier_lvalue,
  write_place, create_variable,
}
use c_algorithm.Lang.Stack.{
  push_value, pop_value, peek_stack, peek_below, shrink_stack, poke_stack, boolean_member,
}
use c_algorithm.Lang.Operands.{binary_result, do_assign}

unfoldable pub eval_identifier_expression : Name → Eval (Unit {0})
eval_identifier_expression x s = elim (search_identifier x s) [
  | some f ↦ push_value f.value s
  | none ↦ elim (search_function x s) [
    | some table ↦ push_value (closure_value table x) s
    | none ↦
        if has_name s.modules x
        then push_value (module_value x) s
        else crb_runtime_error identifier_not_found_err s
  ]
]

abbrev pub negate_top : Library → CrbValue → Eval (Unit {0})
negate_top c (int_value n) = poke_stack (int_value (neg_long n))
negate_top c (float_value d) = poke_stack (float_value (c.double_neg d))
negate_top c _ = crb_runtime_error minus_operand_type_err

unfoldable pub eval_minus_expression : Library → (operand : Eval (Unit {0})) → Eval (Unit {0})
eval_minus_expression c operand = do operand; v ← peek_stack; negate_top c v

abbrev pub invert_top : CrbValue → Eval (Unit {0})
invert_top (boolean_value b) = poke_stack (boolean_value (not b))
invert_top _ = crb_runtime_error not_boolean_type_err

unfoldable pub eval_logical_not_expression : (operand : Eval (Unit {0})) → Eval (Unit {0})
eval_logical_not_expression operand = do operand; v ← peek_stack; invert_top v

-- The right operand of a logical operator, whose type is not checked. For a value that is not a
-- boolean the source goes on with the bytes of the union; here it is a crash.
abbrev pub right_operand : Eval (Unit {0}) → Eval (Unit {0})
right_operand right = do
  right
  right_val ← pop_value
  r ← boolean_member right_val
  push_value (boolean_value r)

abbrev pub test_left : (is_and : Bool) → (right : Eval (Unit {0})) → CrbValue → Eval (Unit {0})
test_left is_and right (boolean_value b) =
    if (if is_and then b else not b) then right_operand right else push_value (boolean_value b)
test_left is_and right _ = crb_runtime_error not_boolean_type_err

-- LOGICAL_AND_EXPRESSION or LOGICAL_OR_EXPRESSION
unfoldable pub eval_logical_and_or_expression :
    (is_and : Bool) → (left right : Eval (Unit {0})) → Eval (Unit {0})
eval_logical_and_or_expression is_and left right = do
  left
  left_val ← pop_value
  test_left is_and right left_val

unfoldable pub eval_binary_expression :
    Library → Operator → (left right : Eval (Unit {0})) → Eval (Unit {0})
eval_binary_expression c op left right = do
  left
  right
  left_val ← peek_below
  right_val ← peek_stack
  result ← binary_result c op left_val right_val
  shrink_stack
  shrink_stack
  push_value result

unfoldable pub eval_binary_concat_string :
    Library → (left right : Eval (Unit {0})) → Eval (Unit {0})
eval_binary_concat_string c left right = do
  left
  right
  left_val ← peek_below
  right_val ← peek_stack
  shrink_stack
  shrink_stack
  push_value (chain_string c (c.value_to_string left_val) right_val)

-- the left-hand sides of the fragment
unfoldable pub get_lvalue : Expression → Eval (Option Found)
get_lvalue (identifier_expression x) = crb_get_identifier_lvalue x
get_lvalue _ = crb_runtime_error not_lvalue_err

-- the new variable, where `left` is an identifier that names none
abbrev pub assign_new :
    (left : Expression)
    → (src : CrbValue) → AssignmentOperator
    → (is_final : Bool) → Eval (Unit {0})
assign_new (identifier_expression x) src normal_assign is_final = create_variable x src is_final
assign_new (identifier_expression x) src _ is_final = crb_runtime_error identifier_not_found_err
assign_new _ src _ is_final = crashes null_pointer

abbrev pub assign_to : Library → (src : CrbValue) → AssignmentOperator → Found → Eval (Unit {0})
assign_to c src op f = do v ← do_assign c src f.value op; write_place f.place v

unfoldable pub eval_assign_expression :
    Library
    → (is_final : Bool) → AssignmentOperator
    → (left : Expression) → (operand : Eval (Unit {0})) → Eval (Unit {0})
eval_assign_expression c is_final op left operand = do
  operand
  src ← peek_stack
  dest ← get_lvalue left
  elim dest [ none ↦ assign_new left src op is_final | some f ↦ assign_to c src op f ]

-- `int old_value` keeps the low 32 bits, and is widened again
abbrev pub as_int : Long → Long
as_int n = let low = n % 2 ^ 32 in if ltb low (2 ^ 31) then low else low + (2 ^ 64 - 2 ^ 32)

abbrev pub step_place : (is_increment : Bool) → Place → CrbValue → Eval (Unit {0})
step_place is_increment p (int_value n) = do
  write_place p (int_value (if is_increment then add_long n 1 else sub_long n 1))
  push_value (int_value (as_int n))
step_place is_increment p _ = crb_runtime_error inc_dec_operand_type_err

unfoldable pub eval_inc_dec_expression : (is_increment : Bool) → Expression → Eval (Unit {0})
eval_inc_dec_expression is_increment operand = do
  dest ← get_lvalue operand
  elim dest [
    | none ↦ crb_runtime_error inc_dec_operand_not_exist_err
    | some f ↦ step_place is_increment f.place f.value
  ]

unfoldable pub eval_comma_expression : (left right : Eval (Unit {0})) → Eval (Unit {0})
eval_comma_expression left right = do left; shrink_stack; right

unfoldable pub eval_expression : Library → Expression → Eval (Unit {0})
eval_expression c (boolean_expression b) = push_value (boolean_value b)
eval_expression c (int_expression n) = push_value (int_value n)
eval_expression c (double_expression d) = push_value (float_value d)
eval_expression c (string_expression cs) = push_value (string_value cs)
eval_expression c (identifier_expression x) = eval_identifier_expression x
eval_expression c (comma_expression left right) =
    eval_comma_expression (eval_expression c left) (eval_expression c right)
eval_expression c (assign_expression is_final op left operand) =
    eval_assign_expression c is_final op left (eval_expression c operand)
eval_expression c (concat_string_expression left right) =
    eval_binary_concat_string c (eval_expression c left) (eval_expression c right)
eval_expression c (binary_expression logical_and_expression left right) =
    eval_logical_and_or_expression true (eval_expression c left) (eval_expression c right)
eval_expression c (binary_expression logical_or_expression left right) =
    eval_logical_and_or_expression false (eval_expression c left) (eval_expression c right)
eval_expression c (binary_expression op left right) =
    eval_binary_expression c op (eval_expression c left) (eval_expression c right)
eval_expression c (minus_expression operand) = eval_minus_expression c (eval_expression c operand)
eval_expression c (logical_not_expression operand) =
    eval_logical_not_expression (eval_expression c operand)
eval_expression c null_expression = push_value null_value
eval_expression c (increment_expression operand) = eval_inc_dec_expression true operand
eval_expression c (decrement_expression operand) = eval_inc_dec_expression false operand

unfoldable pub crb_eval_expression : Library → Expression → Eval CrbValue
crb_eval_expression c e = do eval_expression c e; pop_value
