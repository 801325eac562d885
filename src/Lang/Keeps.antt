-- ===== src/Lang/Keeps.antt =====
-- The operations that compute on values and variables, and leave the stack alone.
use c_algorithm.Base.{
  refl, subst, ◌==◌, if◌then◌else◌, Bool, true, false, ◌&&◌, ◌||◌, Option, none, some,
}
use c_algorithm.Lang.{
  CrbValue, boolean_value, int_value, float_value, string_value, Interpreter, ◌>>=◌, Variable, Eval,
  pure, crb_runtime_error, RuntimeError,
}
use c_algorithm.Lang.{
  Long, Double, Text, Name, module_table, inter_table, Operator, div_expression, mod_expression,
  eq_expression, ne_expression, gt_expression, ge_expression, lt_expression, le_expression,
  logical_and_expression, logical_or_expression, Library, AssignmentOperator, normal_assign,
  Expression, identifier_expression, LocalEnvironment,
}
use c_algorithm.Lang.Number.{
  eval_binary_int, eval_binary_double, eval_binary_numeric, eval_binary_boolean, eval_binary_null,
  eval_compare_string, checked, quotient_overflows, is_null,
}
use c_algorithm.Lang.Variables.{
  Place, local_place, global_place, search_identifier, crb_get_identifier_lvalue, write_place,
  create_variable, add_local_variable, add_global_variable, search_function, variable,
}
use c_algorithm.Lang.Stack.{
  boolean_member, text_member, is_numeric, is_boolean, is_string, is_object, is_add, written,
}
use c_algorithm.Lang.Operands.{numeric_result, binary_result, do_assign, operator_of}
use c_algorithm.Lang.Eval.{get_lvalue, assign_new}
use c_algorithm.Lang.Balance.{
  Ends, ends, breaks, Ends-bind, Ends-if, Ends-option, Ends-list, error-Ends, Kept,
}

-- an evaluation that keeps the stack
abbrev pub Keeps : Type 0 → {A : Type 0} → Eval A → Type 0
Keeps F {A} m = (s : Interpreter) → Ends F (Kept {A = A} s.stack) s.stack (m s)

module _ {F : Type 0} where
  pub Keeps-pure : {A : Type 0} (a : A) → Keeps F (pure a)
  Keeps-pure a s = ends refl

  pub Keeps-error : {A : Type 0} (e : RuntimeError) → Keeps F {A = A} (crb_runtime_error e)
  Keeps-error e s = error-Ends s e

  pub Keeps-if :
      {A : Type 0} (test : Bool) {m n : Eval A}
      → Keeps F m
      → Keeps F n
      → Keeps F (if test then m else n)
  Keeps-if true left right = left
  Keeps-if false left right = right

  pub Keeps-bind :
      {A B : Type 0} {m : Eval A} {k : A → Eval B}
      → Keeps F m
      → ((a : A) → Keeps F (k a))
      → Keeps F (m >>= k)
  Keeps-bind {B = B} {k = k} first next s =
      Ends-bind (first s) λ a s' e. subst (λ st. Ends F (Kept {A = B} st) st (k a s')) e (next a s')

  pub Keeps-option :
      {X A : Type 0} (o : Option X) (m : Eval A) (k : X → Eval A)
      → Keeps F m
      → ((x : X) → Keeps F (k x))
      → Keeps F (elim o [ none ↦ m | some x ↦ k x ])
  Keeps-option none m k h hs = h
  Keeps-option (some x) m k h hs = hs x

  checked-Keeps : (left right result : Long) → Keeps F (checked left right result)
  checked-Keeps left right result =
      Keeps-if (right == 0) (Keeps-error _)
        (Keeps-if (quotient_overflows left right) (λ s. breaks cc) (Keeps-pure _))

  eval_binary_int-Keeps :
      (op : Operator) (left right : Long) → Keeps F (eval_binary_int op left right)
  unfolding eval_binary_int
  eval_binary_int-Keeps div_expression left right = checked-Keeps left right _
  eval_binary_int-Keeps mod_expression left right = checked-Keeps left right _
  eval_binary_int-Keeps logical_and_expression left right = Keeps-error _
  eval_binary_int-Keeps logical_or_expression left right = Keeps-error _
  eval_binary_int-Keeps _ left right = Keeps-pure _

  eval_binary_double-Keeps :
      (c : Library) (op : Operator) (left right : Double)
      → Keeps F (eval_binary_double c op left right)
  unfolding eval_binary_double
  eval_binary_double-Keeps c logical_and_expression left right = Keeps-error _
  eval_binary_double-Keeps c logical_or_expression left right = Keeps-error _
  eval_binary_double-Keeps c _ left right = Keeps-pure _

  eval_binary_boolean-Keeps :
      (op : Operator) (left right : Bool) → Keeps F (eval_binary_boolean op left right)
  unfolding eval_binary_boolean
  eval_binary_boolean-Keeps eq_expression left right = Keeps-pure _
  eval_binary_boolean-Keeps ne_expression left right = Keeps-pure _
  eval_binary_boolean-Keeps _ left right = Keeps-error _

  eval_binary_null-Keeps :
      (op : Operator) (left right : CrbValue) → Keeps F (eval_binary_null op left right)
  unfolding eval_binary_null
  eval_binary_null-Keeps eq_expression left right = Keeps-pure _
  eval_binary_null-Keeps ne_expression left right = Keeps-pure _
  eval_binary_null-Keeps _ left right = Keeps-error _

  eval_compare_string-Keeps :
      (c : Library) (op : Operator) (left right : Text)
      → Keeps F (eval_compare_string c op left right)
  unfolding eval_compare_string
  eval_compare_string-Keeps c eq_expression left right = Keeps-pure _
  eval_compare_string-Keeps c ne_expression left right = Keeps-pure _
  eval_compare_string-Keeps c gt_expression left right = Keeps-pure _
  eval_compare_string-Keeps c ge_expression left right = Keeps-pure _
  eval_compare_string-Keeps c lt_expression left right = Keeps-pure _
  eval_compare_string-Keeps c le_expression left right = Keeps-pure _
  eval_compare_string-Keeps c _ left right = Keeps-error _

  pub boolean_member-Keeps : (v : CrbValue) → Keeps F (boolean_member v)
  boolean_member-Keeps (boolean_value b) = Keeps-pure _
  boolean_member-Keeps _ = λ s. breaks cc

  text_member-Keeps : (v : CrbValue) → Keeps F (text_member v)
  text_member-Keeps (string_value cs) = Keeps-pure _
  text_member-Keeps _ = λ s. breaks cc

  written-Keeps : (r : Option CrbValue) → Keeps F (written r)
  written-Keeps none = λ s. breaks cc
  written-Keeps (some v) = Keeps-pure _

  eval_binary_numeric-Keeps :
      (c : Library) (op : Operator) (left right : CrbValue)
      → Keeps F (eval_binary_numeric c op left right)
  unfolding eval_binary_numeric
  eval_binary_numeric-Keeps c op (int_value m) (int_value n) =
      Keeps-bind (eval_binary_int-Keeps op m n) (λ v. Keeps-pure _)
  eval_binary_numeric-Keeps c op (float_value m) (float_value n) =
      Keeps-bind (eval_binary_double-Keeps c op m n) (λ v. Keeps-pure _)
  eval_binary_numeric-Keeps c op (int_value m) (float_value n) =
      Keeps-bind (eval_binary_double-Keeps c op _ n) (λ v. Keeps-pure _)
  eval_binary_numeric-Keeps c op (float_value m) (int_value n) =
      Keeps-bind (eval_binary_double-Keeps c op m _) (λ v. Keeps-pure _)
  eval_binary_numeric-Keeps c op _ _ = Keeps-pure none

  numeric_result-Keeps :
      (c : Library) (op : Operator) (left right : CrbValue)
      → Keeps F (numeric_result c op left right)
  numeric_result-Keeps c op left right =
      Keeps-bind (eval_binary_numeric-Keeps c op left right) written-Keeps

  pub binary_result-Keeps :
      (c : Library) (op : Operator) (left right : CrbValue)
      → Keeps F (binary_result c op left right)
  unfolding binary_result
  binary_result-Keeps c op left right =
      Keeps-if (is_numeric left && is_numeric right) (numeric_result-Keeps c op left right) (
        Keeps-if (is_boolean left && is_boolean right)
          (Keeps-bind (boolean_member-Keeps left) λ a.
            Keeps-bind (boolean_member-Keeps right)
              λ b. Keeps-bind (eval_binary_boolean-Keeps op a b) (λ r. Keeps-pure _))
          (Keeps-if (is_string left && is_add op)
            (Keeps-bind (text_member-Keeps left) (λ a. Keeps-pure _))
            (Keeps-if (is_string left && is_string right)
              (Keeps-bind (text_member-Keeps left) λ a.
                Keeps-bind (text_member-Keeps right)
                  λ b. Keeps-bind (eval_compare_string-Keeps c op a b) (λ r. Keeps-pure _))
              (Keeps-if (is_null left || is_null right)
                (Keeps-bind (eval_binary_null-Keeps op left right) (λ r. Keeps-pure _))
                (Keeps-if (is_object left && is_object right) (Keeps-pure _) (Keeps-error _))))))

  pub do_assign-Keeps :
      (c : Library) (src dest : CrbValue) (op : AssignmentOperator)
      → Keeps F (do_assign c src dest op)
  unfolding do_assign
  do_assign-Keeps c src dest op = Keeps-option (operator_of op) _ _ (Keeps-pure _) λ op.
      Keeps-if (is_string dest && is_add op)
        (Keeps-bind (text_member-Keeps dest) (λ a. Keeps-pure _))
        (numeric_result-Keeps c op dest src)

  crb_get_identifier_lvalue-Keeps : (x : Name) → Keeps F (crb_get_identifier_lvalue x)
  unfolding crb_get_identifier_lvalue
  crb_get_identifier_lvalue-Keeps x s =
      Ends-option (search_identifier x s) _ _ (ends refl)
        λ f. Ends-if f.is_final (error-Ends s _) (ends refl)

  pub get_lvalue-Keeps : (e : Expression) → Keeps F (get_lvalue e)
  unfolding get_lvalue
  get_lvalue-Keeps (identifier_expression x) = crb_get_identifier_lvalue-Keeps x
  get_lvalue-Keeps _ = Keeps-error _

  pub write_place-Keeps : (p : Place) (v : CrbValue) → Keeps F (write_place p v)
  unfolding write_place
  write_place-Keeps (local_place depth x) v s = ends refl
  write_place-Keeps (global_place module_table x) v s = ends refl
  write_place-Keeps (global_place inter_table x) v s = ends refl

  add_local_variable-Keeps :
      (env : LocalEnvironment) (v : Variable) → Keeps F (add_local_variable env v)
  unfolding add_local_variable
  add_local_variable-Keeps env v s =
      Ends-list env.scope_chain _ _ (breaks cc) (λ frame frames. ends refl)

  pub create_variable-Keeps :
      (x : Name) (v : CrbValue) (is_final : Bool) → Keeps F (create_variable x v is_final)
  unfolding create_variable add_global_variable
  create_variable-Keeps x v is_final s =
      Ends-option s.env _ _
        (Ends-option (search_function x s) _ _ (ends refl) (λ table. error-Ends s _))
        λ env. add_local_variable-Keeps env (variable x v is_final) s

  pub assign_new-Keeps :
      (left : Expression) (src : CrbValue) (op : AssignmentOperator) (is_final : Bool)
      → Keeps F (assign_new left src op is_final)
  assign_new-Keeps (identifier_expression x) src normal_assign is_final =
      create_variable-Keeps x src is_final
  assign_new-Keeps (identifier_expression x) src _ is_final = Keeps-error _
  assign_new-Keeps _ src _ is_final = λ s. breaks cc
