-- ===== src/Lang.antt =====
-- tlang/tinterpreter.h, tlang/include/tlang.h: the values, expressions and the state of the
-- interpreter, and how an evaluation ends. Expressions on arrays, associations, members, methods
-- and calls are left out.
pub mod Number
pub mod Variables
pub mod Stack
pub mod Operands
pub mod Eval
pub mod Balance
pub mod Keeps
pub mod Pushes
pub mod Whole
pub mod Statement
pub mod Execute
pub mod Unwind
pub mod Catching
pub mod Run
pub mod Code
pub mod Fold
pub mod Labels
pub mod Lookup
pub mod Rewritten
pub mod Assigned
pub mod Types
pub mod Sound
mod Tests
use c_algorithm.Base.{ℕ, suc, Bool, true, false, List, [], ◌∷◌, Option, ℤ}

-- a `const char *` that names something, up to strcmp
abbrev pub Name : Type 0
Name = ℕ

-- a `long`, as its 64-bit pattern
abbrev pub Long : Type 0
Long = ℕ

-- a `double`, as its 64-bit pattern
abbrev pub Double : Type 0
Double = ℕ

-- the codes of a CRB_Char string, without the closing 0
abbrev pub Text : Type 0
Text = List ℕ

pub data RuntimeError : Type 0 where
  identifier_not_found_err not_boolean_type_err minus_operand_type_err : RuntimeError
  bad_operand_type_err logical_op_double_operand_err : RuntimeError
  logical_op_integer_operand_err not_boolean_operator_err not_null_operator_err : RuntimeError
  not_lvalue_err inc_dec_operand_type_err inc_dec_operand_not_exist_err : RuntimeError
  bad_operator_for_string_err division_by_zero_err function_exists_err : RuntimeError
  assign_to_final_variable_err global_variable_not_found_err : RuntimeError
  global_statement_in_toplevel_err : RuntimeError

-- the two tables of a name: of the current module, and of the interpreter (module NULL)
pub data Table : Type 0 where
  module_table inter_table : Table

-- CRB_Value. A string stands for its text. An array, an association or a native pointer is the
-- address of its object; an exception is the address of an object that crb_runtime_error created,
-- and the error.
pub data CrbValue : Type 0 where
  null_value : CrbValue
  boolean_value : Bool → CrbValue
  int_value : Long → CrbValue
  float_value : Double → CrbValue
  string_value : Text → CrbValue
  object_value : ℕ → CrbValue
  closure_value : Table → Name → CrbValue
  module_value : Name → CrbValue
  exception_value : ℕ → RuntimeError → CrbValue

-- the ExpressionTypes with two operands
pub data Operator : Type 0 where
  add_expression sub_expression mul_expression div_expression mod_expression : Operator
  eq_expression ne_expression gt_expression ge_expression lt_expression le_expression : Operator
  logical_and_expression logical_or_expression : Operator

pub data AssignmentOperator : Type 0 where
  normal_assign add_assign sub_assign mul_assign div_assign mod_assign : AssignmentOperator

pub data Expression : Type 0 where
  boolean_expression : Bool → Expression
  int_expression : Long → Expression
  double_expression : Double → Expression
  string_expression : Text → Expression
  identifier_expression : Name → Expression
  comma_expression : (left right : Expression) → Expression
  assign_expression :
      (is_final : Bool) → AssignmentOperator → (left operand : Expression) → Expression
  concat_string_expression : (left right : Expression) → Expression
  binary_expression : Operator → (left right : Expression) → Expression
  minus_expression : Expression → Expression
  logical_not_expression : Expression → Expression
  null_expression : Expression
  increment_expression : Expression → Expression
  decrement_expression : Expression → Expression

-- Variable, and AssocMember in a frame
pub record Variable : Type 0 where
  pub name : Name
  pub value : CrbValue
  pub is_final : Bool

-- CRB_LocalEnvironment: the frames of the scope chain, the innermost first, and the names that a
-- global statement refers to, each with the table that its variable stands in. No names also
-- stand for a NULL `global_var_refs`.
pub record LocalEnvironment : Type 0 where
  pub scope_chain : List (List Variable)
  pub global_var_refs : List (Name × Table)

-- CRB_Interpreter with the environment that it runs in; `env` is none at top level. `stack` holds
-- the values below the stack pointer, the last pushed one first; `unused` is the next address
-- that alloc_object gives out.
pub record Interpreter : Type 0 where
  pub stack : List CrbValue
  pub module_vars : List Variable
  pub global_vars : List Variable
  pub module_funcs : List Name
  pub global_funcs : List Name
  pub modules : List Name
  pub env : Option LocalEnvironment
  pub current_exception : CrbValue
  pub unused : ℕ

-- a read below the stack, a read of a CRB_Value that was not written to, a read of a member of
-- the union for another type, a division that traps, and a use of a NULL pointer
pub data Crash : Type 0 where
  no_value not_written other_member trap null_pointer : Crash

-- A value; a longjmp to the current recovery environment; undefined behaviour or the end of the
-- process; or the model's fuel running out.
pub data Outcome {ℓ} (A : Type ℓ) : Type ℓ where
  done : A → Interpreter → Outcome A
  thrown : Interpreter → Outcome A
  crash : Crash → Outcome A
  no_fuel : Outcome A

abbrev pub Eval : Type 0 → Type 0
Eval A = Interpreter → Outcome A

abbrev pub pure : {A : Type 0} → A → Eval A
pure a s = done a s

abbrev pub after {ℓ κ} :
    {A : Type ℓ} {B : Type κ} → Outcome A → (A → Interpreter → Outcome B) → Outcome B
after (done a s) f = f a s
after (thrown s) f = thrown s
after (crash why) f = crash why
after no_fuel f = no_fuel

infixl 5 ◌>>=◌ ◌>>◌
abbrev pub ◌>>=◌ : {A B : Type 0} → Eval A → (A → Eval B) → Eval B
◌>>=◌ m f s = after (m s) f

abbrev pub ◌>>◌ : {A : Type 0} → Eval (Unit {0}) → Eval A → Eval A
m >> k = m >>= λ _. k

-- the state, and a change of it
abbrev pub get_state : Eval Interpreter
get_state s = done s s

abbrev pub put_state : Interpreter → Eval (Unit {0})
put_state s _ = done tt s

abbrev pub crashes : {A : Type 0} → Crash → Eval A
crashes why s = crash why

abbrev pub starved : {A : Type 0} → Eval A
starved s = no_fuel

-- What stands for code of the C library: the arithmetic and the order of `double`, wcscmp, and
-- CRB_value_to_string, which prints with sprintf.
pub record Library : Type 0 where
  pub double_add : Double → Double → Double
  pub double_sub : Double → Double → Double
  pub double_mul : Double → Double → Double
  pub double_div : Double → Double → Double
  pub fmod : Double → Double → Double
  pub double_eq : Double → Double → Bool
  pub double_lt : Double → Double → Bool
  pub double_le : Double → Double → Bool
  pub double_neg : Double → Double
  pub double_of_long : Long → Double
  pub wcscmp : Text → Text → ℤ
  pub value_to_string : CrbValue → Text

-- crb_runtime_error
unfoldable pub crb_runtime_error : {A : Type 0} → RuntimeError → Eval A
crb_runtime_error e s =
    thrown (record s { current_exception = exception_value s.unused e; unused = suc s.unused })
