-- ===== src/Lang/Tests.antt =====
-- Programs of the language, with doubles that are whole numbers.
use c_algorithm.Lang.Whole.{eval_expression-Pushes}
use c_algorithm.Base.{
  ◌+◌, ◌-◌, ◌*◌, ◌≡◌, refl, ltb, leb, ◌==◌, true, false, [], ◌∷◌, Option, none, some, pos,
}
use c_algorithm.Lang.{
  CrbValue, null_value, boolean_value, int_value, object_value, Interpreter, Outcome, done, thrown,
  crash, Library, module_table, Expression, boolean_expression, int_expression,
  identifier_expression, assign_expression, binary_expression, minus_expression, null_expression,
  increment_expression, normal_assign, add_assign, add_expression, sub_expression, div_expression,
  lt_expression, eq_expression, ne_expression, logical_and_expression, not_written,
}
use c_algorithm.Lang.{crb_runtime_error}
use c_algorithm.Lang.Number.{
  eval_binary_int, eval_binary_double, eval_binary_numeric, eval_binary_boolean, eval_binary_null,
  eval_compare_string, chain_string,
}
use c_algorithm.Lang.Variables.{
  search_variable, set_variable, search_frames, search_local_variable, search_global_variable,
  search_global_variable_from_env, crb_get_identifier_lvalue, write_variable, write_place,
  add_local_variable, add_global_variable, create_variable,
}
use c_algorithm.Lang.Stack.{push_value, pop_value, peek_stack, peek_below, shrink_stack, poke_stack}
use c_algorithm.Lang.Operands.{binary_result, do_assign}
use c_algorithm.Lang.Eval.{
  eval_identifier_expression, eval_minus_expression, eval_logical_not_expression,
  eval_logical_and_or_expression, eval_binary_expression, eval_binary_concat_string, get_lvalue,
  eval_assign_expression, eval_inc_dec_expression, eval_comma_expression, eval_expression,
  crb_eval_expression,
}
use c_algorithm.Lang.Execute.{
  add_refs, execute_global_statement, execute_expression_statement, execute_return_statement,
  compare_labels, while_rounds, for_rounds, assign_to_variable, execute_try_statement,
  execute_throw_statement, execute_statement, crb_execute_statement_list, execute_elif,
  execute_catch,
}
use c_algorithm.Lang.Statement.{
  StatementResult, Statement, expression_statement, if_statement, while_statement, break_statement,
  try_statement, throw_statement, StatementList, no_statements, statement_then, no_elifs, elif_then,
  no_catch, catch_block,
}
use c_algorithm.Lang.Keeps.{Keeps}
use c_algorithm.Lang.Pushes.{Pushes}
use c_algorithm.Lang.Run.{crb_execute_statement_list-Keeps}
use c_algorithm.Lang.Fold.{created_then_evaluated, crb_create_binary_expression-eval_expression}
use c_algorithm.Lang.Code.{crb_create_binary_expression}
use c_algorithm.Lang.Labels.{Yields, Outward, execute_statement-Outward}
use c_algorithm.Lang.Assigned.{Assigned, assign_to_variable-Assigned}

abbrev library : Library
library = record {
  double_add = λ a b. a + b;
  double_sub = λ a b. a - b;
  double_mul = λ a b. a * b;
  double_div = λ a b. a;
  fmod = λ a b. a;
  double_eq = λ a b. a == b;
  double_lt = λ a b. ltb a b;
  double_le = λ a b. leb a b;
  double_neg = λ a. a;
  double_of_long = λ a. a;
  wcscmp = λ a b. pos 0;
  value_to_string = λ v. [];
}

-- at top level, with a variable `1` of the value 5, and 7 on the stack
abbrev start : Interpreter
start = record {
  stack = int_value 7 ∷ [];
  module_vars = record { name = 1; value = int_value 5; is_final = false } ∷ [];
  global_vars = [];
  module_funcs = [];
  global_funcs = [];
  modules = [];
  env = none;
  current_exception = null_value;
  unused = 100;
}

abbrev x : Expression
x = identifier_expression 1

-- x + 8 / (x - 5)
abbrev quotient : Expression
quotient = binary_expression add_expression x (
    binary_expression div_expression (int_expression 8)
      (binary_expression sub_expression x (int_expression 5)))

-- (1 + 2) < 4 && 6 == -3
abbrev typed : Expression
typed =
    binary_expression logical_and_expression
      (binary_expression lt_expression
        (binary_expression add_expression (int_expression 1) (int_expression 2)) (int_expression 4))
      (binary_expression eq_expression (int_expression 6) (minus_expression (int_expression 3)))

-- try { x + 8 / (x - 5); } catch (e) { x = 1; }
abbrev guarded : Statement
guarded =
    try_statement (statement_then (expression_statement quotient) no_statements)
      (catch_block 2 (
        statement_then
          (expression_statement (assign_expression false normal_assign x (int_expression 1)))
          no_statements))
      no_statements

abbrev guarded_block : StatementList
guarded_block = statement_then guarded no_statements

-- while (x < 8) { x++; }
abbrev counting : StatementList
counting =
    statement_then
      (while_statement none (binary_expression lt_expression x (int_expression 8))
        (statement_then (expression_statement (increment_expression x)) no_statements))
      no_statements

-- outer 3: while (true) { break 3; }
abbrev labelled : Statement
labelled =
    while_statement (some 3) (boolean_expression true)
      (statement_then (break_statement (some 3)) no_statements)

abbrev value_of : Outcome StatementResult → Option CrbValue
value_of (done r s) = elim (s.module_vars) [ [] ↦ none | v ∷ vs ↦ some v.value ]
value_of _ = none

-- a run of a program, which the tests below compute
run_program : StatementList → Interpreter → Outcome StatementResult
unfolding crb_runtime_error eval_binary_int eval_binary_double eval_binary_numeric
    eval_binary_boolean eval_binary_null eval_compare_string chain_string search_variable
    set_variable search_frames search_local_variable search_global_variable
    search_global_variable_from_env crb_get_identifier_lvalue write_variable write_place
    add_local_variable add_global_variable create_variable push_value pop_value peek_stack
    peek_below shrink_stack poke_stack binary_result do_assign eval_identifier_expression
    eval_minus_expression eval_logical_not_expression eval_logical_and_or_expression
    eval_binary_expression eval_binary_concat_string get_lvalue eval_assign_expression
    eval_inc_dec_expression eval_comma_expression eval_expression crb_eval_expression add_refs
    execute_global_statement execute_expression_statement execute_return_statement compare_labels
    while_rounds for_rounds assign_to_variable execute_try_statement execute_throw_statement
    execute_statement crb_execute_statement_list execute_elif execute_catch
run_program = crb_execute_statement_list library 4

counting_ends : value_of (run_program counting start) ≡ some (int_value 8)
unfolding run_program
counting_ends = refl

abbrev run : Expression → StatementList
run e = statement_then (expression_statement e) no_statements

abbrev assign : Expression → StatementList
assign e = run (assign_expression false normal_assign x e)

-- two elifs that are true: both run
both_elifs_run :
    value_of (
      run_program
        (statement_then
          (if_statement
            (boolean_expression false)
            no_statements
            (elif_then
              (boolean_expression true)
              (assign (int_expression 1))
              (elif_then (boolean_expression true) (assign (int_expression 2)) no_elifs))
            no_statements)
          no_statements)
        start)
    ≡ some (int_value 2)
unfolding run_program
both_elifs_run = refl

-- the variable `1` is final, and a function refers to it by a global statement
abbrev in_function : Interpreter
in_function = record start {
  module_vars = record { name = 1; value = int_value 5; is_final = true } ∷ [];
  env = some (record { scope_chain = [] ∷ []; global_var_refs = (1, module_table) ∷ [] });
}

final_is_assigned :
    value_of (run_program (assign (int_expression 9)) in_function) ≡ some (int_value 9)
unfolding run_program
final_is_assigned = refl

-- try { throw null; } finally { } ends normally
thrown_null_is_lost :
    value_of (
      run_program
        (statement_then
          (try_statement
            (statement_then (throw_statement null_expression) no_statements)
            no_catch
            no_statements)
          no_statements)
        start)
    ≡ some (int_value 5)
unfolding run_program
thrown_null_is_lost = refl

abbrev value_when_thrown : Outcome StatementResult → Option CrbValue
value_when_thrown (thrown s) = elim (s.module_vars) [ [] ↦ none | v ∷ vs ↦ some v.value ]
value_when_thrown _ = none

-- try { throw 1; } catch (e) { throw 2; } finally { x = 9; } leaves x as it was
finally_is_skipped :
    value_when_thrown (
      run_program
        (statement_then
          (try_statement
            (statement_then (throw_statement (int_expression 1)) no_statements)
            (catch_block 2 (statement_then (throw_statement (int_expression 2)) no_statements))
            (assign (int_expression 9)))
          no_statements)
        start)
    ≡ some (int_value 5)
unfolding run_program
finally_is_skipped = refl

-- x = 4294967296; x = x++; leaves 0
increment_truncates :
    value_of (
      run_program
        (statement_then
          (expression_statement
            (assign_expression false normal_assign x (int_expression 4_294_967_296)))
          (assign (increment_expression x)))
        start)
    ≡ some (int_value 0)
unfolding run_program
increment_truncates = refl

-- x = null; x += 1; copies a value that nothing was written to
compound_of_null :
    run_program
      (statement_then
        (expression_statement (assign_expression false normal_assign x null_expression))
        (run (assign_expression false add_assign x (int_expression 1))))
      start
    ≡ crash not_written
unfolding run_program
compound_of_null = refl

-- `!=` of an object and itself is true
same_object_differs :
    value_of (
      run_program (assign (binary_expression ne_expression x x)) (record start {
        module_vars = record { name = 1; value = object_value 40; is_final = false } ∷ [];
      }))
    ≡ some (boolean_value true)
unfolding run_program
same_object_differs = refl

eval_expression-Pushes_example : Pushes (⊥) (eval_expression library quotient)
eval_expression-Pushes_example = eval_expression-Pushes library quotient

crb_execute_statement_list-Keeps_example :
    Keeps (Unit {0}) (crb_execute_statement_list library 4 counting)
crb_execute_statement_list-Keeps_example = crb_execute_statement_list-Keeps library 4 counting

crb_create_binary_expression-eval_expression_example :
    created_then_evaluated library
      (crb_create_binary_expression library div_expression (int_expression 8) (int_expression 0))
      start
    ≡ eval_expression library
        (binary_expression div_expression (int_expression 8) (int_expression 0))
        start
crb_create_binary_expression-eval_expression_example =
    crb_create_binary_expression-eval_expression library div_expression (int_expression 8)
      (int_expression 0) start refl

execute_statement-Outward_example :
    Yields (Outward (some 3)) (execute_statement library 4 labelled start)
execute_statement-Outward_example = execute_statement-Outward library 4 (some 3) labelled start refl

assign_to_variable-Assigned_example :
    Assigned 1 (int_value 9) start (assign_to_variable 1 (int_value 9) start)
assign_to_variable-Assigned_example = assign_to_variable-Assigned 1 (int_value 9) start
