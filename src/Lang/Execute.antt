-- ===== src/Lang/Execute.antt =====
-- tlang/texecute.c: execute_statement. A loop has fuel, the number of its rounds; the same number
-- bounds each loop.
use c_algorithm.Base.{
  ℕ, zero, suc, ◌-◌, ◌==◌, if◌then◌else◌, Bool, true, false, List, [], ◌∷◌, Option, none, some,
  length, drop,
}
use c_algorithm.Lang.{
  Name, Table, module_table, inter_table, CrbValue, null_value, boolean_value, LocalEnvironment,
  Expression, Interpreter, Outcome, done, thrown, starved, Eval, pure, ◌>>=◌, ◌>>◌, after, Library,
  crb_runtime_error, not_boolean_type_err, global_statement_in_toplevel_err,
  global_variable_not_found_err,
}
use c_algorithm.Lang.Variables.{
  search_variable, search_ref, crb_get_identifier_lvalue, write_place, create_variable,
}
use c_algorithm.Lang.Stack.{push_value, peek_stack, shrink_stack}
use c_algorithm.Lang.Eval.{eval_expression, crb_eval_expression}
use c_algorithm.Lang.Statement.{
  StatementResult, normal_statement_result, return_statement_result, break_statement_result,
  continue_statement_result, Statement, expression_statement, global_statement, return_statement,
  if_statement, while_statement, for_statement, break_statement, continue_statement, try_statement,
  throw_statement, StatementList, no_statements, statement_then, ElifList, no_elifs, elif_then,
  Catch, no_catch, catch_block,
}

-- the test of a condition
abbrev pub boolean_condition : CrbValue → Eval Bool
boolean_condition (boolean_value b) = pure b
boolean_condition _ = crb_runtime_error not_boolean_type_err

abbrev pub test : Library → Expression → Eval Bool
test c condition = do v ← crb_eval_expression c condition; boolean_condition v

-- the table that a global statement finds a name in
abbrev pub table_of : Name → Interpreter → Option Table
table_of x s = elim (search_variable s.module_vars x) [
  | some v ↦ some module_table
  | none ↦ elim (search_variable s.global_vars x) [ some v ↦ some inter_table | none ↦ none ]
]

abbrev pub add_ref : LocalEnvironment → Name → Interpreter → Outcome LocalEnvironment
add_ref env x s = elim (search_ref env.global_var_refs x) [
  | some table ↦ done env s
  | none ↦ elim (table_of x s) [
    | none ↦ crb_runtime_error global_variable_not_found_err s
    | some table ↦
        let env' = record env { global_var_refs = (x, table) ∷ env.global_var_refs } in
        done env' (record s { env = some env' })
  ]
]

unfoldable pub add_refs : LocalEnvironment → List Name → Eval StatementResult
add_refs env [] s = done normal_statement_result s
add_refs env (x ∷ xs) s = after (add_ref env x s) (λ env' s'. add_refs env' xs s')

unfoldable pub execute_global_statement : List Name → Eval StatementResult
execute_global_statement xs s = elim (s.env) [
  | none ↦ crb_runtime_error global_statement_in_toplevel_err s
  | some env ↦ add_refs env xs s
]

unfoldable pub execute_expression_statement : Library → Expression → Eval StatementResult
execute_expression_statement c e = do _ ← crb_eval_expression c e; pure normal_statement_result

unfoldable pub execute_return_statement : Library → Option Expression → Eval StatementResult
execute_return_statement c none = pure (return_statement_result null_value)
execute_return_statement c (some e) = do
  v ← crb_eval_expression c e
  pure (return_statement_result v)

-- NORMAL_STATEMENT_RESULT where the loop is meant, and the result itself where it is not
unfoldable pub compare_labels :
    (result_label loop_label : Option Name) → (current_result : StatementResult) → StatementResult
compare_labels none loop_label current_result = normal_statement_result
compare_labels (some x) none current_result = current_result
compare_labels (some x) (some y) current_result =
    if x == y then normal_statement_result else current_result

-- after the body of a loop: `break`, or the next round with what `result` holds
abbrev pub after_body :
    (label : Option Name)
    → (next : StatementResult → Eval StatementResult) → StatementResult
    → Eval StatementResult
after_body label next normal_statement_result = next normal_statement_result
after_body label next (return_statement_result v) = pure (return_statement_result v)
after_body label next (break_statement_result x) =
    pure (compare_labels x label (break_statement_result x))
after_body label next (continue_statement_result x) =
    next (compare_labels x label (continue_statement_result x))

-- `result` is what the last round left
unfoldable pub while_rounds :
    (rounds : ℕ)
    → (label : Option Name) → (condition : Eval Bool) → (body : Eval StatementResult)
    → (result : StatementResult) → Eval StatementResult
while_rounds zero label condition body result = starved
while_rounds (suc rounds) label condition body result = condition >>= λ holds.
    if holds
    then body >>= after_body label (while_rounds rounds label condition body)
    else pure result

-- an expression that may be left out, and whose value is dropped
abbrev pub optional : Library → Option Expression → Eval (Unit {0})
optional c none = pure tt
optional c (some e) = do _ ← crb_eval_expression c e; pure tt

abbrev pub optional_test : Library → Option Expression → Eval Bool
optional_test c none = pure true
optional_test c (some e) = test c e

unfoldable pub for_rounds :
    (rounds : ℕ)
    → (label : Option Name) → (condition : Eval Bool) → (post : Eval (Unit {0}))
    → (body : Eval StatementResult) → (result : StatementResult) → Eval StatementResult
for_rounds zero label condition post body result = starved
for_rounds (suc rounds) label condition post body result = condition >>= λ holds.
    if holds
    then body >>= after_body label (λ r. post >> for_rounds rounds label condition post body r)
    else pure result

unfoldable pub assign_to_variable : Name → CrbValue → Eval (Unit {0})
assign_to_variable x v = do
  dest ← crb_get_identifier_lvalue x
  elim dest [ none ↦ create_variable x v false | some f ↦ write_place f.place v ]

-- crb_set_stack_pointer to `n` values
abbrev pub with_stack_pointer : ℕ → Interpreter → Interpreter
with_stack_pointer n s = record s { stack = drop (length s.stack - n) s.stack }

-- the branch of the setjmp that a longjmp comes back to
abbrev pub caught : Option Name → (body : Eval StatementResult) → Eval StatementResult
caught none body s = done normal_statement_result s
caught (some x) body s =
    (do
      push_value s.current_exception
      assign_to_variable x s.current_exception
      r ← body
      shrink_stack
      pure r)
      (record s { current_exception = null_value })

abbrev pub is_null_value : CrbValue → Bool
is_null_value null_value = true
is_null_value _ = false

-- the end of a try statement, which throws an exception on that nothing caught
abbrev pub rethrow : (has_catch : Bool) → StatementResult → Eval StatementResult
rethrow true r s = done r s
rethrow false r s = if is_null_value s.current_exception then done r s else thrown s

-- `setjmp`
abbrev pub recover :
    Outcome StatementResult → (Interpreter → Outcome StatementResult) → Outcome StatementResult
recover (thrown s) handler = handler s
recover out handler = out

abbrev pub is_some {ℓ} : {A : Type ℓ} → Option A → Bool
is_some none = false
is_some (some a) = true

unfoldable pub execute_try_statement :
    (try_block : Eval StatementResult)
    → (exception : Option Name) → (catch_body finally_body : Eval StatementResult)
    → Eval StatementResult
execute_try_statement try_block exception catch_body finally_body s =
    after
      (recover (try_block s)
        λ s'. caught exception catch_body (with_stack_pointer (length s.stack) s'))
      λ r. finally_body >>= λ _. rethrow (is_some exception) r

unfoldable pub execute_throw_statement : Library → Expression → Eval StatementResult
execute_throw_statement c e = do
  eval_expression c e
  v ← peek_stack
  λ s. after (shrink_stack (record s { current_exception = v })) (λ _ s'. thrown s')

abbrev pub exception_name : Catch → Option Name
exception_name no_catch = none
exception_name (catch_block x body) = some x

abbrev pub unless_normal : (next : Eval StatementResult) → StatementResult → Eval StatementResult
unless_normal next normal_statement_result = next
unless_normal next r = pure r

-- the result of an if, and of the elifs with `*executed`
abbrev pub else_branch :
    (else_body : Eval StatementResult) → StatementResult × Bool → Eval StatementResult
else_branch else_body (normal_statement_result, false) = else_body
else_branch else_body (r, executed) = pure r

abbrev pub next_elif :
    (rest : Bool → Eval (StatementResult × Bool)) → StatementResult → Eval (StatementResult × Bool)
next_elif rest normal_statement_result = rest true
next_elif rest r = pure (r, true)

unfoldable mutual
  pub execute_statement : Library → (rounds : ℕ) → Statement → Eval StatementResult
  execute_statement c rounds (expression_statement e) = execute_expression_statement c e
  execute_statement c rounds (global_statement xs) = execute_global_statement xs
  execute_statement c rounds (return_statement e) = execute_return_statement c e
  execute_statement c rounds (if_statement e then_block elifs else_block) = test c e >>= λ holds.
      if holds
      then crb_execute_statement_list c rounds then_block
      else execute_elif c rounds elifs false
        >>= else_branch (crb_execute_statement_list c rounds else_block)
  execute_statement c rounds (while_statement label e block) =
      while_rounds rounds label (test c e) (crb_execute_statement_list c rounds block)
        normal_statement_result
  execute_statement c rounds (for_statement label init e post block) = do
    optional c init
    for_rounds rounds label (optional_test c e) (optional c post)
        (crb_execute_statement_list c rounds block) normal_statement_result
  execute_statement c rounds (break_statement label) = pure (break_statement_result label)
  execute_statement c rounds (continue_statement label) = pure (continue_statement_result label)
  execute_statement c rounds (try_statement block catch finally_block) =
      execute_try_statement (crb_execute_statement_list c rounds block) (exception_name catch)
        (execute_catch c rounds catch) (crb_execute_statement_list c rounds finally_block)
  execute_statement c rounds (throw_statement e) = execute_throw_statement c e

  pub crb_execute_statement_list : Library → (rounds : ℕ) → StatementList → Eval StatementResult
  crb_execute_statement_list c rounds no_statements = pure normal_statement_result
  crb_execute_statement_list c rounds (statement_then statement rest) =
      execute_statement c rounds statement
      >>= unless_normal (crb_execute_statement_list c rounds rest)

  -- An elif that was executed with a normal result does not end the search.
  pub execute_elif :
      Library → (rounds : ℕ) → ElifList → (executed : Bool) → Eval (StatementResult × Bool)
  execute_elif c rounds no_elifs executed = pure (normal_statement_result, executed)
  execute_elif c rounds (elif_then e block rest) executed = test c e >>= λ holds.
      if holds
      then crb_execute_statement_list c rounds block >>= next_elif (execute_elif c rounds rest)
      else execute_elif c rounds rest executed

  pub execute_catch : Library → (rounds : ℕ) → Catch → Eval StatementResult
  execute_catch c rounds no_catch = pure normal_statement_result
  execute_catch c rounds (catch_block x block) = crb_execute_statement_list c rounds block
