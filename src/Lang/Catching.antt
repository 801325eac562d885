-- ===== src/Lang/Catching.antt =====
-- The statements that throw and catch, on the value stack.
use c_algorithm.Lang.Whole.{eval_expression-Pushes}
use c_algorithm.Base.{
  ◌-◌, ◌≡◌, refl, ap, subst, ◌∙◌, Bool, true, false, List, [], ◌∷◌, ◌++◌, Option, none, some,
}
use c_algorithm.Lang.{CrbValue, null_value, Interpreter, Outcome, Eval, after}
use c_algorithm.Lang.{Name, Library, Expression, identifier_expression}
use c_algorithm.Lang.Variables.{crb_get_identifier_lvalue}
use c_algorithm.Lang.Eval.{get_lvalue}
use c_algorithm.Lang.Balance.{Ends, ends, breaks, Ends-bind, Ends-if, Kept}
use c_algorithm.Lang.Balance.{Ends-over, push_value-Pushed, peek_stack-Ends, shrink_stack-Ends}
use c_algorithm.Lang.Keeps.{
  Keeps, Keeps-option, get_lvalue-Keeps, write_place-Keeps, create_variable-Keeps,
}
use c_algorithm.Lang.Statement.{
  StatementResult, normal_statement_result, return_statement_result, break_statement_result,
  continue_statement_result,
}
use c_algorithm.Base.{length, drop}
use c_algorithm.Lang.Variables.{crb_get_identifier_lvalue}
use c_algorithm.Lang.Balance.{starves, throws}
use c_algorithm.Lang.Keeps.{Keeps-pure, Keeps-bind}
use c_algorithm.Lang.Pushes.{Keeps-at}
use c_algorithm.Lang.Execute.{
  assign_to_variable, with_stack_pointer, caught, is_null_value, rethrow, recover, is_some,
  execute_try_statement, execute_throw_statement, unless_normal, else_branch, next_elif,
}
use c_algorithm.Lang.Unwind.{drop-append}

module _ {F : Type 0} where
  assign_to_variable-Keeps : (x : Name) (v : CrbValue) → Keeps F (assign_to_variable x v)
  unfolding assign_to_variable crb_get_identifier_lvalue get_lvalue
  assign_to_variable-Keeps x v = Keeps-bind (get_lvalue-Keeps (identifier_expression x)) λ dest.
      Keeps-option dest _ _ (create_variable-Keeps x v false) λ f. write_place-Keeps f.place v

  -- one value more on the stack for the time of an evaluation
  over_value :
      {A B : Type 0} {P : B → List CrbValue → Type 0} {m : Eval A} {k : A → Eval B}
      (s : Interpreter) (v : CrbValue) (vs : List CrbValue)
      → s.stack ≡ v ∷ vs
      → Keeps F m
      → ((a : A) (s' : Interpreter) → s'.stack ≡ v ∷ vs → Ends F P vs (k a s'))
      → Ends F P vs (after (m s) k)
  over_value {A} {m = m} s v vs e h next =
      Ends-bind (Ends-over refl (subst (λ st. Ends F (Kept {A = A} st) st (m s)) e (h s))) next

  caught-Keeps :
      (x : Option Name) {body : Eval StatementResult} → Keeps F body → Keeps F (caught x body)
  caught-Keeps none h s = ends refl
  caught-Keeps (some x) h s =
      Ends-bind
        (push_value-Pushed s.current_exception (record s { current_exception = null_value }) s.stack
          refl)
        λ _ s₁ (v, e₁). over_value s₁ v s.stack e₁ (assign_to_variable-Keeps x _) λ _ s₂ e₂.
          over_value s₂ v s.stack e₂ h
            λ r s₃ e₃. Ends-bind (shrink_stack-Ends s₃ v s.stack e₃) λ _ s₄ e₄. ends e₄

  rethrow-Keeps : (has_catch : Bool) (r : StatementResult) → Keeps F (rethrow has_catch r)
  rethrow-Keeps true r s = ends refl
  rethrow-Keeps false r s = Ends-if (is_null_value s.current_exception) (ends refl) (throws [] refl)

  recover-Ends :
      {vs : List CrbValue} {out : Outcome StatementResult}
      {handler : Interpreter → Outcome StatementResult}
      → Ends F (Kept vs) vs out
      → ((s : Interpreter) (extra : List CrbValue)
          → s.stack ≡ extra ++ vs
          → Ends F (Kept vs) vs (handler s))
      → Ends F (Kept vs) vs (recover out handler)
  recover-Ends (ends holds) h = ends holds
  recover-Ends (throws extra e) h = h _ extra e
  recover-Ends (breaks ne) h = breaks ne
  recover-Ends (starves allowed) h = starves allowed

  pub execute_try_statement-Keeps :
      (x : Option Name) {try_block catch_body finally_body : Eval StatementResult}
      → Keeps F try_block
      → Keeps F catch_body
      → Keeps F finally_body
      → Keeps F (execute_try_statement try_block x catch_body finally_body)
  unfolding execute_try_statement
  execute_try_statement-Keeps x {catch_body = body} ht hc hf s =
      Ends-bind
        (recover-Ends (ht s) λ s₁ extra e.
          let unwound : (with_stack_pointer (length s.stack) s₁).stack ≡ s.stack =
            ap (λ st. drop (length st - length s.stack) st) e ∙ drop-append extra s.stack in
          subst (λ st. Ends F (Kept st) st (caught x body (with_stack_pointer (length s.stack) s₁)))
            unwound (caught-Keeps x hc (with_stack_pointer (length s.stack) s₁)))
        λ r s₂ e₂. Keeps-at s₂ e₂ (Keeps-bind hf λ _. rethrow-Keeps (is_some x) r)

  pub execute_throw_statement-Keeps :
      (c : Library) (e : Expression) → Keeps F (execute_throw_statement c e)
  unfolding execute_throw_statement
  execute_throw_statement-Keeps c e s = Ends-bind (eval_expression-Pushes c e s) λ _ s₁ (v, e₁).
      Ends-bind (peek_stack-Ends s₁ v s.stack e₁) λ w s₂ (_, e₂).
        Ends-bind (shrink_stack-Ends (record s₂ { current_exception = w }) v s.stack e₂)
          λ _ s₃ e₃. throws [] e₃

  pub unless_normal-Keeps :
      {next : Eval StatementResult} (r : StatementResult)
      → Keeps F next
      → Keeps F (unless_normal next r)
  unless_normal-Keeps normal_statement_result h = h
  unless_normal-Keeps (return_statement_result v) h = Keeps-pure _
  unless_normal-Keeps (break_statement_result x) h = Keeps-pure _
  unless_normal-Keeps (continue_statement_result x) h = Keeps-pure _

  pub else_branch-Keeps :
      {else_body : Eval StatementResult} (p : StatementResult × Bool)
      → Keeps F else_body
      → Keeps F (else_branch else_body p)
  else_branch-Keeps (normal_statement_result, false) h = h
  else_branch-Keeps (normal_statement_result, true) h = Keeps-pure _
  else_branch-Keeps (return_statement_result v, _) h = Keeps-pure _
  else_branch-Keeps (break_statement_result x, _) h = Keeps-pure _
  else_branch-Keeps (continue_statement_result x, _) h = Keeps-pure _

  pub next_elif-Keeps :
      {rest : Bool → Eval (StatementResult × Bool)} (r : StatementResult)
      → ((executed : Bool) → Keeps F (rest executed))
      → Keeps F (next_elif rest r)
  next_elif-Keeps normal_statement_result h = h true
  next_elif-Keeps (return_statement_result v) h = Keeps-pure _
  next_elif-Keeps (break_statement_result x) h = Keeps-pure _
  next_elif-Keeps (continue_statement_result x) h = Keeps-pure _
