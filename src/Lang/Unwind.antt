-- ===== src/Lang/Unwind.antt =====
-- The statements and the value stack, which a try statement unwinds.
use c_algorithm.Lang.Whole.{crb_eval_expression-Keeps}
use c_algorithm.Base.{
  ℕ, suc, ◌-◌, ◌≡◌, refl, ap, ◌∙◌, Bool, List, [], ◌∷◌, ◌++◌, Option, none, some, arith,
}
use c_algorithm.Lang.{CrbValue, boolean_value, Eval}
use c_algorithm.Lang.{Name, Library, Expression, LocalEnvironment}
use c_algorithm.Lang.Balance.{ends, Ends-option, error-Ends}
use c_algorithm.Lang.Keeps.{Keeps}
use c_algorithm.Lang.Statement.{
  StatementResult, normal_statement_result, return_statement_result, break_statement_result,
  continue_statement_result,
}
use c_algorithm.Base.{length, length-append, drop, zero}
use c_algorithm.Lang.Variables.{search_ref}
use c_algorithm.Lang.Balance.{starves}
use c_algorithm.Lang.Keeps.{Keeps-pure, Keeps-error, Keeps-if, Keeps-bind}
use c_algorithm.Lang.Execute.{
  boolean_condition, test, table_of, add_ref, add_refs, execute_global_statement,
  execute_expression_statement, execute_return_statement, after_body, while_rounds, optional,
  optional_test, for_rounds,
}

-- the stack pointer set back to where it was
pub drop-append :
    (extra vs : List CrbValue) → drop (length (extra ++ vs) - length vs) (extra ++ vs) ≡ vs
drop-append [] vs =
    let nothing : length vs - length vs ≡ 0 = omega arith in ap (λ n. drop n vs) nothing
drop-append (v ∷ extra) vs =
    let one_more : suc (length (extra ++ vs)) - length vs ≡ suc (length (extra ++ vs) - length vs) =
      omega (arith, length-append extra vs) in
    ap (λ n. drop n (v ∷ extra ++ vs)) one_more ∙ drop-append extra vs

module _ {F : Type 0} where
  pub boolean_condition-Keeps : (v : CrbValue) → Keeps F (boolean_condition v)
  boolean_condition-Keeps (boolean_value b) = Keeps-pure _
  boolean_condition-Keeps _ = Keeps-error _

  pub test-Keeps : (c : Library) (e : Expression) → Keeps F (test c e)
  test-Keeps c e = Keeps-bind (crb_eval_expression-Keeps c e) boolean_condition-Keeps

  pub optional-Keeps : (c : Library) (e : Option Expression) → Keeps F (optional c e)
  optional-Keeps c none = Keeps-pure _
  optional-Keeps c (some e) = Keeps-bind (crb_eval_expression-Keeps c e) (λ v. Keeps-pure _)

  pub optional_test-Keeps : (c : Library) (e : Option Expression) → Keeps F (optional_test c e)
  optional_test-Keeps c none = Keeps-pure _
  optional_test-Keeps c (some e) = test-Keeps c e

  pub execute_return_statement-Keeps :
      (c : Library) (e : Option Expression) → Keeps F (execute_return_statement c e)
  unfolding execute_return_statement
  execute_return_statement-Keeps c none = Keeps-pure _
  execute_return_statement-Keeps c (some e) =
      Keeps-bind (crb_eval_expression-Keeps c e) (λ v. Keeps-pure _)

  pub execute_expression_statement-Keeps :
      (c : Library) (e : Expression) → Keeps F (execute_expression_statement c e)
  unfolding execute_expression_statement
  execute_expression_statement-Keeps c e =
      Keeps-bind (crb_eval_expression-Keeps c e) (λ v. Keeps-pure _)

  pub add_ref-Keeps : (env : LocalEnvironment) (x : Name) → Keeps F (add_ref env x)
  add_ref-Keeps env x s =
      Ends-option (search_ref env.global_var_refs x) _ _
        (Ends-option (table_of x s) _ _ (error-Ends s _) (λ table. ends refl)) (λ table. ends refl)

  pub add_refs-Keeps : (env : LocalEnvironment) (xs : List Name) → Keeps F (add_refs env xs)
  unfolding add_refs
  add_refs-Keeps env [] = Keeps-pure _
  add_refs-Keeps env (x ∷ xs) = Keeps-bind (add_ref-Keeps env x) (λ env'. add_refs-Keeps env' xs)

  pub execute_global_statement-Keeps : (xs : List Name) → Keeps F (execute_global_statement xs)
  unfolding execute_global_statement
  execute_global_statement-Keeps xs s =
      Ends-option s.env _ _ (error-Ends s _) (λ env. add_refs-Keeps env xs s)

  pub after_body-Keeps :
      (label : Option Name) {next : StatementResult → Eval StatementResult} (r : StatementResult)
      → ((x : StatementResult) → Keeps F (next x))
      → Keeps F (after_body label next r)
  after_body-Keeps label normal_statement_result h = h _
  after_body-Keeps label (return_statement_result v) h = Keeps-pure _
  after_body-Keeps label (break_statement_result x) h = Keeps-pure _
  after_body-Keeps label (continue_statement_result x) h = h _

  pub while_rounds-Keeps :
      F
      → (rounds : ℕ) (label : Option Name) {condition : Eval Bool} {body : Eval StatementResult}
        (r : StatementResult)
      → Keeps F condition
      → Keeps F body
      → Keeps F (while_rounds rounds label condition body r)
  unfolding while_rounds
  while_rounds-Keeps allowed zero label r hc hb = λ s. starves allowed
  while_rounds-Keeps allowed (suc rounds) label r hc hb = Keeps-bind hc λ holds.
      Keeps-if holds
        (Keeps-bind hb
          λ x. after_body-Keeps label x λ y. while_rounds-Keeps allowed rounds label y hc hb)
        (Keeps-pure _)

  pub for_rounds-Keeps :
      F
      → (rounds : ℕ) (label : Option Name) {condition : Eval Bool} {post : Eval (Unit {0})}
        {body : Eval StatementResult} (r : StatementResult)
      → Keeps F condition
      → Keeps F post
      → Keeps F body
      → Keeps F (for_rounds rounds label condition post body r)
  unfolding for_rounds
  for_rounds-Keeps allowed zero label r hc hp hb = λ s. starves allowed
  for_rounds-Keeps allowed (suc rounds) label r hc hp hb = Keeps-bind hc λ holds.
      Keeps-if holds
        (Keeps-bind hb λ x.
          after_body-Keeps label x
            λ y. Keeps-bind hp λ _. for_rounds-Keeps allowed rounds label y hc hp hb)
        (Keeps-pure _)
