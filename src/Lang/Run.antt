-- ===== src/Lang/Run.antt =====
-- Whole programs: their loops, and the value stack.
use c_algorithm.Lang.Catching.{
  execute_try_statement-Keeps, execute_throw_statement-Keeps, unless_normal-Keeps,
  else_branch-Keeps, next_elif-Keeps,
}
use c_algorithm.Base.{ℕ, ◌≡◌, refl, Bool, true, false, ◌||◌}
use c_algorithm.Lang.{Library}
use c_algorithm.Lang.Keeps.{Keeps}
use c_algorithm.Lang.Statement.{
  Statement, expression_statement, global_statement, return_statement, if_statement,
  while_statement, for_statement, break_statement, continue_statement, try_statement,
  throw_statement, StatementList, no_statements, statement_then, ElifList, no_elifs, elif_then,
  Catch, no_catch, catch_block,
}
use c_algorithm.Lang.Keeps.{Keeps-pure, Keeps-if, Keeps-bind}
use c_algorithm.Lang.Execute.{
  exception_name, execute_statement, crb_execute_statement_list, execute_elif, execute_catch,
}
use mathlib.Core.Bool.{false≢true}
use c_algorithm.Lang.Unwind.{
  test-Keeps, optional-Keeps, optional_test-Keeps, execute_return_statement-Keeps,
  execute_expression_statement-Keeps, execute_global_statement-Keeps, while_rounds-Keeps,
  for_rounds-Keeps,
}

-- whether a while or a for stands in the program
unfoldable mutual
  pub has_loop : Statement → Bool
  has_loop (if_statement e block elifs else_block) =
      list_has_loop block || (elif_has_loop elifs || list_has_loop else_block)
  has_loop (while_statement label e block) = true
  has_loop (for_statement label init e post block) = true
  has_loop (try_statement block catch finally_block) =
      list_has_loop block || (catch_has_loop catch || list_has_loop finally_block)
  has_loop _ = false

  pub list_has_loop : StatementList → Bool
  list_has_loop no_statements = false
  list_has_loop (statement_then st rest) = has_loop st || list_has_loop rest

  pub elif_has_loop : ElifList → Bool
  elif_has_loop no_elifs = false
  elif_has_loop (elif_then e block rest) = list_has_loop block || elif_has_loop rest

  pub catch_has_loop : Catch → Bool
  catch_has_loop no_catch = false
  catch_has_loop (catch_block x block) = list_has_loop block

or_left : (a b : Bool) → a ≡ true → (a || b) ≡ true
or_left true b e = refl
or_left false b e = absurd (false≢true e)

or_right : (a b : Bool) → b ≡ true → (a || b) ≡ true
or_right true b e = refl
or_right false b e = e

module _ {F : Type 0} (c : Library) (rounds : ℕ) where
  mutual
    unfolding has_loop list_has_loop elif_has_loop catch_has_loop execute_statement
        crb_execute_statement_list execute_elif execute_catch

    statement-Keeps :
        (st : Statement) → (has_loop st ≡ true → F) → Keeps F (execute_statement c rounds st)
    statement-Keeps (expression_statement e) ok = execute_expression_statement-Keeps c e
    statement-Keeps (global_statement xs) ok = execute_global_statement-Keeps xs
    statement-Keeps (return_statement e) ok = execute_return_statement-Keeps c e
    statement-Keeps (if_statement e block elifs else_block) ok =
        Keeps-bind (test-Keeps c e) λ holds.
          Keeps-if holds (list-Keeps block (λ t. ok (or_left _ _ t))) (
            Keeps-bind (elif-Keeps elifs false (λ t. ok (or_right _ _ (or_left _ _ t)))) λ p.
              else_branch-Keeps p (list-Keeps else_block (λ t. ok (or_right _ _ (or_right _ _ t)))))
    statement-Keeps (while_statement label e block) ok =
        while_rounds-Keeps (ok refl) rounds label _ (test-Keeps c e)
          (list-Keeps block (λ t. ok refl))
    statement-Keeps (for_statement label init e post block) ok =
        Keeps-bind (optional-Keeps c init) λ _.
          for_rounds-Keeps (ok refl) rounds label _ (optional_test-Keeps c e)
            (optional-Keeps c post) (list-Keeps block (λ t. ok refl))
    statement-Keeps (break_statement label) ok = Keeps-pure _
    statement-Keeps (continue_statement label) ok = Keeps-pure _
    statement-Keeps (try_statement block catch finally_block) ok =
        execute_try_statement-Keeps (exception_name catch)
          (list-Keeps block (λ t. ok (or_left _ _ t)))
          (catch-Keeps catch (λ t. ok (or_right _ _ (or_left _ _ t))))
          (list-Keeps finally_block (λ t. ok (or_right _ _ (or_right _ _ t))))
    statement-Keeps (throw_statement e) ok = execute_throw_statement-Keeps c e

    list-Keeps :
        (block : StatementList)
        → (list_has_loop block ≡ true → F)
        → Keeps F (crb_execute_statement_list c rounds block)
    list-Keeps no_statements ok = Keeps-pure _
    list-Keeps (statement_then st rest) ok =
        Keeps-bind (statement-Keeps st (λ t. ok (or_left _ _ t)))
          λ r. unless_normal-Keeps r (list-Keeps rest (λ t. ok (or_right _ _ t)))

    elif-Keeps :
        (elifs : ElifList) (executed : Bool)
        → (elif_has_loop elifs ≡ true → F)
        → Keeps F (execute_elif c rounds elifs executed)
    elif-Keeps no_elifs executed ok = Keeps-pure _
    elif-Keeps (elif_then e block rest) executed ok = Keeps-bind (test-Keeps c e) λ holds.
        Keeps-if holds
          (Keeps-bind (list-Keeps block (λ t. ok (or_left _ _ t)))
            λ r. next_elif-Keeps r λ done_one. elif-Keeps rest done_one (λ t. ok (or_right _ _ t)))
          (elif-Keeps rest executed (λ t. ok (or_right _ _ t)))

    catch-Keeps :
        (catch : Catch) → (catch_has_loop catch ≡ true → F) → Keeps F (execute_catch c rounds catch)
    catch-Keeps no_catch ok = Keeps-pure _
    catch-Keeps (catch_block x block) ok = list-Keeps block ok

-- A list of statements that ends leaves the value stack as it was; one that throws leaves on it what
-- was there, for the try statement that catches it; and nothing below the stack is read.
pub crb_execute_statement_list-Keeps :
    (c : Library) (rounds : ℕ) (block : StatementList)
    → Keeps (Unit {0}) (crb_execute_statement_list c rounds block)
crb_execute_statement_list-Keeps c rounds block = list-Keeps c rounds block (λ t. tt)
