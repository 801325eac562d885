-- ===== src/Lang/Whole.antt =====
-- The operators with two operands, assignments, and whole expressions, on the value stack.
use c_algorithm.Base.{◌≡◌, refl, Bool, true, false, List, ◌∷◌, Option, none, some}
use c_algorithm.Lang.{CrbValue, int_value, Interpreter, ◌>>=◌, ◌>>◌, Eval}
use c_algorithm.Lang.Stack.{push_value, peek_stack, peek_below, shrink_stack}
use c_algorithm.Lang.{
  Operator, logical_and_expression, logical_or_expression, Library, AssignmentOperator, Expression,
  identifier_expression,
}
use c_algorithm.Lang.Variables.{Place, Found}
use c_algorithm.Lang.Balance.{Ends, ends, Ends-bind, error-Ends}
use c_algorithm.Lang.{
  boolean_expression, int_expression, double_expression, string_expression, comma_expression,
  assign_expression, concat_string_expression, binary_expression, minus_expression,
  logical_not_expression, null_expression, increment_expression, decrement_expression,
}
use c_algorithm.Lang.Eval.{
  assign_to, step_place, eval_binary_expression, eval_binary_concat_string, eval_assign_expression,
  eval_inc_dec_expression, eval_comma_expression, eval_expression, crb_eval_expression, as_int,
}
use c_algorithm.Lang.Balance.{
  Ends-map, Ends-over, Pushed, push_value-Pushed, pop_value-Ends, peek_stack-Ends, peek_below-Ends,
  shrink_stack-Ends,
}
use c_algorithm.Lang.Keeps.{
  Keeps, Keeps-option, binary_result-Keeps, do_assign-Keeps, get_lvalue-Keeps, write_place-Keeps,
  assign_new-Keeps,
}
use c_algorithm.Lang.Pushes.{
  Pushes, Pushes-over, Keeps-over, Keeps-over_two, eval_identifier_expression-Pushes,
  eval_minus_expression-Pushes, eval_logical_not_expression-Pushes, Pushes-at, Keeps-at,
  eval_logical_and_or_expression-Pushes,
}

module _ {F : Type 0} where
  -- two values replaced by one
  replace_two :
      (result : CrbValue) (s : Interpreter) {v w : CrbValue} {vs : List CrbValue}
      → s.stack ≡ v ∷ w ∷ vs
      → Ends F (Pushed vs) vs ((shrink_stack >>= λ _. shrink_stack >>= λ _. push_value result) s)
  replace_two result s {w = w} {vs = vs} e =
      Ends-bind (Ends-over refl (shrink_stack-Ends s _ (w ∷ vs) e)) λ _ s₁ e₁.
        Ends-bind (shrink_stack-Ends s₁ w vs e₁) λ _ s₂ e₂. push_value-Pushed result s₂ vs e₂

  -- what the operands' values are replaced by
  over_operands :
      {left right : Eval (Unit {0})} {result : CrbValue → CrbValue → Eval CrbValue}
      → Pushes F left
      → Pushes F right
      → ((v w : CrbValue) → Keeps F (result v w))
      → Pushes F (do
        left
        right
        v ← peek_below
        w ← peek_stack
        r ← result v w
        shrink_stack
        shrink_stack
        push_value r)
  over_operands l r computes s = Ends-bind (l s) λ _ s₁ (v, e₁).
      Ends-bind (Pushes-over s₁ e₁ r) λ _ s₂ (w, e₂).
        Ends-bind (peek_below-Ends s₂ w v s.stack e₂) λ a s₃ (_, e₃).
          Ends-bind (Ends-over refl (peek_stack-Ends s₃ w (v ∷ s.stack) e₃)) λ b s₄ (_, e₄).
            Ends-bind (Keeps-over_two s₄ e₄ (computes a b)) λ r s₅ e₅. replace_two r s₅ e₅

  eval_binary_expression-Pushes :
      (c : Library) (op : Operator) {left right : Eval (Unit {0})}
      → Pushes F left
      → Pushes F right
      → Pushes F (eval_binary_expression c op left right)
  unfolding eval_binary_expression
  eval_binary_expression-Pushes c op l r = over_operands l r (binary_result-Keeps c op)

  eval_binary_concat_string-Pushes :
      (c : Library) {left right : Eval (Unit {0})}
      → Pushes F left
      → Pushes F right
      → Pushes F (eval_binary_concat_string c left right)
  unfolding eval_binary_concat_string
  eval_binary_concat_string-Pushes c l r = over_operands l r (λ v w s. ends refl)

  assign_to-Keeps :
      (c : Library) (src : CrbValue) (op : AssignmentOperator) (f : Found)
      → Keeps F (assign_to c src op f)
  assign_to-Keeps c src op f s =
      Ends-bind (do_assign-Keeps c src f.value op s)
        λ v s₁ e₁. Keeps-at s₁ e₁ (write_place-Keeps f.place v)

  eval_assign_expression-Pushes :
      (c : Library) (is_final : Bool) (op : AssignmentOperator) (left : Expression)
      {operand : Eval (Unit {0})}
      → Pushes F operand
      → Pushes F (eval_assign_expression c is_final op left operand)
  unfolding eval_assign_expression
  eval_assign_expression-Pushes c is_final op left h s = Ends-bind (h s) λ _ s₁ (v, e₁).
      Ends-bind (peek_stack-Ends s₁ v s.stack e₁) λ src s₂ (_, e₂).
        Ends-bind (Keeps-over s₂ e₂ (get_lvalue-Keeps left)) λ dest s₃ e₃.
          Ends-map
            (Keeps-over s₃ e₃ (
              Keeps-option dest _ _ (assign_new-Keeps left src op is_final)
                λ f. assign_to-Keeps c src op f))
            λ _ st e. (v, e)

  step_place-Pushes :
      (is_increment : Bool) (p : Place) (v : CrbValue) → Pushes F (step_place is_increment p v)
  step_place-Pushes is_increment p (int_value n) s =
      Ends-bind (write_place-Keeps p _ s)
        λ _ s₁ e₁. push_value-Pushed (int_value (as_int n)) s₁ s.stack e₁
  step_place-Pushes is_increment p _ s = error-Ends s _

  Pushes-option :
      {X : Type 0} (o : Option X) (m : Eval (Unit {0})) (k : X → Eval (Unit {0}))
      → Pushes F m
      → ((x : X) → Pushes F (k x))
      → Pushes F (elim o [ none ↦ m | some x ↦ k x ])
  Pushes-option none m k h hs = h
  Pushes-option (some x) m k h hs = hs x

  eval_inc_dec_expression-Pushes :
      (is_increment : Bool) (operand : Expression)
      → Pushes F (eval_inc_dec_expression is_increment operand)
  unfolding eval_inc_dec_expression
  eval_inc_dec_expression-Pushes is_increment operand s =
      Ends-bind (get_lvalue-Keeps operand s) λ dest s₁ e₁. Pushes-at s₁ e₁ (
        Pushes-option dest _ _ (λ s₂. error-Ends s₂ _)
          λ f. step_place-Pushes is_increment f.place f.value)

  eval_comma_expression-Pushes :
      {left right : Eval (Unit {0})}
      → Pushes F left
      → Pushes F right
      → Pushes F (eval_comma_expression left right)
  unfolding eval_comma_expression
  eval_comma_expression-Pushes l r s =
      Ends-bind (l s)
        λ _ s₁ (v, e₁). Ends-bind (shrink_stack-Ends s₁ v s.stack e₁) λ _ s₂ e₂. Pushes-at s₂ e₂ r

  push_literal : (v : CrbValue) → Pushes F (push_value v)
  push_literal v s = push_value-Pushed v s s.stack refl

  -- An evaluation leaves the value of the expression on top of the stack, or it throws, or it
  -- crashes; as `F` may be empty, it does not run out of fuel. What was on the stack stays there,
  -- also where it throws, and nothing below the stack is read.
  pub eval_expression-Pushes : (c : Library) (e : Expression) → Pushes F (eval_expression c e)
  unfolding eval_expression
  eval_expression-Pushes c (boolean_expression b) = push_literal _
  eval_expression-Pushes c (int_expression n) = push_literal _
  eval_expression-Pushes c (double_expression d) = push_literal _
  eval_expression-Pushes c (string_expression cs) = push_literal _
  eval_expression-Pushes c null_expression = push_literal _
  eval_expression-Pushes c (identifier_expression x) = eval_identifier_expression-Pushes x
  eval_expression-Pushes c (comma_expression left right) =
      eval_comma_expression-Pushes (eval_expression-Pushes c left) (eval_expression-Pushes c right)
  eval_expression-Pushes c (assign_expression is_final op left operand) =
      eval_assign_expression-Pushes c is_final op left (eval_expression-Pushes c operand)
  eval_expression-Pushes c (concat_string_expression left right) =
      eval_binary_concat_string-Pushes c (eval_expression-Pushes c left)
        (eval_expression-Pushes c right)
  eval_expression-Pushes c (binary_expression logical_and_expression left right) =
      eval_logical_and_or_expression-Pushes true (eval_expression-Pushes c left)
        (eval_expression-Pushes c right)
  eval_expression-Pushes c (binary_expression logical_or_expression left right) =
      eval_logical_and_or_expression-Pushes false (eval_expression-Pushes c left)
        (eval_expression-Pushes c right)
  eval_expression-Pushes c (binary_expression op left right) =
      eval_binary_expression-Pushes c op (eval_expression-Pushes c left)
        (eval_expression-Pushes c right)
  eval_expression-Pushes c (minus_expression operand) =
      eval_minus_expression-Pushes c (eval_expression-Pushes c operand)
  eval_expression-Pushes c (logical_not_expression operand) =
      eval_logical_not_expression-Pushes (eval_expression-Pushes c operand)
  eval_expression-Pushes c (increment_expression operand) =
      eval_inc_dec_expression-Pushes true operand
  eval_expression-Pushes c (decrement_expression operand) =
      eval_inc_dec_expression-Pushes false operand

  -- crb_eval_expression leaves the stack as it was
  pub crb_eval_expression-Keeps : (c : Library) (e : Expression) → Keeps F (crb_eval_expression c e)
  unfolding crb_eval_expression
  crb_eval_expression-Keeps c e s =
      Ends-bind (eval_expression-Pushes c e s)
        λ _ s₁ (v, e₁). Ends-map (pop_value-Ends s₁ v s.stack e₁) (λ a st (_, k). k)
