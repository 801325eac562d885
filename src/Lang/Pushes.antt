-- ===== src/Lang/Pushes.antt =====
-- eval_expression and the value stack.
use c_algorithm.Base.{◌≡◌, refl, ap, subst, ◌∙◌, Bool, true, false, List, ◌∷◌}
use c_algorithm.Lang.{
  CrbValue, boolean_value, int_value, float_value, Interpreter, Eval, crb_runtime_error,
  RuntimeError,
}
use c_algorithm.Lang.{Name, Library}
use c_algorithm.Lang.Variables.{search_identifier, search_function}
use c_algorithm.Lang.Balance.{Ends, Ends-bind, Ends-if, Ends-option, error-Ends, Kept}
use c_algorithm.Lang.Variables.{has_name}
use c_algorithm.Lang.Eval.{
  eval_identifier_expression, negate_top, invert_top, test_left, eval_minus_expression,
  eval_logical_not_expression, right_operand, eval_logical_and_or_expression,
}
use c_algorithm.Lang.Balance.{
  Ends-map, Ends-over, Pushed, push_value-Pushed, pop_value-Ends, peek_stack-Ends, poke_stack-Ends,
}
use c_algorithm.Lang.Keeps.{Keeps, boolean_member-Keeps}

-- an evaluation that leaves one more value
abbrev pub Pushes : Type 0 → Eval (Unit {0}) → Type 0
Pushes F m = (s : Interpreter) → Ends F (Pushed s.stack) s.stack (m s)

module _ {F : Type 0} where
  -- over a stack with one value more
  pub Pushes-over :
      {m : Eval (Unit {0})} (s : Interpreter) {v : CrbValue} {vs : List CrbValue}
      → s.stack ≡ v ∷ vs
      → Pushes F m
      → Ends F (Pushed (v ∷ vs)) vs (m s)
  Pushes-over s e h = Ends-over e (Ends-map (h s) (λ a st p. (p.0, p.1 ∙ ap (◌∷◌ p.0) e)))

  pub Keeps-over :
      {A : Type 0} {m : Eval A} (s : Interpreter) {v : CrbValue} {vs : List CrbValue}
      → s.stack ≡ v ∷ vs
      → Keeps F m
      → Ends F (Kept {A = A} (v ∷ vs)) vs (m s)
  Keeps-over s e h = Ends-over e (Ends-map (h s) (λ a st p. p ∙ e))

  pub Keeps-over_two :
      {A : Type 0} {m : Eval A} (s : Interpreter) {v w : CrbValue} {vs : List CrbValue}
      → s.stack ≡ v ∷ w ∷ vs
      → Keeps F m
      → Ends F (Kept {A = A} (v ∷ w ∷ vs)) vs (m s)
  Keeps-over_two s e h = Ends-over refl (Keeps-over s e h)

  pub error-over :
      {A : Type 0} {P : A → List CrbValue → Type 0} (s : Interpreter) (err : RuntimeError)
      {v : CrbValue} {vs : List CrbValue}
      → s.stack ≡ v ∷ vs
      → Ends F P vs (crb_runtime_error err s)
  error-over s err e = Ends-over e (error-Ends s err)

  pub eval_identifier_expression-Pushes : (x : Name) → Pushes F (eval_identifier_expression x)
  unfolding eval_identifier_expression
  eval_identifier_expression-Pushes x s =
      Ends-option (search_identifier x s) _ _
        (Ends-option (search_function x s) _ _
          (Ends-if (has_name s.modules x) (push_value-Pushed _ s s.stack refl) (error-Ends s _))
          λ table. push_value-Pushed _ s s.stack refl)
        λ f. push_value-Pushed f.value s s.stack refl

  pub negate_top-Ends :
      (c : Library) (w : CrbValue) (s : Interpreter) {v : CrbValue} {vs : List CrbValue}
      → s.stack ≡ v ∷ vs
      → Ends F (Pushed vs) vs (negate_top c w s)
  negate_top-Ends c (int_value n) s e = poke_stack-Ends s _ _ _ e
  negate_top-Ends c (float_value d) s e = poke_stack-Ends s _ _ _ e
  negate_top-Ends c _ s e = error-over s _ e

  pub invert_top-Ends :
      (w : CrbValue) (s : Interpreter) {v : CrbValue} {vs : List CrbValue}
      → s.stack ≡ v ∷ vs
      → Ends F (Pushed vs) vs (invert_top w s)
  invert_top-Ends (boolean_value b) s e = poke_stack-Ends s _ _ _ e
  invert_top-Ends _ s e = error-over s _ e

  pub eval_minus_expression-Pushes :
      (c : Library) {operand : Eval (Unit {0})}
      → Pushes F operand
      → Pushes F (eval_minus_expression c operand)
  unfolding eval_minus_expression
  eval_minus_expression-Pushes c h s = Ends-bind (h s) λ _ s₁ (v, e₁).
      Ends-bind (peek_stack-Ends s₁ v s.stack e₁) λ w s₂ (_, e₂). negate_top-Ends c w s₂ e₂

  pub eval_logical_not_expression-Pushes :
      {operand : Eval (Unit {0})}
      → Pushes F operand
      → Pushes F (eval_logical_not_expression operand)
  unfolding eval_logical_not_expression
  eval_logical_not_expression-Pushes h s = Ends-bind (h s) λ _ s₁ (v, e₁).
      Ends-bind (peek_stack-Ends s₁ v s.stack e₁) λ w s₂ (_, e₂). invert_top-Ends w s₂ e₂

  -- an evaluation from a state whose stack is known
  pub Pushes-at :
      {m : Eval (Unit {0})} (s : Interpreter) {vs : List CrbValue}
      → s.stack ≡ vs
      → Pushes F m
      → Ends F (Pushed vs) vs (m s)
  Pushes-at {m = m} s e h = subst (λ st. Ends F (Pushed st) st (m s)) e (h s)

  pub Keeps-at :
      {A : Type 0} {m : Eval A} (s : Interpreter) {vs : List CrbValue}
      → s.stack ≡ vs
      → Keeps F m
      → Ends F (Kept {A = A} vs) vs (m s)
  Keeps-at {A = A} {m = m} s e h = subst (λ st. Ends F (Kept {A = A} st) st (m s)) e (h s)

  pub right_operand-Pushes :
      {right : Eval (Unit {0})} → Pushes F right → Pushes F (right_operand right)
  right_operand-Pushes h s = Ends-bind (h s) λ _ s₁ (v, e₁).
      Ends-bind (pop_value-Ends s₁ v s.stack e₁) λ w s₂ (_, e₂).
        Ends-bind (Keeps-at s₂ e₂ (boolean_member-Keeps w))
          λ b s₃ e₃. push_value-Pushed (boolean_value b) s₃ s.stack e₃

  pub test_left-Pushes :
      (is_and : Bool) {right : Eval (Unit {0})} (v : CrbValue)
      → Pushes F right
      → Pushes F (test_left is_and right v)
  test_left-Pushes true (boolean_value true) h s = right_operand-Pushes h s
  test_left-Pushes true (boolean_value false) h s = push_value-Pushed _ s s.stack refl
  test_left-Pushes false (boolean_value true) h s = push_value-Pushed _ s s.stack refl
  test_left-Pushes false (boolean_value false) h s = right_operand-Pushes h s
  test_left-Pushes is_and _ h s = error-Ends s _

  pub eval_logical_and_or_expression-Pushes :
      (is_and : Bool) {left right : Eval (Unit {0})}
      → Pushes F left
      → Pushes F right
      → Pushes F (eval_logical_and_or_expression is_and left right)
  unfolding eval_logical_and_or_expression
  eval_logical_and_or_expression-Pushes is_and l r s = Ends-bind (l s) λ _ s₁ (v, e₁).
      Ends-bind (pop_value-Ends s₁ v s.stack e₁)
        λ w s₂ (_, e₂). Pushes-at s₂ e₂ (test_left-Pushes is_and w r)
