-- ===== src/Lang/Fold.antt =====
-- Literals computed by the parser, against the evaluation of the operator.
use mathlib.Core.Bool.{false≢true}
use c_algorithm.Base.{
  ◌≡◌, refl, sym, ◌∙◌, ◌==◌, if◌then◌else◌, Bool, true, false, ◌&&◌, List, ◌∷◌, Bool-cases, inl,
  inr, some,
}
use c_algorithm.Lang.{
  CrbValue, boolean_value, int_value, float_value, Interpreter, ◌>>=◌, ◌>>◌, Eval, pure,
  crb_runtime_error, RuntimeError,
}
use c_algorithm.Lang.Stack.{push_value, pop_value, peek_stack, peek_below, shrink_stack, poke_stack}
use c_algorithm.Lang.{
  Long, Double, Operator, add_expression, sub_expression, mul_expression, div_expression,
  mod_expression, eq_expression, ne_expression, gt_expression, ge_expression, lt_expression,
  le_expression, logical_and_expression, logical_or_expression, Library, Expression,
}
use c_algorithm.Lang.Number.{
  eval_binary_int, eval_binary_double, eval_binary_numeric, checked, quotient_overflows,
}
use c_algorithm.Lang.Stack.{written}
use c_algorithm.Lang.Operands.{binary_result}
use c_algorithm.Lang.{int_expression, double_expression, binary_expression, minus_expression}
use c_algorithm.Lang.Eval.{eval_minus_expression, eval_binary_expression, eval_expression}
use c_algorithm.Lang.Stack.{written}
use c_algorithm.Lang.Code.{
  is_number, set_expression, crb_eval_minus_expression, crb_eval_binary_expression, fold_binary,
  crb_create_minus_expression, crb_create_binary_expression,
}

-- `*result`, which was written to
abbrev delivered : Eval CrbValue → Eval CrbValue
delivered m = (m >>= λ v. pure (some v)) >>= written

-- the end of an evaluation of two operands, with the value to come
abbrev unfolded : Eval CrbValue → Eval (Unit {0})
unfolded m = do result ← delivered m; shrink_stack; shrink_stack; push_value result

-- a run of the parser's code and then of the evaluator
abbrev pub created_then_evaluated : Library → Eval Expression → Eval (Unit {0})
created_then_evaluated c create = do e ← create; eval_expression c e

-- the same, with the value made a literal, and that evaluated
abbrev folded : Library → Expression → Eval CrbValue → Eval (Unit {0})
folded c left m =
    created_then_evaluated c ((unfolded m >>= λ _. pop_value) >>= λ v. pure (set_expression left v))

-- on a stack that holds both operands
abbrev Folds : Library → Expression → Eval CrbValue → Type 0
Folds c left m =
    (s : Interpreter) (v w : CrbValue) (vs : List CrbValue)
    → folded c left m (record s { stack = w ∷ v ∷ vs })
      ≡ unfolded m (record s { stack = w ∷ v ∷ vs })

module _ (c : Library) (left : Expression) where
  Folds-int : (n : Long) → Folds c left (pure (int_value n))
  unfolding eval_expression set_expression push_value pop_value shrink_stack
  Folds-int n s v w vs = refl

  Folds-float : (d : Double) → Folds c left (pure (float_value d))
  unfolding eval_expression set_expression push_value pop_value shrink_stack
  Folds-float d s v w vs = refl

  Folds-boolean : (b : Bool) → Folds c left (pure (boolean_value b))
  unfolding eval_expression set_expression push_value pop_value shrink_stack
  Folds-boolean b s v w vs = refl

  Folds-error : (e : RuntimeError) → Folds c left (crb_runtime_error e)
  unfolding crb_runtime_error
  Folds-error e s v w vs = refl

  Folds-if :
      (b : Bool) (m n : Eval CrbValue)
      → Folds c left m
      → Folds c left n
      → Folds c left (if b then m else n)
  Folds-if true m n hm hn = hm
  Folds-if false m n hm hn = hn

  checked-Folds : (m n result : Long) → Folds c left (checked m n result)
  checked-Folds m n result =
      Folds-if (n == 0) _ _ (Folds-error _)
        (Folds-if (quotient_overflows m n) _ _ (λ s v w vs. refl) (Folds-int _))

  eval_binary_int-Folds : (op : Operator) (m n : Long) → Folds c left (eval_binary_int op m n)
  unfolding eval_binary_int
  eval_binary_int-Folds add_expression m n = Folds-int _
  eval_binary_int-Folds sub_expression m n = Folds-int _
  eval_binary_int-Folds mul_expression m n = Folds-int _
  eval_binary_int-Folds div_expression m n = checked-Folds m n _
  eval_binary_int-Folds mod_expression m n = checked-Folds m n _
  eval_binary_int-Folds eq_expression m n = Folds-boolean _
  eval_binary_int-Folds ne_expression m n = Folds-boolean _
  eval_binary_int-Folds gt_expression m n = Folds-boolean _
  eval_binary_int-Folds ge_expression m n = Folds-boolean _
  eval_binary_int-Folds lt_expression m n = Folds-boolean _
  eval_binary_int-Folds le_expression m n = Folds-boolean _
  eval_binary_int-Folds logical_and_expression m n = Folds-error _
  eval_binary_int-Folds logical_or_expression m n = Folds-error _

  eval_binary_double-Folds :
      (op : Operator) (m n : Double) → Folds c left (eval_binary_double c op m n)
  unfolding eval_binary_double
  eval_binary_double-Folds add_expression m n = Folds-float _
  eval_binary_double-Folds sub_expression m n = Folds-float _
  eval_binary_double-Folds mul_expression m n = Folds-float _
  eval_binary_double-Folds div_expression m n = Folds-float _
  eval_binary_double-Folds mod_expression m n = Folds-float _
  eval_binary_double-Folds eq_expression m n = Folds-boolean _
  eval_binary_double-Folds ne_expression m n = Folds-boolean _
  eval_binary_double-Folds gt_expression m n = Folds-boolean _
  eval_binary_double-Folds ge_expression m n = Folds-boolean _
  eval_binary_double-Folds lt_expression m n = Folds-boolean _
  eval_binary_double-Folds le_expression m n = Folds-boolean _
  eval_binary_double-Folds logical_and_expression m n = Folds-error _
  eval_binary_double-Folds logical_or_expression m n = Folds-error _

-- the operators that eval_expression gives to eval_binary_expression
abbrev pub is_logical : Operator → Bool
is_logical logical_and_expression = true
is_logical logical_or_expression = true
is_logical _ = false

-- eval_expression of an operator that is not logical
pub eval_expression-binary :
    (c : Library) (op : Operator) (left right : Expression) (s : Interpreter)
    → is_logical op ≡ false
    → eval_binary_expression c op (eval_expression c left) (eval_expression c right) s
      ≡ eval_expression c (binary_expression op left right) s
unfolding eval_expression
eval_expression-binary c logical_and_expression left right s h = absurd (false≢true (sym h))
eval_expression-binary c logical_or_expression left right s h = absurd (false≢true (sym h))
eval_expression-binary c _ left right s h = refl

folded_literals :
    (c : Library) (op : Operator) (left right : Expression) (s : Interpreter)
    → (is_number left && is_number right) ≡ true
    → created_then_evaluated c (fold_binary c op left right) s
      ≡ eval_binary_expression c op (eval_expression c left) (eval_expression c right) s
unfolding eval_expression crb_eval_binary_expression eval_binary_expression binary_result push_value
    peek_below peek_stack eval_binary_numeric shrink_stack pop_value
folded_literals c op (int_expression m) (int_expression n) s h =
    eval_binary_int-Folds c (int_expression m) op m n s (int_value m) (int_value n) s.stack
folded_literals c op (double_expression m) (double_expression n) s h =
    eval_binary_double-Folds c (double_expression m) op m n s (float_value m) (float_value n)
      s.stack
folded_literals c op (int_expression m) (double_expression n) s h =
    eval_binary_double-Folds c (int_expression m) op _ n s (int_value m) (float_value n) s.stack
folded_literals c op (double_expression m) (int_expression n) s h =
    eval_binary_double-Folds c (double_expression m) op m _ s (float_value m) (int_value n) s.stack
folded_literals c op _ _ s h = absurd (false≢true h)

-- The parser computes an operator of two literals: evaluating what it creates gives the outcome of
-- evaluating the operator, an error of the division included, which the parser then raises itself.
pub crb_create_binary_expression-eval_expression :
    (c : Library) (op : Operator) (left right : Expression) (s : Interpreter)
    → is_logical op ≡ false
    → created_then_evaluated c (crb_create_binary_expression c op left right) s
      ≡ eval_expression c (binary_expression op left right) s
unfolding crb_create_binary_expression
crb_create_binary_expression-eval_expression c op left right s h =
    elim (Bool-cases (is_number left && is_number right)) [
      | inl e ↦
          rw e (folded_literals c op left right s e ∙ eval_expression-binary c op left right s h)
      | inr e ↦ rw e refl
    ]

-- The same of a minus sign in front of a literal.
pub crb_create_minus_expression-eval_expression :
    (c : Library) (operand : Expression) (s : Interpreter)
    → created_then_evaluated c (crb_create_minus_expression c operand) s
      ≡ eval_expression c (minus_expression operand) s
unfolding crb_create_minus_expression crb_eval_minus_expression eval_expression
    eval_minus_expression push_value peek_stack poke_stack pop_value set_expression
crb_create_minus_expression-eval_expression c (int_expression n) s = refl
crb_create_minus_expression-eval_expression c (double_expression d) s = refl
crb_create_minus_expression-eval_expression c _ s = refl
