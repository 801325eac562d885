-- ===== src/Lang/Types.antt =====
-- Types of the expressions without variables, strings and doubles.
use c_algorithm.Base.{
  ◌≡◌, refl, ◌==◌, if◌then◌else◌, Bool, true, false, ◌||◌, ◌∷◌, Bool-cases, inl, inr, Option, none,
  some,
}
use c_algorithm.Lang.{
  CrbValue, boolean_value, int_value, exception_value, Interpreter, ◌>>=◌, ◌>>◌, Outcome, done,
  thrown, crash, trap, Eval, after, crb_runtime_error,
}
use c_algorithm.Lang.Stack.{push_value, peek_stack, peek_below, shrink_stack}
use c_algorithm.Lang.{
  Long, Operator, add_expression, sub_expression, mul_expression, div_expression, mod_expression,
  eq_expression, ne_expression, gt_expression, ge_expression, lt_expression, le_expression, Library,
  Expression, division_by_zero_err,
}
use c_algorithm.Lang.Number.{
  eval_binary_int, eval_binary_numeric, eval_binary_boolean, checked, quotient_overflows,
}
use c_algorithm.Lang.Operands.{binary_result}
use c_algorithm.Lang.{
  boolean_expression, int_expression, comma_expression, binary_expression, minus_expression,
  logical_not_expression,
}
use c_algorithm.Lang.Number.{crb_is_math_operator}
use c_algorithm.Lang.Fold.{is_logical}

-- the types of such values
pub data ExpressionTy : Type 0 where
  int_ty boolean_ty : ExpressionTy

pub data HasTy : ExpressionTy → CrbValue → Type 0 where
  is_int : {n : Long} → HasTy int_ty (int_value n)
  is_boolean_ty : {b : Bool} → HasTy boolean_ty (boolean_value b)

abbrev pub is_equality : Operator → Bool
is_equality eq_expression = true
is_equality ne_expression = true
is_equality _ = false

-- the type of an operator's value on operands of a type
abbrev pub operator_ty : Operator → ExpressionTy → ExpressionTy → Option ExpressionTy
operator_ty op int_ty int_ty =
    if is_logical op then none else some (if crb_is_math_operator op then int_ty else boolean_ty)
operator_ty op boolean_ty boolean_ty =
    if is_logical op || is_equality op then some boolean_ty else none
operator_ty op _ _ = none

abbrev pub both : Operator → Option ExpressionTy → Option ExpressionTy → Option ExpressionTy
both op (some t) (some u) = operator_ty op t u
both op _ _ = none

-- the type of an expression, none if it has no type here
unfoldable pub type_of : Expression → Option ExpressionTy
type_of (boolean_expression b) = some boolean_ty
type_of (int_expression n) = some int_ty
type_of (binary_expression op left right) = both op (type_of left) (type_of right)
type_of (minus_expression operand) = elim (type_of operand) [ some int_ty ↦ some int_ty | _ ↦ none ]
type_of (logical_not_expression operand) = elim (type_of operand) [
  | some boolean_ty ↦ some boolean_ty
  | _ ↦ none
]
type_of (comma_expression left right) = elim (type_of left) [ none ↦ none | some t ↦ type_of right ]
type_of _ = none

abbrev pub pushed : CrbValue → Interpreter → Interpreter
pushed v s = record s { stack = v ∷ s.stack }

-- The value has the type, and the state is the same but for it; or an error of a division by 0, or
-- a division that traps.
pub data Sound (t : ExpressionTy) (s : Interpreter) : Outcome (Unit {0}) → Type 0 where
  gives : {v : CrbValue} → HasTy t v → Sound t s (done tt (pushed v s))
  divides :
      {s' : Interpreter}
      → s'.current_exception ≡ exception_value s.unused division_by_zero_err
      → Sound t s (thrown s')
  traps : Sound t s (crash trap)

pub Sound-bind :
    {t u : ExpressionTy} {s : Interpreter} {out : Outcome (Unit {0})}
    (k : Unit {0} → Eval (Unit {0}))
    → Sound t s out
    → ((v : CrbValue) → HasTy t v → Sound u s (k tt (pushed v s)))
    → Sound u s (after out k)
Sound-bind k (gives h) next = next _ h
Sound-bind k (divides e) next = divides e
Sound-bind k traps next = traps

-- the same over an operand, which the rest takes away
pub Sound-over :
    {t u : ExpressionTy} {w : CrbValue} {s : Interpreter} {out : Outcome (Unit {0})}
    (k : Unit {0} → Eval (Unit {0}))
    → Sound t (pushed w s) out
    → ((v : CrbValue) → HasTy t v → Sound u s (k tt (pushed v (pushed w s))))
    → Sound u s (after out k)
Sound-over k (gives h) next = next _ h
Sound-over k (divides e) next = divides e
Sound-over k traps next = traps

-- what is left of eval_binary_expression after its operands
abbrev pub finish : Library → Operator → Eval (Unit {0})
finish c op = do
  left_val ← peek_below
  right_val ← peek_stack
  result ← binary_result c op left_val right_val
  shrink_stack
  shrink_stack
  push_value result

module _ (c : Library) (s : Interpreter) where
  pub checked-finish :
      (op : Operator) (m n result : Long)
      → eval_binary_int op m n ≡ checked m n result
      → Sound int_ty s (finish c op (pushed (int_value n) (pushed (int_value m) s)))
  unfolding peek_below peek_stack shrink_stack push_value binary_result eval_binary_numeric
      crb_runtime_error
  checked-finish op m n result e = elim (Bool-cases (n == 0)) [
    | inl zero_n ↦ rw (e, zero_n) (divides refl)
    | inr other ↦ elim (Bool-cases (quotient_overflows m n)) [
      | inl over ↦ rw (e, other, over) traps
      | inr fits ↦ rw (e, other, fits) (gives is_int)
    ]
  ]

  pub int-finish :
      (op : Operator) (t : ExpressionTy) (m n : Long)
      → operator_ty op int_ty int_ty ≡ some t
      → Sound t s (finish c op (pushed (int_value n) (pushed (int_value m) s)))
  unfolding peek_below peek_stack shrink_stack push_value binary_result eval_binary_numeric
      eval_binary_int
  int-finish div_expression int_ty m n h = checked-finish div_expression m n _ refl
  int-finish mod_expression int_ty m n h = checked-finish mod_expression m n _ refl
  int-finish add_expression int_ty m n h = gives is_int
  int-finish sub_expression int_ty m n h = gives is_int
  int-finish mul_expression int_ty m n h = gives is_int
  int-finish eq_expression boolean_ty m n h = gives is_boolean_ty
  int-finish ne_expression boolean_ty m n h = gives is_boolean_ty
  int-finish gt_expression boolean_ty m n h = gives is_boolean_ty
  int-finish ge_expression boolean_ty m n h = gives is_boolean_ty
  int-finish lt_expression boolean_ty m n h = gives is_boolean_ty
  int-finish le_expression boolean_ty m n h = gives is_boolean_ty
  int-finish _ _ m n h = absurd cc

  pub boolean-finish :
      (op : Operator) (t : ExpressionTy) (a b : Bool)
      → operator_ty op boolean_ty boolean_ty ≡ some t
      → is_logical op ≡ false
      → Sound t s (finish c op (pushed (boolean_value b) (pushed (boolean_value a) s)))
  unfolding peek_below peek_stack shrink_stack push_value binary_result eval_binary_boolean
  boolean-finish eq_expression boolean_ty a b h nl = gives is_boolean_ty
  boolean-finish ne_expression boolean_ty a b h nl = gives is_boolean_ty
  boolean-finish _ _ a b h nl = absurd cc

  pub finish-Sound :
      (op : Operator) (t : ExpressionTy) {t₁ t₂ : ExpressionTy} {v w : CrbValue}
      → HasTy t₁ v
      → HasTy t₂ w
      → operator_ty op t₁ t₂ ≡ some t
      → is_logical op ≡ false
      → Sound t s (finish c op (pushed w (pushed v s)))
  finish-Sound op t (is_int {n = m}) (is_int {n = n}) h nl = int-finish op t m n h
  finish-Sound op t (is_boolean_ty {b = a}) (is_boolean_ty {b = b}) h nl =
      boolean-finish op t a b h nl
  finish-Sound op t is_int is_boolean_ty h nl = absurd cc
  finish-Sound op t is_boolean_ty is_int h nl = absurd cc
