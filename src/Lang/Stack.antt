-- ===== src/Lang/Stack.antt =====
-- tlang/teval.c: the value stack, and the members of a CRB_Value.
use c_algorithm.Base.{◌==◌, Bool, true, false, [], ◌∷◌, Option, none, some}
use c_algorithm.Lang.{
  Text, CrbValue, boolean_value, int_value, float_value, string_value, object_value,
  exception_value, Operator, add_expression, Eval, pure, crashes, done, crash, no_value,
  not_written, other_member,
}

unfoldable pub push_value : CrbValue → Eval (Unit {0})
push_value v s = done tt (record s { stack = v ∷ s.stack })

unfoldable pub pop_value : Eval CrbValue
pop_value s = elim (s.stack) [ [] ↦ crash no_value | v ∷ vs ↦ done v (record s { stack = vs }) ]

-- the value on top, and the one below it
unfoldable pub peek_stack : Eval CrbValue
peek_stack s = elim (s.stack) [ [] ↦ crash no_value | v ∷ vs ↦ done v s ]

unfoldable pub peek_below : Eval CrbValue
peek_below s = elim (s.stack) [
  | [] ↦ crash no_value
  | v ∷ vs ↦ elim vs [ [] ↦ crash no_value | w ∷ ws ↦ done w s ]
]

-- shrink_stack(inter, 1)
unfoldable pub shrink_stack : Eval (Unit {0})
shrink_stack s = elim (s.stack) [ [] ↦ crash no_value | v ∷ vs ↦ done tt (record s { stack = vs }) ]

-- a write through the pointer that peek_stack returns
unfoldable pub poke_stack : CrbValue → Eval (Unit {0})
poke_stack v s = elim (s.stack) [
  | [] ↦ crash no_value
  | w ∷ ws ↦ done tt (record s { stack = v ∷ ws })
]

-- `v.u.boolean_value`, and the text of `v.u.object`
abbrev pub boolean_member : CrbValue → Eval Bool
boolean_member (boolean_value b) = pure b
boolean_member _ = crashes other_member

abbrev pub text_member : CrbValue → Eval Text
text_member (string_value cs) = pure cs
text_member _ = crashes other_member

abbrev pub is_numeric : CrbValue → Bool
is_numeric (int_value n) = true
is_numeric (float_value d) = true
is_numeric _ = false

abbrev pub is_boolean : CrbValue → Bool
is_boolean (boolean_value b) = true
is_boolean _ = false

abbrev pub is_string : CrbValue → Bool
is_string (string_value cs) = true
is_string _ = false

-- crb_is_object_value
abbrev pub is_object : CrbValue → Bool
is_object (string_value cs) = true
is_object (object_value p) = true
is_object (exception_value p e) = true
is_object _ = false

-- `left->u.object == right->u.object`, of objects that are not both strings
abbrev pub same_object : (left right : CrbValue) → Bool
same_object (object_value p) (object_value q) = p == q
same_object (object_value p) (exception_value q e) = p == q
same_object (exception_value p e) (object_value q) = p == q
same_object (exception_value p e) (exception_value q d) = p == q
same_object _ _ = false

abbrev pub is_add : Operator → Bool
is_add add_expression = true
is_add _ = false

-- the value of a `CRB_Value result` that is read
abbrev pub written : Option CrbValue → Eval CrbValue
written none = crashes not_written
written (some v) = pure v
