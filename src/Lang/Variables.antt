-- ===== src/Lang/Variables.antt =====
-- tlang/tmisc.c, and theap.c and teval.c where they search: local variables in the scope chain,
-- global variables, and the place that an assignment writes to.
use mathlib.Core.Option
use c_algorithm.Base.{
  ℕ, zero, suc, ◌==◌, if◌then◌else◌, Bool, false, ◌||◌, List, [], ◌∷◌, Option, none, some,
}
use c_algorithm.Lang.{
  Name, Table, module_table, inter_table, CrbValue, Variable, LocalEnvironment, Interpreter, Eval,
  done, crash, null_pointer, crb_runtime_error, assign_to_final_variable_err, function_exists_err,
}

-- rbtree_get with the order of names, and CRB_search_assoc_member
unfoldable pub search_variable : List Variable → Name → Option Variable
search_variable [] x = none
search_variable (v ∷ vs) x = if v.name == x then some v else search_variable vs x

-- rbtree_set, and CRB_add_assoc_member: the entry of that name is replaced
unfoldable pub set_variable : List Variable → Variable → List Variable
set_variable [] w = w ∷ []
set_variable (v ∷ vs) w = if v.name == w.name then w ∷ vs else v ∷ set_variable vs w

abbrev pub has_name : List Name → Name → Bool
has_name [] x = false
has_name (y ∷ ys) x = (y == x) || has_name ys x

-- where a `CRB_Value*` points to: a member of a frame, counted from the innermost one, or a global
-- variable
pub data Place : Type 0 where
  local_place : (depth : ℕ) → Name → Place
  global_place : Table → Name → Place

-- a variable that was found: its place, its value, and `*is_final`
pub record Found : Type 0 where
  pub place : Place
  pub value : CrbValue
  pub is_final : Bool

abbrev pub found : Place → Variable → Found
found p v = record { place = p; value = v.value; is_final = v.is_final }

abbrev pub not_final : Found → Found
not_final f = record f { is_final = false }

abbrev pub table_vars : Table → Interpreter → List Variable
table_vars module_table s = s.module_vars
table_vars inter_table s = s.global_vars

abbrev pub with_table_vars : Table → List Variable → Interpreter → Interpreter
with_table_vars module_table vs s = record s { module_vars = vs }
with_table_vars inter_table vs s = record s { global_vars = vs }

unfoldable pub search_frames : List (List Variable) → (depth : ℕ) → Name → Option Found
search_frames [] depth x = none
search_frames (frame ∷ frames) depth x = elim (search_variable frame x) [
  | none ↦ search_frames frames (suc depth) x
  | some v ↦ some (found (local_place depth x) v)
]

unfoldable pub search_local_variable : Option LocalEnvironment → Name → Option Found
search_local_variable none x = none
search_local_variable (some env) x = search_frames env.scope_chain 0 x

unfoldable pub search_global_variable : Table → Name → Interpreter → Option Found
search_global_variable table x s =
    Option.map (found (global_place table x)) (search_variable (table_vars table s) x)

-- rbtree_get in `global_var_refs`
abbrev pub search_ref : List (Name × Table) → Name → Option Table
search_ref [] x = none
search_ref ((y, table) ∷ refs) x = if y == x then some table else search_ref refs x

-- In an environment `*is_final` is not written to, and stays CRB_FALSE.
abbrev pub search_from_env : Option LocalEnvironment → Name → Interpreter → Option Found
search_from_env none x s = elim (search_global_variable module_table x s) [
  | none ↦ search_global_variable inter_table x s
  | some f ↦ some f
]
search_from_env (some env) x s = elim (search_ref env.global_var_refs x) [
  | none ↦ none
  | some table ↦ Option.map not_final (search_global_variable table x s)
]

unfoldable pub search_global_variable_from_env : Name → Interpreter → Option Found
search_global_variable_from_env x s = search_from_env s.env x s

-- the variable that an identifier stands for
abbrev pub search_identifier : Name → Interpreter → Option Found
search_identifier x s = elim (search_local_variable s.env x) [
  | none ↦ search_global_variable_from_env x s
  | some f ↦ some f
]

unfoldable pub crb_get_identifier_lvalue : Name → Eval (Option Found)
crb_get_identifier_lvalue x s = elim (search_identifier x s) [
  | none ↦ done none s
  | some f ↦
      if f.is_final then crb_runtime_error assign_to_final_variable_err s else done (some f) s
]

-- `*dest = v` in a table of variables
unfoldable pub write_variable : List Variable → Name → CrbValue → List Variable
write_variable [] x v = []
write_variable (w ∷ ws) x v =
    if w.name == x then record w { value = v } ∷ ws else w ∷ write_variable ws x v

abbrev pub write_frames :
    List (List Variable) → (depth : ℕ) → Name → CrbValue → List (List Variable)
write_frames [] depth x v = []
write_frames (frame ∷ frames) zero x v = write_variable frame x v ∷ frames
write_frames (frame ∷ frames) (suc depth) x v = frame ∷ write_frames frames depth x v

abbrev pub write_env :
    Option LocalEnvironment → (depth : ℕ) → Name → CrbValue → Option LocalEnvironment
write_env none depth x v = none
write_env (some env) depth x v =
    some (record env { scope_chain = write_frames env.scope_chain depth x v })

-- `*dest = v`
unfoldable pub write_place : Place → CrbValue → Eval (Unit {0})
write_place (local_place depth x) v s = done tt (record s { env = write_env s.env depth x v })
write_place (global_place table x) v s =
    done tt (with_table_vars table (write_variable (table_vars table s) x v) s)

abbrev pub variable : Name → CrbValue → Bool → Variable
variable x v is_final = record { name = x; value = v; is_final = is_final }

-- A NULL scope chain is dereferenced without a frame.
unfoldable pub add_local_variable : LocalEnvironment → Variable → Eval (Unit {0})
add_local_variable env v s = elim (env.scope_chain) [
  | [] ↦ crash null_pointer
  | frame ∷ frames ↦
      done tt (record s { env = some (record env { scope_chain = set_variable frame v ∷ frames }) })
]

unfoldable pub add_global_variable : Table → Variable → Eval (Unit {0})
add_global_variable table v s =
    done tt (with_table_vars table (set_variable (table_vars table s) v) s)

-- CRB_search_function in the current module, then in the interpreter
abbrev pub search_function : Name → Interpreter → Option Table
search_function x s =
    if has_name s.module_funcs x
    then some module_table
    else if has_name s.global_funcs x
    then some inter_table
    else none

-- the new variable of an assignment to a name that no variable has
unfoldable pub create_variable : Name → CrbValue → (is_final : Bool) → Eval (Unit {0})
create_variable x v is_final s = elim (s.env) [
  | some env ↦ add_local_variable env (variable x v is_final) s
  | none ↦ elim (search_function x s) [
    | some table ↦ crb_runtime_error function_exists_err s
    | none ↦ add_global_variable module_table (variable x v is_final) s
  ]
]
