-- ===== src/Lang/Assigned.antt =====
-- tlang/texecute.c: what assign_to_variable stores.
use c_algorithm.Base.{
  ◌≡◌, refl, ap, if◌then◌else◌, Bool-cases, inl, inr, Bool, true, false, List, [], ◌∷◌, Option,
  none, some,
}
use c_algorithm.Lang.{
  Name, Table, module_table, CrbValue, Variable, LocalEnvironment, Interpreter, Outcome, done,
  crash, null_pointer, after, Eval, crb_runtime_error, function_exists_err,
  assign_to_final_variable_err,
}
use c_algorithm.Lang.Stack.{push_value}
use c_algorithm.Lang.Eval.{eval_identifier_expression}
use c_algorithm.Lang.Execute.{assign_to_variable}
use c_algorithm.Lang.Variables.{
  set_variable, local_place, global_place, Found, found, search_frames, search_local_variable,
  search_global_variable, search_identifier, search_from_env, write_place,
  crb_get_identifier_lvalue, create_variable, add_local_variable, add_global_variable,
  search_function, variable,
}
use c_algorithm.Lang.Lookup.{Gives, search_variable-set_variable}
use c_algorithm.Lang.Rewritten.{past_locals, search_identifier-write_place}

-- The identifier stands for a variable that is not final; or it stands for none, and there is an
-- environment with a frame to add a variable to, or no environment and no function of the name.
pub data IsAssignable (x : Name) (s : Interpreter) : Type 0 where
  existing : (f : Found) → search_identifier x s ≡ some f → f.is_final ≡ false → IsAssignable x s
  new_local :
      search_identifier x s ≡ none
      → (env : LocalEnvironment) (frame : List Variable) (frames : List (List Variable))
      → s.env ≡ some env
      → env.scope_chain ≡ frame ∷ frames
      → IsAssignable x s
  new_global :
      search_identifier x s ≡ none → s.env ≡ none → search_function x s ≡ none → IsAssignable x s

-- what an assignment of `v` to the variable `x` comes to
pub data Assigned (x : Name) (v : CrbValue) (s : Interpreter) : Outcome (Unit {0}) → Type 0 where
  stored :
      IsAssignable x s
      → (s' : Interpreter) → s'.stack ≡ s.stack
      → eval_identifier_expression x s' ≡ push_value v s'
      → Assigned x v s (done tt s')
  final_variable :
      (f : Found)
      → search_identifier x s ≡ some f
      → f.is_final ≡ true
      → Assigned x v s (crb_runtime_error assign_to_final_variable_err s)
  function_name :
      (table : Table)
      → search_identifier x s ≡ none
      → s.env ≡ none
      → search_function x s ≡ some table
      → Assigned x v s (crb_runtime_error function_exists_err s)
  no_scope :
      search_identifier x s ≡ none
      → (env : LocalEnvironment) → s.env ≡ some env
      → env.scope_chain ≡ []
      → Assigned x v s (crash null_pointer)

-- a state in which the search gives the value
Gives-stored :
    (x : Name) (v : CrbValue) (s s' : Interpreter)
    → IsAssignable x s
    → s'.stack ≡ s.stack
    → Gives v (search_identifier x s')
    → Assigned x v s (done tt s')
unfolding eval_identifier_expression
Gives-stored x v s s' may same (f, again, value) =
    stored may s' same
      (rw (again, search_identifier, eval_identifier_expression) (ap (λ w. push_value w s') value))

local_added :
    (env : LocalEnvironment) (x : Name) (v : CrbValue) (is_final : Bool) (s : Interpreter)
    → search_identifier x s ≡ none
    → s.env ≡ some env
    → Assigned x v s (add_local_variable env (variable x v is_final) s)
unfolding add_local_variable search_local_variable search_frames
local_added env x v is_final s missing at_env = by_frames env.scope_chain refl
  where
    by_frames :
        (frames : List (List Variable))
        → env.scope_chain ≡ frames
        → Assigned x v s (elim frames as (λ _. Outcome (Unit {0})) [
          | [] ↦ crash null_pointer
          | frame ∷ frames ↦ done tt (record s {
            env =
                some (record env {
                  scope_chain = set_variable frame (variable x v is_final) ∷ frames;
                });
          })
        ])
    by_frames [] at_frames = no_scope missing env at_env at_frames
    by_frames (frame ∷ frames) at_frames =
        Gives-stored x v s _ (new_local missing env frame frames at_env at_frames) refl (
          found (local_place 0 x) (variable x v is_final),
          rw
              (
                search_variable-set_variable frame (variable x v is_final),
                search_identifier,
                search_frames,
              )
              refl,
          refl,
        )

global_added :
    (x : Name) (v : CrbValue) (is_final : Bool) (s : Interpreter)
    → search_identifier x s ≡ none
    → s.env ≡ none
    → search_function x s ≡ none
    → Assigned x v s (add_global_variable module_table (variable x v is_final) s)
unfolding add_global_variable search_local_variable search_global_variable
global_added x v is_final s missing at_top no_function =
    let ws = set_variable s.module_vars (variable x v is_final) in
    Gives-stored x v s _ (new_global missing at_top no_function) refl (
      past_locals none x v (record s { module_vars = ws }) at_top refl
        (
          found (global_place module_table x) (variable x v is_final),
          rw (search_variable-set_variable s.module_vars (variable x v is_final), search_from_env)
              refl,
          refl,
        ))

create_variable-Assigned :
    (x : Name) (v : CrbValue) (is_final : Bool) (s : Interpreter)
    → search_identifier x s ≡ none
    → Assigned x v s (create_variable x v is_final s)
unfolding create_variable
create_variable-Assigned x v is_final s missing = by_env s.env refl
  where
    by_function :
        s.env ≡ none
        → (o : Option Table) → search_function x s ≡ o
        → Assigned x v s (elim o as (λ _. Outcome (Unit {0})) [
          | some table ↦ crb_runtime_error function_exists_err s
          | none ↦ add_global_variable module_table (variable x v is_final) s
        ])
    by_function at_top none e = global_added x v is_final s missing at_top e
    by_function at_top (some table) e = function_name table missing at_top e

    by_env :
        (env : Option LocalEnvironment)
        → s.env ≡ env
        → Assigned x v s (elim env as (λ _. Outcome (Unit {0})) [
          | some env ↦ add_local_variable env (variable x v is_final) s
          | none ↦ elim (search_function x s) [
            | some table ↦ crb_runtime_error function_exists_err s
            | none ↦ add_global_variable module_table (variable x v is_final) s
          ]
        ])
    by_env none at_env = by_function at_env (search_function x s) refl
    by_env (some env) at_env = local_added env x v is_final s missing at_env

-- `*dest = *value`, or a new variable
abbrev store : Name → CrbValue → Option Found → Eval (Unit {0})
store x v dest = elim dest [ none ↦ create_variable x v false | some f ↦ write_place f.place v ]

found_stored :
    (x : Name) (v : CrbValue) (s : Interpreter) (f : Found)
    → search_identifier x s ≡ some f
    → Assigned x v s (
        after
          (if f.is_final then crb_runtime_error assign_to_final_variable_err s else done (some f) s)
          (store x v))
unfolding crb_runtime_error
found_stored x v s f there = elim (Bool-cases f.is_final) [
  | inl e ↦ rw e (final_variable f there e)
  | inr e ↦
      let (s', written, same, gives) = search_identifier-write_place x v s f there in
      rw (e, written) (Gives-stored x v s s' (existing f there e) same gives)
]

-- assign_to_variable to a variable that is not final, or to a new one, ends with the value stack as
-- it was, and evaluating the identifier then pushes the value. For a final variable it throws the
-- error of that; for a new one without an environment that has the name of a function, the error of
-- that; and for a new one in an environment without a scope chain a NULL pointer is read.
pub assign_to_variable-Assigned :
    (x : Name) (v : CrbValue) (s : Interpreter) → Assigned x v s (assign_to_variable x v s)
unfolding assign_to_variable crb_get_identifier_lvalue
assign_to_variable-Assigned x v s = by_search (search_identifier x s) refl
  where
    by_search :
        (o : Option Found)
        → search_identifier x s ≡ o
        → Assigned x v s (
            after
              (elim o as (λ _. Outcome (Option Found)) [
                | none ↦ done none s
                | some f ↦
                    if f.is_final
                    then crb_runtime_error assign_to_final_variable_err s
                    else done (some f) s
              ])
              (store x v))
    by_search none missing = create_variable-Assigned x v false s missing
    by_search (some f) there = found_stored x v s f there
