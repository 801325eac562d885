-- ===== src/Lang/Rewritten.antt =====
-- tlang/teval.c: a write through the pointer that the search for an identifier gives.
use mathlib.Core.Option
use c_algorithm.Base.{◌≡◌, refl, sym, ap, subst, ◌∙◌, List, Option, none, some}
use c_algorithm.Lang.{
  Name, Table, module_table, inter_table, CrbValue, Variable, LocalEnvironment, Interpreter, done,
}
use c_algorithm.Lang.Variables.{
  Place, global_place, Found, not_final, table_vars, with_table_vars, search_local_variable,
  search_global_variable, search_ref, search_global_variable_from_env, search_identifier,
  search_from_env, write_variable, write_place,
}
use c_algorithm.Lang.Lookup.{Gives, local_written, table_written}

-- a write to the place that was found, and the search after it
abbrev pub Rewrites : Place → Name → CrbValue → Interpreter → Type 0
Rewrites p x v s =
    (s' : Interpreter) × (write_place p v s ≡ done tt s')
    × (s'.stack ≡ s.stack)
    × Gives v (search_identifier x s')

env_after :
    (t : Table) (ws : List Variable) (u : Interpreter) → (with_table_vars t ws u).env ≡ u.env
env_after module_table ws u = refl
env_after inter_table ws u = refl

stack_after :
    (t : Table) (ws : List Variable) (u : Interpreter) → (with_table_vars t ws u).stack ≡ u.stack
stack_after module_table ws u = refl
stack_after inter_table ws u = refl

-- a search that finds no local variable
pub past_locals :
    (env : Option LocalEnvironment) (x : Name) (v : CrbValue) (s : Interpreter)
    → s.env ≡ env
    → search_local_variable env x ≡ none
    → Gives v (search_from_env env x s)
    → Gives v (search_identifier x s)
unfolding search_global_variable_from_env
past_locals env x v s at_env missing (f, again, value) = (
  f,
  rw ((ap (λ o. search_local_variable o x) at_env ∙ missing), search_identifier)
      (ap (λ o. search_from_env o x s) at_env ∙ again),
  value,
)

-- a write to a global variable, which the search finds again
global_rewritten :
    (table : Table) (x : Name) (v : CrbValue) (s : Interpreter) (p : Place)
    → p ≡ global_place table x
    → search_local_variable s.env x ≡ none
    → Gives v (
        search_from_env s.env x (with_table_vars table (write_variable (table_vars table s) x v) s))
    → Rewrites p x v s
unfolding write_place
global_rewritten table x v s p at_place missing again = (
  with_table_vars table (write_variable (table_vars table s) x v) s,
  ap (λ q. write_place q v s) at_place,
  stack_after table _ s,
  past_locals s.env x v _ (env_after table _ s) missing again,
)

-- what the search without an environment gives after a write
top_level_again :
    (x : Name) (v : CrbValue) (s : Interpreter) (f : Found)
    → search_from_env none x s ≡ some f
    → (table : Table) × (f.place ≡ global_place table x)
      × Gives v (
          search_from_env none x
            (with_table_vars table (write_variable (table_vars table s) x v) s))
unfolding search_global_variable
top_level_again x v s f e = by_module (search_global_variable module_table x s) refl e
  where
    by_module :
        (o : Option Found)
        → search_global_variable module_table x s ≡ o
        → elim o [ none ↦ search_global_variable inter_table x s | some g ↦ some g ] ≡ some f
        → (table : Table) × (f.place ≡ global_place table x)
          × Gives v (
              search_from_env none x
                (with_table_vars table (write_variable (table_vars table s) x v) s))
    by_module (some g) there e' =
        let (at_place, (h, again, value)) = table_written module_table x v s f (there ∙ e') in
        (module_table, at_place, (h, rw (again, search_from_env) refl, value))
    by_module none missing e' =
        let (at_place, (h, again, value)) = table_written inter_table x v s f e' in
        (inter_table, at_place, (h, rw (missing, search_from_env) again, value))

-- what the search through the references of an environment gives after a write
referred_again :
    (env : LocalEnvironment) (x : Name) (v : CrbValue) (s : Interpreter) (f : Found)
    → search_from_env (some env) x s ≡ some f
    → (table : Table) × (f.place ≡ global_place table x)
      × Gives v (
          search_from_env
            (some env)
            x
            (with_table_vars table (write_variable (table_vars table s) x v) s))
referred_again env x v s f e = by_ref (search_ref env.global_var_refs x) refl e
  where
    by_found :
        (table : Table)
        → search_ref env.global_var_refs x ≡ some table
        → (o : Option Found) → search_global_variable table x s ≡ o
        → Option.map not_final o ≡ some f
        → (table : Table) × (f.place ≡ global_place table x)
          × Gives v (
              search_from_env
                (some env)
                x
                (with_table_vars table (write_variable (table_vars table s) x v) s))
    by_found table at_ref none missing e' = absurd cc
    by_found table at_ref (some g) there e' =
        let (at_place, (h, again, value)) = table_written table x v s g there in
        let here : not_final g ≡ f = cc in
        (
          table,
          sym (ap (λ k. k.place) here) ∙ at_place,
          (not_final h, rw (at_ref, search_from_env) (ap (Option.map not_final) again), value),
        )

    by_ref :
        (o : Option Table)
        → search_ref env.global_var_refs x ≡ o
        → elim o [
          | none ↦ none
          | some table ↦ Option.map not_final (search_global_variable table x s)
        ]
          ≡ some f
        → (table : Table) × (f.place ≡ global_place table x)
          × Gives v (
              search_from_env
                (some env)
                x
                (with_table_vars table (write_variable (table_vars table s) x v) s))
    by_ref none missing e' = absurd cc
    by_ref (some table) at_ref e' = by_found table at_ref (search_global_variable table x s) refl e'

-- the variable that an identifier stands for can be written to, and is found again
pub search_identifier-write_place :
    (x : Name) (v : CrbValue) (s : Interpreter) (f : Found)
    → search_identifier x s ≡ some f
    → Rewrites f.place x v s
unfolding search_global_variable_from_env search_local_variable
search_identifier-write_place x v s f e = by_local (search_local_variable s.env x) refl e
  where
    by_local :
        (o : Option Found)
        → search_local_variable s.env x ≡ o
        → elim o [ none ↦ search_from_env s.env x s | some g ↦ some g ] ≡ some f
        → Rewrites f.place x v s
    by_local (some g) there e' = by_env s.env refl (there ∙ e')
      where
        by_env :
            (env : Option LocalEnvironment)
            → s.env ≡ env
            → search_local_variable env x ≡ some f
            → Rewrites f.place x v s
        by_env none at_env e'' = absurd cc
        by_env (some env) at_env e'' = local_written env x v f e'' s at_env
    by_local none missing e' = by_env s.env refl e'
      where
        by_env :
            (env : Option LocalEnvironment)
            → s.env ≡ env
            → search_from_env env x s ≡ some f
            → Rewrites f.place x v s
        by_env none at_env e'' =
            let (table, at_place, again) = top_level_again x v s f e'' in
            global_rewritten table x v s f.place at_place missing (
              subst
                (λ o. Gives v (
                  search_from_env o x
                    (with_table_vars table (write_variable (table_vars table s) x v) s)))
                (sym at_env) again)
        by_env (some env) at_env e'' =
            let (table, at_place, again) = referred_again env x v s f e'' in
            global_rewritten table x v s f.place at_place missing (
              subst
                (λ o. Gives v (
                  search_from_env o x
                    (with_table_vars table (write_variable (table_vars table s) x v) s)))
                (sym at_env) again)
