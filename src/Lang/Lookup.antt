-- ===== src/Lang/Lookup.antt =====
-- tlang/tmisc.c, tlang/teval.c: the tables of variables after a write and after a new variable.
use mathlib.Core.Option
use c_algorithm.Base.{
  ℕ, suc, ◌+◌, ◌≡◌, refl, sym, ap, ◌∙◌, ◌==◌, Bool-cases, inl, inr, true, List, [], ◌∷◌, Option,
  none, some, arith,
}
use c_algorithm.Lang.{
  Name, Table, module_table, inter_table, CrbValue, Variable, LocalEnvironment, Interpreter, done,
}
use c_algorithm.Lang.Variables.{
  search_variable, set_variable, local_place, global_place, Found, found, table_vars,
  with_table_vars, search_frames, search_local_variable, search_global_variable, search_identifier,
  write_variable, write_frames, write_env, write_place,
}

abbrev pub with_value : CrbValue → Variable → Variable
with_value v w = record w { value = v }

search_variable-write_variable :
    (ws : List Variable) (x : Name) (v : CrbValue)
    → search_variable (write_variable ws x v) x ≡ Option.map (with_value v) (search_variable ws x)
unfolding search_variable write_variable
search_variable-write_variable [] x v = refl
search_variable-write_variable (w ∷ ws) x v = elim (Bool-cases (w.name == x)) [
  | inl e ↦ rw e (rw e refl)
  | inr e ↦ rw e (rw e (search_variable-write_variable ws x v))
]

pub search_variable-set_variable :
    (ws : List Variable) (w : Variable) → search_variable (set_variable ws w) w.name ≡ some w
unfolding search_variable set_variable
search_variable-set_variable [] w =
    let same : (w.name == w.name) ≡ true = ground arith in rw same refl
search_variable-set_variable (u ∷ ws) w =
    let same : (w.name == w.name) ≡ true = ground arith in
    elim (Bool-cases (u.name == w.name)) [
      | inl e ↦ rw (e, same) refl
      | inr e ↦ rw e (rw e (search_variable-set_variable ws w))
    ]

-- a frame in which a variable was found or not, by the outcome of the search
frame_written :
    (frame : List Variable) (x : Name) (v : CrbValue) (o : Option Variable)
    → search_variable frame x ≡ o
    → search_variable (write_variable frame x v) x ≡ Option.map (with_value v) o
frame_written frame x v o e =
    search_variable-write_variable frame x v ∙ ap (Option.map (with_value v)) e

-- a search that finds the value
abbrev pub Gives : CrbValue → Option Found → Type 0
Gives v o = (f : Found) × (o ≡ some f) × (f.value ≡ v)

-- the place of a local variable that was found, and the search after a write there
record Written (frames : List (List Variable)) (depth : ℕ) (x : Name) (v : CrbValue) (f : Found)
    : Type 0 where
  index : ℕ
  at_place : f.place ≡ local_place (depth + index) x
  again : Gives v (search_frames (write_frames frames index x v) depth x)

search_frames-Written :
    (frames : List (List Variable)) (depth : ℕ) (x : Name) (v : CrbValue) (f : Found)
    → search_frames frames depth x ≡ some f
    → Written frames depth x v f
unfolding search_frames
search_frames-Written [] depth x v f e = absurd cc
search_frames-Written (frame ∷ frames) depth x v f e =
    by_frame (search_variable frame x) refl (search_frames-Written frames (suc depth) x v f) e
  where
    by_frame :
        (o : Option Variable)
        → search_variable frame x ≡ o
        → (search_frames frames (suc depth) x ≡ some f → Written frames (suc depth) x v f)
        → elim o [
          | none ↦ search_frames frames (suc depth) x
          | some w ↦ some (found (local_place depth x) w)
        ]
          ≡ some f
        → Written (frame ∷ frames) depth x v f
    by_frame none missing outer e' =
        let rest = outer e' in
        record {
          index = suc rest.index;
          at_place = rest.at_place ∙ ap (λ k. local_place k x) (omega arith);
          again =
              let (g, again, value) = rest.again in (g, rw (missing, search_frames) again, value);
        }
    by_frame (some w) there outer e' =
        let here : found (local_place depth x) w ≡ f = cc in
        record {
          index = 0;
          at_place = sym (ap (λ g. g.place) here) ∙ ap (λ k. local_place k x) (omega arith);
          again = (
            found (local_place depth x) (with_value v w),
            rw (frame_written frame x v (some w) there, search_frames) refl,
            refl,
          );
        }

-- a write to the local variable that was found
pub local_written :
    (env : LocalEnvironment) (x : Name) (v : CrbValue) (f : Found)
    → search_frames env.scope_chain 0 x ≡ some f
    → (s : Interpreter) → s.env ≡ some env
    → (s' : Interpreter) × (write_place f.place v s ≡ done tt s')
      × (s'.stack ≡ s.stack)
      × Gives v (search_identifier x s')
unfolding write_place search_local_variable
local_written env x v f e s at_env =
    let w = search_frames-Written env.scope_chain 0 x v f e in
    let (g, again, value) = w.again in
    let at_place : f.place ≡ local_place w.index x =
      w.at_place ∙ ap (λ k. local_place k x) (omega arith) in
    let env' = record env { scope_chain = write_frames env.scope_chain w.index x v } in
    (
      record s { env = some env' },
      ap (λ p. write_place p v s) at_place
          ∙ ap (λ o. done tt (record s { env = write_env o w.index x v })) at_env,
      refl,
      (g, rw (search_identifier, again) refl, value),
    )

table_after :
    (t : Table) (ws : List Variable) (u : Interpreter) → table_vars t (with_table_vars t ws u) ≡ ws
table_after module_table ws u = refl
table_after inter_table ws u = refl

-- a write to the global variable that was found
pub table_written :
    (table : Table) (x : Name) (v : CrbValue) (s : Interpreter) (f : Found)
    → search_global_variable table x s ≡ some f
    → (f.place ≡ global_place table x)
      × Gives v (
          search_global_variable table x
            (with_table_vars table (write_variable (table_vars table s) x v) s))
unfolding search_global_variable
table_written table x v s f e = by_search (search_variable (table_vars table s) x) refl e
  where
    by_search :
        (o : Option Variable)
        → search_variable (table_vars table s) x ≡ o
        → Option.map (found (global_place table x)) o ≡ some f
        → (f.place ≡ global_place table x)
          × Gives v (
              Option.map (found (global_place table x)) (
                search_variable
                  (table_vars table
                    (with_table_vars table (write_variable (table_vars table s) x v) s))
                  x))
    by_search none missing e' = absurd cc
    by_search (some w) there e' =
        let here : found (global_place table x) w ≡ f = cc in
        (
          sym (ap (λ g. g.place) here),
          (
            found (global_place table x) (with_value v w),
            ap (Option.map (found (global_place table x))) (
                ap (λ ws. search_variable ws x) (table_after table _ s)
                ∙ frame_written (table_vars table s) x v (some w) there),
            refl,
          ),
        )
