-- ===== src/Lang/Balance.antt =====
-- The value stack over an evaluation: what is below the stack pointer at the start.
use mathlib.Core.List.{append_assoc}
use c_algorithm.Base.{
  ◌≡◌, ◌≢◌, refl, sym, ap, subst, ◌∙◌, if◌then◌else◌, Bool, true, false, List, [], ◌∷◌, ◌++◌,
  Option, none, some,
}
use c_algorithm.Lang.{
  CrbValue, Interpreter, Outcome, done, thrown, crash, no_fuel, Crash, no_value, Eval, after,
  crb_runtime_error, RuntimeError,
}
use c_algorithm.Lang.Stack.{push_value, pop_value, peek_stack, peek_below, shrink_stack, poke_stack}

-- An evaluation over the values `vs` ends with a value and a stack that satisfy `P`; or it throws,
-- with all of `vs` still on the stack; or it crashes, and not by a read below the stack. It runs
-- out of fuel only where `F` allows it.
pub data Ends (F : Type 0) {A : Type 0} (P : A → List CrbValue → Type 0) (vs : List CrbValue)
    : Outcome A → Type 0 where
  ends : {a : A} {s : Interpreter} → P a s.stack → Ends F P vs (done a s)
  throws :
      {s : Interpreter} (extra : List CrbValue) → s.stack ≡ extra ++ vs → Ends F P vs (thrown s)
  breaks : {why : Crash} → why ≢ no_value → Ends F P vs (crash why)
  starves : F → Ends F P vs no_fuel

module _ {F : Type 0} where
  pub Ends-bind :
      {A B : Type 0} {P : A → List CrbValue → Type 0} {Q : B → List CrbValue → Type 0}
      {vs : List CrbValue} {out : Outcome A} {f : A → Eval B}
      → Ends F P vs out
      → ((a : A) (s : Interpreter) → P a s.stack → Ends F Q vs (f a s))
      → Ends F Q vs (after out f)
  Ends-bind (ends holds) next = next _ _ holds
  Ends-bind (throws extra e) next = throws extra e
  Ends-bind (breaks ne) next = breaks ne
  Ends-bind (starves allowed) next = starves allowed

  pub Ends-map :
      {A : Type 0} {P Q : A → List CrbValue → Type 0} {vs : List CrbValue} {out : Outcome A}
      → Ends F P vs out
      → ((a : A) (st : List CrbValue) → P a st → Q a st)
      → Ends F Q vs out
  Ends-map (ends holds) weaken = ends (weaken _ _ holds)
  Ends-map (throws extra e) weaken = throws extra e
  Ends-map (breaks ne) weaken = breaks ne
  Ends-map (starves allowed) weaken = starves allowed

  -- an evaluation over one more value
  pub Ends-over :
      {A : Type 0} {P : A → List CrbValue → Type 0} {v : CrbValue} {vs st : List CrbValue}
      {out : Outcome A}
      → st ≡ v ∷ vs
      → Ends F P st out
      → Ends F P vs out
  Ends-over over (ends holds) = ends holds
  Ends-over {v = v} {vs = vs} over (throws extra e) =
      throws (extra ++ v ∷ [])
        (e ∙ ap (λ st. extra ++ st) over ∙ sym (append_assoc extra (v ∷ []) vs))
  Ends-over over (breaks ne) = breaks ne
  Ends-over over (starves allowed) = starves allowed

  pub Ends-same :
      {A : Type 0} {P : A → List CrbValue → Type 0} {vs st : List CrbValue} {out : Outcome A}
      → st ≡ vs
      → Ends F P st out
      → Ends F P vs out
  Ends-same {P = P} {out = out} e h = subst (λ us. Ends F P us out) e h

  pub Ends-if :
      {A : Type 0} {P : A → List CrbValue → Type 0} {vs : List CrbValue} {out other : Outcome A}
      (test : Bool)
      → Ends F P vs out
      → Ends F P vs other
      → Ends F P vs (if test then out else other)
  Ends-if true left right = left
  Ends-if false left right = right

  pub Ends-option :
      {X A : Type 0} {P : A → List CrbValue → Type 0} {vs : List CrbValue} (o : Option X)
      (out : Outcome A) (k : X → Outcome A)
      → Ends F P vs out
      → ((x : X) → Ends F P vs (k x))
      → Ends F P vs (elim o [ none ↦ out | some x ↦ k x ])
  Ends-option none out k h hs = h
  Ends-option (some x) out k h hs = hs x

  pub Ends-list :
      {X A : Type 0} {P : A → List CrbValue → Type 0} {vs : List CrbValue} (xs : List X)
      (out : Outcome A) (k : X → List X → Outcome A)
      → Ends F P vs out
      → ((y : X) (ys : List X) → Ends F P vs (k y ys))
      → Ends F P vs (elim xs [ [] ↦ out | y ∷ ys ↦ k y ys ])
  Ends-list [] out k h hs = h
  Ends-list (y ∷ ys) out k h hs = hs y ys

  -- an error over the whole stack
  pub error-Ends :
      {A : Type 0} {P : A → List CrbValue → Type 0} (s : Interpreter) (e : RuntimeError)
      → Ends F P s.stack (crb_runtime_error e s)
  unfolding crb_runtime_error
  error-Ends s e = throws [] refl

abbrev pub Pushed {ℓ} : {A : Type ℓ} → List CrbValue → A → List CrbValue → Type 0
Pushed vs a st = (v : CrbValue) × (st ≡ v ∷ vs)

abbrev pub Kept {ℓ} : {A : Type ℓ} → List CrbValue → A → List CrbValue → Type 0
Kept vs a st = st ≡ vs

abbrev pub Top : List CrbValue → CrbValue → CrbValue → List CrbValue → Type 0
Top vs v a st = (a ≡ v) × (st ≡ vs)

module _ {F : Type 0} where
  pub push_value-Pushed :
      (v : CrbValue) (s : Interpreter) (vs : List CrbValue)
      → s.stack ≡ vs
      → Ends F (Pushed vs) vs (push_value v s)
  unfolding push_value
  push_value-Pushed v s vs e = ends (v, ap (λ st. v ∷ st) e)

  -- a look at a stack with a known top
  look-Ends :
      {A : Type 0} {P : A → List CrbValue → Type 0} {vs us : List CrbValue} (st : List CrbValue)
      (k : CrbValue → List CrbValue → Outcome A) {v : CrbValue}
      → st ≡ v ∷ us
      → Ends F P vs (k v us)
      → Ends F P vs (elim st [ [] ↦ crash no_value | w ∷ ws ↦ k w ws ])
  look-Ends st k e h = rw e h

  pub pop_value-Ends :
      (s : Interpreter) (v : CrbValue) (vs : List CrbValue)
      → s.stack ≡ v ∷ vs
      → Ends F (Top vs v) vs (pop_value s)
  unfolding pop_value
  pop_value-Ends s v vs e = look-Ends s.stack _ e (ends (refl, refl))

  pub peek_stack-Ends :
      (s : Interpreter) (v : CrbValue) (vs : List CrbValue)
      → s.stack ≡ v ∷ vs
      → Ends F (Top (v ∷ vs) v) vs (peek_stack s)
  unfolding peek_stack
  peek_stack-Ends s v vs e = look-Ends s.stack _ e (ends (refl, e))

  pub peek_below-Ends :
      (s : Interpreter) (v w : CrbValue) (vs : List CrbValue)
      → s.stack ≡ v ∷ w ∷ vs
      → Ends F (Top (v ∷ w ∷ vs) w) vs (peek_below s)
  unfolding peek_below
  peek_below-Ends s v w vs e = look-Ends s.stack _ e (ends (refl, e))

  pub shrink_stack-Ends :
      (s : Interpreter) (v : CrbValue) (vs : List CrbValue)
      → s.stack ≡ v ∷ vs
      → Ends F (Kept vs) vs (shrink_stack s)
  unfolding shrink_stack
  shrink_stack-Ends s v vs e = look-Ends s.stack _ e (ends refl)

  pub poke_stack-Ends :
      (s : Interpreter) (v w : CrbValue) (vs : List CrbValue)
      → s.stack ≡ v ∷ vs
      → Ends F (Pushed vs) vs (poke_stack w s)
  unfolding poke_stack
  poke_stack-Ends s v w vs e = look-Ends s.stack _ e (ends (w, refl))
