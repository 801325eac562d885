-- ===== src/Lang/Labels.antt =====
-- break and continue: which loop they are for.
use c_algorithm.Base.{
  ℕ, suc, ◌≡◌, ◌≢◌, subst, ◌==◌, if◌then◌else◌, Bool, true, false, Option, none, some,
}
use c_algorithm.Lang.{Interpreter, Outcome, done, thrown, crash, no_fuel, Crash, Eval, after}
use c_algorithm.Lang.{Name, Library}
use c_algorithm.Lang.Statement.{
  StatementResult, normal_statement_result, return_statement_result, break_statement_result,
  continue_statement_result, Statement, while_statement, for_statement,
}
use c_algorithm.Base.{==→ne, Bool-cases, inl, inr, zero}
use c_algorithm.Lang.Execute.{
  test, compare_labels, after_body, while_rounds, optional, optional_test, for_rounds,
  execute_statement,
}

-- a value that satisfies `P`, where there is one
pub data Yields {ℓ} {A : Type ℓ} (P : A → Type 0) : Outcome A → Type ℓ where
  yields : {a : A} {s : Interpreter} → P a → Yields P (done a s)
  yields_none : {s : Interpreter} → Yields P (thrown s)
  yields_crash : {why : Crash} → Yields P (crash why)
  yields_later : Yields P no_fuel

Yields-after :
    {A B : Type 0} {Q : B → Type 0} (out : Outcome A) {k : A → Eval B}
    → ((a : A) (s : Interpreter) → Yields Q (k a s))
    → Yields Q (after out k)
Yields-after (done a s) next = next a s
Yields-after (thrown s) next = yields_none
Yields-after (crash why) next = yields_crash
Yields-after no_fuel next = yields_later

Yields-if :
    {A : Type 0} {Q : A → Type 0} (b : Bool) (m n : Eval A) (s : Interpreter)
    → Yields Q (m s)
    → Yields Q (n s)
    → Yields Q ((if b then m else n) s)
Yields-if true m n s h k = h
Yields-if false m n s h k = k

-- a label, and not that of the loop
abbrev pub Elsewhere : (loop_label result_label : Option Name) → Type 0
Elsewhere loop_label none = ⊥
Elsewhere none (some x) = Unit
Elsewhere (some y) (some x) = x ≢ y

-- a result that a loop with that label may have: a break or a continue only for another loop
abbrev pub Outward : (loop_label : Option Name) → StatementResult → Type 0
Outward label normal_statement_result = Unit
Outward label (return_statement_result v) = Unit
Outward label (break_statement_result x) = Elsewhere label x
Outward label (continue_statement_result x) = Elsewhere label x

-- what compare_labels leaves of a break or a continue
compare_labels-Outward :
    (x label : Option Name) (r : StatementResult)
    → (Elsewhere label x → Outward label r)
    → Outward label (compare_labels x label r)
unfolding compare_labels
compare_labels-Outward none label r h = tt
compare_labels-Outward (some x) none r h = h tt
compare_labels-Outward (some x) (some y) r h = elim (Bool-cases (x == y)) [
  | inl e ↦ rw e tt
  | inr e ↦ rw e (h (==→ne x y e))
]

after_body-Outward :
    (label : Option Name) {next : StatementResult → Eval StatementResult} (r : StatementResult)
    → ((x : StatementResult) (s : Interpreter)
        → Outward label x
        → Yields (Outward label) (next x s))
    → (s : Interpreter) → Yields (Outward label) (after_body label next r s)
after_body-Outward label normal_statement_result h s = h _ s tt
after_body-Outward label (return_statement_result v) h s = yields tt
after_body-Outward label (break_statement_result x) h s =
    yields (compare_labels-Outward x label _ (λ e. e))
after_body-Outward label (continue_statement_result x) h s =
    h _ s (compare_labels-Outward x label _ (λ e. e))

pub while_rounds-Outward :
    (rounds : ℕ) (label : Option Name) (condition : Eval Bool) (body : Eval StatementResult)
    (r : StatementResult) (s : Interpreter)
    → Outward label r
    → Yields (Outward label) (while_rounds rounds label condition body r s)
unfolding while_rounds
while_rounds-Outward zero label condition body r s h = yields_later
while_rounds-Outward (suc rounds) label condition body r s h =
    Yields-after (condition s) λ holds s₁.
      Yields-if holds _ _ s₁
        (Yields-after (body s₁) λ x s₂.
          after_body-Outward label x
            (λ y s₃ out. while_rounds-Outward rounds label condition body y s₃ out) s₂)
        (yields h)

pub for_rounds-Outward :
    (rounds : ℕ) (label : Option Name) (condition : Eval Bool) (post : Eval (Unit {0}))
    (body : Eval StatementResult) (r : StatementResult) (s : Interpreter)
    → Outward label r
    → Yields (Outward label) (for_rounds rounds label condition post body r s)
unfolding for_rounds
for_rounds-Outward zero label condition post body r s h = yields_later
for_rounds-Outward (suc rounds) label condition post body r s h =
    Yields-after (condition s) λ holds s₁.
      Yields-if holds _ _ s₁
        (Yields-after (body s₁) λ x s₂.
          after_body-Outward label x
            (λ y s₃ out.
              Yields-after (post s₃)
                λ _ s₄. for_rounds-Outward rounds label condition post body y s₄ out)
            s₂)
        (yields h)

-- the label of a statement that is a loop
abbrev pub IsLoop : Option Name → Statement → Type 0
IsLoop label (while_statement x e block) = x ≡ label
IsLoop label (for_statement x init e post block) = x ≡ label
IsLoop label _ = ⊥

-- A loop that ends does so normally, with a return, or with a break or a continue that has a label
-- other than that of the loop; one without a label, or with its label, never leaves the loop.
pub execute_statement-Outward :
    (c : Library) (rounds : ℕ) (label : Option Name) (loop : Statement) (s : Interpreter)
    → IsLoop label loop
    → Yields (Outward label) (execute_statement c rounds loop s)
unfolding execute_statement
execute_statement-Outward c rounds label (while_statement x e block) s is_loop =
    subst (λ l. Yields (Outward l) (execute_statement c rounds (while_statement x e block) s))
      is_loop (while_rounds-Outward rounds x (test c e) _ normal_statement_result s tt)
execute_statement-Outward c rounds label (for_statement x init e post block) s is_loop =
    subst
      (λ l. Yields (Outward l) (execute_statement c rounds (for_statement x init e post block) s))
      is_loop
      (Yields-after (optional c init s) λ _ s₁.
        for_rounds-Outward rounds x (optional_test c e) (optional c post) _ normal_statement_result
          s₁ tt)
execute_statement-Outward c rounds label _ s is_loop = absurd is_loop
