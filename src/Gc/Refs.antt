-- ===== src/Gc/Refs.antt =====
-- Which pointers an object and the roots hold, without regard to the order of a marking.
use mathlib.Core.List.{Memᴰ}
use mathlib.Core.List.Memᴰ.{head, tail, append_left, append_right, append_cases}
use c_algorithm.Base.{ℕ, ◌≡◌, refl, ap, subst, ◌∙◌, List, [], ◌∷◌, ◌++◌, ◌⊎◌, inl, inr}
use c_algorithm.Gc.{
  HeapValue, plain, to_object, to_closure, to_fake_method, ObjectBody, array_object, string_object,
  assoc_object, scope_chain_object, native_pointer_object, Environment, Roots, refs_of_value,
  refs_of_values, refs_of, refs_of_modules, refs_of_environments, root_refs,
}

-- a value that refers to an object
pub data RefersValue : HeapValue → ℕ → Type 0 where
  by_object : {p : ℕ} → RefersValue (to_object p) p
  by_closure : {p : ℕ} → RefersValue (to_closure p) p
  by_fake_method : {p : ℕ} → RefersValue (to_fake_method p) p

-- an object that refers to another one: an array by an element, an association by a member, and a
-- scope chain by its frame and by the chain around it
pub data Refers : ObjectBody → ℕ → Type 0 where
  by_element :
      {vs : List HeapValue} {v : HeapValue} {p : ℕ}
      → Memᴰ v vs
      → RefersValue v p
      → Refers (array_object vs) p
  by_member :
      {vs : List HeapValue} {v : HeapValue} {p : ℕ}
      → Memᴰ v vs
      → RefersValue v p
      → Refers (assoc_object vs) p
  by_frame : {p q : ℕ} → Refers (scope_chain_object p q) p
  by_next : {p q : ℕ} → Refers (scope_chain_object p q) q

-- a pointer that the interpreter holds
pub data IsRoot (roots : Roots) (p : ℕ) : Type 0 where
  by_global : (v : HeapValue) → Memᴰ v roots.global_vars → RefersValue v p → IsRoot roots p
  by_module :
      (vs : List HeapValue) (v : HeapValue)
      → Memᴰ vs roots.modules
      → Memᴰ v vs
      → RefersValue v p
      → IsRoot roots p
  by_scope_chain :
      (env : Environment) → Memᴰ env roots.environments → p ≡ env.scope_chain → IsRoot roots p
  by_native_method :
      (env : Environment)
      → Memᴰ env roots.environments
      → Memᴰ p env.ref_in_native_method
      → IsRoot roots p
  by_stack : (v : HeapValue) → Memᴰ v roots.stack → RefersValue v p → IsRoot roots p
  by_exception : RefersValue roots.current_exception p → IsRoot roots p

RefersValue-refs_of_value : {v : HeapValue} {p : ℕ} → RefersValue v p → Memᴰ p (refs_of_value v)
RefersValue-refs_of_value by_object = head refl
RefersValue-refs_of_value by_closure = head refl
RefersValue-refs_of_value by_fake_method = head refl

only : {p q : ℕ} → Memᴰ p (q ∷ []) → p ≡ q
only (head e) = e
only (tail m) = elim m [ ]

refs_of_value-RefersValue : (v : HeapValue) (p : ℕ) → Memᴰ p (refs_of_value v) → RefersValue v p
refs_of_value-RefersValue plain p mem = elim mem [ ]
refs_of_value-RefersValue (to_object q) p mem = rw (only mem) by_object
refs_of_value-RefersValue (to_closure q) p mem = rw (only mem) by_closure
refs_of_value-RefersValue (to_fake_method q) p mem = rw (only mem) by_fake_method

RefersValue-refs_of_values :
    (vs : List HeapValue) {v : HeapValue} {p : ℕ}
    → Memᴰ v vs
    → RefersValue v p
    → Memᴰ p (refs_of_values vs)
RefersValue-refs_of_values [] m refers = elim m [ ]
RefersValue-refs_of_values (w ∷ vs) {p = p} (head e) refers =
    append_left _ (RefersValue-refs_of_value (subst (λ u. RefersValue u p) e refers))
RefersValue-refs_of_values (w ∷ vs) (tail m) refers =
    append_right (refs_of_value w) (RefersValue-refs_of_values vs m refers)

refs_of_values-RefersValue :
    (vs : List HeapValue) (p : ℕ)
    → Memᴰ p (refs_of_values vs)
    → (v : HeapValue) × Memᴰ v vs × RefersValue v p
refs_of_values-RefersValue [] p mem = elim mem [ ]
refs_of_values-RefersValue (w ∷ vs) p mem = elim (append_cases (refs_of_value w) mem) [
  | inl m ↦ (w, head refl, refs_of_value-RefersValue w p m)
  | inr m ↦ let (v, there, refers) = refs_of_values-RefersValue vs p m in (v, tail there, refers)
]

pub Refers-refs_of : {o : ObjectBody} {p : ℕ} → Refers o p → Memᴰ p (refs_of o)
unfolding refs_of
Refers-refs_of (by_element m refers) = RefersValue-refs_of_values _ m refers
Refers-refs_of (by_member m refers) = RefersValue-refs_of_values _ m refers
Refers-refs_of by_frame = head refl
Refers-refs_of by_next = tail (head refl)

pub refs_of-Refers : (o : ObjectBody) (p : ℕ) → Memᴰ p (refs_of o) → Refers o p
unfolding refs_of
refs_of-Refers (array_object vs) p mem =
    let (v, there, refers) = refs_of_values-RefersValue vs p mem in by_element there refers
refs_of-Refers string_object p mem = elim mem [ ]
refs_of-Refers (assoc_object vs) p mem =
    let (v, there, refers) = refs_of_values-RefersValue vs p mem in by_member there refers
refs_of-Refers (scope_chain_object frame next) p (head e) = rw e by_frame
refs_of-Refers (scope_chain_object frame next) p (tail m) = rw (only m) by_next
refs_of-Refers native_pointer_object p mem = elim mem [ ]

-- the modules and the environments, by induction on the list
module_refs :
    (modules : List (List HeapValue)) {vs : List HeapValue} {v : HeapValue} {p : ℕ}
    → Memᴰ vs modules
    → Memᴰ v vs
    → RefersValue v p
    → Memᴰ p (refs_of_modules modules)
module_refs [] there m refers = elim there [ ]
module_refs (ws ∷ modules) {v = v} (head e) m refers =
    append_left _ (RefersValue-refs_of_values ws (subst (λ us. Memᴰ v us) e m) refers)
module_refs (ws ∷ modules) (tail there) m refers =
    append_right (refs_of_values ws) (module_refs modules there m refers)

refs_of_modules-values :
    (modules : List (List HeapValue)) (p : ℕ)
    → Memᴰ p (refs_of_modules modules)
    → (vs : List HeapValue) × (v : HeapValue) × Memᴰ vs modules × Memᴰ v vs × RefersValue v p
refs_of_modules-values [] p mem = elim mem [ ]
refs_of_modules-values (ws ∷ modules) p mem = elim (append_cases (refs_of_values ws) mem) [
  | inl m ↦
      let (v, there, refers) = refs_of_values-RefersValue ws p m in
      (ws, v, head refl, there, refers)
  | inr m ↦
      let (vs, v, t, there, refers) = refs_of_modules-values modules p m in
      (vs, v, tail t, there, refers)
]

-- what an environment holds
abbrev pub OfEnvironment : Environment → ℕ → Type 0
OfEnvironment env p = (p ≡ env.scope_chain) ⊎ Memᴰ p env.ref_in_native_method

environment_refs :
    (envs : List Environment) {env : Environment} (p : ℕ)
    → Memᴰ env envs
    → OfEnvironment env p
    → Memᴰ p (refs_of_environments envs)
environment_refs [] p there holds = elim there [ ]
environment_refs (e ∷ envs) p (head same) (inl at_chain) =
    head (at_chain ∙ ap (λ x. x.scope_chain) same)
environment_refs (e ∷ envs) p (head same) (inr native) =
    tail (append_left _ (subst (λ x. Memᴰ p x.ref_in_native_method) same native))
environment_refs (e ∷ envs) p (tail there) holds =
    tail (append_right e.ref_in_native_method (environment_refs envs p there holds))

refs_of_environments-OfEnvironment :
    (envs : List Environment) (p : ℕ)
    → Memᴰ p (refs_of_environments envs)
    → (env : Environment) × Memᴰ env envs × OfEnvironment env p
refs_of_environments-OfEnvironment [] p mem = elim mem [ ]
refs_of_environments-OfEnvironment (e ∷ envs) p (head at_chain) = (e, head refl, inl at_chain)
refs_of_environments-OfEnvironment (e ∷ envs) p (tail mem) =
    elim (append_cases e.ref_in_native_method mem) [
      | inl native ↦ (e, head refl, inr native)
      | inr m ↦
          let (env, there, holds) = refs_of_environments-OfEnvironment envs p m in
          (env, tail there, holds)
    ]

module _ (roots : Roots) where
  pub IsRoot-root_refs : (p : ℕ) → IsRoot roots p → Memᴰ p (root_refs roots)
  unfolding root_refs
  IsRoot-root_refs p (by_global v there refers) =
      append_left _ (RefersValue-refs_of_values roots.global_vars there refers)
  IsRoot-root_refs p (by_module vs v module_there there refers) =
      append_right (refs_of_values roots.global_vars)
        (append_left _ (module_refs roots.modules module_there there refers))
  IsRoot-root_refs p (by_scope_chain env there at_chain) =
      append_right (refs_of_values roots.global_vars) (
        append_right (refs_of_modules roots.modules)
          (append_left _ (environment_refs roots.environments p there (inl at_chain))))
  IsRoot-root_refs p (by_native_method env there native) =
      append_right (refs_of_values roots.global_vars) (
        append_right (refs_of_modules roots.modules)
          (append_left _ (environment_refs roots.environments p there (inr native))))
  IsRoot-root_refs p (by_stack v there refers) = append_right (refs_of_values roots.global_vars) (
      append_right (refs_of_modules roots.modules) (
        append_right (refs_of_environments roots.environments)
          (append_left _ (RefersValue-refs_of_values roots.stack there refers))))
  IsRoot-root_refs p (by_exception refers) = append_right (refs_of_values roots.global_vars) (
      append_right (refs_of_modules roots.modules) (
        append_right (refs_of_environments roots.environments)
          (append_right (refs_of_values roots.stack) (RefersValue-refs_of_value refers))))

  -- the pointers from the environments on
  later_refs-IsRoot :
      (p : ℕ)
      → Memᴰ p (
          refs_of_environments roots.environments
          ++ (refs_of_values roots.stack ++ refs_of_value roots.current_exception))
      → IsRoot roots p
  later_refs-IsRoot p mem = elim (append_cases (refs_of_environments roots.environments) mem) [
    | inl m ↦
        let (env, there, holds) = refs_of_environments-OfEnvironment roots.environments p m in
        elim holds [
          | inl at_chain ↦ by_scope_chain env there at_chain
          | inr native ↦ by_native_method env there native
        ]
    | inr m ↦ elim (append_cases (refs_of_values roots.stack) m) [
      | inl m' ↦
          let (v, there, refers) = refs_of_values-RefersValue roots.stack p m' in
          by_stack v there refers
      | inr m' ↦ by_exception (refs_of_value-RefersValue roots.current_exception p m')
    ]
  ]

  pub root_refs-IsRoot : (p : ℕ) → Memᴰ p (root_refs roots) → IsRoot roots p
  unfolding root_refs
  root_refs-IsRoot p mem = elim (append_cases (refs_of_values roots.global_vars) mem) [
    | inl m ↦
        let (v, there, refers) = refs_of_values-RefersValue roots.global_vars p m in
        by_global v there refers
    | inr m ↦ elim (append_cases (refs_of_modules roots.modules) m) [
      | inl m' ↦
          let (vs, v, module_there, there, refers) = refs_of_modules-values roots.modules p m' in
          by_module vs v module_there there refers
      | inr m' ↦ later_refs-IsRoot p m'
    ]
  ]
