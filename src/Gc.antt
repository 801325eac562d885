-- ===== src/Gc.antt =====
-- tlang/theap.c: the garbage collector. The list of all objects that starts at heap.header is a
-- list; an object stands in it with its address, and NULL is 0. Which objects are marked is a
-- function of the address. The count of the heap's bytes is left out.
pub mod Refs
pub mod Marks
pub mod Collect
mod Tests
use c_algorithm.Base.{
  ℕ, zero, suc, ◌==◌, if◌then◌else◌, Bool, true, false, List, [], ◌∷◌, ◌++◌, Option, none, some,
  length, Run, ok, fault, bounds, out_of_fuel, ◌>>=◌,
}

-- a CRB_Value, as far as the collector looks at it: an object, a closure with its scope chain, a
-- method with its object, or a value that refers to none
pub data HeapValue : Type 0 where
  plain : HeapValue
  to_object to_closure to_fake_method : ℕ → HeapValue

-- the contents of a CRB_Object
pub data ObjectBody : Type 0 where
  array_object : List HeapValue → ObjectBody
  string_object : ObjectBody
  assoc_object : (members : List HeapValue) → ObjectBody
  scope_chain_object : (frame next : ℕ) → ObjectBody
  native_pointer_object : ObjectBody

pub record Object : Type 0 where
  pub address : ℕ
  pub body : ObjectBody

abbrev pub Heap : Type 0
Heap = List Object

-- the bit `marked` of the object at an address
abbrev pub Marks : Type 0
Marks = ℕ → Bool

unfoldable pub find : Heap → ℕ → Option ObjectBody
find [] p = none
find (o ∷ h) p = if o.address == p then some o.body else find h p

-- the pointers that gc_mark_value calls gc_mark on
abbrev pub refs_of_value : HeapValue → List ℕ
refs_of_value plain = []
refs_of_value (to_object p) = p ∷ []
refs_of_value (to_closure p) = p ∷ []
refs_of_value (to_fake_method p) = p ∷ []

abbrev pub refs_of_values : List HeapValue → List ℕ
refs_of_values [] = []
refs_of_values (v ∷ vs) = refs_of_value v ++ refs_of_values vs

-- the pointers that gc_mark calls itself on, in their order
unfoldable pub refs_of : ObjectBody → List ℕ
refs_of (array_object vs) = refs_of_values vs
refs_of string_object = []
refs_of (assoc_object vs) = refs_of_values vs
refs_of (scope_chain_object frame next) = frame ∷ next ∷ []
refs_of native_pointer_object = []

-- `obj->marked = CRB_TRUE`
abbrev pub set_mark : Marks → ℕ → Marks
set_mark m p q = if q == p then true else m q

-- gc_mark up to the first recursive call, and then `enter`
unfoldable pub visit : Heap → (enter : ObjectBody → Marks → Run Marks) → ℕ → Marks → Run Marks
visit h enter p m = if p == 0 then ok m else elim (find h p) [
  | none ↦ fault bounds
  | some o ↦ if m p then ok m else enter o (set_mark m p)
]

-- calls one after the other
unfoldable pub mark_all : (mark : ℕ → Marks → Run Marks) → List ℕ → Marks → Run Marks
mark_all mark [] m = ok m
mark_all mark (p ∷ ps) m = mark p m >>= mark_all mark ps

-- The fuel is the depth of the recursion.
unfoldable pub gc_mark : (fuel : ℕ) → Heap → ℕ → Marks → Run Marks
gc_mark zero h = visit h (λ o m. out_of_fuel)
gc_mark (suc fuel) h = visit h (λ o. mark_all (gc_mark fuel h) (refs_of o))

-- a CRB_LocalEnvironment: its scope chain, and the objects that native code refers to
pub record Environment : Type 0 where
  pub scope_chain : ℕ
  pub ref_in_native_method : List ℕ

-- what CRB_Interpreter refers to, the stack up to the stack pointer
pub record Roots : Type 0 where
  pub global_vars : List HeapValue
  pub modules : List (List HeapValue)
  pub environments : List Environment
  pub stack : List HeapValue
  pub current_exception : HeapValue

abbrev pub refs_of_modules : List (List HeapValue) → List ℕ
refs_of_modules [] = []
refs_of_modules (vs ∷ modules) = refs_of_values vs ++ refs_of_modules modules

abbrev pub refs_of_environments : List Environment → List ℕ
refs_of_environments [] = []
refs_of_environments (env ∷ envs) =
    env.scope_chain ∷ env.ref_in_native_method ++ refs_of_environments envs

-- the pointers that gc_mark_objects marks from, in their order
unfoldable pub root_refs : Roots → List ℕ
root_refs roots =
    refs_of_values roots.global_vars
    ++ (refs_of_modules roots.modules
        ++ (refs_of_environments roots.environments
            ++ (refs_of_values roots.stack ++ refs_of_value roots.current_exception)))

-- every bit is reset first
unfoldable pub gc_mark_objects : Heap → Roots → Run Marks
gc_mark_objects h roots = mark_all (gc_mark (length h) h) (root_refs roots) (λ p. false)

unfoldable pub gc_sweep_objects : Heap → Marks → Heap
gc_sweep_objects [] m = []
gc_sweep_objects (o ∷ h) m = if m o.address then o ∷ gc_sweep_objects h m else gc_sweep_objects h m

unfoldable pub crb_garbage_collect : Heap → Roots → Run Heap
crb_garbage_collect h roots = do m ← gc_mark_objects h roots; ok (gc_sweep_objects h m)
