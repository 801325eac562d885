-- ===== src/Gc/Tests.antt =====
-- A heap with an array that holds itself, and a string that nothing refers to.
use mathlib.Core.List.{Memᴰ}
use mathlib.Core.List.Memᴰ.{head, tail}
use c_algorithm.Base.{
  ℕ, ◌≡◌, refl, sym, subst, ◌==◌, Bool-cases, [], ◌∷◌, none, some, inl, inr, ok, Returns,
}
use c_algorithm.Gc.{
  plain, to_object, ObjectBody, array_object, string_object, Object, Heap, Roots, find, refs_of,
  visit, mark_all, gc_mark, root_refs, gc_mark_objects, gc_sweep_objects, crb_garbage_collect,
}
use c_algorithm.Gc.Refs.{Refers-refs_of, IsRoot-root_refs}
use c_algorithm.Gc.Marks.{Points}
use c_algorithm.Gc.Collect.{IsRooted, Collected, crb_garbage_collect-Collected}

abbrev cyclic : Object
cyclic = record { address = 1; body = array_object (plain ∷ to_object 1 ∷ []) }

abbrev two_objects : Heap
two_objects = record { address = 2; body = string_object } ∷ cyclic ∷ []

abbrev one_environment : Roots
one_environment = record {
  global_vars = to_object 1 ∷ [];
  modules = [];
  environments = record { scope_chain = 0; ref_in_native_method = [] } ∷ [];
  stack = [];
  current_exception = plain;
}

string_is_collected : crb_garbage_collect two_objects one_environment ≡ ok (cyclic ∷ [])
unfolding crb_garbage_collect gc_mark_objects gc_sweep_objects gc_mark mark_all visit find refs_of
    root_refs
string_is_collected = refl

cyclic_there : (q : ℕ) → q ≡ 1 → Points two_objects q
unfolding find
cyclic_there q e = inr (array_object (plain ∷ to_object 1 ∷ []), rw e refl)

two_objects-closed :
    (p q : ℕ) (o : ObjectBody)
    → find two_objects p ≡ some o
    → Memᴰ q (refs_of o)
    → Points two_objects q
unfolding find refs_of
two_objects-closed p q o found mem = elim (Bool-cases (2 == p)) [
  | inl e ↦
      let body : some string_object ≡ some o = rw e at found in
      of_string (subst (λ b. Memᴰ q (refs_of b)) (sym (some_injective body)) mem)
  | inr e ↦ elim (Bool-cases (1 == p)) [
    | inl e' ↦
        let body : some (array_object (plain ∷ to_object 1 ∷ [])) ≡ some o = rw (e, e') at found in
        of_cyclic (subst (λ b. Memᴰ q (refs_of b)) (sym (some_injective body)) mem)
    | inr e' ↦ let body : none ≡ some o = rw (e, e') at found in absurd cc
  ]
]
  where
    some_injective : {a b : ObjectBody} → some a ≡ some b → a ≡ b
    some_injective h = cc

    of_string : Memᴰ q [] → Points two_objects q
    of_string m = elim m [ ]

    of_cyclic : Memᴰ q (1 ∷ []) → Points two_objects q
    of_cyclic (head e) = cyclic_there q e
    of_cyclic (tail m) = elim m [ ]

two_objects-IsRooted : IsRooted two_objects one_environment
unfolding find root_refs
two_objects-IsRooted = record {
  null = refl;
  closed = λ p q o found refers. two_objects-closed p q o found (Refers-refs_of refers);
  valid = λ q root. valid_root q (IsRoot-root_refs one_environment q root);
}
  where
    valid_root : (q : ℕ) → Memᴰ q (1 ∷ 0 ∷ []) → Points two_objects q
    valid_root q (head e) = cyclic_there q e
    valid_root q (tail (head e)) = inl e
    valid_root q (tail (tail m)) = elim m [ ]

crb_garbage_collect-Collected_example :
    Returns
      (Collected two_objects one_environment)
      (crb_garbage_collect two_objects one_environment)
crb_garbage_collect-Collected_example =
    crb_garbage_collect-Collected two_objects one_environment two_objects-IsRooted
