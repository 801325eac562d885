-- ===== src/Gc/Collect.antt =====
-- A collection: which objects it keeps, and the pointers in them.
use c_algorithm.Base.{
  ℕ, ◌≡◌, ◌↔◌, refl, sym, ap, ◌∙◌, ◌==◌, ==→eq, Bool-cases, if◌then◌else◌, false, [], ◌∷◌, none,
  some, inl, inr, Returns, returns, Returns-bind,
}
use c_algorithm.Gc.{
  ObjectBody, Heap, Marks, find, Roots, root_refs, gc_mark_objects, gc_sweep_objects,
  crb_garbage_collect,
}
use c_algorithm.Gc.Refs.{
  Refers, IsRoot, Refers-refs_of, refs_of-Refers, IsRoot-root_refs, root_refs-IsRoot,
}
use c_algorithm.Gc.Marks.{
  Reach, from_root, from_object, Points, IsHeap, MarksAll, gc_mark_roots, Reach-marked,
}

-- the sweep keeps an object if it is marked
find-gc_sweep_objects :
    (h : Heap) (m : Marks) (p : ℕ)
    → find (gc_sweep_objects h m) p ≡ (if m p then find h p else none)
unfolding find gc_sweep_objects
find-gc_sweep_objects [] m p = elim (Bool-cases (m p)) [ inl e ↦ rw e refl | inr e ↦ rw e refl ]
find-gc_sweep_objects (o ∷ h) m p = elim (Bool-cases (o.address == p)) [
  | inl e ↦
      let here : m o.address ≡ m p = ap m (==→eq o.address p e) in
      elim (Bool-cases (m p)) [
        | inl black ↦ rw (here, black, e) refl
        | inr white ↦ rw (here, white) (rw white at (find-gc_sweep_objects h m p))
      ]
  | inr e ↦ elim (Bool-cases (m o.address)) [
    | inl black ↦ rw (black, e) (find-gc_sweep_objects h m p)
    | inr white ↦ rw (white, e) (find-gc_sweep_objects h m p)
  ]
]

-- the object at an address can be reached from what the interpreter holds
pub data Reachable (h : Heap) (roots : Roots) : ℕ → Type 0 where
  at_root : {p : ℕ} {o : ObjectBody} → IsRoot roots p → find h p ≡ some o → Reachable h roots p
  through :
      {p q : ℕ} {o b : ObjectBody}
      → Reachable h roots q
      → find h q ≡ some b
      → Refers b p
      → find h p ≡ some o
      → Reachable h roots p

Reachable-Reach :
    (h : Heap) (roots : Roots) {p : ℕ} → Reachable h roots p → Reach h (root_refs roots) p
Reachable-Reach h roots (at_root {p = p} root there) =
    from_root (IsRoot-root_refs roots p root) there
Reachable-Reach h roots (through reached found refers there) =
    from_object (Reachable-Reach h roots reached) found (Refers-refs_of refers) there

Reach-Reachable :
    (h : Heap) (roots : Roots) {p : ℕ} → Reach h (root_refs roots) p → Reachable h roots p
Reach-Reachable h roots (from_root {p = p} mem there) = at_root (root_refs-IsRoot roots p mem) there
Reach-Reachable h roots (from_object {p = p} {b = b} reached found mem there) =
    through (Reach-Reachable h roots reached) found (refs_of-Refers b p mem) there

-- A state of the interpreter whose heap the collector can walk: no object has the address NULL, and
-- every pointer in an object or of the interpreter is NULL or points to an object.
pub record IsRooted (h : Heap) (roots : Roots) : Type 0 where
  pub null : find h 0 ≡ none
  pub closed : (p q : ℕ) (o : ObjectBody) → find h p ≡ some o → Refers o q → Points h q
  pub valid : (q : ℕ) → IsRoot roots q → Points h q

IsRooted-IsHeap : {h : Heap} {roots : Roots} → IsRooted h roots → IsHeap h
IsRooted-IsHeap rooted = record {
  null = rooted.null;
  closed = λ p q o found mem. rooted.closed p q o found (refs_of-Refers o q mem);
}

-- what a collection leaves
pub record Collected (h : Heap) (roots : Roots) (h' : Heap) : Type 0 where
  pub survives :
      (p : ℕ) (o : ObjectBody) → (find h' p ≡ some o) ↔ ((find h p ≡ some o) × Reachable h roots p)
  pub rooted : IsRooted h' roots

module _ (h : Heap) (roots : Roots) (rooted : IsRooted h roots) (m : Marks)
    (marks : MarksAll h (root_refs roots) (root_refs roots) (λ q. false) m) where
  kept-Reach :
      (p : ℕ) (o : ObjectBody)
      → find (gc_sweep_objects h m) p ≡ some o
      → (find h p ≡ some o) × Reach h (root_refs roots) p
  kept-Reach p o kept =
      let swept = find-gc_sweep_objects h m p in
      elim (Bool-cases (m p)) [
        | inl black ↦ (
          sym (rw black at swept) ∙ kept,
          elim (marks.0.added p black) [ inl old ↦ absurd cc | inr (reached, _) ↦ reached ],
        )
        | inr white ↦
            let gone : find (gc_sweep_objects h m) p ≡ none = rw white at swept in absurd cc
      ]

  Reach-kept :
      (p : ℕ) (o : ObjectBody)
      → find h p ≡ some o
      → Reach h (root_refs roots) p
      → find (gc_sweep_objects h m) p ≡ some o
  Reach-kept p o there reached =
      let black = Reach-marked h (root_refs roots) (IsRooted-IsHeap rooted) marks p reached in
      (rw black at (find-gc_sweep_objects h m p)) ∙ there

  Points-kept :
      (q : ℕ)
      → Points h q
      → ((o : ObjectBody) → find h q ≡ some o → Reach h (root_refs roots) q)
      → Points (gc_sweep_objects h m) q
  Points-kept q (inl null) reach = inl null
  Points-kept q (inr (o, there)) reach = inr (o, Reach-kept q o there (reach o there))

  null-kept : find (gc_sweep_objects h m) 0 ≡ none
  null-kept =
      let swept = find-gc_sweep_objects h m 0 in
      elim (Bool-cases (m 0)) [
        | inl black ↦ (rw black at swept) ∙ rooted.null
        | inr white ↦ rw white at swept
      ]

  swept-Collected : Collected h roots (gc_sweep_objects h m)
  swept-Collected = record {
    survives = λ p o. (
      λ kept.
          let (there, reached) = kept-Reach p o kept in (there, Reach-Reachable h roots reached),
      λ (there, reached). Reach-kept p o there (Reachable-Reach h roots reached),
    );
    rooted = record {
      null = null-kept;
      closed = λ p q o kept refers.
          let (there, reached) = kept-Reach p o kept in
          Points-kept q (rooted.closed p q o there refers)
            (λ b there_q. from_object reached there (Refers-refs_of refers) there_q);
      valid = λ q root.
          Points-kept q (rooted.valid q root)
            (λ o there. from_root (IsRoot-root_refs roots q root) there);
    };
  }

-- On a heap where no object has the address NULL, and every pointer, and every pointer of the roots,
-- is NULL or points to an object, a collection ends within its fuel and without a fault. An object
-- is there afterwards, with the same contents, exactly if it was there and can be reached from the
-- roots; and no pointer in the heap or of the roots is left dangling.
pub crb_garbage_collect-Collected :
    (h : Heap) (roots : Roots)
    → IsRooted h roots
    → Returns (Collected h roots) (crb_garbage_collect h roots)
unfolding crb_garbage_collect gc_mark_objects
crb_garbage_collect-Collected h roots rooted =
    Returns-bind
      (gc_mark_roots h (root_refs roots) (IsRooted-IsHeap rooted)
        λ q mem. rooted.valid q (root_refs-IsRoot roots q mem))
      λ m marks. returns (swept-Collected h roots rooted m marks)
