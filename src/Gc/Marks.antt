-- ===== src/Gc/Marks.antt =====
-- What a call of gc_mark leaves: the marks that were there, and marks on objects that can be reached.
use mathlib.Core.List.{Memᴰ}
use mathlib.Core.List.Memᴰ.{head, tail}
use c_algorithm.Base.{
  ℕ, zero, suc, ◌≤◌, ◌≡◌, refl, ap, subst, ◌∙◌, ◌==◌, ==→eq, ==→ne, Bool-cases, if◌then◌else◌, true,
  false, List, [], ◌∷◌, none, some, ◌⊎◌, inl, inr, length, arith, Run, Returns, returns,
  Returns-bind, Returns-map,
}
use c_algorithm.Gc.{ObjectBody, Heap, Marks, find, refs_of, set_mark, visit, mark_all, gc_mark}

-- the object at an address can be reached from a root
pub data Reach (h : Heap) (roots : List ℕ) : ℕ → Type 0 where
  from_root : {p : ℕ} {o : ObjectBody} → Memᴰ p roots → find h p ≡ some o → Reach h roots p
  from_object :
      {p q : ℕ} {o b : ObjectBody}
      → Reach h roots q
      → find h q ≡ some b
      → Memᴰ p (refs_of b)
      → find h p ≡ some o
      → Reach h roots p

-- NULL, or the address of an object
abbrev pub Points : Heap → ℕ → Type 0
Points h p = (p ≡ 0) ⊎ ((o : ObjectBody) × (find h p ≡ some o))

-- No object has the address NULL, and every pointer in an object is NULL or points to an object.
pub record IsHeap (h : Heap) : Type 0 where
  pub null : find h 0 ≡ none
  pub closed : (p q : ℕ) (o : ObjectBody) → find h p ≡ some o → Memᴰ q (refs_of o) → Points h q

-- the objects that are not marked
abbrev pub unmarked : Heap → Marks → ℕ
unmarked [] m = 0
unmarked (o ∷ h) m = if m o.address then unmarked h m else suc (unmarked h m)

abbrev pub Done : Marks → ℕ → Type 0
Done m p = (p ≡ 0) ⊎ (m p ≡ true)

-- what was marked stays so, and what is new can be reached, and so are its pointers marked
pub record Marked (h : Heap) (roots : List ℕ) (m m' : Marks) : Type 0 where
  pub kept : (q : ℕ) → m q ≡ true → m' q ≡ true
  pub added :
      (q : ℕ)
      → m' q ≡ true
      → (m q ≡ true)
        ⊎ (Reach h roots q
            × ((o : ObjectBody) (r : ℕ) → find h q ≡ some o → Memᴰ r (refs_of o) → Done m' r))

unmarked-length : (h : Heap) (m : Marks) → unmarked h m ≤ length h
unmarked-length [] m = omega arith
unmarked-length (o ∷ h) m = elim (Bool-cases (m o.address)) [
  | inl e ↦ rw e (omega (arith, unmarked-length h m))
  | inr e ↦ rw e (omega (arith, unmarked-length h m))
]

unmarked-kept :
    (h : Heap) (m m' : Marks) → ((q : ℕ) → m q ≡ true → m' q ≡ true) → unmarked h m' ≤ unmarked h m
unmarked-kept [] m m' kept = omega arith
unmarked-kept (o ∷ h) m m' kept =
    let rest = unmarked-kept h m m' kept in
    elim (Bool-cases (m o.address)) [
      | inl e ↦ rw (e, kept o.address e) rest
      | inr e ↦ elim (Bool-cases (m' o.address)) [
        | inl e' ↦ rw (e, e') (omega (arith, rest))
        | inr e' ↦ rw (e, e') (omega (arith, rest))
      ]
    ]

set_mark-kept : (m : Marks) (p q : ℕ) → m q ≡ true → set_mark m p q ≡ true
set_mark-kept m p q e = elim (Bool-cases (q == p)) [ inl t ↦ rw t refl | inr t ↦ rw t e ]

set_mark-same : (m : Marks) (p : ℕ) → set_mark m p p ≡ true
set_mark-same m p = let t : (p == p) ≡ true = ground arith in rw t refl

unmarked-set_mark :
    (h : Heap) (m : Marks) (p : ℕ) (o : ObjectBody)
    → find h p ≡ some o
    → m p ≡ false
    → suc (unmarked h (set_mark m p)) ≤ unmarked h m
unfolding find
unmarked-set_mark [] m p o found white = absurd cc
unmarked-set_mark (x ∷ h) m p o found white = elim (Bool-cases (x.address == p)) [
  | inl e ↦
      let here : m x.address ≡ false = ap m (==→eq x.address p e) ∙ white in
      rw (e, here) (omega (arith, unmarked-kept h m (set_mark m p) (set_mark-kept m p)))
  | inr e ↦
      let rest = unmarked-set_mark h m p o (rw e at found) white in
      elim (Bool-cases (m x.address)) [
        | inl e' ↦ rw (e, e') rest
        | inr e' ↦ rw (e, e') (omega (arith, rest))
      ]
]

Done-kept : {m m' : Marks} (p : ℕ) → ((q : ℕ) → m q ≡ true → m' q ≡ true) → Done m p → Done m' p
Done-kept p kept (inl e) = inl e
Done-kept p kept (inr e) = inr (kept p e)

module _ (h : Heap) (roots : List ℕ) where
  -- an address that gc_mark may be called on
  abbrev pub Known : ℕ → Type 0
  Known p = (p ≡ 0) ⊎ (Reach h roots p × ((o : ObjectBody) × (find h p ≡ some o)))

  Marked-refl : (m : Marks) → Marked h roots m m
  Marked-refl m = record { kept = λ q e. e; added = λ q e. inl e }

  Marked-trans :
      {m m' m'' : Marks} → Marked h roots m m' → Marked h roots m' m'' → Marked h roots m m''
  Marked-trans a b = record {
    kept = λ q e. b.kept q (a.kept q e);
    added = λ q e. elim (b.added q e) [
      | inl e' ↦ elim (a.added q e') [
        | inl old ↦ inl old
        | inr (reached, all) ↦
            inr (reached, λ o r found mem. Done-kept r b.kept (all o r found mem))
      ]
      | inr new ↦ inr new
    ];
  }

  -- what a call of gc_mark on `p` does
  abbrev MarksFrom : (p : ℕ) → Marks → Marks → Type 0
  MarksFrom p m m' = Marked h roots m m' × Done m' p

  abbrev pub MarksAll : List ℕ → Marks → Marks → Type 0
  MarksAll ps m m' = Marked h roots m m' × ((p : ℕ) → Memᴰ p ps → Done m' p)

  mark_all-MarksAll :
      (fuel : ℕ) (mark : ℕ → Marks → Run Marks)
      → ((p : ℕ) (m : Marks) → Known p → unmarked h m ≤ fuel → Returns (MarksFrom p m) (mark p m))
      → (ps : List ℕ) (m : Marks) → ((p : ℕ) → Memᴰ p ps → Known p)
      → unmarked h m ≤ fuel
      → Returns (MarksAll ps m) (mark_all mark ps m)
  unfolding mark_all
  mark_all-MarksAll fuel mark spec [] m known enough =
      returns (Marked-refl m, λ p mem. elim mem [ ])
  mark_all-MarksAll fuel mark spec (p ∷ ps) m known enough =
      Returns-bind (spec p m (known p (head refl)) enough) λ m' (first, here).
        Returns-map
          (mark_all-MarksAll fuel mark spec ps m' (λ q mem. known q (tail mem))
            (omega (arith, enough, unmarked-kept h m m' first.kept)))
          λ m'' (rest, all). (
            Marked-trans first rest,
            λ q mem. elim mem [
              | head at_p ↦ rw at_p (Done-kept p rest.kept here)
              | tail later ↦ all q later
            ],
          )

  -- the marks after the object at `p`, which was not marked, and what it refers to
  entered-Marked :
      {p : ℕ} {o : ObjectBody} {m m' : Marks}
      → Reach h roots p
      → find h p ≡ some o
      → MarksAll (refs_of o) (set_mark m p) m'
      → MarksFrom p m m'
  entered-Marked {p} {o} {m} {m'} reached found (inner, all) = (
    record {
      kept = λ q e. inner.kept q (set_mark-kept m p q e);
      added = λ q e. elim (inner.added q e) [
        | inr new ↦ inr new
        | inl marked ↦ elim (Bool-cases (q == p)) [
          | inr other ↦ inl (rw other at marked)
          | inl same ↦
              let at_p : q ≡ p = ==→eq q p same in
              inr (
                rw at_p reached,
                λ b r found_b mem.
                    all r (subst (λ x. Memᴰ r (refs_of x)) (body_unique q at_p b found_b) mem),
              )
        ]
      ];
    },
    inr (inner.kept p (set_mark-same m p)),
  )
    where
      body_unique : (q : ℕ) → q ≡ p → (b : ObjectBody) → find h q ≡ some b → b ≡ o
      body_unique q at_p b found_b = cc

  visit-MarksFrom :
      (enter : ObjectBody → Marks → Run Marks) (p : ℕ) (m : Marks)
      → Known p
      → ((o : ObjectBody)
          → Reach h roots p
          → find h p ≡ some o
          → m p ≡ false
          → Returns (MarksFrom p m) (enter o (set_mark m p)))
      → Returns (MarksFrom p m) (visit h enter p m)
  unfolding visit
  visit-MarksFrom enter p m known next = elim (Bool-cases (p == 0)) [
    | inl null ↦ rw null (returns (Marked-refl m, inl (==→eq p 0 null)))
    | inr there ↦ elim known [
      | inl e ↦ absurd (==→ne p 0 there e)
      | inr (reached, (o, found)) ↦ elim (Bool-cases (m p)) [
        | inl black ↦ rw (there, found, black) (returns (Marked-refl m, inr black))
        | inr white ↦ rw (there, found, white) (next o reached found white)
      ]
    ]
  ]

  -- what an object that is reached refers to
  refs_of-Known :
      {p : ℕ} {o : ObjectBody}
      → IsHeap h
      → Reach h roots p
      → find h p ≡ some o
      → (q : ℕ) → Memᴰ q (refs_of o)
      → Known q
  refs_of-Known {p} {o} heap reached found q mem = elim (heap.closed p q o found mem) [
    | inl e ↦ inl e
    | inr (b, there) ↦ inr (from_object reached found mem there, (b, there))
  ]

  pub gc_mark-MarksFrom :
      (heap : IsHeap h) (fuel p : ℕ) (m : Marks)
      → Known p
      → unmarked h m ≤ fuel
      → Returns (MarksFrom p m) (gc_mark fuel h p m)
  unfolding gc_mark
  gc_mark-MarksFrom heap zero p m known enough =
      visit-MarksFrom _ p m known λ o reached found white.
        absurd (omega (arith, enough, unmarked-set_mark h m p o found white))
  gc_mark-MarksFrom heap (suc fuel) p m known enough =
      visit-MarksFrom _ p m known λ o reached found white.
        Returns-map
          (mark_all-MarksAll fuel (gc_mark fuel h) (gc_mark-MarksFrom heap fuel) (refs_of o)
            (set_mark m p) (refs_of-Known heap reached found)
            (omega (arith, enough, unmarked-set_mark h m p o found white)))
          λ m' done. entered-Marked reached found done

  -- all roots, from no marks
  pub gc_mark_roots :
      IsHeap h
      → ((q : ℕ) → Memᴰ q roots → Points h q)
      → Returns (MarksAll roots (λ q. false)) (mark_all (gc_mark (length h) h) roots (λ q. false))
  gc_mark_roots heap valid =
      mark_all-MarksAll (length h) (gc_mark (length h) h) (gc_mark-MarksFrom heap (length h)) roots
        (λ q. false)
        (λ q mem. elim (valid q mem) [
          | inl e ↦ inl e
          | inr (b, there) ↦ inr (from_root mem there, (b, there))
        ])
        (unmarked-length h (λ q. false))

  Done-object :
      (m : Marks) (p : ℕ) {o : ObjectBody} → IsHeap h → find h p ≡ some o → Done m p → m p ≡ true
  Done-object m p heap there (inr black) = black
  Done-object m p heap there (inl null) =
      let nothing : find h p ≡ none = ap (find h) null ∙ heap.null in absurd cc

  -- every object that can be reached is marked in the end
  pub Reach-marked :
      {m : Marks}
      → IsHeap h
      → MarksAll roots (λ q. false) m
      → (p : ℕ) → Reach h roots p
      → m p ≡ true
  Reach-marked {m} heap (marked, all) p (from_root mem there) =
      Done-object m p heap there (all p mem)
  Reach-marked {m} heap (marked, all) p (from_object {q = q} reached found mem there) =
      elim (marked.added q (Reach-marked heap (marked, all) q reached)) [
        | inl old ↦ absurd cc
        | inr (_, closed) ↦ Done-object m p heap there (closed _ p found mem)
      ]
