-- ===== src/Link/Double/Laws.antt =====
-- dllist_push_back and dlist_traversal on the list of values.
use c_algorithm.Base.{
  ℕ, zero, suc, ◌+◌, ◌<◌, ◌≡◌, refl, some, List, [], ◌∷◌, arith, length, Value, Bool, true, false,
  Bool-cases, inl, inr, if◌then◌else◌, ok,
}
use c_algorithm.Link.{Link, null, head, node, Traverse}
use c_algorithm.Link.Chain.{visit_all}
use c_algorithm.Link.Double.{
  DlNode, DlNodes, DlList, fetch_dlnode, forward_loop, backward_loop, dlist_traversal,
}

-- the nodes from `p` on hold `xs`, the first points back to `back`, and the last one is `last`
abbrev pub DlChain : DlNodes → Link → Link → List Value → Link → Type 0
DlChain s back p [] last = (p ≡ null) × (last ≡ back)
DlChain s back p (x ∷ xs) last =
    (q : ℕ) × (p ≡ node q)
    × ((r : Link) × (s.at_address q ≡ some (record { value = x; next = r; prev = back }))
        × DlChain s (node q) r xs last)

pub record DlLinked (s : DlNodes) (lst : DlList) (xs : List Value) : Type 0 where
  pub count : lst.length ≡ length xs
  pub chain : DlChain s head lst.first xs lst.tail

-- the nodes from `p` back, up to the head, hold `xs`
abbrev BackChain : DlNodes → Link → List Value → Type 0
BackChain s p [] = p ≡ head
BackChain s p (x ∷ xs) =
    (q : ℕ) × (p ≡ node q)
    × ((n : DlNode) × (s.at_address q ≡ some n) × (n.value ≡ x) × BackChain s n.prev xs)

-- the list from its end on, before `acc`
unfoldable pub rev_onto : List Value → List Value → List Value
rev_onto [] acc = acc
rev_onto (x ∷ xs) acc = rev_onto xs (x ∷ acc)

length-rev_onto : (xs acc : List Value) → length (rev_onto xs acc) ≡ length xs + length acc
unfolding rev_onto
length-rev_onto [] acc = omega arith
length-rev_onto (x ∷ xs) acc = omega (arith, length-rev_onto xs (x ∷ acc))

DlChain-BackChain :
    (s : DlNodes) (xs acc : List Value) (back p last : Link)
    → DlChain s back p xs last
    → BackChain s back acc
    → BackChain s last (rev_onto xs acc)
unfolding rev_onto
DlChain-BackChain s [] acc back p last (e, e') b = rw e' b
DlChain-BackChain s (x ∷ xs) acc back p last (q, e, (r, found, rest)) b =
    DlChain-BackChain s xs (x ∷ acc) (node q) r last rest (q, refl, (_, found, refl, b))

pub fetch-ok :
    (p : ℕ) (n : DlNode) (s : DlNodes) → s.at_address p ≡ some n → fetch_dlnode p s ≡ ok n
unfolding fetch_dlnode
fetch-ok p n s e = rw (e, fetch_dlnode) refl

forward_loop-DlChain :
    {P : Type 0} (visit : Traverse P) (s : DlNodes) (xs : List Value) (fuel : ℕ)
    (back p last : Link) (param : P)
    → length xs < fuel
    → DlChain s back p xs last
    → forward_loop visit fuel p param s ≡ ok (visit_all visit xs param)
unfolding forward_loop visit_all
forward_loop-DlChain visit s xs zero back p last param enough c = absurd (omega arith)
forward_loop-DlChain visit s [] (suc fuel) back p last param enough (e, e') = rw e refl
forward_loop-DlChain visit s (x ∷ xs) (suc fuel) back p last param enough (q, e, (r, found, rest)) =
    rw
      (
        e,
        fetch-ok q (record { value = x; next = r; prev = back }) s found,
        forward_loop-DlChain visit s xs fuel (node q) r last (visit x param).1 (omega arith) rest,
      )
      (elim (Bool-cases ((visit x param).0)) [ inl stop ↦ rw stop refl | inr on ↦ rw on refl ])

backward_loop-BackChain :
    {P : Type 0} (visit : Traverse P) (s : DlNodes) (xs : List Value) (fuel : ℕ) (p : Link)
    (param : P)
    → length xs < fuel
    → BackChain s p xs
    → backward_loop visit fuel p param s ≡ ok (visit_all visit xs param)
unfolding backward_loop visit_all
backward_loop-BackChain visit s xs zero p param enough c = absurd (omega arith)
backward_loop-BackChain visit s [] (suc fuel) p param enough e = rw e refl
backward_loop-BackChain visit s (x ∷ xs) (suc fuel) p param enough (q, e, (n, found, value, rest)) =
    rw
      (
        e,
        fetch-ok q n s found,
        value,
        backward_loop-BackChain visit s xs fuel n.prev (visit x param).1 (omega arith) rest,
      )
      (elim (Bool-cases ((visit x param).0)) [ inl stop ↦ rw stop refl | inr on ↦ rw on refl ])

-- dlist_traversal hands the values of the list to the function until it stops, in their order or
-- in the reverse one, and ends within one more round than the list has values.
pub dlist_traversal-visit_all :
    {P : Type 0} (visit : Traverse P) (s : DlNodes) (lst : DlList) (xs : List Value)
    (reverse : Bool) (param : P)
    → DlLinked s lst xs
    → dlist_traversal lst reverse visit param s
      ≡ ok (visit_all visit (if reverse then rev_onto xs [] else xs) param)
unfolding dlist_traversal
dlist_traversal-visit_all visit s lst xs true param h =
    backward_loop-BackChain visit s (rev_onto xs []) (suc lst.length) lst.tail param
      (omega (arith, h.count, length-rev_onto xs []))
      (DlChain-BackChain s xs [] head lst.first lst.tail h.chain refl)
dlist_traversal-visit_all visit s lst xs false param h =
    forward_loop-DlChain visit s xs (suc lst.length) head lst.first lst.tail param
      (omega (arith, h.count)) h.chain
