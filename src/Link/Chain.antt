-- ===== src/Link/Chain.antt =====
-- The values of a linked list: what stands behind a pointer.
use c_algorithm.Base.{
  ℕ, ◌≡◌, ◌≢◌, ◌⊎◌, inl, inr, refl, some, List, [], ◌∷◌, ◌++◌, length, Value, if◌then◌else◌,
}
use c_algorithm.Link.{Link, null, head, node, LNode, Nodes, LList, Traverse}

-- the nodes from `p` on, up to the node `t`, hold `xs`; none of them is `t`
abbrev pub Upto : Nodes → ℕ → Link → List Value → Type 0
Upto s t p [] = p ≡ node t
Upto s t p (x ∷ xs) =
    (q : ℕ) × (p ≡ node q)
    × (q ≢ t)
    × ((r : Link) × (s.at_address q ≡ some (record { value = x; next = r })) × Upto s t r xs)

-- the nodes from `p` on, up to NULL, hold `xs`
abbrev pub Chain : Nodes → Link → List Value → Type 0
Chain s p [] = p ≡ null
Chain s p (x ∷ xs) =
    (q : ℕ) × (p ≡ node q)
    × ((r : Link) × (s.at_address q ≡ some (record { value = x; next = r })) × Chain s r xs)

-- The list holds `xs`: its nodes are a chain, its tail is the last of them, or the head.
pub record Linked (s : Nodes) (lst : LList) (xs : List Value) : Type 0 where
  pub count : lst.length ≡ length xs
  pub ends :
      ((xs ≡ []) × (lst.first ≡ null) × (lst.tail ≡ head))
      ⊎ ((init : List Value) × (y : Value) × (t : ℕ) × (xs ≡ init ++ y ∷ [])
          × (lst.tail ≡ node t)
          × (s.at_address t ≡ some (record { value = y; next = null }))
          × Upto s t lst.first init)

-- the last node of the chain leads to a new one
pub Upto-snoc :
    (s s2 : Nodes) (t p : ℕ) (y : Value)
    → t ≢ p
    → s2.at_address t ≡ some (record { value = y; next = node p })
    → ((q : ℕ) (n : LNode) → q ≢ t → s.at_address q ≡ some n → (q ≢ p) × (s2.at_address q ≡ some n))
    → (init : List Value) (l : Link) → Upto s t l init
    → Upto s2 p l (init ++ y ∷ [])
Upto-snoc s s2 t p y ne at_t kept [] l at_end = (t, at_end, ne, (node p, at_t, refl))
Upto-snoc s s2 t p y ne at_t kept (x ∷ init) l (q, e, apart, (r, found, rest)) =
    let k = kept q (record { value = x; next = r }) apart found in
    (q, e, k.0, (r, k.1, Upto-snoc s s2 t p y ne at_t kept init r rest))

pub Upto-Chain :
    (s : Nodes) (t : ℕ) (y : Value)
    → s.at_address t ≡ some (record { value = y; next = null })
    → (init : List Value) (l : Link) → Upto s t l init
    → Chain s l (init ++ y ∷ [])
Upto-Chain s t y at_t [] l e = (t, e, (null, at_t, refl))
Upto-Chain s t y at_t (x ∷ init) l (q, e, apart, (r, found, rest)) =
    (q, e, (r, found, Upto-Chain s t y at_t init r rest))

pub Linked-Chain :
    (s : Nodes) (lst : LList) (xs : List Value) → Linked s lst xs → Chain s lst.first xs
Linked-Chain s lst xs h = elim h.ends [
  | inl (e, e', e2) ↦ rw (e, e') refl
  | inr (init, y, t, e, e', at_t, upto) ↦ rw e (Upto-Chain s t y at_t init lst.first upto)
]

-- the values of a chain, each handed to the function until it stops
unfoldable pub visit_all : {P : Type 0} → Traverse P → List Value → P → P
visit_all visit [] param = param
visit_all visit (x ∷ xs) param =
    let rest = visit_all visit xs ((visit x param).1) in
    if (visit x param).0 then (visit x param).1 else rest
