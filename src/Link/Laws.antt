-- ===== src/Link/Laws.antt =====
-- llist_push_back and llist_traversal on the list of values.
use c_algorithm.Base.{
  ℕ, zero, suc, ◌<◌, ◌≡◌, ◌≢◌, ◌∙◌, ap, inl, inr, refl, some, none, List, [], ◌∷◌, ◌++◌, arith,
  length, length-append, Value, false, Bool-cases, ◌==◌, ok, Returns, returns,
}
use c_algorithm.Link.{
  Link, null, head, node, LNode, Nodes, LList, Traverse, put_node, malloc_node, new, fetch,
  link_tail, link_after, llist_push_back, traverse_loop, llist_traversal,
}
use c_algorithm.Link.Chain.{Chain, Linked, Upto-snoc, Linked-Chain, visit_all}

-- what is asked of an `alloc`: a node where there was none, and all others as they were
pub record Gives (s : Nodes) (r : Link × Nodes) : Type 0 where
  pub p : ℕ
  pub given : r.0 ≡ node p
  pub was_free : s.at_address p ≡ none
  pub there : LNode
  pub found : r.1.at_address p ≡ some there
  pub others : (q : ℕ) → q ≢ p → r.1.at_address q ≡ s.at_address q

-- `malloc_node` gives one while there is memory
pub malloc_node-Gives :
    (s : Nodes) → 0 < s.room → s.at_address s.unused ≡ none → Gives s (malloc_node s)
unfolding malloc_node
malloc_node-Gives s room free =
    let some_room : (s.room == 0) ≡ false = ground arith in
    rw some_room (record {
      p = s.unused;
      given = refl;
      was_free = free;
      there = s.junk;
      found = ground arith;
      others = λ q ne. ground arith;
    })

pub fetch-ok :
    (p : ℕ) (n : LNode) (s : Nodes) → s.at_address p ≡ some n → fetch (node p) s ≡ ok (p, n)
unfolding fetch
fetch-ok p n s e = rw (e, fetch) refl

link_tail-head :
    (lst : LList) (p : Link) (s : Nodes)
    → lst.tail ≡ head
    → link_tail lst p s ≡ ok (record lst { first = p }, s)
unfolding link_tail link_after
link_tail-head lst p s e = ap (λ t. link_after t lst p s) e

link_tail-node :
    (lst : LList) (p : Link) (s : Nodes) (t : ℕ) (n : LNode)
    → lst.tail ≡ node t
    → s.at_address t ≡ some n
    → link_tail lst p s ≡ ok (lst, put_node t (some (record n { next = p })) s)
unfolding link_tail link_after
link_tail-node lst p s t n e found =
    ap (λ t. link_after t lst p s) e ∙ rw (fetch-ok t n s found) refl

traverse_loop-Chain :
    {P : Type 0} (visit : Traverse P) (s : Nodes) (xs : List Value) (fuel : ℕ) (p : Link)
    (param : P)
    → length xs < fuel
    → Chain s p xs
    → traverse_loop visit fuel p param s ≡ ok (visit_all visit xs param)
unfolding traverse_loop visit_all
traverse_loop-Chain visit s xs zero p param enough c = absurd (omega arith)
traverse_loop-Chain visit s [] (suc fuel) p param enough c = rw c refl
traverse_loop-Chain visit s (x ∷ xs) (suc fuel) p param enough (q, e, (r, found, rest)) =
    rw
      (
        e,
        fetch-ok q (record { value = x; next = r }) s found,
        traverse_loop-Chain visit s xs fuel r (visit x param).1 (omega arith) rest,
      )
      (elim (Bool-cases ((visit x param).0)) [ inl stop ↦ rw stop refl | inr on ↦ rw on refl ])

-- llist_traversal hands the values of the list to the function in their order until it stops, and
-- ends within one more round than the list has values.
pub llist_traversal-visit_all :
    {P : Type 0} (visit : Traverse P) (s : Nodes) (lst : LList) (xs : List Value) (param : P)
    → Linked s lst xs
    → llist_traversal lst visit param s ≡ ok (visit_all visit xs param)
unfolding llist_traversal
llist_traversal-visit_all visit s lst xs param h =
    traverse_loop-Chain visit s xs (suc lst.length) lst.first param (omega (arith, h.count))
      (Linked-Chain s lst xs h)

-- llist_push_back puts the value behind the last one of the list, if the allocator gives a node.
pub llist_push_back-Linked :
    (s : Nodes) (lst : LList) (xs : List Value) (v : Value)
    → Linked s lst xs
    → Gives s (new lst s)
    → Returns (λ (lst', s'). Linked s' lst' (xs ++ v ∷ [])) (llist_push_back lst v s)
unfolding llist_push_back
llist_push_back-Linked s lst xs v h g = elim h.ends [
  | inl (e, e', e2) ↦
      rw
        (g.given, fetch-ok g.p g.there (new lst s).1 g.found, link_tail-head lst (node g.p) _ e2, e)
        (returns (record {
          count = omega (arith, h.count, ap length e);
          ends = inr ([], v, g.p, refl, refl, ground arith, refl);
        }))
  | inr (init, y, t, e, e', at_t, upto) ↦
      let apart : t ≢ g.p = ground (arith, at_t, g.was_free) in
      let written : Nodes = put_node g.p (some (record { value = v; next = null })) (new lst s).1 in
      let kept : written.at_address t ≡ some (record { value = y; next = null }) =
        ground (arith, g.others t apart, at_t) in
      rw
        (
          g.given,
          fetch-ok g.p g.there (new lst s).1 g.found,
          link_tail-node lst (node g.p) written t (record { value = y; next = null }) e' kept,
        )
        (returns (record {
          count = omega (arith, h.count, length-append xs (v ∷ []));
          ends = inr (
            xs,
            v,
            g.p,
            refl,
            refl,
            ground arith,
            rw e (
                Upto-snoc s (put_node t (some (record { value = y; next = node g.p })) written) t
                  g.p y apart (ground arith)
                  (λ q n ne there. (ground (arith, there, g.was_free), ground (arith, g.others q)))
                  init lst.first upto),
          );
        }))
]
