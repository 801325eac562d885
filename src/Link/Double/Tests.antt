-- ===== src/Link/Double/Tests.antt =====
-- A doubly linked list of two nodes.
use c_algorithm.Base.{
  ◌≡◌, refl, List, [], ◌∷◌, arith, none, some, ok, Value, true, false, Returns, ◌==◌, if◌then◌else◌,
}
use c_algorithm.Link.{null, head, node, Traverse}
use c_algorithm.Link.Chain.{visit_all}
use c_algorithm.Link.Double.{DlNodes, DlList, dllist_push_back, dlist_traversal}
use c_algorithm.Link.Double.Laws.{DlLinked, rev_onto, dlist_traversal-visit_all}
use c_algorithm.Link.Double.Push.{dllist_push_back-DlLinked}

abbrev nodes : DlNodes
nodes = record {
  at_address = λ p.
      if p == 5
      then some (record { value = 1; next = node 3; prev = head })
      else if p == 3
      then some (record { value = 2; next = null; prev = node 5 })
      else none;
  unused = 6;
  room = 4;
}

abbrev two_nodes : DlList
two_nodes = record { first = node 5; tail = node 3; length = 2 }

two_nodes-DlLinked : DlLinked nodes two_nodes (1 ∷ 2 ∷ [])
two_nodes-DlLinked = record {
  count = refl;
  chain = (5, refl, (node 3, refl, (3, refl, (null, refl, (refl, refl)))));
}

dllist_push_back-DlLinked_example :
    Returns (λ (lst, s). DlLinked s lst (1 ∷ 2 ∷ 9 ∷ [])) (dllist_push_back two_nodes 9 nodes)
dllist_push_back-DlLinked_example =
    dllist_push_back-DlLinked nodes two_nodes (1 ∷ 2 ∷ []) 9 two_nodes-DlLinked (omega arith) refl

-- the last digit first
abbrev append_digit : Traverse (List Value)
append_digit v seen = (false, v ∷ seen)

dlist_traversal-visit_all_example :
    dlist_traversal two_nodes true append_digit [] nodes ≡ ok (1 ∷ 2 ∷ [])
unfolding visit_all rev_onto
dlist_traversal-visit_all_example =
    dlist_traversal-visit_all append_digit nodes two_nodes (1 ∷ 2 ∷ []) true [] two_nodes-DlLinked
