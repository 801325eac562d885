-- ===== src/Link/Tests.antt =====
-- A list of two nodes.
use c_algorithm.Base.{
  ◌≡◌, ◌+◌, refl, ℕ, [], ◌∷◌, arith, none, some, inr, ok, true, false, Returns, ◌==◌, if◌then◌else◌,
}
use c_algorithm.Link.{
  null, node, Nodes, LList, Traverse, null_allocator, new, llist_push_back, llist_traversal,
  llist_clear,
}
use c_algorithm.Link.Chain.{Linked, visit_all}
use c_algorithm.Link.Clear.{Cleared, llist_clear-Cleared}
use c_algorithm.Link.Laws.{
  Gives, malloc_node-Gives, llist_push_back-Linked, llist_traversal-visit_all,
}

abbrev nodes : Nodes
nodes = record {
  at_address = λ p.
      if p == 5
      then some (record { value = 1; next = node 3 })
      else if p == 3
      then some (record { value = 2; next = null })
      else none;
  unused = 6;
  room = 4;
  junk = record { value = 7; next = node 9 };
}

abbrev two_nodes : LList
two_nodes = record { first = node 5; tail = node 3; length = 2; allocator = null_allocator }

two_nodes-Linked : Linked nodes two_nodes (1 ∷ 2 ∷ [])
two_nodes-Linked = record {
  count = refl;
  ends = inr (1 ∷ [], 2, 3, refl, refl, refl, (5, refl, ground arith, (node 3, refl, refl)));
}

new-Gives : Gives nodes (new two_nodes nodes)
unfolding new
new-Gives = malloc_node-Gives nodes (omega arith) refl

llist_push_back-Linked_example :
    Returns (λ (lst, s). Linked s lst (1 ∷ 2 ∷ 9 ∷ [])) (llist_push_back two_nodes 9 nodes)
llist_push_back-Linked_example =
    llist_push_back-Linked nodes two_nodes (1 ∷ 2 ∷ []) 9 two_nodes-Linked new-Gives

-- adds the values up, and stops behind a value above 1
abbrev sum_up : Traverse ℕ
sum_up v total = (if v == 2 then true else false, total + v)

llist_traversal-visit_all_example : llist_traversal two_nodes sum_up 10 nodes ≡ ok 13
unfolding visit_all
llist_traversal-visit_all_example =
    llist_traversal-visit_all sum_up nodes two_nodes (1 ∷ 2 ∷ []) 10 two_nodes-Linked

llist_clear-Cleared_example :
    Returns
      (λ (lst, s). Linked s lst [] × Cleared nodes (node 5) (1 ∷ 2 ∷ []) s)
      (llist_clear two_nodes nodes)
llist_clear-Cleared_example = llist_clear-Cleared nodes two_nodes (1 ∷ 2 ∷ []) two_nodes-Linked refl
