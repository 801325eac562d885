-- ===== src/RbTree/Sorted.antt =====
-- src/rbtree.c: rbtree_set, then rbtree_ldr.
use mathlib.Core.List.{map, Memᴰ}
use c_algorithm.Base.{
  ℕ, suc, ◌+◌, ◌*◌, ◌<◌, ◌≡◌, ◌≢◌, List, length, Value, ok, Returns, Returns-map,
}
use c_algorithm.Order.{Compare}
use c_algorithm.Link.{Traverse}
use c_algorithm.Link.Chain.{visit_all}
use c_algorithm.RbTree.{RbTree, rbtree_set}
use c_algorithm.RbTree.Links.{IsThreeWay}
use c_algorithm.RbTree.Balanced.{Balanced}
use c_algorithm.RbTree.Attach.{IsFresh}
use c_algorithm.RbTree.Insert.{rbtree_set-IsWritten}
use c_algorithm.RbTree.InOrder.{InOrder, Balanced-InOrder}
use c_algorithm.RbTree.RoundTrip.{IsWritten-node}
use c_algorithm.RbTree.Traversal.{rbtree_ldr-visit_all}
use c_algorithm.RbTree.Walk.{rbtree_ldr}

-- The nodes of a tree can be listed with their values ascending, one of them has the value `v`, and
-- the walk hands their values to `visit` in that order.
pub record Walked (cmp : Compare) (v : Value) {P : Type 0} (visit : Traverse P) (param : P)
    (tr : RbTree) : Type 0 where
  pub nodes : List ℕ
  pub in_order : InOrder cmp tr nodes
  pub written : (q : ℕ) × Memᴰ q nodes × (tr.value q ≡ v)
  pub walk :
      (fuel : ℕ)
      → length nodes < fuel
      → rbtree_ldr tr visit param fuel ≡ ok (visit_all visit (map tr.value nodes) param)

module _ (cmp : Compare) (o : IsThreeWay cmp) (tr : RbTree) (bound : ℕ)
    (b : Balanced cmp tr bound 0) (fresh : IsFresh tr) (v : Value) where
  -- After rbtree_set into a balanced tree under a three-way COMPARE, with room for a node and fuel
  -- above one more than twice the bound of the black heights, rbtree_ldr hands the values to the
  -- function in ascending order, those of all nodes, each node once, the new value among them, until
  -- the function asks to stop.
  pub rbtree_set-rbtree_ldr :
      {P : Type 0} (visit : Traverse P) (param : P) (fuel : ℕ)
      → 2 * bound + 1 < fuel
      → tr.room ≢ 0
      → Returns (Walked cmp v visit param) (rbtree_set cmp tr v fuel)
  rbtree_set-rbtree_ldr visit param fuel enough room =
      Returns-map (rbtree_set-IsWritten cmp o tr bound b fresh v fuel enough room) λ tr' w.
        let (qs, i) = Balanced-InOrder cmp o tr' (suc bound) w.balanced in
        let (q, node, value) = IsWritten-node cmp o tr bound v tr' b.linked.leaf_there w in
        record {
          nodes = qs;
          in_order = i;
          written = (q, i.complete q node, value);
          walk = λ fuel enough. rbtree_ldr-visit_all cmp tr' qs i visit param fuel enough;
        }
