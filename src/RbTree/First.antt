-- ===== src/RbTree/First.antt =====
-- rbtree_fast_set on an empty tree: the tree of one node.
use c_algorithm.Base.{
  ℕ, ◌+◌, ◌≡◌, ◌≢◌, ◌∙◌, sym, inl, inr, refl, arith, ◌==◌, ==→eq, true, false, Bool-cases,
  if◌then◌else◌, Value,
}
use c_algorithm.Order.{Compare}
use c_algorithm.RbTree.{RbTree, Side, leaf, set_red}
use c_algorithm.RbTree.Links.{IsNode}
use c_algorithm.RbTree.Balanced.{Balanced}
use c_algorithm.RbTree.Attach.{IsFresh, opened}

-- the tree of one node
module _ (cmp : Compare) (tr : RbTree) (leaf_there : tr.allocated leaf ≡ true)
    (no_null : tr.allocated 0 ≡ false) (leaf_black : tr.red leaf ≡ false)
    (no_nodes : (q : ℕ) → ¬ IsNode tr q) (fresh : IsFresh tr) (v : Value) where
  abbrev pub only : RbTree
  only =
      set_red tr.unused false (record (opened tr v 0) { root = tr.unused; length = tr.length + 1 })

  only_node : (q : ℕ) → IsNode only q → q ≡ tr.unused
  only_node q m = elim (Bool-cases (q == tr.unused)) [
    | inl e ↦ ==→eq _ _ e
    | inr e ↦ absurd (no_nodes q (sym (rw e refl) ∙ m.0, m.1))
  ]

  only_child : (t : Side) (q : ℕ) → IsNode only q → only.child t q ≡ leaf
  only_child t q m = let k : q ≡ tr.unused = only_node q m in rw k (ground arith)

  some_root : (tr.unused ≢ leaf) × (tr.unused ≢ 0)
  some_root = ground (arith, fresh leaf, leaf_there)

  pub only-Balanced : Balanced cmp only 1 0
  only-Balanced = record {
    admits = λ q w. true;
    height = λ q. if q == tr.unused then 1 else 0;
    linked = record {
      leaf_there = ground (arith, leaf_there);
      no_null = ground (arith, no_null, some_root);
      root_there = ground arith;
      down = λ t q m ne. absurd (ne (only_child t q m));
      apart = λ t q m ne. absurd (ne (only_child t q m));
      up = λ q m ne. absurd (ne (only_node q m));
    };
    ordered = record {
      own = λ q m. refl;
      full = λ w ne. refl;
      split = λ t q w m ne. absurd (ne (only_child t q m));
    };
    coloured = record {
      leaf_black = ground (arith, leaf_black, some_root);
      leaf_height = ground (arith, some_root);
      bounded = λ q m. ground arith;
      even = λ t q m. rw (only_child t q m, only_node q m) (ground (arith, some_root));
      no_red_red = λ t q m r ne. rw (only_child t q m) (ground (arith, leaf_black, some_root));
      root_black = λ ne. ground arith;
    };
  }
