-- ===== src/RbTree/Blacken.antt =====
-- The end of rbtree_fast_set: the root turns black.
use c_algorithm.Base.{ℕ, suc, ◌≤◌, ◌≡◌, ◌≢◌, ◌⊎◌, ◌∙◌, sym, ap, arith, ◌==◌, false, if◌then◌else◌}
use c_algorithm.Order.{Compare}
use c_algorithm.RbTree.{RbTree, set_red}
use c_algorithm.RbTree.Links.{IsNode}
use c_algorithm.RbTree.Colours.{Coloured}
use c_algorithm.RbTree.Balanced.{Balanced, set_red-Linked, set_red-Ordered}

pub Balanced-mono :
    {cmp : Compare} {tr : RbTree} {bound bound' exempt : ℕ}
    → bound ≤ bound'
    → Balanced cmp tr bound exempt
    → Balanced cmp tr bound' exempt
Balanced-mono le b = record {
  admits = b.admits;
  height = b.height;
  linked = b.linked;
  ordered = b.ordered;
  coloured = record {
    leaf_black = b.coloured.leaf_black;
    leaf_height = b.coloured.leaf_height;
    bounded = λ q m. omega (arith, b.coloured.bounded q m);
    even = b.coloured.even;
    no_red_red = b.coloured.no_red_red;
    root_black = b.coloured.root_black;
  };
}

module _ (cmp : Compare) (tr : RbTree) (bound x : ℕ) (b : Balanced cmp tr bound x) (n : IsNode tr x)
    (harmless : (x ≡ tr.root) ⊎ (tr.red (tr.parent x) ≡ false)) where
  abbrev height' : ℕ → ℕ
  height' q =
      if q == tr.root then (if tr.red q then suc (b.height q) else b.height q) else b.height q

  blackened-Coloured : Coloured (set_red tr.root false tr) height' (suc bound) 0
  blackened-Coloured = record {
    leaf_black = ground (arith, b.coloured.leaf_black);
    leaf_height = ground (arith, b.coloured.leaf_black, b.coloured.leaf_height);
    bounded = λ q m. ground (arith, b.coloured.bounded q m);
    even = λ t q m. ground (
      arith,
      b.coloured.even t q m,
      b.linked.down t q m,
      b.coloured.leaf_height,
      b.coloured.leaf_black,
    );
    no_red_red = λ t q m r ne.
        let up : tr.child t q ≡ x → (tr.parent x ≡ q) × (x ≢ tr.root) = λ e.
          let d = b.linked.down t q m (λ z. n.1 (sym e ∙ z)) in
          (sym (ap tr.parent e) ∙ d.1, λ z. d.2 (e ∙ z)) in
        let at_up : tr.parent x ≡ q → tr.red (tr.parent x) ≡ tr.red q = ap tr.red in
        ground (arith, b.coloured.no_red_red t q m, up, at_up, harmless);
    root_black = λ ne. ground arith;
  }

  pub blackened-Balanced : Balanced cmp (set_red tr.root false tr) (suc bound) 0
  blackened-Balanced = record {
    admits = b.admits;
    height = height';
    linked = set_red-Linked tr.root false b.linked;
    ordered = set_red-Ordered tr.root false b.ordered;
    coloured = blackened-Coloured;
  }
