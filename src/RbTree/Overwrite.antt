-- ===== src/RbTree/Overwrite.antt =====
-- rbtree_set on a key that is there: the value changes in place.
use c_algorithm.Base.{
  ℕ, ◌≡◌, ◌∙◌, sym, ap, ◌==◌, ==→eq, true, Bool-cases, inl, inr, ◌&&◌, Value, pos,
}
use c_algorithm.Order.{Compare}
use c_algorithm.RbTree.{RbTree, Side, lhs, rhs, set_value}
use c_algorithm.RbTree.Links.{IsThreeWay, IsNode, before}
use c_algorithm.RbTree.Balanced.{Balanced}

module _ (cmp : Compare) (o : IsThreeWay cmp) where
  -- values that compare as equal lie on the same side of each other value
  before_same : (s : Side) (v w u : Value) → cmp v w ≡ pos 0 → before cmp s u v ≡ before cmp s u w
  before_same lhs v w u e = o.flip u v ∙ o.same_pos v w u e ∙ sym (o.flip u w)
  before_same rhs v w u e = sym (o.flip v u) ∙ o.same_neg v w u e ∙ o.flip w u

  pub set_value-Balanced :
      (tr : RbTree) (bound exempt q : ℕ) (v : Value) (b : Balanced cmp tr bound exempt)
      → IsNode tr q
      → cmp v (tr.value q) ≡ pos 0
      → b.admits q v ≡ true
      → Balanced cmp (set_value q v tr) bound exempt
  set_value-Balanced tr bound exempt q v b n same admitted = record {
    admits = b.admits;
    height = b.height;
    linked = record {
      leaf_there = b.linked.leaf_there;
      no_null = b.linked.no_null;
      root_there = b.linked.root_there;
      down = b.linked.down;
      apart = b.linked.apart;
      up = b.linked.up;
    };
    ordered = record {
      own = λ p m. elim (Bool-cases (p == q)) [
        | inl e ↦ let k : p ≡ q = ==→eq _ _ e in rw e (rw k admitted)
        | inr e ↦ rw e (b.ordered.own p m)
      ];
      full = b.ordered.full;
      split = λ s p w m ne. elim (Bool-cases (p == q)) [
        | inl e ↦
            let k : p ≡ q = ==→eq _ _ e in
            rw e (
              b.ordered.split s p w m ne
              ∙ ap (λ c. b.admits p w && c)
                  (ap (λ z. before cmp s w (tr.value z)) k
                    ∙ sym (before_same s v (tr.value q) w same)))
        | inr e ↦ rw e (b.ordered.split s p w m ne)
      ];
    };
    coloured = record {
      leaf_black = b.coloured.leaf_black;
      leaf_height = b.coloured.leaf_height;
      bounded = b.coloured.bounded;
      even = b.coloured.even;
      no_red_red = b.coloured.no_red_red;
      root_black = b.coloured.root_black;
    };
  }
