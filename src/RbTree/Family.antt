-- ===== src/RbTree/Family.antt =====
-- A red node that is not the root, under a red parent: its parent, grandparent and uncle.
use c_algorithm.Base.{
  ℕ, ◌≡◌, ◌≢◌, ◌⊎◌, ◌∙◌, sym, ap, inl, inr, refl, arith, ◌==◌, ==→eq, ==→ne, true, false,
  Bool-cases, if◌then◌else◌,
}
use c_algorithm.Order.{Compare}
use c_algorithm.RbTree.{RbTree, Side, lhs, rhs, other}
use c_algorithm.RbTree.Sides.{up_side}
use c_algorithm.RbTree.Links.{IsThreeWay, IsNode, child_ne}
use c_algorithm.RbTree.Balanced.{Balanced}

-- what the loop of rbtree_fast_set knows of `x` when its parent stands on the side `s`
pub record Clash (tr : RbTree) (s : Side) (x p g : ℕ) : Type 0 where
  pub x_node : IsNode tr x
  pub x_red : tr.red x ≡ true
  pub x_inner : x ≢ tr.root
  pub x_up : tr.parent x ≡ p
  pub p_node : IsNode tr p
  pub p_red : tr.red p ≡ true
  pub p_inner : p ≢ tr.root
  pub p_up : tr.parent p ≡ g
  pub p_down : (tr.child s p ≡ x) ⊎ (tr.child (other s) p ≡ x)
  pub g_node : IsNode tr g
  pub g_black : tr.red g ≡ false
  pub g_down : tr.child s g ≡ p
  pub distinct : (p ≢ x) × (g ≢ p) × (g ≢ x)

module _ (cmp : Compare) (o : IsThreeWay cmp) (tr : RbTree) (bound x : ℕ)
    (b : Balanced cmp tr bound x) (n : IsNode tr x) (inner : x ≢ tr.root) where
  -- the parent of a node, and what the node is not
  parent_ne : (q : ℕ) → IsNode tr q → q ≢ tr.root → tr.parent q ≢ q
  parent_ne q m ne e =
      let u = b.linked.up q m ne in
      elim u.1 [
        | inl d ↦
            child_ne cmp o tr b.admits b.linked b.ordered lhs (tr.parent q) u.0
              (λ z. m.1 (sym d ∙ z)) (d ∙ sym e)
        | inr d ↦
            child_ne cmp o tr b.admits b.linked b.ordered rhs (tr.parent q) u.0
              (λ z. m.1 (sym d ∙ z)) (d ∙ sym e)
      ]

  pub red_parent-Clash :
      (s : Side)
      → tr.red x ≡ true
      → tr.red (tr.parent x) ≡ true
      → s ≡ (if tr.child lhs (tr.parent (tr.parent x)) == tr.parent x then lhs else rhs)
      → Clash tr s x (tr.parent x) (tr.parent (tr.parent x))
  red_parent-Clash s x_red p_red side =
      let u = b.linked.up x n inner in
      let c = b.coloured in
      let p_inner : tr.parent x ≢ tr.root =
        ground (arith, c.root_black (λ e. inner (sym e)), p_red) in
      let v = b.linked.up (tr.parent x) u.0 p_inner in
      let x_ne = parent_ne x n inner in
      let p_ne = parent_ne (tr.parent x) u.0 p_inner in
      let g_down : tr.child s (tr.parent (tr.parent x)) ≡ tr.parent x =
        elim (Bool-cases (tr.child lhs (tr.parent (tr.parent x)) == tr.parent x)) [
          | inl e ↦ rw side (rw e (==→eq _ _ e))
          | inr e ↦ rw side (rw e (elim v.1 [ inl d ↦ absurd (==→ne _ _ e d) | inr d ↦ d ]))
        ] in
      let g_black : tr.red (tr.parent (tr.parent x)) ≡ false =
        elim (Bool-cases (tr.red (tr.parent (tr.parent x)))) [
          | inl e ↦
              absurd (
                ground (arith, c.no_red_red s (tr.parent (tr.parent x)) v.0 e, g_down, x_ne, p_red))
          | inr e ↦ e
        ] in
      record {
        x_node = n;
        x_red = x_red;
        x_inner = inner;
        x_up = refl;
        p_node = u.0;
        p_red = p_red;
        p_inner = p_inner;
        p_up = refl;
        p_down = up_side (λ t. tr.child t (tr.parent x)) s u.1;
        g_node = v.0;
        g_black = g_black;
        g_down = g_down;
        distinct = (x_ne, p_ne, λ e. ground (arith, g_black, x_red, ap tr.red e));
      }
