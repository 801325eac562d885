-- ===== src/RbTree/Outer.antt =====
-- A black uncle, and the red node on the outer side of its parent: the parent turns black, the
-- grandparent red, and a rotation puts the parent above the grandparent.
use c_algorithm.Base.{
  ℕ, ◌+◌, ◌≡◌, ◌≢◌, ◌∙◌, sym, ap, refl, arith, ◌==◌, true, false, if◌then◌else◌, Returns,
  Returns-map,
}
use c_algorithm.Order.{Compare}
use c_algorithm.RbTree.{RbTree, Side, other, leaf, set_red, rotate}
use c_algorithm.RbTree.Sides.{both_sides, other-other}
use c_algorithm.RbTree.Links.{IsThreeWay, IsNode, Linked, Ordered, child_ne, grandchild_ne}
use c_algorithm.RbTree.Colours.{Coloured}
use c_algorithm.RbTree.Rotate.{Rotated, rotate-Rotated}
use c_algorithm.RbTree.Turned.{admits', Turned-Linked, Turned-Ordered}
use c_algorithm.RbTree.Balanced.{Balanced, Same, set_red-Linked, set_red-Ordered}
use c_algorithm.RbTree.Family.{Clash}

-- the tree when the loop of rbtree_fast_set has nothing left to do at `x`
pub record Placed (cmp : Compare) (tr tr' : RbTree) (bound x : ℕ) : Type 0 where
  pub same : Same tr tr'
  pub balanced : Balanced cmp tr' bound x
  pub node : IsNode tr' x
  pub is_red : tr'.red x ≡ true
  pub parent_black : tr'.red (tr'.parent x) ≡ false

module _ (cmp : Compare) (o : IsThreeWay cmp) (tr : RbTree) (bound x : ℕ)
    (b : Balanced cmp tr bound x) (s : Side) (p g : ℕ) (f : Clash tr s x p g)
    (u_black : tr.red (tr.child (other s) g) ≡ false) (out : tr.child s p ≡ x) where
  abbrev pub painted : RbTree
  painted = set_red g true (set_red p false tr)

  painted-Linked : Linked painted
  painted-Linked = set_red-Linked g true (set_red-Linked p false b.linked)

  painted-Ordered : Ordered painted cmp b.admits
  painted-Ordered = set_red-Ordered g true (set_red-Ordered p false b.ordered)

  g_below : tr.child (other (other s)) g ≡ p
  g_below = rw (other-other s) f.g_down

  some_below : tr.child (other (other s)) g ≢ leaf
  some_below e = f.p_node.1 (sym g_below ∙ e)

  turns :
      Returns
        (Rotated (other s) g (tr.child (other (other s)) g) painted)
        (rotate (other s) g painted)
  turns =
      rotate-Rotated cmp o painted b.admits painted-Linked painted-Ordered (other s) g f.g_node
        some_below

  abbrev height' : ℕ → ℕ
  height' q = if q == g then b.height p else if q == p then b.height g else b.height q

  module _ (tr' : RbTree) (t : Rotated (other s) g (tr.child (other (other s)) g) painted tr') where
    child_apart : (side : Side) (q : ℕ) → IsNode tr q → q ≢ g → tr.child side q ≢ p
    child_apart side q m ne e =
        ne (sym (b.linked.down side q m (λ z. f.p_node.1 (sym e ∙ z))).1 ∙ ap tr.parent e ∙ f.p_up)

    near' :
        (q : ℕ)
        → IsNode tr q
        → tr'.child (other s) q
          ≡ (if q == p then g else if tr.child (other s) q == g then p else tr.child (other s) q)
    near' q m = t.near q m ∙ rw g_below refl

    far' :
        (q : ℕ)
        → IsNode tr q
        → tr'.child s q
          ≡ (if q == g then tr.child (other s) p else if tr.child s q == g then p else tr.child s q)
    far' q m =
        sym (ap (λ side. tr'.child side q) (other-other s))
        ∙ t.far q m
        ∙ rw (g_below, other-other s) refl

    red' : (q : ℕ) → tr'.red q ≡ (if q == g then true else if q == p then false else tr.red q)
    red' q = t.same_red q

    uncle_apart : (tr.child (other s) g ≢ p) × (tr.child (other s) g ≢ g)
    uncle_apart = (
      (λ e. b.linked.apart s g f.g_node (λ z. f.p_node.1 (sym f.g_down ∙ z)) (f.g_down ∙ sym e)),
      (λ e.
          child_ne cmp o tr b.admits b.linked b.ordered (other s) g f.g_node
            (λ z. f.g_node.1 (sym e ∙ z)) e),
    )

    inner_child :
        (tr.child (other s) p ≢ p) × (tr.child (other s) p ≢ g) × (tr.child (other s) p ≢ x)
    inner_child = (
      child_apart (other s) p f.p_node (λ e. f.distinct.1 (sym e)),
      (λ e.
          grandchild_ne cmp o tr b.admits b.linked b.ordered s (other s) g f.g_node
            (λ z. f.p_node.1 (sym f.g_down ∙ z))
            (λ z. f.g_node.1 (sym e ∙ ap (tr.child (other s)) (sym f.g_down) ∙ z))
            (ap (tr.child (other s)) f.g_down ∙ e)),
      (λ e. b.linked.apart s p f.p_node (λ z. f.x_node.1 (sym out ∙ z)) (out ∙ sym e)),
    )

    abbrev Even : Side → Type 0
    Even side =
        (q : ℕ)
        → IsNode tr q
        → height' q ≡ height' (tr'.child side q) + (if tr'.red q then 0 else 1)

    Even-near : Even (other s)
    Even-near q m =
        rw (near' q m, red' q)
          (ground (
            arith,
            b.coloured.even s g f.g_node,
            b.coloured.even (other s) g f.g_node,
            b.coloured.even (other s) q m,
            child_apart (other s) q m,
            uncle_apart,
            f,
          ))

    Even-far : Even s
    Even-far q m =
        rw (far' q m, red' q)
          (ground (
            arith,
            b.coloured.even s g f.g_node,
            b.coloured.even s p f.p_node,
            b.coloured.even (other s) p f.p_node,
            b.coloured.even s q m,
            child_apart s q m,
            inner_child,
            out,
            f,
          ))

    abbrev NoRedRed : Side → Type 0
    NoRedRed side =
        (q : ℕ)
        → IsNode tr q
        → tr'.red q ≡ true
        → tr'.child side q ≢ x
        → tr'.red (tr'.child side q) ≡ false

    NoRedRed-near : NoRedRed (other s)
    NoRedRed-near q m r ne =
        let r' = sym (red' q) ∙ r in
        let ne' : (if q == p
              then g
              else if tr.child (other s) q == g
              then p
              else tr.child (other s) q)
            ≢ x =
          λ e. ne (near' q m ∙ e) in
        rw
          (
            near' q m,
            red' (
                if q == p
                then g
                else if tr.child (other s) q == g
                then p
                else tr.child (other s) q),
          )
          (ground (
            arith,
            b.coloured.no_red_red (other s) q m,
            r',
            ne',
            u_black,
            uncle_apart,
            child_apart (other s) q m,
            f,
          ))

    NoRedRed-far : NoRedRed s
    NoRedRed-far q m r ne =
        let r' = sym (red' q) ∙ r in
        let ne' : (if q == g
              then tr.child (other s) p
              else if tr.child s q == g
              then p
              else tr.child s q)
            ≢ x =
          λ e. ne (far' q m ∙ e) in
        rw
          (
            far' q m,
            red' (
                if q == g
                then tr.child (other s) p
                else if tr.child s q == g
                then p
                else tr.child s q),
          )
          (ground (
            arith,
            b.coloured.no_red_red s q m,
            b.coloured.no_red_red (other s) p f.p_node,
            r',
            ne',
            inner_child,
            out,
            child_apart s q m,
            f,
          ))

    outer-Coloured : Coloured tr' height' bound x
    outer-Coloured = record {
      leaf_black = red' leaf ∙ ground (arith, b.coloured.leaf_black, f.g_node, f.p_node);
      leaf_height = ground (arith, b.coloured.leaf_height, f.g_node, f.p_node);
      bounded = λ q m. ground (
        arith,
        b.coloured.bounded q (sym (t.same_allocated q) ∙ m.0, m.1),
        b.coloured.bounded g f.g_node,
        b.coloured.bounded p f.p_node,
      );
      even = λ side q m.
          both_sides Even (other s) Even-near (rw (other-other s) Even-far) side q
            (sym (t.same_allocated q) ∙ m.0, m.1);
      no_red_red = λ side q m.
          both_sides NoRedRed (other s) NoRedRed-near (rw (other-other s) NoRedRed-far) side q
            (sym (t.same_allocated q) ∙ m.0, m.1);
      root_black =
          λ ne. red' tr'.root ∙ ground (arith, t.new_root, g_below, b.coloured.root_black, f);
    }

    outer-Placed : Placed cmp tr tr' bound x
    outer-Placed = record {
      same = record {
        same_value = t.same_value;
        same_allocated = t.same_allocated;
        same_rest = t.same_rest;
      };
      balanced = record {
        admits =
            admits' cmp o painted b.admits painted-Linked painted-Ordered (other s) g f.g_node
              some_below tr' t;
        height = height';
        linked =
            Turned-Linked cmp o painted b.admits painted-Linked painted-Ordered (other s) g f.g_node
              some_below tr' t;
        ordered =
            Turned-Ordered cmp o painted b.admits painted-Linked painted-Ordered (other s) g
              f.g_node some_below tr' t;
        coloured = outer-Coloured;
      };
      node = (t.same_allocated x ∙ f.x_node.0, f.x_node.1);
      is_red = red' x ∙ ground (arith, f);
      parent_black =
          let up : tr'.parent x ≡ p =
            t.parents x f.x_node ∙ rw g_below (ground (arith, inner_child, f)) in
          rw up (red' p ∙ ground (arith, f));
    }

  pub outer_lem : Returns (λ tr'. Placed cmp tr tr' bound x) (rotate (other s) g painted)
  outer_lem = Returns-map turns (λ tr' t. outer-Placed tr' t)
