-- ===== src/RbTree/Inner.antt =====
-- A black uncle, and the red node on the inner side of its parent: a rotation puts the node above
-- its parent, which then is the red node on the outer side.
use c_algorithm.Base.{
  ℕ, ◌+◌, ◌≡◌, ◌≢◌, ◌∙◌, sym, ap, inl, refl, arith, ◌==◌, true, false, if◌then◌else◌, Returns,
  Returns-map,
}
use c_algorithm.Order.{Compare}
use c_algorithm.RbTree.{RbTree, Side, other, leaf, rotate}
use c_algorithm.RbTree.Sides.{both_sides}
use c_algorithm.RbTree.Links.{IsThreeWay, IsNode, child_ne}
use c_algorithm.RbTree.Colours.{Coloured}
use c_algorithm.RbTree.Rotate.{Rotated, rotate-Rotated}
use c_algorithm.RbTree.Turned.{admits', Turned-Linked, Turned-Ordered}
use c_algorithm.RbTree.Balanced.{Balanced, Same}
use c_algorithm.RbTree.Family.{Clash}

-- the tree after the first rotation
pub record Swapped (cmp : Compare) (tr tr' : RbTree) (bound : ℕ) (s : Side) (x p g : ℕ)
    : Type 0 where
  pub same : Same tr tr'
  pub balanced : Balanced cmp tr' bound p
  pub clash : Clash tr' s p x g
  pub uncle_black : tr'.red (tr'.child (other s) g) ≡ false
  pub out : tr'.child s x ≡ p

module _ (cmp : Compare) (o : IsThreeWay cmp) (tr : RbTree) (bound x : ℕ)
    (b : Balanced cmp tr bound x) (s : Side) (p g : ℕ) (f : Clash tr s x p g)
    (u_black : tr.red (tr.child (other s) g) ≡ false) (inn : tr.child (other s) p ≡ x) where
  some_below : tr.child (other s) p ≢ leaf
  some_below e = f.x_node.1 (sym inn ∙ e)

  turns : Returns (Rotated s p (tr.child (other s) p) tr) (rotate s p tr)
  turns = rotate-Rotated cmp o tr b.admits b.linked b.ordered s p f.p_node some_below

  module _ (tr' : RbTree) (t : Rotated s p (tr.child (other s) p) tr tr') where
    near' :
        (q : ℕ)
        → IsNode tr q
        → tr'.child s q ≡ (if q == x then p else if tr.child s q == p then x else tr.child s q)
    near' q m = t.near q m ∙ rw inn refl

    far' :
        (q : ℕ)
        → IsNode tr q
        → tr'.child (other s) q ≡ (
            if q == p
            then tr.child s x
            else if tr.child (other s) q == p
            then x
            else tr.child (other s) q)
    far' q m = t.far q m ∙ rw inn refl

    -- a child of another node is neither
    child_apart :
        (side : Side) (q : ℕ)
        → IsNode tr q
        → (q ≢ g → tr.child side q ≢ p) × (q ≢ p → tr.child side q ≢ x)
    child_apart side q m = (
      (λ ne e.
          ne (
            sym (b.linked.down side q m (λ z. f.p_node.1 (sym e ∙ z))).1
            ∙ ap tr.parent e
            ∙ f.p_up)),
      (λ ne e.
          ne (
            sym (b.linked.down side q m (λ z. f.x_node.1 (sym e ∙ z))).1
            ∙ ap tr.parent e
            ∙ f.x_up)),
    )

    below_p : tr.child s p ≢ x
    below_p e = b.linked.apart s p f.p_node (λ z. f.x_node.1 (sym e ∙ z)) (e ∙ sym inn)

    uncle_apart : tr.child (other s) g ≢ p
    uncle_apart e =
        b.linked.apart s g f.g_node (λ z. f.p_node.1 (sym f.g_down ∙ z)) (f.g_down ∙ sym e)

    abbrev Even : Side → Type 0
    Even side =
        (q : ℕ)
        → IsNode tr q
        → b.height q ≡ b.height (tr'.child side q) + (if tr.red q then 0 else 1)

    Even-near : Even s
    Even-near q m = rw (near' q m) (
        ground (
          arith,
          b.coloured.even s x f.x_node,
          b.coloured.even (other s) p f.p_node,
          b.coloured.even s q m,
          inn,
          f,
        ))

    Even-far : Even (other s)
    Even-far q m = rw (far' q m) (
        ground (
          arith,
          b.coloured.even s x f.x_node,
          b.coloured.even (other s) p f.p_node,
          b.coloured.even (other s) q m,
          inn,
          f,
        ))

    abbrev NoRedRed : Side → Type 0
    NoRedRed side =
        (q : ℕ)
        → IsNode tr q
        → tr.red q ≡ true
        → tr'.child side q ≢ p
        → tr.red (tr'.child side q) ≡ false

    NoRedRed-near : NoRedRed s
    NoRedRed-near q m r ne =
        let ne' : (if q == x then p else if tr.child s q == p then x else tr.child s q) ≢ p =
          λ e. ne (near' q m ∙ e) in
        rw (near' q m)
          (ground (arith, b.coloured.no_red_red s q m, ne', child_apart s q m, below_p, f))

    NoRedRed-far : NoRedRed (other s)
    NoRedRed-far q m r ne = rw (far' q m) (
        ground (
          arith,
          b.coloured.no_red_red (other s) q m,
          b.coloured.no_red_red s x f.x_node f.x_red,
          child_ne cmp o tr b.admits b.linked b.ordered s x f.x_node,
          child_apart (other s) q m,
          f,
        ))

    inner-Coloured : Coloured tr' b.height bound p
    inner-Coloured = record {
      leaf_black = t.same_red leaf ∙ b.coloured.leaf_black;
      leaf_height = b.coloured.leaf_height;
      bounded = λ q m. b.coloured.bounded q (sym (t.same_allocated q) ∙ m.0, m.1);
      even = λ side q m.
          rw (t.same_red q)
            (both_sides Even s Even-near Even-far side q (sym (t.same_allocated q) ∙ m.0, m.1));
      no_red_red = λ side q m r ne.
          t.same_red (tr'.child side q)
          ∙ both_sides NoRedRed s NoRedRed-near NoRedRed-far side q
              (sym (t.same_allocated q) ∙ m.0, m.1) (sym (t.same_red q) ∙ r) ne;
      root_black = λ ne. t.same_red tr'.root ∙ ground (arith, t.new_root, b.coloured.root_black, f);
    }

    inner-Clash : Clash tr' s p x g
    inner-Clash = record {
      x_node = (t.same_allocated p ∙ f.p_node.0, f.p_node.1);
      x_red = t.same_red p ∙ f.p_red;
      x_inner = λ e. ground (arith, t.new_root, f);
      x_up = t.parents p f.p_node ∙ rw inn (ground (arith, f));
      p_node = (t.same_allocated x ∙ f.x_node.0, f.x_node.1);
      p_red = t.same_red x ∙ f.x_red;
      p_inner = λ e. ground (arith, t.new_root, f);
      p_up = t.parents x f.x_node ∙ rw inn (ground (arith, f));
      p_down = inl (near' x f.x_node ∙ ground arith);
      g_node = (t.same_allocated g ∙ f.g_node.0, f.g_node.1);
      g_black = t.same_red g ∙ f.g_black;
      g_down = near' g f.g_node ∙ ground (arith, f);
      distinct = ground (arith, f);
    }

    inner-Swapped : Swapped cmp tr tr' bound s x p g
    inner-Swapped = record {
      same = record {
        same_value = t.same_value;
        same_allocated = t.same_allocated;
        same_rest = t.same_rest;
      };
      balanced = record {
        admits = admits' cmp o tr b.admits b.linked b.ordered s p f.p_node some_below tr' t;
        height = b.height;
        linked = Turned-Linked cmp o tr b.admits b.linked b.ordered s p f.p_node some_below tr' t;
        ordered = Turned-Ordered cmp o tr b.admits b.linked b.ordered s p f.p_node some_below tr' t;
        coloured = inner-Coloured;
      };
      clash = inner-Clash;
      uncle_black =
          let same : tr'.child (other s) g ≡ tr.child (other s) g =
            far' g f.g_node ∙ ground (arith, uncle_apart, f) in
          rw same (t.same_red (tr.child (other s) g) ∙ u_black);
      out = near' x f.x_node ∙ ground arith;
    }

  pub inner_lem : Returns (λ tr'. Swapped cmp tr tr' bound s x p g) (rotate s p tr)
  inner_lem = Returns-map turns (λ tr' t. inner-Swapped tr' t)
