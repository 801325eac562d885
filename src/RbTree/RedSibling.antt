-- ===== src/RbTree/RedSibling.antt =====
-- rbtree_fast_pop, the first case: a red sibling is rotated above the parent.
use c_algorithm.Base.{
  ℕ, suc, ◌+◌, ◌≡◌, ◌≢◌, ◌∙◌, sym, ap, inl, inr, arith, ◌==◌, ==→eq, ==→ne, true, false, Bool-cases,
  if◌then◌else◌, Returns, Returns-map,
}
use c_algorithm.Order.{Compare}
use c_algorithm.RbTree.{RbTree, Side, other, leaf, set_red, rotate}
use c_algorithm.RbTree.Links.{IsThreeWay, IsNode, Linked, Ordered, child_ne, grandchild_ne}
use c_algorithm.RbTree.Rotate.{Rotated, rotate-Rotated}
use c_algorithm.RbTree.Turned.{admits', Turned-Linked, Turned-Ordered}
use c_algorithm.RbTree.Balanced.{Same, set_red-Linked, set_red-Ordered}
use c_algorithm.RbTree.Deficit.{Deficit, temp_ne, temp_node, sibling}

-- the tree after the first case, in which the sibling is black
pub record Lowered (cmp : Compare) (tr tr' : RbTree) (bound : ℕ) (s : Side) (p temp : ℕ)
    : Type 0 where
  pub same : Same tr tr'
  pub deficit : Deficit cmp tr' bound s p temp
  pub p_red : tr'.red p ≡ true
  pub temp_red : tr'.red temp ≡ tr.red temp

module _ (cmp : Compare) (o : IsThreeWay cmp) (tr : RbTree) (bound : ℕ) (s : Side) (p temp : ℕ)
    (d : Deficit cmp tr bound s p temp) (w_red : tr.red (tr.child (other s) p) ≡ true) where
  abbrev w : ℕ
  w = tr.child (other s) p

  w_facts :
      IsNode tr w
      × (tr.parent w ≡ p)
      × (w ≢ temp)
      × (w ≢ p)
      × (d.height p ≡ d.height temp + (if tr.red p then 0 else 1) + 1)
      × (d.height w ≡ suc (d.height temp))
  w_facts = sibling cmp o tr bound s p temp d

  temp-p : temp ≢ p
  temp-p = temp_ne cmp o tr bound s p temp d

  p_black : tr.red p ≡ false
  p_black = elim (Bool-cases (tr.red p)) [
    | inl e ↦ absurd (ground (arith, d.red_far p d.p_node e (λ z. temp-p (sym z)), w_red))
    | inr e ↦ e
  ]

  abbrev painted : RbTree
  painted = set_red p true (set_red w false tr)

  painted-Linked : Linked painted
  painted-Linked = set_red-Linked p true (set_red-Linked w false d.linked)

  painted-Ordered : Ordered painted cmp d.admits
  painted-Ordered = set_red-Ordered p true (set_red-Ordered w false d.ordered)

  abbrev height' : ℕ → ℕ
  height' q = if q == p then d.height w else if q == w then d.height p else d.height q

  -- a child of another node is not the sibling
  w_apart : (t : Side) (q : ℕ) → IsNode tr q → tr.child t q ≡ w → q ≡ p
  w_apart t q m e =
      sym (d.linked.down t q m (λ z. w_facts.0.1 (sym e ∙ z))).1 ∙ ap tr.parent e ∙ w_facts.1

  b_facts :
      (tr.child s w ≢ p)
      × (tr.child s w ≢ w)
      × ((tr.child s w ≢ leaf) → tr.parent (tr.child s w) ≡ w)
  b_facts = (
    (λ e.
        grandchild_ne cmp o tr d.admits d.linked d.ordered (other s) s p d.p_node w_facts.0.1
          (λ z. d.p_node.1 (sym e ∙ z)) e),
    (λ e.
        child_ne cmp o tr d.admits d.linked d.ordered s w w_facts.0 (λ z. w_facts.0.1 (sym e ∙ z))
          e),
    (λ some. (d.linked.down s w w_facts.0 some).1),
  )

  module _ (tr' : RbTree) (t : Rotated s p w painted tr') where
    red' : (q : ℕ) → tr'.red q ≡ (if q == p then true else if q == w then false else tr.red q)
    red' q = t.same_red q

    back' : tr'.parent temp ≡ p
    back' = elim (Bool-cases (temp == leaf)) [
      | inl e ↦
          let k : temp ≡ leaf = ==→eq _ _ e in
          ap tr'.parent k ∙ t.leaf_parent ∙ ap tr.parent (sym k) ∙ d.back
      | inr e ↦
          let n : IsNode tr temp = temp_node cmp o tr bound s p temp d (==→ne _ _ e) in
          t.parents temp n ∙ ground (arith, temp-p, w_facts, b_facts, d.back, n, ap tr.parent)
    ]

    lowered-Deficit : Deficit cmp tr' bound s p temp
    lowered-Deficit = record {
      admits =
          admits' cmp o painted d.admits painted-Linked painted-Ordered s p d.p_node w_facts.0.1 tr'
            t;
      height = height';
      linked =
          Turned-Linked cmp o painted d.admits painted-Linked painted-Ordered s p d.p_node
            w_facts.0.1 tr' t;
      ordered =
          Turned-Ordered cmp o painted d.admits painted-Linked painted-Ordered s p d.p_node
            w_facts.0.1 tr' t;
      p_node = (t.same_allocated p ∙ d.p_node.0, d.p_node.1);
      down = t.near p d.p_node ∙ ground (arith, d.down, temp-p, w_facts);
      back = back';
      temp_inner = λ e. ground (arith, t.new_root, e, d.temp_inner, w_facts);
      leaf_black = red' leaf ∙ ground (arith, d.leaf_black, d.p_node);
      leaf_height = ground (arith, d.leaf_height, d.p_node, w_facts);
      bounded = λ q m. ground (
        arith,
        d.bounded q (sym (t.same_allocated q) ∙ m.0, m.1),
        d.bounded p d.p_node,
        d.bounded w w_facts.0,
      );
      even_near = λ q m.
          let n : IsNode tr q = (sym (t.same_allocated q) ∙ m.0, m.1) in
          rw (t.near q n, red' q)
            (ground (
              arith,
              d.even_near q n,
              d.even_near w w_facts.0,
              d.even_far w w_facts.0,
              d.down,
              p_black,
              w_red,
              temp-p,
              w_facts,
              w_apart s q n,
            ));
      even_far = λ q m.
          let n : IsNode tr q = (sym (t.same_allocated q) ∙ m.0, m.1) in
          rw (t.far q n, red' q)
            (ground (
              arith,
              d.even_far q n,
              d.even_near w w_facts.0,
              d.down,
              p_black,
              w_red,
              temp-p,
              w_facts,
              b_facts,
              w_apart (other s) q n,
            ));
      red_near = λ q m r ne ne'.
          let n : IsNode tr q = (sym (t.same_allocated q) ∙ m.0, m.1) in
          red' (tr'.child s q)
          ∙ rw (t.near q n)
              (ground (arith, sym (red' q) ∙ r, d.red_near q n, w_facts, w_apart s q n));
      red_far = λ q m r ne.
          let n : IsNode tr q = (sym (t.same_allocated q) ∙ m.0, m.1) in
          red' (tr'.child (other s) q)
          ∙ rw (t.far q n) (
              ground (
                arith,
                sym (red' q) ∙ r,
                d.red_far q n,
                d.red_near w w_facts.0 w_red,
                w_facts,
                b_facts,
                w_apart (other s) q n,
              ));
      root_black = red' tr'.root ∙ ground (arith, t.new_root, d.root_black, w_facts);
    }

    turned-Lowered : Lowered cmp tr tr' bound s p temp
    turned-Lowered = record {
      same = record {
        same_value = t.same_value;
        same_allocated = t.same_allocated;
        same_rest = t.same_rest;
      };
      deficit = lowered-Deficit;
      p_red = red' p ∙ ground arith;
      temp_red = red' temp ∙ ground (arith, temp-p, w_facts);
    }

  pub red_sibling_lem : Returns (λ tr'. Lowered cmp tr tr' bound s p temp) (rotate s p painted)
  red_sibling_lem =
      Returns-map
        (rotate-Rotated cmp o painted d.admits painted-Linked painted-Ordered s p d.p_node
          w_facts.0.1)
        (λ tr' t. turned-Lowered tr' t)
