-- ===== src/RbTree/Uplift.antt =====
-- rbtree_fast_pop, the last case: the sibling's child on the far side is red, and the sibling is
-- rotated above the parent.
use c_algorithm.Base.{
  ℕ, suc, ◌+◌, ◌≡◌, ◌≢◌, ◌∙◌, sym, ap, arith, ◌==◌, true, false, if◌then◌else◌, Returns,
  Returns-map,
}
use c_algorithm.Order.{Compare}
use c_algorithm.RbTree.{RbTree, Side, other, leaf, set_red, rotate}
use c_algorithm.RbTree.Sides.{both_sides}
use c_algorithm.RbTree.Links.{IsThreeWay, IsNode, Linked, Ordered, child_ne, grandchild_ne}
use c_algorithm.RbTree.Rotate.{Rotated, rotate-Rotated}
use c_algorithm.RbTree.Turned.{admits', Turned-Linked, Turned-Ordered}
use c_algorithm.RbTree.Balanced.{Balanced, Same, set_red-Linked, set_red-Ordered}
use c_algorithm.RbTree.Deficit.{Deficit, temp_ne, sibling}

module _ (cmp : Compare) (o : IsThreeWay cmp) (tr : RbTree) (bound : ℕ) (s : Side) (p temp : ℕ)
    (d : Deficit cmp tr bound s p temp) (w_black : tr.red (tr.child (other s) p) ≡ false)
    (e_red : tr.red (tr.child (other s) (tr.child (other s) p)) ≡ true)
    (temp_black : tr.red temp ≡ false) where
  abbrev w : ℕ
  w = tr.child (other s) p

  abbrev e : ℕ
  e = tr.child (other s) w

  w_facts :
      IsNode tr w
      × (tr.parent w ≡ p)
      × (w ≢ temp)
      × (w ≢ p)
      × (d.height p ≡ d.height temp + (if tr.red p then 0 else 1) + 1)
      × (d.height w ≡ suc (d.height temp))
  w_facts = sibling cmp o tr bound s p temp d

  temp-p : temp ≢ p
  temp-p = temp_ne cmp o tr bound s p temp d

  some_e : e ≢ leaf
  some_e z = ground (arith, e_red, d.leaf_black, ap tr.red z)

  e_facts : IsNode tr e × (tr.parent e ≡ w) × (e ≢ w) × (e ≢ p) × (e ≢ temp) × (e ≢ tr.root)
  e_facts =
      let l = d.linked.down (other s) w w_facts.0 some_e in
      (
        (l.0, some_e),
        l.1,
        child_ne cmp o tr d.admits d.linked d.ordered (other s) w w_facts.0 some_e,
        grandchild_ne cmp o tr d.admits d.linked d.ordered (other s) (other s) p d.p_node
            w_facts.0.1 some_e,
        (λ z. w_facts.3 (sym l.1 ∙ ap tr.parent z ∙ d.back)),
        l.2,
      )

  abbrev painted : RbTree
  painted = set_red e false (set_red p false (set_red w (tr.red p) tr))

  painted-Linked : Linked painted
  painted-Linked =
      set_red-Linked e false (set_red-Linked p false (set_red-Linked w (tr.red p) d.linked))

  painted-Ordered : Ordered painted cmp d.admits
  painted-Ordered =
      set_red-Ordered e false (set_red-Ordered p false (set_red-Ordered w (tr.red p) d.ordered))

  abbrev height' : ℕ → ℕ
  height' q =
      if q == p
      then d.height w
      else if q == w
      then d.height p
      else if q == e
      then suc (d.height e)
      else d.height q

  w_apart : (t : Side) (q : ℕ) → IsNode tr q → tr.child t q ≡ w → q ≡ p
  w_apart t q m z =
      sym (d.linked.down t q m (λ z2. w_facts.0.1 (sym z ∙ z2))).1 ∙ ap tr.parent z ∙ w_facts.1

  e_apart : (t : Side) (q : ℕ) → IsNode tr q → tr.child t q ≡ e → q ≡ w
  e_apart t q m z =
      sym (d.linked.down t q m (λ z2. some_e (sym z ∙ z2))).1 ∙ ap tr.parent z ∙ e_facts.1

  b_apart : (tr.child s w ≢ p) × (tr.child s w ≢ e)
  b_apart = (
    (λ z.
        grandchild_ne cmp o tr d.admits d.linked d.ordered (other s) s p d.p_node w_facts.0.1
          (λ z2. d.p_node.1 (sym z ∙ z2)) z),
    (λ z. d.linked.apart s w w_facts.0 (λ z2. some_e (sym z ∙ z2)) z),
  )

  levels : (d.height w ≡ suc (d.height e)) × (d.height w ≡ suc (d.height (tr.child s w)))
  levels = ground (arith, d.even_far w w_facts.0, d.even_near w w_facts.0, w_black, w_facts)

  p_apart : (t : Side) → tr.child t e ≢ p
  p_apart =
      both_sides (λ t. tr.child t e ≢ p) s
        (λ z.
          ground (arith, d.even_near e e_facts.0, ap d.height z, levels, w_facts, e_red, e_facts))
        (λ z. ground (arith, d.even_far e e_facts.0, ap d.height z, levels, w_facts, e_red))

  module _ (tr' : RbTree) (t : Rotated s p w painted tr') where
    red' :
        (q : ℕ)
        → tr'.red q ≡ (
            if q == e
            then false
            else if q == p
            then false
            else if q == w
            then tr.red p
            else tr.red q)
    red' q = t.same_red q

    node' : (q : ℕ) → IsNode tr' q → IsNode tr q
    node' q m = (sym (t.same_allocated q) ∙ m.0, m.1)

    abbrev Even : Side → Type 0
    Even side =
        (q : ℕ)
        → IsNode tr' q
        → height' q ≡ height' (tr'.child side q) + (if tr'.red q then 0 else 1)

    Even-near : Even s
    Even-near q m =
        let n = node' q m in
        rw (t.near q n, red' q)
          (ground (
            arith,
            d.even_near q n,
            d.even_near p d.p_node,
            d.down,
            levels,
            e_red,
            w_black,
            temp-p,
            w_facts,
            e_facts,
            b_apart,
            p_apart s,
            w_apart s q n,
            e_apart s q n,
          ))

    Even-far : Even (other s)
    Even-far q m =
        let n = node' q m in
        rw (t.far q n, red' q)
          (ground (
            arith,
            d.even_far q n,
            levels,
            e_red,
            w_black,
            temp-p,
            w_facts,
            e_facts,
            b_apart,
            p_apart (other s),
            w_apart (other s) q n,
            e_apart (other s) q n,
            w_apart s w w_facts.0,
          ))

    abbrev NoRedRed : Side → Type 0
    NoRedRed side = (q : ℕ) → IsNode tr' q → tr'.red q ≡ true → tr'.red (tr'.child side q) ≡ false

    NoRedRed-near : NoRedRed s
    NoRedRed-near q m r =
        let n = node' q m in
        red' (tr'.child s q)
        ∙ rw (t.near q n) (
            ground (
              arith,
              sym (red' q) ∙ r,
              d.red_near q n,
              ap tr.red,
              temp_black,
              d.down,
              w_facts,
              e_facts,
              b_apart,
              w_apart s q n,
              e_apart s q n,
            ))

    NoRedRed-far : NoRedRed (other s)
    NoRedRed-far q m r =
        let n = node' q m in
        red' (tr'.child (other s) q)
        ∙ rw (t.far q n) (
            ground (
              arith,
              sym (red' q) ∙ r,
              d.red_far q n,
              ap tr.red,
              temp_black,
              w_facts,
              e_facts,
              b_apart,
              w_apart (other s) q n,
              e_apart (other s) q n,
            ))

    root_red : tr.root ≡ p → tr.red tr.root ≡ tr.red p
    root_red z = ap tr.red z

    lifted-Balanced : Balanced cmp tr' bound 0
    lifted-Balanced = record {
      admits =
          admits' cmp o painted d.admits painted-Linked painted-Ordered s p d.p_node w_facts.0.1 tr'
            t;
      height = height';
      linked =
          Turned-Linked cmp o painted d.admits painted-Linked painted-Ordered s p d.p_node
            w_facts.0.1 tr' t;
      ordered =
          Turned-Ordered cmp o painted d.admits painted-Linked painted-Ordered s p d.p_node
            w_facts.0.1 tr' t;
      coloured = record {
        leaf_black = red' leaf ∙ ground (arith, d.leaf_black, d.p_node, w_facts);
        leaf_height = ground (arith, d.leaf_height, d.p_node, w_facts, e_facts);
        bounded = λ q m.
            ground
              (arith, d.bounded q (node' q m), d.bounded p d.p_node, d.bounded w w_facts.0, levels);
        even = both_sides Even s Even-near Even-far;
        no_red_red = λ side q m r ne. both_sides NoRedRed s NoRedRed-near NoRedRed-far side q m r;
        root_black = λ ne.
            red' tr'.root
            ∙ ground (
              arith,
              t.new_root,
              d.root_black,
              root_red,
              (d.linked.down (other s) p d.p_node w_facts.0.1).2,
            );
      };
    }

  pub uplift_lem : Returns (λ tr'. Same tr tr' × Balanced cmp tr' bound 0) (rotate s p painted)
  uplift_lem =
      Returns-map
        (rotate-Rotated cmp o painted d.admits painted-Linked painted-Ordered s p d.p_node
          w_facts.0.1)
        (λ tr' t. (
          record {
            same_value = t.same_value;
            same_allocated = t.same_allocated;
            same_rest = t.same_rest;
          },
          lifted-Balanced tr' t,
        ))
