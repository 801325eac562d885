-- ===== src/RbTree/Nephew.antt =====
-- rbtree_fast_pop, the third case: of the sibling's children only the one on the side of the missing
-- node is red, and it is rotated above the sibling.
use c_algorithm.Base.{
  ℕ, suc, ◌+◌, ◌≡◌, ◌≢◌, ◌∙◌, sym, ap, inl, inr, refl, arith, ◌==◌, ==→eq, ==→ne, true, false,
  Bool-cases, if◌then◌else◌, Returns, Returns-map,
}
use c_algorithm.Order.{Compare}
use c_algorithm.RbTree.{RbTree, Side, other, leaf, set_red, rotate}
use c_algorithm.RbTree.Sides.{other-other}
use c_algorithm.RbTree.Links.{IsThreeWay, IsNode, Linked, Ordered, child_ne, grandchild_ne}
use c_algorithm.RbTree.Rotate.{Rotated, rotate-Rotated}
use c_algorithm.RbTree.Turned.{admits', Turned-Linked, Turned-Ordered}
use c_algorithm.RbTree.Balanced.{Same, set_red-Linked, set_red-Ordered}
use c_algorithm.RbTree.Deficit.{Deficit, temp_ne, temp_node, sibling}

-- the tree after the third case: the sibling is black, and its child on the far side is red
pub record Straight (cmp : Compare) (tr tr' : RbTree) (bound : ℕ) (s : Side) (p temp : ℕ)
    : Type 0 where
  pub same : Same tr tr'
  pub deficit : Deficit cmp tr' bound s p temp
  pub sibling_black : tr'.red (tr'.child (other s) p) ≡ false
  pub nephew_red : tr'.red (tr'.child (other s) (tr'.child (other s) p)) ≡ true
  pub temp_red : tr'.red temp ≡ tr.red temp

module _ (cmp : Compare) (o : IsThreeWay cmp) (tr : RbTree) (bound : ℕ) (s : Side) (p temp : ℕ)
    (d : Deficit cmp tr bound s p temp) (w_black : tr.red (tr.child (other s) p) ≡ false)
    (c_red : tr.red (tr.child s (tr.child (other s) p)) ≡ true)
    (e_black : tr.red (tr.child (other s) (tr.child (other s) p)) ≡ false) where
  abbrev w : ℕ
  w = tr.child (other s) p

  abbrev c : ℕ
  c = tr.child s w

  w_facts :
      IsNode tr w
      × (tr.parent w ≡ p)
      × (w ≢ temp)
      × (w ≢ p)
      × (d.height p ≡ d.height temp + (if tr.red p then 0 else 1) + 1)
      × (d.height w ≡ suc (d.height temp))
  w_facts = sibling cmp o tr bound s p temp d

  temp-p : temp ≢ p
  temp-p = temp_ne cmp o tr bound s p temp d

  some_c : c ≢ leaf
  some_c e = ground (arith, c_red, d.leaf_black, ap tr.red e)

  c_facts : IsNode tr c × (tr.parent c ≡ w) × (c ≢ w) × (c ≢ p) × (c ≢ temp) × (c ≢ tr.root)
  c_facts =
      let l = d.linked.down s w w_facts.0 some_c in
      (
        (l.0, some_c),
        l.1,
        child_ne cmp o tr d.admits d.linked d.ordered s w w_facts.0 some_c,
        grandchild_ne cmp o tr d.admits d.linked d.ordered (other s) s p d.p_node w_facts.0.1
            some_c,
        (λ e. w_facts.3 (sym l.1 ∙ ap tr.parent e ∙ d.back)),
        l.2,
      )

  abbrev painted : RbTree
  painted = set_red w true (set_red c false tr)

  painted-Linked : Linked painted
  painted-Linked = set_red-Linked w true (set_red-Linked c false d.linked)

  painted-Ordered : Ordered painted cmp d.admits
  painted-Ordered = set_red-Ordered w true (set_red-Ordered c false d.ordered)

  below_w : tr.child (other (other s)) w ≡ c
  below_w = rw (other-other s) refl

  some_below : tr.child (other (other s)) w ≢ leaf
  some_below e = some_c (sym below_w ∙ e)

  abbrev height' : ℕ → ℕ
  height' q = if q == w then d.height c else if q == c then d.height w else d.height q

  w_apart : (t : Side) (q : ℕ) → IsNode tr q → tr.child t q ≡ w → q ≡ p
  w_apart t q m e =
      sym (d.linked.down t q m (λ z. w_facts.0.1 (sym e ∙ z))).1 ∙ ap tr.parent e ∙ w_facts.1

  c_apart : (t : Side) (q : ℕ) → IsNode tr q → tr.child t q ≡ c → q ≡ w
  c_apart t q m e =
      sym (d.linked.down t q m (λ z. some_c (sym e ∙ z))).1 ∙ ap tr.parent e ∙ c_facts.1

  w_near : (q : ℕ) → IsNode tr q → tr.child s q ≢ w
  w_near q m e = w_facts.2 (sym e ∙ ap (tr.child s) (w_apart s q m e) ∙ d.down)

  c_far : (q : ℕ) → IsNode tr q → tr.child (other s) q ≢ c
  c_far q m e =
      d.linked.apart s w w_facts.0 some_c
        (sym e ∙ ap (tr.child (other s)) (c_apart (other s) q m e))

  below_c : (tr.child (other s) c ≢ w) × (tr.child (other s) c ≢ c)
  below_c = (
    (λ e. c_facts.3 (w_apart (other s) c c_facts.0 e)),
    (λ e. c_facts.2 (c_apart (other s) c c_facts.0 e)),
  )

  module _ (tr' : RbTree) (t : Rotated (other s) w (tr.child (other (other s)) w) painted tr') where
    node' : (q : ℕ) → IsNode tr' q → IsNode tr q
    node' q m = (sym (t.same_allocated q) ∙ m.0, m.1)

    near' :
        (q : ℕ)
        → IsNode tr q
        → tr'.child (other s) q
          ≡ (if q == c then w else if tr.child (other s) q == w then c else tr.child (other s) q)
    near' q m = t.near q m ∙ rw below_w refl

    far' :
        (q : ℕ)
        → IsNode tr q
        → tr'.child s q ≡ (if q == w then tr.child (other s) c else tr.child s q)
    far' q m =
        sym (ap (λ side. tr'.child side q) (other-other s))
        ∙ t.far q m
        ∙ rw (below_w, other-other s) (ground (arith, w_near q m))

    red' : (q : ℕ) → tr'.red q ≡ (if q == w then true else if q == c then false else tr.red q)
    red' q = t.same_red q

    back' : tr'.parent temp ≡ p
    back' = elim (Bool-cases (temp == leaf)) [
      | inl e ↦
          let k : temp ≡ leaf = ==→eq _ _ e in
          ap tr'.parent k ∙ t.leaf_parent ∙ ap tr.parent (sym k) ∙ d.back
      | inr e ↦
          let n : IsNode tr temp = temp_node cmp o tr bound s p temp d (==→ne _ _ e) in
          let apart : temp ≢ tr.child (other s) c = λ e2. c_facts.3 (
            sym (d.linked.down (other s) c c_facts.0 (λ z. n.1 (e2 ∙ z))).1
            ∙ ap tr.parent (sym e2)
            ∙ d.back) in
          t.parents temp n ∙ rw below_w (ground (arith, apart, w_facts, c_facts, d.back))
    ]

    straight-Deficit : Deficit cmp tr' bound s p temp
    straight-Deficit = record {
      admits =
          admits' cmp o painted d.admits painted-Linked painted-Ordered (other s) w w_facts.0
            some_below tr' t;
      height = height';
      linked =
          Turned-Linked cmp o painted d.admits painted-Linked painted-Ordered (other s) w w_facts.0
            some_below tr' t;
      ordered =
          Turned-Ordered cmp o painted d.admits painted-Linked painted-Ordered (other s) w w_facts.0
            some_below tr' t;
      p_node = (t.same_allocated p ∙ d.p_node.0, d.p_node.1);
      down = far' p d.p_node ∙ ground (arith, d.down, w_facts);
      back = back';
      temp_inner = λ e.
          ground (
            arith,
            t.new_root,
            e,
            d.temp_inner,
            (d.linked.down (other s) p d.p_node w_facts.0.1).2,
          );
      leaf_black = red' leaf ∙ ground (arith, d.leaf_black, w_facts);
      leaf_height = ground (arith, d.leaf_height, w_facts, some_c);
      bounded = λ q m.
          ground (arith, d.bounded q (node' q m), d.bounded w w_facts.0, d.bounded c c_facts.0);
      even_near = λ q m.
          let n = node' q m in
          rw (far' q n, red' q)
            (ground (
              arith,
              d.even_near q n,
              d.even_near w w_facts.0,
              d.even_far c c_facts.0,
              below_c,
              w_near q n,
              c_apart s q n,
              w_black,
              c_red,
              w_facts,
              c_facts,
            ));
      even_far = λ q m.
          let n = node' q m in
          rw (near' q n, red' q)
            (ground (
              arith,
              d.even_far q n,
              d.even_near w w_facts.0,
              d.even_far w w_facts.0,
              c_far q n,
              w_apart (other s) q n,
              w_black,
              c_red,
              w_facts,
              c_facts,
            ));
      red_near = λ q m r ne ne'.
          let n = node' q m in
          red' (tr'.child s q)
          ∙ rw (far' q n) (
              ground (
                arith,
                sym (red' q) ∙ r,
                d.red_near q n,
                d.red_far c c_facts.0 c_red,
                w_near q n,
                c_apart s q n,
                below_c,
                w_facts,
                c_facts,
              ));
      red_far = λ q m r ne.
          let n = node' q m in
          red' (tr'.child (other s) q)
          ∙ rw (near' q n) (
              ground (
                arith,
                sym (red' q) ∙ r,
                d.red_far q n,
                e_black,
                c_far q n,
                w_apart (other s) q n,
                w_facts,
                c_facts,
              ));
      root_black =
          red' tr'.root
          ∙ ground
              (arith, t.new_root, d.root_black, (d.linked.down (other s) p d.p_node w_facts.0.1).2);
    }

    turned-Straight : Straight cmp tr tr' bound s p temp
    turned-Straight =
        let up : tr'.child (other s) p ≡ c = near' p d.p_node ∙ ground (arith, c_facts) in
        let down : tr'.child (other s) c ≡ w = near' c c_facts.0 ∙ ground arith in
        record {
          same = record {
            same_value = t.same_value;
            same_allocated = t.same_allocated;
            same_rest = t.same_rest;
          };
          deficit = straight-Deficit;
          sibling_black = rw up (red' c ∙ ground (arith, c_facts));
          nephew_red = rw (up, down) (red' w ∙ ground arith);
          temp_red = red' temp ∙ ground (arith, w_facts, c_facts);
        }

  pub nephew_lem : Returns (λ tr'. Straight cmp tr tr' bound s p temp) (rotate (other s) w painted)
  nephew_lem =
      Returns-map
        (rotate-Rotated cmp o painted d.admits painted-Linked painted-Ordered (other s) w w_facts.0
          some_below)
        (λ tr' t. turned-Straight tr' t)
