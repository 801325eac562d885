-- ===== src/RbTree/Bleach.antt =====
-- rbtree_fast_pop, the second case: both children of the sibling are black, and it turns red, so that the
-- missing black node is missing above the parent.
use c_algorithm.Base.{
  ℕ, suc, ◌+◌, ◌≤◌, ◌≡◌, ◌≢◌, ◌∙◌, sym, ap, refl, arith, ◌==◌, true, false, if◌then◌else◌,
}
use c_algorithm.Order.{Compare}
use c_algorithm.RbTree.{RbTree, Side, other, set_red}
use c_algorithm.RbTree.Sides.{both_sides}
use c_algorithm.RbTree.Links.{IsThreeWay, IsNode, child_ne}
use c_algorithm.RbTree.Balanced.{Balanced, set_red-Linked, set_red-Ordered}
use c_algorithm.RbTree.Deficit.{Deficit, temp_ne, sibling}

module _ (cmp : Compare) (o : IsThreeWay cmp) (tr : RbTree) (bound : ℕ) (s : Side) (p temp : ℕ)
    (d : Deficit cmp tr bound s p temp) (w_black : tr.red (tr.child (other s) p) ≡ false)
    (near_black : tr.red (tr.child s (tr.child (other s) p)) ≡ false)
    (far_black : tr.red (tr.child (other s) (tr.child (other s) p)) ≡ false)
    (temp_black : tr.red temp ≡ false) where
  abbrev w : ℕ
  w = tr.child (other s) p

  abbrev pub bleached : RbTree
  bleached = set_red w true tr

  w_facts :
      IsNode tr w
      × (tr.parent w ≡ p)
      × (w ≢ temp)
      × (w ≢ p)
      × (d.height p ≡ d.height temp + (if tr.red p then 0 else 1) + 1)
      × (d.height w ≡ suc (d.height temp))
  w_facts = sibling cmp o tr bound s p temp d

  temp-p : temp ≢ p
  temp-p = temp_ne cmp o tr bound s p temp d

  abbrev height' : ℕ → ℕ
  height' q =
      if q == w
      then d.height temp
      else if q == p
      then d.height temp + (if tr.red p then 0 else 1)
      else d.height q

  w_apart : (t : Side) (q : ℕ) → IsNode tr q → tr.child t q ≡ w → q ≡ p
  w_apart t q m z =
      sym (d.linked.down t q m (λ z2. w_facts.0.1 (sym z ∙ z2))).1 ∙ ap tr.parent z ∙ w_facts.1

  w_near : (q : ℕ) → IsNode tr q → tr.child s q ≢ w
  w_near q m e = w_facts.2 (sym e ∙ ap (tr.child s) (w_apart s q m e) ∙ d.down)

  p_apart :
      (t : Side) (q : ℕ)
      → IsNode tr q
      → tr.child t q ≡ p
      → (q ≢ p) × (tr.parent p ≡ q) × (p ≢ tr.root)
  p_apart t q m z =
      let l = d.linked.down t q m (λ z2. d.p_node.1 (sym z ∙ z2)) in
      (
        (λ e.
            child_ne cmp o tr d.admits d.linked d.ordered t q m (λ z2. d.p_node.1 (sym z ∙ z2))
              (z ∙ sym e)),
        ap tr.parent (sym z) ∙ l.1,
        (λ e. l.2 (z ∙ e)),
      )

  -- a black node is missing on the way down to the parent only
  abbrev Even : Side → Type 0
  Even t =
      (q : ℕ)
      → IsNode tr q
      → height' q
        ≡ height' (tr.child t q)
          + (if bleached.red q then 0 else 1)
          + (if tr.child t q == p then 1 else 0)

  Even-side : (t : Side) → Even t
  Even-side =
      both_sides Even s
        (λ q m.
          ground
            (arith, d.even_near q m, d.down, w_near q m, p_apart s q m, w_black, temp-p, w_facts))
        (λ q m. ground (
          arith,
          d.even_far q m,
          w_apart (other s) q m,
          p_apart (other s) q m,
          w_black,
          temp-p,
          w_facts,
        ))

  abbrev NoRedRed : Side → Type 0
  NoRedRed t =
      (q : ℕ) → IsNode tr q → bleached.red q ≡ true → q ≢ p → bleached.red (tr.child t q) ≡ false

  not_temp : (q : ℕ) → tr.red q ≡ true → q ≢ temp
  not_temp q r e = ground (arith, r, temp_black, ap tr.red e)

  NoRedRed-side : (t : Side) → NoRedRed t
  NoRedRed-side =
      both_sides NoRedRed s
        (λ q m r ne. ground (arith, d.red_near q m, not_temp q, r, near_black, w_apart s q m))
        (λ q m r ne. ground (arith, d.red_far q m, not_temp q, r, far_black, w_apart (other s) q m))

  bounded' : (q : ℕ) → IsNode tr q → height' q ≤ bound
  bounded' q m = ground (arith, d.bounded q m, d.bounded p d.p_node, d.bounded w w_facts.0, w_facts)

  -- at the root nothing is missing any more
  pub bleached-Balanced : p ≡ tr.root → Balanced cmp bleached bound 0
  bleached-Balanced top =
      let p_black : tr.red p ≡ false = ap tr.red top ∙ d.root_black in
      record {
        admits = d.admits;
        height = height';
        linked = set_red-Linked w true d.linked;
        ordered = set_red-Ordered w true d.ordered;
        coloured = record {
          leaf_black = ground (arith, d.leaf_black, w_facts);
          leaf_height = ground (arith, d.leaf_height, w_facts, d.p_node);
          bounded = bounded';
          even = λ t q m. ground (arith, Even-side t q m, p_apart t q m, top);
          no_red_red = λ t q m r ne.
              NoRedRed-side t q m r (λ e. ground (arith, r, p_black, e, ap tr.red e, w_facts));
          root_black = λ ne. ground (arith, d.root_black, top, w_facts);
        };
      }

  pub bleached-Deficit :
      (s' : Side)
      → p ≢ tr.root
      → IsNode tr (tr.parent p)
      → tr.child s' (tr.parent p) ≡ p
      → (d' : Deficit cmp bleached bound s' (tr.parent p) p) × (d'.height p
          ≡ d.height temp + (if tr.red p then 0 else 1))
  bleached-Deficit s' inner up_node at_p =
      let far : (q : ℕ) → IsNode tr q → tr.child (other s') q ≢ p = λ q m e.
        d.linked.apart s' (tr.parent p) up_node (λ z. d.p_node.1 (sym at_p ∙ z))
          (at_p ∙ sym (ap (tr.child (other s')) (p_apart (other s') q m e).1 ∙ e)) in
      (
        record {
          admits = d.admits;
          height = height';
          linked = set_red-Linked w true d.linked;
          ordered = set_red-Ordered w true d.ordered;
          p_node = up_node;
          down = at_p;
          back = refl;
          temp_inner = inner;
          leaf_black = ground (arith, d.leaf_black, w_facts);
          leaf_height = ground (arith, d.leaf_height, w_facts, d.p_node);
          bounded = bounded';
          even_near =
              λ q m. ground (arith, Even-side s' q m, p_apart s' q m, ap (tr.child s'), at_p);
          even_far = λ q m. ground (arith, Even-side (other s') q m, far q m);
          red_near = λ q m r ne ne'. NoRedRed-side s' q m r ne;
          red_far = λ q m r ne. NoRedRed-side (other s') q m r ne;
          root_black =
              ground (arith, d.root_black, (d.linked.down (other s) p d.p_node w_facts.0.1).2);
        },
        ground (arith, w_facts),
      )
