-- ===== src/RbTree/Deficit.antt =====
-- The tree in the loop of rbtree_fast_pop: on the way down to one node a black node is missing.
use c_algorithm.Base.{
  ℕ, suc, ◌+◌, ◌≤◌, ◌≡◌, ◌≢◌, ◌∙◌, sym, ap, arith, ◌==◌, Bool, true, false, if◌then◌else◌, Value,
}
use c_algorithm.Order.{Compare}
use c_algorithm.RbTree.{RbTree, Side, lhs, rhs, other, leaf, set_red}
use c_algorithm.RbTree.Sides.{both_sides}
use c_algorithm.RbTree.Links.{IsThreeWay, IsNode, Linked, Ordered, child_ne}
use c_algorithm.RbTree.Balanced.{Balanced, set_red-Linked, set_red-Ordered}

-- On the side `s` of `p`, the height is one less than it should be. The node there may be red, below
-- and above red nodes.
pub record Deficit (cmp : Compare) (tr : RbTree) (bound : ℕ) (s : Side) (p temp : ℕ) : Type 0 where
  pub admits : ℕ → Value → Bool
  pub height : ℕ → ℕ
  pub linked : Linked tr
  pub ordered : Ordered tr cmp admits
  pub p_node : IsNode tr p
  pub down : tr.child s p ≡ temp
  pub back : tr.parent temp ≡ p
  pub temp_inner : temp ≢ tr.root
  pub leaf_black : tr.red leaf ≡ false
  pub leaf_height : height leaf ≡ 0
  pub bounded : (q : ℕ) → IsNode tr q → height q ≤ bound
  pub even_near :
      (q : ℕ)
      → IsNode tr q
      → height q ≡ height (tr.child s q) + (if tr.red q then 0 else 1) + (if q == p then 1 else 0)
  pub even_far :
      (q : ℕ) → IsNode tr q → height q ≡ height (tr.child (other s) q) + (if tr.red q then 0 else 1)
  pub red_near :
      (q : ℕ) → IsNode tr q → tr.red q ≡ true → q ≢ temp → q ≢ p → tr.red (tr.child s q) ≡ false
  pub red_far :
      (q : ℕ) → IsNode tr q → tr.red q ≡ true → q ≢ temp → tr.red (tr.child (other s) q) ≡ false
  pub root_black : tr.red tr.root ≡ false

module _ (cmp : Compare) (o : IsThreeWay cmp) (tr : RbTree) (bound : ℕ) (s : Side) (p temp : ℕ)
    (d : Deficit cmp tr bound s p temp) where
  pub temp_ne : temp ≢ p
  temp_ne e =
      child_ne cmp o tr d.admits d.linked d.ordered s p d.p_node
        (λ z. d.p_node.1 (sym e ∙ sym d.down ∙ z)) (d.down ∙ e)

  pub temp_node : temp ≢ leaf → IsNode tr temp
  temp_node ne =
      let some_child : tr.child s p ≢ leaf = λ e. ne (sym d.down ∙ e) in
      (ap tr.allocated (sym d.down) ∙ (d.linked.down s p d.p_node some_child).0, ne)

  -- the sibling
  pub sibling :
      IsNode tr (tr.child (other s) p)
      × (tr.parent (tr.child (other s) p) ≡ p)
      × (tr.child (other s) p ≢ temp)
      × (tr.child (other s) p ≢ p)
      × (d.height p ≡ d.height temp + (if tr.red p then 0 else 1) + 1)
      × (d.height (tr.child (other s) p) ≡ suc (d.height temp))
  sibling =
      let near : d.height p ≡ d.height temp + (if tr.red p then 0 else 1) + 1 =
        d.even_near p d.p_node ∙ rw d.down (ground arith) in
      let far : d.height p ≡ d.height (tr.child (other s) p) + (if tr.red p then 0 else 1) =
        d.even_far p d.p_node in
      let up : d.height (tr.child (other s) p) ≡ suc (d.height temp) = omega (arith, near, far) in
      let some_sibling : tr.child (other s) p ≢ leaf =
        λ e. omega (arith, up, ap d.height e, d.leaf_height) in
      let l = d.linked.down (other s) p d.p_node some_sibling in
      (
        (l.0, some_sibling),
        l.1,
        (λ e. omega (arith, up, ap d.height e)),
        child_ne cmp o tr d.admits d.linked d.ordered (other s) p d.p_node some_sibling,
        near,
        up,
      )

  -- the side that the loop computes
  pub side_lem : (if temp == tr.child lhs p then lhs else rhs) ≡ s
  side_lem = by_side s d.down sibling.2
    where
      by_side :
          (t : Side)
          → tr.child t p ≡ temp
          → tr.child (other t) p ≢ temp
          → (if temp == tr.child lhs p then lhs else rhs) ≡ t
      by_side lhs e ne = rw e (ground arith)
      by_side rhs e ne = ground (arith, ne)

  -- a red node there is painted black
  pub red_temp-Balanced : tr.red temp ≡ true → Balanced cmp (set_red temp false tr) (suc bound) 0
  red_temp-Balanced red =
      let some_temp : temp ≢ leaf = λ e. ground (arith, red, d.leaf_black, ap tr.red e) in
      let only : (t : Side) (q : ℕ) → IsNode tr q → tr.child t q ≡ temp → q ≡ p = λ t q m e.
        sym (d.linked.down t q m (λ z. some_temp (sym e ∙ z))).1 ∙ ap tr.parent e ∙ d.back in
      let far_apart : (q : ℕ) → IsNode tr q → tr.child (other s) q ≢ temp =
        λ q m e. sibling.2 (sym (ap (tr.child (other s)) (only (other s) q m e)) ∙ e) in
      record {
        admits = d.admits;
        height = λ q. if q == temp then suc (d.height q) else d.height q;
        linked = set_red-Linked temp false d.linked;
        ordered = set_red-Ordered temp false d.ordered;
        coloured = record {
          leaf_black = ground (arith, d.leaf_black);
          leaf_height = ground (arith, d.leaf_height, some_temp);
          bounded = λ q m. ground (arith, d.bounded q m);
          even =
              both_sides
                (λ t.
                  (q : ℕ)
                  → IsNode tr q
                  → (if q == temp then suc (d.height q) else d.height q)
                    ≡ (if tr.child t q == temp
                        then suc (d.height (tr.child t q))
                        else d.height (tr.child t q))
                      + (if (if q == temp then false else tr.red q) then 0 else 1))
                s
                (λ q m. ground (
                  arith,
                  d.even_near q m,
                  only s q m,
                  d.down,
                  temp_ne,
                  child_ne cmp o tr d.admits d.linked d.ordered s q m,
                ))
                (λ q m. ground (arith, d.even_far q m, far_apart q m));
          no_red_red = λ t q m r ne.
              both_sides
                (λ t.
                  (q : ℕ)
                  → IsNode tr q
                  → (if q == temp then false else tr.red q) ≡ true
                  → (if tr.child t q == temp then false else tr.red (tr.child t q)) ≡ false)
                s (λ q m r. ground (arith, d.red_near q m, r, d.down))
                (λ q m r. ground (arith, d.red_far q m, r)) t q m r;
          root_black = λ ne. ground (arith, d.root_black);
        };
      }
