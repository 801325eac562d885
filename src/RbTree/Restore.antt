-- ===== src/RbTree/Restore.antt =====
-- The rounds of the loop of rbtree_fast_pop.
use c_algorithm.Base.{
  ℕ, suc, ◌≡◌, ◌≢◌, ◌⊎◌, ◌∙◌, ap, inl, inr, refl, arith, ◌==◌, ==→eq, ==→ne, true, false,
  Bool-cases, if◌then◌else◌, ◌&&◌, not, ok, Returns, returns, Returns-bind, Returns-map,
}
use c_algorithm.Order.{Compare}
use c_algorithm.RbTree.{RbTree, Side, lhs, rhs, other, leaf, set_red, rotate}
use c_algorithm.RbTree.Links.{IsThreeWay, IsNode, Linked}
use c_algorithm.RbTree.Balanced.{Balanced, Same, Same-refl, Same-trans}
use c_algorithm.RbTree.Pop.{pop_step}
use c_algorithm.RbTree.Deficit.{Deficit, sibling}
use c_algorithm.RbTree.RedSibling.{red_sibling_lem}
use c_algorithm.RbTree.Nephew.{Straight, nephew_lem}
use c_algorithm.RbTree.Uplift.{uplift_lem}
use c_algorithm.RbTree.Bleach.{bleached-Balanced, bleached-Deficit}

pub child_there :
    (tr : RbTree)
    → Linked tr
    → (t : Side) (q : ℕ) → IsNode tr q
    → tr.allocated (tr.child t q) ≡ true
child_there tr l t q n = elim (Bool-cases (tr.child t q == leaf)) [
  | inl e ↦ let k : tr.child t q ≡ leaf = ==→eq _ _ e in rw k l.leaf_there
  | inr e ↦ (l.down t q n (==→ne _ _ e)).0
]

-- what a round gives: the balance, or a black node that is missing nearer to the root
pub data Restored (cmp : Compare) (tr' : RbTree) (bound level : ℕ) : ℕ → Type 0 where
  whole :
      (temp : ℕ) → temp ≡ tr'.root → Balanced cmp tr' bound 0 → Restored cmp tr' bound level temp
  nearer :
      (s : Side) (p temp : ℕ) (d : Deficit cmp tr' bound s p temp)
      → (tr'.red temp ≡ true) ⊎ (d.height temp ≡ suc level)
      → Restored cmp tr' bound level temp

module _ (cmp : Compare) (o : IsThreeWay cmp) where
  -- the tree in a round when the sibling is black
  record Middle (tr tr1 : RbTree) (bound level : ℕ) (s : Side) (p temp : ℕ) : Type 0 where
    same : Same tr tr1
    deficit : Deficit cmp tr1 bound s p temp
    sibling_black : tr1.red (tr1.child (other s) p) ≡ false
    temp_black : tr1.red temp ≡ false
    level_up : (tr1.red p ≡ true) ⊎ (deficit.height temp ≡ level)

  module _ (tr : RbTree) (bound : ℕ) (s : Side) (p temp : ℕ) (d : Deficit cmp tr bound s p temp)
      (temp_black : tr.red temp ≡ false) where
    middle :
        Returns
          (λ tr1. Middle tr tr1 bound (d.height temp) s p temp)
          (if tr.red (tr.child (other s) p)
            then rotate s p (set_red p true (set_red (tr.child (other s) p) false tr))
            else ok tr)
    middle = elim (Bool-cases (tr.red (tr.child (other s) p))) [
      | inl red ↦ rw red (
          Returns-map (red_sibling_lem cmp o tr bound s p temp d red) λ tr1 h. record {
            same = h.same;
            deficit = h.deficit;
            sibling_black =
                h.deficit.red_far p h.deficit.p_node h.p_red
                  (λ e. ground (arith, h.p_red, h.temp_red, temp_black, ap tr1.red e));
            temp_black = h.temp_red ∙ temp_black;
            level_up = inl h.p_red;
          })
      | inr black ↦ rw black (
          returns (record {
            same = Same-refl tr;
            deficit = d;
            sibling_black = black;
            temp_black = temp_black;
            level_up = inr refl;
          }))
    ]

  module _ (tr tr1 : RbTree) (bound level : ℕ) (s : Side) (p temp : ℕ)
      (h : Middle tr tr1 bound level s p temp) where
    abbrev w : ℕ
    w = tr1.child (other s) p

    bleach :
        tr1.red (tr1.child s w) ≡ false
        → tr1.red (tr1.child (other s) w) ≡ false
        → Restored cmp (set_red w true tr1) bound level p
    bleach near far = elim (Bool-cases (p == tr1.root)) [
      | inl top ↦ whole p (==→eq _ _ top) (
          bleached-Balanced cmp o tr1 bound s p temp h.deficit h.sibling_black near far h.temp_black
            (==→eq _ _ top))
      | inr inner ↦
          let u = h.deficit.linked.up p h.deficit.p_node (==→ne _ _ inner) in
          elim u.1 [
            | inl at_p ↦ moved lhs (==→ne _ _ inner) u.0 at_p
            | inr at_p ↦ moved rhs (==→ne _ _ inner) u.0 at_p
          ]
    ]
      where
        moved :
            (s' : Side)
            → p ≢ tr1.root
            → IsNode tr1 (tr1.parent p)
            → tr1.child s' (tr1.parent p) ≡ p
            → Restored cmp (set_red w true tr1) bound level p
        moved s' inner n at_p =
            let b =
              bleached-Deficit cmp o tr1 bound s p temp h.deficit h.sibling_black near far
                h.temp_black s' inner n at_p in
            nearer s' (tr1.parent p) p b.0 (elim (Bool-cases (tr1.red p)) [
              | inl red ↦ inl (ground (arith, red))
              | inr black ↦ elim h.level_up [
                | inl red ↦ inl (ground (arith, red))
                | inr same ↦ inr (b.1 ∙ ground (arith, black, same))
              ]
            ])

    straighten :
        (tr1.red (tr1.child s w) ≡ true) ⊎ (tr1.red (tr1.child (other s) w) ≡ true)
        → Returns
            (λ tr2. Straight cmp tr1 tr2 bound s p temp)
            (if not (tr1.red (tr1.child (other s) w))
              then rotate (other s) w (set_red w true (set_red (tr1.child s w) false tr1))
              else ok tr1)
    straighten some_red = elim (Bool-cases (tr1.red (tr1.child (other s) w))) [
      | inl red ↦ rw red (
          returns (record {
            same = Same-refl tr1;
            deficit = h.deficit;
            sibling_black = h.sibling_black;
            nephew_red = red;
            temp_red = refl;
          }))
      | inr black ↦ rw black (
          nephew_lem cmp o tr1 bound s p temp h.deficit h.sibling_black
            (ground (arith, some_red, black)) black)
    ]

  pub pop_step-Restored :
      (tr : RbTree) (bound : ℕ) (s : Side) (p temp : ℕ) (d : Deficit cmp tr bound s p temp)
      → tr.red temp ≡ false
      → Returns
          (λ (temp', tr'). Same tr tr' × Restored cmp tr' bound (d.height temp) temp')
          (pop_step s temp tr)
  unfolding pop_step
  pop_step-Restored tr bound s p temp d temp_black =
      rw (d.back, child_there tr d.linked (other s) p d.p_node)
        (Returns-bind (middle tr bound s p temp d temp_black) λ tr1 h.
          let m = h.deficit in
          let w = sibling cmp o tr1 bound s p temp m in
          rw
            (
              m.back,
              child_there tr1 m.linked (other s) p m.p_node,
              child_there tr1 m.linked s (tr1.child (other s) p) w.0,
              child_there tr1 m.linked (other s) (tr1.child (other s) p) w.0,
            )
            (elim (Bool-cases (
              not (tr1.red (tr1.child s (tr1.child (other s) p)))
              && not (tr1.red (tr1.child (other s) (tr1.child (other s) p))))) [
                | inl both ↦ rw both (
                    returns (
                      record {
                        same_value = h.same.same_value;
                        same_allocated = h.same.same_allocated;
                        same_rest = h.same.same_rest;
                      },
                      bleach tr tr1 bound (d.height temp) s p temp h (ground (arith, both))
                          (ground (arith, both)),
                    ))
                | inr some_red ↦ rw some_red (
                    Returns-bind
                      (straighten tr tr1 bound (d.height temp) s p temp h
                        (ground (arith, some_red)))
                      λ tr2 k. rw k.deficit.back (
                        Returns-bind
                          (uplift_lem cmp o tr2 bound s p temp k.deficit k.sibling_black
                            k.nephew_red (k.temp_red ∙ h.temp_black))
                          λ tr3 (same, b).
                            returns
                              (Same-trans h.same (Same-trans k.same same), whole tr3.root refl b)))
              ]))
