-- ===== src/RbTree/Mend.antt =====
-- The loop of rbtree_fast_pop.
use c_algorithm.Base.{
  ℕ, zero, suc, ◌+◌, ◌<◌, ◌≡◌, ◌≢◌, ◌⊎◌, ◌∙◌, sym, ap, inl, inr, refl, arith, ◌==◌, ==→eq, true,
  false, Bool-cases, if◌then◌else◌, ok, Returns, returns, Returns-bind, Returns-map,
}
use c_algorithm.Order.{Compare}
use c_algorithm.RbTree.{RbTree, Side, leaf, set_red}
use c_algorithm.RbTree.Links.{IsThreeWay}
use c_algorithm.RbTree.Balanced.{
  Balanced, Same, Same-refl, Same-trans, set_red-Linked, set_red-Ordered,
}
use c_algorithm.RbTree.Blacken.{Balanced-mono}
use c_algorithm.RbTree.Pop.{pop_fixup}
use c_algorithm.RbTree.Deficit.{Deficit, sibling, side_lem, red_temp-Balanced}
use c_algorithm.RbTree.Restore.{Restored, whole, nearer, child_there, pop_step-Restored}

module _ (cmp : Compare) (o : IsThreeWay cmp) where
  -- the tree after the loop: balanced, once the last node is black
  pub record Mended (tr tr' : RbTree) (bound temp : ℕ) : Type 0 where
    pub same : Same tr tr'
    pub balanced : Balanced cmp (set_red temp false tr') (suc bound) 0

  pop_fixup-root :
      (fuel temp : ℕ) (tr : RbTree)
      → 0 < fuel
      → temp ≡ tr.root
      → pop_fixup fuel temp tr ≡ ok (temp, tr)
  unfolding pop_fixup
  pop_fixup-root zero temp tr some top = absurd (omega arith)
  pop_fixup-root (suc fuel) temp tr some top =
      let e : (temp == tr.root) ≡ true = ground (arith, top) in rw e refl

  root_there : (tr : RbTree) {bound : ℕ} → Balanced cmp tr bound 0 → tr.root ≢ 0
  root_there tr b e = ground (arith, b.linked.root_there, b.linked.no_null, ap tr.allocated e)

  -- painting a black node black
  black-Balanced :
      (q : ℕ) {tr : RbTree} {bound : ℕ}
      → Balanced cmp tr bound 0
      → tr.red q ≡ false
      → Balanced cmp (set_red q false tr) bound 0
  black-Balanced q {tr = tr} b black =
      let same : (k : ℕ) → (if k == q then false else tr.red k) ≡ tr.red k = λ k.
        elim (Bool-cases (k == q)) [
          | inl e ↦ rw e (sym black ∙ ap tr.red (sym (==→eq _ _ e)))
          | inr e ↦ rw e refl
        ] in
      record {
        admits = b.admits;
        height = b.height;
        linked = set_red-Linked q false b.linked;
        ordered = set_red-Ordered q false b.ordered;
        coloured = record {
          leaf_black = same leaf ∙ b.coloured.leaf_black;
          leaf_height = b.coloured.leaf_height;
          bounded = b.coloured.bounded;
          even = λ t k m. rw (same k) (b.coloured.even t k m);
          no_red_red =
              λ t k m r ne. same (tr.child t k) ∙ b.coloured.no_red_red t k m (sym (same k) ∙ r) ne;
          root_black = λ ne. same tr.root ∙ b.coloured.root_black ne;
        };
      }

  pub pop_fixup-Mended :
      (fuel : ℕ) (tr : RbTree) (bound : ℕ) (s : Side) (p temp : ℕ)
      (d : Deficit cmp tr bound s p temp)
      → ((bound + 2 < fuel + d.height temp) ⊎ ((0 < fuel) × (tr.red temp ≡ true)))
      → Returns (λ (temp', tr'). Mended tr tr' bound temp') (pop_fixup fuel temp tr)
  unfolding pop_fixup
  pop_fixup-Mended zero tr bound s p temp d enough =
      absurd (ground (arith, enough, d.bounded p d.p_node, sibling cmp o tr bound s p temp d))
  pop_fixup-Mended (suc fuel) tr bound s p temp d enough =
      let inner : (temp == tr.root) ≡ false = ground (arith, d.temp_inner) in
      let temp_there : tr.allocated temp ≡ true =
        ap tr.allocated (sym d.down) ∙ child_there tr d.linked s p d.p_node in
      rw (inner, temp_there)
        (elim (Bool-cases (tr.red temp)) [
          | inl red ↦ rw red (
              returns (record {
                same = Same-refl tr;
                balanced = red_temp-Balanced cmp o tr bound s p temp d red;
              }))
          | inr black ↦
              rw (black, d.back, d.p_node.0, side_lem cmp o tr bound s p temp d)
                (Returns-bind (pop_step-Restored cmp o tr bound s p temp d black)
                  λ (temp1, tr1) (same, r).
                    go temp1 tr1 black same r
                      (λ s' p' d' enough'. pop_fixup-Mended fuel tr1 bound s' p' temp1 d' enough'))
        ])
    where
      go :
          (temp1 : ℕ) (tr1 : RbTree)
          → tr.red temp ≡ false
          → Same tr tr1
          → Restored cmp tr1 bound (d.height temp) temp1
          → ((s' : Side) (p' : ℕ) (d' : Deficit cmp tr1 bound s' p' temp1)
              → ((bound + 2 < fuel + d'.height temp1) ⊎ ((0 < fuel) × (tr1.red temp1 ≡ true)))
              → Returns (λ (temp', tr'). Mended tr1 tr' bound temp') (pop_fixup fuel temp1 tr1))
          → Returns (λ (temp', tr'). Mended tr tr' bound temp') (pop_fixup fuel temp1 tr1)
      go temp1 tr1 black same (whole _ top b) again =
          let some_fuel : 0 < fuel =
            ground
              (arith, enough, black, d.bounded p d.p_node, sibling cmp o tr bound s p temp d) in
          rw (pop_fixup-root fuel temp1 tr1 some_fuel top) (
            returns (record {
              same = same;
              balanced = Balanced-mono (omega arith) (
                  black-Balanced temp1 b
                    (ap tr1.red top ∙ b.coloured.root_black (root_there tr1 b)));
            }))
      go temp1 tr1 black same (nearer s' p' _ d' up) again =
          Returns-map
            (again s' p' d' (
              ground (
                arith,
                enough,
                black,
                up,
                d.bounded p d.p_node,
                sibling cmp o tr bound s p temp d,
              )))
            λ (temp', tr') m. record { same = Same-trans same m.same; balanced = m.balanced }
