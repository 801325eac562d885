-- ===== src/RbTree/Step.antt =====
-- A round of the loop of rbtree_fast_set: the clash of two red nodes moves up, or is gone.
use c_algorithm.Base.{
  ℕ, zero, suc, ◌+◌, ◌<◌, ◌≡◌, ◌⊎◌, ◌>>=◌, inl, inr, refl, arith, ◌==◌, ==→eq, ==→ne, true, false,
  Bool-cases, if◌then◌else◌, ok, Returns, returns, Returns-bind, Returns-map,
}
use c_algorithm.Order.{Compare}
use c_algorithm.RbTree.{RbTree, rotate, Side, lhs, rhs, other, leaf, fixup_step, insert_fixup}
use c_algorithm.RbTree.Links.{IsThreeWay, IsNode}
use c_algorithm.RbTree.Balanced.{Balanced, Same, Same-refl, Same-trans}
use c_algorithm.RbTree.Family.{Clash, red_parent-Clash}
use c_algorithm.RbTree.Recolour.{recoloured-Balanced}
use c_algorithm.RbTree.Outer.{Placed, outer_lem}
use c_algorithm.RbTree.Inner.{Swapped, inner_lem}

-- what a round gives: the node to go on with, and how much nearer it is to the root
pub record Stepped (cmp : Compare) (tr tr' : RbTree) (bound level x' : ℕ) : Type 0 where
  pub same : Same tr tr'
  pub balanced : Balanced cmp tr' bound x'
  pub node : IsNode tr' x'
  pub is_red : tr'.red x' ≡ true
  pub nearer : (balanced.height x' ≡ suc level) ⊎ (tr'.red (tr'.parent x') ≡ false)

pub Placed-Stepped :
    {cmp : Compare} {tr tr1 tr' : RbTree} {bound x : ℕ} (level : ℕ)
    → Same tr tr1
    → Placed cmp tr1 tr' bound x
    → Stepped cmp tr tr' bound level x
Placed-Stepped level s h = record {
  same = Same-trans s h.same;
  balanced = h.balanced;
  node = h.node;
  is_red = h.is_red;
  nearer = inr h.parent_black;
}

module _ (cmp : Compare) (o : IsThreeWay cmp) where
  uncle_there :
      (tr : RbTree) (bound x : ℕ) (b : Balanced cmp tr bound x) (s : Side) (p g : ℕ)
      → Clash tr s x p g
      → tr.allocated (tr.child (other s) g) ≡ true
  uncle_there tr bound x b s p g f = elim (Bool-cases (tr.child (other s) g == leaf)) [
    | inl e ↦ let k : tr.child (other s) g ≡ leaf = ==→eq _ _ e in rw k b.linked.leaf_there
    | inr e ↦ (b.linked.down (other s) g f.g_node (==→ne _ _ e)).0
  ]

  -- the parent is red, the uncle black, and the node on the outer side
  record Ready (tr tr' : RbTree) (bound : ℕ) (s : Side) (x' : ℕ) : Type 0 where
    same : Same tr tr'
    balanced : Balanced cmp tr' bound x'
    clash : Clash tr' s x' (tr'.parent x') (tr'.parent (tr'.parent x'))
    uncle_black : tr'.red (tr'.child (other s) (tr'.parent (tr'.parent x'))) ≡ false
    out : tr'.child s (tr'.parent x') ≡ x'

  Swapped-Ready :
      (tr tr' : RbTree) (bound : ℕ) (s : Side) (x p g : ℕ)
      → Swapped cmp tr tr' bound s x p g
      → Ready tr tr' bound s p
  Swapped-Ready tr tr' bound s x p g h = record {
    same = h.same;
    balanced = h.balanced;
    clash = rw (h.clash.x_up, h.clash.p_up) h.clash;
    uncle_black = rw (h.clash.x_up, h.clash.p_up) h.uncle_black;
    out = rw h.clash.x_up h.out;
  }

  fixup_step-Stepped :
      (tr : RbTree) (bound x : ℕ) (b : Balanced cmp tr bound x) (s : Side)
      → (f : Clash tr s x (tr.parent x) (tr.parent (tr.parent x)))
      → Returns (λ (x', tr'). Stepped cmp tr tr' bound (b.height x) x') (fixup_step s x tr)
  unfolding fixup_step
  fixup_step-Stepped tr bound x b s f =
      let p = tr.parent x in
      let g = tr.parent p in
      let u = tr.child (other s) g in
      rw (uncle_there tr bound x b s p g f) (elim (Bool-cases (tr.red u)) [
        | inl red ↦ rw red (
            returns (record {
              same = record {
                same_value = λ q. refl;
                same_allocated = λ q. refl;
                same_rest = (refl, refl, refl);
              };
              balanced = (recoloured-Balanced cmp o tr bound x b s p g f red).0;
              node = f.g_node;
              is_red = ground arith;
              nearer = inl (recoloured-Balanced cmp o tr bound x b s p g f red).1;
            }))
        | inr black ↦ rw black (
            Returns-bind (ready black) λ (x1, tr1) h.
              Returns-bind
                (outer_lem cmp o tr1 bound x1 h.balanced s (tr1.parent x1)
                  (tr1.parent (tr1.parent x1)) h.clash h.uncle_black h.out)
                λ tr2 k. returns (Placed-Stepped (b.height x) h.same k))
      ])
    where
      ready :
          tr.red (tr.child (other s) (tr.parent (tr.parent x))) ≡ false
          → Returns
              (λ (x1, tr1). Ready tr tr1 bound s x1)
              (if tr.child (other s) (tr.parent x) == x
                then (rotate s (tr.parent x) tr >>= λ tr1. ok (tr.parent x, tr1))
                else ok (x, tr))
      ready black = elim (Bool-cases (tr.child (other s) (tr.parent x) == x)) [
        | inl e ↦ rw e (
            Returns-bind
              (inner_lem cmp o tr bound x b s (tr.parent x) (tr.parent (tr.parent x)) f black
                (==→eq _ _ e))
              λ tr1 h.
                returns (Swapped-Ready tr tr1 bound s x (tr.parent x) (tr.parent (tr.parent x)) h))
        | inr e ↦ rw e (
            returns (record {
              same = Same-refl tr;
              balanced = b;
              clash = f;
              uncle_black = black;
              out = elim f.p_down [ inl d ↦ d | inr d ↦ absurd (==→ne _ _ e d) ];
            }))
      ]

  -- the tree after the loop: the red node is the root, or its parent is black
  pub record Fixed (tr tr' : RbTree) (bound x' : ℕ) : Type 0 where
    pub same : Same tr tr'
    pub balanced : Balanced cmp tr' bound x'
    pub node : IsNode tr' x'
    pub harmless : (x' ≡ tr'.root) ⊎ (tr'.red (tr'.parent x') ≡ false)

  pub insert_fixup-Fixed :
      (fuel : ℕ) (tr : RbTree) (bound x : ℕ) (b : Balanced cmp tr bound x)
      → IsNode tr x
      → tr.red x ≡ true
      → ((suc bound < fuel + b.height x) ⊎ ((0 < fuel) × (tr.red (tr.parent x) ≡ false)))
      → Returns (λ tr'. (x' : ℕ) × Fixed tr tr' bound x') (insert_fixup fuel x tr)
  unfolding insert_fixup
  insert_fixup-Fixed zero tr bound x b n red enough =
      absurd (ground (arith, b.coloured.bounded x n))
  insert_fixup-Fixed (suc fuel) tr bound x b n red enough = elim (Bool-cases (x == tr.root)) [
    | inl e ↦ rw e (
        returns
          (x, record { same = Same-refl tr; balanced = b; node = n; harmless = inl (==→eq _ _ e) }))
    | inr e ↦
        let u = b.linked.up x n (==→ne _ _ e) in
        rw (e, n.0, u.0.0)
          (elim (Bool-cases (tr.red (tr.parent x))) [
            | inl red_up ↦
                let f =
                  red_parent-Clash cmp o tr bound x b n (==→ne _ _ e)
                    (if tr.child lhs (tr.parent (tr.parent x)) == tr.parent x then lhs else rhs) red
                    red_up refl in
                rw (red_up, f.g_node.0)
                  (Returns-bind
                    (fixup_step-Stepped tr bound x b
                      (if tr.child lhs (tr.parent (tr.parent x)) == tr.parent x then lhs else rhs)
                      f)
                    λ (x1, tr1) h.
                      Returns-map
                        (insert_fixup-Fixed fuel tr1 bound x1 h.balanced h.node h.is_red
                          (more tr1 x1 red_up h))
                        (λ tr2 (x2, k). (
                          x2,
                          record {
                            same = Same-trans h.same k.same;
                            balanced = k.balanced;
                            node = k.node;
                            harmless = k.harmless;
                          },
                        )))
            | inr black_up ↦ rw black_up (
                returns (
                  x,
                  record { same = Same-refl tr; balanced = b; node = n; harmless = inr black_up },
                ))
          ])
  ]
    where
      more :
          (tr1 : RbTree) (x1 : ℕ)
          → tr.red (tr.parent x) ≡ true
          → (h : Stepped cmp tr tr1 bound (b.height x) x1)
          → (suc bound < fuel + h.balanced.height x1)
            ⊎ ((0 < fuel) × (tr1.red (tr1.parent x1) ≡ false))
      more tr1 x1 red_up h = ground (arith, h.nearer, enough, b.coloured.bounded x n)
