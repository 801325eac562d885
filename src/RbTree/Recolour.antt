-- ===== src/RbTree/Recolour.antt =====
-- A red uncle: the parent and the uncle turn black, the grandparent red.
use c_algorithm.Base.{
  ℕ, suc, ◌+◌, ◌≡◌, ◌≢◌, ◌∙◌, sym, ap, inl, inr, arith, ◌==◌, ==→eq, ==→ne, true, false, Bool-cases,
  if◌then◌else◌,
}
use c_algorithm.Order.{Compare}
use c_algorithm.RbTree.{RbTree, Side, other, leaf, set_red}
use c_algorithm.RbTree.Sides.{both_sides}
use c_algorithm.RbTree.Links.{IsThreeWay, IsNode}
use c_algorithm.RbTree.Colours.{Coloured}
use c_algorithm.RbTree.Balanced.{Balanced, set_red-Linked, set_red-Ordered}
use c_algorithm.RbTree.Family.{Clash}

module _ (cmp : Compare) (o : IsThreeWay cmp) (tr : RbTree) (bound x : ℕ)
    (b : Balanced cmp tr bound x) (s : Side) (p g : ℕ) (f : Clash tr s x p g)
    (u_red : tr.red (tr.child (other s) g) ≡ true) where
  abbrev u : ℕ
  u = tr.child (other s) g

  uncle : (u ≢ leaf) × IsNode tr u × (tr.parent u ≡ g) × (u ≢ tr.root) × (u ≢ p) × (u ≢ g)
  uncle =
      let some_uncle : u ≢ leaf = λ e. ground (arith, u_red, b.coloured.leaf_black, ap tr.red e) in
      let d = b.linked.down (other s) g f.g_node some_uncle in
      (
        some_uncle,
        (d.0, some_uncle),
        d.1,
        d.2,
        (λ e. ground (arith, b.linked.apart s g f.g_node, f.g_down, f.p_node)),
        (λ e. ground (arith, u_red, f.g_black, ap tr.red e)),
      )

  abbrev pub recoloured : RbTree
  recoloured = set_red g true (set_red u false (set_red p false tr))

  abbrev height' : ℕ → ℕ
  height' q = if q == p then suc (b.height q) else if q == u then suc (b.height q) else b.height q

  -- a child of another node is neither the parent nor the uncle
  child_apart : (t : Side) (q : ℕ) → IsNode tr q → q ≢ g → (tr.child t q ≢ p) × (tr.child t q ≢ u)
  child_apart t q m ne =
      let d = b.linked.down t q m in
      let k = uncle in
      (
        (λ e. ne (sym (d (λ z. f.p_node.1 (sym e ∙ z))).1 ∙ ap tr.parent e ∙ f.p_up)),
        (λ e. ne (sym (d (λ z. k.0 (sym e ∙ z))).1 ∙ ap tr.parent e ∙ k.2)),
      )

  abbrev Even : Side → Type 0
  Even t =
      (q : ℕ)
      → IsNode tr q
      → height' q ≡ height' (tr.child t q) + (if recoloured.red q then 0 else 1)

  even_below :
      (t : Side) (q : ℕ)
      → IsNode tr q
      → q ≢ g
      → height' q ≡ height' (tr.child t q) + (if recoloured.red q then 0 else 1)
  even_below t q m ne = ground (arith, child_apart t q m ne, b.coloured.even t q m, f.p_red, u_red)

  Even-near : Even s
  Even-near q m = elim (Bool-cases (q == g)) [
    | inl e ↦
        let k : q ≡ g = ==→eq _ _ e in
        rw (k, f.g_down) (ground (arith, b.coloured.even s g f.g_node, f, uncle))
    | inr e ↦ even_below s q m (==→ne _ _ e)
  ]

  Even-far : Even (other s)
  Even-far q m = elim (Bool-cases (q == g)) [
    | inl e ↦
        let k : q ≡ g = ==→eq _ _ e in
        rw k (ground (arith, b.coloured.even (other s) g f.g_node, f, uncle))
    | inr e ↦ even_below (other s) q m (==→ne _ _ e)
  ]

  abbrev NoRedRed : Side → Type 0
  NoRedRed t =
      (q : ℕ)
      → IsNode tr q
      → recoloured.red q ≡ true
      → tr.child t q ≢ g
      → recoloured.red (tr.child t q) ≡ false

  red_below :
      (t : Side) (q : ℕ)
      → IsNode tr q
      → q ≢ g
      → recoloured.red q ≡ true
      → tr.child t q ≢ g
      → recoloured.red (tr.child t q) ≡ false
  red_below t q m ne r ne' =
      let up : tr.child t q ≡ x → q ≡ p =
        λ e. sym (b.linked.down t q m (λ z. f.x_node.1 (sym e ∙ z))).1 ∙ ap tr.parent e ∙ f.x_up in
      ground (arith, child_apart t q m ne, b.coloured.no_red_red t q m, up)

  NoRedRed-near : NoRedRed s
  NoRedRed-near q m r ne = elim (Bool-cases (q == g)) [
    | inl e ↦ let k : q ≡ g = ==→eq _ _ e in rw (k, f.g_down) (ground (arith, f))
    | inr e ↦ red_below s q m (==→ne _ _ e) r ne
  ]

  NoRedRed-far : NoRedRed (other s)
  NoRedRed-far q m r ne = elim (Bool-cases (q == g)) [
    | inl e ↦ let k : q ≡ g = ==→eq _ _ e in rw k (ground (arith, uncle))
    | inr e ↦ red_below (other s) q m (==→ne _ _ e) r ne
  ]

  recoloured-Coloured : Coloured recoloured height' bound g
  recoloured-Coloured = record {
    leaf_black = ground (arith, b.coloured.leaf_black, f.g_node);
    leaf_height = ground (arith, b.coloured.leaf_height, f.p_node, uncle);
    bounded = λ q m. ground (
      arith,
      b.coloured.bounded q m,
      b.coloured.bounded g f.g_node,
      b.coloured.even s g f.g_node,
      b.coloured.even (other s) g f.g_node,
      f,
      uncle,
    );
    even = λ t q m. both_sides Even s Even-near Even-far t q m;
    no_red_red = λ t q m r ne. both_sides NoRedRed s NoRedRed-near NoRedRed-far t q m r ne;
    root_black = λ ne. ground (arith, b.coloured.root_black, f.x_inner);
  }

  pub recoloured-Balanced :
      (b' : Balanced cmp recoloured bound g) × (b'.height g ≡ suc (b.height x))
  recoloured-Balanced = (
    record {
      admits = b.admits;
      height = height';
      linked = set_red-Linked g true (set_red-Linked u false (set_red-Linked p false b.linked));
      ordered =
          set_red-Ordered g true (set_red-Ordered u false (set_red-Ordered p false b.ordered));
      coloured = recoloured-Coloured;
    },
    ground (
      arith,
      b.coloured.even s g f.g_node,
      b.coloured.even s p f.p_node,
      b.coloured.even (other s) p f.p_node,
      f,
      uncle,
    ),
  )
