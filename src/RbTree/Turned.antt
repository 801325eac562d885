-- ===== src/RbTree/Turned.antt =====
-- rbtree_left_rotate and rbtree_right_rotate: the links and the order after a rotation.
use c_algorithm.Base.{
  ℕ, ◌≡◌, ◌≢◌, ◌⊎◌, ◌∙◌, sym, ap, inl, inr, refl, arith, ◌==◌, ==→eq, if◌then◌else◌, Bool, true,
  Bool-cases, ◌&&◌, Value,
}
use c_algorithm.Order.{Compare}
use c_algorithm.RbTree.{RbTree, Side, lhs, rhs, other, leaf}
use c_algorithm.RbTree.Sides.{up_side, both_sides, sides_up, other-other}
use c_algorithm.RbTree.Links.{
  IsThreeWay, before, IsNode, Linked, Ordered, before_flip, before_trans, child_ne, grandchild_ne,
}
use c_algorithm.RbTree.Rotate.{Rotated, y-ne-x, y_node, parent_facts}

module _ (cmp : Compare) (o : IsThreeWay cmp) (tr : RbTree) (admits : ℕ → Value → Bool)
    (l : Linked tr) (r : Ordered tr cmp admits) (s : Side) (x : ℕ) (n : IsNode tr x)
    (ne : tr.child (other s) x ≢ leaf) (tr' : RbTree)
    (t : Rotated s x (tr.child (other s) x) tr tr') where
  abbrev y : ℕ
  y = tr.child (other s) x

  abbrev b : ℕ
  b = tr.child s y

  below_x : (tr.parent y ≡ x) × (y ≢ x) × (y ≢ tr.root) × IsNode tr y
  below_x =
      let d = l.down (other s) x n ne in
      (d.1, y-ne-x cmp o tr admits l r s x n ne, d.2, y_node cmp o tr admits l r s x n ne)

  below_y : b ≢ leaf → IsNode tr b × (tr.parent b ≡ y) × (b ≢ tr.root) × (b ≢ y) × (b ≢ x)
  below_y some_b =
      let m = y_node cmp o tr admits l r s x n ne in
      let d = l.down s y m some_b in
      (
        (d.0, some_b),
        d.1,
        d.2,
        child_ne cmp o tr admits l r s y m some_b,
        grandchild_ne cmp o tr admits l r (other s) s x n ne some_b,
      )

  node_before : (q : ℕ) → IsNode tr' q → IsNode tr q
  node_before q m = (sym (t.same_allocated q) ∙ m.0, m.1)

  node_after : (q : ℕ) → IsNode tr q → IsNode tr' q
  node_after q m = (t.same_allocated q ∙ m.0, m.1)

  abbrev Down : Side → Type 0
  Down side =
      (q : ℕ)
      → IsNode tr' q
      → tr'.child side q ≢ leaf
      → (tr'.allocated (tr'.child side q) ≡ true)
        × (tr'.parent (tr'.child side q) ≡ q)
        × (tr'.child side q ≢ tr'.root)

  Down-near : Down s
  Down-near q m' some_child =
      let m = node_before q m' in
      let f = below_x in
      elim (Bool-cases (q == y)) [
        | inl e ↦
            let c : tr'.child s q ≡ x = t.near q m ∙ rw e refl in
            rw c (ground (arith, t.same_allocated x, n, t.parents x n, t.new_root, ==→eq _ _ e))
        | inr e ↦ elim (Bool-cases (tr.child s q == x)) [
          | inl e2 ↦
              let c : tr'.child s q ≡ y = t.near q m ∙ rw (e, e2) refl in
              rw c
                (ground (arith, t.same_allocated y, t.parents y f.3, t.new_root, l.down s q m, n))
          | inr e2 ↦
              let c : tr'.child s q ≡ tr.child s q = t.near q m ∙ rw (e, e2) refl in
              let some_old : tr.child s q ≢ leaf = λ e3. some_child (c ∙ e3) in
              let d = l.down s q m some_old in
              rw c (
                ground (
                  arith,
                  t.same_allocated (tr.child s q),
                  d,
                  t.parents (tr.child s q) (d.0, some_old),
                  t.new_root,
                  l.apart s x n,
                  below_y,
                ))
        ]
      ]

  Down-far : Down (other s)
  Down-far q m' some_child =
      let m = node_before q m' in
      let f = below_x in
      elim (Bool-cases (q == x)) [
        | inl e ↦
            let c : tr'.child (other s) q ≡ b = t.far q m ∙ rw e refl in
            let some_b : b ≢ leaf = λ e3. some_child (c ∙ e3) in
            let g = below_y some_b in
            rw c (ground (arith, t.same_allocated b, g, t.parents b g.0, t.new_root, ==→eq _ _ e))
        | inr e ↦ elim (Bool-cases (tr.child (other s) q == x)) [
          | inl e2 ↦
              let c : tr'.child (other s) q ≡ y = t.far q m ∙ rw (e, e2) refl in
              rw c (
                ground
                  (arith, t.same_allocated y, t.parents y f.3, t.new_root, l.down (other s) q m, n))
          | inr e2 ↦
              let c : tr'.child (other s) q ≡ tr.child (other s) q = t.far q m ∙ rw (e, e2) refl in
              let some_old : tr.child (other s) q ≢ leaf = λ e3. some_child (c ∙ e3) in
              let d = l.down (other s) q m some_old in
              rw c (
                ground (
                  arith,
                  t.same_allocated (tr.child (other s) q),
                  d,
                  t.parents (tr.child (other s) q) (d.0, some_old),
                  t.new_root,
                  l.apart s y f.3,
                  below_y,
                ))
        ]
      ]

  abbrev Apart : Side → Type 0
  Apart side =
      (q : ℕ) → IsNode tr' q → tr'.child side q ≢ leaf → tr'.child side q ≢ tr'.child (other side) q

  Apart-near : Apart s
  Apart-near q m' some_child =
      let m = node_before q m' in
      let f = below_x in
      ground (
        arith,
        t.near q m,
        t.far q m,
        l.down s q m,
        l.down (other s) q m,
        l.apart s q m,
        l.apart s x n,
        below_y,
        f,
        grandchild_ne cmp o tr admits l r (other s) (other s) x n ne,
        n,
      )

  Apart-far : Apart (other s)
  Apart-far q m' some_child =
      rw (other-other s) (λ e. Apart-near q m' (λ e2. some_child (e ∙ e2)) (sym e))

  abbrev UpFrom : ℕ → ℕ → Type 0
  UpFrom q p =
      (tr'.parent q ≡ p) × IsNode tr p × ((tr'.child s p ≡ q) ⊎ (tr'.child (other s) p ≡ q))

  up_from : (q : ℕ) → IsNode tr q → q ≢ tr'.root → (p : ℕ) × UpFrom q p
  up_from q m inner =
      let f = below_x in
      elim (Bool-cases (q == x)) [
        | inl e ↦ (y, (t.parents q m ∙ rw e refl, f.3, inl (ground (arith, t.near y f.3))))
        | inr e ↦ elim (Bool-cases (q == y)) [
          | inl e2 ↦
              let x_inner : x ≢ tr.root = ground (arith, t.new_root) in
              let u = l.up x n x_inner in
              let pf = parent_facts cmp o tr admits l r s x n ne x_inner in
              (
                tr.parent x,
                (
                  t.parents q m ∙ rw (e, e2) refl,
                  u.0,
                  ground (arith, pf, t.near (tr.parent x) u.0, t.far (tr.parent x) u.0),
                ),
              )
          | inr e2 ↦ elim (Bool-cases (q == b)) [
            | inl e3 ↦
                (x, (t.parents q m ∙ rw (e, e2, e3) refl, n, inr (ground (arith, t.far x n))))
            | inr e3 ↦
                let q_inner : q ≢ tr.root = ground (arith, t.new_root) in
                let u = l.up q m q_inner in
                (
                  tr.parent q,
                  (
                    t.parents q m ∙ rw (e, e2, e3) refl,
                    u.0,
                    ground (
                      arith,
                      up_side (λ side. tr.child side (tr.parent q)) s u.1,
                      t.near (tr.parent q) u.0,
                      t.far (tr.parent q) u.0,
                    ),
                  ),
                )
          ]
        ]
      ]

  rotated_up :
      (q : ℕ)
      → IsNode tr' q
      → q ≢ tr'.root
      → IsNode tr' (tr'.parent q)
        × ((tr'.child lhs (tr'.parent q) ≡ q) ⊎ (tr'.child rhs (tr'.parent q) ≡ q))
  rotated_up q m' inner =
      let (p, (e, p_node, u)) = up_from q (node_before q m') inner in
      rw e (node_after p p_node, sides_up (λ side. tr'.child side p) s u)

  pub Turned-Linked : Linked tr'
  Turned-Linked = record {
    leaf_there = t.same_allocated leaf ∙ l.leaf_there;
    no_null = t.same_allocated 0 ∙ l.no_null;
    root_there = t.same_allocated tr'.root ∙ ground (arith, t.new_root, l.root_there, below_x);
    down = both_sides Down s Down-near Down-far;
    apart = both_sides Apart s Apart-near Apart-far;
    up = rotated_up;
  }

  abbrev pub admits' : ℕ → Value → Bool
  admits' q v =
      if q == y
      then admits x v
      else if q == x
      then (admits x v && before cmp s v (tr.value y))
      else admits q v

  abbrev Split : Side → Type 0
  Split side =
      (q : ℕ) (v : Value)
      → IsNode tr' q
      → tr'.child side q ≢ leaf
      → admits' (tr'.child side q) v ≡ (admits' q v && before cmp side v (tr'.value q))

  y_after_x : before cmp (other s) (tr.value y) (tr.value x) ≡ true
  y_after_x = ground (arith, r.split (other s) x (tr.value y) n ne, r.own y (below_x.3))

  x_first : before cmp s (tr.value x) (tr.value y) ≡ true
  x_first = before_flip cmp o s (tr.value x) (tr.value y) ∙ y_after_x

  Split-near : Split s
  Split-near q v m' some_child =
      let m = node_before q m' in
      let f = below_x in
      elim (Bool-cases (q == y)) [
        | inl e ↦
            let c : tr'.child s q ≡ x = t.near q m ∙ rw e refl in
            rw (c, t.same_value q) (ground (arith, ap tr.value (==→eq _ _ e), f))
        | inr e ↦ elim (Bool-cases (tr.child s q == x)) [
          | inl e2 ↦
              let c : tr'.child s q ≡ y = t.near q m ∙ rw (e, e2) refl in
              let at_x = ==→eq _ _ e2 in
              rw (c, t.same_value q)
                (ground (
                  arith,
                  r.split s q v m,
                  ap (λ k. admits k v) at_x,
                  at_x,
                  child_ne cmp o tr admits l r s q m,
                  n,
                  f,
                ))
          | inr e2 ↦
              let c : tr'.child s q ≡ tr.child s q = t.near q m ∙ rw (e, e2) refl in
              let some_old : tr.child s q ≢ leaf = λ e3. some_child (c ∙ e3) in
              rw (c, t.same_value q)
                (ground (
                  arith,
                  r.split s q v m,
                  l.down s q m,
                  l.apart s x n,
                  before_trans cmp o s v (tr.value x) (tr.value y),
                  x_first,
                  f,
                ))
        ]
      ]

  Split-far : Split (other s)
  Split-far q v m' some_child =
      let m = node_before q m' in
      let f = below_x in
      elim (Bool-cases (q == x)) [
        | inl e ↦
            let c : tr'.child (other s) q ≡ b = t.far q m ∙ rw e refl in
            let some_b : b ≢ leaf = λ e3. some_child (c ∙ e3) in
            let at_x = ==→eq _ _ e in
            rw (c, t.same_value q)
              (ground (
                arith,
                r.split s y v f.3 some_b,
                r.split (other s) x v n ne,
                at_x,
                ap tr.value at_x,
                below_y some_b,
                f,
              ))
        | inr e ↦ elim (Bool-cases (tr.child (other s) q == x)) [
          | inl e2 ↦
              let c : tr'.child (other s) q ≡ y = t.far q m ∙ rw (e, e2) refl in
              let at_x = ==→eq _ _ e2 in
              rw (c, t.same_value q)
                (ground (
                  arith,
                  r.split (other s) q v m,
                  ap (λ k. admits k v) at_x,
                  at_x,
                  l.down (other s) q m,
                  grandchild_ne cmp o tr admits l r (other s) (other s) q m,
                  n,
                  ne,
                  f,
                ))
          | inr e2 ↦
              let c : tr'.child (other s) q ≡ tr.child (other s) q = t.far q m ∙ rw (e, e2) refl in
              let some_old : tr.child (other s) q ≢ leaf = λ e3. some_child (c ∙ e3) in
              rw (c, t.same_value q)
                (ground (
                  arith,
                  r.split (other s) q v m,
                  r.split (other s) x v n ne,
                  l.down (other s) q m,
                  before_trans cmp o (other s) v (tr.value y) (tr.value x),
                  y_after_x,
                  f,
                ))
        ]
      ]

  pub Turned-Ordered : Ordered tr' cmp admits'
  Turned-Ordered = record {
    own = λ p m'.
        let m = node_before p m' in
        let f = below_x in
        rw (t.same_value p) (
          ground (
            arith,
            r.own p m,
            r.own x n,
            r.own y f.3,
            r.split (other s) x (tr.value y) n ne,
            x_first,
          ));
    full = λ v some_root. ground (arith, t.new_root, r.full v, r.full v, below_x, n);
    split = λ side p v. both_sides Split s Split-near Split-far side p v;
  }
