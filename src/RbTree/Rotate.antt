-- ===== src/RbTree/Rotate.antt =====
-- rbtree_left_rotate and rbtree_right_rotate: the fields after a rotation.
use c_algorithm.Base.{
  ℕ, ◌≡◌, ◌≢◌, ◌⊎◌, ◌∙◌, sym, ap, inl, inr, arith, ◌==◌, ==→ne, if◌then◌else◌, Bool, false,
  Bool-cases, Value, Returns, returns,
}
use c_algorithm.Order.{Compare}
use c_algorithm.RbTree.{RbTree, Side, other, leaf, rotate}
use c_algorithm.RbTree.Sides.{same_side_self, same_side-other, same_side_flipped, up_side}
use c_algorithm.RbTree.Links.{IsThreeWay, IsNode, Linked, Ordered, child_ne, grandchild_ne}

-- The tree after a rotation of `x` with its child `y`: what hung between them changes its parent,
-- `y` takes the place of `x`, and `x` becomes a child of `y`.
pub record Rotated (s : Side) (x y : ℕ) (tr tr' : RbTree) : Type 0 where
  pub same_value : (q : ℕ) → tr'.value q ≡ tr.value q
  pub same_red : (q : ℕ) → tr'.red q ≡ tr.red q
  pub same_allocated : (q : ℕ) → tr'.allocated q ≡ tr.allocated q
  pub same_rest : (tr'.unused ≡ tr.unused) × (tr'.room ≡ tr.room) × (tr'.length ≡ tr.length)
  pub leaf_parent : tr'.parent leaf ≡ tr.parent leaf
  pub new_root : tr'.root ≡ (if x == tr.root then y else tr.root)
  pub near :
      (q : ℕ)
      → IsNode tr q
      → tr'.child s q ≡ (if q == y then x else if tr.child s q == x then y else tr.child s q)
  pub far :
      (q : ℕ)
      → IsNode tr q
      → tr'.child (other s) q ≡ (
          if q == x
          then tr.child s y
          else if tr.child (other s) q == x
          then y
          else tr.child (other s) q)
  pub parents :
      (q : ℕ)
      → IsNode tr q
      → tr'.parent q ≡ (
          if q == x
          then y
          else if q == y
          then tr.parent x
          else if q == tr.child s y
          then x
          else tr.parent q)

module _ (cmp : Compare) (o : IsThreeWay cmp) (tr : RbTree) (admits : ℕ → Value → Bool)
    (l : Linked tr) (r : Ordered tr cmp admits) (s : Side) (x : ℕ) (n : IsNode tr x)
    (ne : tr.child (other s) x ≢ leaf) where
  abbrev pub y : ℕ
  y = tr.child (other s) x

  pub y_node : IsNode tr y
  y_node = ((l.down (other s) x n ne).0, ne)

  pub y-ne-x : y ≢ x
  y-ne-x = child_ne cmp o tr admits l r (other s) x n ne

  -- the parent of a node that is not the root, and its side
  pub parent_facts :
      x ≢ tr.root
      → (tr.parent x ≢ x)
        × (tr.parent x ≢ y)
        × (((tr.child s (tr.parent x) ≡ x) × (tr.child (other s) (tr.parent x) ≢ x))
            ⊎ ((tr.child s (tr.parent x) ≢ x) × (tr.child (other s) (tr.parent x) ≡ x)))
  parent_facts top =
      let u = l.up x n top in
      let p_node = u.0 in
      elim (up_side (λ t. tr.child t (tr.parent x)) s u.1) [
        | inl e ↦
            let some_child : tr.child s (tr.parent x) ≢ leaf = λ e'. n.1 (sym e ∙ e') in
            (
              (λ e'. child_ne cmp o tr admits l r s (tr.parent x) p_node some_child (e ∙ sym e')),
              (λ e'.
                  grandchild_ne cmp o tr admits l r s (other s) (tr.parent x) p_node some_child
                    (λ e2. ne (ap (tr.child (other s)) (sym e) ∙ e2))
                    (ap (tr.child (other s)) e ∙ sym e')),
              inl (e, λ e2. l.apart s (tr.parent x) p_node some_child (e ∙ sym e2)),
            )
        | inr e ↦
            let some_child : tr.child (other s) (tr.parent x) ≢ leaf = λ e'. n.1 (sym e ∙ e') in
            (
              (λ e'.
                  child_ne cmp o tr admits l r (other s) (tr.parent x) p_node some_child
                    (e ∙ sym e')),
              (λ e'.
                  grandchild_ne cmp o tr admits l r (other s) (other s) (tr.parent x) p_node
                    some_child (λ e2. ne (ap (tr.child (other s)) (sym e) ∙ e2))
                    (ap (tr.child (other s)) e ∙ sym e')),
              inr (
                (λ e2. l.apart s (tr.parent x) p_node (λ e'. n.1 (sym e2 ∙ e')) (e2 ∙ sym e)),
                e,
              ),
            )
      ]

  pub rotate-Rotated : Returns (Rotated s x y tr) (rotate s x tr)
  unfolding rotate
  rotate-Rotated =
      let d = l.down (other s) x n ne in
      let y_inner : (y == leaf) ≡ false = ground (arith, ne) in
      let self = same_side_self s in
      let not_other = same_side-other s in
      let other_not = same_side_flipped s in
      let self' = same_side_self (other s) in
      let z = y-ne-x in
      rw (n.0, y_inner, d.0)
        (elim (Bool-cases (tr.child s y == leaf)) [
          | inl b ↦ rw b (elim (Bool-cases (x == tr.root)) [
            | inl top ↦ rw top (
                returns (record {
                  same_value = λ q. ground arith;
                  same_red = λ q. ground arith;
                  same_allocated = λ q. ground arith;
                  same_rest = ground arith;
                  leaf_parent = ground (arith, n, y_node, b);
                  new_root = ground arith;
                  near = λ q m. ground (arith, l.down s q m);
                  far = λ q m. ground (arith, l.down (other s) q m);
                  parents = λ q m. ground arith;
                }))
            | inr inner ↦
                let u = l.up x n (==→ne _ _ inner) in
                let f = parent_facts (==→ne _ _ inner) in
                rw (inner, u.0.0)
                  (returns (record {
                    same_value = λ q. ground arith;
                    same_red = λ q. ground arith;
                    same_allocated = λ q. ground arith;
                    same_rest = ground arith;
                    leaf_parent = ground (arith, n, y_node, b);
                    new_root = ground arith;
                    near = λ q m. ground (arith, l.down s q m, f);
                    far = λ q m. ground (arith, l.down (other s) q m, f);
                    parents = λ q m. ground arith;
                  }))
          ])
          | inr b ↦
              rw (b, (l.down s y y_node (==→ne _ _ b)).0)
                (elim (Bool-cases (x == tr.root)) [
                  | inl top ↦ rw top (
                      returns (record {
                        same_value = λ q. ground arith;
                        same_red = λ q. ground arith;
                        same_allocated = λ q. ground arith;
                        same_rest = ground arith;
                        leaf_parent = ground (arith, n, y_node, b);
                        new_root = ground arith;
                        near = λ q m. ground (arith, l.down s q m);
                        far = λ q m. ground (arith, l.down (other s) q m);
                        parents = λ q m. ground arith;
                      }))
                  | inr inner ↦
                      let u = l.up x n (==→ne _ _ inner) in
                      let f = parent_facts (==→ne _ _ inner) in
                      rw (inner, u.0.0)
                        (returns (record {
                          same_value = λ q. ground arith;
                          same_red = λ q. ground arith;
                          same_allocated = λ q. ground arith;
                          same_rest = ground arith;
                          leaf_parent = ground (arith, n, y_node, b);
                          new_root = ground arith;
                          near = λ q m. ground (arith, l.down s q m, f);
                          far = λ q m. ground (arith, l.down (other s) q m, f);
                          parents = λ q m. ground arith;
                        }))
                ])
        ])
