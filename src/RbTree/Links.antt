-- ===== src/RbTree/Links.antt =====
-- The invariants of the tree: its links, and the order of its values. They speak of a node and its
-- neighbours only; what they say of a whole subtree goes through the values that it admits.
use c_algorithm.Base.{
  ℕ, ◌≡◌, ◌≢◌, ◌⊎◌, sym, ap, arith, Bool, true, false, ◌&&◌, pos, is_pos, is_neg, Value,
}
use c_algorithm.Order.{Compare}
use c_algorithm.RbTree.{RbTree, Side, lhs, rhs, other, leaf}

-- what the tree needs of a COMPARE
pub record IsThreeWay (cmp : Compare) : Type 0 where
  pub flip : (a b : Value) → is_neg (cmp a b) ≡ is_pos (cmp b a)
  pub trans :
      (a b c : Value) → is_neg (cmp a b) ≡ true → is_neg (cmp b c) ≡ true → is_neg (cmp a c) ≡ true
  pub same_neg : (a b c : Value) → cmp a b ≡ pos 0 → is_neg (cmp a c) ≡ is_neg (cmp b c)
  pub same_pos : (a b c : Value) → cmp a b ≡ pos 0 → is_pos (cmp a c) ≡ is_pos (cmp b c)

-- `v` belongs on the side `s` of `w`
abbrev pub before : Compare → Side → Value → Value → Bool
before cmp lhs v w = is_neg (cmp v w)
before cmp rhs v w = is_pos (cmp v w)

pub before_irrefl :
    (cmp : Compare) → IsThreeWay cmp → (s : Side) (v : Value) → before cmp s v v ≡ false
before_irrefl cmp o lhs v = ground (arith, o.flip v v)
before_irrefl cmp o rhs v = ground (arith, o.flip v v)

pub before_flip :
    (cmp : Compare)
    → IsThreeWay cmp
    → (s : Side) (v w : Value) → before cmp s v w ≡ before cmp (other s) w v
before_flip cmp o lhs v w = o.flip v w
before_flip cmp o rhs v w = sym (o.flip w v)

pub before_trans :
    (cmp : Compare)
    → IsThreeWay cmp
    → (s : Side) (u v w : Value) → before cmp s u v ≡ true
    → before cmp s v w ≡ true
    → before cmp s u w ≡ true
before_trans cmp o lhs u v w a b = o.trans u v w a b
before_trans cmp o rhs u v w a b = ground (arith, o.flip v u, o.flip w v, o.flip w u, o.trans w v u)

module _ (tr : RbTree) where
  abbrev pub IsNode : ℕ → Type 0
  IsNode p = (tr.allocated p ≡ true) × (p ≢ leaf)

  -- A child points back to its parent, is not the root, and is a child once; a node but the root is
  -- a child of its parent.
  pub record Linked : Type 0 where
    pub leaf_there : tr.allocated leaf ≡ true
    pub no_null : tr.allocated 0 ≡ false
    pub root_there : tr.allocated tr.root ≡ true
    pub down :
        (s : Side) (p : ℕ)
        → IsNode p
        → tr.child s p ≢ leaf
        → (tr.allocated (tr.child s p) ≡ true)
          × (tr.parent (tr.child s p) ≡ p)
          × (tr.child s p ≢ tr.root)
    pub apart :
        (s : Side) (p : ℕ) → IsNode p → tr.child s p ≢ leaf → tr.child s p ≢ tr.child (other s) p
    pub up :
        (p : ℕ)
        → IsNode p
        → p ≢ tr.root
        → IsNode (tr.parent p)
          × ((tr.child lhs (tr.parent p) ≡ p) ⊎ (tr.child rhs (tr.parent p) ≡ p))

  -- `admits p v`: the way from the root to `v` leads through `p`
  pub record Ordered (cmp : Compare) (admits : ℕ → Value → Bool) : Type 0 where
    pub own : (p : ℕ) → IsNode p → admits p (tr.value p) ≡ true
    pub full : (v : Value) → tr.root ≢ leaf → admits tr.root v ≡ true
    pub split :
        (s : Side) (p : ℕ) (v : Value)
        → IsNode p
        → tr.child s p ≢ leaf
        → admits (tr.child s p) v ≡ (admits p v && before cmp s v (tr.value p))

module _ (cmp : Compare) (o : IsThreeWay cmp) (tr : RbTree) (admits : ℕ → Value → Bool)
    (l : Linked tr) (r : Ordered tr cmp admits) where
  -- what stands below a node is not the node
  pub child_ne : (s : Side) (p : ℕ) → IsNode tr p → tr.child s p ≢ leaf → tr.child s p ≢ p
  child_ne s p n ne same =
      let c : IsNode tr (tr.child s p) = ((l.down s p n ne).0, ne) in
      ground (
        arith,
        r.own (tr.child s p) c,
        r.split s p (tr.value (tr.child s p)) n ne,
        before_irrefl cmp o s (tr.value p),
        ap tr.value same,
      )

  pub grandchild_ne :
      (s t : Side) (p : ℕ)
      → IsNode tr p
      → tr.child s p ≢ leaf
      → tr.child t (tr.child s p) ≢ leaf
      → tr.child t (tr.child s p) ≢ p
  grandchild_ne s t p n ne ne' same =
      let c : IsNode tr (tr.child s p) = ((l.down s p n ne).0, ne) in
      let d : IsNode tr (tr.child t (tr.child s p)) = ((l.down t (tr.child s p) c ne').0, ne') in
      let w = tr.value (tr.child t (tr.child s p)) in
      ground (
        arith,
        r.own (tr.child t (tr.child s p)) d,
        r.split t (tr.child s p) w c ne',
        r.split s p w n ne,
        before_irrefl cmp o s (tr.value p),
        ap tr.value same,
      )
