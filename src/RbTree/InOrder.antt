-- ===== src/RbTree/InOrder.antt =====
-- The nodes of a tree from left to right.
use mathlib.Core.List.{Memᴰ}
use mathlib.Core.List.Memᴰ.{head, tail, append_left, append_right, append_cases}
use c_algorithm.Base.{
  ℕ, zero, suc, ◌+◌, ◌*◌, ◌<◌, ◌≡◌, ◌≢◌, ◌⊎◌, ◌∙◌, sym, subst, inl, inr, refl, arith, ◌==◌, ==→eq,
  ==→ne, true, Bool-cases, List, [], ◌∷◌, ◌++◌,
}
use c_algorithm.Order.{Compare}
use c_algorithm.RbTree.{RbTree, Side, lhs, rhs, leaf}
use c_algorithm.RbTree.Links.{IsThreeWay, before, before_flip, IsNode}
use c_algorithm.RbTree.Search.{Below, Below-child, Below-root, rank, rank-child, rooted}
use c_algorithm.RbTree.Balanced.{Balanced}

-- the nodes below `p`, from left to right
pub data IsTree (tr : RbTree) : ℕ → List ℕ → Type 0 where
  empty : (p : ℕ) → p ≡ leaf → IsTree tr p []
  branch :
      (p : ℕ) (l r all : List ℕ)
      → IsNode tr p
      → IsTree tr (tr.child lhs p) l
      → IsTree tr (tr.child rhs p) r
      → all ≡ (l ++ (p ∷ r))
      → IsTree tr p all

-- each value comes before the values after it
pub data IsAscending (cmp : Compare) (tr : RbTree) : List ℕ → Type 0 where
  nothing : IsAscending cmp tr []
  first :
      {q : ℕ} {qs : List ℕ}
      → ((k : ℕ) → Memᴰ k qs → before cmp lhs (tr.value q) (tr.value k) ≡ true)
      → IsAscending cmp tr qs
      → IsAscending cmp tr (q ∷ qs)

pub IsAscending-append :
    {cmp : Compare} {tr : RbTree} {xs ys : List ℕ}
    → IsAscending cmp tr xs
    → IsAscending cmp tr ys
    → ((j k : ℕ) → Memᴰ j xs → Memᴰ k ys → before cmp lhs (tr.value j) (tr.value k) ≡ true)
    → IsAscending cmp tr (xs ++ ys)
IsAscending-append nothing a between = a
IsAscending-append {xs = x ∷ xs} (first least rest) a between =
    first
      (λ k m. elim (append_cases xs m) [
        | inl m' ↦ least k m'
        | inr m' ↦ between x k (head refl) m'
      ])
      (IsAscending-append rest a (λ j k m m'. between j k (tail m) m'))

-- the nodes of the whole tree: in the order of their values, every one of them
pub record InOrder (cmp : Compare) (tr : RbTree) (qs : List ℕ) : Type 0 where
  pub tree : IsTree tr tr.root qs
  pub ascending : IsAscending cmp tr qs
  pub sound : (q : ℕ) → Memᴰ q qs → IsNode tr q
  pub complete : (q : ℕ) → IsNode tr q → Memᴰ q qs

IsTree-IsNode :
    {tr : RbTree} {p : ℕ} {qs : List ℕ} → IsTree tr p qs → (q : ℕ) → Memᴰ q qs → IsNode tr q
IsTree-IsNode {tr} (branch p l r all n t u e) q m = elim (append_cases l (subst (Memᴰ q) e m)) [
  | inl m' ↦ IsTree-IsNode t q m'
  | inr (head at_p) ↦ rw at_p n
  | inr (tail m') ↦ IsTree-IsNode u q m'
]
IsTree-IsNode (empty p e) q m = elim m [ ]

module _ (cmp : Compare) (o : IsThreeWay cmp) (tr : RbTree) (bound : ℕ)
    (b : Balanced cmp tr bound 0) where
  abbrev depth : ℕ → ℕ
  depth = rank cmp o tr b.admits b.height bound b.linked b.ordered b.coloured

  rank-IsTree :
      (fuel p : ℕ) → (p ≡ leaf) ⊎ IsNode tr p → depth p < fuel → (qs : List ℕ) × IsTree tr p qs
  rank-IsTree zero p there enough = absurd (omega arith)
  rank-IsTree (suc fuel) p (inl e) enough = ([], empty p e)
  rank-IsTree (suc fuel) p (inr n) enough =
      let l = rank-IsTree fuel (tr.child lhs p) (child_there lhs) (omega (arith, nearer lhs)) in
      let r = rank-IsTree fuel (tr.child rhs p) (child_there rhs) (omega (arith, nearer rhs)) in
      (l.0 ++ (p ∷ r.0), branch p l.0 r.0 _ n l.1 r.1 refl)
    where
      nearer : (s : Side) → depth (tr.child s p) < depth p
      nearer s = rank-child cmp o tr b.admits b.height bound b.linked b.ordered b.coloured s p n

      child_there : (s : Side) → (tr.child s p ≡ leaf) ⊎ IsNode tr (tr.child s p)
      child_there s = elim (Bool-cases (tr.child s p == leaf)) [
        | inl e ↦ inl (==→eq _ _ e)
        | inr e ↦ inr ((b.linked.down s p n (==→ne _ _ e)).0, ==→ne _ _ e)
      ]

  -- a listed node is admitted by the top of its tree
  IsTree-admits :
      (p : ℕ) (qs : List ℕ)
      → IsTree tr p qs
      → (q : ℕ) → Memᴰ q qs
      → (p ≢ leaf) × (b.admits p (tr.value q) ≡ true)
  IsTree-admits p qs (empty _ e) q m = elim m [ ]
  IsTree-admits p qs (branch _ l r all n t u e) q m = elim (append_cases l (subst (Memᴰ q) e m)) [
    | inl m' ↦
        let below = IsTree-admits (tr.child lhs p) l t q m' in
        (n.1, ground (arith, b.ordered.split lhs p (tr.value q) n below.0, below.1))
    | inr (head at_p) ↦ (n.1, rw at_p (b.ordered.own p n))
    | inr (tail m') ↦
        let below = IsTree-admits (tr.child rhs p) r u q m' in
        (n.1, ground (arith, b.ordered.split rhs p (tr.value q) n below.0, below.1))
  ]

  -- what is listed below a child lies on its side
  child_side :
      (s : Side) (p : ℕ) (qs : List ℕ)
      → IsNode tr p
      → IsTree tr (tr.child s p) qs
      → (q : ℕ) → Memᴰ q qs
      → before cmp s (tr.value q) (tr.value p) ≡ true
  child_side s p qs n t q m =
      let below = IsTree-admits (tr.child s p) qs t q m in
      ground (arith, b.ordered.split s p (tr.value q) n below.0, below.1)

  IsTree-IsAscending : (p : ℕ) (qs : List ℕ) → IsTree tr p qs → IsAscending cmp tr qs
  IsTree-IsAscending p qs (empty _ e) = nothing
  IsTree-IsAscending p qs (branch _ l r all n t u e) = rw e (
      IsAscending-append (IsTree-IsAscending (tr.child lhs p) l t)
        (first (λ k m. after k m) (IsTree-IsAscending (tr.child rhs p) r u))
        λ j k m m'. elim m' [
          | head at_p ↦ rw at_p (child_side lhs p l n t j m)
          | tail m2 ↦
              o.trans (tr.value j) (tr.value p) (tr.value k) (child_side lhs p l n t j m)
                (after k m2)
        ])
    where
      after : (k : ℕ) → Memᴰ k r → before cmp lhs (tr.value p) (tr.value k) ≡ true
      after k m = before_flip cmp o lhs (tr.value p) (tr.value k) ∙ child_side rhs p r n u k m

  IsTree-complete :
      (p : ℕ) (qs : List ℕ)
      → IsTree tr p qs
      → (q : ℕ) → IsNode tr q
      → Below tr p q
      → p ≢ leaf
      → Memᴰ q qs
  IsTree-complete p qs (empty _ e) q n w ne = absurd (ne e)
  IsTree-complete p qs (branch _ l r all m t u e) q n w ne =
      subst (Memᴰ q) (sym e)
        (elim (Below-child cmp o tr b.admits b.height bound b.linked b.ordered b.coloured p q w) [
          | inl at_p ↦ append_right l (head at_p)
          | inr (lhs, some_child, w') ↦
              append_left (p ∷ r) (IsTree-complete (tr.child lhs p) l t q n w' some_child)
          | inr (rhs, some_child, w') ↦
              append_right l (tail (IsTree-complete (tr.child rhs p) r u q n w' some_child))
        ])

  -- The nodes of a balanced tree can be listed from left to right; their values ascend, and every
  -- node is listed.
  pub Balanced-InOrder : (qs : List ℕ) × InOrder cmp tr qs
  Balanced-InOrder =
      let t = rank-IsTree (suc (depth tr.root)) tr.root root_there (omega arith) in
      (
        t.0,
        record {
          tree = t.1;
          ascending = IsTree-IsAscending tr.root t.0 t.1;
          sound = IsTree-IsNode t.1;
          complete = λ q n.
              let w =
                Below-root cmp o tr b.admits b.height bound b.linked b.ordered b.coloured
                  (suc (2 * bound + 1)) q n (omega arith) in
              IsTree-complete tr.root t.0 t.1 q n w
                (rooted cmp o tr b.admits b.height bound b.linked b.ordered b.coloured q n);
        },
      )
    where
      root_there : (tr.root ≡ leaf) ⊎ IsNode tr tr.root
      root_there = elim (Bool-cases (tr.root == leaf)) [
        | inl e ↦ inl (==→eq _ _ e)
        | inr e ↦ inr (b.linked.root_there, ==→ne _ _ e)
      ]
