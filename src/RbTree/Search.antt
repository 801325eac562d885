-- ===== src/RbTree/Search.antt =====
-- rbtree_fast_get and rbtree_get.
use c_algorithm.Base.{
  ℕ, zero, suc, ◌+◌, ◌*◌, ◌<◌, ◌≡◌, ◌≢◌, ◌⊎◌, ◌∙◌, sym, ap, inl, inr, refl, arith, ◌==◌, ==→eq,
  ==→ne, if◌then◌else◌, Bool, true, false, Bool-cases, ℤ, pos, negsuc, Value, empty_value, Returns,
  returns, Returns-bind,
}
use c_algorithm.Order.{Compare}
use c_algorithm.RbTree.{
  RbTree, Side, lhs, rhs, leaf, Where, at_root, at_child, target, get_loop, fast_get, rbtree_get,
}
use c_algorithm.RbTree.Links.{IsThreeWay, before, IsNode, Linked, Ordered}
use c_algorithm.RbTree.Colours.{Coloured}

-- `q` stands below `p`, or is `p`
pub data Below (tr : RbTree) (p : ℕ) : ℕ → Type 0 where
  here : Below tr p p
  under : (q : ℕ) → IsNode tr q → q ≢ tr.root → Below tr p (tr.parent q) → Below tr p q

-- what a search for the key gives: its node, with the parent of it, or the place for it
pub record Found (cmp : Compare) (tr : RbTree) (admits : ℕ → Value → Bool) (key : Value) (w : Where)
    (p : ℕ) : Type 0 where
  pub hit :
      target w tr ≢ leaf → IsNode tr (target w tr) × (cmp key (tr.value (target w tr)) ≡ pos 0)
  pub miss : target w tr ≡ leaf → (q : ℕ) → IsNode tr q → cmp key (tr.value q) ≢ pos 0
  pub place :
      target w tr ≡ leaf
      → ((w ≡ at_root) × (p ≡ 0))
        ⊎ ((s : Side) × (w ≡ at_child s p)
            × IsNode tr p
            × (admits p key ≡ true)
            × (before cmp s key (tr.value p) ≡ true))
  pub admitted : target w tr ≢ leaf → admits (target w tr) key ≡ true
  pub unique :
      target w tr ≢ leaf → (q : ℕ) → IsNode tr q → cmp key (tr.value q) ≡ pos 0 → q ≡ target w tr

-- the answer of rbtree_get: the value and the flag
abbrev pub IsGot : Compare → RbTree → Value → Value → Bool → Type 0
IsGot cmp tr key v true =
    (q : ℕ) × IsNode tr q
    × (tr.value q ≡ v)
    × (cmp key v ≡ pos 0)
    × ((k : ℕ) → IsNode tr k → cmp key (tr.value k) ≡ pos 0 → k ≡ q)
IsGot cmp tr key v false =
    (v ≡ empty_value) × ((q : ℕ) → IsNode tr q → cmp key (tr.value q) ≢ pos 0)

pub ℤ-cases : (z : ℤ) → (z ≡ pos 0) ⊎ (((n : ℕ) × (z ≡ pos (suc n))) ⊎ ((n : ℕ) × (z ≡ negsuc n)))
ℤ-cases (pos zero) = inl refl
ℤ-cases (pos (suc n)) = inr (inl (n, refl))
ℤ-cases (negsuc n) = inr (inr (n, refl))

module _ (cmp : Compare) (o : IsThreeWay cmp) (tr : RbTree) (admits : ℕ → Value → Bool)
    (height : ℕ → ℕ) (bound : ℕ) (l : Linked tr) (r : Ordered tr cmp admits)
    (c : Coloured tr height bound 0) where
  -- how far a node is from the leaves, at most
  abbrev pub rank : ℕ → ℕ
  rank p = 2 * height p + (if tr.red p then 1 else 0)

  pub rank-child : (s : Side) (p : ℕ) → IsNode tr p → rank (tr.child s p) < rank p
  rank-child s p n =
      let some_child : tr.child s p ≢ 0 = λ e. elim (Bool-cases (tr.child s p == leaf)) [
        | inl x ↦ absurd (omega (arith, e, ==→eq _ _ x))
        | inr x ↦ absurd (ground (arith, l.down s p n (==→ne _ _ x), l.no_null, ap tr.allocated e))
      ] in
      ground (arith, c.even s p n, c.no_red_red s p n)

  pub Below-root : (fuel q : ℕ) → IsNode tr q → 2 * bound + 1 < fuel + rank q → Below tr tr.root q
  Below-root zero q n h = absurd (ground (arith, c.bounded q n))
  Below-root (suc fuel) q n h = elim (Bool-cases (q == tr.root)) [
    | inl e ↦ let same : q ≡ tr.root = ==→eq _ _ e in rw same here
    | inr e ↦
        let u = l.up q n (==→ne _ _ e) in
        under q n (==→ne _ _ e) (
          Below-root fuel (tr.parent q) u.0 (elim u.1 [
            | inl x ↦ ground (arith, rank-child lhs (tr.parent q) u.0, ap rank x)
            | inr x ↦ ground (arith, rank-child rhs (tr.parent q) u.0, ap rank x)
          ]))
  ]

  -- a node below another is it, or stands below one of its children
  pub Below-child :
      (p q : ℕ)
      → Below tr p q
      → (q ≡ p) ⊎ ((s : Side) × (tr.child s p ≢ leaf) × Below tr (tr.child s p) q)
  Below-child p q here = inl refl
  Below-child p q (under _ n ne b) = elim (Below-child p (tr.parent q) b) [
    | inl e ↦
        let u = l.up q n ne in
        elim u.1 [
          | inl x ↦
              let same : tr.child lhs p ≡ q = ap (tr.child lhs) (sym e) ∙ x in
              inr (lhs, (λ e'. n.1 (sym same ∙ e')), rw same here)
          | inr x ↦
              let same : tr.child rhs p ≡ q = ap (tr.child rhs) (sym e) ∙ x in
              inr (rhs, (λ e'. n.1 (sym same ∙ e')), rw same here)
        ]
    | inr (s, ne', b') ↦ inr (s, ne', under q n ne b')
  ]

  -- what stands below a node is admitted by it
  Below-admits :
      (p q : ℕ) → Below tr p q → IsNode tr p → (v : Value) → admits q v ≡ true → admits p v ≡ true
  Below-admits p q here m v a = a
  Below-admits p q (under _ n ne b) m v a =
      let u = l.up q n ne in
      Below-admits p (tr.parent q) b m v (elim u.1 [
        | inl x ↦
            ground (
              arith,
              r.split lhs (tr.parent q) v u.0 (λ e. n.1 (sym x ∙ e)),
              ap (λ t. admits t v) x,
            )
        | inr x ↦
            ground (
              arith,
              r.split rhs (tr.parent q) v u.0 (λ e. n.1 (sym x ∙ e)),
              ap (λ t. admits t v) x,
            )
      ])

  -- a node with the key below `p` stands on the side of the key
  Below-side :
      (key : Value) (s : Side) (p q : ℕ)
      → IsNode tr p
      → IsNode tr q
      → before cmp s key (tr.value p) ≡ true
      → cmp key (tr.value q) ≡ pos 0
      → Below tr p q
      → (tr.child s p ≢ leaf) × Below tr (tr.child s p) q
  Below-side key s p q n m side found b = elim (Below-child p q b) [
    | inl e ↦ absurd (equal_key s side (ap (λ t. cmp key (tr.value t)) (sym e) ∙ found))
    | inr (t, ne, b') ↦
        let child_node : IsNode tr (tr.child t p) = ((l.down t p n ne).0, ne) in
        let admitted = Below-admits (tr.child t p) q b' child_node (tr.value q) (r.own q m) in
        let right_side : before cmp t (tr.value q) (tr.value p) ≡ true =
          ground (arith, admitted, r.split t p (tr.value q) n ne) in
        same_side s t side right_side ne b'
  ]
    where
      equal_key :
          (s : Side) → before cmp s key (tr.value p) ≡ true → ¬ (cmp key (tr.value p) ≡ pos 0)
      equal_key lhs side e = ground (arith, side, e)
      equal_key rhs side e = ground (arith, side, e)

      same_side :
          (s t : Side)
          → before cmp s key (tr.value p) ≡ true
          → before cmp t (tr.value q) (tr.value p) ≡ true
          → tr.child t p ≢ leaf
          → Below tr (tr.child t p) q
          → (tr.child s p ≢ leaf) × Below tr (tr.child s p) q
      same_side lhs lhs a b ne b' = (ne, b')
      same_side rhs rhs a b ne b' = (ne, b')
      same_side lhs rhs a b ne b' =
          absurd (ground (arith, o.same_pos key (tr.value q) (tr.value p) found, a, b))
      same_side rhs lhs a b ne b' =
          absurd (ground (arith, o.same_neg key (tr.value q) (tr.value p) found, a, b))

  -- what is true when the loop stands at the node `p`
  record Searching (key : Value) (w : Where) (p : ℕ) : Type 0 where
    is_node : IsNode tr p
    at_target : target w tr ≡ p
    admitted : admits p key ≡ true
    below : (q : ℕ) → IsNode tr q → cmp key (tr.value q) ≡ pos 0 → Below tr p q

  Searching-down :
      (key : Value) (w : Where) (s : Side) (p : ℕ)
      → Searching key w p
      → before cmp s key (tr.value p) ≡ true
      → tr.child s p ≢ leaf
      → Searching key (at_child s p) (tr.child s p)
  Searching-down key w s p h side ne = record {
    is_node = ((l.down s p h.is_node ne).0, ne);
    at_target = refl;
    admitted = ground (arith, r.split s p key h.is_node ne, h.admitted);
    below = λ q m found. (Below-side key s p q h.is_node m side found (h.below q m found)).1;
  }

  Searching-miss :
      (key : Value) (w : Where) (s : Side) (p : ℕ)
      → Searching key w p
      → before cmp s key (tr.value p) ≡ true
      → tr.child s p ≡ leaf
      → Found cmp tr admits key (at_child s p) p
  Searching-miss key w s p h side e = record {
    hit = λ ne. absurd (ne e);
    miss = λ e' q m found.
        absurd ((Below-side key s p q h.is_node m side found (h.below q m found)).0 e);
    place = λ e'. inr (s, refl, h.is_node, h.admitted, side);
    admitted = λ ne. absurd (ne e);
    unique = λ ne. absurd (ne e);
  }

  Searching-hit :
      (key : Value) (w : Where) (p t : ℕ)
      → Searching key w p
      → cmp key (tr.value p) ≡ pos 0
      → Found cmp tr admits key w t
  Searching-hit key w p t h e = record {
    hit = λ ne. rw h.at_target (h.is_node, e);
    miss = λ e'. absurd (h.is_node.1 (sym h.at_target ∙ e'));
    place = λ e'. absurd (h.is_node.1 (sym h.at_target ∙ e'));
    admitted = λ ne. rw h.at_target h.admitted;
    unique = λ ne q m found. rw h.at_target (alone q m found);
  }
    where
      not_before : (s : Side) (v : Value) → cmp key v ≡ pos 0 → before cmp s v (tr.value p) ≡ false
      not_before lhs v same = sym (o.same_neg key v (tr.value p) same) ∙ rw e refl
      not_before rhs v same = sym (o.same_pos key v (tr.value p) same) ∙ rw e refl

      alone : (q : ℕ) → IsNode tr q → cmp key (tr.value q) ≡ pos 0 → q ≡ p
      alone q m found = elim (Below-child p q (h.below q m found)) [
        | inl same ↦ same
        | inr (s, ne, b) ↦
            let n : IsNode tr (tr.child s p) = ((l.down s p h.is_node ne).0, ne) in
            absurd (
              ground (
                arith,
                Below-admits (tr.child s p) q b n (tr.value q) (r.own q m),
                r.split s p (tr.value q) h.is_node ne,
                not_before s (tr.value q) found,
              ))
      ]

  get_loop-Found :
      (key : Value) (fuel : ℕ) (w : Where) (p : ℕ)
      → Searching key w p
      → rank p < fuel
      → Returns (λ (w', t). Found cmp tr admits key w' t) (get_loop cmp tr key fuel w p)
  unfolding get_loop
  get_loop-Found key zero w p h enough = absurd (omega arith)
  get_loop-Found key (suc fuel) w p h enough =
      rw h.is_node.0 (elim (ℤ-cases (cmp key (tr.value p))) [
        | inl e ↦ rw e (returns (Searching-hit key w p (tr.parent p) h e))
        | inr (inl (n, e)) ↦
            let side : before cmp rhs key (tr.value p) ≡ true = rw e (ground arith) in
            rw e (elim (Bool-cases (tr.child rhs p == leaf)) [
              | inl x ↦ rw x (returns (Searching-miss key w rhs p h side (==→eq _ _ x)))
              | inr x ↦ rw x (
                  get_loop-Found key fuel (at_child rhs p) (tr.child rhs p)
                    (Searching-down key w rhs p h side (==→ne _ _ x))
                    (omega (arith, rank-child rhs p h.is_node)))
            ])
        | inr (inr (n, e)) ↦
            let side : before cmp lhs key (tr.value p) ≡ true = rw e refl in
            rw e (elim (Bool-cases (tr.child lhs p == leaf)) [
              | inl x ↦ rw x (returns (Searching-miss key w lhs p h side (==→eq _ _ x)))
              | inr x ↦ rw x (
                  get_loop-Found key fuel (at_child lhs p) (tr.child lhs p)
                    (Searching-down key w lhs p h side (==→ne _ _ x))
                    (omega (arith, rank-child lhs p h.is_node)))
            ])
      ])

  leads_to_leaf : (q : ℕ) → Below tr tr.root q → IsNode tr q → tr.root ≡ leaf → ⊥
  leads_to_leaf q here m e = m.1 e
  leads_to_leaf q (under _ n ne b) m e = leads_to_leaf (tr.parent q) b (l.up q n ne).0 e

  -- a tree with a node has a root
  pub rooted : (q : ℕ) → IsNode tr q → tr.root ≢ leaf
  rooted q m e = leads_to_leaf q (Below-root (suc (2 * bound + 1)) q m (omega arith)) m e

  -- rbtree_fast_get ends and gives the node whose value compares as equal to the key, or else,
  -- where no node's does, the place below the node where the order puts the key.
  pub fast_get-Found :
      (key : Value) (fuel : ℕ)
      → 2 * bound + 1 < fuel
      → Returns (λ (w, t). Found cmp tr admits key w t) (fast_get cmp tr key fuel)
  unfolding fast_get
  fast_get-Found key fuel enough = elim (Bool-cases (tr.root == leaf)) [
    | inl e ↦ rw e (
        returns (record {
          hit = λ ne. absurd (ne (==→eq _ _ e));
          miss = λ x q m found. absurd (ground (arith, rooted q m, ==→eq _ _ e));
          place = λ x. inl (refl, refl);
          admitted = λ ne. absurd (ne (==→eq _ _ e));
          unique = λ ne. absurd (ne (==→eq _ _ e));
        }))
    | inr e ↦
        let n : IsNode tr tr.root = (l.root_there, ==→ne _ _ e) in
        rw e (
          get_loop-Found key fuel at_root tr.root
            (record {
              is_node = n;
              at_target = refl;
              admitted = r.full key n.1;
              below = λ q m found. Below-root (suc (2 * bound + 1)) q m (omega arith);
            })
            (ground (arith, c.bounded tr.root n)))
  ]

  -- rbtree_get gives the value of the one node whose value compares as equal to the key and sets
  -- `*ok`, or, where there is none, gives EMPTY_VALUE and clears it.
  pub rbtree_get-holds :
      (key : Value) (fuel : ℕ)
      → 2 * bound + 1 < fuel
      → Returns (λ (v, found). IsGot cmp tr key v found) (rbtree_get cmp tr key fuel)
  unfolding rbtree_get
  rbtree_get-holds key fuel enough = Returns-bind (fast_get-Found key fuel enough) λ (w, t) f.
      elim (Bool-cases (target w tr == leaf)) [
        | inl e ↦ rw e (returns (refl, f.miss (==→eq _ _ e)))
        | inr e ↦
            let h = f.hit (==→ne _ _ e) in
            rw e (returns (target w tr, h.0, refl, h.1, f.unique (==→ne _ _ e)))
      ]
