-- ===== src/RbTree/RoundTrip.antt =====
-- rbtree_set, then rbtree_get.
use c_algorithm.Base.{
  ℕ, suc, ◌+◌, ◌*◌, ◌<◌, ◌≡◌, ◌≢◌, ◌∙◌, sym, ap, inl, inr, refl, arith, ◌==◌, ==→eq, Bool, true,
  false, Bool-cases, Value, pos, is_pos, is_neg, ok, Returns, Returns-bind, Returns-map, Returns-ok,
  ◌>>=◌,
}
use c_algorithm.Order.{Compare}
use c_algorithm.RbTree.{RbTree, leaf, rbtree_set, rbtree_get, open_rbtree}
use c_algorithm.RbTree.Links.{IsThreeWay, IsNode}
use c_algorithm.RbTree.Search.{IsGot, rbtree_get-holds, ℤ-cases}
use c_algorithm.RbTree.Balanced.{Balanced}
use c_algorithm.RbTree.Attach.{IsFresh}
use c_algorithm.RbTree.Insert.{IsWritten, rbtree_set-IsWritten}

-- open_rbtree gives a balanced tree
pub open_rbtree-Balanced : (cmp : Compare) → Balanced cmp open_rbtree 0 0 × IsFresh open_rbtree
unfolding open_rbtree
open_rbtree-Balanced cmp =
    let no_node : (q : ℕ) → ¬ IsNode open_rbtree q = λ q m. ground (arith, m) in
    (
      record {
        admits = λ q v. true;
        height = λ q. 0;
        linked = record {
          leaf_there = refl;
          no_null = refl;
          root_there = refl;
          down = λ s q m. absurd (no_node q m);
          apart = λ s q m. absurd (no_node q m);
          up = λ q m. absurd (no_node q m);
        };
        ordered = record {
          own = λ q m. refl;
          full = λ v ne. refl;
          split = λ s q v m. absurd (no_node q m);
        };
        coloured = record {
          leaf_black = refl;
          leaf_height = refl;
          bounded = λ q m. absurd (no_node q m);
          even = λ s q m. absurd (no_node q m);
          no_red_red = λ s q m. absurd (no_node q m);
          root_black = λ ne. refl;
        };
      },
      λ q le. ground (arith, le),
    )

module _ (cmp : Compare) (o : IsThreeWay cmp) where
  pub self_same : (v : Value) → cmp v v ≡ pos 0
  self_same v = elim (ℤ-cases (cmp v v)) [
    | inl e ↦ e
    | inr (inl (n, e)) ↦ absurd (ground (arith, o.flip v v, ap is_pos e, ap is_neg e))
    | inr (inr (n, e)) ↦ absurd (ground (arith, o.flip v v, ap is_pos e, ap is_neg e))
  ]

  pub same_trans : (a b c : Value) → cmp a b ≡ pos 0 → cmp c b ≡ pos 0 → cmp a c ≡ pos 0
  same_trans a b c e e' =
      let neg : is_neg (cmp a c) ≡ false = o.same_neg a b c e ∙ o.flip b c ∙ rw e' refl in
      let pos' : is_pos (cmp a c) ≡ false = o.same_pos a b c e ∙ sym (o.flip c b) ∙ rw e' refl in
      elim (ℤ-cases (cmp a c)) [
        | inl z ↦ z
        | inr (inl (n, z)) ↦ absurd (ground (arith, pos', ap is_pos z))
        | inr (inr (n, z)) ↦ absurd (ground (arith, neg, ap is_neg z))
      ]

  -- the node that rbtree_set writes
  pub IsWritten-node :
      (tr : RbTree) (bound : ℕ) (v : Value) (tr' : RbTree)
      → tr.allocated leaf ≡ true
      → IsWritten cmp v tr bound tr'
      → (q : ℕ) × IsNode tr' q × (tr'.value q ≡ v)
  IsWritten-node tr bound v tr' there h = elim h.nodes.1 [
    | inl (n, e, value, allocated, len) ↦
        (h.nodes.0, (allocated _ ∙ n.0, n.1), value _ ∙ ground arith)
    | inr (miss, new, value, allocated, len) ↦ (
      h.nodes.0,
      (allocated _ ∙ ground arith, λ e. ground (arith, ap tr.allocated e, there, new)),
      value _ ∙ ground arith,
    )
  ]

  -- a node with a key that compares otherwise is one before and after
  abbrev Has : RbTree → Value → ℕ → Value → Type 0
  Has tr key k u = IsNode tr k × (tr.value k ≡ u) × (cmp key u ≡ pos 0)

  IsWritten-other :
      (tr : RbTree) (bound : ℕ) (v : Value) (tr' : RbTree)
      → IsWritten cmp v tr bound tr'
      → (key : Value) → cmp key v ≢ pos 0
      → (k : ℕ) (u : Value)
      → (Has tr key k u → Has tr' key k u) × (Has tr' key k u → Has tr key k u)
  IsWritten-other tr bound v tr' h key differ k u = elim h.nodes.1 [
    | inl (n, e, value, allocated, len) ↦ elim (Bool-cases (k == h.nodes.0)) [
      | inl same ↦
          let not_there : Has tr key k u → ⊥ = λ (m, at_k, found). differ (
            same_trans key (tr.value h.nodes.0) v
              (ap (cmp key) (ap tr.value (sym (==→eq _ _ same)) ∙ at_k) ∙ found) e) in
          (
            (λ m. absurd (not_there m)),
            (λ (m, at_k, found).
                absurd (differ (ap (cmp key) (sym (value k ∙ rw same refl) ∙ at_k) ∙ found))),
          )
      | inr apart ↦ (
        (λ (m, at_k, found). ((allocated k ∙ m.0, m.1), value k ∙ rw apart at_k, found)),
        (λ (m, at_k, found).
            ((sym (allocated k) ∙ m.0, m.1), sym (value k ∙ rw apart refl) ∙ at_k, found)),
      )
    ]
    | inr (miss, new, value, allocated, len) ↦ elim (Bool-cases (k == h.nodes.0)) [
      | inl same ↦ (
        (λ (m, at_k, found). absurd (ground (arith, m, new, ap tr.allocated (==→eq _ _ same)))),
        (λ (m, at_k, found).
            absurd (differ (ap (cmp key) (sym (value k ∙ rw same refl) ∙ at_k) ∙ found))),
      )
      | inr apart ↦ (
        (λ (m, at_k, found). ((allocated k ∙ rw apart m.0, m.1), value k ∙ rw apart at_k, found)),
        (λ (m, at_k, found). (
          (sym (allocated k ∙ rw apart refl) ∙ m.0, m.1),
          sym (value k ∙ rw apart refl) ∙ at_k,
          found,
        )),
      )
    ]
  ]

  -- rbtree_set, then rbtree_get with the value as the key, gives the value.
  pub rbtree_set-rbtree_get :
      (tr : RbTree) (bound : ℕ)
      → Balanced cmp tr bound 0
      → IsFresh tr
      → (v : Value) (fuel : ℕ) → 2 * suc bound + 1 < fuel
      → tr.room ≢ 0
      → Returns
          (λ r. Path (Value × Bool) r (v, true))
          (rbtree_set cmp tr v fuel >>= λ tr'. rbtree_get cmp tr' v fuel)
  rbtree_set-rbtree_get tr bound b fresh v fuel enough some_room =
      Returns-bind (rbtree_set-IsWritten cmp o tr bound b fresh v fuel (omega arith) some_room)
        λ tr' h.
          let b' = h.balanced in
          Returns-map
            (rbtree_get-holds cmp o tr' b'.admits b'.height (suc bound) b'.linked b'.ordered
              b'.coloured v fuel enough)
            λ (u, found) g. read tr' h u found g
    where
      read :
          (tr' : RbTree)
          → IsWritten cmp v tr bound tr'
          → (u : Value) (found : Bool) → IsGot cmp tr' v u found
          → Path (Value × Bool) (u, found) (v, true)
      read tr' h u true (q, m, at_q, same, unique) =
          let (k, n, at_k) = IsWritten-node tr bound v tr' b.linked.leaf_there h in
          let here : k ≡ q = unique k n (ap (cmp v) at_k ∙ self_same v) in
          ap (λ w. (w, true)) (sym at_q ∙ ap tr'.value (sym here) ∙ at_k)
      read tr' h u false (none, miss) =
          let (k, n, at_k) = IsWritten-node tr bound v tr' b.linked.leaf_there h in
          absurd (miss k n (ap (cmp v) at_k ∙ self_same v))

  -- two trees with the same nodes for a key give the same answer
  IsGot_unique :
      (tr tr' : RbTree) (key : Value)
      → ((k : ℕ) (u : Value)
          → (Has tr key k u → Has tr' key k u) × (Has tr' key k u → Has tr key k u))
      → (u u' : Value) (found found' : Bool) → IsGot cmp tr key u found
      → IsGot cmp tr' key u' found'
      → Path (Value × Bool) (u', found') (u, found)
  IsGot_unique tr tr' key agree u u' true true (q, m, at_q, same, unique)
        (k, n, at_k, same', unique') =
      let there = (agree k u').1 (n, at_k, same') in
      let here : k ≡ q = unique k there.0 (ap (cmp key) there.1 ∙ same') in
      ap (λ w. (w, true)) (sym there.1 ∙ ap tr.value here ∙ at_q)
  IsGot_unique tr tr' key agree u u' true false (q, m, at_q, same, unique) (none', miss') =
      let there = (agree q u).0 (m, at_q, same) in
      absurd (miss' q there.0 (ap (cmp key) there.1 ∙ same))
  IsGot_unique tr tr' key agree u u' false true (none, miss) (k, n, at_k, same', unique') =
      let there = (agree k u').1 (n, at_k, same') in
      absurd (miss k there.0 (ap (cmp key) there.1 ∙ same'))
  IsGot_unique tr tr' key agree u u' false false (none, miss) (none', miss') =
      ap (λ w. (w, false)) (none' ∙ sym none)

  -- rbtree_set changes nothing for a key that compares as different.
  pub rbtree_set-other_keys :
      (tr : RbTree) (bound : ℕ)
      → Balanced cmp tr bound 0
      → IsFresh tr
      → (v key : Value) (fuel : ℕ) → 2 * suc bound + 1 < fuel
      → tr.room ≢ 0
      → cmp key v ≢ pos 0
      → Returns
          (λ tr'. rbtree_get cmp tr' key fuel ≡ rbtree_get cmp tr key fuel)
          (rbtree_set cmp tr v fuel)
  rbtree_set-other_keys tr bound b fresh v key fuel enough some_room differ =
      Returns-map (rbtree_set-IsWritten cmp o tr bound b fresh v fuel (omega arith) some_room)
        λ tr' h.
          let b' = h.balanced in
          let before = Returns-ok (
            rbtree_get-holds cmp o tr b.admits b.height bound b.linked b.ordered b.coloured key fuel
              (omega arith)) in
          let after = Returns-ok (
            rbtree_get-holds cmp o tr' b'.admits b'.height (suc bound) b'.linked b'.ordered
              b'.coloured key fuel enough) in
          after.1
          ∙ ap ok (
              IsGot_unique tr tr' key (IsWritten-other tr bound v tr' h key differ) before.0.0
                after.0.0 before.0.1 after.0.1 before.2 after.2)
          ∙ sym before.1
