-- ===== src/RbTree/Insert.antt =====
-- rbtree_set, from the search to the last recolouring.
use c_algorithm.Base.{
  ℕ, suc, ◌+◌, ◌*◌, ◌<◌, ◌≤◌, ◌≡◌, ◌≢◌, ◌⊎◌, ◌∙◌, sym, ap, inl, inr, refl, arith, ◌==◌, ==→eq,
  ==→ne, true, false, Bool-cases, if◌then◌else◌, Value, pos, Returns, returns, Returns-bind,
}
use c_algorithm.Order.{Compare}
use c_algorithm.RbTree.{RbTree, Side, leaf, target, open_node, fast_set, rbtree_set, set_red}
use c_algorithm.RbTree.Links.{IsThreeWay, IsNode, before}
use c_algorithm.RbTree.Search.{fast_get-Found, rooted}
use c_algorithm.RbTree.Balanced.{Balanced}
use c_algorithm.RbTree.Step.{Fixed, insert_fixup-Fixed}
use c_algorithm.RbTree.Blacken.{Balanced-mono, blackened-Balanced}
use c_algorithm.RbTree.Overwrite.{set_value-Balanced}
use c_algorithm.RbTree.First.{only-Balanced}
use c_algorithm.RbTree.Attach.{IsFresh, attached, attached-Balanced}

-- what rbtree_set does to the nodes: one has the value in place of an equal one, or a new one has it
abbrev pub IsReplaced : Compare → Value → RbTree → RbTree → ℕ → Type 0
IsReplaced cmp v tr tr' q =
    IsNode tr q
    × (cmp v (tr.value q) ≡ pos 0)
    × ((k : ℕ) → tr'.value k ≡ (if k == q then v else tr.value k))
    × ((k : ℕ) → tr'.allocated k ≡ tr.allocated k)
    × (tr'.length ≡ tr.length)

abbrev pub IsAdded : Compare → Value → RbTree → RbTree → ℕ → Type 0
IsAdded cmp v tr tr' q =
    ((k : ℕ) → IsNode tr k → cmp v (tr.value k) ≢ pos 0)
    × (tr.allocated q ≡ false)
    × ((k : ℕ) → tr'.value k ≡ (if k == q then v else tr.value k))
    × ((k : ℕ) → tr'.allocated k ≡ (if k == q then true else tr.allocated k))
    × (tr'.length ≡ tr.length + 1)

pub record IsWritten (cmp : Compare) (v : Value) (tr : RbTree) (bound : ℕ) (tr' : RbTree)
    : Type 0 where
  pub balanced : Balanced cmp tr' (suc bound) 0
  pub fresh : IsFresh tr'
  pub room : tr.room ≤ tr'.room + 1
  pub nodes : (q : ℕ) × (IsReplaced cmp v tr tr' q ⊎ IsAdded cmp v tr tr' q)

module _ (cmp : Compare) (o : IsThreeWay cmp) (tr : RbTree) (bound : ℕ)
    (b : Balanced cmp tr bound 0) (fresh : IsFresh tr) (v : Value) where
  abbrev z : ℕ
  z = tr.unused

  Fixed-IsWritten :
      (s : Side) (p : ℕ) (n : IsNode tr p) (free : tr.child s p ≡ leaf)
      (admitted : b.admits p v ≡ true) (side : before cmp s v (tr.value p) ≡ true)
      → ((k : ℕ) → IsNode tr k → cmp v (tr.value k) ≢ pos 0)
      → (tr' : RbTree) (x' : ℕ)
      → Fixed cmp o (attached cmp o tr bound b fresh v s p n free admitted side) tr' bound x'
      → IsWritten cmp v tr bound (set_red tr'.root false tr')
  Fixed-IsWritten s p n free admitted side miss tr' x' h = record {
    balanced = blackened-Balanced cmp tr' bound x' h.balanced h.node h.harmless;
    fresh = λ q le. h.same.same_allocated q ∙ ground (arith, h.same.same_rest, fresh q, le);
    room = ground (arith, h.same.same_rest);
    nodes = (
      z,
      inr (
        miss,
        fresh z (ground arith),
        (λ k. h.same.same_value k),
        (λ k. h.same.same_allocated k),
        h.same.same_rest.2,
      ),
    );
  }

  -- rbtree_set ends. The tree stays linked, ordered and balanced. Either a node whose value compared as
  -- equal has the new value, or there was none and a new node has it; no other value changes.
  pub rbtree_set-IsWritten :
      (fuel : ℕ)
      → 2 * bound + 1 < fuel
      → tr.room ≢ 0
      → Returns (IsWritten cmp v tr bound) (rbtree_set cmp tr v fuel)
  unfolding rbtree_set open_node fast_set
  rbtree_set-IsWritten fuel enough some_room =
      let room : (tr.room == 0) ≡ false = ground (arith, some_room) in
      Returns-bind
        (fast_get-Found cmp o tr b.admits b.height bound b.linked b.ordered b.coloured v fuel
          enough)
        λ (w, t) f. elim (Bool-cases (target w tr == leaf)) [
          | inl e ↦
              rw (e, room)
                (elim (f.place (==→eq _ _ e)) [
                  | inl (top, none) ↦
                      let empty : tr.root ≡ leaf = ap (λ k. target k tr) (sym top) ∙ ==→eq _ _ e in
                      let is_empty : (tr.root == leaf) ≡ true = rw empty refl in
                      let no_nodes : (q : ℕ) → ¬ IsNode tr q = λ q m.
                        rooted cmp o tr b.admits b.height bound b.linked b.ordered b.coloured q m
                          empty in
                      rw (top, none)
                        (rw is_empty (
                          returns (record {
                            balanced = Balanced-mono (omega arith) (
                                only-Balanced cmp tr b.linked.leaf_there b.linked.no_null
                                  b.coloured.leaf_black no_nodes fresh v);
                            fresh = λ q le. ground (arith, fresh q, le);
                            room = omega arith;
                            nodes = (
                              z,
                              inr (
                                (λ k m. absurd (no_nodes k m)),
                                fresh z (ground arith),
                                (λ k. refl),
                                (λ k. refl),
                                refl,
                              ),
                            );
                          })))
                  | inr (s, at, n, admitted, side) ↦
                      let free : tr.child s t ≡ leaf =
                        ap (λ k. target k tr) (sym at) ∙ ==→eq _ _ e in
                      let is_old : (t == tr.unused) ≡ false =
                        ground (arith, n, fresh tr.unused, ap tr.allocated) in
                      let is_free : (tr.child s t == leaf) ≡ true = rw free refl in
                      let a = attached-Balanced cmp o tr bound b fresh v s t n free admitted side in
                      rw at (
                        rw (is_old, n.0, is_free)
                          (Returns-bind
                            (insert_fixup-Fixed cmp o fuel
                              (attached cmp o tr bound b fresh v s t n free admitted side) bound z
                              a.0 a.1 (ground arith) (inl (omega arith)))
                            λ tr' (x', h). returns (
                              Fixed-IsWritten s t n free admitted side (f.miss (==→eq _ _ e)) tr' x'
                                h)))
                ])
          | inr e ↦
              let h = f.hit (==→ne _ _ e) in
              rw e (
                returns (record {
                  balanced = Balanced-mono (omega arith) (
                      set_value-Balanced cmp o tr bound 0 (target w tr) v b h.0 h.1
                        (f.admitted (==→ne _ _ e)));
                  fresh = fresh;
                  room = omega arith;
                  nodes = (target w tr, inl (h.0, h.1, (λ k. refl), (λ k. refl), refl));
                }))
        ]
