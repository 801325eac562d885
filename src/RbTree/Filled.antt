-- ===== src/RbTree/Filled.antt =====
-- src/rbtree.c: a new tree that values are put into one after the other.
use mathlib.Core.List.{map, Memᴰ}
use mathlib.Core.List.Memᴰ.{head, tail, not-nil}
use c_algorithm.Base.{
  ℕ, suc, ◌+◌, ◌*◌, ◌≤◌, ◌<◌, ◌≡◌, ◌⊎◌, ◌∙◌, sym, ap, inl, inr, refl, arith, ◌==◌, ==→eq, false,
  Bool-cases, List, [], ◌∷◌, length, Value, pos, Run, ok, Returns, returns, Returns-bind,
  Returns-map, ◌>>=◌,
}
use c_algorithm.Order.{Compare}
use c_algorithm.Link.{Traverse}
use c_algorithm.Link.Chain.{visit_all}
use c_algorithm.RbTree.{RbTree, rbtree_set, open_rbtree}
use c_algorithm.RbTree.Links.{IsThreeWay, IsNode}
use c_algorithm.RbTree.Balanced.{Balanced}
use c_algorithm.RbTree.Attach.{IsFresh}
use c_algorithm.RbTree.Insert.{IsWritten, rbtree_set-IsWritten}
use c_algorithm.RbTree.InOrder.{InOrder, Balanced-InOrder}
use c_algorithm.RbTree.RoundTrip.{self_same, same_trans, IsWritten-node, open_rbtree-Balanced}
use c_algorithm.RbTree.Traversal.{rbtree_ldr-visit_all}
use c_algorithm.RbTree.Walk.{rbtree_ldr}

-- rbtree_set of each value of a list
abbrev pub set_all : Compare → List Value → (fuel : ℕ) → RbTree → Run RbTree
set_all cmp [] fuel tr = ok tr
set_all cmp (v ∷ vs) fuel tr = rbtree_set cmp tr v fuel >>= λ tr'. set_all cmp vs fuel tr'

-- a node whose value compares as equal to a key
abbrev pub Has : Compare → RbTree → Value → Type 0
Has cmp tr key = (q : ℕ) × IsNode tr q × (cmp key (tr.value q) ≡ pos 0)

-- a node with a value
abbrev pub Stores : RbTree → Value → Type 0
Stores tr v = (q : ℕ) × IsNode tr q × (tr.value q ≡ v)

-- what the values `vs` make of a tree: it is balanced, holds a value for each of them and for each
-- that it held, and no other values
record Filled (cmp : Compare) (bound : ℕ) (vs : List Value) (tr tr' : RbTree) : Type 0 where
  balanced : Balanced cmp tr' (bound + length vs) 0
  kept : (key : Value) → Has cmp tr key → Has cmp tr' key
  added : (key : Value) → Memᴰ key vs → Has cmp tr' key
  only : (u : Value) → Stores tr' u → Memᴰ u vs ⊎ Stores tr u

module _ (cmp : Compare) (o : IsThreeWay cmp) where
  module _ (tr : RbTree) (bound : ℕ) (v : Value) (tr' : RbTree)
      (h : IsWritten cmp v tr bound tr') where
    IsWritten-kept : (key : Value) → Has cmp tr key → Has cmp tr' key
    IsWritten-kept key (k, n, same) = elim h.nodes.1 [
      | inl (m, e, value, allocated, len) ↦ elim (Bool-cases (k == h.nodes.0)) [
        | inl at_q ↦
            let at_k : tr.value k ≡ tr.value h.nodes.0 = ap tr.value (==→eq _ _ at_q) in
            (
              k,
              (allocated k ∙ n.0, n.1),
              ap (cmp key) (value k ∙ rw at_q refl)
                  ∙ same_trans cmp o key (tr.value h.nodes.0) v (ap (cmp key) (sym at_k) ∙ same) e,
            )
        | inr apart ↦ (k, (allocated k ∙ n.0, n.1), ap (cmp key) (value k ∙ rw apart refl) ∙ same)
      ]
      | inr (miss, new, value, allocated, len) ↦
          let apart : (k == h.nodes.0) ≡ false = ground (arith, n.0, new, ap tr.allocated) in
          (k, (allocated k ∙ rw apart n.0, n.1), ap (cmp key) (value k ∙ rw apart refl) ∙ same)
    ]

    IsWritten-only : (u : Value) → Stores tr' u → (u ≡ v) ⊎ Stores tr u
    IsWritten-only u (k, n, at_k) = elim (Bool-cases (k == h.nodes.0)) [
      | inl at_q ↦ inl (elim h.nodes.1 [
        | inl (m, e, value, allocated, len) ↦ sym at_k ∙ value k ∙ rw at_q refl
        | inr (miss, new, value, allocated, len) ↦ sym at_k ∙ value k ∙ rw at_q refl
      ])
      | inr apart ↦ inr (elim h.nodes.1 [
        | inl (m, e, value, allocated, len) ↦
            (k, (sym (allocated k) ∙ n.0, n.1), sym (value k ∙ rw apart refl) ∙ at_k)
        | inr (miss, new, value, allocated, len) ↦ (
          k,
          (sym (allocated k ∙ rw apart refl) ∙ n.0, n.1),
          sym (value k ∙ rw apart refl) ∙ at_k,
        )
      ])
    ]

  set_all-Filled :
      (vs : List Value) (tr : RbTree) (bound fuel : ℕ)
      → Balanced cmp tr bound 0
      → IsFresh tr
      → 2 * (bound + length vs) + 1 < fuel
      → length vs ≤ tr.room
      → Returns (Filled cmp bound vs tr) (set_all cmp vs fuel tr)
  set_all-Filled [] tr bound fuel b fresh enough room = returns (record {
    balanced = let same : bound + 0 ≡ bound = omega arith in rw same b;
    kept = λ key has. has;
    added = λ key m. absurd (not-nil m);
    only = λ u there. inr there;
  })
  set_all-Filled (v ∷ vs) tr bound fuel b fresh enough room =
      Returns-bind
        (rbtree_set-IsWritten cmp o tr bound b fresh v fuel (omega arith) (λ e. omega (arith, e)))
        λ tr1 w.
          Returns-map
            (set_all-Filled vs tr1 (suc bound) fuel w.balanced w.fresh (omega arith)
              (omega (arith, w.room)))
            λ tr2 f. record {
              balanced =
                  let same : suc bound + length vs ≡ bound + suc (length vs) = omega arith in
                  rw (← same) f.balanced;
              kept = λ key has. f.kept key (IsWritten-kept tr bound v tr1 w key has);
              added = λ key m. elim m [
                | head at_v ↦
                    let (q, n, value) = IsWritten-node cmp o tr bound v tr1 b.linked.leaf_there w in
                    f.kept key
                      (q, n, ap (cmp key) value ∙ ap (λ x. cmp x v) at_v ∙ self_same cmp o v)
                | tail m' ↦ f.added key m'
              ];
              only = λ u there. elim (f.only u there) [
                | inl m ↦ inl (tail m)
                | inr there1 ↦ elim (IsWritten-only tr bound v tr1 w u there1) [
                  | inl at_v ↦ inl (head at_v)
                  | inr before ↦ inr before
                ]
              ];
            }

-- What a walk over a tree of the values `vs` does: it hands values to `visit` in ascending order,
-- each of them from `vs`, and one that compares as equal for each of `vs`.
pub record InOrderOf (cmp : Compare) (vs : List Value) {P : Type 0} (visit : Traverse P) (param : P)
    (tr : RbTree) : Type 0 where
  pub nodes : List ℕ
  pub in_order : InOrder cmp tr nodes
  pub all : (key : Value) → Memᴰ key vs → (q : ℕ) × Memᴰ q nodes × (cmp key (tr.value q) ≡ pos 0)
  pub only : (q : ℕ) → Memᴰ q nodes → Memᴰ (tr.value q) vs
  pub walk :
      (fuel : ℕ)
      → length nodes < fuel
      → rbtree_ldr tr visit param fuel ≡ ok (visit_all visit (map tr.value nodes) param)

open_rbtree-no_node : (k : ℕ) → IsNode open_rbtree k → ⊥
unfolding open_rbtree
open_rbtree-no_node k n = ground (arith, n)

-- open_rbtree, then rbtree_set of each of a list of values under a three-way COMPARE, with memory
-- for as many nodes and fuel above one more than twice the number of values: rbtree_ldr then hands
-- values to the function in strictly ascending order, each of them from the list, one that compares
-- as equal for each of the list, until the function asks to stop.
pub set_all-rbtree_ldr :
    (cmp : Compare)
    → IsThreeWay cmp
    → (vs : List Value) → length vs ≤ open_rbtree.room
    → {P : Type 0} (visit : Traverse P) (param : P) (fuel : ℕ) → 2 * length vs + 1 < fuel
    → Returns (InOrderOf cmp vs visit param) (set_all cmp vs fuel open_rbtree)
set_all-rbtree_ldr cmp o vs room visit param fuel enough =
    let (b, fresh) = open_rbtree-Balanced cmp in
    Returns-map (set_all-Filled cmp o vs open_rbtree 0 fuel b fresh (omega arith) room) λ tr' f.
      let (qs, i) = Balanced-InOrder cmp o tr' (0 + length vs) f.balanced in
      record {
        nodes = qs;
        in_order = i;
        all = λ key m. let (q, n, same) = f.added key m in (q, i.complete q n, same);
        only = λ q m. elim (f.only (tr'.value q) (q, i.sound q m, refl)) [
          | inl there ↦ there
          | inr (k, n, same) ↦ absurd (open_rbtree-no_node k n)
        ];
        walk = λ fuel enough. rbtree_ldr-visit_all cmp tr' qs i visit param fuel enough;
      }
