-- ===== src/RbTree/Tests.antt =====
-- Trees of numbers, and the theorems at them.
use mathlib.Core.List.{map}
use mathlib.Core.List.Memᴰ.{head, tail}
use c_algorithm.Base.{
  ◌||◌, ℕ, ◌+◌, ◌≡◌, refl, arith, ◌==◌, if◌then◌else◌, Bool, true, false, Value, sub_ℕ, List, [],
  ◌∷◌, ◌++◌, Run, ok, ◌>>=◌, Returns,
}
use c_algorithm.Order.{Compare}
use c_algorithm.RbTree.{
  lhs, rhs, RbTree, leaf, get_loop, fast_get, open_node, rotate, fixup_step, insert_fixup, fast_set,
  rbtree_set, rbtree_get, open_rbtree,
}
use c_algorithm.RbTree.Links.{IsThreeWay, IsNode}
use c_algorithm.RbTree.Attach.{IsFresh}
use c_algorithm.RbTree.Search.{IsGot, rbtree_get-holds}
use c_algorithm.RbTree.Balanced.{Balanced}
use c_algorithm.RbTree.Insert.{IsWritten, rbtree_set-IsWritten}
use c_algorithm.Link.{Traverse}
use c_algorithm.Link.Chain.{visit_all}
use c_algorithm.RbTree.Pop.{
  min_loop, choose, transplant, take_over, pop_step, pop_fixup, fast_pop, rbtree_pop,
}
use c_algorithm.RbTree.Walk.{
  push_left, pop_visit, ldr_loop, rbtree_ldr, pop_close, rbtree_clear_loop, rbtree_clear,
}
use c_algorithm.RbTree.InOrder.{InOrder, empty, branch, nothing, first}
use c_algorithm.RbTree.Traversal.{rbtree_ldr-visit_all}
use c_algorithm.RbTree.Filled.{set_all, InOrderOf, set_all-rbtree_ldr}
use c_algorithm.RbTree.Sorted.{Walked, rbtree_set-rbtree_ldr}
use c_algorithm.RbTree.RoundTrip.{rbtree_set-rbtree_get, rbtree_set-other_keys}

abbrev pub by_number : Compare
by_number = sub_ℕ

pub by_number-IsThreeWay : IsThreeWay by_number
by_number-IsThreeWay = record {
  flip = λ a b. ground arith;
  trans = λ a b c h k. ground (arith, h, k);
  same_neg = λ a b c e. ground (arith, e);
  same_pos = λ a b c e. ground (arith, e);
}

-- 1 for a red node and 0 for a black one, and its children
abbrev shape : RbTree → ℕ → List ℕ
shape tr q = (if tr.red q then 1 else 0) ∷ tr.child lhs q ∷ tr.child rhs q ∷ []

-- three values in order: a rotation puts the second at the root
set_in_order :
    (set_all by_number (5 ∷ 7 ∷ 9 ∷ []) 8 open_rbtree >>= λ tr.
    ok (tr.root ∷ (shape tr 2 ++ shape tr 3 ++ shape tr 4)))
    ≡ ok (3 ∷ 1 ∷ 1 ∷ 1 ∷ 0 ∷ 2 ∷ 4 ∷ 1 ∷ 1 ∷ 1 ∷ [])
unfolding get_loop fast_get open_node rotate fixup_step insert_fixup fast_set rbtree_set open_rbtree
set_in_order = refl

-- the equal value takes the place of the old one, and no node is added
set_again :
    (set_all by_number (5 ∷ 5 ∷ []) 8 open_rbtree >>= λ tr.
    ok (tr.root ∷ tr.length ∷ tr.unused ∷ []))
    ≡ ok (2 ∷ 1 ∷ 3 ∷ [])
unfolding get_loop fast_get open_node rotate fixup_step insert_fixup fast_set rbtree_set open_rbtree
set_again = refl

-- a tree of one node
abbrev five : RbTree
five = record {
  value = λ p. if p == 2 then 5 else 0;
  red = λ p. false;
  parent = λ p. 0;
  child = λ s p. if p == 2 then leaf else 0;
  allocated = λ p. if p == 2 then true else p == leaf;
  root = 2;
  length = 1;
  unused = 3;
  room = 10;
}

five_node : (q : ℕ) → IsNode five q → q ≡ 2
five_node q m = ground (arith, m)

five-Balanced : Balanced by_number five 1 0
five-Balanced = record {
  admits = λ q v. true;
  height = λ q. if q == 2 then 1 else 0;
  linked = record {
    leaf_there = refl;
    no_null = refl;
    root_there = refl;
    down = λ s q m ne. absurd (ne (rw (five_node q m) refl));
    apart = λ s q m ne. absurd (ne (rw (five_node q m) refl));
    up = λ q m ne. absurd (ne (five_node q m));
  };
  ordered = record {
    own = λ q m. refl;
    full = λ v ne. refl;
    split = λ s q v m ne. absurd (ne (rw (five_node q m) refl));
  };
  coloured = record {
    leaf_black = refl;
    leaf_height = refl;
    bounded = λ q m. ground (arith, m);
    even = λ s q m. rw (five_node q m) refl;
    no_red_red = λ s q m r ne. refl;
    root_black = λ ne. refl;
  };
}

five-IsFresh : IsFresh five
five-IsFresh q le = ground (arith, le)

rbtree_get-holds_example :
    Returns (λ (v, found). IsGot by_number five 5 v found) (rbtree_get by_number five 5 4)
rbtree_get-holds_example =
    let b = five-Balanced in
    rbtree_get-holds by_number by_number-IsThreeWay five b.admits b.height 1 b.linked b.ordered
      b.coloured 5 4 (omega arith)

rbtree_set-IsWritten_example :
    Returns (IsWritten by_number 7 five 1) (rbtree_set by_number five 7 4)
rbtree_set-IsWritten_example =
    rbtree_set-IsWritten by_number by_number-IsThreeWay five 1 five-Balanced five-IsFresh 7 4
      (omega arith) (λ e. omega (arith, e))

rbtree_set-rbtree_get_example :
    Returns
      (λ r. Path (Value × Bool) r (7, true))
      (rbtree_set by_number five 7 6 >>= λ tr'. rbtree_get by_number tr' 7 6)
rbtree_set-rbtree_get_example =
    rbtree_set-rbtree_get by_number by_number-IsThreeWay five 1 five-Balanced five-IsFresh 7 6
      (omega arith) (λ e. omega (arith, e))

rbtree_set-other_keys_example :
    Returns
      (λ tr'. rbtree_get by_number tr' 5 6 ≡ rbtree_get by_number five 5 6)
      (rbtree_set by_number five 7 6)
rbtree_set-other_keys_example =
    rbtree_set-other_keys by_number by_number-IsThreeWay five 1 five-Balanced five-IsFresh 7 5 6
      (omega arith) (λ e. omega (arith, e)) (λ e. ground (arith, e))

five-InOrder : InOrder by_number five (2 ∷ [])
five-InOrder = record {
  tree = branch 2 [] [] _ (refl, λ e. omega (arith, e)) (empty leaf refl) (empty leaf refl) refl;
  ascending = first (λ k m. elim m [ ]) nothing;
  sound = λ q m. elim m [ head e ↦ rw e (refl, λ e'. omega (arith, e')) | tail m' ↦ elim m' [ ] ];
  complete = λ q m. head (five_node q m);
}

-- adds the value up, and does not stop
abbrev sum_up : Traverse ℕ
sum_up v total = (false, v + total)

rbtree_set-rbtree_ldr_example :
    Returns (Walked by_number 7 sum_up 3) (rbtree_set by_number five 7 4)
rbtree_set-rbtree_ldr_example =
    rbtree_set-rbtree_ldr by_number by_number-IsThreeWay five 1 five-Balanced five-IsFresh 7 sum_up
      3 4 (omega arith) (λ e. omega (arith, e))

rbtree_ldr-visit_all_example :
    rbtree_ldr five sum_up 3 2 ≡ ok (visit_all sum_up (map five.value (2 ∷ [])) 3)
rbtree_ldr-visit_all_example =
    rbtree_ldr-visit_all by_number five (2 ∷ []) five-InOrder sum_up 3 2 (omega arith)

-- what is left after values were taken out, in order
abbrev pop_all : List Value → (fuel : ℕ) → RbTree → Run RbTree
pop_all [] fuel tr = ok tr
pop_all (v ∷ vs) fuel tr =
    rbtree_pop by_number tr v fuel >>= λ (ret, found, tr'). pop_all vs fuel tr'

abbrev collect : Traverse (List Value)
collect v seen = (false, v ∷ seen)

ldr_after_pop :
    (set_all by_number (5 ∷ 7 ∷ 9 ∷ 3 ∷ 8 ∷ 6 ∷ 1 ∷ []) 9 open_rbtree >>= λ tr.
    pop_all (7 ∷ 5 ∷ 3 ∷ []) 9 tr >>= λ tr'. rbtree_ldr tr' collect [] 9)
    ≡ ok (9 ∷ 8 ∷ 6 ∷ 1 ∷ [])
unfolding get_loop fast_get open_node rotate fixup_step insert_fixup fast_set rbtree_set open_rbtree
    min_loop choose transplant take_over pop_step pop_fixup fast_pop rbtree_pop push_left pop_visit
    ldr_loop rbtree_ldr
ldr_after_pop = refl

-- rbtree_clear frees every node
clear_frees :
    (set_all by_number (5 ∷ 7 ∷ 9 ∷ []) 9 open_rbtree >>= λ tr. rbtree_clear tr 9 >>= λ tr'.
    ok ((if tr'.allocated 2 || tr'.allocated 3 || tr'.allocated 4 then 1 else 0) ∷ tr'.length ∷ []))
    ≡ ok (0 ∷ 0 ∷ [])
unfolding get_loop fast_get open_node rotate fixup_step insert_fixup fast_set rbtree_set open_rbtree
    push_left pop_close rbtree_clear_loop rbtree_clear
clear_frees = refl

set_all-rbtree_ldr_example :
    Returns
      (InOrderOf by_number (5 ∷ 7 ∷ 9 ∷ 5 ∷ []) sum_up 3)
      (set_all by_number (5 ∷ 7 ∷ 9 ∷ 5 ∷ []) 12 open_rbtree)
unfolding open_rbtree
set_all-rbtree_ldr_example =
    set_all-rbtree_ldr by_number by_number-IsThreeWay (5 ∷ 7 ∷ 9 ∷ 5 ∷ []) (omega arith) sum_up 3 12
      (omega arith)
