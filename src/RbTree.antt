-- ===== src/RbTree.antt =====
-- src/rbtree.c: the red-black tree. The fields of the nodes are functions of the address; NULL is 0,
-- and `&tr->leaf` is 1. A node's colour and parent, which the source packs into one word, are two
-- fields. The allocator is the null allocator. Where the code for left and right is mirrored, it
-- is one definition with a side.
pub mod Sides
pub mod Links
pub mod Search
pub mod Rotate
pub mod Turned
pub mod Colours
pub mod Balanced
pub mod Family
pub mod Recolour
pub mod Outer
pub mod Inner
pub mod Step
pub mod Blacken
pub mod Attach
pub mod First
pub mod Overwrite
pub mod Insert
pub mod RoundTrip
pub mod Sorted
pub mod Filled
pub mod Pop
pub mod Deficit
pub mod RedSibling
pub mod Nephew
pub mod Uplift
pub mod Bleach
pub mod Restore
pub mod Mend
pub mod Walk
pub mod InOrder
pub mod Traversal
mod Tests
mod PopTests
use c_algorithm.Base.{
  ℕ, zero, suc, ◌+◌, ◌-◌, ◌==◌, ◌&&◌, if◌then◌else◌, not, Bool, true, false, List, ℤ, pos, negsuc,
  is_pos, is_neg, Value, empty_value, Run, ok, fault, bounds, assertion, assert, out_of_fuel, ◌>>=◌,
  ◌>>◌,
}
use c_algorithm.Order.{Compare}

pub data Side : Type 0 where
  lhs rhs : Side

abbrev pub other : Side → Side
other lhs = rhs
other rhs = lhs

abbrev pub same_side : Side → Side → Bool
same_side lhs lhs = true
same_side rhs rhs = true
same_side _ _ = false

-- struct rbtree and the struct rbnode in memory: `child lhs p` is `p->left`. `allocated` says which
-- addresses have a node; `unused` is the next that `malloc` gives out, `room` the number of nodes
-- for which there is memory.
pub record RbTree : Type 0 where
  pub value : ℕ → Value
  pub red : ℕ → Bool
  pub parent : ℕ → ℕ
  pub child : Side → ℕ → ℕ
  pub allocated : ℕ → Bool
  pub root : ℕ
  pub length : ℕ
  pub unused : ℕ
  pub room : ℕ

abbrev pub leaf : ℕ
leaf = 1

-- the pointer `p` may be followed
abbrev pub valid : ℕ → RbTree → Run (Unit {0})
valid p tr = if tr.allocated p then ok tt else fault bounds

abbrev pub set_value : ℕ → Value → RbTree → RbTree
set_value p v tr = record tr { value = λ q. if q == p then v else tr.value q }

abbrev pub set_red : ℕ → Bool → RbTree → RbTree
set_red p c tr = record tr { red = λ q. if q == p then c else tr.red q }

abbrev pub set_parent : ℕ → ℕ → RbTree → RbTree
set_parent p v tr = record tr { parent = λ q. if q == p then v else tr.parent q }

abbrev pub set_child : Side → ℕ → ℕ → RbTree → RbTree
set_child s p v tr = record tr {
  child = λ t q. if same_side t s && q == p then v else tr.child t q;
}

unfoldable pub open_rbtree : RbTree
open_rbtree = record {
  value = λ p. empty_value;
  red = λ p. false;
  parent = λ p. 0;
  child = λ s p. 0;
  allocated = λ p. p == leaf;
  root = leaf;
  length = 0;
  unused = 2;
  room = 9_223_372_036_854_775_807;
}

abbrev pub rbtree_len : RbTree → ℕ
rbtree_len tr = tr.length

abbrev pub rbtree_empty : RbTree → Bool
rbtree_empty tr = tr.root == leaf

-- a new red node; a write through the NULL of a failed `malloc` is a fault
unfoldable pub open_node : RbTree → Value → ℕ → Run (ℕ × RbTree)
open_node tr v parent =
    if tr.room == 0
    then fault bounds
    else ok (
      tr.unused,
      record tr {
        value = λ q. if q == tr.unused then v else tr.value q;
        red = λ q. if q == tr.unused then true else tr.red q;
        parent = λ q. if q == tr.unused then parent else tr.parent q;
        child = λ t q. if q == tr.unused then leaf else tr.child t q;
        allocated = λ q. if q == tr.unused then true else tr.allocated q;
        unused = suc tr.unused;
        room = tr.room - 1;
      },
    )

abbrev pub close_node : RbTree → ℕ → RbTree
close_node tr p = record tr { allocated = λ q. if q == p then false else tr.allocated q }

-- rbtree_left_rotate for `lhs`, rbtree_right_rotate for `rhs`
unfoldable pub rotate : Side → ℕ → RbTree → Run RbTree
rotate s x tr = do
  valid x tr
  let y = tr.child (other s) x
  assert (not (y == leaf))
  valid y tr
  let p = tr.parent x
  let b = tr.child s y
  let tr1 = set_child (other s) x b tr
  tr2 ← if b == leaf then ok tr1 else (valid b tr1 >> ok (set_parent b x tr1))
  let tr3 = set_parent y p tr2
  tr4 ←
      if x == tr.root
      then ok (record tr3 { root = y })
      else (valid p tr3
          >> ok (if tr3.child s p == x then set_child s p y tr3 else set_child (other s) p y tr3))
  ok (set_parent x y (set_child s y x tr4))

abbrev pub left_rotate : ℕ → RbTree → Run RbTree
left_rotate = rotate lhs

abbrev pub right_rotate : ℕ → RbTree → Run RbTree
right_rotate = rotate rhs

-- a pointer to the pointer to a node: `&tr->root`, `&p->left` or `&p->right`
pub data Where : Type 0 where
  at_root : Where
  at_child : Side → ℕ → Where

abbrev pub target : Where → RbTree → ℕ
target at_root tr = tr.root
target (at_child s p) tr = tr.child s p

-- the `for` of rbtree_fast_get
pub get_loop : Compare → RbTree → Value → (fuel : ℕ) → Where → ℕ → Run (Where × ℕ)
get_loop cmp tr key zero w p = out_of_fuel
get_loop cmp tr key (suc fuel) w p = valid p tr >> elim (cmp key (tr.value p)) [
  | pos zero ↦ ok (w, tr.parent p)
  | pos (suc n) ↦ elim (tr.child rhs p == leaf) [
    | true ↦ ok (at_child rhs p, p)
    | false ↦ get_loop cmp tr key fuel (at_child rhs p) (tr.child rhs p)
  ]
  | negsuc n ↦ elim (tr.child lhs p == leaf) [
    | true ↦ ok (at_child lhs p, p)
    | false ↦ get_loop cmp tr key fuel (at_child lhs p) (tr.child lhs p)
  ]
]

-- where the key is or belongs, and the node above
unfoldable pub fast_get : Compare → RbTree → Value → (fuel : ℕ) → Run (Where × ℕ)
unfolding get_loop
fast_get cmp tr key fuel =
    if tr.root == leaf then ok (at_root, 0) else get_loop cmp tr key fuel at_root tr.root

-- a round of the `while` of rbtree_fast_set, whose parent stands on the side `s` of the grandparent
unfoldable pub fixup_step : Side → ℕ → RbTree → Run (ℕ × RbTree)
fixup_step s x tr = do
  let p = tr.parent x
  let g = tr.parent p
  let u = tr.child (other s) g
  valid u tr
  if tr.red u then ok (g, set_red g true (set_red u false (set_red p false tr))) else do
    (x', tr1) ←
        if tr.child (other s) p == x then (rotate s p tr >>= λ tr1. ok (p, tr1)) else ok (x, tr)
    let p' = tr1.parent x'
    let g' = tr1.parent p'
    tr2 ← rotate (other s) g' (set_red g' true (set_red p' false tr1))
    ok (x', tr2)

-- the `while` of rbtree_fast_set
unfoldable pub insert_fixup : (fuel : ℕ) → ℕ → RbTree → Run RbTree
insert_fixup zero x tr = out_of_fuel
insert_fixup (suc fuel) x tr = if x == tr.root then ok tr else do
  valid x tr
  let p = tr.parent x
  valid p tr
  elim (tr.red p) [
    | false ↦ ok tr
    | true ↦ do
      let g = tr.parent p
      valid g tr
      (x', tr') ← fixup_step (if tr.child lhs g == p then lhs else rhs) x tr
      insert_fixup fuel x' tr'
  ]

unfoldable pub fast_set : RbTree → Where → ℕ → (fuel : ℕ) → Run RbTree
fast_set tr at_root z fuel = do
  assert (tr.root == leaf)
  ok (set_red z false (record tr { root = z; length = tr.length + 1 }))
fast_set tr (at_child s p) z fuel = do
  valid p tr
  assert (tr.child s p == leaf)
  tr1 ← insert_fixup fuel z (record (set_child s p z tr) { length = tr.length + 1 })
  ok (set_red tr1.root false tr1)

unfoldable pub rbtree_node_not_found : RbTree → Where → Bool
rbtree_node_not_found tr w = target w tr == leaf

-- the value, and what `*ok` is set to
unfoldable pub rbtree_get : Compare → RbTree → Value → (fuel : ℕ) → Run (Value × Bool)
rbtree_get cmp tr key fuel = do
  (w, p) ← fast_get cmp tr key fuel
  if target w tr == leaf then ok (empty_value, false) else ok (tr.value (target w tr), true)

unfoldable pub rbtree_set : Compare → RbTree → Value → (fuel : ℕ) → Run RbTree
rbtree_set cmp tr v fuel = do
  (w, p) ← fast_get cmp tr v fuel
  if target w tr == leaf
      then (open_node tr v p >>= λ (z, tr1). fast_set tr1 w z fuel)
      else ok (set_value (target w tr) v tr)
