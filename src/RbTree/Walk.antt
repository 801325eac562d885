-- ===== src/RbTree/Walk.antt =====
-- src/rbtree.c: the walks over all nodes in order, rbtree_ldr and rbtree_clear. The stack of nodes is
-- the list of what it holds, the top first.
use c_algorithm.Base.{
  ℕ, zero, suc, ◌==◌, ◌&&◌, if◌then◌else◌, not, Bool, true, false, List, [], ◌∷◌, Run, ok, fault,
  bounds, out_of_fuel, ◌>>=◌, ◌>>◌,
}
use c_algorithm.Link.{Traverse}
use c_algorithm.RbTree.{RbTree, lhs, rhs, leaf, valid, rbtree_empty, close_node}

abbrev pub is_empty : List ℕ → Bool
is_empty [] = true
is_empty (p ∷ st) = false

-- `while (top->left != &tr->leaf)`: the nodes on the way to the leftmost one are pushed
unfoldable pub push_left : (fuel : ℕ) → ℕ → List ℕ → RbTree → Run (List ℕ)
push_left zero top st tr = out_of_fuel
push_left (suc fuel) top st tr = valid top tr >> elim (tr.child lhs top == leaf) [
  | true ↦ ok st
  | false ↦ push_left fuel (tr.child lhs top) (tr.child lhs top ∷ st) tr
]

-- the `do`: whether the traversal was stopped, the last node, the stack, and the parameter
unfoldable pub pop_visit :
    {P : Type 0} → Traverse P → List ℕ → P → RbTree → Run (Bool × ℕ × List ℕ × P)
pop_visit visit [] param tr = fault bounds
pop_visit visit (top ∷ st) param tr = do
  valid top tr
  let (stop, after) = visit (tr.value top) param
  let rest = pop_visit visit st after tr
  if stop
      then ok (true, top, st, after)
      else if tr.child rhs top == leaf && not (is_empty st)
      then rest
      else ok (false, top, st, after)

-- `while (stack_len(st) > 0)`
unfoldable pub ldr_loop : {P : Type 0} → Traverse P → (fuel : ℕ) → ℕ → List ℕ → P → RbTree → Run P
ldr_loop visit zero top st param tr = out_of_fuel
ldr_loop visit (suc fuel) top [] param tr = ok param
ldr_loop visit (suc fuel) top (p ∷ st) param tr = do
  st1 ← push_left fuel top (p ∷ st) tr
  (stopped, top', st2, after) ← pop_visit visit st1 param tr
  elim stopped [
    | true ↦ ok after
    | false ↦ elim (tr.child rhs top' == leaf) [
      | true ↦ ldr_loop visit fuel top' st2 after tr
      | false ↦ ldr_loop visit fuel (tr.child rhs top') (tr.child rhs top' ∷ st2) after tr
    ]
  ]

unfoldable pub rbtree_ldr : {P : Type 0} → RbTree → Traverse P → P → (fuel : ℕ) → Run P
rbtree_ldr tr visit param fuel =
    if rbtree_empty tr then ok param else ldr_loop visit fuel tr.root (tr.root ∷ []) param tr

-- the `do` of rbtree_clear: the right child of the last node, the stack and the tree
unfoldable pub pop_close : List ℕ → RbTree → Run (ℕ × List ℕ × RbTree)
pop_close [] tr = fault bounds
pop_close (top ∷ st) tr = do
  valid top tr
  let right = tr.child rhs top
  let tr' = close_node tr top
  let rest = pop_close st tr'
  if right == leaf && not (is_empty st) then rest else ok (right, st, tr')

unfoldable pub rbtree_clear_loop : (fuel : ℕ) → ℕ → List ℕ → RbTree → Run RbTree
rbtree_clear_loop zero top st tr = out_of_fuel
rbtree_clear_loop (suc fuel) top [] tr = ok tr
rbtree_clear_loop (suc fuel) top (p ∷ st) tr = do
  st1 ← push_left fuel top (p ∷ st) tr
  (right, st2, tr') ← pop_close st1 tr
  elim (right == leaf) [
    | true ↦ rbtree_clear_loop fuel top st2 tr'
    | false ↦ rbtree_clear_loop fuel right (right ∷ st2) tr'
  ]

unfoldable pub rbtree_clear : RbTree → (fuel : ℕ) → Run RbTree
rbtree_clear tr fuel =
    if rbtree_empty tr
    then ok tr
    else (rbtree_clear_loop fuel tr.root (tr.root ∷ []) tr >>= λ tr'.
        ok (record tr' { root = leaf; length = 0 }))

-- rbtree_clear, and the allocation of the tree itself is gone
unfoldable pub close_rbtree : RbTree → (fuel : ℕ) → Run RbTree
close_rbtree tr fuel = rbtree_clear tr fuel >>= λ tr'.
    ok (record tr' { allocated = λ q. if q == leaf then false else tr'.allocated q })
