-- ===== src/RbTree/Pop.antt =====
-- src/rbtree.c: rbtree_fast_pop and rbtree_pop.
use c_algorithm.Base.{
  ℕ, zero, suc, ◌-◌, ◌==◌, ◌&&◌, if◌then◌else◌, not, Bool, true, false, Value, empty_value, Run, ok,
  out_of_fuel, ◌>>=◌, ◌>>◌,
}
use c_algorithm.Order.{Compare}
use c_algorithm.RbTree.{
  RbTree, Side, lhs, rhs, other, leaf, valid, set_red, set_parent, set_child, rotate, target,
  fast_get, close_node,
}

-- the `for` that looks for the next node
unfoldable pub min_loop : (fuel : ℕ) → ℕ → RbTree → Run ℕ
min_loop zero p tr = out_of_fuel
min_loop (suc fuel) p tr =
    valid p tr
    >> elim (tr.child lhs p == leaf) [ true ↦ ok p | false ↦ min_loop fuel (tr.child lhs p) tr ]

-- the node to take out of its place, and the one that comes there
unfoldable pub choose : (fuel : ℕ) → ℕ → RbTree → Run (ℕ × ℕ)
choose fuel node tr =
    if tr.child lhs node == leaf
    then ok (node, tr.child rhs node)
    else if tr.child rhs node == leaf
    then ok (node, tr.child lhs node)
    else do
      subst ← min_loop fuel (tr.child rhs node) tr
      ok (
        subst,
        if not (tr.child lhs subst == leaf) then tr.child lhs subst else tr.child rhs subst,
      )

-- `old` gives its place below its parent to `new`
unfoldable pub transplant : ℕ → ℕ → RbTree → Run RbTree
transplant old new tr =
    let p = tr.parent old in
    valid p tr
    >> ok (if old == tr.child lhs p then set_child lhs p new tr else set_child rhs p new tr)

-- a child that is a node points back
abbrev pub adopt : Side → ℕ → RbTree → RbTree
adopt s p tr = if tr.child s p == leaf then tr else set_parent (tr.child s p) p tr

-- `subst` takes the place of `node`
unfoldable pub take_over : ℕ → ℕ → ℕ → RbTree → Run RbTree
take_over node subst temp tr = do
  let tr1 = set_parent temp (if tr.parent subst == node then subst else tr.parent subst) tr
  let tr2 = set_child rhs subst (tr1.child rhs node) (set_child lhs subst (tr1.child lhs node) tr1)
  let tr3 = set_red subst (tr2.red node) (set_parent subst (tr2.parent node) tr2)
  tr4 ← if node == tr3.root then ok (record tr3 { root = subst }) else transplant node subst tr3
  ok (adopt rhs subst (adopt lhs subst tr4))

-- a round of the `while`, with `temp` on the side `s` of its parent: the next `temp`
unfoldable pub pop_step : Side → ℕ → RbTree → Run (ℕ × RbTree)
pop_step s temp tr = do
  let p = tr.parent temp
  let w0 = tr.child (other s) p
  valid w0 tr
  tr1 ← if tr.red w0 then rotate s p (set_red p true (set_red w0 false tr)) else ok tr
  let w = tr1.child (other s) (tr1.parent temp)
  valid w tr1
  valid (tr1.child s w) tr1
  valid (tr1.child (other s) w) tr1
  if not (tr1.red (tr1.child s w)) && not (tr1.red (tr1.child (other s) w))
      then ok (tr1.parent temp, set_red w true tr1)
      else do
        tr2 ←
            if not (tr1.red (tr1.child (other s) w))
            then rotate (other s) w (set_red w true (set_red (tr1.child s w) false tr1))
            else ok tr1
        let q = tr2.parent temp
        let w' = tr2.child (other s) q
        let tr3 = set_red q false (set_red w' (tr2.red q) tr2)
        tr4 ← rotate s q (set_red (tr3.child (other s) w') false tr3)
        ok (tr4.root, tr4)

-- the `while`
unfoldable pub pop_fixup : (fuel : ℕ) → ℕ → RbTree → Run (ℕ × RbTree)
pop_fixup zero temp tr = out_of_fuel
pop_fixup (suc fuel) temp tr = if temp == tr.root then ok (temp, tr) else do
  valid temp tr
  elim (tr.red temp) [
    | true ↦ ok (temp, tr)
    | false ↦ do
      let p = tr.parent temp
      valid p tr
      (temp', tr') ← pop_step (if temp == tr.child lhs p then lhs else rhs) temp tr
      pop_fixup fuel temp' tr'
  ]

unfoldable pub fast_pop : RbTree → ℕ → (fuel : ℕ) → Run (Value × RbTree)
fast_pop tr node fuel = do
  valid node tr
  let ret = tr.value node
  (subst, temp) ← choose fuel node tr
  if subst == tr.root
      then ok (ret, record (set_red temp false tr) { root = temp; length = tr.length - 1 })
      else do
        let red = tr.red subst
        tr1 ← transplant subst temp tr
        tr2 ←
            if subst == node
            then ok (set_parent temp (tr1.parent subst) tr1)
            else take_over node subst temp tr1
        let tr3 = record tr2 { length = tr2.length - 1 }
        if red
            then ok (ret, tr3)
            else do (temp', tr4) ← pop_fixup fuel temp tr3; ok (ret, set_red temp' false tr4)

-- the value, what `*ok` is set to, and the tree
unfoldable pub rbtree_pop : Compare → RbTree → Value → (fuel : ℕ) → Run (Value × Bool × RbTree)
rbtree_pop cmp tr key fuel = do
  (w, p) ← fast_get cmp tr key fuel
  let search = target w tr
  if search == leaf
      then ok (empty_value, false, tr)
      else do (ret, tr') ← fast_pop tr search fuel; ok (ret, true, close_node tr' search)
