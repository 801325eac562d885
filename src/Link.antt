-- ===== src/Link.antt =====
-- src/link.c: the singly linked list. The nodes stand in a memory of their own; `struct llist`,
-- with the head node in it, is a record that a call returns anew.
pub mod Chain
pub mod Laws
pub mod Clear
pub mod Double
mod Tests
use c_algorithm.Base.{
  ℕ, zero, suc, ◌+◌, ◌-◌, ◌≤◌, ◌≡◌, ◌==◌, if◌then◌else◌, Bool, true, false, Option, none, some,
  List, Value, empty_value, Run, ok, fault, assertion, bounds, out_of_fuel, ◌>>=◌,
}

-- a pointer to a node: NULL, `&lst->head`, or a node in memory
pub data Link : Type 0 where
  null : Link
  head : Link
  node : ℕ → Link

-- struct lnode
pub record LNode : Type 0 where
  pub value : Value
  pub next : Link

-- `at_address` has the nodes, `unused` is the next address that `malloc_node` gives out, and `room` the
-- number of nodes for which there is memory; a new node holds `junk`.
pub record Nodes : Type 0 where
  pub at_address : ℕ → Option LNode
  pub unused : ℕ
  pub room : ℕ
  pub junk : LNode

-- the node at `p` becomes `c`
abbrev pub put_node : ℕ → Option LNode → Nodes → Nodes
put_node p c s = record s { at_address = λ q. if q == p then c else s.at_address q }

-- `alloc` and `free` of an ALLOCATOR, where it has them
pub record Allocator : Type 0 where
  pub alloc : Option (Nodes → Link × Nodes)
  pub free : Option (ℕ → Nodes → Nodes)

pub record LList : Type 0 where
  pub first : Link
  pub tail : Link
  pub length : ℕ
  pub allocator : Allocator

-- `NEW0`, which is `malloc`: a node that nothing was written to, or NULL
unfoldable pub malloc_node : Nodes → Link × Nodes
malloc_node s = if s.room == 0 then (null, s) else (
  node s.unused,
  record (put_node s.unused (some s.junk) s) { unused = suc s.unused; room = s.room - 1 },
)

unfoldable pub new : LList → Nodes → Link × Nodes
new lst s = elim (lst.allocator.alloc) [ none ↦ malloc_node s | some alloc ↦ alloc s ]

-- a node of an allocator with `alloc` and without `free` stays
abbrev pub delete_by : Allocator → ℕ → Nodes → Nodes
delete_by allocator p s = elim (allocator.free) [
  | some free ↦ free p s
  | none ↦ elim (allocator.alloc) [ none ↦ put_node p none s | some alloc ↦ s ]
]

unfoldable pub delete : LList → ℕ → Nodes → Nodes
delete lst p s = delete_by lst.allocator p s

abbrev pub null_allocator : Allocator
null_allocator = record { alloc = none; free = none }

unfoldable pub open_llist : LList
open_llist = record { first = null; tail = head; length = 0; allocator = null_allocator }

-- the memory of the `struct llist` itself is not modelled
unfoldable pub open_llist_with_allocator : Allocator → Run LList
open_llist_with_allocator allocator = elim (allocator.alloc) [
  | none ↦ fault assertion
  | some alloc ↦ ok (record { first = null; tail = head; length = 0; allocator = allocator })
]

-- what `node->` leads to
unfoldable pub fetch : Link → Nodes → Run (ℕ × LNode)
fetch null s = fault bounds
fetch head s = fault bounds
fetch (node p) s = elim (s.at_address p) [ none ↦ fault bounds | some n ↦ ok (p, n) ]

-- the `for` of llist_clear
clear_loop : (fuel : ℕ) → LList → Link → Nodes → Run Nodes
clear_loop zero lst p s = out_of_fuel
clear_loop (suc fuel) lst null s = ok s
clear_loop (suc fuel) lst head s = fault bounds
clear_loop (suc fuel) lst (node p) s = do
  (q, n) ← fetch (node p) s
  clear_loop fuel lst n.next (delete lst p s)

unfoldable pub llist_clear : LList → Nodes → Run (LList × Nodes)
unfolding clear_loop
llist_clear lst s = do
  s' ← clear_loop (suc lst.length) lst lst.first s
  ok (record lst { first = null; tail = head; length = 0 }, s')

unfoldable pub close_llist : LList → Nodes → Run Nodes
close_llist lst s = do (lst', s') ← llist_clear lst s; ok s'

abbrev pub llist_len : LList → ℕ
llist_len lst = lst.length

abbrev pub llist_front_node : LList → Link
llist_front_node lst = lst.first

abbrev pub llist_back_node : LList → Link
llist_back_node lst = lst.tail

abbrev pub llist_before_front_node : LList → Link
llist_before_front_node lst = head

-- the node that is asked about is not looked at
abbrev pub llist_is_node_before_front : LList → Link → Bool
llist_is_node_before_front lst back = elim (lst.tail) [
  | null ↦ false
  | head ↦ true
  | node p ↦ false
]

-- A TRAVERSE with its `param`: whether it stops the traversal, and what it makes of `param`.
abbrev pub Traverse : Type 0 → Type 0
Traverse P = Value → P → Bool × P

traverse_loop : {P : Type 0} → Traverse P → (fuel : ℕ) → Link → P → Nodes → Run P
traverse_loop visit zero p param s = out_of_fuel
traverse_loop visit (suc fuel) null param s = ok param
traverse_loop visit (suc fuel) head param s = fault bounds
traverse_loop visit (suc fuel) (node p) param s = do
  (q, n) ← fetch (node p) s
  let (stop, after) = visit n.value param
  let rest = traverse_loop visit fuel n.next after s
  if stop then ok after else rest

unfoldable pub llist_traversal : {P : Type 0} → LList → Traverse P → P → Nodes → Run P
unfolding traverse_loop
llist_traversal lst visit param s = traverse_loop visit (suc lst.length) lst.first param s

-- `lst->tail->next = ...`, with the list and the memory after it
pub link_after : Link → LList → Link → Nodes → Run (LList × Nodes)
link_after null lst p s = fault bounds
link_after head lst p s = ok (record lst { first = p }, s)
link_after (node t) lst p s = do
  (q, n) ← fetch (node t) s
  ok (lst, put_node t (some (record n { next = p })) s)

unfoldable pub link_tail : LList → Link → Nodes → Run (LList × Nodes)
unfolding link_after
link_tail lst p s = link_after lst.tail lst p s

unfoldable pub llist_push_back : LList → Value → Nodes → Run (LList × Nodes)
llist_push_back lst value s = do
  let (fresh, s1) = new lst s
  (p, n) ← fetch fresh s1
  (lst', s2) ← link_tail lst fresh (put_node p (some (record { value = value; next = null })) s1)
  ok (record lst' { tail = fresh; length = lst.length + 1 }, s2)
