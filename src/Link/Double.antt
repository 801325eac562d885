-- ===== src/Link/Double.antt =====
-- src/link.c: the doubly linked list, whose nodes come from `malloc`.
pub mod Laws
pub mod Push
mod Tests
use c_algorithm.Base.{
  ℕ, zero, suc, ◌+◌, ◌-◌, ◌==◌, if◌then◌else◌, Bool, true, false, Option, none, some, List, Value,
  Run, ok, fault, bounds, out_of_fuel, ◌>>=◌,
}
use c_algorithm.Link.{Link, null, head, node, Traverse}

-- struct dlnode
pub record DlNode : Type 0 where
  pub value : Value
  pub next : Link
  pub prev : Link

-- the nodes, the next address that `malloc` gives out, and the number of nodes for which there is
-- memory
pub record DlNodes : Type 0 where
  pub at_address : ℕ → Option DlNode
  pub unused : ℕ
  pub room : ℕ

-- the node at `p` becomes `c`
abbrev pub put_dlnode : ℕ → Option DlNode → DlNodes → DlNodes
put_dlnode p c s = record s { at_address = λ q. if q == p then c else s.at_address q }

-- `head.prev` points to the head and is never read
pub record DlList : Type 0 where
  pub first : Link
  pub tail : Link
  pub length : ℕ

abbrev pub open_dllist : DlList
open_dllist = record { first = null; tail = head; length = 0 }

-- what `node->` leads to
unfoldable pub fetch_dlnode : ℕ → DlNodes → Run DlNode
fetch_dlnode p s = elim (s.at_address p) [ none ↦ fault bounds | some n ↦ ok n ]

-- the `for` of dllist_clear
dlclear_loop : (fuel : ℕ) → Link → DlNodes → Run DlNodes
dlclear_loop zero p s = out_of_fuel
dlclear_loop (suc fuel) null s = ok s
dlclear_loop (suc fuel) head s = fault bounds
dlclear_loop (suc fuel) (node p) s = do
  n ← fetch_dlnode p s
  dlclear_loop fuel n.next (put_dlnode p none s)

unfoldable pub dllist_clear : DlList → DlNodes → Run (DlList × DlNodes)
unfolding dlclear_loop
dllist_clear lst s = do
  s' ← dlclear_loop (suc lst.length) lst.first s
  ok (record { first = null; tail = head; length = 0 }, s')

unfoldable pub close_dllist : DlList → DlNodes → Run DlNodes
close_dllist lst s = do (lst', s') ← dllist_clear lst s; ok s'

abbrev pub dllist_len : DlList → ℕ
dllist_len lst = lst.length

-- the `for` from the first node on, up to NULL
forward_loop : {P : Type 0} → Traverse P → (fuel : ℕ) → Link → P → DlNodes → Run P
forward_loop visit zero p param s = out_of_fuel
forward_loop visit (suc fuel) null param s = ok param
forward_loop visit (suc fuel) head param s = fault bounds
forward_loop visit (suc fuel) (node p) param s = do
  n ← fetch_dlnode p s
  let (stop, after) = visit n.value param
  let rest = forward_loop visit fuel n.next after s
  if stop then ok after else rest

-- the `for` from the tail back, up to the head
backward_loop : {P : Type 0} → Traverse P → (fuel : ℕ) → Link → P → DlNodes → Run P
backward_loop visit zero p param s = out_of_fuel
backward_loop visit (suc fuel) null param s = fault bounds
backward_loop visit (suc fuel) head param s = ok param
backward_loop visit (suc fuel) (node p) param s = do
  n ← fetch_dlnode p s
  let (stop, after) = visit n.value param
  let rest = backward_loop visit fuel n.prev after s
  if stop then ok after else rest

unfoldable pub dlist_traversal : {P : Type 0} → DlList → Bool → Traverse P → P → DlNodes → Run P
unfolding forward_loop backward_loop
dlist_traversal lst reverse visit param s =
    if reverse
    then backward_loop visit (suc lst.length) lst.tail param s
    else forward_loop visit (suc lst.length) lst.first param s

-- `lst->tail->next = node`
pub dllink_after : Link → DlList → ℕ → DlNodes → Run (DlList × DlNodes)
dllink_after null lst p s = fault bounds
dllink_after head lst p s = ok (record lst { first = node p }, s)
dllink_after (node t) lst p s = do
  n ← fetch_dlnode t s
  ok (lst, put_dlnode t (some (record n { next = node p })) s)

-- a write through the NULL of a failed `malloc` is a fault
unfoldable pub dllist_push_back : DlList → Value → DlNodes → Run (DlList × DlNodes)
unfolding dllink_after
dllist_push_back lst value s =
    if s.room == 0
    then fault bounds
    else (let fresh : DlNode = record { value = value; next = null; prev = lst.tail } in
        let s1 : DlNodes = record (put_dlnode s.unused (some fresh) s) {
          unused = suc s.unused;
          room = s.room - 1;
        } in
        dllink_after lst.tail lst s.unused s1 >>= λ (lst', s2).
        ok (record { first = lst'.first; tail = node s.unused; length = lst.length + 1 }, s2))
