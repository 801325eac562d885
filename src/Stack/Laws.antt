-- ===== src/Stack/Laws.antt =====
-- The stack as a list whose last entry is the top.
use c_algorithm.Base.{
  ◌+◌, ◌-◌, ◌*◌, ◌≤◌, ◌<◌, ◌≡◌, ◌∙◌, refl, List, [], ◌∷◌, ◌++◌, arith, length, length-append, ◌==◌,
  true, false, Value, empty_value, at, get_or-append, ok, Returns, returns, Returns-bind,
  Returns-map,
}
use c_algorithm.Memory.{Store, IsStore, ◌>>=◌}
use c_algorithm.Slice.Holds.{Holds}
use c_algorithm.Slice.Access.{slice_get-Holds}
use c_algorithm.Slice.Append.{slice_append-Updated}
use c_algorithm.Slice.Pop.{remove_at, remove_at-last, slice_pop-Popped}
use c_algorithm.Stack.{Stack, stack_push, stack_pop, stack_top}

abbrev pub top_of : List Value → Value
top_of xs = at xs (length xs - 1)

abbrev pub below_top : List Value → List Value
below_top xs = remove_at xs (length xs - 1)

module _ (s : Store) (st : Stack) (xs : List Value) (h : Holds s st.items xs) where
  -- On an empty stack stack_pop sets `*empty`, returns EMPTY_VALUE and changes nothing, and
  -- stack_top returns EMPTY_VALUE.
  pub stack_pop-nil :
      length xs ≡ 0
      → (stack_pop st s ≡ ok ((empty_value, true, st), s)) × (stack_top st s ≡ ok (empty_value, s))
  unfolding stack_pop stack_top
  stack_pop-nil none_left =
      let zero_len : (st.items.len == 0) ≡ true = ground (arith, h.count) in
      (rw zero_len refl, rw zero_len refl)

  -- stack_top of a stack that is not empty returns the last value and changes nothing
  pub stack_top-last : 0 < length xs → stack_top st s ≡ ok (top_of xs, s)
  unfolding stack_top
  stack_top-last some_left =
      let some_len : (st.items.len == 0) ≡ false = ground (arith, h.count) in
      let last : st.items.len - 1 ≡ length xs - 1 = omega (arith, h.count) in
      rw (some_len, last) (slice_get-Holds s st.items xs h (length xs - 1) (omega arith))

-- what a call that pushes and a call that pops leave
pub record StackHolds (zs : List Value) (st : Stack) (s : Store) : Type 0 where
  pub held : Holds s st.items zs
  pub store : IsStore s

-- stack_push puts the value on top.
pub stack_push-Holds :
    (s : Store) (st : Stack) (xs : List Value) (v : Value) (h : Holds s st.items xs)
    → IsStore s
    → 2 * h.block.cap + 1 ≤ s.avail
    → Returns (λ (st', s'). StackHolds (xs ++ v ∷ []) st' s') (stack_push st v s)
unfolding stack_push
stack_push-Holds s st xs v h i memory =
    Returns-bind (slice_append-Updated s st.items xs v h i memory)
      λ (sli, t) u. returns (record { held = u.held; store = u.store })

-- stack_pop of a stack that is not empty returns the top without setting `*empty`.
pub stack_pop-Holds :
    (s : Store) (st : Stack) (xs : List Value)
    → Holds s st.items xs
    → IsStore s
    → 0 < length xs
    → Returns
        (λ ((v, emptied, st'), s').
          (v ≡ top_of xs) × (emptied ≡ false) × StackHolds (below_top xs) st' s')
        (stack_pop st s)
unfolding stack_pop
stack_pop-Holds s st xs h i some_left =
    let some_len : (st.items.len == 0) ≡ false = ground (arith, h.count) in
    let last : st.items.len - 1 ≡ length xs - 1 = omega (arith, h.count) in
    rw (some_len, last)
      (Returns-bind (slice_pop-Popped s st.items xs h (length xs - 1) (omega arith) (omega arith) i)
        λ ((v, sli), t) p. returns (p.value, refl, record { held = p.held; store = p.store }))

-- A stack_pop after a stack_push returns the pushed value, and leaves a stack of the values that
-- were there before.
pub stack_pop-push :
    (s : Store) (st : Stack) (xs : List Value) (v : Value) (h : Holds s st.items xs)
    → IsStore s
    → 2 * h.block.cap + 1 ≤ s.avail
    → Returns
        (λ ((w, emptied, st'), s'). (w ≡ v) × (emptied ≡ false) × StackHolds xs st' s')
        ((stack_push st v >>= stack_pop) s)
stack_pop-push s st xs v h i memory =
    Returns-bind (stack_push-Holds s st xs v h i memory) λ (st', t) p.
      Returns-map
        (stack_pop-Holds t st' (xs ++ v ∷ []) p.held p.store
          (omega (arith, length-append xs (v ∷ []))))
        λ ((w, emptied, st2), t2) (value, flag, left).
          let last : length (xs ++ v ∷ []) - 1 ≡ length xs =
            omega (arith, length-append xs (v ∷ [])) in
          (
            value ∙ rw last (get_or-append xs (v ∷ []) (length xs) 0 ∙ ground arith),
            flag,
            rw (last, remove_at-last xs v) at left,
          )
