-- ===== src/Deque.antt =====
-- src/deque.c: a ring of values in an array. `front` and `back` are -1 in an empty deque.
pub mod Ring
pub mod Holds
pub mod Grow
pub mod Push
pub mod Pop
mod Tests
use c_algorithm.Base.{
  ℕ, zero, suc, ◌+◌, ◌-◌, leb, ltb, ◌==◌, if◌then◌else◌, Bool, true, false, List, ℤ, pos, negsuc,
  is_pos, is_neg, suc_ℤ, pred_ℤ, add_ℕ, sub_ℤ, sub_ℕ, is_minus_one, is_nat, same_ℤ, Value,
  empty_value, Run, ok, fault, bounds,
}
use c_algorithm.Base
use c_algorithm.Memory.{Cmd, pure, lift, ◌>>=◌, ◌>>◌, require, deref, put, copy}
use c_algorithm.Array.{open_array, close_array, array_cap, array_get, array_set, write_at}
use c_algorithm.Slice.{grown_cap}

pub record Deque : Type 0 where
  pub array : ℕ
  pub front : ℤ
  pub back : ℤ

-- `if (cap < 1) cap = 1`
pub open_deque : ℕ → Cmd Deque
open_deque cap = do
  p ← open_array (if ltb cap 1 then 1 else cap)
  pure (record { array = p; front = negsuc 0; back = negsuc 0 })

pub close_deque : Deque → Cmd (Unit {0})
close_deque dq = close_array dq.array

-- the length that deque_len, the pushes and deque_grow compute from `back - front` and the capacity
abbrev pub ring_len : ℤ → ℕ → ℤ
ring_len off cap = if is_neg off then suc_ℤ (add_ℕ off cap) else suc_ℤ off

unfoldable pub deque_len : Deque → Cmd ℤ
deque_len dq = do cap ← array_cap dq.array; pure (ring_len (sub_ℤ dq.back dq.front) cap)

pub deque_cap : Deque → Cmd ℕ
deque_cap dq = array_cap dq.array

-- an offset or a count that `memcpy` is given; a negative one leads outside
abbrev pub offset : ℤ → Run ℕ
offset (pos n) = ok n
offset (negsuc n) = fault bounds

-- the entries of the ring in the order from the front, in a new array of junk
pub unrolled : List Value → ℕ → (front back : ℤ) → List Value → Run (List Value)
unrolled old old_cap front back fresh = Base.◌>>=◌ (offset front) λ f.
    if is_neg (sub_ℤ back front)
    then (let copied = old_cap - f in
        Base.◌>>=◌ (copy old f copied fresh 0)
          λ items. Base.◌>>=◌ (offset (suc_ℤ back)) λ n. copy old 0 n items copied)
    else Base.◌>>=◌ (offset (suc_ℤ (sub_ℤ back front))) (λ n. copy old f n fresh 0)

pub deque_grow : Deque → ℕ → Cmd Deque
unfolding unrolled
deque_grow dq mincap = do
  b ← deref dq.array
  new_arr ← open_array (grown_cap b.cap mincap)
  n ← deref new_arr
  items ← lift (unrolled b.items b.cap dq.front dq.back n.items)
  put new_arr (record n { items = items })
  close_array dq.array
  let len = ring_len (sub_ℤ dq.back dq.front) b.cap
  pure (record { array = new_arr; front = pos 0; back = pred_ℤ len })

-- `index = front + index`, and less the capacity if that is positive
pub ring_index : Deque → ℕ → ℕ → ℤ
ring_index dq cap index =
    let place = add_ℕ dq.front index in
    let wrapped = sub_ℤ place (pos cap) in if is_pos wrapped then wrapped else place

unfoldable pub deque_get : Deque → ℕ → Cmd Value
unfolding ring_index
deque_get dq index = do
  len ← deque_len dq
  require (is_pos (sub_ℤ len (pos index)))
  cap ← array_cap dq.array
  array_get dq.array (ring_index dq cap index)

unfoldable pub deque_set : Deque → ℕ → Value → Cmd Value
unfolding ring_index
deque_set dq index value = do
  len ← deque_len dq
  require (is_pos (sub_ℤ len (pos index)))
  cap ← array_cap dq.array
  array_set dq.array (ring_index dq cap index) value

-- `if (len == cap) deque_grow(dq, cap + 1)` at the end of a push
pub grow_if_full : Deque → ℕ → Cmd Deque
unfolding deque_grow
grow_if_full dq cap =
    if is_nat (ring_len (sub_ℤ dq.back dq.front) cap) cap then deque_grow dq (cap + 1) else pure dq

unfoldable pub deque_push_front : Deque → Value → Cmd Deque
unfolding grow_if_full
deque_push_front dq value = do
  let back = if is_minus_one dq.front then pos 0 else dq.back
  b ← deref dq.array
  let before = pred_ℤ dq.front
  let front = if is_minus_one before then add_ℕ before b.cap else before
  items ← lift (write_at b.items front value)
  put dq.array (record b { items = items })
  grow_if_full (record { array = dq.array; front = front; back = back }) b.cap

unfoldable pub deque_push_back : Deque → Value → Cmd Deque
unfolding grow_if_full
deque_push_back dq value = do
  let front = if is_minus_one dq.back then pos 0 else dq.front
  b ← deref dq.array
  let after = suc_ℤ dq.back
  let back = if is_nat after b.cap then pos 0 else after
  items ← lift (write_at b.items back value)
  put dq.array (record b { items = items })
  grow_if_full (record { array = dq.array; front = front; back = back }) b.cap

-- the value, whether `*empty` is set, and the deque
unfoldable pub deque_pop_front : Deque → Cmd (Value × Bool × Deque)
deque_pop_front dq = if is_minus_one dq.front then pure (empty_value, true, dq) else do
  v ← array_get dq.array dq.front
  cap ← array_cap dq.array
  let after = suc_ℤ dq.front
  let front = if is_nat after cap then pos 0 else after
  pure (
    v,
    false,
    if same_ℤ dq.front dq.back
        then record dq { front = negsuc 0; back = negsuc 0 }
        else record dq { front = front },
  )

unfoldable pub deque_pop_back : Deque → Cmd (Value × Bool × Deque)
deque_pop_back dq = if is_minus_one dq.back then pure (empty_value, true, dq) else do
  v ← array_get dq.array dq.back
  cap ← array_cap dq.array
  let before = pred_ℤ dq.back
  let back = if is_minus_one before then add_ℕ before cap else before
  pure (
    v,
    false,
    if same_ℤ dq.front dq.back
        then record dq { front = negsuc 0; back = negsuc 0 }
        else record dq { back = back },
  )

unfoldable pub deque_front : Deque → Cmd Value
deque_front dq = if is_minus_one dq.front then pure empty_value else array_get dq.array dq.front

unfoldable pub deque_back : Deque → Cmd Value
deque_back dq = if is_minus_one dq.back then pure empty_value else array_get dq.array dq.back

abbrev pub deque_data : Deque → ℕ
deque_data dq = dq.array
