-- ===== src/Slice.antt =====
-- src/array.c: struct slice, a window on an array. A `struct slice` is a record outside the
-- memory, so a function that updates one returns the new record; the arrays are shared.
pub mod Holds
pub mod Access
pub mod Grow
pub mod Append
pub mod Pop
pub mod Insert
mod Tests
use c_algorithm.Base.{
  ℕ, zero, suc, ◌+◌, ◌-◌, ◌/◌, ltb, leb, ◌==◌, if◌then◌else◌, Value, load, store, Run, ok, fault,
  overlap, ◌||◌, List,
}
use c_algorithm.Memory.{
  Block, Store, Cmd, pure, lift, ◌>>=◌, ◌>>◌, require, deref, put, copy, long_max, array_max_size,
}
use c_algorithm.Array.{open_array, assign_array, close_array}

pub record Slice : Type 0 where
  pub array : ℕ
  pub start : ℕ
  pub len : ℕ

pub open_slice : (len cap : ℕ) → Cmd Slice
open_slice len cap = do
  require (leb len cap)
  p ← open_array cap
  pure (record { array = p; start = 0; len = len })

pub open_slice_by_array : (arr start end : ℕ) → Cmd Slice
open_slice_by_array arr start end = do
  b ← deref arr
  require (leb start end)
  require (leb end b.cap)
  p ← assign_array arr
  pure (record { array = p; start = start; len = end - start })

pub open_slice_by_slice : Slice → (start end : ℕ) → Cmd Slice
open_slice_by_slice sli start end = do
  require (leb start end)
  b ← deref sli.array
  require (leb (sli.start + end) b.cap)
  p ← assign_array sli.array
  pure (record { array = p; start = sli.start + start; len = end - start })

pub close_slice : Slice → Cmd (Unit {0})
close_slice sli = close_array sli.array

abbrev pub slice_len : Slice → ℕ
slice_len sli = sli.len

abbrev pub slice_pos : Slice → ℕ
slice_pos sli = sli.start

pub slice_cap : Slice → Cmd ℕ
slice_cap sli = do b ← deref sli.array; pure (b.cap - sli.start)

unfoldable pub slice_get : Slice → ℕ → Cmd Value
slice_get sli index = do
  require (ltb index sli.len)
  b ← deref sli.array
  lift (load b.items (sli.start + index))

-- the old value is returned
unfoldable pub slice_set : Slice → ℕ → Value → Cmd Value
slice_set sli index value = do
  require (ltb index sli.len)
  b ← deref sli.array
  v ← lift (load b.items (sli.start + index))
  items ← lift (store b.items (sli.start + index) value)
  put sli.array (record b { items = items })
  pure v

-- the capacity of the array that slice_grow makes
pub grown_cap : (old_cap mincap : ℕ) → ℕ
grown_cap old_cap mincap =
    let half = old_cap + old_cap / 2 in
    let new_cap = if ltb half mincap then mincap else half in
    if ltb array_max_size new_cap
    then (if ltb array_max_size mincap then long_max else array_max_size)
    else new_cap

pub slice_grow : Slice → ℕ → Cmd Slice
unfolding grown_cap
slice_grow sli mincap = do
  b ← deref sli.array
  let old_cap = b.cap - sli.start
  new_arr ← open_array (grown_cap old_cap (mincap - sli.start))
  n ← deref new_arr
  items ← lift (copy b.items sli.start old_cap n.items 0)
  put new_arr (record n { items = items })
  close_array sli.array
  pure (record { array = new_arr; start = 0; len = sli.len })

-- the slice itself while there is room, and else a grown one
pub make_room : Slice → Cmd Slice
unfolding slice_grow
make_room sli = do
  b ← deref sli.array
  if (sli.start + sli.len) == b.cap then slice_grow sli (b.cap + 1) else pure sli

unfoldable pub slice_append : Slice → Value → Cmd Slice
unfolding make_room
slice_append sli value = do
  sli ← make_room sli
  b ← deref sli.array
  items ← lift (store b.items (sli.start + sli.len) value)
  put sli.array (record b { items = items })
  pure (record sli { len = sli.len + 1 })

-- The source moves the entries from the start of the slice, not those from `index` on.
unfoldable pub slice_insert : Slice → ℕ → Value → Cmd Slice
unfolding make_room
slice_insert sli index value = do
  require (leb index sli.len)
  sli ← make_room sli
  b ← deref sli.array
  let tomove = sli.len - index
  moved ←
      lift
        (if ltb 0 tomove then copy b.items sli.start tomove b.items (sli.start + 1) else ok b.items)
  items ← lift (store moved (sli.start + index) value)
  put sli.array (record b { items = items })
  pure (record sli { len = sli.len + 1 })

-- `memcpy` of `n` entries within one array, undefined where the parts overlap
unfoldable pub copy_within : List Value → (from n to : ℕ) → Run (List Value)
copy_within a from n to =
    if leb (from + n) to || leb (to + n) from then copy a from n a to else fault overlap

pub slice_pop : Slice → ℕ → Cmd (Value × Slice)
unfolding copy_within
slice_pop sli index = do
  require (ltb index sli.len)
  b ← deref sli.array
  v ← lift (load b.items (sli.start + index))
  let next = index + 1
  items ← lift (
      if ltb next sli.len
      then copy_within b.items (sli.start + next) (sli.len - next) (sli.start + index)
      else ok b.items)
  put sli.array (record b { items = items })
  pure (v, record sli { len = sli.len - 1 })
