-- ===== src/Heap.antt =====
-- src/heap.c: a binary heap in a slice. A sift takes the pointer into the array that
-- `slice_data` gives: the whole array and the place `d` where the slice starts.
pub mod Spec
pub mod Hole
pub mod Up
pub mod Down
pub mod Window
pub mod Push
pub mod Pop
mod Tests
use c_algorithm.Base.{
  ℕ, zero, suc, ◌+◌, ◌-◌, ◌*◌, ◌/◌, ltb, ◌==◌, ◌&&◌, if◌then◌else◌, Bool, true, false, List, Value,
  empty_value, Run, ok, out_of_fuel, load, store,
}
use c_algorithm.Base
use c_algorithm.Order.{Compare, gt}
use c_algorithm.Memory.{Cmd, pure, lift, ◌>>=◌, ◌>>◌, deref, put}
use c_algorithm.Array.{open_array_by_data, close_array}
use c_algorithm.Slice.{
  Slice, open_slice, open_slice_by_array, close_slice, slice_len, slice_get, slice_set,
  slice_append, slice_pop,
}

-- the `for` of _heap_sift_up, with the place and the array that it ends with
pub up_loop : Compare → ℕ → (fuel i : ℕ) (k : Value) → List Value → Run (ℕ × List Value)
up_loop cmp d zero i k a = out_of_fuel
up_loop cmp d (suc fuel) i k a =
    if i == 0
    then ok (i, a)
    else Base.◌>>=◌ (load a (d + (i - 1) / 2)) λ x.
      if gt cmp x k
      then Base.◌>>=◌ (store a (d + i) x) (λ b. up_loop cmp d fuel ((i - 1) / 2) k b)
      else ok (i, a)

-- `if (i != index) arr[i] = k`
pub put_back : ℕ → ℕ → Value → ℕ × List Value → Run (List Value)
put_back d index k (i, a) = if i == index then ok a else store a (d + i) k

unfoldable pub sift_up : List Value → ℕ → (size index : ℕ) → Compare → Run (List Value)
unfolding up_loop put_back
sift_up a d size index cmp =
    Base.◌>>=◌ (load a (d + index))
      λ k. Base.◌>>=◌ (up_loop cmp d (suc index) index k a) (put_back d index k)

-- the child of the place `i` that _heap_sift_down goes on with: the left one unless the right one is less
pub lesser_child : Compare → List Value → ℕ → (size c : ℕ) → Run ℕ
lesser_child cmp a d size c =
    if ltb (c + 1) size
    then (Base.◌>>=◌ (load a (d + c))
        λ x. Base.◌>>=◌ (load a (d + (c + 1))) λ y. ok (if gt cmp x y then c + 1 else c))
    else ok c

-- the `for` of _heap_sift_down
pub down_loop : Compare → ℕ → (size fuel i : ℕ) (k : Value) → List Value → Run (ℕ × List Value)
unfolding lesser_child
down_loop cmp d size zero i k a = out_of_fuel
down_loop cmp d size (suc fuel) i k a =
    if ltb (2 * i + 1) size
    then (Base.◌>>=◌ (lesser_child cmp a d size (2 * i + 1)) λ c. Base.◌>>=◌ (load a (d + c)) λ x.
        if gt cmp k x
        then Base.◌>>=◌ (store a (d + i) x) (λ b. down_loop cmp d size fuel c k b)
        else ok (i, a))
    else ok (i, a)

unfoldable pub sift_down : List Value → ℕ → (size index : ℕ) → Compare → Run (List Value)
unfolding down_loop put_back
sift_down a d size index cmp =
    Base.◌>>=◌ (load a (d + index))
      λ k. Base.◌>>=◌ (down_loop cmp d size (suc size) index k a) (put_back d index k)

-- the `for` of _heap_build, down from `i - 1`
pub build_loop : Compare → ℕ → (size i : ℕ) → List Value → Run (List Value)
build_loop cmp d size zero a = ok a
build_loop cmp d size (suc i) a = Base.◌>>=◌ (sift_down a d size i cmp) (build_loop cmp d size i)

pub record Heap : Type 0 where
  pub compare : Compare
  pub items : Slice

-- a sift of the entries of a slice
abbrev pub in_slice : Slice → (List Value → ℕ → Run (List Value)) → Cmd (Unit {0})
in_slice sli sift = do
  b ← deref sli.array
  items ← lift (sift b.items sli.start)
  put sli.array (record b { items = items })

unfoldable pub heap_build : Heap → Cmd (Unit {0})
unfolding build_loop
heap_build hp =
    let size = slice_len hp.items in
    in_slice hp.items (λ a d. build_loop hp.compare d size (size / 2) a)

pub open_heap : Compare → ℕ → Cmd Heap
open_heap cmp cap = do sli ← open_slice 0 cap; pure (record { compare = cmp; items = sli })

pub open_heap_by_data : Compare → List Value → ℕ → Cmd Heap
open_heap_by_data cmp values cap = do
  arr ← open_array_by_data values cap
  sli ← open_slice_by_array arr 0 cap
  close_array arr
  let hp : Heap = record { compare = cmp; items = sli }
  heap_build hp
  pure hp

pub close_heap : Heap → Cmd (Unit {0})
close_heap hp = close_slice hp.items

abbrev pub heap_len : Heap → ℕ
heap_len hp = slice_len hp.items

unfoldable pub heap_push : Heap → Value → Cmd Heap
heap_push hp value = do
  let index = slice_len hp.items
  sli ← slice_append hp.items value
  in_slice sli (λ a d. sift_up a d (slice_len sli) index hp.compare)
  pure (record hp { items = sli })

-- the value, whether `*empty` is set, and the heap
unfoldable pub heap_pop : Heap → Cmd (Value × Bool × Heap)
heap_pop hp =
    let len = slice_len hp.items in
    if len == 0
    then pure (empty_value, true, hp)
    else if len == 1
    then (slice_pop hp.items (len - 1) >>= λ (v, sli). pure (v, false, record hp { items = sli }))
    else do
      (v, sli) ← slice_pop hp.items (len - 1)
      ret ← slice_set sli 0 v
      in_slice sli (λ a d. sift_down a d (len - 1) 0 hp.compare)
      pure (ret, false, record hp { items = sli })

unfoldable pub heap_top : Heap → Cmd Value
heap_top hp = if slice_len hp.items == 0 then pure empty_value else slice_get hp.items 0

abbrev pub heap_data : Heap → Slice
heap_data hp = hp.items
