-- ===== src/Sort.antt =====
-- src/sort.c: the sorts of an array of VALUE in place. `arr` is the list of the array's entries,
-- and a function that writes to it returns the new list. An access outside the array is a fault.
-- A `for` with a fixed number of rounds recurs on the rounds left.
pub mod Spec
pub mod Insert
pub mod Bubble
pub mod Select
pub mod Quick
pub mod Merge
mod Tests
use c_algorithm.Base.{
  ℕ, zero, suc, ◌+◌, ◌-◌, true, false, List, ltb, ◌==◌, if◌then◌else◌, Value, Run, ok, out_of_fuel,
  load, store, to_int, ◌>>=◌,
}
use c_algorithm.Order.{Compare, gt}

-- `swap(&arr[i], &arr[j])`
unfoldable pub swap_at : List Value → ℕ → ℕ → Run (List Value)
swap_at a i j = do t ← load a i; y ← load a j; b ← store a i y; store b j t

-- the inner `for` of bubble_sort, from `j` for `n` rounds
bubble_pass : Compare → ℕ → ℕ → List Value → Run (List Value)
bubble_pass cmp zero j a = ok a
bubble_pass cmp (suc n) j a = do
  x ← load a (j - 1)
  y ← load a j
  b ← if gt cmp x y then swap_at a (j - 1) j else ok a
  bubble_pass cmp n (suc j) b

-- the outer `for`, down from `i`
bubble_loop : Compare → ℕ → List Value → Run (List Value)
bubble_loop cmp zero a = ok a
bubble_loop cmp (suc i) a = do b ← bubble_pass cmp (suc i) 1 a; bubble_loop cmp i b

unfoldable pub bubble_sort : List Value → ℕ → Compare → Run (List Value)
unfolding bubble_loop bubble_pass
bubble_sort a size cmp = bubble_loop cmp (size - 1) a

-- the inner `for` of select_sort: the index of a least entry so far
select_min : Compare → List Value → ℕ → ℕ → ℕ → Run ℕ
select_min cmp a zero j k = ok k
select_min cmp a (suc n) j k = do
  x ← load a k
  y ← load a j
  select_min cmp a n (suc j) (if gt cmp x y then j else k)

select_loop : Compare → ℕ → ℕ → ℕ → List Value → Run (List Value)
select_loop cmp size zero i a = ok a
select_loop cmp size (suc n) i a = do
  k ← select_min cmp a (size - i) i (i - 1)
  b ← if k == (i - 1) then ok a else swap_at a k (i - 1)
  select_loop cmp size n (suc i) b

unfoldable pub select_sort : List Value → ℕ → Compare → Run (List Value)
unfolding select_loop select_min
select_sort a size cmp = select_loop cmp size (size - 1) 1 a

-- The inner `for` of insert_sort, down from `j`; the result is the last `j` and the array
insert_shift : Compare → Value → ℕ → List Value → Run (ℕ × List Value)
insert_shift cmp k zero a = ok (zero, a)
insert_shift cmp k (suc j) a = do
  x ← load a j
  if gt cmp x k then (do b ← store a (suc j) x; insert_shift cmp k j b) else ok (suc j, a)

-- the outer `for`, with its `int i`, for the rounds left
insert_loop : Compare → ℕ → ℕ → List Value → Run (List Value)
insert_loop cmp zero i a = ok a
insert_loop cmp (suc n) i a = do
  k ← load a i
  (j, b) ← insert_shift cmp k i a
  c ← if j == i then ok b else store b j k
  i' ← to_int (i + 1)
  insert_loop cmp n i' c

unfoldable pub insert_sort : List Value → ℕ → Compare → Run (List Value)
unfolding insert_loop insert_shift
insert_sort a size cmp = insert_loop cmp (size - 1) 1 a

-- for (; j>i && compare(k, arr[j])<=0; --j);
scan_down : Compare → List Value → Value → ℕ → ℕ → Run ℕ
scan_down cmp a k i zero = ok zero
scan_down cmp a k i (suc j) =
    let rest = load a (suc j) >>= λ x. if gt cmp k x then ok (suc j) else scan_down cmp a k i j in
    if ltb i (suc j) then rest else ok (suc j)

-- for (; i<j && compare(arr[i], k)<=0; ++i); with `n` for j - i
scan_up : Compare → List Value → Value → ℕ → ℕ → Run ℕ
scan_up cmp a k zero i = ok i
scan_up cmp a k (suc n) i = do x ← load a i; if gt cmp x k then ok i else scan_up cmp a k n (suc i)

-- if (j > i) { arr[i++] = arr[j]; }
fill_left : List Value → ℕ → ℕ → Run (ℕ × List Value)
fill_left a i j = if ltb i j then (do x ← load a j; b ← store a i x; ok (suc i, b)) else ok (i, a)

-- if (i < j) { arr[j--] = arr[i]; }
fill_right : List Value → ℕ → ℕ → Run (ℕ × List Value)
fill_right a i j = if ltb i j then (do x ← load a i; b ← store a j x; ok (j - 1, b)) else ok (j, a)

-- the `while` of _quick_sort: the last `i` and the array
pub partition : Compare → Value → ℕ → ℕ → ℕ → List Value → Run (ℕ × List Value)
partition cmp k zero i j a = out_of_fuel
partition cmp k (suc f) i j a = elim (ltb i j) [
  | true ↦ do
    j' ← scan_down cmp a k i j
    (i1, b) ← fill_left a i j'
    i2 ← scan_up cmp b k (j' - i1) i1
    (j2, c) ← fill_right b i2 j'
    partition cmp k f i2 j2 c
  | false ↦ ok (i, a)
]

pub quick_range : Compare → ℕ → ℕ → ℕ → List Value → Run (List Value)
quick_range cmp zero l r a = out_of_fuel
quick_range cmp (suc f) l r a = do
  k ← load a l
  (i, b) ← partition cmp k (suc (r - l)) l r a
  c ← store b i k
  d ← elim (ltb l (i - 1)) [ true ↦ quick_range cmp f l (i - 1) c | false ↦ ok c ]
  elim (ltb (i + 1) r) [ true ↦ quick_range cmp f (i + 1) r d | false ↦ ok d ]

unfoldable pub quick_sort : List Value → ℕ → Compare → Run (List Value)
unfolding quick_range partition scan_down scan_up fill_left fill_right
quick_sort a size cmp = if ltb 1 size then quick_range cmp size 0 (size - 1) a else ok a
