-- ===== src/Sort/Merge.antt =====
-- src/sort.c: merge_sort and sort. `t` is the scratch array that `malloc` returns, with whatever
-- it holds.
pub mod Ascending
pub mod Take
pub mod Back
pub mod Step
pub mod Passes
pub mod Whole
use c_algorithm.Base.{
  ℕ, zero, suc, ◌+◌, ◌-◌, true, false, ◌&&◌, List, ltb, if◌then◌else◌, Value, Run, ok, out_of_fuel,
  load, store, to_int, ◌>>=◌,
}
use c_algorithm.Order.{Compare, gt}
use c_algorithm.Sort.{insert_sort}

-- while (l<ml && r<mr), with its `int j`: the last `l`, `r` and `j`, and the scratch array
pub merge_take :
    Compare → (ml mr : ℕ) → (fuel l r j : ℕ) → (a t : List Value) → Run (ℕ × ℕ × ℕ × List Value)
merge_take cmp ml mr zero l r j a t = out_of_fuel
merge_take cmp ml mr (suc f) l r j a t = elim (ltb l ml && ltb r mr) [
  | true ↦ do
    x ← load a l
    y ← load a r
    if gt cmp x y
        then (do t' ← store t j y; j' ← to_int (j + 1); merge_take cmp ml mr f l (suc r) j' a t')
        else (do t' ← store t j x; j' ← to_int (j + 1); merge_take cmp ml mr f (suc l) r j' a t')
  | false ↦ ok (l, r, j, t)
]

-- while (l < ml) { arr[--r] = arr[--ml]; } for `n` rounds: the last `r` and the array
pub merge_shift : (n ml r : ℕ) → List Value → Run (ℕ × List Value)
merge_shift zero ml r a = ok (r, a)
merge_shift (suc n) ml r a = do
  x ← load a (ml - 1)
  b ← store a (r - 1) x
  merge_shift n (ml - 1) (r - 1) b

-- while (j > 0) { arr[--r] = t[--j]; }
pub merge_back : (j r : ℕ) → (t a : List Value) → Run (List Value)
merge_back zero r t a = ok a
merge_back (suc j) r t a = do x ← load t j; b ← store a (r - 1) x; merge_back j (r - 1) t b

-- the body of the inner `for`: the runs from `l` up to `ml` and from there up to `mr`
pub merge_step : Compare → (l ml mr : ℕ) → (a t : List Value) → Run (List Value × List Value)
merge_step cmp l ml mr a t = do
  (l1, r1, j, t1) ← merge_take cmp ml mr (suc (mr - l)) l ml 0 a t
  (r2, b) ← merge_shift (ml - l1) ml r1 a
  c ← merge_back j r2 t1 b
  ok (c, t1)

-- if (mr > size) { mr = size; }
abbrev pub clip : ℕ → ℕ → ℕ
clip size mr = if ltb size mr then size else mr

-- for (l=0; l+i<size; l=mr)
pub merge_pass : Compare → (size i fuel l : ℕ) → (a t : List Value) → Run (List Value × List Value)
merge_pass cmp size i zero l a t = out_of_fuel
merge_pass cmp size i (suc f) l a t = elim (ltb (l + i) size) [
  | true ↦ do
    (b, t') ← merge_step cmp l (l + i) (clip size (l + i + i)) a t
    merge_pass cmp size i f (clip size (l + i + i)) b t'
  | false ↦ ok (a, t)
]

-- for (i=1; i<size; i+=i)
pub merge_loop : Compare → (size fuel i : ℕ) → (a t : List Value) → Run (List Value × List Value)
merge_loop cmp size zero i a t = out_of_fuel
merge_loop cmp size (suc f) i a t = elim (ltb i size) [
  | true ↦ do (b, t') ← merge_pass cmp size i (suc size) 0 a t; merge_loop cmp size f (i + i) b t'
  | false ↦ ok (a, t)
]

unfoldable pub merge_sort : (t a : List Value) → ℕ → Compare → Run (List Value)
unfolding merge_loop merge_pass merge_step merge_take merge_shift merge_back
merge_sort t a size cmp = do (b, t') ← merge_loop cmp size (suc size) 1 a t; ok b

unfoldable pub sort : (t a : List Value) → ℕ → Compare → Run (List Value)
unfolding merge_sort insert_sort
sort t a size cmp = if ltb 60 size then merge_sort t a size cmp else insert_sort a size cmp
