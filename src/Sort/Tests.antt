-- ===== src/Sort/Tests.antt =====
-- The sorts on small arrays, and their theorems at such arrays.
use c_algorithm.Base.{
  ◌≡◌, refl, List, [], ◌∷◌, arith, sub_ℕ, Value, ok, load, store, to_int, Returns,
}
use c_algorithm.Order.{Compare, IsOrder}
use c_algorithm.Values.{asc_order_int, desc_order_int}
use c_algorithm.Sort.{bubble_sort, select_sort, insert_sort, quick_sort, swap_at}
use c_algorithm.Sort.Spec.{Sorts}
use c_algorithm.Sort.Insert.{insert_sort-Sorts}
use c_algorithm.Sort.Quick.{quick_sort-Sorts}
use c_algorithm.Sort.Merge.{merge_sort, sort}
use c_algorithm.Sort.Merge.Whole.{merge_sort-Sorts, sort-Sorts}

-- the order of the patterns as numbers
abbrev by_number : Compare
by_number = sub_ℕ

by_number-IsOrder : IsOrder by_number
by_number-IsOrder = record { total = λ a b h. ground arith; trans = λ a b c h k. ground arith }

abbrev input : List Value
input = 5 ∷ 3 ∷ 9 ∷ 1 ∷ 3 ∷ 7 ∷ []

abbrev junk : List Value
junk = 0 ∷ 0 ∷ 0 ∷ 0 ∷ 0 ∷ 0 ∷ []

insert_sort_run : insert_sort input 6 asc_order_int ≡ ok (1 ∷ 3 ∷ 3 ∷ 5 ∷ 7 ∷ 9 ∷ [])
unfolding load store insert_sort asc_order_int to_int
insert_sort_run = refl

bubble_sort_run : bubble_sort input 4 asc_order_int ≡ ok (1 ∷ 3 ∷ 5 ∷ 9 ∷ 3 ∷ 7 ∷ [])
unfolding load store bubble_sort swap_at asc_order_int
bubble_sort_run = refl

select_sort_run : select_sort input 6 desc_order_int ≡ ok (9 ∷ 7 ∷ 5 ∷ 3 ∷ 3 ∷ 1 ∷ [])
unfolding load store select_sort swap_at desc_order_int
select_sort_run = refl

quick_sort_run : quick_sort input 6 asc_order_int ≡ ok (1 ∷ 3 ∷ 3 ∷ 5 ∷ 7 ∷ 9 ∷ [])
unfolding load store quick_sort asc_order_int
quick_sort_run = refl

merge_sort_run : merge_sort junk input 6 asc_order_int ≡ ok (1 ∷ 3 ∷ 3 ∷ 5 ∷ 7 ∷ 9 ∷ [])
unfolding load store merge_sort asc_order_int to_int
merge_sort_run = refl

insert_sort-Sorts_example : Returns (Sorts by_number 5 input) (insert_sort input 5 by_number)
insert_sort-Sorts_example =
    insert_sort-Sorts by_number by_number-IsOrder input 5 (omega arith) (omega arith)

quick_sort-Sorts_example : Returns (Sorts by_number 5 input) (quick_sort input 5 by_number)
quick_sort-Sorts_example = quick_sort-Sorts by_number by_number-IsOrder input 5 (omega arith)

merge_sort-Sorts_example : Returns (Sorts by_number 5 input) (merge_sort junk input 5 by_number)
merge_sort-Sorts_example =
    merge_sort-Sorts by_number by_number-IsOrder junk input 5 (omega arith) (omega arith)
      (omega arith)

sort-Sorts_example : Returns (Sorts by_number 5 input) (sort junk input 5 by_number)
sort-Sorts_example =
    sort-Sorts by_number by_number-IsOrder junk input 5 (omega arith) (omega arith) (omega arith)
