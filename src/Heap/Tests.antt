-- ===== src/Heap/Tests.antt =====
-- A heap of five entries, and the theorems at it.
use c_algorithm.Base.{
  ◌≡◌, refl, List, [], ◌∷◌, Perm, arith, none, some, ok, load, store, sub_ℕ, Value, Returns, ◌==◌,
  if◌then◌else◌,
}
use c_algorithm.Order.{Compare, IsOrder}
use c_algorithm.Memory.{Store, IsStore}
use c_algorithm.Slice.Holds.{Holds}
use c_algorithm.Heap.{Heap, heap_push, heap_pop, sift_up, sift_down}
use c_algorithm.Heap.Spec.{IsHeap}
use c_algorithm.Heap.Window.{HeapHolds}
use c_algorithm.Heap.Push.{heap_push-HeapHolds}
use c_algorithm.Heap.Pop.{LeastPopped, heap_pop-LeastPopped}

abbrev by_number : Compare
by_number = sub_ℕ

by_number-IsOrder : IsOrder by_number
by_number-IsOrder = record { total = λ a b h. ground arith; trans = λ a b c h k. ground arith }

abbrev entries : List Value
entries = 2 ∷ 5 ∷ 3 ∷ 9 ∷ 6 ∷ []

abbrev memory : Store
memory = record {
  block = λ p. if p == 1 then some (record { cap = 5; ref = 1; items = entries }) else none;
  next = 2;
  avail = 100;
  junk = 7;
}

memory-IsStore : IsStore memory
memory-IsStore = record {
  fresh = λ p h. ground arith;
  not_null = omega arith;
  bounded = omega arith;
}

abbrev five_items : Heap
five_items = record { compare = by_number; items = record { array = 1; start = 0; len = 5 } }

abbrev five_items-Holds : Holds memory (five_items.items) entries
five_items-Holds = record {
  block = record { cap = 5; ref = 1; items = entries };
  found = refl;
  not_null = omega arith;
  live = omega arith;
  size = refl;
  run = (
    omega arith,
    refl,
    (omega arith, refl, (omega arith, refl, (omega arith, refl, (omega arith, refl, omega arith)))),
  );
  count = refl;
}

in_order : IsHeap by_number entries
in_order p c child lt = ground arith

abbrev five_items-HeapHolds : HeapHolds by_number entries (five_items.items) memory
five_items-HeapHolds = record { held = five_items-Holds; store = memory-IsStore; heaped = in_order }

heap_push-HeapHolds_example :
    Returns
      (λ (hp, s). (zs : List Value) × HeapHolds by_number zs hp.items s × Perm zs (1 ∷ entries))
      (heap_push five_items 1 memory)
heap_push-HeapHolds_example =
    heap_push-HeapHolds by_number by_number-IsOrder memory five_items entries refl 1
      five_items-HeapHolds (omega arith)

heap_pop-LeastPopped_example :
    Returns
      (LeastPopped by_number by_number-IsOrder memory five_items entries refl)
      (heap_pop five_items memory)
heap_pop-LeastPopped_example =
    heap_pop-LeastPopped by_number by_number-IsOrder memory five_items entries refl
      five_items-HeapHolds (omega arith)

sift_down_run : sift_down (8 ∷ 5 ∷ 3 ∷ 9 ∷ 6 ∷ []) 0 5 0 by_number ≡ ok (3 ∷ 5 ∷ 8 ∷ 9 ∷ 6 ∷ [])
unfolding sift_down load store
sift_down_run = refl

sift_up_run : sift_up (0 ∷ 2 ∷ 5 ∷ 3 ∷ 1 ∷ []) 1 4 3 by_number ≡ ok (0 ∷ 1 ∷ 2 ∷ 3 ∷ 5 ∷ [])
unfolding sift_up load store
sift_up_run = refl
