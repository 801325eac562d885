-- ===== src/Stack/Tests.antt =====
-- A stack on a full array of two entries.
use c_algorithm.Base.{◌≡◌, refl, [], ◌∷◌, arith, none, some, false, Returns, ◌==◌, if◌then◌else◌}
use c_algorithm.Memory
use c_algorithm.Memory.{Block, Store, IsStore}
use c_algorithm.Slice.Holds.{Holds}
use c_algorithm.Stack.{Stack, stack_push, stack_pop}
use c_algorithm.Stack.Laws.{StackHolds, stack_pop-push}

abbrev memory : Store
memory = record {
  block = λ p. if p == 3 then some (record { cap = 2; ref = 1; items = 8 ∷ 9 ∷ [] }) else none;
  next = 4;
  avail = 100;
  junk = 7;
}

memory-IsStore : IsStore memory
memory-IsStore = record {
  fresh = λ p h. ground arith;
  not_null = omega arith;
  bounded = omega arith;
}

abbrev two_items : Stack
two_items = record { items = record { array = 3; start = 0; len = 2 } }

abbrev two_items-Holds : Holds memory (two_items.items) (8 ∷ 9 ∷ [])
two_items-Holds = record {
  block = record { cap = 2; ref = 1; items = 8 ∷ 9 ∷ [] };
  found = refl;
  not_null = omega arith;
  live = omega arith;
  size = refl;
  run = (omega arith, refl, (omega arith, refl, omega arith));
  count = refl;
}

stack_pop-push_example :
    Returns
      (λ ((v, emptied, st), s). (v ≡ 5) × (emptied ≡ false) × StackHolds (8 ∷ 9 ∷ []) st s)
      (Memory.◌>>=◌ (stack_push two_items 5) stack_pop memory)
stack_pop-push_example =
    stack_pop-push memory two_items (8 ∷ 9 ∷ []) 5 two_items-Holds memory-IsStore (omega arith)
