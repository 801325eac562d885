-- ===== src/Deque/Tests.antt =====
-- A deque whose values wrap around the end of an array of four places.
use c_algorithm.Base.{
  ◌≡◌, refl, List, [], ◌∷◌, arith, none, some, inl, inr, fault, bounds, assertion, Value, pos,
  negsuc, Returns, ◌==◌, if◌then◌else◌,
}
use c_algorithm.Memory.{Block, Store, IsStore}
use c_algorithm.Deque.{
  Deque, deque_get, deque_push_front, deque_push_back, deque_pop_front, deque_pop_back,
}
use c_algorithm.Deque.Ring.{Ring}
use c_algorithm.Deque.Holds.{DequeHolds, deque_get-DequeHolds}
use c_algorithm.Deque.Grow.{Packed, DequeUpdated}
use c_algorithm.Deque.Push.{
  deque_push_back-DequeUpdated, deque_push_front-DequeUpdated, deque_push_front-nil,
}
use c_algorithm.Deque.Pop.{DequePopped, deque_pop_front-DequePopped, deque_pop_back-DequePopped}

abbrev ring_block : Block
ring_block = record { cap = 4; ref = 1; items = 30 ∷ 0 ∷ 10 ∷ 20 ∷ [] }

abbrev memory : Store
memory = record {
  block = λ p. if p == 1 then some ring_block else none;
  next = 2;
  avail = 100;
  junk = 7;
}

memory-IsStore : IsStore memory
memory-IsStore = record {
  fresh = λ p h. ground arith;
  not_null = omega arith;
  bounded = omega arith;
}

abbrev three_items : Deque
three_items = record { array = 1; front = pos 2; back = pos 0 }

abbrev three_values : List Value
three_values = 10 ∷ 20 ∷ 30 ∷ []

three_values-Ring : Ring 4 (ring_block.items) 2 0 three_values
three_values-Ring = record {
  front_in = omega arith;
  some_left = omega arith;
  fits = omega arith;
  last = refl;
  entry = λ k lt. ground arith;
}

abbrev three_items-DequeHolds : DequeHolds memory three_items three_values
three_items-DequeHolds = record {
  block = ring_block;
  found = refl;
  not_null = omega arith;
  live = omega arith;
  size = refl;
  ends = inr (2, 0, refl, refl, three_values-Ring);
  room = omega arith;
  store = memory-IsStore;
}

abbrev three_items-Packed : Packed memory three_items three_values
three_items-Packed = record {
  block = ring_block;
  found = refl;
  not_null = omega arith;
  live = omega arith;
  size = refl;
  f = 2;
  b = 0;
  at_front = refl;
  at_back = refl;
  ring = three_values-Ring;
  store = memory-IsStore;
}

deque_push_back-DequeUpdated_example :
    Returns (DequeUpdated memory 1 (10 ∷ 20 ∷ 30 ∷ 40 ∷ [])) (deque_push_back three_items 40 memory)
deque_push_back-DequeUpdated_example =
    deque_push_back-DequeUpdated memory three_items three_values 40 three_items-DequeHolds
      (omega arith)

deque_push_front-DequeUpdated_example :
    Returns (DequeUpdated memory 1 (5 ∷ three_values)) (deque_push_front three_items 5 memory)
deque_push_front-DequeUpdated_example =
    deque_push_front-DequeUpdated memory three_items three_values 5 three_items-DequeHolds
      (omega arith) (omega arith)

deque_pop_front-DequePopped_example :
    Returns (DequePopped memory three_values 0) (deque_pop_front three_items memory)
deque_pop_front-DequePopped_example =
    deque_pop_front-DequePopped memory three_items three_values three_items-DequeHolds (omega arith)

deque_pop_back-DequePopped_example :
    Returns (DequePopped memory three_values 2) (deque_pop_back three_items memory)
deque_pop_back-DequePopped_example =
    deque_pop_back-DequePopped memory three_items three_values three_items-DequeHolds (omega arith)

-- the value 30 stands at the start of the array, where deque_get fails
deque_get-DequeHolds_example : deque_get three_items 2 memory ≡ fault assertion
deque_get-DequeHolds_example =
    deque_get-DequeHolds memory three_items three_values three_items-DequeHolds 2 2 (omega arith)
      refl

abbrev no_items : Deque
no_items = record { array = 1; front = negsuc 0; back = negsuc 0 }

no_items-DequeHolds : DequeHolds memory no_items []
no_items-DequeHolds = record {
  block = ring_block;
  found = refl;
  not_null = omega arith;
  live = omega arith;
  size = refl;
  ends = inl (refl, refl, refl);
  room = omega arith;
  store = memory-IsStore;
}

deque_push_front_when_empty : deque_push_front no_items 5 memory ≡ fault bounds
deque_push_front_when_empty = deque_push_front-nil memory no_items [] 5 no_items-DequeHolds refl
