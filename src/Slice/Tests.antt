-- ===== src/Slice/Tests.antt =====
-- Slices on a small array, and their theorems at them.
use c_algorithm.Base.{
  ◌≡◌, refl, List, [], ◌∷◌, arith, none, some, ok, load, store, ◌==◌, if◌then◌else◌, Value, Returns,
  ◌>>=◌, ◌+◌, ◌≤◌, ◌<◌, ◌⊎◌, fault, overlap,
}
use c_algorithm.Memory.{Block, Store, IsStore, deref, copy}
use c_algorithm.Slice.{Slice, slice_get, slice_append, slice_insert, slice_pop}
use c_algorithm.Slice.Holds.{Holds}
use c_algorithm.Slice.Append.{Updated, slice_append-Updated}
use c_algorithm.Slice.Pop.{Popped, slice_pop-overlap, slice_pop-Popped_or_overlap}
use c_algorithm.Slice.Insert.{Inserted, slice_insert-Inserted}

abbrev shared_block : Block
shared_block = record { cap = 4; ref = 2; items = 10 ∷ 20 ∷ 30 ∷ 40 ∷ [] }

abbrev memory : Store
memory = record {
  block = λ p. if p == 1 then some shared_block else none;
  next = 2;
  avail = 100;
  junk = 7;
}

-- two windows that overlap at the entry 30
abbrev left_slice : Slice
left_slice = record { array = 1; start = 0; len = 3 }

abbrev right_slice : Slice
right_slice = record { array = 1; start = 2; len = 2 }

memory-IsStore : IsStore memory
memory-IsStore = record {
  fresh = λ p h. ground arith;
  not_null = omega arith;
  bounded = omega arith;
}

abbrev left_entries : List Value
left_entries = 10 ∷ 20 ∷ 30 ∷ []

abbrev right_entries : List Value
right_entries = 30 ∷ 40 ∷ []

abbrev left-Holds : Holds memory left_slice left_entries
left-Holds = record {
  block = shared_block;
  found = refl;
  not_null = omega arith;
  live = omega arith;
  size = refl;
  run = (omega arith, refl, (omega arith, refl, (omega arith, refl, omega arith)));
  count = refl;
}

abbrev right-Holds : Holds memory right_slice right_entries
right-Holds = record {
  block = shared_block;
  found = refl;
  not_null = omega arith;
  live = omega arith;
  size = refl;
  run = (omega arith, refl, (omega arith, refl, omega arith));
  count = refl;
}

slice_append-Updated_example :
    Returns (Updated memory right_slice (30 ∷ 40 ∷ 50 ∷ [])) (slice_append right_slice 50 memory)
slice_append-Updated_example =
    slice_append-Updated memory right_slice right_entries 50 right-Holds memory-IsStore
      (omega arith)

slice_pop-Popped_or_overlap_example :
    (3 ≤ 1 + 2) × Returns (Popped memory left_slice left_entries 1) (slice_pop left_slice 1 memory)
    ⊎ (1 + 2 < 3) × (slice_pop left_slice 1 memory ≡ fault overlap)
slice_pop-Popped_or_overlap_example =
    slice_pop-Popped_or_overlap memory left_slice left_entries left-Holds 1 (omega arith)
      memory-IsStore

-- the first of three entries
first_popped : slice_pop left_slice 0 memory ≡ fault overlap
first_popped =
    slice_pop-overlap memory left_slice left_entries left-Holds 0 (omega arith) (omega arith)

slice_insert-Inserted_example :
    Returns (Inserted memory left_slice left_entries 1 50) (slice_insert left_slice 1 50 memory)
slice_insert-Inserted_example =
    slice_insert-Inserted memory left_slice left_entries 1 50 left-Holds memory-IsStore
      (omega arith) (omega arith)

-- what an insertion into the middle leaves: the last of the four entries is not the 30, which is lost
inserted_entries :
    (slice_insert left_slice 1 50 memory >>= λ (sli, t). slice_get sli 3 t >>= λ (v, t'). ok v)
    ≡ ok 40
unfolding slice_insert slice_get deref copy load store
inserted_entries = refl
