-- ===== src/Heap/Pop.antt =====
-- heap_pop and heap_top: a heap as a collection of values of which a least one is taken.
use mathlib.Core.List.Perm
use c_algorithm.Base.{
  ℕ, zero, suc, ◌+◌, ◌-◌, ◌/◌, ◌≤◌, ◌<◌, ◌≡◌, ◌∙◌, sym, refl, List, ◌∷◌, Perm, arith, length,
  length-set, set, ltb, ltb→lt, ltb→le, lt→ltb, ◌==◌, ==→eq, ==→ne, Bool, true, false, Bool-cases,
  inl, inr, Value, empty_value, at, ok, Returns, returns, Returns-bind,
}
use c_algorithm.Order.{Compare, Le, IsOrder, Le_refl}
use c_algorithm.Swaps.{set-perm, at-set}
use c_algorithm.Memory.{Store, IsStore}
use c_algorithm.Memory.Laws.{write-IsStore}
use c_algorithm.Segments.{Seg-at}
use c_algorithm.Slice.{Slice}
use c_algorithm.Slice.Holds.{Holds, Holds-within, Holds-write}
use c_algorithm.Slice.Access.{Seg-set, slice_get-Holds, slice_set-ok}
use c_algorithm.Slice.Pop.{
  remove_at, length-remove_at, at-remove_at, remove_at-perm, slice_pop-Popped,
}
use c_algorithm.Heap.{Heap, in_slice, sift_down, heap_pop, heap_top}
use c_algorithm.Heap.Spec.{Child, IsHeap}
use c_algorithm.Heap.Down.{sift_down-Heaped}
use c_algorithm.Heap.Window.{HeapHolds, in_slice-HeapHolds}

-- no value of a heap is less than the first
pub IsHeap-least :
    (cmp : Compare) (o : IsOrder cmp) (xs : List Value)
    → IsHeap cmp xs
    → (n k : ℕ) → k ≤ n
    → k < length xs
    → Le cmp (at xs 0) (at xs k)
IsHeap-least cmp o xs h zero k le lt =
    let first : k ≡ 0 = omega arith in rw first (Le_refl cmp o (at xs 0))
IsHeap-least cmp o xs h (suc n) k le lt = elim (Bool-cases (k == 0)) [
  | inl e ↦ rw (==→eq k 0 e) (Le_refl cmp o (at xs 0))
  | inr e ↦
      let p = (k - 1) / 2 in
      o.trans (at xs 0) (at xs p) (at xs k)
        (IsHeap-least cmp o xs h n p (omega (arith, ==→ne k 0 e)) (omega arith))
        (h p k (omega (arith, ==→ne k 0 e), omega arith) lt)
]

-- the heap without its last entry, and another value in place of the first
Heaped-refill :
    (cmp : Compare) (xs : List Value) (v : Value)
    → IsHeap cmp xs
    → 1 < length xs
    → (p c : ℕ) → 0 < p
    → Child p c
    → c < length (set (remove_at xs (length xs - 1)) 0 v)
    → Le cmp
        (at (set (remove_at xs (length xs - 1)) 0 v) p)
        (at (set (remove_at xs (length xs - 1)) 0 v) c)
Heaped-refill cmp xs v h more p c pos child lt =
    rw (seen p pos (omega (arith, size)), seen c (omega arith) (omega (arith, size)))
      (h p c child (omega (arith, size)))
  where
    size : length (set (remove_at xs (length xs - 1)) 0 v) ≡ length xs - 1
    size = omega (
      arith,
      length-set (remove_at xs (length xs - 1)) 0 v,
      length-remove_at xs (length xs - 1) (omega arith),
    )

    seen :
        (k : ℕ)
        → 0 < k
        → k < length xs - 1
        → at (set (remove_at xs (length xs - 1)) 0 v) k ≡ at xs k
    seen k pos lt =
        let kept : at (set (remove_at xs (length xs - 1)) 0 v) k
            ≡ at (remove_at xs (length xs - 1)) k =
          at-set (remove_at xs (length xs - 1)) 0 k v
            (omega (arith, length-remove_at xs (length xs - 1) (omega arith)))
          ∙ ground arith in
        kept ∙ at-remove_at xs (length xs - 1) k ∙ rw (lt→ltb k (length xs - 1) lt) refl

-- _heap_sift_down of the first entry, where all but it are in heap order
sift_first :
    (cmp : Compare)
    → IsOrder cmp
    → (t : Store) (sli : Slice) (zs : List Value) (n : ℕ) → Holds t sli zs
    → IsStore t
    → 0 < n
    → n ≡ length zs
    → ((p c : ℕ) → 0 < p → Child p c → c < length zs → Le cmp (at zs p) (at zs c))
    → Returns
        (λ (done, t'). (ws : List Value) × HeapHolds cmp ws sli t' × Perm ws zs)
        (in_slice sli (λ a d. sift_down a d n 0 cmp) t)
sift_first cmp o t sli zs n h i some_left e behind =
    in_slice-HeapHolds cmp t sli zs h (λ a d. sift_down a d n 0 cmp) i
      (rw (← e) (
        sift_down-Heaped cmp o sli.start n 0 h.block.items some_left (omega (arith, Holds-within h))
          (λ p c l child lt.
            let seen_p = Seg-at h.block.items sli.start p zs h.run (omega arith) in
            let seen_c = Seg-at h.block.items sli.start c zs h.run (omega arith) in
            rw (seen_p, seen_c) (behind p c (omega arith) child (omega arith)))))

module _ (cmp : Compare) (o : IsOrder cmp) (s : Store) (hp : Heap) (xs : List Value)
    (same : hp.compare ≡ cmp) where
  -- On an empty heap heap_pop sets `*empty`, returns EMPTY_VALUE and changes nothing, and heap_top
  -- returns EMPTY_VALUE.
  pub heap_pop-nil :
      hp.items.len ≡ 0
      → (heap_pop hp s ≡ ok ((empty_value, true, hp), s)) × (heap_top hp s ≡ ok (empty_value, s))
  unfolding heap_pop heap_top
  heap_pop-nil none_left =
      let zero_len : (hp.items.len == 0) ≡ true = ground arith in
      (rw zero_len refl, rw zero_len refl)

  -- what a heap_pop of a heap that is not empty leaves: a least value is taken out of it
  abbrev pub LeastPopped : (Value × Bool × Heap) × Store → Type 0
  LeastPopped ((v, emptied, hp'), s') =
      (emptied ≡ false)
      × ((k : ℕ) → k < length xs → Le cmp v (at xs k))
      × ((zs : List Value) × HeapHolds cmp zs hp'.items s' × Perm (v ∷ zs) xs)

  pop_last : HeapHolds cmp xs hp.items s → length xs ≡ 1 → Returns LeastPopped (heap_pop hp s)
  unfolding heap_pop
  pop_last h one =
      let some_len : (hp.items.len == 0) ≡ false = ground (arith, h.held.count) in
      let one_len : (hp.items.len == 1) ≡ true = ground (arith, h.held.count) in
      let last : hp.items.len - 1 ≡ 0 = omega (arith, h.held.count) in
      rw (some_len, one_len, last)
        (Returns-bind (slice_pop-Popped s hp.items xs h.held 0 (omega arith) (omega arith) h.store)
          λ ((v, sli), t) p. returns (
            refl,
            (λ k lt. rw p.value (IsHeap-least cmp o xs h.heaped k k (omega arith) lt)),
            (
              remove_at xs 0,
              record {
                held = p.held;
                store = p.store;
                heaped =
                    λ q c child lt. absurd (omega (arith, length-remove_at xs 0 (omega arith)));
              },
              rw p.value (remove_at-perm xs 0 (omega arith)),
            ),
          ))

  pop_first : HeapHolds cmp xs hp.items s → 1 < length xs → Returns LeastPopped (heap_pop hp s)
  unfolding heap_pop
  pop_first h more =
      let n = length xs - 1 in
      let some_len : (hp.items.len == 0) ≡ false = ground (arith, h.held.count) in
      let more_len : (hp.items.len == 1) ≡ false = ground (arith, h.held.count) in
      let last : hp.items.len - 1 ≡ n = omega (arith, h.held.count) in
      let ys = remove_at xs n in
      let fewer : length ys + 1 ≡ length xs = length-remove_at xs n (omega arith) in
      let first : at ys 0 ≡ at xs 0 = at-remove_at xs n 0 ∙ ground arith in
      let size : length ys ≡ n = omega arith in
      rw (some_len, more_len, last, same)
        (Returns-bind (slice_pop-Popped s hp.items xs h.held n (omega arith) (omega arith) h.store)
          λ ((v, sli), t) p.
            rw (slice_set-ok t sli ys p.held 0 v (omega arith), first)
              (Returns-bind
                (sift_first cmp o _ sli (set ys 0 v) n
                  (Holds-write p.held (set p.held.block.items (sli.start + 0) v) (set ys 0 v)
                    sli.len (length-set p.held.block.items (sli.start + 0) v)
                    (Seg-set p.held.block.items sli.start 0 v ys p.held.run (omega arith)
                      (Holds-within p.held))
                    (p.held.count ∙ sym (length-set ys 0 v)))
                  (write-IsStore sli.array p.held.block _ t p.store p.held.found) (omega arith)
                  (omega (arith, length-set ys 0 v)) (Heaped-refill cmp xs v h.heaped more))
                λ (done, t') (zs, held, perm). returns (
                  refl,
                  (λ k lt. IsHeap-least cmp o xs h.heaped k k (omega arith) lt),
                  (zs, held, rw first at (refilled zs v perm p.value)),
                )))
    where
      refilled :
          (zs : List Value) (v : Value)
          → Perm zs (set (remove_at xs (length xs - 1)) 0 v)
          → v ≡ at xs (length xs - 1)
          → Perm (at (remove_at xs (length xs - 1)) 0 ∷ zs) xs
      refilled zs v perm e =
          let n = length xs - 1 in
          Perm.trans (Perm.cons _ perm) (
            Perm.trans
              (set-perm (remove_at xs n) 0 v (omega (arith, length-remove_at xs n (omega arith))))
              (rw e (remove_at-perm xs n (omega arith))))

  -- heap_pop of a heap that is not empty returns a value that no value of the heap is less than,
  -- takes just it out of the heap, and leaves the slice in heap order.
  pub heap_pop-LeastPopped :
      HeapHolds cmp xs hp.items s → 0 < length xs → Returns LeastPopped (heap_pop hp s)
  heap_pop-LeastPopped h some_left = elim (Bool-cases (ltb 1 (length xs))) [
    | inl e ↦ pop_first h (ltb→lt _ _ e)
    | inr e ↦ pop_last h (omega (arith, ltb→le _ _ e))
  ]

  -- heap_top of a heap that is not empty returns a value that no value of the heap is less than.
  pub heap_top-least :
      HeapHolds cmp xs hp.items s
      → 0 < length xs
      → (heap_top hp s ≡ ok (at xs 0, s)) × ((k : ℕ) → k < length xs → Le cmp (at xs 0) (at xs k))
  unfolding heap_top
  heap_top-least h some_left =
      let some_len : (hp.items.len == 0) ≡ false = ground (arith, h.held.count) in
      (
        rw some_len (slice_get-Holds s hp.items xs h.held 0 some_left),
        (λ k lt. IsHeap-least cmp o xs h.heaped k k (omega arith) lt),
      )
