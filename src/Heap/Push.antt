-- ===== src/Heap/Push.antt =====
-- heap_push and _heap_build.
use mathlib.Core.List.{perm_middle, append-nil}
use mathlib.Core.List.Perm
use c_algorithm.Base.{
  ℕ, ◌+◌, ◌*◌, ◌/◌, ◌≤◌, ◌<◌, ◌≡◌, ◌∙◌, refl, List, [], ◌∷◌, ◌++◌, Perm, arith, length,
  length-append, get_or-append, lt→ltb, Value, at, Returns, returns, Returns-bind,
}
use c_algorithm.Order.{Compare, IsOrder}
use c_algorithm.Swaps.{here}
use c_algorithm.Memory.{Store, IsStore}
use c_algorithm.Segments.{Seg, Seg-at}
use c_algorithm.Slice.Holds.{Holds, Holds-within}
use c_algorithm.Slice.Append.{slice_append-Updated}
use c_algorithm.Heap.{Heap, heap_build, build_loop, sift_up, heap_push}
use c_algorithm.Heap.Spec.{HeapedUpTo, IsHeap}
use c_algorithm.Heap.Up.{sift_up-Heaped}
use c_algorithm.Heap.Down.{build_loop-Heaped}
use c_algorithm.Heap.Window.{HeapHolds, in_slice-HeapHolds}

-- an array whose window holds a heap and one value behind it
HeapedUpTo-snoc :
    (cmp : Compare) (a : List Value) (d : ℕ) (xs : List Value) (v : Value)
    → IsHeap cmp xs
    → Seg a d (xs ++ v ∷ [])
    → HeapedUpTo cmp (length xs + 1) d (length xs) a
HeapedUpTo-snoc cmp a d xs v h s = record {
  but = λ p c child lt ne.
      rw (seen p (omega arith), seen c (omega arith)) (h p c child (omega arith));
  over = λ p c child child' lt. absurd (omega arith);
}
  where
    seen : (k : ℕ) → k < length xs → at a (d + k) ≡ at xs k
    seen k lt =
        Seg-at a d k (xs ++ v ∷ []) s (omega (arith, length-append xs (v ∷ [])))
        ∙ get_or-append xs (v ∷ []) k 0
        ∙ rw (lt→ltb k (length xs) lt) refl

module _ (cmp : Compare) (o : IsOrder cmp) (s : Store) (hp : Heap) (xs : List Value)
    (same : hp.compare ≡ cmp) where
  -- heap_push puts the value into the heap, and the slice is in heap order again.
  pub heap_push-HeapHolds :
      (v : Value) (h : HeapHolds cmp xs hp.items s)
      → 2 * h.held.block.cap + 1 ≤ s.avail
      → Returns
          (λ (hp', s'). (zs : List Value) × HeapHolds cmp zs hp'.items s' × Perm zs (v ∷ xs))
          (heap_push hp v s)
  unfolding heap_push
  heap_push-HeapHolds v h memory = rw same (
      Returns-bind (slice_append-Updated s hp.items xs v h.held h.store memory) λ (sli, t) u.
        let one_more : length (xs ++ v ∷ []) ≡ length xs + 1 = length-append xs (v ∷ []) in
        let size : sli.len ≡ length xs + 1 = omega (arith, u.held.count) in
        Returns-bind
          (in_slice-HeapHolds cmp t sli (xs ++ v ∷ []) u.held
            (λ a d. sift_up a d sli.len hp.items.len cmp) u.store
            (rw (one_more, size, h.held.count)
              (sift_up-Heaped cmp o sli.start (length xs + 1) (length xs) u.held.block.items
                (omega arith) (omega (arith, Holds-within u.held))
                (HeapedUpTo-snoc cmp u.held.block.items sli.start xs v h.heaped u.held.run))))
          λ (done, t') (zs, held, perm).
            returns (zs, held, Perm.trans perm (rw (append-nil xs) at (perm_middle {a = v} xs []))))

  -- _heap_build puts the entries of the slice into heap order, each as often as before.
  pub heap_build-HeapHolds :
      Holds s hp.items xs
      → IsStore s
      → Returns
          (λ (done, s'). (zs : List Value) × HeapHolds cmp zs hp.items s' × Perm zs xs)
          (heap_build hp s)
  unfolding heap_build
  heap_build-HeapHolds h i = rw same (
      in_slice-HeapHolds cmp s hp.items xs h
        (λ a d. build_loop cmp d hp.items.len (hp.items.len / 2) a) i
        (rw h.count (
          build_loop-Heaped cmp o hp.items.start (length xs) (length xs / 2) h.block.items
            h.block.items (omega arith) (Holds-within h) here
            (λ p c l child lt. absurd (omega arith)))))
