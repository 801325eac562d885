-- ===== src/Heap/Up.antt =====
-- _heap_sift_up.
use c_algorithm.Base.{
  ℕ, zero, suc, ◌+◌, ◌-◌, ◌/◌, ◌≤◌, ◌<◌, ◌≡◌, inl, inr, Bool-cases, ==→eq, ==→ne, List, arith,
  length, length-set, set, set-get_or, Value, at, load-ok, store-ok, ◌==◌, Returns, returns,
  Returns-bind,
}
use c_algorithm.Order.{Compare, gt, Le, IsOrder}
use c_algorithm.Swaps.{at-set, Swaps}
use c_algorithm.Heap.{sift_up, up_loop}
use c_algorithm.Heap.Spec.{Child, Heaped, HeapedUpTo, HeapedUpTo-Heaped, HeapedUpTo-swap}
use c_algorithm.Heap.Hole.{Hole, Hole-start, Hole-step, Hole-swap, put_back-ok}

module _ (cmp : Compare) (o : IsOrder cmp) (d size index : ℕ) (a0 : List Value) where
  -- what the loop ends with
  abbrev Risen : Value → ℕ × List Value → Type 0
  Risen k (i, a) = Hole d size index k a0 i a × Heaped cmp 0 size d (set a (d + i) k)

  up_loop-Risen :
      (fuel i : ℕ) (k : Value) (a : List Value)
      → i < fuel
      → i ≤ index
      → Hole d size index k a0 i a
      → HeapedUpTo cmp size d i (set a (d + i) k)
      → Returns (Risen k) (up_loop cmp d fuel i k a)
  unfolding up_loop
  up_loop-Risen zero i k a enough le h u = absurd (omega arith)
  up_loop-Risen (suc fuel) i k a enough le h u = elim (Bool-cases (i == 0)) [
    | inl e ↦ rw e (returns (h, heaped (λ p child. absurd (omega (arith, ==→eq i 0 e)))))
    | inr e ↦
        let p = (i - 1) / 2 in
        let child : Child p i = (omega (arith, ==→ne i 0 e), omega arith) in
        let at_parent : at (set a (d + i) k) (d + p) ≡ at a (d + p) =
          ground (arith, at-set a (d + i) (d + p) k, h.inside, h.within) in
        rw (e, load-ok a (d + p) (omega (arith, h.inside, h.within)))
          (elim (Bool-cases (gt cmp (at a (d + p)) k)) [
            | inl more ↦
                rw (more, store-ok a (d + i) (at a (d + p)) (omega (arith, h.inside, h.within)))
                  (up_loop-Risen fuel p k (set a (d + i) (at a (d + p))) (omega arith) (omega arith)
                    (Hole-step d size index a0 k i a h p (omega (arith, h.within)) (omega arith)
                      (omega arith))
                    (rw
                      (Hole-swap d size index a0 k i a h p (omega (arith, h.within)) (omega arith))
                      (HeapedUpTo-swap cmp o size d i (set a (d + i) k) h.within room p child u
                        (rw (at_parent, at_hole) more))))
            | inr stop ↦ rw stop (
                returns (
                  h,
                  heaped (λ q child'.
                      let same : q ≡ p = omega arith in rw (same, at_parent, at_hole) stop),
                ))
          ])
  ]
    where
      room : d + size ≤ length (set a (d + i) k)
      room = omega (arith, h.inside, length-set a (d + i) k)

      at_hole : at (set a (d + i) k) (d + i) ≡ k
      at_hole = ground (arith, at-set a (d + i) (d + i) k, h.inside, h.within)

      heaped :
          ((p : ℕ)
            → Child p i
            → Le cmp (at (set a (d + i) k) (d + p)) (at (set a (d + i) k) (d + i)))
          → Heaped cmp 0 size d (set a (d + i) k)
      heaped = HeapedUpTo-Heaped cmp o size d i (set a (d + i) k) h.within room u

  -- _heap_sift_up of the entry `index` makes a heap of an array that is one but for this entry
  -- against its parent, by exchanges within the heap's entries.
  pub sift_up-Heaped :
      index < size
      → d + size ≤ length a0
      → HeapedUpTo cmp size d index a0
      → Returns (λ b. Heaped cmp 0 size d b × Swaps d (d + size) a0 b) (sift_up a0 d size index cmp)
  unfolding sift_up
  sift_up-Heaped lt inside u =
      let k = at a0 (d + index) in
      rw (load-ok a0 (d + index) (omega arith)) (
        Returns-bind
          (up_loop-Risen (suc index) index k a0 (omega arith) (omega arith)
            (Hole-start d size index a0 lt inside)
            (rw (set-get_or a0 (d + index) 0 (omega arith)) u))
          λ (i, a) (h, heaped).
            rw (put_back-ok d size index a0 k i a h) (returns (heaped, h.swaps)))
