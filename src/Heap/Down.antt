-- ===== src/Heap/Down.antt =====
-- _heap_sift_down and _heap_build.
use c_algorithm.Base.{
  ℕ, zero, suc, ◌+◌, ◌*◌, ◌≤◌, ◌<◌, ◌≡◌, inl, inr, Bool-cases, ◌==◌, ==→eq, ==→ne, ltb, ltb→lt,
  ltb→le, List, arith, length, length-set, set, set-get_or, Value, at, load-ok, store-ok, Returns,
  returns, Returns-bind,
}
use c_algorithm.Order.{Compare, gt, Le, IsOrder, Le_refl}
use c_algorithm.Swaps.{at-set, Swaps, Swaps-trans, length-Swaps}
use c_algorithm.Heap.{sift_down, down_loop, lesser_child, build_loop}
use c_algorithm.Heap.Spec.{Child, Heaped, HeapedDownTo, HeapedDownTo-Heaped, HeapedDownTo-swap}
use c_algorithm.Heap.Hole.{Hole, Hole-start, Hole-step, Hole-swap, put_back-ok}

module _ (cmp : Compare) (o : IsOrder cmp) where
  -- `c` is a child of `i`, and no child of `i` is less
  record Least (d size i : ℕ) (a : List Value) (c : ℕ) : Type 0 where
    child : Child i c
    within : c < size
    least : (e : ℕ) → Child i e → e < size → Le cmp (at a (d + c)) (at a (d + e))

  lesser_child-Least :
      (d size i : ℕ) (a : List Value)
      → d + size ≤ length a
      → 2 * i + 1 < size
      → Returns (Least d size i a) (lesser_child cmp a d size (2 * i + 1))
  unfolding lesser_child
  lesser_child-Least d size i a inside lt =
      let c = 2 * i + 1 in
      elim (Bool-cases (ltb (c + 1) size)) [
        | inl two ↦
            rw
              (
                two,
                load-ok a (d + c) (omega arith),
                load-ok a (d + (c + 1)) (omega (arith, ltb→lt _ _ two)),
              )
              (returns (elim (Bool-cases (gt cmp (at a (d + c)) (at a (d + (c + 1))))) [
                | inl more ↦ rw more (record {
                  child = (omega arith, omega arith);
                  within = ltb→lt _ _ two;
                  least = λ e child w. elim (Bool-cases (e == c)) [
                    | inl x ↦ rw (==→eq e c x) (o.total _ _ more)
                    | inr x ↦
                        let right : e ≡ c + 1 = omega (arith, ==→ne e c x) in
                        rw right (Le_refl cmp o (at a (d + (c + 1))))
                  ];
                })
                | inr less ↦ rw less (record {
                  child = (omega arith, omega arith);
                  within = lt;
                  least = λ e child w. elim (Bool-cases (e == c)) [
                    | inl x ↦ rw (==→eq e c x) (Le_refl cmp o (at a (d + c)))
                    | inr x ↦ let right : e ≡ c + 1 = omega (arith, ==→ne e c x) in rw right less
                  ];
                })
              ]))
        | inr one ↦ rw one (
            returns (record {
              child = (omega arith, omega arith);
              within = lt;
              least = λ e child w.
                  let left : e ≡ c = omega (arith, ltb→le _ _ one) in
                  rw left (Le_refl cmp o (at a (d + c)));
            }))
      ]

  module _ (d size index : ℕ) (a0 : List Value) where
    -- what the loop ends with
    abbrev Sunk : Value → ℕ × List Value → Type 0
    Sunk k (i, a) = Hole d size index k a0 i a × Heaped cmp index size d (set a (d + i) k)

    down_loop-Sunk :
        (fuel i : ℕ) (k : Value) (a : List Value)
        → size < i + fuel
        → index ≤ i
        → Hole d size index k a0 i a
        → HeapedDownTo cmp index size d i (set a (d + i) k)
        → Returns (Sunk k) (down_loop cmp d size fuel i k a)
    unfolding down_loop
    down_loop-Sunk zero i k a enough le h u = absurd (omega (arith, h.within))
    down_loop-Sunk (suc fuel) i k a enough le h u = elim (Bool-cases (ltb (2 * i + 1) size)) [
      | inr e ↦ rw e (returns (h, heaped (λ c child lt. absurd (omega (arith, ltb→le _ _ e)))))
      | inl e ↦ rw e (
          Returns-bind (lesser_child-Least d size i a h.inside (ltb→lt _ _ e)) λ c l.
            let past : i < c = omega (arith, l.child) in
            rw (load-ok a (d + c) (omega (arith, h.inside, l.within)))
              (elim (Bool-cases (gt cmp k (at a (d + c)))) [
                | inl more ↦
                    rw (more, store-ok a (d + i) (at a (d + c)) (omega (arith, h.inside, h.within)))
                      (down_loop-Sunk fuel c k (set a (d + i) (at a (d + c))) (omega arith)
                        (omega arith)
                        (Hole-step d size index a0 k i a h c l.within (omega arith) (omega arith))
                        (rw (Hole-swap d size index a0 k i a h c l.within (omega arith)) (
                          HeapedDownTo-swap cmp o size d i (set a (d + i) k) h.within room index c
                            le l.child l.within u
                            (λ f child w.
                              rw (apart c past, apart f (omega arith)) (l.least f child w))
                            (rw (at_hole, apart c past) more))))
                | inr stop ↦ rw stop (
                    returns (
                      h,
                      heaped (λ f child w.
                          rw (at_hole, apart f (omega arith))
                            (o.trans k (at a (d + c)) (at a (d + f)) stop (l.least f child w))),
                    ))
              ]))
    ]
      where
        room : d + size ≤ length (set a (d + i) k)
        room = omega (arith, h.inside, length-set a (d + i) k)

        at_hole : at (set a (d + i) k) (d + i) ≡ k
        at_hole = ground (arith, at-set a (d + i) (d + i) k, h.inside, h.within)

        apart : (c : ℕ) → i < c → at (set a (d + i) k) (d + c) ≡ at a (d + c)
        apart c lt = ground (arith, at-set a (d + i) (d + c) k, h.inside, h.within)

        heaped :
            ((c : ℕ)
              → Child i c
              → c < size
              → Le cmp (at (set a (d + i) k) (d + i)) (at (set a (d + i) k) (d + c)))
            → Heaped cmp index size d (set a (d + i) k)
        heaped = HeapedDownTo-Heaped cmp o size d i (set a (d + i) k) h.within room index u

    -- _heap_sift_down of the entry `index` makes a heap from `index` on of an array that is one
    -- from `index + 1` on, by exchanges within the heap's entries.
    pub sift_down-Heaped :
        index < size
        → d + size ≤ length a0
        → Heaped cmp (index + 1) size d a0
        → Returns
            (λ b. Heaped cmp index size d b × Swaps d (d + size) a0 b)
            (sift_down a0 d size index cmp)
    unfolding sift_down
    sift_down-Heaped lt inside below =
        let k = at a0 (d + index) in
        rw (load-ok a0 (d + index) (omega arith)) (
          Returns-bind
            (down_loop-Sunk (suc size) index k a0 (omega arith) (omega arith)
              (Hole-start d size index a0 lt inside)
              (rw (set-get_or a0 (d + index) 0 (omega arith)) (record {
                but = λ p c l ne child w. below p c (omega arith) child w;
                over = λ p c l child child' w. absurd (omega arith);
              })))
            λ (i, a) (h, heaped).
              rw (put_back-ok d size index a0 k i a h) (returns (heaped, h.swaps)))

  -- _heap_build makes a heap of the entries
  pub build_loop-Heaped :
      (d size i : ℕ) (a0 a : List Value)
      → i ≤ size
      → d + size ≤ length a0
      → Swaps d (d + size) a0 a
      → Heaped cmp i size d a
      → Returns (λ b. Heaped cmp 0 size d b × Swaps d (d + size) a0 b) (build_loop cmp d size i a)
  unfolding build_loop
  build_loop-Heaped d size zero a0 a le inside s h = returns (h, s)
  build_loop-Heaped d size (suc i) a0 a le inside s h =
      let next_one : i + 1 ≡ suc i = omega arith in
      Returns-bind (sift_down-Heaped d size i a le (omega (arith, length-Swaps s)) (rw next_one h))
        λ b (heaped, t).
          build_loop-Heaped d size i a0 b (omega arith) inside (Swaps-trans s t) heaped
