-- ===== src/Heap/Hole.antt =====
-- The hole that a sift moves: the loops hold the entry `k` of `index` and write it back at the end.
use c_algorithm.Base.{
  ℕ, ◌+◌, ◌≤◌, ◌<◌, ◌≡◌, ◌≢◌, refl, sym, ap, inl, inr, Bool-cases, ==→eq, List, arith, length,
  length-set, set, set-get_or, Value, at, ok, store-ok, ◌==◌,
}
use c_algorithm.Swaps.{swap, hole_step, Swaps, here, next}
use c_algorithm.Heap.{put_back}

-- with `k` put into the hole `i`, the array comes from `a0` by exchanges of heap entries
pub record Hole (d size index : ℕ) (k : Value) (a0 : List Value) (i : ℕ) (a : List Value)
    : Type 0 where
  pub within : i < size
  pub inside : d + size ≤ length a
  pub swaps : Swaps d (d + size) a0 (set a (d + i) k)
  pub unmoved : i ≡ index → at a (d + i) ≡ k

module _ (d size index : ℕ) (a0 : List Value) where
  pub Hole-start :
      index < size → d + size ≤ length a0 → Hole d size index (at a0 (d + index)) a0 index a0
  Hole-start h w = record {
    within = h;
    inside = w;
    swaps = rw (set-get_or a0 (d + index) 0 (omega arith)) here;
    unmoved = λ e. refl;
  }

  module _ (k : Value) (i : ℕ) (a : List Value) (h : Hole d size index k a0 i a) where
    -- the array with `k` in the hole after the entry `p` moved into it
    pub Hole-swap :
        (p : ℕ)
        → p < size
        → p ≢ i
        → set (set a (d + i) (at a (d + p))) (d + p) k ≡ swap (set a (d + i) k) (d + i) (d + p)
    Hole-swap p lt ne =
        hole_step a (d + i) (d + p) k (omega (arith, h.inside, h.within)) (omega (arith, h.inside))
          (omega arith)

    pub Hole-step :
        (p : ℕ)
        → p < size
        → p ≢ i
        → p ≢ index
        → Hole d size index k a0 p (set a (d + i) (at a (d + p)))
    Hole-step p lt ne away = record {
      within = lt;
      inside = omega (arith, h.inside, length-set a (d + i) (at a (d + p)));
      swaps =
          next (d + i) (d + p) h.swaps (omega (arith, h.within)) (omega arith) (Hole-swap p lt ne);
      unmoved = λ e. absurd (away e);
    }

    pub put_back-ok : put_back d index k (i, a) ≡ ok (set a (d + i) k)
    unfolding put_back
    put_back-ok = elim (Bool-cases (i == index)) [
      | inl e ↦
          rw (e, ← h.unmoved (==→eq i index e))
            (ap ok (sym (set-get_or a (d + i) 0 (omega (arith, h.inside, h.within)))))
      | inr e ↦ rw e (store-ok a (d + i) k (omega (arith, h.inside, h.within)))
    ]
