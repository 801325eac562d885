-- ===== src/Sort/Insert.antt =====
-- insert_sort.
use c_algorithm.Base.{
  ℕ, zero, suc, ◌-◌, ◌≤◌, ◌<◌, ◌≡◌, ◌≢◌, refl, sym, ap, inl, inr, List, arith, length, set,
  length-set, set-get_or, load-ok, store-ok, to_int-ok, int_max, ◌+◌, true, ==→eq, ◌==◌,
  if◌then◌else◌, Bool-cases, Value, at, ok, store, Returns, returns, Returns-bind,
}
use c_algorithm.Order.{Compare, gt, Le, IsOrder}
use c_algorithm.Swaps.{at-set, hole_step, Swaps, here, next, Swaps-trans, Swaps-mono, length-Swaps}
use c_algorithm.Sort.{insert_sort, insert_shift, insert_loop}
use c_algorithm.Sort.Spec.{SortedIn, Sorts, SortedBySwaps, Returns-Sorts}

-- With `k` put into the hole `j`, the entries up to `i` ascend but for those before the hole
-- against `k`, and the hole holds `k` until something is moved.
record Shift (cmp : Compare) (k : Value) (i j : ℕ) (a0 a : List Value) : Type 0 where
  below : j ≤ i
  within : i < length a
  swaps : Swaps 0 (suc i) a0 (set a j k)
  unmoved : j ≡ i → at a j ≡ k
  apart : (p q : ℕ) → p < q → q ≤ i → p ≢ j → q ≢ j → Le cmp (at a p) (at a q)
  above : (q : ℕ) → j < q → q ≤ i → Le cmp k (at a q)

-- when the loop ends, `k` belongs in the hole
abbrev Placed : Compare → Value → ℕ → List Value → ℕ × List Value → Type 0
Placed cmp k i a0 (j, a) = Shift cmp k i j a0 a × ((p : ℕ) → p < j → Le cmp (at a p) k)

module _ (cmp : Compare) (o : IsOrder cmp) (k : Value) (i : ℕ) (a0 : List Value) where
  Shift-step :
      (j : ℕ) (a : List Value)
      → Shift cmp k i (suc j) a0 a
      → gt cmp (at a j) k ≡ true
      → Shift cmp k i j a0 (set a (suc j) (at a j))
  Shift-step j a s more =
      let w : suc j < length a = omega (arith, s.below, s.within) in
      let same = length-set a (suc j) (at a j) in
      record {
        below = omega (arith, s.below);
        within = omega (arith, s.within, same);
        swaps =
            next (suc j) j s.swaps (omega (arith, s.below)) (omega (arith, s.below))
              (hole_step a (suc j) j k w (omega arith) (omega arith));
        unmoved = λ e. absurd (omega (arith, s.below));
        apart = λ p q l h np nq. ground (
          arith,
          at-set a (suc j) p (at a j),
          at-set a (suc j) q (at a j),
          s.apart p q,
          s.apart j q,
          s.apart p j,
        );
        above = λ q l h. ground (arith, at-set a (suc j) q (at a j), s.above q, o.total (at a j) k);
      }

  insert_shift-Placed :
      (j : ℕ) (a : List Value)
      → Shift cmp k i j a0 a
      → Returns (Placed cmp k i a0) (insert_shift cmp k j a)
  unfolding insert_shift
  insert_shift-Placed zero a s = returns (s, λ p h. absurd (omega arith))
  insert_shift-Placed (suc j) a s =
      let hj : j < length a = omega (arith, s.below, s.within) in
      rw (load-ok a j hj) (elim (Bool-cases (gt cmp (at a j) k)) [
        | inl more ↦
            rw (more, store-ok a (suc j) (at a j) (omega (arith, s.below, s.within)))
              (insert_shift-Placed j _ (Shift-step j a s more))
        | inr stop ↦
            rw stop (
              returns (s, λ p h. ground (arith, s.apart p j, o.trans (at a p) (at a j) k, s.below)))
      ])

  -- the write after the loop is left out only where it would change nothing
  place-ok :
      (j : ℕ) (a : List Value)
      → Shift cmp k i j a0 a
      → (if j == i then ok a else store a j k) ≡ ok (set a j k)
  place-ok j a s = elim (Bool-cases (j == i)) [
    | inl e ↦
        rw (e, ← s.unmoved (==→eq j i e))
          (ap ok (sym (set-get_or a j 0 (omega (arith, s.below, s.within)))))
    | inr e ↦ rw e (store-ok a j k (omega (arith, s.below, s.within)))
  ]

  Placed-sorted :
      (j : ℕ) (a : List Value) → Placed cmp k i a0 (j, a) → SortedIn cmp 0 (suc i) (set a j k)
  Placed-sorted j a (s, least) p q l h r =
      ground
        (arith, at-set a j p k, at-set a j q k, s.apart p q, s.above q, least p, s.below, s.within)

module _ (cmp : Compare) (o : IsOrder cmp) where
  Shift-start :
      (i : ℕ) (a : List Value) → i < length a → SortedIn cmp 0 i a → Shift cmp (at a i) i i a a
  Shift-start i a h sorted = record {
    below = omega arith;
    within = h;
    swaps = rw (set-get_or a i 0 h) here;
    unmoved = λ e. refl;
    apart = λ p q l r np nq. sorted p q (omega arith) l (omega arith);
    above = λ q l r. absurd (omega arith);
  }

  insert_loop-sorts :
      (size n i : ℕ) (a0 a : List Value)
      → size ≤ length a0
      → size ≤ int_max
      → n ≡ size - i
      → SortedIn cmp 0 i a
      → Swaps 0 size a0 a
      → Returns (SortedBySwaps cmp size a0) (insert_loop cmp n i a)
  unfolding insert_loop
  insert_loop-sorts size zero i a0 a len small rounds sorted s =
      returns ((λ p q l h r. sorted p q l h (omega arith)), s)
  insert_loop-sorts size (suc n) i a0 a len small rounds sorted s =
      let h : i < length a = omega (arith, length-Swaps s) in
      rw (load-ok a i h) (
        Returns-bind (insert_shift-Placed cmp o (at a i) i a i a (Shift-start i a h sorted))
          λ (j, b) placed.
            rw (place-ok cmp o (at a i) i a j b placed.0, to_int-ok (i + 1) (omega arith), next)
              (insert_loop-sorts size n (suc i) a0 (set b j (at a i)) len small (omega arith)
                (Placed-sorted cmp o (at a i) i a j b placed)
                (Swaps-trans s (Swaps-mono (omega arith) (omega arith) placed.0.swaps))))
    where
      next : (i + 1) ≡ suc i
      next = omega arith

  -- insert_sort puts the first `size` entries of an array into ascending order, each as often as
  -- before, leaves the entries behind them alone, and makes no access outside the array, for every
  -- COMPARE that is a total order, if the size is at most INT_MAX.
  pub insert_sort-Sorts :
      (a : List Value) (size : ℕ)
      → size ≤ length a
      → size ≤ int_max
      → Returns (Sorts cmp size a) (insert_sort a size cmp)
  unfolding insert_sort
  insert_sort-Sorts a size h small = Returns-Sorts h (
      insert_loop-sorts size (size - 1) 1 a a h small (omega arith)
        (λ p q l r e. absurd (omega arith)) here)
