-- ===== src/Sort/Select.antt =====
-- select_sort.
use c_algorithm.Base.{
  ℕ, zero, suc, ◌-◌, ◌≤◌, ◌<◌, ◌≡◌, refl, inl, inr, List, arith, length, load-ok, if-ok, Bool-cases,
  ==→eq, ltb, ◌==◌, Value, at, Returns, returns, Returns-bind, if◌then◌else◌,
}
use c_algorithm.Order.{Compare, gt, Le, IsOrder, Le_refl}
use c_algorithm.Swaps.{
  swap, at-swap, Swaps, here, Swaps-one, Swaps-trans, Swaps-mono, length-Swaps, Swaps-all,
  Swaps-outside,
}
use c_algorithm.Sort.{select_sort, select_min, select_loop}
use c_algorithm.Sort.Spec.{Sorts, SortedBySwaps, Returns-Sorts, swap_at-ok}

-- `a[k]` is a least of the entries from `lo` up to `hi`
abbrev IsLeast : Compare → ℕ → ℕ → List Value → ℕ → Type 0
IsLeast cmp lo hi a k = (lo ≤ k) × (k < hi) × ((p : ℕ) → lo ≤ p → p < hi → Le cmp (at a k) (at a p))

-- the first `s` entries are in their places
abbrev IsDone : Compare → ℕ → ℕ → List Value → Type 0
IsDone cmp size s a = (p q : ℕ) → p < s → p < q → q < size → Le cmp (at a p) (at a q)

module _ (cmp : Compare) (o : IsOrder cmp) where
  IsLeast-step :
      (lo j : ℕ) (a : List Value) (k : ℕ)
      → lo ≤ j
      → IsLeast cmp lo j a k
      → IsLeast cmp lo (suc j) a (if gt cmp (at a k) (at a j) then j else k)
  IsLeast-step lo j a k lj (l, h, least) = elim (Bool-cases (gt cmp (at a k) (at a j))) [
    | inl x ↦ rw x (
      lj,
      omega arith,
      λ p lp hp. ground (
        arith,
        least p lp,
        o.total (at a k) (at a j),
        o.trans (at a j) (at a k) (at a p),
        Le_refl cmp o (at a j),
      ),
    )
    | inr x ↦ rw x (l, omega arith, λ p lp hp. ground (arith, least p lp))
  ]

  select_min-IsLeast :
      (a : List Value) (lo size n j k : ℕ)
      → n ≡ size - j
      → j ≤ size
      → lo ≤ j
      → size ≤ length a
      → IsLeast cmp lo j a k
      → Returns (IsLeast cmp lo size a) (select_min cmp a n j k)
  unfolding select_min
  select_min-IsLeast a lo size zero j k rounds le lj len least =
      let last : size ≡ j = omega arith in returns (rw last least)
  select_min-IsLeast a lo size (suc n) j k rounds le lj len least =
      rw (load-ok a k (omega (arith, least.1)), load-ok a j (omega arith))
        (select_min-IsLeast a lo size n (suc j) _ (omega arith) (omega arith) (omega arith) len
          (IsLeast-step lo j a k lj least))

  -- the exchange of a least entry into place `s`
  pick : List Value → ℕ → ℕ → List Value
  pick a k s = if k == s then a else swap a k s

  pick-Swaps : (a : List Value) (k s size : ℕ) → s ≤ k → k < size → Swaps s size a (pick a k s)
  unfolding pick
  pick-Swaps a k s size l h = elim (Bool-cases (k == s)) [
    | inl x ↦ rw x here
    | inr x ↦ rw x (Swaps-one k s (l, h) (omega arith))
  ]

  at-pick : (a : List Value) (k s : ℕ) → k < length a → s < length a → at (pick a k s) s ≡ at a k
  unfolding pick
  at-pick a k s hk hs = elim (Bool-cases (k == s)) [
    | inl x ↦ rw (x, ==→eq k s x) refl
    | inr x ↦ rw x (ground (arith, at-swap a k s s))
  ]

  IsDone-pick :
      (size s k : ℕ) (a : List Value)
      → s < size
      → size ≤ length a
      → IsLeast cmp s size a k
      → IsDone cmp size s a
      → IsDone cmp size (suc s) (pick a k s)
  IsDone-pick size s k a hs len (l, h, least) done p q hp hpq hq = elim (Bool-cases (p == s)) [
    | inl e ↦
        rw (==→eq p s e, at-pick a k s (omega arith) (omega arith))
          (Swaps-all len (λ v. Le cmp (at a k) v) moved least q (ground arith) hq)
    | inr e ↦ rw (Swaps-outside len moved p (inl (ground arith))) (after (ground arith))
  ]
    where
      moved : Swaps s size a (pick a k s)
      moved = pick-Swaps a k s size l h

      after : p < s → Le cmp (at a p) (at (pick a k s) q)
      after w = elim (Bool-cases (ltb q s)) [
        | inl e ↦ rw (Swaps-outside len moved q (inl (ground arith))) (done p q w hpq hq)
        | inr e ↦
            Swaps-all len (λ v. Le cmp (at a p) v) moved (λ x lo hi. done p x w (omega arith) hi) q
              (ground arith) hq
      ]

  select_loop-sorts :
      (size n i : ℕ) (a0 a : List Value)
      → size ≤ length a0
      → n ≡ size - i
      → 0 < i
      → IsDone cmp size (i - 1) a
      → Swaps 0 size a0 a
      → Returns (SortedBySwaps cmp size a0) (select_loop cmp size n i a)
  unfolding select_loop pick
  select_loop-sorts size zero i a0 a len rounds pos done s =
      returns ((λ p q l h r. done p q (omega arith) h r), s)
  select_loop-sorts size (suc n) i a0 a len rounds pos done s =
      let whole = length-Swaps s in
      let same_i : suc (i - 1) ≡ i = omega arith in
      let same_j : suc i - 1 ≡ i = omega arith in
      Returns-bind
        (select_min-IsLeast a (i - 1) size (size - i) i (i - 1) (omega arith) (omega arith)
          (omega arith) (omega arith)
          (
            omega arith,
            omega arith,
            λ p lo hi. let e : p ≡ i - 1 = omega arith in rw e (Le_refl cmp o _),
          ))
        λ k least.
          rw
            (
              swap_at-ok a k (i - 1) (omega (arith, least.1)) (omega arith),
              if-ok _ a (swap a k (i - 1)),
            )
            (select_loop-sorts size n (suc i) a0 (pick a k (i - 1)) len (omega arith) (omega arith)
              (λ p q hp.
                IsDone-pick size (i - 1) k a (omega arith) (omega arith) least done p q
                  (omega arith))
              (Swaps-trans s (
                Swaps-mono (omega arith) (omega arith)
                  (pick-Swaps a k (i - 1) size least.0 least.1))))

  -- select_sort puts the first `size` entries of an array into ascending order, each as often as
  -- before, leaves the entries behind them alone, and makes no access outside the array, for every
  -- COMPARE that is a total order.
  pub select_sort-Sorts :
      (a : List Value) (size : ℕ)
      → size ≤ length a
      → Returns (Sorts cmp size a) (select_sort a size cmp)
  unfolding select_sort
  select_sort-Sorts a size h = Returns-Sorts h (
      select_loop-sorts size (size - 1) 1 a a h (omega arith) (omega arith)
        (λ p q l r e. absurd (omega arith)) here)
