-- ===== src/Sort/Quick.antt =====
-- quick_sort.
pub mod Partition
use c_algorithm.Base.{
  ℕ, zero, suc, ◌+◌, ◌-◌, ◌≤◌, ◌<◌, ◌≡◌, refl, inl, inr, ◌⊎◌, List, arith, length, length-set, set,
  load-ok, store-ok, true, false, Bool-cases, ==→eq, ltb, ltb→lt, ltb→le, ◌==◌, Value, at, Run, ok,
  ◌>>=◌, Returns, returns, Returns-bind, Returns-map, Returns-if, Bool, if◌then◌else◌,
}
use c_algorithm.Order.{Compare, gt, Le, IsOrder, Le_refl}
use c_algorithm.Swaps.{Swaps, here, Swaps-trans, Swaps-mono, length-Swaps, Swaps-all, Swaps-outside}
use c_algorithm.Sort.{quick_sort, quick_range}
use c_algorithm.Sort.Spec.{SortedIn, Sorts, SortedBySwaps, Returns-Sorts}
use Partition.{IsSplit, Split, partition-start}

module _ (cmp : Compare) (o : IsOrder cmp) where
  -- the halves of a split array, each sorted, make a sorted array
  module _ (k : Value) (l r i : ℕ) (c d e : List Value) (split : IsSplit cmp k l r i c)
      (left : SortedIn cmp l i d) (left_swaps : Swaps l i c d)
      (right : SortedIn cmp (suc i) (suc r) e) (right_swaps : Swaps (suc i) (suc r) d e) where
    same_length : length d ≡ length c
    same_length = length-Swaps left_swaps

    at-left : (p : ℕ) → p ≤ i → at e p ≡ at d p
    at-left p h =
        Swaps-outside (omega (arith, same_length, split.inside)) right_swaps p (inl (omega arith))

    at-right : (q : ℕ) → i ≤ q → at d q ≡ at c q
    at-right q h = Swaps-outside (omega (arith, split.below, split.inside)) left_swaps q (inr h)

    at-middle : at e i ≡ k
    at-middle = rw (at-left i (omega arith), at-right i (omega arith)) split.middle

    le-left : (p : ℕ) → l ≤ p → p < i → Le cmp (at e p) k
    le-left p lo hi = rw (at-left p (omega arith)) (
        Swaps-all (omega (arith, split.below, split.inside)) (λ v. Le cmp v k) left_swaps
          split.small p lo hi)

    le-right : (q : ℕ) → i < q → q ≤ r → Le cmp k (at e q)
    le-right q lo hi =
        Swaps-all (omega (arith, same_length, split.inside)) (λ v. Le cmp k v) right_swaps
          (λ x xl xr. rw (at-right x (omega arith)) (split.large x xl (omega arith))) q lo
          (omega arith)

    SortedIn-join : SortedIn cmp l (suc r) e
    SortedIn-join p q lo h hi = elim (Bool-cases (ltb p i)) [
      | inl x ↦ elim (Bool-cases (ltb q i)) [
        | inl y ↦
            rw (at-left p (ground arith), at-left q (ground arith)) (left p q lo h (ground arith))
        | inr y ↦
            o.trans _ _ _ (le-left p lo (ground arith)) (from_middle q (ground arith) (omega arith))
      ]
      | inr x ↦ elim (Bool-cases (p == i)) [
        | inl y ↦ rw (==→eq p i y, at-middle) (le-right q (ground arith) (omega arith))
        | inr y ↦ right p q (ground arith) h hi
      ]
    ]
      where
        from_middle : (x : ℕ) → i ≤ x → x ≤ r → Le cmp k (at e x)
        from_middle x w z = elim (Bool-cases (x == i)) [
          | inl y ↦ rw (==→eq x i y, at-middle) (Le_refl cmp o k)
          | inr y ↦ le-right x (ground arith) z
        ]

  abbrev SortsRange : ℕ → ℕ → List Value → List Value → Type 0
  SortsRange lo hi a b = SortedIn cmp lo hi b × Swaps lo hi a b

  -- a call that is made only if the part has two entries
  part-SortsRange :
      (f l r lo hi : ℕ) (c : List Value)
      → l ≡ lo
      → hi ≤ suc r
      → (l < r → hi ≡ suc r)
      → (l < r → Returns (SortsRange l (suc r) c) (quick_range cmp f l r c))
      → Returns
          (SortsRange lo hi c)
          (elim (ltb l r) [ true ↦ quick_range cmp f l r c | false ↦ ok c ])
  part-SortsRange f l r lo hi c same short long again = split (ltb l r) refl
    where
      split :
          (b : Bool)
          → ltb l r ≡ b
          → Returns (SortsRange lo hi c) (elim b [ true ↦ quick_range cmp f l r c | false ↦ ok c ])
      split true e = rw (← same, long (ltb→lt l r e)) (again (ltb→lt l r e))
      split false e = returns ((λ p q x y z. absurd (omega (arith, ltb→le l r e))), here)

  quick_range-sorts :
      (f l r : ℕ) (a : List Value)
      → l ≤ r
      → r < length a
      → r - l < f
      → Returns (SortsRange l (suc r) a) (quick_range cmp f l r a)
  unfolding quick_range
  quick_range-sorts zero l r a h w fuel = absurd (omega arith)
  quick_range-sorts (suc f) l r a h w fuel = rw (load-ok a l (omega arith)) (
      Returns-bind (partition-start cmp o (at a l) l r a h w refl) λ (i, b) (hi, split, moved).
        let c = set b i (at a l) in
        rw (store-ok b i (at a l) hi) (
          Returns-bind
            (part-SortsRange f l (i - 1) l i c refl (omega arith) (λ x. omega arith)
              (λ x.
                quick_range-sorts f l (i - 1) c (omega arith)
                  (omega (arith, split.below, split.inside)) (omega (arith, split.below))))
            λ d (left, left_swaps).
              Returns-map
                (part-SortsRange f (i + 1) r (suc i) (suc r) d (omega arith) (omega arith)
                  (λ x. refl)
                  (λ x.
                    quick_range-sorts f (i + 1) r d (omega arith)
                      (omega (arith, length-Swaps left_swaps, split.inside))
                      (omega (arith, split.low))))
                λ e (right, right_swaps). (
                  SortedIn-join (at a l) l r i c d e split left left_swaps right right_swaps,
                  Swaps-trans moved (
                      Swaps-trans (Swaps-mono (omega arith) (omega (arith, split.below)) left_swaps)
                        (Swaps-mono (omega (arith, split.low)) (omega arith) right_swaps)),
                )))

  -- quick_sort puts the first `size` entries of an array into ascending order, each as often as
  -- before, leaves the entries behind them alone, makes no access outside the array, and its
  -- recursion ends, for every COMPARE that is a total order.
  pub quick_sort-Sorts :
      (a : List Value) (size : ℕ)
      → size ≤ length a
      → Returns (Sorts cmp size a) (quick_sort a size cmp)
  unfolding quick_sort
  quick_sort-Sorts a size h = Returns-Sorts h (
      Returns-if (ltb 1 size)
        (λ e.
          let whole : suc (size - 1) ≡ size = omega (arith, ltb→lt 1 size e) in
          rw whole at (
            quick_range-sorts size 0 (size - 1) a (omega arith) (omega (arith, ltb→lt 1 size e))
              (omega (arith, ltb→lt 1 size e))))
        (λ e. returns ((λ p q x y z. absurd (omega (arith, ltb→le 1 size e))), here)))
