-- ===== src/Sort/Bubble.antt =====
-- bubble_sort.
use c_algorithm.Base.{
  ℕ, zero, suc, ◌+◌, ◌-◌, ◌≤◌, ◌<◌, ◌≡◌, refl, inl, inr, List, arith, length, load-ok, if-ok,
  Bool-cases, ==→eq, ltb, ◌⊎◌, ◌==◌, Value, at, Returns, returns, Returns-bind, if◌then◌else◌,
}
use c_algorithm.Order.{Compare, gt, Le, IsOrder, Le_refl}
use c_algorithm.Swaps.{
  swap, at-swap, Swaps, here, next, Swaps-trans, Swaps-mono, length-Swaps, Swaps-all, Swaps-outside,
}
use c_algorithm.Sort.{bubble_sort, bubble_pass, bubble_loop}
use c_algorithm.Sort.Spec.{Sorts, SortedBySwaps, Returns-Sorts, swap_at-ok}

-- `a[t]` is a greatest of the entries up to `t`
abbrev IsTop : Compare → ℕ → List Value → Type 0
IsTop cmp t a = (p : ℕ) → p ≤ t → Le cmp (at a p) (at a t)

-- every entry behind `i` is in its place
abbrev IsDone : Compare → ℕ → ℕ → List Value → Type 0
IsDone cmp size i a = (p q : ℕ) → p < q → i < q → q < size → Le cmp (at a p) (at a q)

-- one round of the pass, with `t` for j - 1
exchange : Compare → ℕ → ℕ → List Value → List Value
exchange cmp t j a = if gt cmp (at a t) (at a j) then swap a t j else a

module _ (cmp : Compare) (o : IsOrder cmp) where
  IsTop-step :
      (t j : ℕ) (a : List Value)
      → suc t ≡ j
      → j < length a
      → IsTop cmp t a
      → IsTop cmp j (exchange cmp t j a)
  unfolding exchange
  IsTop-step t j a e w top p l = elim (Bool-cases (gt cmp (at a t) (at a j))) [
    | inl x ↦ rw x (
        ground (
          arith,
          at-swap a t j p,
          at-swap a t j j,
          top p,
          o.total (at a t) (at a j),
          o.total (at a t) (at a t),
        ))
    | inr x ↦
        rw x (ground (arith, top p, o.trans (at a p) (at a t) (at a j), o.total (at a j) (at a j)))
  ]

  exchange-Swaps :
      (t j i : ℕ) (a0 a : List Value)
      → suc t ≡ j
      → j ≤ i
      → Swaps 0 (suc i) a0 a
      → Swaps 0 (suc i) a0 (exchange cmp t j a)
  unfolding exchange
  exchange-Swaps t j i a0 a e h s = elim (Bool-cases (gt cmp (at a t) (at a j))) [
    | inl x ↦ rw x (next t j s (omega arith) (omega arith) refl)
    | inr x ↦ rw x s
  ]

  bubble_pass-IsTop :
      (n j i : ℕ) (a0 a : List Value)
      → 0 < j
      → j + n ≡ suc i
      → i < length a0
      → IsTop cmp (j - 1) a
      → Swaps 0 (suc i) a0 a
      → Returns (λ b. IsTop cmp i b × Swaps 0 (suc i) a0 b) (bubble_pass cmp n j a)
  unfolding bubble_pass exchange
  bubble_pass-IsTop zero j i a0 a pos e w top s =
      let last : i ≡ j - 1 = omega arith in returns (rw last top, s)
  bubble_pass-IsTop (suc n) j i a0 a pos e w top s =
      let hj : j < length a = omega (arith, length-Swaps s) in
      let ht : j - 1 < length a = omega arith in
      let same_j : suc j - 1 ≡ j = omega arith in
      let ex : suc (j - 1) ≡ j = omega arith in
      rw
        (
          load-ok a (j - 1) ht,
          load-ok a j hj,
          swap_at-ok a (j - 1) j ht hj,
          if-ok _ (swap a (j - 1) j) a,
        )
        (bubble_pass-IsTop n (suc j) i a0 (exchange cmp (j - 1) j a) (omega arith) (omega arith) w
          (rw same_j (IsTop-step (j - 1) j a ex hj top))
          (exchange-Swaps (j - 1) j i a0 a ex (omega arith) s))

  -- a pass over the entries up to `i` leaves those behind them in their places
  IsDone-pass :
      (size i : ℕ) (a b : List Value)
      → suc i < size
      → size ≤ length a
      → IsDone cmp size (suc i) a
      → IsTop cmp (suc i) b
      → Swaps 0 (suc (suc i)) a b
      → IsDone cmp size i b
  IsDone-pass size i a b h len done top s p q l r hq = elim (Bool-cases (q == suc i)) [
    | inl e ↦ rw (==→eq q (suc i) e) (top p (ground arith))
    | inr e ↦ rw (Swaps-outside (omega arith) s q (inr (ground arith))) (before (ground arith))
  ]
    where
      before : suc i < q → Le cmp (at b p) (at a q)
      before w = elim (Bool-cases (ltb (suc i) p)) [
        | inl e ↦ rw (Swaps-outside (omega arith) s p (inr (ground arith))) (done p q l w hq)
        | inr e ↦
            Swaps-all (omega arith) (λ v. Le cmp v (at a q)) s
              (λ k lo hi. done k q (omega arith) w hq) p (omega arith) (ground arith)
      ]

  bubble_loop-sorts :
      (size i : ℕ) (a0 a : List Value)
      → size ≤ length a0
      → (i ≡ 0) ⊎ (i < size)
      → IsDone cmp size i a
      → Swaps 0 size a0 a
      → Returns (SortedBySwaps cmp size a0) (bubble_loop cmp i a)
  unfolding bubble_loop
  bubble_loop-sorts size zero a0 a len bound done s =
      returns ((λ p q l h r. done p q h (omega arith) r), s)
  bubble_loop-sorts size (suc i) a0 a len bound done s =
      let h : suc i < size = omega arith in
      Returns-bind
        (bubble_pass-IsTop (suc i) 1 (suc i) a a (omega arith) (omega arith)
          (omega (arith, length-Swaps s))
          (λ p l. let first : p ≡ 0 = omega arith in rw first (Le_refl cmp o (at a 0))) here)
        λ b (top, moved).
          bubble_loop-sorts size i a0 b len (inr (omega arith))
            (IsDone-pass size i a b h (omega (arith, length-Swaps s)) done top moved)
            (Swaps-trans s (Swaps-mono (omega arith) (omega arith) moved))

  -- bubble_sort puts the first `size` entries of an array into ascending order, each as often as
  -- before, leaves the entries behind them alone, and makes no access outside the array, for every
  -- COMPARE that is a total order.
  pub bubble_sort-Sorts :
      (a : List Value) (size : ℕ)
      → size ≤ length a
      → Returns (Sorts cmp size a) (bubble_sort a size cmp)
  unfolding bubble_sort
  bubble_sort-Sorts a size h = Returns-Sorts h (
      bubble_loop-sorts size (size - 1) a a h (omega arith) (λ p q l r e. absurd (omega arith))
        here)
