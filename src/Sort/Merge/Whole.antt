-- ===== src/Sort/Merge/Whole.antt =====
-- merge_sort and sort.
use mathlib.Core.List.Perm
use c_algorithm.Base.{
  ℕ, suc, ◌+◌, int_max, ◌-◌, ◌≤◌, ◌<◌, ◌≡◌, ◌∙◌, sym, List, [], ◌∷◌, ◌++◌, Perm, arith, length, ltb,
  ==→eq, ==→ne, ◌==◌, inl, inr, Bool-cases, Value, at, Returns, returns, Returns-bind, Returns-if,
  ap₂, subst,
}
use c_algorithm.Order.{Compare, Le, IsOrder}
use c_algorithm.Sort.Spec.{SortedIn, Sorts}
use c_algorithm.Sort.Insert.{insert_sort-Sorts}
use c_algorithm.Sort.Merge.{merge_sort, sort}
use c_algorithm.Segments.{
  Seg, entries, length-entries, Seg-entries, entries-whole, entries-append, entries-same, Seg-eq,
}
use c_algorithm.Sort.Merge.Ascending.{All, Ascends}
use c_algorithm.Sort.Merge.Passes.{Runs-one, Merged, merge_loop-Merged}

All-at :
    (P : Value → Type 0) (b : List Value) (d : ℕ) (xs : List Value)
    → Seg b d xs
    → All P xs
    → (q : ℕ) → d ≤ q
    → q < d + length xs
    → P (at b q)
All-at P b d [] s h q lo hi = absurd (omega arith)
All-at P b d (x ∷ xs) s h q lo hi = elim (Bool-cases (q == d)) [
  | inl e ↦ rw (==→eq q d e, s.1) h.0
  | inr e ↦ All-at P b (suc d) xs s.2 h.1 q (omega (arith, ==→ne q d e)) (omega arith)
]

Ascends-SortedIn :
    (cmp : Compare) (b : List Value) (d : ℕ) (xs : List Value)
    → Seg b d xs
    → Ascends cmp xs
    → SortedIn cmp d (d + length xs) b
Ascends-SortedIn cmp b d [] s asc p q lo h hi = absurd (omega arith)
Ascends-SortedIn cmp b d (x ∷ xs) s asc p q lo h hi = elim (Bool-cases (p == d)) [
  | inl e ↦
      rw (==→eq p d e, s.1)
        (All-at (Le cmp x) b (suc d) xs s.2 asc.0 q (omega (arith, ==→eq p d e)) (omega arith))
  | inr e ↦
      Ascends-SortedIn cmp b (suc d) xs s.2 asc.1 p q (omega (arith, ==→ne p d e)) h (omega arith)
]

module _ (cmp : Compare) (o : IsOrder cmp) where
  Merged-Sorts :
      (a b t : List Value) (size : ℕ)
      → size ≤ length a
      → Merged cmp o size a (entries a 0 size) (b, t)
      → Sorts cmp size a b
  Merged-Sorts a b t size h m =
      let count : length m.out ≡ size = m.count ∙ length-entries a 0 size in
      let tail : length a ≡ size + (length a - size) = omega arith in
      record {
        sorted = λ p q l r w. Ascends-SortedIn cmp b 0 m.out m.run m.ascends p q l r (omega arith);
        perm =
            let halves_b : b ≡ m.out ++ entries a size (length a - size) =
              sym (entries-whole b)
              ∙ entries-append b 0 size size (length a - size) (length b) (m.whole ∙ tail)
                  (omega arith)
              ∙ ap₂ (λ u v. u ++ v) (sym (rw count at (Seg-eq b 0 m.out m.run)))
                  (entries-same a b size (length a - size) m.outside) in
            let halves_a : a ≡ entries a 0 size ++ entries a size (length a - size) =
              sym (entries-whole a)
              ∙ entries-append a 0 size size (length a - size) (length a) tail (omega arith) in
            subst (λ v. Perm b v) (sym halves_a)
              (subst (λ v. Perm v (entries a 0 size ++ entries a size (length a - size)))
                (sym halves_b) (Perm.append_right (entries a size (length a - size)) m.same));
        outside = m.outside;
      }

  -- merge_sort puts the first `size` entries of an array into ascending order, each as often as
  -- before, leaves the entries behind them alone, makes no access outside the array or its scratch
  -- array of `size` entries, and its loops end, whatever the scratch array holds at first, for
  -- every COMPARE that is a total order, if the size is at most INT_MAX.
  pub merge_sort-Sorts :
      (t a : List Value) (size : ℕ)
      → size ≤ length a
      → size ≤ length t
      → size ≤ int_max
      → Returns (Sorts cmp size a) (merge_sort t a size cmp)
  unfolding merge_sort
  merge_sort-Sorts t a size h room small =
      Returns-bind
        (merge_loop-Merged cmp o size (suc size) 1 a t (entries a 0 size) (omega arith)
          (Runs-one cmp o (entries a 0 size)) (Seg-entries a 0 size (omega arith))
          (length-entries a 0 size) room small (omega arith) (omega arith))
        λ (b, t') m. returns (Merged-Sorts a b t' size h m)

  -- sort, on both of its branches, puts the first `size` entries of an array into ascending order,
  -- each as often as before, leaves the entries behind them alone, makes no access outside the
  -- array or a scratch array of `size` entries, and ends, for every COMPARE that is a total order, if
  -- the size is at most INT_MAX.
  pub sort-Sorts :
      (t a : List Value) (size : ℕ)
      → size ≤ length a
      → size ≤ length t
      → size ≤ int_max
      → Returns (Sorts cmp size a) (sort t a size cmp)
  unfolding sort
  sort-Sorts t a size h room small =
      Returns-if (ltb 60 size) (λ e. merge_sort-Sorts t a size h room small)
        (λ e. insert_sort-Sorts cmp o a size h small)
