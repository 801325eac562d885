-- ===== src/Sort/Spec.antt =====
-- What a sort promises, and the exchange of two entries that the sorts share.
use c_algorithm.Base.{
  ℕ, ◌≤◌, ◌<◌, ◌≡◌, List, Perm, arith, length, length-set, load-ok, store-ok, Value, at, Run, ok,
  Returns, Returns-map,
}
use c_algorithm.Order.{Compare, Le}
use c_algorithm.Swaps.{swap, Swaps, Swaps-perm, Swaps-outside}
use c_algorithm.Sort.{swap_at}

-- the entries from `lo` up to `hi` ascend
abbrev pub SortedIn : Compare → ℕ → ℕ → List Value → Type 0
SortedIn cmp lo hi a = (p q : ℕ) → lo ≤ p → p < q → q < hi → Le cmp (at a p) (at a q)

-- `b` is `a` with its first `size` entries in ascending order and the others where they were
pub record Sorts (cmp : Compare) (size : ℕ) (a b : List Value) : Type 0 where
  pub sorted : SortedIn cmp 0 size b
  pub perm : Perm b a
  pub outside : (k : ℕ) → size ≤ k → at b k ≡ at a k

-- what the proofs of the sorts carry: the exchanges
abbrev pub SortedBySwaps : Compare → ℕ → List Value → List Value → Type 0
SortedBySwaps cmp size a b = SortedIn cmp 0 size b × Swaps 0 size a b

pub Returns-Sorts :
    {cmp : Compare} {size : ℕ} {a : List Value} {r : Run (List Value)}
    → size ≤ length a
    → Returns (SortedBySwaps cmp size a) r
    → Returns (Sorts cmp size a) r
Returns-Sorts h run = Returns-map run λ b s. record {
  sorted = s.0;
  perm = Swaps-perm h s.1;
  outside = λ k out. Swaps-outside h s.1 k (omega arith);
}

pub swap_at-ok :
    (a : List Value) (i j : ℕ) → i < length a → j < length a → swap_at a i j ≡ ok (swap a i j)
unfolding swap_at swap
swap_at-ok a i j hi hj =
    rw (load-ok a i hi, load-ok a j hj, store-ok a i (at a j) hi)
      (store-ok _ j (at a i) (omega (arith, length-set a i (at a j))))
