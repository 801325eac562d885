-- ===== src/Heap/Spec.antt =====
-- What makes an array a heap.
use c_algorithm.Base.{ℕ, ◌+◌, ◌*◌, ◌≤◌, ◌<◌, ◌≡◌, ◌≢◌, List, arith, length, Value, at, true}
use c_algorithm.Order.{Compare, gt, Le, IsOrder}
use c_algorithm.Swaps.{swap, at-swap}

-- `c` is a child of the place `p`
abbrev pub Child : ℕ → ℕ → Type 0
Child p c = (2 * p < c) × (c ≤ 2 * p + 2)

-- of the `size` entries from `d` on, no child of a place from `lo` on is less than its parent
abbrev pub Heaped : Compare → ℕ → ℕ → ℕ → List Value → Type 0
Heaped cmp lo size d a =
    (p c : ℕ) → lo ≤ p → Child p c → c < size → Le cmp (at a (d + p)) (at a (d + c))

-- a list in heap order
abbrev pub IsHeap : Compare → List Value → Type 0
IsHeap cmp xs = (p c : ℕ) → Child p c → c < length xs → Le cmp (at xs p) (at xs c)

-- As Heaped, but for the entry `i` against its parent; its children are not less than its parent.
pub record HeapedUpTo (cmp : Compare) (size d i : ℕ) (a : List Value) : Type 0 where
  pub but : (p c : ℕ) → Child p c → c < size → c ≢ i → Le cmp (at a (d + p)) (at a (d + c))
  pub over : (p c : ℕ) → Child p i → Child i c → c < size → Le cmp (at a (d + p)) (at a (d + c))

-- As Heaped, but for the entry `i` against its children; they are not less than its parent.
pub record HeapedDownTo (cmp : Compare) (lo size d i : ℕ) (a : List Value) : Type 0 where
  pub but : (p c : ℕ) → lo ≤ p → p ≢ i → Child p c → c < size → Le cmp (at a (d + p)) (at a (d + c))
  pub over :
      (p c : ℕ) → lo ≤ p → Child p i → Child i c → c < size → Le cmp (at a (d + p)) (at a (d + c))

module _ (cmp : Compare) (o : IsOrder cmp) (size d i : ℕ) (a : List Value) (hi : i < size)
    (inside : d + size ≤ length a) where
  pub HeapedUpTo-Heaped :
      HeapedUpTo cmp size d i a
      → ((p : ℕ) → Child p i → Le cmp (at a (d + p)) (at a (d + i)))
      → Heaped cmp 0 size d a
  HeapedUpTo-Heaped u above p c lo child lt = ground (arith, u.but p c, above p)

  pub HeapedDownTo-Heaped :
      (lo : ℕ)
      → HeapedDownTo cmp lo size d i a
      → ((c : ℕ) → Child i c → c < size → Le cmp (at a (d + i)) (at a (d + c)))
      → Heaped cmp lo size d a
  HeapedDownTo-Heaped lo u below p c l child lt = ground (arith, u.but p c, below c)

  -- an entry less than its parent changes places with it
  pub HeapedUpTo-swap :
      (q : ℕ)
      → Child q i
      → HeapedUpTo cmp size d i a
      → gt cmp (at a (d + q)) (at a (d + i)) ≡ true
      → HeapedUpTo cmp size d q (swap a (d + i) (d + q))
  HeapedUpTo-swap q child u more = record {
    but = λ p c k lt ne. ground (
      arith,
      at-swap a (d + i) (d + q) (d + p),
      at-swap a (d + i) (d + q) (d + c),
      u.but p c,
      u.over q c,
      u.but q c,
      o.total (at a (d + q)) (at a (d + i)),
      o.trans (at a (d + i)) (at a (d + q)) (at a (d + c)),
    );
    over = λ p c k l lt. ground (
      arith,
      at-swap a (d + i) (d + q) (d + p),
      at-swap a (d + i) (d + q) (d + c),
      u.but p q,
      u.but q c,
      o.trans (at a (d + p)) (at a (d + q)) (at a (d + c)),
    );
  }

  -- an entry greater than its lesser child changes places with it
  pub HeapedDownTo-swap :
      (lo c : ℕ)
      → lo ≤ i
      → Child i c
      → c < size
      → HeapedDownTo cmp lo size d i a
      → ((e : ℕ) → Child i e → e < size → Le cmp (at a (d + c)) (at a (d + e)))
      → gt cmp (at a (d + i)) (at a (d + c)) ≡ true
      → HeapedDownTo cmp lo size d c (swap a (d + i) (d + c))
  HeapedDownTo-swap lo c low child lt u least more = record {
    but = λ p e l ne k lt'. ground (
      arith,
      at-swap a (d + i) (d + c) (d + p),
      at-swap a (d + i) (d + c) (d + e),
      u.but p e,
      u.over p c,
      least e,
      o.total (at a (d + i)) (at a (d + c)),
    );
    over = λ p e l k k' lt'.
        ground
          (arith, at-swap a (d + i) (d + c) (d + p), at-swap a (d + i) (d + c) (d + e), u.but c e);
  }
