-- ===== src/Sort/Quick/Partition.antt =====
-- The `while` of _quick_sort.
use c_algorithm.Base.{
  ℕ, zero, suc, ◌-◌, ◌≤◌, ◌<◌, ◌≡◌, ◌⊎◌, refl, inl, inr, List, arith, length, length-set, set,
  set-get_or, load-ok, store-ok, true, Bool-cases, ltb, ltb→lt, ltb→le, Value, at, Returns, returns,
  Returns-bind, Returns-map,
}
use c_algorithm.Order.{Compare, gt, Le, IsOrder}
use c_algorithm.Swaps.{at-set, hole_step, Swaps, here, next}
use c_algorithm.Sort.{scan_down, scan_up, fill_left, fill_right, partition}

-- The state of the loop, the hole at `h` filled with `k`.
record Part (cmp : Compare) (k : Value) (l r h i j : ℕ) (a0 a : List Value) : Type 0 where
  low : l ≤ i
  mid : i ≤ j
  high : j ≤ r
  within : r < length a
  hole : (l ≤ h) × (h ≤ r)
  swaps : Swaps l (suc r) a0 (set a h k)
  small : (p : ℕ) → l ≤ p → p < i → Le cmp (at a p) k
  large : (q : ℕ) → j < q → q ≤ r → Le cmp k (at a q)

-- `k` stands at `i`, with nothing greater before it and nothing less behind it
pub record IsSplit (cmp : Compare) (k : Value) (l r i : ℕ) (a : List Value) : Type 0 where
  pub low : l ≤ i
  pub below : i ≤ r
  pub inside : r < length a
  pub middle : at a i ≡ k
  pub small : (p : ℕ) → l ≤ p → p < i → Le cmp (at a p) k
  pub large : (q : ℕ) → i < q → q ≤ r → Le cmp k (at a q)

module _ (cmp : Compare) (o : IsOrder cmp) (k : Value) where
  -- where the scan from the right stops
  abbrev Down : List Value → ℕ → ℕ → ℕ → Type 0
  Down a i j j' =
      (i ≤ j')
      × (j' ≤ j)
      × (i < j' → gt cmp k (at a j') ≡ true)
      × ((q : ℕ) → j' < q → q ≤ j → Le cmp k (at a q))

  scan_down-Down :
      (a : List Value) (i j : ℕ)
      → i ≤ j
      → j < length a
      → Returns (Down a i j) (scan_down cmp a k i j)
  unfolding scan_down
  scan_down-Down a i zero l h =
      returns (l, omega arith, (λ x. absurd (omega arith)), λ q x y. absurd (omega arith))
  scan_down-Down a i (suc j) l h = elim (Bool-cases (ltb i (suc j))) [
    | inl x ↦
        rw (x, load-ok a (suc j) h)
          (elim (Bool-cases (gt cmp k (at a (suc j)))) [
            | inl y ↦ rw y (returns (l, omega arith, (λ w. y), λ q u v. absurd (omega arith)))
            | inr y ↦ rw y (
                Returns-map (scan_down-Down a i j (ground arith) (omega arith))
                  λ j' (u, v, w, z). (u, omega arith, w, λ q s t. ground (arith, z q)))
          ])
    | inr x ↦
        rw x (returns (l, omega arith, (λ w. absurd (ground arith)), λ q u v. absurd (omega arith)))
  ]

  -- where the scan from the left stops
  abbrev Up : List Value → ℕ → ℕ → ℕ → Type 0
  Up a i j i' =
      (i ≤ i')
      × (i' ≤ j)
      × (i' < j → gt cmp (at a i') k ≡ true)
      × ((p : ℕ) → i ≤ p → p < i' → Le cmp (at a p) k)

  scan_up-Up :
      (a : List Value) (n i j : ℕ)
      → n ≡ j - i
      → i ≤ j
      → j < length a
      → Returns (Up a i j) (scan_up cmp a k n i)
  unfolding scan_up
  scan_up-Up a zero i j e l h =
      returns (omega arith, l, (λ x. absurd (omega arith)), λ p x y. absurd (omega arith))
  scan_up-Up a (suc n) i j e l h =
      rw (load-ok a i (omega arith)) (elim (Bool-cases (gt cmp (at a i) k)) [
        | inl y ↦ rw y (returns (omega arith, l, (λ w. y), λ p u v. absurd (omega arith)))
        | inr y ↦ rw y (
            Returns-map (scan_up-Up a n (suc i) j (omega arith) (omega arith) h)
              λ i' (u, v, w, z). (omega arith, v, w, λ p s t. ground (arith, z p)))
      ])

  module _ (l r : ℕ) (a0 : List Value) where
    Part-fill_left :
        (i j : ℕ) (a : List Value)
        → Part cmp k l r i i j a0 a
        → i < j
        → gt cmp k (at a j) ≡ true
        → Part cmp k l r j (suc i) j a0 (set a i (at a j))
    Part-fill_left i j a s lt big =
        let whole = length-set a i (at a j) in
        let hi : i < length a = omega (arith, s.high, s.within) in
        let hj : j < length a = omega (arith, s.high, s.within) in
        record {
          low = omega (arith, s.low);
          mid = lt;
          high = s.high;
          within = omega (arith, s.within);
          hole = omega (arith, s.low, s.high);
          swaps =
              next i j s.swaps (omega (arith, s.low, s.high)) (omega (arith, s.low, s.high))
                (hole_step a i j k hi hj (omega arith));
          small = λ p x y. ground (arith, at-set a i p (at a j), s.small p x, o.total k (at a j));
          large = λ q x y. ground (arith, at-set a i q (at a j), s.large q x);
        }

    Part-fill_right :
        (i j : ℕ) (a : List Value)
        → Part cmp k l r j i j a0 a
        → i < j
        → gt cmp (at a i) k ≡ true
        → Part cmp k l r i i (j - 1) a0 (set a j (at a i))
    Part-fill_right i j a s lt big =
        let whole = length-set a j (at a i) in
        let hi : i < length a = omega (arith, s.high, s.within) in
        let hj : j < length a = omega (arith, s.high, s.within) in
        record {
          low = s.low;
          mid = omega arith;
          high = omega (arith, s.high);
          within = omega (arith, s.within);
          hole = omega (arith, s.low, s.high);
          swaps =
              next j i s.swaps (omega (arith, s.low, s.high)) (omega (arith, s.low, s.high))
                (hole_step a j i k hj hi (omega arith));
          small = λ p x y. ground (arith, at-set a j p (at a i), s.small p x);
          large = λ q x y. ground (arith, at-set a j q (at a i), s.large q, o.total (at a i) k);
        }

    -- the state after a scan that moved no entry
    Part-Down :
        (i j j' : ℕ) (a : List Value)
        → Part cmp k l r i i j a0 a
        → Down a i j j'
        → Part cmp k l r i i j' a0 a
    Part-Down i j j' a s (u, v, w, z) = record {
      low = s.low;
      mid = u;
      high = omega (arith, s.high);
      within = s.within;
      hole = s.hole;
      swaps = s.swaps;
      small = s.small;
      large = λ q x y. ground (arith, z q, s.large q);
    }

    Part-Up :
        (h i j i' : ℕ) (a : List Value)
        → Part cmp k l r h i j a0 a
        → Up a i j i'
        → Part cmp k l r h i' j a0 a
    Part-Up h i j i' a s (u, v, w, z) = record {
      low = omega (arith, s.low);
      mid = v;
      high = s.high;
      within = s.within;
      hole = s.hole;
      swaps = s.swaps;
      small = λ p x y. ground (arith, z p, s.small p x);
      large = s.large;
    }

    -- what the loop returns: the split, with `k` put into the hole, by exchanges of `a0`
    abbrev pub Split : ℕ × List Value → Type 0
    Split (i, a) = (i < length a) × IsSplit cmp k l r i (set a i k) × Swaps l (suc r) a0 (set a i k)

    Split-end : (i j : ℕ) (a : List Value) → Part cmp k l r i i j a0 a → j ≤ i → Split (i, a)
    Split-end i j a s h =
        let hi : i < length a = omega (arith, s.mid, s.high, s.within) in
        (
          hi,
          record {
            low = s.low;
            below = omega (arith, s.mid, s.high);
            inside = omega (arith, s.within, length-set a i k);
            middle = ground (arith, at-set a i i k);
            small = λ p x y. ground (arith, at-set a i p k, s.small p x);
            large = λ q x y. ground (arith, at-set a i q k, s.large q);
          },
          s.swaps,
        )

    fill_left-Part :
        (i j : ℕ) (a : List Value)
        → Part cmp k l r i i j a0 a
        → (i < j → gt cmp k (at a j) ≡ true)
        → Returns
            (λ (i', b). Part cmp k l r j i' j a0 b × (i ≤ i') × ((i < i') ⊎ (j ≤ i)))
            (fill_left a i j)
    unfolding fill_left
    fill_left-Part i j a s big = elim (Bool-cases (ltb i j)) [
      | inl e ↦
          rw
            (
              e,
              load-ok a j (omega (arith, s.high, s.within)),
              store-ok a i (at a j) (omega (arith, s.mid, s.high, s.within)),
            )
            (returns (
              Part-fill_left i j a s (ltb→lt i j e) (big (ltb→lt i j e)),
              omega arith,
              inl (omega arith),
            ))
      | inr e ↦
          let same : j ≡ i = omega (arith, s.mid, ltb→le i j e) in
          rw e (returns ((rw same (rw same at s)), omega arith, inr (omega arith)))
    ]

    fill_right-Part :
        (i j : ℕ) (a : List Value)
        → Part cmp k l r j i j a0 a
        → (i < j → gt cmp (at a i) k ≡ true)
        → Returns (λ (j', b). Part cmp k l r i i j' a0 b × (j' ≤ j)) (fill_right a i j)
    unfolding fill_right
    fill_right-Part i j a s big = elim (Bool-cases (ltb i j)) [
      | inl e ↦
          rw
            (
              e,
              load-ok a i (omega (arith, s.mid, s.high, s.within)),
              store-ok a j (at a i) (omega (arith, s.high, s.within)),
            )
            (returns (Part-fill_right i j a s (ltb→lt i j e) (big (ltb→lt i j e)), omega arith))
      | inr e ↦
          let same : j ≡ i = omega (arith, s.mid, ltb→le i j e) in
          rw e (returns ((rw same (rw same at s)), omega arith))
    ]

    partition-Split :
        (f i j : ℕ) (a : List Value)
        → Part cmp k l r i i j a0 a
        → j - i < f
        → Returns Split (partition cmp k f i j a)
    unfolding partition
    partition-Split zero i j a s fuel = absurd (omega arith)
    partition-Split (suc f) i j a s fuel = elim (Bool-cases (ltb i j)) [
      | inr e ↦ rw (e, partition) (returns (Split-end i j a s (ltb→le i j e)))
      | inl e ↦
          rw (e, partition)
            (Returns-bind (scan_down-Down a i j s.mid (omega (arith, s.high, s.within))) λ j' down.
              Returns-bind (fill_left-Part i j' a (Part-Down i j j' a s down) down.2)
                λ (i1, b) (t, ge, moved).
                  Returns-bind
                    (scan_up-Up b (j' - i1) i1 j' refl t.mid (omega (arith, t.high, t.within)))
                    λ i2 up.
                      Returns-bind (fill_right-Part i2 j' b (Part-Up j' i1 j' i2 b t up) up.2)
                        λ (j2, c) (u, le).
                          partition-Split f i2 j2 c u
                            (omega (arith, ltb→lt i j e, down.1, up.0, moved)))
    ]

  -- the `while` splits the entries from `l` to `r` about the first of them
  pub partition-start :
      (l r : ℕ) (a : List Value)
      → l ≤ r
      → r < length a
      → at a l ≡ k
      → Returns (Split l r a) (partition cmp k (suc (r - l)) l r a)
  partition-start l r a h w e =
      partition-Split l r a (suc (r - l)) l r a
        (record {
          low = omega arith;
          mid = h;
          high = omega arith;
          within = w;
          hole = omega arith;
          swaps = rw (← e, set-get_or a l 0 (omega arith)) here;
          small = λ p x y. absurd (omega arith);
          large = λ q x y. absurd (omega arith);
        })
        (omega arith)
