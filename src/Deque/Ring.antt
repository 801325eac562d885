-- ===== src/Deque/Ring.antt =====
-- A ring of entries in an array, and what a step of either end does to it.
use c_algorithm.Base.{
  ℕ, zero, suc, ◌+◌, ◌-◌, ◌≤◌, ◌<◌, ◌≡◌, ◌∙◌, List, [], ◌∷◌, ◌++◌, arith, length, length-append,
  set, get_or-append, ltb, ◌==◌, if◌then◌else◌, pos, sub_ℕ, Value, at, true, false, Bool-cases, inl,
  inr, ==→eq, ==→ne, ltb→lt, lt→ltb,
}
use c_algorithm.Swaps.{at-set}
use c_algorithm.Slice.Pop.{remove_at, length-remove_at, at-remove_at}
use c_algorithm.Deque.{ring_len}

-- a place behind the end of the array stands for one at its start
abbrev pub wrap : ℕ → ℕ → ℕ
wrap cap i = if ltb i cap then i else i - cap

-- the places after and before, in the ring
abbrev pub after : ℕ → ℕ → ℕ
after cap i = if (i + 1) == cap then 0 else i + 1

abbrev pub before : ℕ → ℕ → ℕ
before cap i = if i == 0 then cap - 1 else i - 1

-- the entries from the place `f` to the place `b` are `xs`, which is not empty
pub record Ring (cap : ℕ) (items : List Value) (f b : ℕ) (xs : List Value) : Type 0 where
  pub front_in : f < cap
  pub some_left : 0 < length xs
  pub fits : length xs ≤ cap
  pub last : b ≡ wrap cap (f + (length xs - 1))
  pub entry : (k : ℕ) → k < length xs → at items (wrap cap (f + k)) ≡ at xs k

module _ (cap : ℕ) (items : List Value) (size : length items ≡ cap) where
  pub Ring-one : (v : Value) → 0 < cap → Ring cap (set items 0 v) 0 0 (v ∷ [])
  Ring-one v h = record {
    front_in = h;
    some_left = omega arith;
    fits = h;
    last = ground arith;
    entry = λ k lt. ground (arith, at-set items 0 0 v);
  }

  module _ (f b : ℕ) (xs : List Value) (r : Ring cap items f b xs) where
    pub back_in : b < cap
    back_in = ground (arith, r.front_in, r.some_left, r.fits, r.last)

    -- what the source computes as the length
    pub ring_len-Ring : ring_len (sub_ℕ b f) cap ≡ pos (length xs)
    ring_len-Ring = ground (arith, r.front_in, r.some_left, r.fits, r.last)

    pub Ring-push_back :
        (v : Value)
        → length xs < cap
        → Ring cap (set items (after cap b) v) f (after cap b) (xs ++ v ∷ [])
    Ring-push_back v room = record {
      front_in = r.front_in;
      some_left = omega (arith, length-append xs (v ∷ []));
      fits = omega (arith, length-append xs (v ∷ []));
      last = ground (arith, length-append xs (v ∷ []), r.front_in, r.some_left, r.last);
      entry = λ k lt.
          let place : (after cap b == wrap cap (f + k)) ≡ (k == length xs) =
            ground (arith, length-append xs (v ∷ []), r.front_in, r.some_left, r.last) in
          at-set items (after cap b) (wrap cap (f + k)) v (ground (arith, r.front_in, r.last, size))
          ∙ rw (place, get_or-append xs (v ∷ []) k 0)
              (elim (Bool-cases (k == length xs)) [
                | inl e ↦ rw e (ground (arith, ==→eq _ _ e))
                | inr e ↦
                    let old : ltb k (length xs) ≡ true =
                      ground (arith, length-append xs (v ∷ []), ==→ne _ _ e) in
                    rw (e, old) (r.entry k (ltb→lt _ _ old))
              ]);
    }

    pub Ring-push_front :
        (v : Value)
        → length xs < cap
        → Ring cap (set items (before cap f) v) (before cap f) b (v ∷ xs)
    Ring-push_front v room = record {
      front_in = ground (arith, r.front_in);
      some_left = omega arith;
      fits = omega arith;
      last = ground (arith, r.front_in, r.some_left, r.last);
      entry = entry;
    }
      where
        f_in : before cap f < length items
        f_in = ground (arith, r.front_in, size)

        entry :
            (k : ℕ)
            → k < length (v ∷ xs)
            → at (set items (before cap f) v) (wrap cap (before cap f + k)) ≡ at (v ∷ xs) k
        entry zero lt = ground (arith, at-set items (before cap f) (before cap f) v f_in, f_in)
        entry (suc k) lt =
            let place : wrap cap (before cap f + suc k) ≡ wrap cap (f + k) =
              ground (arith, r.front_in) in
            let apart : (before cap f == wrap cap (f + k)) ≡ false = ground (arith, r.front_in) in
            rw (place, at-set items (before cap f) (wrap cap (f + k)) v f_in, apart)
              (r.entry k (omega arith))

    pub Ring-pop_front : 1 < length xs → Ring cap items (after cap f) b (remove_at xs 0)
    Ring-pop_front more = record {
      front_in = ground (arith, r.front_in);
      some_left = omega (arith, length-remove_at xs 0 (omega arith));
      fits = omega (arith, length-remove_at xs 0 (omega arith), r.fits);
      last = ground (arith, length-remove_at xs 0 (omega arith), r.front_in, r.fits, r.last);
      entry = λ k lt.
          let fewer = length-remove_at xs 0 (omega arith) in
          let place : wrap cap (after cap f + k) ≡ wrap cap (f + suc k) =
            ground (arith, r.front_in) in
          let behind : ltb k 0 ≡ false = ground arith in
          rw (place, at-remove_at xs 0 k, behind) (r.entry (suc k) (omega arith));
    }

    pub Ring-pop_back :
        1 < length xs → Ring cap items f (before cap b) (remove_at xs (length xs - 1))
    Ring-pop_back more = record {
      front_in = r.front_in;
      some_left = omega (arith, length-remove_at xs (length xs - 1) (omega arith));
      fits = omega (arith, length-remove_at xs (length xs - 1) (omega arith), r.fits);
      last =
          ground
            (arith, length-remove_at xs (length xs - 1) (omega arith), r.front_in, r.fits, r.last);
      entry = λ k lt.
          let fewer = length-remove_at xs (length xs - 1) (omega arith) in
          rw (at-remove_at xs (length xs - 1) k, lt→ltb k (length xs - 1) (omega arith))
            (r.entry k (omega arith));
    }

    -- the ends meet just when there is one entry
    pub one-Ring : (b == f) ≡ (length xs == 1)
    one-Ring = ground (arith, r.front_in, r.some_left, r.fits, r.last)
