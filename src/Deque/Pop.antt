-- ===== src/Deque/Pop.antt =====
-- deque_pop_front, deque_pop_back, deque_front and deque_back.
use c_algorithm.Base.{
  ℕ, ◌+◌, ◌-◌, ◌<◌, ◌≡◌, ◌∙◌, refl, inl, inr, List, [], arith, length, pos, negsuc, is_minus_one,
  add_ℕ, Value, empty_value, at, Bool, true, false, Bool-cases, ok, lt→ltb, ◌==◌, ==→eq, ==→ne,
  if◌then◌else◌, Returns, returns,
}
use c_algorithm.Memory.{Store}
use c_algorithm.Array.Laws.{array_get-ok, array_cap-ok}
use c_algorithm.Slice.Pop.{remove_at, length-remove_at}
use c_algorithm.Deque.{Deque, deque_pop_front, deque_pop_back, deque_front, deque_back}
use c_algorithm.Deque.Ring.{wrap, after, before, back_in, Ring-pop_front, Ring-pop_back, one-Ring}
use c_algorithm.Deque.Holds.{DequeHolds, Ends}

-- what a pop of the entry `i` leaves: the memory is not written to
abbrev pub DequePopped : Store → List Value → ℕ → (Value × Bool × Deque) × Store → Type 0
DequePopped s xs i ((v, emptied, dq), s') =
    (v ≡ at xs i) × (emptied ≡ false) × (s' ≡ s) × DequeHolds s dq (remove_at xs i)

module _ (s : Store) (dq : Deque) (xs : List Value) (h : DequeHolds s dq xs) where
  -- the entry at a place of the array
  entry-ok :
      (i : ℕ)
      → i < h.block.cap
      → c_algorithm.Array.array_get dq.array (pos i) s ≡ ok (at h.block.items i, s)
  entry-ok i lt =
      array_get-ok dq.array i s h.block h.not_null h.found h.size
      ∙ rw (lt→ltb i h.block.cap lt) refl

  -- the deque with other ends
  moved :
      (dq' : Deque) (i : ℕ)
      → dq'.array ≡ dq.array
      → i < length xs
      → Ends h.block.cap h.block.items dq'.front dq'.back (remove_at xs i)
      → DequeHolds s dq' (remove_at xs i)
  moved dq' i same lt ends = record {
    block = h.block;
    found = rw same h.found;
    not_null = rw same h.not_null;
    live = h.live;
    size = h.size;
    ends = ends;
    room = omega (arith, h.room, length-remove_at xs i lt);
    store = h.store;
  }

  -- no entry is left of one
  none_of_one : (i : ℕ) → length xs ≡ 1 → i < length xs → remove_at xs i ≡ []
  none_of_one i one lt = nil_of_length (remove_at xs i) (omega (arith, length-remove_at xs i lt))
    where
      nil_of_length : (ys : List Value) → length ys ≡ 0 → ys ≡ []
      nil_of_length ys e = ground (arith, e)

  -- deque_pop_front of a deque that is not empty returns its first value without setting
  -- `*empty`, and leaves the others.
  pub deque_pop_front-DequePopped :
      0 < length xs → Returns (DequePopped s xs 0) (deque_pop_front dq s)
  unfolding deque_pop_front
  deque_pop_front-DequePopped some_left = elim h.ends [
    | inl (e, e', none_left) ↦ absurd (ground (arith, none_left))
    | inr (f, b, e, e', r) ↦
        let first = r.entry 0 some_left in
        let place : wrap h.block.cap (f + 0) ≡ f = ground (arith, r.front_in) in
        let next : (if (f + 1) == h.block.cap then pos 0 else pos (f + 1))
            ≡ pos (after h.block.cap f) =
          ground arith in
        let ends_meet = one-Ring h.block.cap h.block.items h.size f b xs r in
        rw (e, e', entry-ok f r.front_in, array_cap-ok dq.array s h.block h.not_null h.found, next)
          (elim (Bool-cases (b == f)) [
            | inl one ↦
                let single : length xs ≡ 1 = ==→eq _ _ (rw ends_meet at one) in
                rw one (
                  returns (
                    rw place at first,
                    refl,
                    refl,
                    moved (record { array = dq.array; front = negsuc 0; back = negsuc 0 }) 0 refl
                        some_left (inl (refl, refl, none_of_one 0 single some_left)),
                  ))
            | inr more ↦
                let several = ==→ne _ _ (rw ends_meet at more) in
                rw more (
                  returns (
                    rw place at first,
                    refl,
                    refl,
                    moved
                        (record {
                          array = dq.array;
                          front = pos (after h.block.cap f);
                          back = pos b;
                        })
                        0 refl some_left
                        (inr (
                          after h.block.cap f,
                          b,
                          refl,
                          refl,
                          Ring-pop_front h.block.cap h.block.items h.size f b xs r
                              (omega (arith, several)),
                        )),
                  ))
          ])
  ]

  -- deque_pop_back of a deque that is not empty returns its last value without setting `*empty`,
  -- and leaves the others.
  pub deque_pop_back-DequePopped :
      0 < length xs → Returns (DequePopped s xs (length xs - 1)) (deque_pop_back dq s)
  unfolding deque_pop_back
  deque_pop_back-DequePopped some_left = elim h.ends [
    | inl (e, e', none_left) ↦ absurd (ground (arith, none_left))
    | inr (f, b, e, e', r) ↦
        let last = r.entry (length xs - 1) (omega arith) in
        let place : wrap h.block.cap (f + (length xs - 1)) ≡ b = ground (arith, r.last) in
        let b_in = back_in h.block.cap h.block.items h.size f b xs r in
        let next : (if is_minus_one (if b == 0 then negsuc 0 else pos (b - 1))
              then add_ℕ (if b == 0 then negsuc 0 else pos (b - 1)) h.block.cap
              else (if b == 0 then negsuc 0 else pos (b - 1)))
            ≡ pos (before h.block.cap b) =
          ground arith in
        let ends_meet = one-Ring h.block.cap h.block.items h.size f b xs r in
        rw (e', e, entry-ok b b_in, array_cap-ok dq.array s h.block h.not_null h.found, next)
          (elim (Bool-cases (b == f)) [
            | inl one ↦
                let single : length xs ≡ 1 = ==→eq _ _ (rw ends_meet at one) in
                rw one (
                  returns (
                    rw place at last,
                    refl,
                    refl,
                    moved (record { array = dq.array; front = negsuc 0; back = negsuc 0 })
                        (length xs - 1) refl (omega arith)
                        (inl (refl, refl, none_of_one (length xs - 1) single (omega arith))),
                  ))
            | inr more ↦
                let several = ==→ne _ _ (rw ends_meet at more) in
                rw more (
                  returns (
                    rw place at last,
                    refl,
                    refl,
                    moved
                        (record {
                          array = dq.array;
                          front = pos f;
                          back = pos (before h.block.cap b);
                        })
                        (length xs - 1) refl (omega arith)
                        (inr (
                          f,
                          before h.block.cap b,
                          refl,
                          refl,
                          Ring-pop_back h.block.cap h.block.items h.size f b xs r
                              (omega (arith, several)),
                        )),
                  ))
          ])
  ]

  -- deque_front and deque_back of a deque that is not empty return its first and its last value
  pub deque_front-deque_back :
      0 < length xs
      → (deque_front dq s ≡ ok (at xs 0, s)) × (deque_back dq s ≡ ok (at xs (length xs - 1), s))
  unfolding deque_front deque_back
  deque_front-deque_back some_left = elim h.ends [
    | inl (e, e', none_left) ↦ absurd (ground (arith, none_left))
    | inr (f, b, e, e', r) ↦
        let place : wrap h.block.cap (f + 0) ≡ f = ground (arith, r.front_in) in
        let place' : wrap h.block.cap (f + (length xs - 1)) ≡ b = ground (arith, r.last) in
        let first = rw place at (r.entry 0 some_left) in
        let last = rw place' at (r.entry (length xs - 1) (omega arith)) in
        (
          rw (e, entry-ok f r.front_in, first) refl,
          rw (e', entry-ok b (back_in h.block.cap h.block.items h.size f b xs r), last) refl,
        )
  ]

  -- On an empty deque both pops set `*empty`, return EMPTY_VALUE and change nothing.
  pub deque_pop-nil :
      length xs ≡ 0
      → (deque_pop_front dq s ≡ ok ((empty_value, true, dq), s))
        × (deque_pop_back dq s ≡ ok ((empty_value, true, dq), s))
  unfolding deque_pop_front deque_pop_back
  deque_pop-nil none_left = elim h.ends [
    | inl (e, e', x) ↦
        let no_front : is_minus_one dq.front ≡ true = rw e refl in
        let no_back : is_minus_one dq.back ≡ true = rw e' refl in
        (rw no_front refl, rw no_back refl)
    | inr (f, b, e, e', r) ↦ absurd (omega (arith, r.some_left))
  ]
