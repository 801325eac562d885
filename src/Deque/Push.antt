-- ===== src/Deque/Push.antt =====
-- deque_push_front and deque_push_back.
use c_algorithm.Base.{
  ℕ, ◌+◌, ◌-◌, ◌*◌, ◌≤◌, ◌<◌, ◌≡◌, ◌∙◌, refl, inl, inr, some, List, [], ◌∷◌, ◌++◌, arith, length,
  length-set, set, pos, negsuc, sub_ℤ, is_minus_one, is_nat, add_ℕ, Value, true, false, Bool-cases,
  fault, bounds, store-ok, ◌==◌, ==→ne, ==→eq, if◌then◌else◌, Returns, returns, Returns-map,
}
use c_algorithm.Memory.{Store, write}
use c_algorithm.Memory.Laws.{deref-ok, write-IsStore, write-SameBut}
use c_algorithm.Array.{write_at}
use c_algorithm.Deque.{Deque, deque_push_front, deque_push_back, grow_if_full, ring_len}
use c_algorithm.Deque.Ring.{
  Ring, after, before, back_in, Ring-one, Ring-push_back, Ring-push_front, ring_len-Ring,
}
use c_algorithm.Deque.Holds.{DequeHolds}
use c_algorithm.Deque.Grow.{Packed, DequeUpdated, deque_grow-DequeUpdated}

-- a push grows the deque if it is full then, and leaves it as it is otherwise
grow_if_full-DequeUpdated :
    (s : Store) (dq : Deque) (xs : List Value) (h : Packed s dq xs)
    → 2 * h.block.cap + 1 ≤ s.avail
    → Returns (DequeUpdated s dq.array xs) (grow_if_full dq h.block.cap s)
unfolding grow_if_full
grow_if_full-DequeUpdated s dq xs h memory =
    let len = ring_len-Ring h.block.cap h.block.items h.size h.f h.b xs h.ring in
    elim (Bool-cases (length xs == h.block.cap)) [
      | inl full ↦
          let test : is_nat (ring_len (sub_ℤ dq.back dq.front) h.block.cap) h.block.cap ≡ true =
            rw (h.at_front, h.at_back, len) full in
          rw test (deque_grow-DequeUpdated s dq xs h memory (==→eq _ _ full))
      | inr room ↦
          let test : is_nat (ring_len (sub_ℤ dq.back dq.front) h.block.cap) h.block.cap ≡ false =
            rw (h.at_front, h.at_back, len) room in
          rw test (
            returns (record {
              held = record {
                block = h.block;
                found = h.found;
                not_null = h.not_null;
                live = h.live;
                size = h.size;
                ends = inr (h.f, h.b, h.at_front, h.at_back, h.ring);
                room = omega (arith, h.ring.fits, ==→ne _ _ room);
                store = h.store;
              };
              in_place = λ b at_b e. refl;
              moved =
                  λ b at_b e. absurd (let same : h.block ≡ b = cc in ==→ne _ _ room (rw same e));
              others = λ q ne lt. refl;
              avail = refl;
            }))
    ]

-- the end of a push: the value is written, and the ends move
grow_written :
    (s : Store) (dq : Deque) (xs zs : List Value) (h : DequeHolds s dq xs) (front back : ℕ)
    (items : List Value)
    → 2 * h.block.cap + 1 ≤ s.avail
    → length items ≡ length h.block.items
    → Ring h.block.cap items front back zs
    → Returns (DequeUpdated s dq.array zs) (
        grow_if_full
          (record { array = dq.array; front = pos front; back = pos back })
          h.block.cap
          (write dq.array (some (record h.block { items = items })) s))
grow_written s dq xs zs h front back items memory same r =
    Returns-map
      (grow_if_full-DequeUpdated (write dq.array (some (record h.block { items = items })) s)
        (record { array = dq.array; front = pos front; back = pos back }) zs
        (record {
          block = record h.block { items = items };
          found = ground arith;
          not_null = h.not_null;
          live = h.live;
          size = same ∙ h.size;
          f = front;
          b = back;
          at_front = refl;
          at_back = refl;
          ring = r;
          store = write-IsStore dq.array h.block _ s h.store h.found;
        })
        memory)
      λ r' u. record {
        held = u.held;
        in_place = λ b at_b e.
            let same : b ≡ h.block = cc in
            u.in_place (record h.block { items = items }) (ground arith) (rw same at e);
        moved = λ b at_b e.
            let same : b ≡ h.block = cc in
            u.moved (record h.block { items = items }) (ground arith) (rw same at e);
        others = λ q ne lt. u.others q ne lt ∙ write-SameBut dq.array _ s q ne;
        avail = u.avail;
      }

module _ (s : Store) (dq : Deque) (xs : List Value) (v : Value) (h : DequeHolds s dq xs)
    (memory : 2 * h.block.cap + 1 ≤ s.avail) where
  -- deque_push_back puts the value behind the last one, and leaves every other array as it is. The
  -- deque is in a new array if it is full then, and in the one that it had if not.
  pub deque_push_back-DequeUpdated :
      Returns (DequeUpdated s dq.array (xs ++ v ∷ [])) (deque_push_back dq v s)
  unfolding deque_push_back write_at
  deque_push_back-DequeUpdated = elim h.ends [
    | inl (e, e', none_left) ↦
        let not_full : (0 == h.block.cap) ≡ false = ground (arith, h.room) in
        rw
          (
            e,
            e',
            none_left,
            deref-ok dq.array s h.block h.not_null h.found,
            not_full,
            store-ok h.block.items 0 v (omega (arith, h.size, h.room)),
          )
          (grow_written s dq xs (v ∷ []) h 0 0 (set h.block.items 0 v) memory
            (length-set h.block.items 0 v)
            (Ring-one h.block.cap h.block.items h.size v (omega (arith, h.room))))
    | inr (f, b, e, e', r) ↦
        let next : (if (b + 1) == h.block.cap then pos 0 else pos (b + 1))
            ≡ pos (after h.block.cap b) =
          ground arith in
        let b_in = back_in h.block.cap h.block.items h.size f b xs r in
        rw
          (
            e,
            e',
            deref-ok dq.array s h.block h.not_null h.found,
            next,
            store-ok h.block.items (after h.block.cap b) v (ground (arith, h.size, b_in)),
          )
          (grow_written s dq xs (xs ++ v ∷ []) h f (after h.block.cap b)
            (set h.block.items (after h.block.cap b) v) memory
            (length-set h.block.items (after h.block.cap b) v)
            (Ring-push_back h.block.cap h.block.items h.size f b xs r v h.room))
  ]

  -- deque_push_front of a deque that is not empty puts the value before the first one, and leaves
  -- every other array as it is. The deque is in a new array if it is full then, and in the one that
  -- it had if not.
  pub deque_push_front-DequeUpdated :
      0 < length xs → Returns (DequeUpdated s dq.array (v ∷ xs)) (deque_push_front dq v s)
  unfolding deque_push_front write_at
  deque_push_front-DequeUpdated some_left = elim h.ends [
    | inl (e, e', none_left) ↦ absurd (ground (arith, none_left))
    | inr (f, b, e, e', r) ↦
        let next : (if is_minus_one (if f == 0 then negsuc 0 else pos (f - 1))
              then add_ℕ (if f == 0 then negsuc 0 else pos (f - 1)) h.block.cap
              else (if f == 0 then negsuc 0 else pos (f - 1)))
            ≡ pos (before h.block.cap f) =
          ground (arith, r.front_in) in
        rw
          (
            e,
            e',
            deref-ok dq.array s h.block h.not_null h.found,
            next,
            store-ok h.block.items (before h.block.cap f) v (ground (arith, h.size, r.front_in)),
          )
          (grow_written s dq xs (v ∷ xs) h (before h.block.cap f) b
            (set h.block.items (before h.block.cap f) v) memory
            (length-set h.block.items (before h.block.cap f) v)
            (Ring-push_front h.block.cap h.block.items h.size f b xs r v h.room))
  ]

-- deque_push_front of an empty deque writes before the array.
pub deque_push_front-nil :
    (s : Store) (dq : Deque) (xs : List Value) (v : Value)
    → DequeHolds s dq xs
    → length xs ≡ 0
    → deque_push_front dq v s ≡ fault bounds
unfolding deque_push_front write_at
deque_push_front-nil s dq xs v h none_left = elim h.ends [
  | inl (e, e', x) ↦ rw (e, deref-ok dq.array s h.block h.not_null h.found) refl
  | inr (f, b, e, e', r) ↦ absurd (omega (arith, r.some_left))
]
