-- ===== src/Deque/Holds.antt =====
-- What a deque stands for: the list of its values from the front.
use c_algorithm.Base.{
  ℕ, ◌+◌, ◌-◌, ◌≤◌, ◌<◌, ◌≡◌, ◌⊎◌, refl, inl, inr, some, List, [], arith, length, ℤ, pos, negsuc,
  sub_ℕ, is_pos, Value, at, true, false, Bool-cases, ok, ltb, ◌==◌, fault, assertion,
  length-replicate, Returns, returns, if◌then◌else◌,
}
use c_algorithm.Memory.{Block, Store, IsStore}
use c_algorithm.Array.Laws.{array_get-ok, array_cap-ok, open_array-ok, opened-IsStore, fresh_block}
use c_algorithm.Deque.{Deque, open_deque, deque_len, deque_get, ring_index}
use c_algorithm.Deque.Ring.{Ring, wrap, ring_len-Ring}

-- the ends of an empty deque are -1
abbrev pub Ends : ℕ → List Value → ℤ → ℤ → List Value → Type 0
Ends cap items front back xs =
    ((front ≡ negsuc 0) × (back ≡ negsuc 0) × (xs ≡ []))
    ⊎ ((f b : ℕ) × (front ≡ pos f) × (back ≡ pos b) × Ring cap items f b xs)

-- The deque leads to a live array that is not full, and its ends enclose `xs`.
pub record DequeHolds (s : Store) (dq : Deque) (xs : List Value) : Type 0 where
  pub block : Block
  pub found : s.block dq.array ≡ some block
  pub not_null : 0 < dq.array
  pub live : 0 < block.ref
  pub size : length block.items ≡ block.cap
  pub ends : Ends block.cap block.items dq.front dq.back xs
  pub room : length xs < block.cap
  pub store : IsStore s

module _ (s : Store) (dq : Deque) (xs : List Value) (h : DequeHolds s dq xs) where
  -- deque_len of a deque that is not empty returns the number of its values, and 1 for an empty one.
  pub deque_len-DequeHolds :
      deque_len dq s ≡ ok (if length xs == 0 then pos 1 else pos (length xs), s)
  unfolding deque_len
  deque_len-DequeHolds = rw (array_cap-ok dq.array s h.block h.not_null h.found) (elim h.ends [
    | inl (e, e', none_left) ↦ rw (e, e', none_left) refl
    | inr (f, b, e, e', r) ↦
        let left : (length xs == 0) ≡ false = ground (arith, r.some_left) in
        rw (e, e', left, ring_len-Ring h.block.cap h.block.items h.size f b xs r) refl
  ])

  -- deque_get of a place in the deque returns the value there and changes nothing, unless the value
  -- is the one at the start of the array behind a wrap-around, for which it fails an assertion.
  pub deque_get-DequeHolds :
      (k f : ℕ)
      → k < length xs
      → dq.front ≡ pos f
      → deque_get dq k s ≡ (if (f + k) == h.block.cap then fault assertion else ok (at xs k, s))
  unfolding deque_get ring_index
  deque_get-DequeHolds k f lt e = rw deque_len-DequeHolds (elim h.ends [
    | inl (e', e2, none_left) ↦ absurd (ground (arith, none_left))
    | inr (g, b, e', e2, r) ↦
        let same : g ≡ f = ground (arith, e, e') in
        let left : (length xs == 0) ≡ false = ground (arith, r.some_left) in
        let within : is_pos (sub_ℕ (length xs) k) ≡ true = ground arith in
        let index : (if is_pos (sub_ℕ (f + k) h.block.cap)
              then sub_ℕ (f + k) h.block.cap
              else pos (f + k))
            ≡ pos (if ltb h.block.cap (f + k) then f + k - h.block.cap else f + k) =
          ground arith in
        let seen = rw same at (r.entry k lt) in
        rw
          (
            left,
            within,
            array_cap-ok dq.array s h.block h.not_null h.found,
            e,
            index,
            array_get-ok dq.array (if ltb h.block.cap (f + k) then f + k - h.block.cap else f + k) s
                h.block h.not_null h.found h.size,
          )
          (elim (Bool-cases ((f + k) == h.block.cap)) [
            | inl at_end ↦
                let past : ltb (if ltb h.block.cap (f + k) then f + k - h.block.cap else f + k)
                      h.block.cap
                    ≡ false =
                  ground arith in
                rw (at_end, past) refl
            | inr not_end ↦
                let inside : ltb (if ltb h.block.cap (f + k) then f + k - h.block.cap else f + k)
                      h.block.cap
                    ≡ true =
                  ground (arith, r.front_in, h.room) in
                let place : (if ltb h.block.cap (f + k) then f + k - h.block.cap else f + k)
                    ≡ wrap h.block.cap (f + k) =
                  ground arith in
                rw (not_end, inside, place, seen) refl
          ])
  ])

-- open_deque gives an empty deque, of at least one place.
pub open_deque-DequeHolds :
    (cap : ℕ) (s : Store)
    → IsStore s
    → cap + 1 ≤ s.avail
    → Returns (λ (dq, s'). DequeHolds s' dq []) (open_deque cap s)
unfolding open_deque
open_deque-DequeHolds cap s i memory =
    let places = if ltb cap 1 then 1 else cap in
    rw (open_array-ok places s (ground arith)) (
      returns (record {
        block = fresh_block places s;
        found = ground arith;
        not_null = i.not_null;
        live = omega arith;
        size = length-replicate places s.junk;
        ends = inl (refl, refl, refl);
        room = ground arith;
        store = opened-IsStore places s i;
      }))
