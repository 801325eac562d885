-- ===== src/Deque/Grow.antt =====
-- deque_grow: the ring, unrolled from the start of a larger array.
use c_algorithm.Base.{
  ℕ, ◌+◌, ◌-◌, ◌*◌, ◌≤◌, ◌<◌, ◌≡◌, ◌≢◌, ◌∙◌, refl, inl, inr, some, none, List, arith, length,
  length-replicate, replicate, pos, negsuc, sub_ℕ, pred_ℤ, Value, at, Bool-cases, leb, ltb, ◌==◌,
  if◌then◌else◌, Returns, returns, Returns-bind, Returns-map,
}
use c_algorithm.Memory.{Block, Store, IsStore, write}
use c_algorithm.Memory.Copy.{copy-Copied}
use c_algorithm.Memory.Laws.{deref-ok, Returns-lift}
use c_algorithm.Array.Laws.{fresh_block, opened, open_array-ok, close_array-ok}
use c_algorithm.Slice.{grown_cap}
use c_algorithm.Slice.Grow.{grown_cap_bounds}
use c_algorithm.Deque.{Deque, unrolled, deque_grow}
use c_algorithm.Deque.Ring.{Ring, wrap, back_in, ring_len-Ring}
use c_algorithm.Deque.Holds.{DequeHolds}

-- the array begins with the entries `xs`
record Unrolled (fresh : List Value) (xs items : List Value) : Type 0 where
  size : length items ≡ length fresh
  entry : (k : ℕ) → k < length xs → at items k ≡ at xs k

unrolled-Unrolled :
    (cap : ℕ) (old : List Value) (f b : ℕ) (xs fresh : List Value)
    → length old ≡ cap
    → Ring cap old f b xs
    → cap ≤ length fresh
    → Returns (Unrolled fresh xs) (unrolled old cap (pos f) (pos b) fresh)
unfolding unrolled
unrolled-Unrolled cap old f b xs fresh size r w =
    let b_in = back_in cap old size f b xs r in
    elim (Bool-cases (leb f b)) [
      | inl e ↦
          let off : sub_ℕ b f ≡ pos (b - f) = rw e refl in
          let count : (b - f) + 1 ≡ length xs =
            ground (arith, r.front_in, r.last, r.some_left, r.fits) in
          rw (off, count)
            (Returns-map
              (copy-Copied old f (length xs) fresh 0 (ground (arith, b_in)) (omega (arith, r.fits)))
              λ items c. record {
                size = c.size;
                entry = λ k lt.
                    let place : wrap cap (f + k) ≡ f + k = ground (arith, b_in) in
                    c.moved (f + k) k (omega arith) (omega arith) (omega arith)
                    ∙ rw place at (r.entry k lt);
              })
      | inr e ↦
          let off : sub_ℕ b f ≡ negsuc (f - b - 1) = rw e refl in
          let count : (cap - f) + (b + 1) ≡ length xs =
            ground (arith, r.front_in, r.last, r.some_left, r.fits) in
          rw off (
            Returns-bind
              (copy-Copied old f (cap - f) fresh 0 (omega (arith, r.front_in)) (omega arith))
              λ mid c.
                Returns-map
                  (copy-Copied old 0 (b + 1) mid (cap - f) (omega arith)
                    (omega (arith, c.size, r.fits)))
                  λ items d. record {
                    size = d.size ∙ c.size;
                    entry = λ k lt. elim (Bool-cases (ltb k (cap - f))) [
                      | inl low ↦
                          let place : wrap cap (f + k) ≡ f + k = ground arith in
                          d.kept k (inl (ground arith))
                          ∙ c.moved (f + k) k (omega arith) (ground (arith, r.front_in))
                              (omega arith)
                          ∙ rw place at (r.entry k lt)
                      | inr high ↦
                          let place : wrap cap (f + k) ≡ f + k - cap = ground arith in
                          d.moved (f + k - cap) k (omega arith) (ground (arith, r.front_in))
                            (ground (arith, r.front_in))
                          ∙ rw place at (r.entry k lt)
                    ];
                  })
    ]

-- A deque that is not empty and that may be full.
pub record Packed (s : Store) (dq : Deque) (xs : List Value) : Type 0 where
  pub block : Block
  pub found : s.block dq.array ≡ some block
  pub not_null : 0 < dq.array
  pub live : 0 < block.ref
  pub size : length block.items ≡ block.cap
  pub f : ℕ
  pub b : ℕ
  pub at_front : dq.front ≡ pos f
  pub at_back : dq.back ≡ pos b
  pub ring : Ring block.cap block.items f b xs
  pub store : IsStore s

-- What a push leaves: the deque of the values `zs`, in a new array if they fill the one that it had
-- and in that one if not, and every other array as it was.
pub record DequeUpdated (s : Store) (p : ℕ) (zs : List Value) (r : Deque × Store) : Type 0 where
  pub held : DequeHolds r.1 r.0 zs
  pub in_place : (b : Block) → s.block p ≡ some b → length zs ≢ b.cap → r.0.array ≡ p
  pub moved : (b : Block) → s.block p ≡ some b → length zs ≡ b.cap → r.0.array ≡ s.next
  pub others : (q : ℕ) → q ≢ p → q < s.next → r.1.block q ≡ s.block q
  pub avail : r.1.avail ≡ s.avail

module _ (s : Store) (dq : Deque) (xs : List Value) (h : Packed s dq xs)
    (memory : 2 * h.block.cap + 1 ≤ s.avail) (full : length xs ≡ h.block.cap) where
  abbrev new_cap : ℕ
  new_cap = grown_cap h.block.cap (h.block.cap + 1)

  new_cap_bounds : (h.block.cap + 1 ≤ new_cap) × (new_cap ≤ s.avail)
  new_cap_bounds =
      let i = h.store in
      let bounds =
        grown_cap_bounds h.block.cap (h.block.cap + 1) (omega (arith, i.bounded))
          (omega (arith, i.bounded)) in
      (bounds.0, omega (arith, bounds.2, h.ring.front_in))

  abbrev grown_store : List Value → Store
  grown_store items =
      write dq.array
        (if (h.block.ref - 1) == 0 then none else some (record h.block { ref = h.block.ref - 1 }))
        (write s.next (some (record (fresh_block new_cap s) { items = items })) (opened new_cap s))

  grown_store-DequeUpdated :
      (items : List Value)
      → Unrolled (replicate new_cap s.junk) xs items
      → DequeUpdated s dq.array xs (
        record { array = s.next; front = pos 0; back = pred_ℤ (pos (length xs)) },
        grown_store items,
      )
  grown_store-DequeUpdated items u =
      let i = h.store in
      let r = h.ring in
      let apart : dq.array ≢ s.next = ground (arith, i.fresh dq.array, h.found) in
      record {
        held = record {
          block = record (fresh_block new_cap s) { items = items };
          found = ground arith;
          not_null = i.not_null;
          live = omega arith;
          size = u.size ∙ length-replicate new_cap s.junk;
          ends = inr (
            0,
            length xs - 1,
            refl,
            ground (arith, r.some_left),
            record {
              front_in = omega (arith, new_cap_bounds);
              some_left = r.some_left;
              fits = omega (arith, new_cap_bounds, r.fits);
              last = ground (arith, new_cap_bounds, r.fits, r.some_left);
              entry = λ k lt.
                  let place : wrap new_cap (0 + k) ≡ k = ground (arith, new_cap_bounds, r.fits) in
                  rw place (u.entry k lt);
            },
          );
          room = omega (arith, new_cap_bounds, r.fits);
          store = record {
            fresh = λ q w. ground (arith, i.fresh q, i.fresh dq.array, h.found);
            not_null = omega arith;
            bounded = i.bounded;
          };
        };
        in_place = λ b at_b room. absurd (let same : b ≡ h.block = cc in room (rw same full));
        moved = λ b at_b e. refl;
        others = λ q ne lt. ground arith;
        avail = refl;
      }

  -- deque_grow keeps the values of a full deque, in a new array with room for one more.
  pub deque_grow-DequeUpdated :
      Returns (DequeUpdated s dq.array xs) (deque_grow dq (h.block.cap + 1) s)
  unfolding deque_grow
  deque_grow-DequeUpdated =
      let i = h.store in
      let apart : dq.array ≢ s.next = ground (arith, i.fresh dq.array, h.found) in
      rw
        (
          deref-ok dq.array s h.block h.not_null h.found,
          open_array-ok new_cap s new_cap_bounds.1,
          deref-ok s.next (opened new_cap s) (fresh_block new_cap s) i.not_null (ground arith),
          h.at_front,
          h.at_back,
        )
        (Returns-lift _
          (unrolled-Unrolled h.block.cap h.block.items h.f h.b xs (replicate new_cap s.junk) h.size
            h.ring (omega (arith, length-replicate new_cap s.junk, new_cap_bounds)))
          λ items u.
            rw
              (
                close_array-ok dq.array
                    (write s.next (some (record (fresh_block new_cap s) { items = items }))
                      (opened new_cap s))
                    h.block h.not_null (ground (arith, h.found)) h.live,
                ring_len-Ring h.block.cap h.block.items h.size h.f h.b xs h.ring,
              )
              (returns (grown_store-DequeUpdated items u)))
