-- ===== src/Slice/Grow.antt =====
-- slice_grow: a new array of at least the wanted capacity with the same entries, and one
-- reference less to the old one.
use c_algorithm.Base.{
  ℕ, ◌+◌, ◌-◌, ◌*◌, ◌/◌, ◌≤◌, ◌<◌, ◌≡◌, ◌≢◌, ◌∙◌, refl, List, arith, length, length-replicate,
  replicate, ◌==◌, if◌then◌else◌, ◌⊎◌, inl, inr, Bool-cases, ==→eq, ==→ne, Value, Returns, returns,
  some, none,
}
use c_algorithm.Memory.{Block, Store, IsStore, write, array_max_size}
use c_algorithm.Memory.Copy.{Copied, copy-Copied}
use c_algorithm.Segments.{Seg-copy}
use c_algorithm.Array.Laws.{fresh_block, opened, open_array-ok, close_array-ok}
use c_algorithm.Memory.Laws.{deref-ok, Returns-lift}
use c_algorithm.Slice.{Slice, grown_cap, slice_grow, make_room}
use c_algorithm.Slice.Holds.{Holds, Holds-deref, Holds-within}

pub grown_cap_bounds :
    (old_cap mincap : ℕ)
    → old_cap + old_cap / 2 ≤ array_max_size
    → mincap ≤ array_max_size
    → (mincap ≤ grown_cap old_cap mincap)
      × (old_cap ≤ grown_cap old_cap mincap)
      × ((grown_cap old_cap mincap ≡ mincap) ⊎ (grown_cap old_cap mincap ≡ old_cap + old_cap / 2))
unfolding grown_cap
grown_cap_bounds o m h k = ground arith

-- a slice of the same entries with room for one more
pub record Roomy (s : Store) (sli : Slice) (xs : List Value) (r : Slice × Store) : Type 0 where
  pub held : Holds r.1 r.0 xs
  pub room : r.0.start + length xs < held.block.cap
  pub store : IsStore r.1
  pub others : (q : ℕ) → q ≢ sli.array → q < s.next → r.1.block q ≡ s.block q
  pub in_place :
      (b : Block)
      → s.block sli.array ≡ some b
      → sli.start + sli.len ≢ b.cap
      → (r.0.array ≡ sli.array) × (r.0.start ≡ sli.start)
  pub moved :
      (b : Block) → s.block sli.array ≡ some b → sli.start + sli.len ≡ b.cap → r.0.array ≡ s.next
  pub where_held : (r.0.array ≡ sli.array) ⊎ (r.0.array ≡ s.next)
  pub avail : r.1.avail ≡ s.avail

module _ (s : Store) (sli : Slice) (xs : List Value) (i : IsStore s) (h : Holds s sli xs)
    (memory : 2 * h.block.cap + 1 ≤ s.avail) where
  abbrev old_cap : ℕ
  old_cap = h.block.cap - sli.start

  abbrev new_cap : ℕ
  new_cap = grown_cap old_cap (h.block.cap + 1 - sli.start)

  new_cap_bounds :
      (h.block.cap + 1 - sli.start ≤ new_cap) × (old_cap ≤ new_cap) × (new_cap ≤ s.avail)
  new_cap_bounds =
      let bounds =
        grown_cap_bounds old_cap (h.block.cap + 1 - sli.start) (omega (arith, i.bounded))
          (omega (arith, i.bounded)) in
      (bounds.0, bounds.1, omega (arith, bounds.2))

  -- after the copy: the new array at the fresh address, and the old one with a reference less
  abbrev grown_store : List Value → Store
  grown_store items =
      write sli.array
        (if (h.block.ref - 1) == 0 then none else some (record h.block { ref = h.block.ref - 1 }))
        (write s.next (some (record (fresh_block new_cap s) { items = items })) (opened new_cap s))

  grown_store-Roomy :
      (items : List Value)
      → sli.start + length xs ≡ h.block.cap
      → Copied h.block.items sli.start old_cap (replicate new_cap s.junk) 0 items
      → Roomy s sli xs (record { array = s.next; start = 0; len = sli.len }, grown_store items)
  grown_store-Roomy items full c =
      let apart : sli.array ≢ s.next = ground (arith, i.fresh sli.array, h.found) in
      record {
        held = record {
          block = record (fresh_block new_cap s) { items = items };
          found = ground arith;
          not_null = i.not_null;
          live = omega arith;
          size = c.size ∙ length-replicate new_cap s.junk;
          run =
              Seg-copy h.block.items items sli.start 0 xs h.run
                (omega (arith, c.size, length-replicate new_cap s.junk, new_cap_bounds))
                (λ k m lo hi e. c.moved k m lo (omega (arith)) (omega arith));
          count = h.count;
        };
        room = omega (arith, new_cap_bounds);
        store = record {
          fresh = λ q w. ground (arith, i.fresh q, i.fresh sli.array, h.found);
          not_null = omega arith;
          bounded = i.bounded;
        };
        others = λ q ne lt. ground arith;
        in_place = λ b at_b room.
            absurd (let same : b ≡ h.block = cc in room (rw same (omega (arith, h.count))));
        moved = λ b at_b e. refl;
        where_held = inr refl;
        avail = refl;
      }

  slice_grow-Roomy :
      sli.start + length xs ≡ h.block.cap
      → Returns (Roomy s sli xs) (slice_grow sli (h.block.cap + 1) s)
  unfolding slice_grow
  slice_grow-Roomy full =
      let apart : sli.array ≢ s.next = ground (arith, i.fresh sli.array, h.found) in
      rw
        (
          Holds-deref h,
          open_array-ok new_cap s new_cap_bounds.2,
          deref-ok s.next (opened new_cap s) (fresh_block new_cap s) i.not_null (ground arith),
        )
        (Returns-lift _
          (copy-Copied h.block.items sli.start old_cap (replicate new_cap s.junk) 0
            (omega (arith, h.size, Holds-within h))
            (omega (arith, length-replicate new_cap s.junk, new_cap_bounds)))
          λ items c.
            rw
              (close_array-ok sli.array
                (write s.next (some (record (fresh_block new_cap s) { items = items }))
                  (opened new_cap s))
                h.block h.not_null (ground (arith, h.found)) h.live)
              (returns (grown_store-Roomy items full c)))

  -- A slice at the end of its array is given a new one, and any other slice is left as it is.
  pub make_room-Roomy : Returns (Roomy s sli xs) (make_room sli s)
  unfolding make_room
  make_room-Roomy = rw (Holds-deref h) (elim (Bool-cases ((sli.start + sli.len) == h.block.cap)) [
    | inl e ↦ rw e (slice_grow-Roomy (omega (arith, h.count, ==→eq _ _ e)))
    | inr e ↦ rw e (
        returns (record {
          held = h;
          room = omega (arith, h.count, ==→ne _ _ e, Holds-within h, h.size);
          store = i;
          others = λ q ne lt. refl;
          in_place = λ b at_b room. (refl, refl);
          moved = λ b at_b full. absurd (let same : h.block ≡ b = cc in ==→ne _ _ e (rw same full));
          where_held = inl refl;
          avail = refl;
        }))
  ])
