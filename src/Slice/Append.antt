-- ===== src/Slice/Append.antt =====
-- slice_append.
use c_algorithm.Base.{
  ℕ, ◌+◌, ◌*◌, ◌≤◌, ◌<◌, ◌≡◌, ◌≢◌, List, [], ◌∷◌, ◌++◌, arith, length, length-append, set,
  length-set, Value, store-ok, Returns, returns, Returns-bind, some,
}
use c_algorithm.Swaps.{at-set}
use c_algorithm.Memory.{Block, Store, IsStore, write}
use c_algorithm.Memory.Laws.{write-IsStore}
use c_algorithm.Segments.{Seg, Seg-append, Seg-kept}
use c_algorithm.Slice.{Slice, slice_append}
use c_algorithm.Slice.Holds.{Holds, Holds-deref, Holds-write}
use c_algorithm.Slice.Grow.{Roomy, make_room-Roomy}

-- What an update of a slice leaves: the slice holds `zs`, at the same place in its array if there
-- was room, and in a new array if the slice reached to the end of its own; the memory is
-- well-formed, and every array that was there keeps its entries, but for the slice's own.
pub record Updated (s : Store) (sli : Slice) (zs : List Value) (r : Slice × Store) : Type 0 where
  pub held : Holds r.1 r.0 zs
  pub store : IsStore r.1
  pub in_place :
      (b : Block)
      → s.block sli.array ≡ some b
      → sli.start + sli.len ≢ b.cap
      → (r.0.array ≡ sli.array) × (r.0.start ≡ sli.start)
  pub moved :
      (b : Block) → s.block sli.array ≡ some b → sli.start + sli.len ≡ b.cap → r.0.array ≡ s.next
  pub others : (q : ℕ) → q ≢ sli.array → q < s.next → r.1.block q ≡ s.block q
  pub avail : r.1.avail ≡ s.avail

-- a write into the array of a slice that has been made room for
pub Updated-write :
    (s t : Store) (sli r : Slice) (xs zs items : List Value) (roomy : Roomy s sli xs (r, t))
    → length items ≡ length roomy.held.block.items
    → Seg items r.start zs
    → r.len + 1 ≡ length zs
    → Updated s sli zs (
      record r { len = r.len + 1 },
      write r.array (some (record roomy.held.block { items = items })) t,
    )
Updated-write s t sli r xs zs items roomy size run count = record {
  held = Holds-write roomy.held items zs (r.len + 1) size run count;
  store = write-IsStore r.array roomy.held.block _ t roomy.store roomy.held.found;
  in_place = roomy.in_place;
  moved = roomy.moved;
  others = λ q ne lt. ground (arith, roomy.others q, roomy.where_held);
  avail = roomy.avail;
}

pub Seg-snoc :
    (a : List Value) (d e : ℕ) (xs : List Value) (v : Value)
    → Seg a d xs
    → e ≡ d + length xs
    → e < length a
    → Seg (set a e v) d (xs ++ v ∷ [])
Seg-snoc a d e xs v s at_end h =
    let same = length-set a e v in
    Seg-append (set a e v) d e xs (v ∷ [])
      (Seg-kept a (set a e v) d xs s (omega arith) (λ k lo hi. ground (arith, at-set a e k v)))
      at_end (omega arith, ground (arith, at-set a e e v), omega arith)

-- slice_append puts the value behind the entries of the slice, in a new array if the slice reaches
-- to the end of its own and in place if not, and leaves every other array as it is, if `malloc` can give twice the
-- capacity and one.
pub slice_append-Updated :
    (s : Store) (sli : Slice) (xs : List Value) (v : Value) (h : Holds s sli xs)
    → IsStore s
    → 2 * h.block.cap + 1 ≤ s.avail
    → Returns (Updated s sli (xs ++ v ∷ [])) (slice_append sli v s)
unfolding slice_append
slice_append-Updated s sli xs v h i memory =
    Returns-bind (make_room-Roomy s sli xs i h memory) λ (r, t) roomy.
      let b = roomy.held in
      let count = b.count in
      let room = roomy.room in
      let size = b.size in
      rw (Holds-deref b, store-ok b.block.items (r.start + r.len) v (omega arith))
        (returns (
          Updated-write s t sli r xs (xs ++ v ∷ []) (set b.block.items (r.start + r.len) v) roomy
            (length-set b.block.items (r.start + r.len) v)
            (Seg-snoc b.block.items r.start (r.start + r.len) xs v b.run (omega arith)
              (omega arith))
            (omega (arith, length-append xs (v ∷ [])))))
