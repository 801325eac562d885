-- ===== src/Slice/Insert.antt =====
-- slice_insert, as it is: it moves the first entries of the slice up, not those from the place on.
use c_algorithm.Base.{
  ℕ, suc, ◌+◌, ◌-◌, ◌*◌, ◌≤◌, ◌<◌, ◌≡◌, ◌∙◌, sym, refl, List, arith, length, set, length-set, ltb,
  leb, ltb→le, true, ◌&&◌, ◌⊎◌, Bool-cases, inl, inr, ◌==◌, if◌then◌else◌, Value, at, store-ok,
  Returns, returns, Returns-bind, some,
}
use c_algorithm.Swaps.{at-set}
use c_algorithm.Memory.{Store, IsStore, write}
use c_algorithm.Memory.Copy.{Copied, copy-Copied}
use c_algorithm.Memory.Laws.{Returns-lift}
use c_algorithm.Segments.{Seg-at, entries, length-entries, Seg-entries}
use c_algorithm.Slice.{Slice, slice_insert}
use c_algorithm.Slice.Holds.{Holds, Holds-deref}
use c_algorithm.Slice.Grow.{Roomy, make_room-Roomy}
use c_algorithm.Slice.Append.{Updated, Updated-write}

-- the entry `k` after the call, for a place of the old slice
abbrev pub inserted : List Value → ℕ → Value → ℕ → Value
inserted xs index v k =
    if k == index
    then v
    else if ltb 0 k && leb k (length xs - index)
    then at xs (k - 1)
    else at xs k

-- What slice_insert leaves: one entry more, the new value at its place, and the entries that it
-- moves. The last entry is one of the slice only for an insertion at one of its ends.
pub record Inserted (s : Store) (sli : Slice) (xs : List Value) (index : ℕ) (v : Value)
    (r : Slice × Store) : Type 0 where
  pub zs : List Value
  pub updated : Updated s sli zs r
  pub count : length zs ≡ length xs + 1
  pub entry : (k : ℕ) → k < length xs → at zs k ≡ inserted xs index v k
  pub last_moved : index ≡ 0 → 0 < length xs → at zs (length xs) ≡ at xs (length xs - 1)
  pub last_new : index ≡ length xs → at zs (length xs) ≡ v

at-entries :
    (a : List Value) (d n k : ℕ) → d + n ≤ length a → k < n → at (entries a d n) k ≡ at a (d + k)
at-entries a d n k h lt =
    sym (Seg-at a d k (entries a d n) (Seg-entries a d n h) (omega (arith, length-entries a d n)))

module _ (s t : Store) (sli r : Slice) (xs : List Value) (index : ℕ) (v : Value)
    (roomy : Roomy s sli xs (r, t)) (le : index ≤ length xs) where
  -- the entries after the move
  record Moved (moved : List Value) : Type 0 where
    size : length moved ≡ length roomy.held.block.items
    up : (k : ℕ) → k < length xs - index → at moved (r.start + suc k) ≡ at xs k
    kept :
        (k : ℕ)
        → k < length xs
        → (k ≡ 0) ⊎ (length xs - index < k)
        → at moved (r.start + k) ≡ at xs k

  Moved-Inserted :
      (moved : List Value)
      → Moved moved
      → Inserted s sli xs index v (
        record r { len = r.len + 1 },
        write r.array (some (record roomy.held.block { items = set moved (r.start + index) v })) t,
      )
  Moved-Inserted moved m = record {
    zs = entries final r.start (length xs + 1);
    updated =
        Updated-write s t sli r xs (entries final r.start (length xs + 1)) final roomy whole
          (Seg-entries final r.start (length xs + 1) inside)
          (omega (arith, roomy.held.count, length-entries final r.start (length xs + 1)));
    count = length-entries final r.start (length xs + 1);
    entry = λ k lt. at_final k (omega arith) ∙ elim (Bool-cases (k == index)) [
      | inl e ↦ rw e (ground arith)
      | inr e ↦ rw e (elim (Bool-cases (ltb 0 k && leb k (length xs - index))) [
        | inl x ↦
            let down : suc (k - 1) ≡ k = ground arith in
            rw x (ground (arith, rw down at (m.up (k - 1) (ground arith))))
        | inr x ↦ rw x (ground (arith, m.kept k lt (ground arith)))
      ])
    ];
    last_moved = λ e lt.
        let down : suc (length xs - 1) ≡ length xs = omega arith in
        at_final (length xs) (omega arith)
        ∙ ground (arith, rw down at (m.up (length xs - 1) (omega arith)));
    last_new = λ e. at_final (length xs) (omega arith) ∙ ground arith;
  }
    where
      final : List Value
      final = set moved (r.start + index) v

      whole : length final ≡ length roomy.held.block.items
      whole = length-set moved (r.start + index) v ∙ m.size

      inside : r.start + (length xs + 1) ≤ length final
      inside = omega (arith, whole, roomy.room, roomy.held.size)

      at_final :
          (k : ℕ)
          → k < length xs + 1
          → at (entries final r.start (length xs + 1)) k
            ≡ (if k == index then v else at moved (r.start + k))
      at_final k lt =
          at-entries final r.start (length xs + 1) k inside lt
          ∙ at-set moved (r.start + index) (r.start + k) v (omega (arith, m.size, inside, whole))
          ∙ ground arith

  Moved-none : index ≡ length xs → Moved roomy.held.block.items
  Moved-none e = record {
    size = refl;
    up = λ k lt. absurd (omega arith);
    kept = λ k lt out. Seg-at roomy.held.block.items r.start k xs roomy.held.run lt;
  }

  Moved-Copied :
      (moved : List Value)
      → Copied roomy.held.block.items r.start
          (r.len - index)
          roomy.held.block.items
          (r.start + 1)
          moved
      → Moved moved
  Moved-Copied moved c = record {
    size = c.size;
    up = λ k lt.
        c.moved (r.start + k) (r.start + suc k) (omega arith) (omega (arith, roomy.held.count))
          (omega arith)
        ∙ Seg-at roomy.held.block.items r.start k xs roomy.held.run (omega arith);
    kept = λ k lt out.
        c.kept (r.start + k) (omega (arith, roomy.held.count))
        ∙ Seg-at roomy.held.block.items r.start k xs roomy.held.run lt;
  }

-- slice_insert at a place that is not beyond the end gives a slice with one entry more that has
-- the new value at its place. The old entries from the first on move up by one, as many as stand
-- behind the place, and not those that stand behind it; the others stay.
pub slice_insert-Inserted :
    (s : Store) (sli : Slice) (xs : List Value) (index : ℕ) (v : Value) (h : Holds s sli xs)
    → IsStore s
    → 2 * h.block.cap + 1 ≤ s.avail
    → index ≤ length xs
    → Returns (Inserted s sli xs index v) (slice_insert sli index v s)
unfolding slice_insert
slice_insert-Inserted s sli xs index v h i memory le =
    let within : leb index sli.len ≡ true = ground (arith, h.count) in
    rw within (
      Returns-bind (make_room-Roomy s sli xs i h memory) λ (r, t) roomy.
        let b = roomy.held in
        let count = b.count in
        let room = roomy.room in
        let size = b.size in
        rw (Holds-deref b) (elim (Bool-cases (ltb 0 (r.len - index))) [
          | inl e ↦ rw e (
              Returns-lift _
                (copy-Copied b.block.items r.start (r.len - index) b.block.items (r.start + 1)
                  (omega arith) (omega arith))
                λ moved c. rw (store-ok moved (r.start + index) v (omega (arith, c.size))) (
                  returns (
                    Moved-Inserted s t sli r xs index v roomy le moved
                      (Moved-Copied s t sli r xs index v roomy le moved c))))
          | inr e ↦
              rw (e, store-ok b.block.items (r.start + index) v (omega arith))
                (returns (
                  Moved-Inserted s t sli r xs index v roomy le b.block.items
                    (Moved-none s t sli r xs index v roomy le (omega (arith, ltb→le _ _ e)))))
        ]))
