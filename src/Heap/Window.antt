-- ===== src/Heap/Window.antt =====
-- Sifts in the window of a slice, as changes of the list that the slice holds.
use mathlib.Core.List.Perm
use c_algorithm.Base.{
  ℕ, ◌+◌, ◌-◌, ◌≤◌, ◌<◌, ◌≡◌, ◌∙◌, refl, List, Perm, arith, length, length-set, set, Value, at, Run,
  Returns, returns,
}
use c_algorithm.Order.{Compare}
use c_algorithm.Swaps.{swap, swap-perm, length-swap, Swaps, here, next, length-Swaps}
use c_algorithm.Memory.{Store, IsStore}
use c_algorithm.Memory.Laws.{Returns-lift, write-IsStore}
use c_algorithm.Segments.{Seg, Seg-at}
use c_algorithm.Slice.{Slice}
use c_algorithm.Slice.Holds.{Holds, Holds-deref, Holds-within, Holds-write}
use c_algorithm.Slice.Access.{Seg-set}
use c_algorithm.Heap.{in_slice}
use c_algorithm.Heap.Spec.{Heaped, IsHeap}

-- an exchange inside a window is one of the window's entries
Seg-swap :
    (a : List Value) (d i j : ℕ) (xs : List Value)
    → Seg a d xs
    → d + length xs ≤ length a
    → i < length xs
    → j < length xs
    → Seg (swap a (d + i) (d + j)) d (swap xs i j)
unfolding swap
Seg-swap a d i j xs s w hi hj =
    rw (Seg-at a d i xs s hi, Seg-at a d j xs s hj)
      (Seg-set (set a (d + i) (at xs j)) d j (at xs i) (set xs i (at xs j))
        (Seg-set a d i (at xs j) xs s hi w) (omega (arith, length-set xs i (at xs j)))
        (omega (arith, length-set xs i (at xs j), length-set a (d + i) (at xs j))))

-- what exchanges inside a window leave in it
record Exchanged (b : List Value) (d : ℕ) (xs ys : List Value) : Type 0 where
  run : Seg b d ys
  perm : Perm ys xs
  count : length ys ≡ length xs

Swaps-Exchanged :
    (a : List Value) (d : ℕ) (xs : List Value) (b : List Value)
    → Seg a d xs
    → d + length xs ≤ length a
    → Swaps d (d + length xs) a b
    → (ys : List Value) × Exchanged b d xs ys
Swaps-Exchanged a d xs b s w here = (xs, record { run = s; perm = Perm.rfl; count = refl })
Swaps-Exchanged a d xs b s w (next {b = c} i j t p q e) =
    let (ys, x) = Swaps-Exchanged a d xs c s w t in
    let from_i : d + (i - d) ≡ i = omega arith in
    let from_j : d + (j - d) ≡ j = omega arith in
    let hi : i - d < length ys = omega (arith, x.count) in
    let hj : j - d < length ys = omega (arith, x.count) in
    (
      swap ys (i - d) (j - d),
      record {
        run = rw e (
            rw (from_i, from_j) at
              (Seg-swap c d (i - d) (j - d) ys x.run (omega (arith, x.count, length-Swaps t)) hi
                hj));
        perm = Perm.trans (swap-perm ys (i - d) (j - d) hi hj) x.perm;
        count = length-swap ys (i - d) (j - d) ∙ x.count;
      },
    )

-- The slice of the heap holds `xs`, which is in heap order.
pub record HeapHolds (cmp : Compare) (xs : List Value) (sli : Slice) (s : Store) : Type 0 where
  pub held : Holds s sli xs
  pub store : IsStore s
  pub heaped : IsHeap cmp xs

-- a sift in a slice makes a heap of its entries
pub in_slice-HeapHolds :
    (cmp : Compare) (s : Store) (sli : Slice) (xs : List Value) (h : Holds s sli xs)
    (sift : List Value → ℕ → Run (List Value))
    → IsStore s
    → Returns
        (λ b.
          Heaped cmp 0 (length xs) sli.start b
          × Swaps sli.start (sli.start + length xs) h.block.items b)
        (sift h.block.items sli.start)
    → Returns
        (λ (done, s'). (zs : List Value) × HeapHolds cmp zs sli s' × Perm zs xs)
        (in_slice sli sift s)
in_slice-HeapHolds cmp s sli xs h sift i sifts = rw (Holds-deref h) (
    Returns-lift _ sifts λ b (heaped, swaps).
      let (ys, x) = Swaps-Exchanged h.block.items sli.start xs b h.run (Holds-within h) swaps in
      returns (
        ys,
        record {
          held =
              Holds-write h b ys sli.len (length-Swaps swaps) x.run
                (omega (arith, h.count, x.count));
          store = write-IsStore sli.array h.block _ s i h.found;
          heaped = λ p c child lt.
              let seen_p = Seg-at b sli.start p ys x.run (omega arith) in
              let seen_c = Seg-at b sli.start c ys x.run (omega arith) in
              rw (seen_p, seen_c) at (heaped p c (omega arith) child (omega (arith, x.count)));
        },
        x.perm,
      ))
