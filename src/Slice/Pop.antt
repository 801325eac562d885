-- ===== src/Slice/Pop.antt =====
-- slice_pop.
use mathlib.Core.List.Perm
use c_algorithm.Base.{
  ℕ, zero, suc, ◌+◌, ◌-◌, ◌≤◌, ◌<◌, ◌≡◌, ◌∙◌, refl, List, [], ◌∷◌, ◌++◌, Perm, arith, length,
  lt→ltb, ltb, ltb→lt, ltb→le, Bool-cases, inl, inr, if◌then◌else◌, Value, at, load-ok, Returns,
  returns, some, fault, overlap, ◌⊎◌,
}
use c_algorithm.Memory.{copy, Store, IsStore, write}
use c_algorithm.Memory.Copy.{copy-Copied}
use c_algorithm.Memory.Laws.{write-IsStore, SameBut, write-SameBut, Returns-lift}
use c_algorithm.Segments.{Seg, Seg-at, at-Seg}
use c_algorithm.Slice.{Slice, slice_pop, copy_within}
use c_algorithm.Slice.Holds.{Holds, Holds-deref, Holds-within, Holds-write}

-- the list without its entry `i`
unfoldable pub remove_at : List Value → ℕ → List Value
remove_at [] i = []
remove_at (x ∷ xs) zero = xs
remove_at (x ∷ xs) (suc i) = x ∷ remove_at xs i

pub length-remove_at :
    (xs : List Value) (i : ℕ) → i < length xs → length (remove_at xs i) + 1 ≡ length xs
unfolding remove_at
length-remove_at [] i h = absurd (omega arith)
length-remove_at (x ∷ xs) zero h = omega arith
length-remove_at (x ∷ xs) (suc i) h = omega (arith, length-remove_at xs i)

pub at-remove_at :
    (xs : List Value) (i k : ℕ)
    → at (remove_at xs i) k ≡ (if ltb k i then at xs k else at xs (suc k))
unfolding remove_at
at-remove_at [] i k = ground arith
at-remove_at (x ∷ xs) zero k = ground arith
at-remove_at (x ∷ xs) (suc i) zero = ground arith
at-remove_at (x ∷ xs) (suc i) (suc k) = ground (arith, at-remove_at xs i k)

pub remove_at-last : (xs : List Value) (x : Value) → remove_at (xs ++ x ∷ []) (length xs) ≡ xs
unfolding remove_at
remove_at-last [] x = refl
remove_at-last (y ∷ xs) x = rw (remove_at-last xs x)

-- what slice_pop leaves
pub record Popped (s : Store) (sli : Slice) (xs : List Value) (i : ℕ) (r : (Value × Slice) × Store)
    : Type 0 where
  pub value : r.0.0 ≡ at xs i
  pub held : Holds r.1 r.0.1 (remove_at xs i)
  pub store : IsStore r.1
  pub same_array : r.0.1.array ≡ sli.array
  pub others : SameBut sli.array s r.1
  pub avail : r.1.avail ≡ s.avail

copy_within-apart :
    (a : List Value) (from n to : ℕ) → to + n ≤ from → copy_within a from n to ≡ copy a from n a to
unfolding copy_within
copy_within-apart a from n to h = ground arith

copy_within-overlap :
    (a : List Value) (from n to : ℕ)
    → to < from + n
    → from < to + n
    → copy_within a from n to ≡ fault overlap
unfolding copy_within
copy_within-overlap a from n to h w = ground arith

module _ (s : Store) (sli : Slice) (xs : List Value) (h : Holds s sli xs) (i : ℕ)
    (lt : i < length xs) where
  -- the entries behind `i`, moved down by one
  Seg-remove_at :
      (items : List Value)
      → length items ≡ length h.block.items
      → ((k : ℕ) → k < i → at items (sli.start + k) ≡ at h.block.items (sli.start + k))
      → ((k : ℕ)
          → i ≤ k
          → k + 1 < length xs
          → at items (sli.start + k) ≡ at h.block.items (sli.start + (k + 1)))
      → Seg items sli.start (remove_at xs i)
  Seg-remove_at items size low high =
      at-Seg items sli.start (remove_at xs i)
        (omega (arith, Holds-within h, length-remove_at xs i lt))
        λ k m hk e.
          rw (e, at-remove_at xs i k)
            (elim (Bool-cases (ltb k i)) [
              | inl x ↦ rw x (
                  low k (ltb→lt _ _ x)
                  ∙ Seg-at h.block.items sli.start k xs h.run
                      (omega (arith, length-remove_at xs i lt)))
              | inr x ↦
                  let up : k + 1 ≡ suc k = omega arith in
                  rw x (
                    high k (ltb→le _ _ x) (omega (arith, length-remove_at xs i lt))
                    ∙ rw up (
                        Seg-at h.block.items sli.start (suc k) xs h.run
                          (omega (arith, length-remove_at xs i lt))))
            ])

  Popped-write :
      IsStore s
      → (items : List Value) → length items ≡ length h.block.items
      → Seg items sli.start (remove_at xs i)
      → Popped s sli xs i (
        (at xs i, record sli { len = sli.len - 1 }),
        write sli.array (some (record h.block { items = items })) s,
      )
  Popped-write store items size run = record {
    value = refl;
    held =
        Holds-write h items (remove_at xs i) (sli.len - 1) size run
          (omega (arith, h.count, length-remove_at xs i lt));
    store = write-IsStore sli.array h.block _ s store h.found;
    same_array = refl;
    others = write-SameBut sli.array _ s;
    avail = refl;
  }

  -- the last entry, or the one before it
  pub slice_pop-Popped :
      length xs ≤ i + 2 → IsStore s → Returns (Popped s sli xs i) (slice_pop sli i s)
  unfolding slice_pop
  slice_pop-Popped near_end store =
      rw
        (
          lt→ltb i sli.len (omega (arith, h.count)),
          Holds-deref h,
          load-ok h.block.items (sli.start + i) (omega (arith, Holds-within h)),
          Seg-at h.block.items sli.start i xs h.run lt,
        )
        (elim (Bool-cases (ltb (i + 1) sli.len)) [
          | inl e ↦
              rw
                (
                  e,
                  copy_within-apart h.block.items (sli.start + (i + 1)) (sli.len - (i + 1))
                      (sli.start + i) (omega (arith, h.count)),
                )
                (Returns-lift _
                  (copy-Copied h.block.items (sli.start + (i + 1)) (sli.len - (i + 1)) h.block.items
                    (sli.start + i) (omega (arith, Holds-within h, h.count, ltb→lt _ _ e))
                    (omega (arith, Holds-within h, h.count, ltb→lt _ _ e)))
                  λ items c. returns (
                    Popped-write store items c.size (
                      Seg-remove_at items c.size (λ k w. c.kept (sli.start + k) (inl (omega arith)))
                        (λ k w z.
                          c.moved (sli.start + (k + 1)) (sli.start + k) (omega arith)
                            (omega (arith, h.count)) (omega arith)))))
          | inr e ↦ rw e (
              returns (
                Popped-write store h.block.items refl (
                  Seg-remove_at h.block.items refl (λ k w. refl)
                    (λ k w z. absurd (omega (arith, ltb→le _ _ e, h.count))))))
        ])

  -- any other entry: `memcpy` is called with overlapping parts
  pub slice_pop-overlap : i + 2 < length xs → slice_pop sli i s ≡ fault overlap
  unfolding slice_pop
  slice_pop-overlap far =
      rw
        (
          lt→ltb i sli.len (omega (arith, h.count)),
          Holds-deref h,
          load-ok h.block.items (sli.start + i) (omega (arith, Holds-within h)),
          lt→ltb (i + 1) sli.len (omega (arith, h.count)),
          copy_within-overlap h.block.items (sli.start + (i + 1)) (sli.len - (i + 1))
              (sli.start + i) (omega (arith, h.count)) (omega (arith, h.count)),
        )
        refl

  -- slice_pop of the last entry or the one before it returns the entry, takes it out of the slice,
  -- and leaves every other array as it is; for any other place it calls `memcpy` with parts that
  -- overlap, which is undefined.
  pub slice_pop-Popped_or_overlap :
      IsStore s
      → (length xs ≤ i + 2) × Returns (Popped s sli xs i) (slice_pop sli i s)
        ⊎ (i + 2 < length xs) × (slice_pop sli i s ≡ fault overlap)
  slice_pop-Popped_or_overlap store = elim (Bool-cases (ltb (i + 2) (length xs))) [
    | inl e ↦ let far : i + 2 < length xs = ltb→lt _ _ e in inr (far, slice_pop-overlap far)
    | inr e ↦
        let near_end : length xs ≤ i + 2 = ltb→le _ _ e in
        inl (near_end, slice_pop-Popped near_end store)
  ]

pub remove_at-perm : (xs : List Value) (i : ℕ) → i < length xs → Perm (at xs i ∷ remove_at xs i) xs
unfolding remove_at
remove_at-perm [] i h = absurd (omega arith)
remove_at-perm (x ∷ xs) zero h = Perm.rfl
remove_at-perm (x ∷ xs) (suc i) h =
    Perm.trans (Perm.swap x (at xs i) (remove_at xs i))
      (Perm.cons x (remove_at-perm xs i (omega arith)))
