-- ===== src/Slice/Access.antt =====
-- slice_get and slice_set, and what a write through one slice does to another on the same array.
use c_algorithm.Base.{
  ℕ, ◌+◌, ◌-◌, ◌≤◌, ◌<◌, ◌≡◌, ◌∙◌, sym, refl, List, arith, length, length-set, set, lt→ltb, ltb,
  leb, ◌&&◌, if◌then◌else◌, inl, inr, Bool-cases, Value, at, ok, load-ok, store-ok, Returns,
  returns, some,
}
use c_algorithm.Swaps.{at-set}
use c_algorithm.Memory.{Store, write}
use c_algorithm.Segments.{Seg, Seg-at, at-Seg, Seg-kept}
use c_algorithm.Slice.{Slice, slice_get, slice_set}
use c_algorithm.Memory.Laws.{SameBut, write-SameBut}
use c_algorithm.Slice.Holds.{Holds, Holds-deref, Holds-within, Holds-write}

-- a write at place `i` of a window from `d` on
pub Seg-set :
    (a : List Value) (d i : ℕ) (v : Value) (xs : List Value)
    → Seg a d xs
    → i < length xs
    → d + length xs ≤ length a
    → Seg (set a (d + i) v) d (set xs i v)
Seg-set a d i v xs s h w =
    at-Seg (set a (d + i) v) d (set xs i v)
      (omega (arith, length-set a (d + i) v, length-set xs i v))
      (λ k m p e.
        ground
          (arith, at-set a (d + i) m v, at-set xs i k v, length-set xs i v, e, Seg-at a d k xs s))

module _ (s : Store) (sli : Slice) (xs : List Value) (h : Holds s sli xs) where
  -- slice_get returns the entry of the slice and changes nothing
  pub slice_get-Holds : (i : ℕ) → i < length xs → slice_get sli i s ≡ ok (at xs i, s)
  unfolding slice_get
  slice_get-Holds i lt = rw (
    lt→ltb i sli.len (omega (arith, h.count)),
    Holds-deref h,
    load-ok h.block.items (sli.start + i) (omega (arith, Holds-within h)),
    Seg-at h.block.items sli.start i xs h.run lt,
  )

  -- the memory after a write through the slice
  abbrev pub written : ℕ → Value → Store
  written i v =
      write sli.array (some (record h.block { items = set h.block.items (sli.start + i) v })) s

  pub slice_set-ok :
      (i : ℕ) (v : Value) → i < length xs → slice_set sli i v s ≡ ok (at xs i, written i v)
  unfolding slice_set
  slice_set-ok i v lt = rw (
    lt→ltb i sli.len (omega (arith, h.count)),
    Holds-deref h,
    load-ok h.block.items (sli.start + i) (omega (arith, Holds-within h)),
    store-ok h.block.items (sli.start + i) v (omega (arith, Holds-within h)),
    Seg-at h.block.items sli.start i xs h.run lt,
  )

  -- slice_set returns the old entry, puts the new one in its place and writes to no other array.
  pub slice_set-Holds :
      (i : ℕ) (v : Value)
      → i < length xs
      → Returns
          (λ (old, s'). (old ≡ at xs i) × Holds s' sli (set xs i v) × SameBut sli.array s s')
          (slice_set sli i v s)
  slice_set-Holds i v lt = rw (slice_set-ok i v lt) (
      returns (
        refl,
        Holds-write h (set h.block.items (sli.start + i) v) (set xs i v) sli.len
            (length-set h.block.items (sli.start + i) v)
            (Seg-set h.block.items sli.start i v xs h.run lt (Holds-within h))
            (h.count ∙ sym (length-set xs i v)),
        write-SameBut sli.array _ s,
      ))

-- A write at place `i` of one slice, seen from another slice on the same array: the entry changes
-- if the place lies in the other's window, and else the other holds what it held.
pub slice_set-shared :
    (s : Store) (sli other : Slice) (xs ys : List Value) (i : ℕ) (v : Value)
    → Holds s sli xs
    → Holds s other ys
    → other.array ≡ sli.array
    → i < length xs
    → Returns
        (λ (old, s'). Holds s' other (
          if leb other.start (sli.start + i) && ltb (sli.start + i) (other.start + length ys)
          then set ys (sli.start + i - other.start) v
          else ys))
        (slice_set sli i v s)
slice_set-shared s sli other xs ys i v h k same lt = rw (slice_set-ok s sli xs h i v lt) (
    returns
      (elim (Bool-cases
        (leb other.start (sli.start + i) && ltb (sli.start + i) (other.start + length ys))) [
          | inl e ↦ rw e (
              holding (set ys (sli.start + i - other.start) v)
                (let at_place : other.start + (sli.start + i - other.start) ≡ sli.start + i =
                    ground arith in
                  rw at_place at (
                    Seg-set h.block.items other.start (sli.start + i - other.start) v ys seen
                      (ground arith) within))
                (sym (length-set ys _ v)))
          | inr e ↦ rw e (
              holding ys
                (Seg-kept h.block.items (set h.block.items (sli.start + i) v) other.start ys seen
                  (omega (arith, within, length-set h.block.items (sli.start + i) v))
                  (λ m lo hi.
                    ground (arith, at-set h.block.items (sli.start + i) m v, Holds-within h)))
                refl)
        ]))
  where
    one_block : k.block ≡ h.block
    one_block = ground arith

    seen : Seg h.block.items other.start ys
    seen = rw one_block at k.run

    within : other.start + length ys ≤ length h.block.items
    within = rw one_block at (Holds-within k)

    holding :
        (zs : List Value)
        → Seg (set h.block.items (sli.start + i) v) other.start zs
        → length ys ≡ length zs
        → Holds (written s sli xs h i v) other zs
    holding zs run count = record {
      block = record h.block { items = set h.block.items (sli.start + i) v };
      found = ground arith;
      not_null = k.not_null;
      live = h.live;
      size = length-set h.block.items (sli.start + i) v ∙ h.size;
      run = run;
      count = k.count ∙ count;
    }
