-- ===== src/Array/Laws.antt =====
-- open_array and close_array on memory that is there.
use c_algorithm.Base.{
  pos, at, ltb, length, load-ok, fault, assertion, ℕ, suc, ◌-◌, ◌≤◌, ◌<◌, ◌≡◌, refl, arith,
  replicate, lt→ltb, le→ltb, ◌==◌, if◌then◌else◌, inl, inr, Bool-cases, ok, some, none,
}
use c_algorithm.Memory.{Store, IsStore, Block, write}
use c_algorithm.Memory.Laws.{deref-ok}
use c_algorithm.Array.{open_array, close_array, array_cap, array_get, read_at, is_below}

-- what `open_array` puts there
abbrev pub fresh_block : ℕ → Store → Block
fresh_block cap s = record { cap = cap; ref = 1; items = replicate cap s.junk }

-- the memory after `malloc` gave an array of `cap` entries
abbrev pub opened : ℕ → Store → Store
opened cap s = record (write s.next (some (fresh_block cap s)) s) { next = suc s.next }

pub open_array-ok :
    (cap : ℕ) (s : Store) → cap ≤ s.avail → open_array cap s ≡ ok (s.next, opened cap s)
unfolding open_array
open_array-ok cap s h = rw (le→ltb s.avail cap h)

pub opened-IsStore : (cap : ℕ) (s : Store) → IsStore s → IsStore (opened cap s)
opened-IsStore cap s i = record {
  fresh = λ q h. ground (arith, i.fresh q);
  not_null = omega arith;
  bounded = i.bounded;
}

-- close_array drops a reference, and frees the array with the last one
pub close_array-ok :
    (p : ℕ) (s : Store) (b : Block)
    → 0 < p
    → s.block p ≡ some b
    → 0 < b.ref
    → close_array p s
      ≡ ok (tt, write p (if (b.ref - 1) == 0 then none else some (record b { ref = b.ref - 1 })) s)
unfolding close_array
close_array-ok p s b not_null found live =
    rw (deref-ok p s b not_null found, lt→ltb 0 b.ref live)
      (elim (Bool-cases ((b.ref - 1) == 0)) [ inl e ↦ rw e refl | inr e ↦ rw e refl ])

pub array_cap-ok :
    (p : ℕ) (s : Store) (b : Block) → 0 < p → s.block p ≡ some b → array_cap p s ≡ ok (b.cap, s)
unfolding array_cap
array_cap-ok p s b not_null found = rw (deref-ok p s b not_null found) refl

-- array_get of an index that is not negative: the entry, or a failed assertion
pub array_get-ok :
    (p i : ℕ) (s : Store) (b : Block)
    → 0 < p
    → s.block p ≡ some b
    → length b.items ≡ b.cap
    → array_get p (pos i) s ≡ (if ltb i b.cap then ok (at b.items i, s) else fault assertion)
unfolding array_get read_at is_below
array_get-ok p i s b not_null found size =
    rw (deref-ok p s b not_null found) (elim (Bool-cases (ltb i b.cap)) [
      | inl e ↦ rw (e, load-ok b.items i (ground (arith, size))) refl
      | inr e ↦ rw e refl
    ])
