-- ===== src/Array.antt =====
-- src/array.c: struct array, a reference-counted block that slices share. An index is a `long`,
-- which may be negative; capacities and positions are natural numbers, so the `assert`s that they
-- are not negative hold by type.
pub mod Laws
use c_algorithm.Base.{
  ℕ, zero, suc, ◌+◌, ◌-◌, List, take, replicate, ltb, ◌==◌, ◌++◌, if◌then◌else◌, ℤ, pos, negsuc,
  Value, Run, ok, fault, bounds, Bool, true, load, store, length,
}
use c_algorithm.Memory.{
  Block, Store, Cmd, pure, lift, ◌>>=◌, ◌>>◌, require, deref, put, release, allocate, copy,
}

pub open_array : ℕ → Cmd ℕ
open_array cap s = allocate cap 1 (replicate cap s.junk) s

pub open_array_by_data : List Value → ℕ → Cmd ℕ
open_array_by_data values cap = do
  p ← open_array cap
  b ← deref p
  items ← lift (copy values 0 cap b.items 0)
  put p (record b { items = items })
  pure p

-- `realloc` moves the array, and what is new in it is not set
pub reopen_array : ℕ → ℕ → Cmd ℕ
reopen_array p cap = do
  b ← deref p
  require (ltb 0 cap)
  s ← (λ s. ok (s, s))
  q ← allocate cap b.ref (take cap (b.items ++ replicate (cap - b.cap) s.junk))
  release p
  pure q

pub assign_array : ℕ → Cmd ℕ
assign_array p = do b ← deref p; require (ltb 0 b.ref); put p (record b { ref = b.ref + 1 }); pure p

pub close_array : ℕ → Cmd (Unit {0})
close_array p = do
  b ← deref p
  require (ltb 0 b.ref)
  if (b.ref - 1) == 0 then release p else put p (record b { ref = b.ref - 1 })

pub array_len : ℕ → Cmd ℕ
array_len p = do b ← deref p; pure b.cap

pub array_cap : ℕ → Cmd ℕ
array_cap p = do b ← deref p; pure b.cap

pub array_ref : ℕ → Cmd ℕ
array_ref p = do b ← deref p; pure b.ref

-- `arr->data[index]`, to which a negative index leads outside
unfoldable pub read_at : List Value → ℤ → Run Value
read_at items (pos i) = load items i
read_at items (negsuc i) = fault bounds

unfoldable pub write_at : List Value → ℤ → Value → Run (List Value)
write_at items (pos i) v = store items i v
write_at items (negsuc i) v = fault bounds

-- `index < cap`
unfoldable pub is_below : ℤ → ℕ → Bool
is_below (pos i) cap = ltb i cap
is_below (negsuc i) cap = true

unfoldable pub array_get : ℕ → ℤ → Cmd Value
array_get p index = do b ← deref p; require (is_below index b.cap); lift (read_at b.items index)

unfoldable pub array_set : ℕ → ℤ → Value → Cmd Value
array_set p index value = do
  b ← deref p
  require (is_below index b.cap)
  v ← lift (read_at b.items index)
  items ← lift (write_at b.items index value)
  put p (record b { items = items })
  pure v
