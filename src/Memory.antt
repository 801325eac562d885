-- ===== src/Memory.antt =====
-- The memory that arrays live in: `malloc`, `free`, pointers to `struct array`, and `memcpy`.
-- A pointer is an address, NULL is 0. The model never gives an address out twice, so a pointer to
-- a freed array stays dangling, and its use is a fault.
pub mod Copy
pub mod Laws
use c_algorithm.Base.{
  ℕ, zero, suc, ◌+◌, ◌≤◌, ◌<◌, ◌≡◌, Option, none, some, List, ◌++◌, take, drop, replicate, length,
  ltb, leb, ◌==◌, ◌&&◌, if◌then◌else◌, Value, Run, ok, fault, assertion, bounds, true, false, Bool,
}
use c_algorithm.Base

-- src/array.c, struct array: `data[]` is a list
pub record Block : Type 0 where
  pub cap : ℕ
  pub ref : ℕ
  pub items : List Value

-- `next` is the address that the next `malloc` gives out. `malloc` fails for more than `avail`
-- entries. `junk` is what memory holds that nothing was written to.
pub record Store : Type 0 where
  pub block : ℕ → Option Block
  pub next : ℕ
  pub avail : ℕ
  pub junk : Value

-- LONG_MAX, and ARRAY_MAX_SIZE of include/array.h
abbrev pub long_max : ℕ
long_max = 9_223_372_036_854_775_807

abbrev pub array_max_size : ℕ
array_max_size = 9_223_372_036_854_775_791

-- Addresses from `next` on are unused, NULL is never given out, and no array that `malloc` gives
-- is longer than ARRAY_MAX_SIZE.
pub record IsStore (s : Store) : Type 0 where
  pub fresh : (p : ℕ) → s.next ≤ p → s.block p ≡ none
  pub not_null : 0 < s.next
  pub bounded : s.avail ≤ array_max_size

-- a call that reads and writes the memory
abbrev pub Cmd : Type 0 → Type 0
Cmd A = Store → Run (A × Store)

abbrev pub pure : {A : Type 0} → A → Cmd A
pure v s = ok (v, s)

-- a call that does not touch the memory
abbrev pub lift : {A : Type 0} → Run A → Cmd A
lift run s = Base.◌>>=◌ run (λ v. ok (v, s))

infixl 5 ◌>>=◌ ◌>>◌
abbrev pub ◌>>=◌ : {A B : Type 0} → Cmd A → (A → Cmd B) → Cmd B
◌>>=◌ m f s = Base.◌>>=◌ (m s) (λ (v, s'). f v s')

abbrev pub ◌>>◌ : {B : Type 0} → Cmd (Unit {0}) → Cmd B → Cmd B
m >> k = m >>= λ _. k

abbrev pub require : Bool → Cmd (Unit {0})
require b = lift (Base.assert b)

-- the array at `p` becomes `c`
abbrev pub write : ℕ → Option Block → Store → Store
write p c s = record s { block = λ q. if q == p then c else s.block q }

-- `assert(arr != NULL)` and the access through `arr`
unfoldable pub deref : ℕ → Cmd Block
deref p s =
    if p == 0
    then fault assertion
    else elim (s.block p) [ none ↦ fault bounds | some b ↦ ok (b, s) ]

abbrev pub put : ℕ → Block → Cmd (Unit {0})
put p b s = ok (tt, write p (some b) s)

abbrev pub release : ℕ → Cmd (Unit {0})
release p s = ok (tt, write p none s)

-- `malloc` of an array of `cap` entries, and the `assert` that it gave one
abbrev pub allocate : ℕ → ℕ → List Value → Cmd ℕ
allocate cap ref items s =
    if ltb s.avail cap
    then fault assertion
    else ok (
      s.next,
      record (write s.next (some (record { cap = cap; ref = ref; items = items })) s) {
        next = suc s.next;
      },
    )

-- `memmove(dst + to, src + from, n)`, and `memcpy` alike
unfoldable pub copy :
    (src : List Value) → (from n : ℕ) → (dst : List Value) → (to : ℕ) → Run (List Value)
copy src from n dst to =
    if leb (from + n) (length src) && leb (to + n) (length dst)
    then ok (take to dst ++ (take n (drop from src) ++ drop (to + n) dst))
    else fault bounds
