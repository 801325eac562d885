-- ===== src/Base/Outcome.antt =====
-- How a call of the C code ends, reads and writes of an array, and the rules for calls that end well.
use Prim.Native.Nat.{ℕ, ◌<◌, ◌≤◌}
use mathlib.Core.Path.{◌≡◌, refl}
use mathlib.Core.Bool.{Bool, true, false}
use mathlib.Core.List.{List}
use mathlib.Core.Option.{none, some}
use c_algorithm.Base.Tests.{ltb, lt→ltb, le→ltb, if◌then◌else◌}
use c_algorithm.Base.Lists.{length, get_elem?, get_or, set, get_elem?-get_or}

-- a failed `assert`, a read or a write outside an array or through a pointer to no object, a
-- result that an `int` cannot hold, and a `memcpy` between parts that overlap
pub data Fault : Type 0 where
  assertion bounds overflow overlap : Fault

-- a value, a fault, or the model's fuel running out
pub data Run {ℓ} (A : Type ℓ) : Type ℓ where
  ok : A → Run A
  fault : Fault → Run A
  out_of_fuel : Run A

infixl 5 ◌>>=◌ ◌>>◌
abbrev pub ◌>>=◌ {ℓ κ} : {A : Type ℓ} {B : Type κ} → Run A → (A → Run B) → Run B
ok a >>= f = f a
fault e >>= f = fault e
out_of_fuel >>= f = out_of_fuel

abbrev pub ◌>>◌ {ℓ} : {B : Type ℓ} → Run (Unit {0}) → Run B → Run B
m >> k = m >>= λ _. k

-- `assert(b)`
abbrev pub assert : Bool → Run (Unit {0})
assert true = ok tt
assert false = fault assertion

-- VALUE, a union of eight bytes, as its 64-bit pattern. EMPTY_VALUE is `{}`, all bits zero.
abbrev pub Value : Type 0
Value = ℕ

abbrev pub empty_value : Value
empty_value = 0

-- INT_MAX
abbrev pub int_max : ℕ
int_max = 2_147_483_647

-- an `int` that is not negative
unfoldable pub to_int : ℕ → Run ℕ
to_int n = if ltb int_max n then fault overflow else ok n

pub to_int-ok : (n : ℕ) → n ≤ int_max → to_int n ≡ ok n
unfolding to_int
to_int-ok n h = rw (le→ltb int_max n h) refl

-- `arr[i]` in a statement about an array
abbrev pub at : List Value → ℕ → Value
at a i = get_or a i empty_value

-- the read `arr[i]`
unfoldable pub load : List Value → ℕ → Run Value
load a i = elim (get_elem? a i) [ none ↦ fault bounds | some v ↦ ok v ]

-- the write `arr[i] = v`
unfoldable pub store : List Value → ℕ → Value → Run (List Value)
store a i v = if ltb i (length a) then ok (set a i v) else fault bounds

pub load-ok : (a : List Value) (i : ℕ) → i < length a → load a i ≡ ok (at a i)
unfolding load
load-ok a i h = rw (get_elem?-get_or a i empty_value h, load)

pub store-ok : (a : List Value) (i : ℕ) (v : Value) → i < length a → store a i v ≡ ok (set a i v)
unfolding store
store-ok a i v h = rw (lt→ltb i (length a) h)

-- The call ends without a fault and within its fuel, and its value satisfies `P`.
pub data Returns {A : Type 0} (P : A → Type 0) : Run A → Type 0 where
  returns : {v : A} → P v → Returns P (ok v)

pub Returns-map :
    {A : Type 0} {P Q : A → Type 0} {run : Run A}
    → Returns P run
    → ((v : A) → P v → Q v)
    → Returns Q run
Returns-map (returns holds) weaken = returns (weaken _ holds)

pub Returns-bind :
    {A B : Type 0} {P : A → Type 0} {Q : B → Type 0} {run : Run A} {after : A → Run B}
    → Returns P run
    → ((v : A) → P v → Returns Q (after v))
    → Returns Q (run >>= after)
Returns-bind (returns holds) next = next _ holds

pub Returns-if :
    {A : Type 0} {P : A → Type 0} {run other : Run A} (test : Bool)
    → (test ≡ true → Returns P run)
    → (test ≡ false → Returns P other)
    → Returns P (if test then run else other)
Returns-if true left right = left refl
Returns-if false left right = right refl

-- the value of a call that returns
pub Returns-ok :
    {A : Type 0} {P : A → Type 0} {run : Run A} → Returns P run → (v : A) × (run ≡ ok v) × P v
Returns-ok (returns holds) = (_, refl, holds)

-- a branch between two values, as one value
pub if-ok {ℓ} :
    {A : Type ℓ} (b : Bool) (x y : A) → (if b then ok x else ok y) ≡ ok (if b then x else y)
if-ok true x y = refl
if-ok false x y = refl
