-- ===== src/String.antt =====
-- src/wstring.c: a string that owns a copy of its characters. WSTRING and STRING are the same code over
-- wchar_t and char; a character is its code. The literal "" is `none`, not an allocation.
pub mod Wide
pub mod Copy
mod Tests
use c_algorithm.Base.{
  ℕ, zero, suc, ◌+◌, ◌==◌, ltb, if◌then◌else◌, Bool, true, false, List, [], ◌∷◌, length, Option,
  none, some, ℤ, pos, negsuc, Run, ok, fault, bounds, ◌>>=◌, not,
}

-- the allocated blocks, each with its characters and the closing 0; `malloc` fails for more than
-- `avail` characters
pub record Texts : Type 0 where
  pub block : ℕ → Option (List ℕ)
  pub next : ℕ
  pub avail : ℕ

-- struct string and struct wstring
pub record String : Type 0 where
  pub chars : Option ℕ
  pub len : ℕ

-- the characters behind a pointer
unfoldable pub read : Option ℕ → Texts → Run (List ℕ)
read none s = ok (0 ∷ [])
read (some p) s = elim (s.block p) [ none ↦ fault bounds | some cs ↦ ok cs ]

-- `free`
unfoldable pub release : Option ℕ → Texts → Run Texts
release none s = fault bounds
release (some p) s = elim (s.block p) [
  | none ↦ fault bounds
  | some cs ↦ ok (record s { block = λ q. if q == p then none else s.block q })
]

-- strlen and wcslen
unfoldable pub strlen : List ℕ → Run ℕ
strlen [] = fault bounds
strlen (c ∷ cs) = let rest = strlen cs in if c == 0 then ok 0 else (rest >>= λ n. ok (suc n))

-- strncpy and wcsncpy: `n` characters, zeros after the end of the source
unfoldable pub strncpy : (n : ℕ) → List ℕ → Run (List ℕ)
strncpy zero src = ok []
strncpy (suc n) [] = fault bounds
strncpy (suc n) (c ∷ cs) =
    let rest = strncpy n (if c == 0 then 0 ∷ [] else cs) in rest >>= λ r. ok (c ∷ r)

-- strncmp and wcsncmp, by the sign of the result
unfoldable pub strncmp : (n : ℕ) → List ℕ → List ℕ → Run ℤ
strncmp zero a b = ok (pos 0)
strncmp (suc n) [] b = fault bounds
strncmp (suc n) (x ∷ a) [] = fault bounds
strncmp (suc n) (x ∷ a) (y ∷ b) =
    let rest = strncmp n a b in
    if x == y
    then (if x == 0 then ok (pos 0) else rest)
    else ok (if ltb x y then negsuc 0 else pos 1)

-- NEW3, filled by strncpy; where it fails the characters are written through NULL
unfoldable pub copy_of : (n : ℕ) → List ℕ → Texts → Run (ℕ × Texts)
copy_of n src s = elim (ltb s.avail n) [
  | true ↦ fault bounds
  | false ↦ do
    cs ← strncpy n src
    ok (
      s.next,
      record s { block = λ q. if q == s.next then some cs else s.block q; next = suc s.next },
    )
]

abbrev pub open_string : String
open_string = record { chars = none; len = 0 }

unfoldable pub open_string_with_data : List ℕ → Texts → Run (String × Texts)
open_string_with_data src s = do
  n ← strlen src
  if n == 0
      then ok (record { chars = none; len = 0 }, s)
      else do (p, s1) ← copy_of (n + 1) src s; ok (record { chars = some p; len = n }, s1)

unfoldable pub close_string : String → Texts → Run Texts
close_string str s = if not (str.len == 0) then release str.chars s else ok s

abbrev pub string_len : String → ℕ
string_len str = str.len

abbrev pub string_data : String → Option ℕ
string_data str = str.chars

unfoldable pub string_clear : String → Texts → Run (String × Texts)
string_clear str s =
    if str.len == 0
    then ok (str, s)
    else (release str.chars s >>= λ s1. ok (record str { len = 0 }, s1))

abbrev pub string_empty : String → Bool
string_empty str = str.len == 0

-- for two different strings; a string copied to itself stays as it is
unfoldable pub string_cpy : String → String → Texts → Run (String × Texts)
string_cpy str src s =
    if src.len == 0
    then if not (str.len == 0)
      then (release str.chars s >>= λ s1. ok (record { chars = none; len = 0 }, s1))
      else ok (str, s)
    else do
      s1 ← if not (str.len == 0) then release str.chars s else ok s
      cs ← read src.chars s1
      (p, s2) ← copy_of (src.len + 1) cs s1
      ok (record { chars = some p; len = src.len }, s2)

-- for two different strings; a string is equal to itself
unfoldable pub string_cmp : String → String → Texts → Run ℤ
string_cmp str str2 s = do
  a ← read str.chars s
  b ← read str2.chars s
  strncmp ((if ltb str.len str2.len then str.len else str2.len) + 1) a b
