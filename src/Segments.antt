-- ===== src/Segments.antt =====
-- Parts of an array as lists.
use c_algorithm.Base.{
  ℕ, zero, suc, ◌+◌, ◌≤◌, ◌<◌, ◌≡◌, ◌∙◌, refl, sym, ap, ap₂, List, [], ◌∷◌, ◌++◌, arith, length,
  Value, at,
}

-- the entries of `a` from `d` on begin with `xs`
abbrev pub Seg : List Value → ℕ → List Value → Type 0
Seg a d [] = d ≤ length a
Seg a d (x ∷ xs) = (d < length a) × (at a d ≡ x) × Seg a (suc d) xs

pub length-Seg : (a : List Value) (d : ℕ) (xs : List Value) → Seg a d xs → d + length xs ≤ length a
length-Seg a d [] s = omega arith
length-Seg a d (x ∷ xs) s = omega (arith, length-Seg a (suc d) xs s.2)

-- a segment at `d` of `a` stands at `e` of `b`, if each entry `k` does that moves to `m`
pub Seg-copy :
    (a b : List Value) (d e : ℕ) (xs : List Value)
    → Seg a d xs
    → e + length xs ≤ length b
    → ((k m : ℕ) → d ≤ k → k < d + length xs → e + k ≡ d + m → at b m ≡ at a k)
    → Seg b e xs
Seg-copy a b d e [] s w same = omega arith
Seg-copy a b d e (x ∷ xs) s w same = (
  omega arith,
  same d e (omega arith) (omega arith) (omega arith) ∙ s.1,
  Seg-copy a b (suc d) (suc e) xs s.2 (omega arith)
      (λ k m lo hi move. same k m (omega arith) (omega arith) (omega arith)),
)

pub Seg-append :
    (a : List Value) (d e : ℕ) (xs ys : List Value)
    → Seg a d xs
    → e ≡ d + length xs
    → Seg a e ys
    → Seg a d (xs ++ ys)
Seg-append a d e [] ys s at_end t = let same : d ≡ e = omega arith in rw same t
Seg-append a d e (x ∷ xs) ys s at_end t =
    (s.0, s.1, Seg-append a (suc d) e xs ys s.2 (omega arith) t)

pub Seg-left : (a : List Value) (d : ℕ) (xs ys : List Value) → Seg a d (xs ++ ys) → Seg a d xs
Seg-left a d [] ys s = omega (arith, length-Seg a d ys s)
Seg-left a d (x ∷ xs) ys s = (s.0, s.1, Seg-left a (suc d) xs ys s.2)

pub Seg-right :
    (a : List Value) (d e : ℕ) (xs ys : List Value)
    → Seg a d (xs ++ ys)
    → e ≡ d + length xs
    → Seg a e ys
Seg-right a d e [] ys s at_end = let same : e ≡ d = omega arith in rw same s
Seg-right a d e (x ∷ xs) ys s at_end = Seg-right a (suc d) e xs ys s.2 (omega arith)

-- the `n` entries of `a` from `d` on
pub entries : List Value → ℕ → ℕ → List Value
entries a d zero = []
entries a d (suc n) = at a d ∷ entries a (suc d) n

pub length-entries : (a : List Value) (d n : ℕ) → length (entries a d n) ≡ n
unfolding entries
length-entries a d zero = refl
length-entries a d (suc n) = ap suc (length-entries a (suc d) n)

pub Seg-entries : (a : List Value) (d n : ℕ) → d + n ≤ length a → Seg a d (entries a d n)
unfolding entries
Seg-entries a d zero h = omega arith
Seg-entries a d (suc n) h = (omega arith, refl, Seg-entries a (suc d) n (omega arith))

entries-cons : (x : Value) (a : List Value) (d n : ℕ) → entries (x ∷ a) (suc d) n ≡ entries a d n
unfolding entries
entries-cons x a d zero = refl
entries-cons x a d (suc n) = ap (◌∷◌ (at a d)) (entries-cons x a (suc d) n)

pub entries-whole : (a : List Value) → entries a 0 (length a) ≡ a
unfolding entries
entries-whole [] = refl
entries-whole (x ∷ a) = ap (◌∷◌ x) (entries-cons x a 0 (length a) ∙ entries-whole a)

pub entries-append :
    (a : List Value) (d e m n k : ℕ)
    → k ≡ m + n
    → e ≡ d + m
    → entries a d k ≡ entries a d m ++ entries a e n
unfolding entries
entries-append a d e zero n k h at_end =
    let same : k ≡ n = omega arith in let same' : e ≡ d = omega arith in rw (same, same')
entries-append a d e (suc m) n zero h at_end = absurd (omega arith)
entries-append a d e (suc m) n (suc k) h at_end =
    ap (◌∷◌ (at a d)) (entries-append a (suc d) e m n k (omega arith) (omega arith))

pub entries-same :
    (a b : List Value) (d n : ℕ)
    → ((k : ℕ) → d ≤ k → at b k ≡ at a k)
    → entries b d n ≡ entries a d n
unfolding entries
entries-same a b d zero same = refl
entries-same a b d (suc n) same =
    ap₂ (λ x y. x ∷ y) (same d (omega arith))
      (entries-same a b (suc d) n (λ k h. same k (omega arith)))

pub Seg-eq : (a : List Value) (d : ℕ) (xs : List Value) → Seg a d xs → xs ≡ entries a d (length xs)
unfolding entries
Seg-eq a d [] s = refl
Seg-eq a d (x ∷ xs) s = ap₂ (λ u v. u ∷ v) (sym s.1) (Seg-eq a (suc d) xs s.2)

pub Seg-at :
    (a : List Value) (d i : ℕ) (xs : List Value)
    → Seg a d xs
    → i < length xs
    → at a (d + i) ≡ at xs i
Seg-at a d i [] s h = absurd (omega arith)
Seg-at a d zero (x ∷ xs) s h = let same : d + 0 ≡ d = omega arith in rw same s.1
Seg-at a d (suc i) (x ∷ xs) s h =
    let same : d + suc i ≡ suc d + i = omega arith in
    rw same (Seg-at a (suc d) i xs s.2 (omega arith))

-- a list whose entries stand at `d` of an array is a segment of it
pub at-Seg :
    (a : List Value) (d : ℕ) (xs : List Value)
    → d + length xs ≤ length a
    → ((i k : ℕ) → i < length xs → k ≡ d + i → at a k ≡ at xs i)
    → Seg a d xs
at-Seg a d [] h same = omega arith
at-Seg a d (x ∷ xs) h same = (
  omega arith,
  same 0 d (omega arith) (omega arith),
  at-Seg a (suc d) xs (omega arith) (λ i k w e. same (suc i) k (omega arith) (omega arith)),
)

-- a segment survives any change outside it
pub Seg-kept :
    (a b : List Value) (d : ℕ) (xs : List Value)
    → Seg a d xs
    → d + length xs ≤ length b
    → ((k : ℕ) → d ≤ k → k < d + length xs → at b k ≡ at a k)
    → Seg b d xs
Seg-kept a b d xs s h same =
    Seg-copy a b d d xs s h
      (λ k m lo hi e. let moved : m ≡ k = omega arith in rw moved (same k lo hi))
