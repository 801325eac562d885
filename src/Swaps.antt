-- ===== src/Swaps.antt =====
-- Exchanges of two entries of an array, and what any sequence of them keeps. The sorts and the
-- heap move a hole instead of exchanging entries; with the held value put back in the hole, each
-- move is an exchange.
use mathlib.Core.List.Perm
use c_algorithm.Base.{
  ℕ, zero, suc, ◌≤◌, ◌<◌, ◌≡◌, ◌≢◌, refl, ap, ◌∙◌, List, [], ◌∷◌, Perm, arith, length, set,
  length-set, get_or-set, set-set, ◌==◌, if◌then◌else◌, Value, at, ◌⊎◌, inl, inr, Bool-cases,
}

-- the result of `swap(&arr[i], &arr[j])`
unfoldable pub swap : List Value → ℕ → ℕ → List Value
swap a i j = set (set a i (at a j)) j (at a i)

pub at-set :
    (a : List Value) (i j : ℕ) (v : Value)
    → i < length a
    → at (set a i v) j ≡ (if i == j then v else at a j)
at-set a i j v h = get_or-set a i j v 0 h

pub length-swap : (a : List Value) (i j : ℕ) → length (swap a i j) ≡ length a
unfolding swap
length-swap a i j = length-set (set a i (at a j)) j (at a i) ∙ length-set a i (at a j)

pub at-swap :
    (a : List Value) (i j k : ℕ)
    → i < length a
    → j < length a
    → at (swap a i j) k ≡ (if j == k then at a i else if i == k then at a j else at a k)
unfolding swap
at-swap a i j k hi hj =
    ground (
      arith,
      length-set a i (at a j),
      at-set (set a i (at a j)) j k (at a i),
      at-set a i k (at a j),
    )

-- a write trades the old entry for the new one
pub set-perm :
    (a : List Value) (i : ℕ) (v : Value) → i < length a → Perm (at a i ∷ set a i v) (v ∷ a)
set-perm [] i v h = absurd (omega arith)
set-perm (x ∷ a) zero v h = Perm.swap v x a
set-perm (x ∷ a) (suc i) v h =
    Perm.trans (Perm.swap x _ _)
      (Perm.trans (Perm.cons x (set-perm a i v (omega arith))) (Perm.swap v x a))

pub swap-perm : (a : List Value) (i j : ℕ) → i < length a → j < length a → Perm (swap a i j) a
unfolding swap
swap-perm a i j hi hj =
    let b = set a i (at a j) in
    let kept : at b j ≡ at a j = ground (arith, at-set a i j (at a j)) in
    let len : length b ≡ length a = length-set a i (at a j) in
    let back = rw kept at (set-perm b j (at a i) (omega arith)) in
    Perm.cons_inv (Perm.trans back (set-perm a i (at a j) hi))

-- The step of a loop that holds `v` and moves the entry at `p` into the hole `i`.
pub hole_step :
    (a : List Value) (i p : ℕ) (v : Value)
    → i < length a
    → p < length a
    → i ≢ p
    → set (set a i (at a p)) p v ≡ swap (set a i v) i p
unfolding swap
hole_step a i p v hi hp ne =
    let at_p : at (set a i v) p ≡ at a p = ground (arith, at-set a i p v) in
    let at_i : at (set a i v) i ≡ v = ground (arith, at-set a i i v) in
    rw (at_p, at_i, set-set a i v (at a p))

-- `b` comes from `a` by exchanges of entries between `lo` and `hi`
pub data Swaps (lo hi : ℕ) (a : List Value) : List Value → Type 0 where
  here : Swaps lo hi a a
  next :
      {b c : List Value} (i j : ℕ)
      → Swaps lo hi a b
      → (lo ≤ i) × (i < hi)
      → (lo ≤ j) × (j < hi)
      → c ≡ swap b i j
      → Swaps lo hi a c

module _ {lo hi : ℕ} {a : List Value} where
  pub Swaps-one : (i j : ℕ) → (lo ≤ i) × (i < hi) → (lo ≤ j) × (j < hi) → Swaps lo hi a (swap a i j)
  Swaps-one i j p q = next i j here p q refl

  pub Swaps-trans : {b c : List Value} → Swaps lo hi a b → Swaps lo hi b c → Swaps lo hi a c
  Swaps-trans s here = s
  Swaps-trans s (next i j t p q e) = next i j (Swaps-trans s t) p q e

  pub Swaps-mono :
      {lo' hi' : ℕ} {b : List Value} → lo' ≤ lo → hi ≤ hi' → Swaps lo hi a b → Swaps lo' hi' a b
  Swaps-mono l h here = here
  Swaps-mono l h (next i j t p q e) = next i j (Swaps-mono l h t) (omega arith) (omega arith) e

  pub length-Swaps : {b : List Value} → Swaps lo hi a b → length b ≡ length a
  length-Swaps here = refl
  length-Swaps (next {b} i j t p q e) = ap length e ∙ length-swap b i j ∙ length-Swaps t

module _ {lo hi : ℕ} {a : List Value} (inside : hi ≤ length a) where
  pub Swaps-perm : {b : List Value} → Swaps lo hi a b → Perm b a
  Swaps-perm here = Perm.rfl
  Swaps-perm (next {b} i j t p q e) = rw e (
      Perm.trans (swap-perm b i j (omega (arith, length-Swaps t)) (omega (arith, length-Swaps t)))
        (Swaps-perm t))

  -- nothing outside the range moves
  pub Swaps-outside :
      {b : List Value} → Swaps lo hi a b → (k : ℕ) → (k < lo) ⊎ (hi ≤ k) → at b k ≡ at a k
  Swaps-outside here k out = refl
  Swaps-outside (next {b} i j t p q e) k out =
      rw e (ground (arith, length-Swaps t, at-swap b i j k, Swaps-outside t k))

  -- what holds of each entry in the range holds of each entry afterwards
  pub Swaps-all :
      (P : Value → Type 0) {b : List Value}
      → Swaps lo hi a b
      → ((k : ℕ) → lo ≤ k → k < hi → P (at a k))
      → (k : ℕ) → lo ≤ k
      → k < hi
      → P (at b k)
  Swaps-all P here h k l r = h k l r
  Swaps-all P (next {b} i j t p q e) h k l r =
      rw (e, at-swap b i j k (omega (arith, length-Swaps t)) (omega (arith, length-Swaps t)))
        (elim (Bool-cases (j == k)) [
          | inl x ↦ rw x (Swaps-all P t h i p.0 p.1)
          | inr x ↦ rw x (elim (Bool-cases (i == k)) [
            | inl y ↦ rw y (Swaps-all P t h j q.0 q.1)
            | inr y ↦ rw y (Swaps-all P t h k l r)
          ])
        ])
