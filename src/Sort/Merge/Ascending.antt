-- ===== src/Sort/Merge/Ascending.antt =====
-- Ascending lists and their merge.
use mathlib.Core.List.{append-nil, perm_middle}
use mathlib.Core.List.Perm
use c_algorithm.Base.{
  ◌+◌, ◌≡◌, refl, true, false, Bool-cases, inl, inr, List, [], ◌∷◌, ◌++◌, Perm, arith, length,
  Value,
}
use c_algorithm.Order.{Compare, gt, Le, IsOrder}

-- each entry of `xs` satisfies `P`
abbrev pub All : (Value → Type 0) → List Value → Type 0
All P [] = Unit
All P (x ∷ xs) = P x × All P xs

abbrev pub Ascends : Compare → List Value → Type 0
Ascends cmp [] = Unit
Ascends cmp (x ∷ xs) = All (Le cmp x) xs × Ascends cmp xs

unfoldable pub merge : Compare → List Value → List Value → List Value
merge cmp [] ys = ys
merge cmp (x ∷ xs) [] = x ∷ xs
merge cmp (x ∷ xs) (y ∷ ys) = elim (gt cmp x y) [
  | true ↦ y ∷ merge cmp (x ∷ xs) ys
  | false ↦ x ∷ merge cmp xs (y ∷ ys)
]

pub merge-nil : (cmp : Compare) (xs : List Value) → merge cmp xs [] ≡ xs
unfolding merge
merge-nil cmp [] = refl
merge-nil cmp (x ∷ xs) = refl

pub merge-perm : (cmp : Compare) (xs ys : List Value) → Perm (merge cmp xs ys) (xs ++ ys)
unfolding merge
merge-perm cmp [] ys = Perm.rfl
merge-perm cmp (x ∷ xs) [] = rw (append-nil xs) Perm.rfl
merge-perm cmp (x ∷ xs) (y ∷ ys) = elim (Bool-cases (gt cmp x y)) [
  | inl e ↦
      rw (e, merge)
        (Perm.trans (Perm.cons y (merge-perm cmp (x ∷ xs) ys))
          (Perm.symm (perm_middle (x ∷ xs) ys)))
  | inr e ↦ rw (e, merge) (Perm.cons x (merge-perm cmp xs (y ∷ ys)))
]

pub length-merge :
    (cmp : Compare) (xs ys : List Value) → length (merge cmp xs ys) ≡ length xs + length ys
unfolding merge
length-merge cmp [] ys = omega arith
length-merge cmp (x ∷ xs) [] = omega arith
length-merge cmp (x ∷ xs) (y ∷ ys) =
    ground (arith, length-merge cmp (x ∷ xs) ys, length-merge cmp xs (y ∷ ys))

pub All-mono :
    (P Q : Value → Type 0) (xs : List Value) → ((v : Value) → P v → Q v) → All P xs → All Q xs
All-mono P Q [] f h = tt
All-mono P Q (x ∷ xs) f h = (f x h.0, All-mono P Q xs f h.1)

All-merge :
    (P : Value → Type 0) (cmp : Compare) (xs ys : List Value)
    → All P xs
    → All P ys
    → All P (merge cmp xs ys)
unfolding merge
All-merge P cmp [] ys h k = k
All-merge P cmp (x ∷ xs) [] h k = h
All-merge P cmp (x ∷ xs) (y ∷ ys) h k = elim (Bool-cases (gt cmp x y)) [
  | inl e ↦ rw (e, merge) (k.0, All-merge P cmp (x ∷ xs) ys h k.1)
  | inr e ↦ rw (e, merge) (h.0, All-merge P cmp xs (y ∷ ys) h.1 k)
]

pub merge-Ascends :
    (cmp : Compare) (o : IsOrder cmp) (xs ys : List Value)
    → Ascends cmp xs
    → Ascends cmp ys
    → Ascends cmp (merge cmp xs ys)
unfolding merge
merge-Ascends cmp o [] ys s t = t
merge-Ascends cmp o (x ∷ xs) [] s t = s
merge-Ascends cmp o (x ∷ xs) (y ∷ ys) s t = elim (Bool-cases (gt cmp x y)) [
  | inl e ↦
      let le : Le cmp y x = o.total x y e in
      rw (e, merge)
        (
          All-merge (Le cmp y) cmp (x ∷ xs) ys
              (le, All-mono (Le cmp x) (Le cmp y) xs (λ v. o.trans y x v le) s.0) t.0,
          merge-Ascends cmp o (x ∷ xs) ys s t.1,
        )
  | inr e ↦
      rw (e, merge)
        (
          All-merge (Le cmp x) cmp xs (y ∷ ys) s.0
              (e, All-mono (Le cmp y) (Le cmp x) ys (λ v. o.trans x y v e) t.0),
          merge-Ascends cmp o xs (y ∷ ys) s.1 t,
        )
]
