-- ===== src/Sort/Merge/Take.antt =====
-- The first `while` of merge_sort.
use mathlib.Core.List.{append-nil}
use c_algorithm.Base.{
  ℕ, zero, suc, ◌+◌, ◌≤◌, ◌<◌, ◌≡◌, ◌∙◌, ap, sym, refl, Bool-cases, inl, inr, List, [], ◌∷◌, ◌++◌,
  arith, length, length-set, set, load-ok, store-ok, to_int-ok, int_max, lt→ltb, le→ltb, Value, at,
  Returns, returns, Returns-map,
}
use c_algorithm.Order.{Compare, gt}
use c_algorithm.Swaps.{at-set}
use c_algorithm.Sort.Merge.{merge_take}
use c_algorithm.Segments.{Seg}
use c_algorithm.Sort.Merge.Ascending.{merge}

-- What the loop leaves: `out` in the scratch array from `j` on, and `xs'` and `ys'` of the runs.
pub record Taken (cmp : Compare) (ml mr l j : ℕ) (a t xs ys : List Value)
    (s : ℕ × ℕ × ℕ × List Value) : Type 0 where
  pub out : List Value
  pub xs' : List Value
  pub ys' : List Value
  pub merged : merge cmp xs ys ≡ out ++ (xs' ++ ys')
  pub count : s.2 ≡ j + length out
  pub scratch : Seg s.3 j out
  pub left : Seg a s.0 xs'
  pub left_end : s.0 + length xs' ≡ ml
  pub right : Seg a s.1 ys'
  pub right_end : s.1 + length ys' ≡ mr
  pub shorter : length ys' ≤ length ys
  pub kept : (k : ℕ) → k < j → at s.3 k ≡ at t k
  pub size : length s.3 ≡ length t

module _ (cmp : Compare) (ml mr : ℕ) (a : List Value) where
  Taken-more :
      (l l' j : ℕ) (t xs ys xs' ys' : List Value) (v : Value) (s : ℕ × ℕ × ℕ × List Value)
      → j < length t
      → merge cmp xs ys ≡ v ∷ merge cmp xs' ys'
      → length ys' ≤ length ys
      → Taken cmp ml mr l' (suc j) a (set t j v) xs' ys' s
      → Taken cmp ml mr l j a t xs ys s
  Taken-more l l' j t xs ys xs' ys' v s room e le r = record {
    out = v ∷ r.out;
    xs' = r.xs';
    ys' = r.ys';
    merged = e ∙ ap (◌∷◌ v) r.merged;
    count = omega (arith, r.count);
    scratch = (
      omega (arith, r.size, length-set t j v),
      r.kept j (omega arith) ∙ ground (arith, at-set t j j v),
      r.scratch,
    );
    left = r.left;
    left_end = r.left_end;
    right = r.right;
    right_end = r.right_end;
    shorter = omega (arith, r.shorter);
    kept = λ k h. r.kept k (omega arith) ∙ ground (arith, at-set t j k v);
    size = r.size ∙ length-set t j v;
  }

  pub merge_take-Taken :
      (f l r j : ℕ) (t xs ys : List Value)
      → Seg a l xs
      → l + length xs ≡ ml
      → Seg a r ys
      → r + length ys ≡ mr
      → j + length xs + length ys ≤ length t
      → j + length xs + length ys ≤ int_max
      → length xs + length ys < f
      → Returns (Taken cmp ml mr l j a t xs ys) (merge_take cmp ml mr f l r j a t)
  unfolding merge_take merge
  merge_take-Taken zero l r j t xs ys sx ex sy ey room small fuel = absurd (omega arith)
  merge_take-Taken (suc f) l r j t [] ys sx ex sy ey room small fuel =
      rw (le→ltb l ml (omega arith), merge_take)
        (returns (record {
          out = [];
          xs' = [];
          ys' = ys;
          merged = refl;
          count = omega arith;
          scratch = omega arith;
          left = sx;
          left_end = ex;
          right = sy;
          right_end = ey;
          shorter = omega arith;
          kept = λ k h. refl;
          size = refl;
        }))
  merge_take-Taken (suc f) l r j t (x ∷ xs) [] sx ex sy ey room small fuel =
      rw (lt→ltb l ml (omega arith), le→ltb r mr (omega arith), merge_take)
        (returns (record {
          out = [];
          xs' = x ∷ xs;
          ys' = [];
          merged = sym (append-nil (x ∷ xs));
          count = omega arith;
          scratch = omega arith;
          left = sx;
          left_end = ex;
          right = sy;
          right_end = ey;
          shorter = omega arith;
          kept = λ k h. refl;
          size = refl;
        }))
  merge_take-Taken (suc f) l r j t (x ∷ xs) (y ∷ ys) sx ex sy ey room small fuel =
      rw (lt→ltb l ml (omega arith), lt→ltb r mr (omega arith), merge_take)
        (rw (load-ok a l sx.0, load-ok a r sy.0, sx.1, sy.1)
          (elim (Bool-cases (gt cmp x y)) [
            | inl e ↦
                rw (e, store-ok t j y (omega arith), to_int-ok (j + 1) (omega arith), next)
                  (Returns-map
                    (merge_take-Taken f l (suc r) (suc j) (set t j y) (x ∷ xs) ys sx ex sy.2
                      (omega arith) (omega (arith, length-set t j y)) (omega arith) (omega arith))
                    (λ s.
                      Taken-more l l j t (x ∷ xs) (y ∷ ys) (x ∷ xs) ys y s (omega arith)
                        (rw (e, merge) refl) (omega arith)))
            | inr e ↦
                rw (e, store-ok t j x (omega arith), to_int-ok (j + 1) (omega arith), next)
                  (Returns-map
                    (merge_take-Taken f (suc l) r (suc j) (set t j x) xs (y ∷ ys) sx.2 (omega arith)
                      sy ey (omega (arith, length-set t j x)) (omega arith) (omega arith))
                    (λ s.
                      Taken-more l (suc l) j t (x ∷ xs) (y ∷ ys) xs (y ∷ ys) x s (omega arith)
                        (rw (e, merge) refl) (omega arith)))
          ]))
    where
      next : (j + 1) ≡ suc j
      next = omega arith
