-- ===== src/Sort/Merge/Step.antt =====
-- The body of the inner `for` of merge_sort merges two neighbouring runs.
use c_algorithm.Base.{
  ℕ, suc, ◌+◌, ◌-◌, ◌≤◌, ◌<◌, ◌≡◌, ◌∙◌, ◌⊎◌, inr, List, ◌++◌, arith, length, length-append, ap,
  Value, at, ok, int_max, ◌>>=◌, Returns, returns, Returns-bind,
}
use c_algorithm.Order.{Compare}
use c_algorithm.Sort.Merge.{merge_step, merge_shift, merge_back}
use c_algorithm.Segments.{Seg, length-Seg, Seg-copy, Seg-append}
use c_algorithm.Sort.Merge.Ascending.{merge, length-merge}
use c_algorithm.Sort.Merge.Take.{Taken, merge_take-Taken}
use c_algorithm.Sort.Merge.Back.{merge_shift-Moved, merge_back-Moved}

-- `b` has `zs` from `l` on, and `a` before `l` and from `hi` on
pub record Rewritten (l hi : ℕ) (a t zs : List Value) (s : List Value × List Value) : Type 0 where
  pub run : Seg s.0 l zs
  pub size : length s.0 ≡ length a
  pub scratch : length s.1 ≡ length t
  pub outside : (k : ℕ) → (k < l) ⊎ (hi ≤ k) → at s.0 k ≡ at a k

module _ (cmp : Compare) (l ml mr : ℕ) (a t xs ys : List Value) (sx : Seg a l xs)
    (ex : l + length xs ≡ ml) (sy : Seg a ml ys) (ey : ml + length ys ≡ mr)
    (room : mr ≤ length t + l) (small : mr ≤ int_max + l) where
  -- the two copies, after the first loop
  copies :
      (s : ℕ × ℕ × ℕ × List Value)
      → Taken cmp ml mr l 0 a t xs ys s
      → Returns (Rewritten l mr a t (merge cmp xs ys)) (
          merge_shift (ml - s.0) ml s.1 a >>= λ (r2, b).
          merge_back s.2 r2 s.3 b >>= λ c. ok (c, s.3))
  copies (l1, r1, j, t1) r =
      let whole = length-Seg a ml ys sy in
      let total = ap length r.merged in
      let both = length-merge cmp xs ys in
      let parts = length-append r.out (r.xs' ++ r.ys') in
      let parts' = length-append r.xs' r.ys' in
      let le = r.left_end in
      let re = r.right_end in
      let cnt = r.count in
      let fewer = r.shorter in
      Returns-bind (merge_shift-Moved (ml - l1) ml r1 a (omega arith) (omega arith) (omega arith))
        λ (r2, b) (er, moved).
          Returns-bind
            (merge_back-Moved j r2 t1 b (omega arith) (omega (arith, moved.size))
              (omega (arith, r.size)))
            λ c back. returns (record {
              run = rw r.merged (
                  Seg-append c l r2 r.out (r.xs' ++ r.ys')
                    (Seg-copy t1 c 0 l r.out r.scratch (omega (arith, moved.size, back.size))
                      (λ k m x y e. back.moved k m (omega arith) (omega arith) (omega arith)))
                    (omega arith)
                    (Seg-append c r2 r1 r.xs' r.ys'
                      (Seg-copy a c l1 r2 r.xs' r.left (omega (arith, moved.size, back.size))
                        (λ k m x y e.
                          back.kept m (inr (omega arith))
                          ∙ moved.moved k m (omega arith) (omega arith) (omega arith)))
                      (omega arith)
                      (Seg-copy a c r1 r1 r.ys' r.right (omega (arith, moved.size, back.size))
                        (λ k m x y e.
                          let same : m ≡ k = omega arith in
                          rw same (
                            back.kept k (inr (omega arith)) ∙ moved.kept k (inr (omega arith)))))));
              size = back.size ∙ moved.size;
              scratch = r.size;
              outside = λ k out. back.kept k (omega arith) ∙ moved.kept k (omega arith);
            })

  pub merge_step-Rewritten :
      Returns (Rewritten l mr a t (merge cmp xs ys)) (merge_step cmp l ml mr a t)
  unfolding merge_step
  merge_step-Rewritten =
      Returns-bind
        (merge_take-Taken cmp ml mr a (suc (mr - l)) l ml 0 t xs ys sx ex sy ey (omega arith)
          (omega arith) (omega arith))
        copies
