-- ===== src/Sort/Merge/Back.antt =====
-- The two copying loops of merge_sort, entry by entry.
use c_algorithm.Base.{
  ℕ, zero, suc, ◌+◌, ◌-◌, ◌≤◌, ◌<◌, ◌≡◌, ◌∙◌, refl, ◌⊎◌, List, arith, length, length-set, set,
  load-ok, store-ok, Bool-cases, inl, inr, ==→eq, ==→ne, ◌==◌, Value, at, Returns, returns,
  Returns-map,
}
use c_algorithm.Swaps.{at-set}
use c_algorithm.Sort.Merge.{merge_shift, merge_back}

-- `b` is `a`, but with the `n` entries of `t` that end before `from` put where they end before `r`
pub record Moved (n from r : ℕ) (t a b : List Value) : Type 0 where
  pub size : length b ≡ length a
  pub moved : (k m : ℕ) → k < from → from ≤ k + n → k + r ≡ m + from → at b m ≡ at t k
  pub kept : (m : ℕ) → (m + n < r) ⊎ (r ≤ m) → at b m ≡ at a m

Moved-step :
    (n f r : ℕ) (t t' a b : List Value) (x : Value)
    → 0 < r
    → r ≤ length a
    → at t f ≡ x
    → ((k : ℕ) → k < f → at t' k ≡ at t k)
    → Moved n f (r - 1) t' (set a (r - 1) x) b
    → Moved (suc n) (suc f) r t a b
Moved-step n f r t t' a b x pos w e same s = record {
  size = s.size ∙ length-set a _ _;
  moved = λ k m lo hi move. elim (Bool-cases (k == f)) [
    | inl here ↦
        let at_k : k ≡ f = ==→eq k f here in
        let at_m : m ≡ r - 1 = omega arith in
        rw (at_k, at_m)
          (s.kept (r - 1) (inr (omega arith)) ∙ ground (arith, at-set a (r - 1) (r - 1) x))
    | inr below ↦
        let lt : k < f = omega (arith, ==→ne k f below) in
        s.moved k m lt (omega arith) (omega arith) ∙ same k lt
  ];
  kept = λ m out. s.kept m (ground arith) ∙ ground (arith, at-set a (r - 1) m x);
}

-- the part of an array left of the hole that a copy goes to moves up over itself
pub merge_shift-Moved :
    (n ml r : ℕ) (a : List Value)
    → n ≤ ml
    → ml ≤ r
    → r ≤ length a
    → Returns (λ (r', b). (r' + n ≡ r) × Moved n ml r a a b) (merge_shift n ml r a)
unfolding merge_shift
merge_shift-Moved zero ml r a h w z = returns (
  omega arith,
  record { size = refl; moved = λ k m x y e. absurd (omega arith); kept = λ m e. refl },
)
merge_shift-Moved (suc n) ml r a h w z =
    rw (load-ok a (ml - 1) (omega arith), store-ok a (r - 1) (at a (ml - 1)) (omega arith))
      (Returns-map
        (merge_shift-Moved n (ml - 1) (r - 1) (set a (r - 1) (at a (ml - 1))) (omega arith)
          (omega arith) (omega (arith, length-set a (r - 1) (at a (ml - 1)))))
        λ (r', b) (e, s). (
          omega arith,
          rw from at (
              Moved-step n (ml - 1) r a _ a b _ (omega arith) z refl
                (λ k lt. ground (arith, at-set a (r - 1) k (at a (ml - 1)))) s),
        ))
  where
    from : suc (ml - 1) ≡ ml
    from = omega arith

pub merge_back-Moved :
    (j r : ℕ) (t a : List Value)
    → j ≤ r
    → r ≤ length a
    → j ≤ length t
    → Returns (Moved j j r t a) (merge_back j r t a)
unfolding merge_back
merge_back-Moved zero r t a h w z =
    returns (record { size = refl; moved = λ k m x y e. absurd (omega arith); kept = λ m e. refl })
merge_back-Moved (suc j) r t a h w z =
    rw (load-ok t j (omega arith), store-ok a (r - 1) (at t j) (omega arith))
      (Returns-map
        (merge_back-Moved j (r - 1) t (set a (r - 1) (at t j)) (omega arith)
          (omega (arith, length-set a (r - 1) (at t j))) (omega arith))
        λ b s. Moved-step j j r t t a b (at t j) (omega arith) w refl (λ k lt. refl) s)
