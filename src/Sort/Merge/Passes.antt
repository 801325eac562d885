-- ===== src/Sort/Merge/Passes.antt =====
-- The two `for` loops of merge_sort: a pass doubles the length of the ascending runs.
use mathlib.Core.List.{append_assoc, append-nil}
use mathlib.Core.List.Perm
use c_algorithm.Base.{
  ℕ, zero, suc, ◌+◌, int_max, ◌≤◌, ◌<◌, ◌≡◌, ◌∙◌, ap, refl, true, ◌⊎◌, inl, inr, List, [], ◌∷◌,
  ◌++◌, Perm, arith, length, length-append, ltb, ltb→lt, ltb→le, Bool-cases, Value, at, Returns,
  returns, Returns-map, Returns-bind,
}
use c_algorithm.Order.{Compare, IsOrder}
use c_algorithm.Sort.Merge.{merge_pass, merge_loop, clip}
use c_algorithm.Segments.{Seg, length-Seg, Seg-copy, Seg-append, Seg-left, Seg-right}
use c_algorithm.Sort.Merge.Ascending.{Ascends, merge, length-merge, merge-Ascends, merge-perm}
use c_algorithm.Sort.Merge.Step.{Rewritten, merge_step-Rewritten}

-- ascending runs of `i` entries, the last perhaps shorter
pub data Runs (cmp : Compare) (i : ℕ) : List Value → Type 0 where
  nil : Runs cmp i []
  more :
      {all : List Value} (xs rest : List Value)
      → length xs ≤ i
      → (length xs ≡ i) ⊎ (rest ≡ [])
      → Ascends cmp xs
      → Runs cmp i rest
      → all ≡ xs ++ rest
      → Runs cmp i all

eq_nil : (xs : List Value) → length xs ≡ 0 → xs ≡ []
eq_nil [] h = refl
eq_nil (x ∷ xs) h = absurd (omega arith)

-- what a pass from `l` on leaves of the entries `rest`
record Passed (cmp : Compare) (size i l : ℕ) (a t rest : List Value) (s : List Value × List Value)
    : Type 0 where
  out : List Value
  runs : Runs cmp (i + i) out
  count : length out ≡ length rest
  same : Perm out rest
  run : Seg s.0 l out
  whole : length s.0 ≡ length a
  scratch : length s.1 ≡ length t
  outside : (k : ℕ) → (k < l) ⊎ (size ≤ k) → at s.0 k ≡ at a k

clip_end :
    (size l i y z : ℕ)
    → l + i + y + z ≡ size
    → y ≤ i
    → (y ≡ i) ⊎ (z ≡ 0)
    → clip size (l + i + i) ≡ l + i + y
clip_end size l i y z e h h' = ground arith

module _ (cmp : Compare) (o : IsOrder cmp) where
  -- one run is a run of any greater length
  Runs-short :
      (i : ℕ) (rest : List Value) → Runs cmp i rest → length rest ≤ i → Runs cmp (i + i) rest
  Runs-short i rest nil h = nil
  Runs-short i rest (more xs tail le e s r eq) h =
      more xs tail (omega arith) (inr (none_left e)) s (rw (none_left e) nil) eq
    where
      total : length rest ≡ length xs + length tail
      total = ap length eq ∙ length-append xs tail

      none_left : (length xs ≡ i) ⊎ (tail ≡ []) → tail ≡ []
      none_left (inl p) = eq_nil tail (omega (arith, total))
      none_left (inr p) = p

  module _ (size i : ℕ) (pos : 0 < i) (small : size ≤ int_max) where
    -- the merge of the first two runs, and then the pass over the others from `m` on
    Passed-more :
        (l m : ℕ) (a t xs ys zs : List Value) (b s : List Value × List Value)
        → length xs ≡ i
        → length ys ≤ i
        → (length ys ≡ i) ⊎ (zs ≡ [])
        → Ascends cmp (merge cmp xs ys)
        → l + i + length ys ≡ m
        → m + length zs ≡ size
        → Rewritten l m a t (merge cmp xs ys) b
        → Passed cmp size i m b.0 b.1 zs s
        → Passed cmp size i l a t (xs ++ (ys ++ zs)) s
    Passed-more l m a t xs ys zs b s full le e asc at_m at_end w p =
        let merged = length-merge cmp xs ys in
        record {
          out = merge cmp xs ys ++ p.out;
          runs = more (merge cmp xs ys) p.out (omega (arith, merged)) (last e) asc p.runs refl;
          count = omega (
            arith,
            merged,
            p.count,
            length-append (merge cmp xs ys) p.out,
            length-append xs (ys ++ zs),
            length-append ys zs,
          );
          same = rw (← append_assoc xs ys zs) (Perm.append (merge-perm cmp xs ys) p.same);
          run =
              Seg-append s.0 l m (merge cmp xs ys) p.out
                (Seg-copy b.0 s.0 l l (merge cmp xs ys) w.run
                  (omega (arith, merged, p.count, length-Seg s.0 m p.out p.run))
                  (λ k n x y z.
                    let same : n ≡ k = omega arith in
                    rw same (p.outside k (inl (omega (arith, merged))))))
                (omega (arith, merged)) p.run;
          whole = p.whole ∙ w.size;
          scratch = p.scratch ∙ w.scratch;
          outside = λ k out. p.outside k (omega arith) ∙ w.outside k (omega arith);
        }
      where
        last : (length ys ≡ i) ⊎ (zs ≡ []) → (length (merge cmp xs ys) ≡ i + i) ⊎ (p.out ≡ [])
        last (inl x) = inl (omega (arith, length-merge cmp xs ys))
        last (inr x) = inr (eq_nil p.out (p.count ∙ ap length x))

    Passed-end :
        (l : ℕ) (a t rest : List Value)
        → Runs cmp i rest
        → Seg a l rest
        → length rest ≤ i
        → Passed cmp size i l a t rest (a, t)
    Passed-end l a t rest r sg h = record {
      out = rest;
      runs = Runs-short i rest r h;
      count = refl;
      same = Perm.rfl;
      run = sg;
      whole = refl;
      scratch = refl;
      outside = λ k out. refl;
    }

    -- a pass over at least two runs
    merge_pass-two :
        (f l : ℕ) (a t xs ys zs : List Value)
        → length xs ≡ i
        → length ys ≤ i
        → (length ys ≡ i) ⊎ (zs ≡ [])
        → Ascends cmp xs
        → Ascends cmp ys
        → Seg a l (xs ++ (ys ++ zs))
        → l + i + length ys + length zs ≡ size
        → size ≤ length t
        → ltb (l + i) size ≡ true
        → ((m : ℕ) (b t' : List Value)
            → Seg b m zs
            → m + length zs ≡ size
            → size ≤ length t'
            → Returns (Passed cmp size i m b t' zs) (merge_pass cmp size i f m b t'))
        → Returns (Passed cmp size i l a t (xs ++ (ys ++ zs))) (merge_pass cmp size i (suc f) l a t)
    unfolding merge_pass
    merge_pass-two f l a t xs ys zs full le e sx sy sg total room test again =
        rw (test, merge_pass)
          (rw ends (
            Returns-bind
              (merge_step-Rewritten cmp l (l + i) (l + i + length ys) a t xs ys
                (Seg-left a l xs (ys ++ zs) sg) (omega arith) (Seg-left a (l + i) ys zs back) refl
                (omega arith) (omega arith))
              λ (b, t') w.
                Returns-map
                  (again (l + i + length ys) b t'
                    (Seg-copy a b (l + i + length ys) (l + i + length ys) zs
                      (Seg-right a (l + i) _ ys zs back refl)
                      (omega
                        (arith, w.size, length-Seg a _ zs (Seg-right a (l + i) _ ys zs back refl)))
                      (λ k n x y z.
                        let same : n ≡ k = omega arith in rw same (w.outside k (inr x))))
                    total (omega (arith, w.scratch)))
                  λ s.
                    Passed-more l (l + i + length ys) a t xs ys zs (b, t') s full le e
                      (merge-Ascends cmp o xs ys sx sy) refl total w))
      where
        back : Seg a (l + i) (ys ++ zs)
        back = Seg-right a l (l + i) xs (ys ++ zs) sg (omega arith)

        none_left : (length ys ≡ i) ⊎ (zs ≡ []) → (length ys ≡ i) ⊎ (length zs ≡ 0)
        none_left (inl x) = inl x
        none_left (inr x) = inr (ap length x)

        ends : clip size (l + i + i) ≡ l + i + length ys
        ends = clip_end size l i (length ys) (length zs) total le (none_left e)

    -- what a pass does to the runs `rest` that begin at `l`
    abbrev PassRuns : ℕ → Type 0
    PassRuns f =
        (l : ℕ) (a t rest : List Value)
        → Runs cmp i rest
        → Seg a l rest
        → l + length rest ≡ size
        → size ≤ length t
        → length rest < f
        → Returns (Passed cmp size i l a t rest) (merge_pass cmp size i f l a t)

    PassRuns-more :
        (f l : ℕ) (a t xs rest all : List Value)
        → PassRuns f
        → length xs ≡ i
        → Ascends cmp xs
        → Runs cmp i rest
        → all ≡ xs ++ rest
        → Seg a l all
        → l + length all ≡ size
        → size ≤ length t
        → length all < suc f
        → ltb (l + i) size ≡ true
        → Returns (Passed cmp size i l a t all) (merge_pass cmp size i (suc f) l a t)
    PassRuns-more f l a t xs rest all again full sx nil eq sg total room fuel e =
        absurd (omega (arith, ap length eq, length-append xs [], ltb→lt _ _ e))
    PassRuns-more f l a t xs rest all again full sx (more ys zs le last sy r eq') eq sg total room
          fuel e =
        let whole : all ≡ xs ++ (ys ++ zs) = eq ∙ ap (λ w. xs ++ w) eq' in
        let sizes = ap length whole in
        let sum = length-append xs (ys ++ zs) in
        let sum' = length-append ys zs in
        rw whole (
          merge_pass-two f l a t xs ys zs full le last sx sy (rw whole at sg) (omega arith) room e
            (λ m b t' sg' total' room'. again m b t' zs r sg' total' room' (omega arith)))

    PassRuns-two :
        (f l : ℕ) (a t rest : List Value)
        → PassRuns f
        → Runs cmp i rest
        → Seg a l rest
        → l + length rest ≡ size
        → size ≤ length t
        → length rest < suc f
        → ltb (l + i) size ≡ true
        → Returns (Passed cmp size i l a t rest) (merge_pass cmp size i (suc f) l a t)
    PassRuns-two f l a t rest again nil sg total room fuel e = absurd (omega (arith, ltb→lt _ _ e))
    PassRuns-two f l a t rest again (more xs tail le (inl full) sx r eq) sg total room fuel e =
        PassRuns-more f l a t xs tail rest again full sx r eq sg total room fuel e
    PassRuns-two f l a t rest again (more xs tail le (inr none_left) sx r eq) sg total room fuel e =
        absurd
          (omega (arith, ap length eq, length-append xs tail, ap length none_left, ltb→lt _ _ e))

    merge_pass-Passed : (f : ℕ) → PassRuns f
    unfolding merge_pass
    merge_pass-Passed zero l a t rest r sg total room fuel = absurd (omega arith)
    merge_pass-Passed (suc f) l a t rest r sg total room fuel =
        elim (Bool-cases (ltb (l + i) size)) [
          | inr e ↦
              rw (e, merge_pass)
                (returns (Passed-end l a t rest r sg (omega (arith, ltb→le _ _ e))))
          | inl e ↦ PassRuns-two f l a t rest (merge_pass-Passed f) r sg total room fuel e
        ]

  -- single entries are runs of one
  pub Runs-one : (xs : List Value) → Runs cmp 1 xs
  Runs-one [] = nil
  Runs-one (x ∷ xs) = more (x ∷ []) xs (omega arith) (inl refl) (tt, tt) (Runs-one xs) refl

  Runs-whole : (i : ℕ) (xs : List Value) → Runs cmp i xs → length xs ≤ i → 0 < i → Ascends cmp xs
  Runs-whole i xs nil h pos = tt
  Runs-whole i xs (more ys tail le e s r eq) h pos =
      rw (eq ∙ ap (λ w. ys ++ w) (none_left e) ∙ append-nil ys) s
    where
      none_left : (length ys ≡ i) ⊎ (tail ≡ []) → tail ≡ []
      none_left (inl p) = eq_nil tail (omega (arith, ap length eq, length-append ys tail))
      none_left (inr p) = p

  -- what merge_sort leaves of the entries `xs`
  pub record Merged (size : ℕ) (a xs : List Value) (s : List Value × List Value) : Type 0 where
    pub out : List Value
    pub ascends : Ascends cmp out
    pub count : length out ≡ length xs
    pub same : Perm out xs
    pub run : Seg s.0 0 out
    pub whole : length s.0 ≡ length a
    pub outside : (k : ℕ) → size ≤ k → at s.0 k ≡ at a k

  pub merge_loop-Merged :
      (size f i : ℕ) (a t xs : List Value)
      → 0 < i
      → Runs cmp i xs
      → Seg a 0 xs
      → length xs ≡ size
      → size ≤ length t
      → size ≤ int_max
      → 0 < f
      → size < f + i
      → Returns (Merged size a xs) (merge_loop cmp size f i a t)
  unfolding merge_loop
  merge_loop-Merged size zero i a t xs pos r sg total room small some_fuel fuel =
      absurd (omega arith)
  merge_loop-Merged size (suc f) i a t xs pos r sg total room small some_fuel fuel =
      elim (Bool-cases (ltb i size)) [
        | inr e ↦
            rw (e, merge_loop)
              (returns (record {
                out = xs;
                ascends = Runs-whole i xs r (omega (arith, ltb→le _ _ e)) pos;
                count = refl;
                same = Perm.rfl;
                run = sg;
                whole = refl;
                outside = λ k h. refl;
              }))
        | inl e ↦
            rw (e, merge_loop)
              (Returns-bind
                (merge_pass-Passed size i pos small (suc size) 0 a t xs r sg (omega arith) room
                  (omega arith))
                λ (b, t') p.
                  Returns-map
                    (merge_loop-Merged size f (i + i) b t' p.out (omega arith) p.runs p.run
                      (p.count ∙ total) (omega (arith, p.scratch)) small
                      (omega (arith, ltb→lt _ _ e)) (omega arith))
                    λ s m. record {
                      out = m.out;
                      ascends = m.ascends;
                      count = m.count ∙ p.count;
                      same = Perm.trans m.same p.same;
                      run = m.run;
                      whole = m.whole ∙ p.whole;
                      outside = λ k h. m.outside k h ∙ p.outside k (inr h);
                    })
      ]
