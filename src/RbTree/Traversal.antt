-- ===== src/RbTree/Traversal.antt =====
-- rbtree_ldr, with its stack.
use mathlib.Core.List.{map, append_assoc, append-nil}
use c_algorithm.Base.{
  ℕ, zero, suc, ◌≤◌, ◌<◌, ◌≡◌, ◌≢◌, ◌∙◌, sym, ap, subst, inl, inr, refl, arith, ◌==◌, ==→eq, ==→ne,
  Bool, true, false, Bool-cases, ◌&&◌, not, List, [], ◌∷◌, ◌++◌, length, length-append, ok, Returns,
  returns, Returns-bind, Returns-map, Returns-ok,
}
use c_algorithm.Order.{Compare}
use c_algorithm.Link.{Traverse}
use c_algorithm.Link.Chain.{visit_all}
use c_algorithm.RbTree.{RbTree, lhs, rhs, leaf}
use c_algorithm.RbTree.Links.{IsNode}
use c_algorithm.RbTree.InOrder.{IsTree, empty, branch, InOrder}
use c_algorithm.RbTree.Walk.{is_empty, push_left, pop_visit, ldr_loop, rbtree_ldr}

module _ (tr : RbTree) where
  -- what is still to be visited with this stack
  data Waits : List ℕ → List ℕ → Type 0 where
    done : Waits [] []
    wait :
        (p : ℕ) (st r rest all : List ℕ)
        → IsNode tr p
        → IsTree tr (tr.child rhs p) r
        → Waits st rest
        → all ≡ (p ∷ (r ++ rest))
        → Waits (p ∷ st) all

  leaf-IsTree : (p : ℕ) (qs : List ℕ) → IsTree tr p qs → p ≡ leaf → qs ≡ []
  leaf-IsTree p qs (empty _ e) e' = refl
  leaf-IsTree p qs (branch _ l r all n t u e) e' = absurd (n.1 e')

  node-IsTree : (p : ℕ) (qs : List ℕ) → IsTree tr p qs → p ≢ leaf → IsNode tr p
  node-IsTree p qs (empty _ e) ne = absurd (ne e)
  node-IsTree p qs (branch _ l r all n t u e) ne = n

  IsTree-some : (p : ℕ) (qs : List ℕ) → IsTree tr p qs → p ≢ leaf → 0 < length qs
  IsTree-some p qs (empty _ e) ne = absurd (ne e)
  IsTree-some p qs (branch _ l r all n t u e) ne =
      omega (arith, ap {B = ℕ} length e, length-append l (p ∷ r))

  Waits-nil : (st all : List ℕ) → Waits st all → st ≡ [] → all ≡ []
  Waits-nil st all done e = refl
  Waits-nil st all (wait p st' r rest _ n u w e') e = absurd (omega (arith, ap {B = ℕ} length e))

  push_left-Waits :
      (fuel p : ℕ) (qs st rest : List ℕ)
      → IsTree tr p qs
      → p ≢ leaf
      → Waits st rest
      → length qs ≤ fuel
      → Returns (λ st'. Waits st' (qs ++ rest)) (push_left fuel p (p ∷ st) tr)
  unfolding push_left
  push_left-Waits fuel p qs st rest (empty _ e) ne w enough = absurd (ne e)
  push_left-Waits zero p qs st rest (branch _ l r all n t u e) ne w enough =
      absurd (omega (arith, enough, ap {B = ℕ} length e, length-append l (p ∷ r)))
  push_left-Waits (suc fuel) p qs st rest (branch _ l r all n t u e) ne w enough =
      let joined : (all ++ rest) ≡ (l ++ (p ∷ (r ++ rest))) =
        ap (λ z. z ++ rest) e ∙ append_assoc l (p ∷ r) rest in
      let here : Waits (p ∷ st) (p ∷ (r ++ rest)) = wait p st r rest _ n u w refl in
      rw n.0 (elim (Bool-cases (tr.child lhs p == leaf)) [
        | inl x ↦
            let none = leaf-IsTree (tr.child lhs p) l t (==→eq _ _ x) in
            rw x (
              returns (
                subst (Waits (p ∷ st)) (sym (joined ∙ ap (λ z. z ++ (p ∷ (r ++ rest))) none)) here))
        | inr x ↦ rw x (
            subst
              (λ z.
                Returns (λ st'. Waits st' z)
                  (push_left fuel (tr.child lhs p) (tr.child lhs p ∷ p ∷ st) tr))
              (sym joined)
              (push_left-Waits fuel (tr.child lhs p) l (p ∷ st) (p ∷ (r ++ rest)) t (==→ne _ _ x)
                here (omega (arith, enough, ap {B = ℕ} length e, length-append l (p ∷ r)))))
      ])

  module _ {P : Type 0} (visit : Traverse P) where
    abbrev visited : List ℕ → P → P
    visited qs param = visit_all visit (map tr.value qs) param

    -- what the `do` gives: it was stopped, or has come to a node with a right child or to the end
    data Popped (all : List ℕ) (param : P) : Bool × ℕ × List ℕ × P → Type 0 where
      stopped :
          (top : ℕ) (st : List ℕ) (after : P)
          → after ≡ visited all param
          → Popped all param (true, top, st, after)
      turned :
          (top : ℕ) (st r rest : List ℕ) (after : P)
          → IsNode tr top
          → IsTree tr (tr.child rhs top) r
          → Waits st rest
          → visited all param ≡ visited (r ++ rest) after
          → length (r ++ rest) < length all
          → (tr.child rhs top ≡ leaf → st ≡ [])
          → Popped all param (false, top, st, after)

    Popped-skip :
        (all rest : List ℕ) (param after : P) (v : Bool × ℕ × List ℕ × P)
        → visited all param ≡ visited rest after
        → length rest < length all
        → Popped rest after v
        → Popped all param v
    Popped-skip all rest param after _ e less (stopped top st end e') =
        stopped top st end (e' ∙ sym e)
    Popped-skip all rest param after _ e less (turned top st r rest' end n u w e' less' turn) =
        turned top st r rest' end n u w (e ∙ e') (omega (arith, less, less')) turn

    Waits-some : (st all : List ℕ) → Waits st all → is_empty st ≡ false → all ≢ []
    Waits-some st all done e none = absurd (ground (arith, e))
    Waits-some st all (wait p st' r rest _ n u w e') e none =
        absurd (omega (arith, ap {B = ℕ} length (sym e' ∙ none)))

    pop_visit-Popped :
        (st all : List ℕ) (param : P)
        → Waits st all
        → all ≢ []
        → Returns (Popped all param) (pop_visit visit st param tr)
    unfolding pop_visit visit_all
    pop_visit-Popped st all param done some = absurd (some refl)
    pop_visit-Popped _ all param (wait p st r rest _ n u w e) some =
        rw (e, n.0)
          (elim (Bool-cases (visit (tr.value p) param).0) [
            | inl stop ↦ rw stop (returns (stopped p st _ (rw stop refl)))
            | inr go ↦
                let next : visited (p ∷ (r ++ rest)) param
                    ≡ visited (r ++ rest) (visit (tr.value p) param).1 =
                  rw go refl in
                rw go (elim (Bool-cases ((tr.child rhs p == leaf) && not (is_empty st))) [
                  | inl more ↦
                      let none : r ≡ [] =
                        leaf-IsTree (tr.child rhs p) r u (==→eq _ _ (ground (arith, more))) in
                      let same : (r ++ rest) ≡ rest = ap (λ z. z ++ rest) none in
                      rw more (
                        Returns-map
                          (pop_visit-Popped st rest (visit (tr.value p) param).1 w
                            (Waits-some st rest w (ground (arith, more))))
                          λ v h.
                            Popped-skip (p ∷ (r ++ rest)) rest param (visit (tr.value p) param).1 v
                              (next ∙ ap (λ z. visited z (visit (tr.value p) param).1) same)
                              (omega (arith, length-append r rest)) h)
                  | inr last ↦
                      rw last
                        (returns (turned p st r rest _ n u w next (omega arith) (at_end last)))
                ])
          ])
      where
        at_end :
            ((tr.child rhs p == leaf) && not (is_empty st)) ≡ false
            → tr.child rhs p ≡ leaf
            → st ≡ []
        at_end last e = only_empty st (ground (arith, last, e))
          where
            only_empty : (zs : List ℕ) → is_empty zs ≡ true → zs ≡ []
            only_empty [] e = refl
            only_empty (z ∷ zs) e = absurd (ground (arith, e))

    ldr_loop-nil :
        (fuel top : ℕ) (after : P) → 0 < fuel → ldr_loop visit fuel top [] after tr ≡ ok after
    unfolding ldr_loop
    ldr_loop-nil zero top after some = absurd (omega arith)
    ldr_loop-nil (suc fuel) top after some = refl

    -- the loop at a node whose tree is `qs`, with the stack below it
    ldr_loop-visited :
        (fuel p : ℕ) (qs st rest : List ℕ) (param : P)
        → IsTree tr p qs
        → p ≢ leaf
        → Waits st rest
        → length (qs ++ rest) < fuel
        → Returns (λ v. v ≡ visited (qs ++ rest) param) (ldr_loop visit fuel p (p ∷ st) param tr)
    unfolding ldr_loop visit_all
    ldr_loop-visited zero p qs st rest param t ne w enough = absurd (omega arith)
    ldr_loop-visited (suc fuel) p qs st rest param t ne w enough =
        Returns-bind
          (push_left-Waits fuel p qs st rest t ne w (omega (arith, length-append qs rest, enough)))
          λ st1 w1.
            Returns-bind (pop_visit-Popped st1 (qs ++ rest) param w1 (some_left qs t))
              λ v h. go (λ p' qs' st' rest' after. ldr_loop-visited fuel p' qs' st' rest' after) v h
      where
        some_left : (qs : List ℕ) → IsTree tr p qs → (qs ++ rest) ≢ []
        some_left qs t none =
            omega (arith, IsTree-some p qs t ne, length-append qs rest, ap {B = ℕ} length none)

        enough' : 0 < fuel
        enough' = omega (arith, enough, IsTree-some p qs t ne, length-append qs rest)

        go :
            ((p' : ℕ) (qs' st' rest' : List ℕ) (after : P)
              → IsTree tr p' qs'
              → p' ≢ leaf
              → Waits st' rest'
              → length (qs' ++ rest') < fuel
              → Returns
                  (λ v. v ≡ visited (qs' ++ rest') after)
                  (ldr_loop visit fuel p' (p' ∷ st') after tr))
            → (v : Bool × ℕ × List ℕ × P) → Popped (qs ++ rest) param v
            → Returns
                (λ v'. v' ≡ visited (qs ++ rest) param)
                (elim v.0 [
                  | true ↦ ok v.3
                  | false ↦ elim (tr.child rhs v.1 == leaf) [
                    | true ↦ ldr_loop visit fuel v.1 v.2 v.3 tr
                    | false ↦ ldr_loop visit fuel (tr.child rhs v.1) (tr.child rhs v.1 ∷ v.2) v.3 tr
                  ]
                ])
        go again _ (stopped top st' after e) = returns e
        go again _ (turned top st' r rest' after n u w' e less turn) =
            elim (Bool-cases (tr.child rhs top == leaf)) [
              | inl x ↦
                  let no_more : st' ≡ [] = turn (==→eq _ _ x) in
                  let no_rest : (r ++ rest') ≡ [] =
                    ap (λ z. z ++ rest') (leaf-IsTree (tr.child rhs top) r u (==→eq _ _ x))
                    ∙ Waits-nil st' rest' w' no_more in
                  rw (x, no_more, ldr_loop-nil fuel top after enough')
                    (returns (sym (e ∙ ap (λ z. visited z after) no_rest)))
              | inr x ↦ rw x (
                  Returns-map
                    (again (tr.child rhs top) r st' rest' after u (==→ne _ _ x) w'
                      (omega (arith, less, enough)))
                    λ v same. same ∙ sym e)
            ]

-- rbtree_ldr hands the values to the function from left to right, each once, until it asks to stop.
pub rbtree_ldr-visit_all :
    {P : Type 0} (cmp : Compare) (tr : RbTree) (qs : List ℕ)
    → InOrder cmp tr qs
    → (visit : Traverse P) (param : P) (fuel : ℕ) → length qs < fuel
    → rbtree_ldr tr visit param fuel ≡ ok (visit_all visit (map tr.value qs) param)
unfolding rbtree_ldr visit_all
rbtree_ldr-visit_all cmp tr qs i visit param fuel enough = elim (Bool-cases (tr.root == leaf)) [
  | inl e ↦ let none = leaf-IsTree tr tr.root qs i.tree (==→eq _ _ e) in rw (e, none) refl
  | inr e ↦
      let all : (qs ++ []) ≡ qs = append-nil qs in
      let r = Returns-ok (
        ldr_loop-visited tr visit fuel tr.root qs [] [] param i.tree (==→ne _ _ e) (done)
          (omega (arith, length-append qs [], enough))) in
      rw e (r.1 ∙ ap ok (r.2 ∙ ap (λ z. visit_all visit (map tr.value z) param) all))
]
