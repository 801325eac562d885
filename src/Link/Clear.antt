-- ===== src/Link/Clear.antt =====
-- llist_clear.
use c_algorithm.Base.{
  ℕ, zero, suc, ◌<◌, ◌≡◌, ◌≢◌, ◌⊎◌, ◌∙◌, sym, ap, inl, inr, refl, Option, some, none, List, [], ◌∷◌,
  arith, length, Value, Bool-cases, ◌==◌, Returns, returns, Returns-map, Returns-bind,
}
use c_algorithm.Link.{
  Link, node, LNode, Nodes, LList, null_allocator, put_node, delete, delete_by, clear_loop,
  llist_clear,
}
use c_algorithm.Link.Chain.{Chain, Linked, Linked-Chain}
use c_algorithm.Link.Laws.{fetch-ok}

-- what stands behind a pointer has one length
Chain-length :
    (s : Nodes) (xs ys : List Value) (p : Link)
    → Chain s p xs
    → Chain s p ys
    → length xs ≡ length ys
Chain-length s [] [] p c d = refl
Chain-length s [] (y ∷ ys) p c (q, e, rest) = absurd (ground (arith, c, e))
Chain-length s (x ∷ xs) [] p (q, e, rest) d = absurd (ground (arith, d, e))
Chain-length s (x ∷ xs) (y ∷ ys) p (q, e, (r, found, rest)) (q', e', (r', found', rest')) =
    let same : r' ≡ r = ground (arith, e, e', found, found') in
    ap suc (Chain-length s xs ys r rest (rw same at rest'))

-- a chain too short to meet a node survives any change of it
Chain-put :
    (s : Nodes) (q : ℕ) (c : Option LNode) (xs : List Value) (p : Link)
    → Chain s p xs
    → ((ys : List Value) → Chain s (node q) ys → length xs < length ys)
    → Chain (put_node q c s) p xs
Chain-put s q c [] p e short = e
Chain-put s q c (x ∷ xs) p (q', e, (r, found, rest)) short =
    let apart : q' ≢ q =
      λ same. absurd (omega (arith, short (x ∷ xs) (q', ap node (sym same), (r, found, rest)))) in
    (
      q',
      e,
      (r, ground (arith, found), Chain-put s q c xs r rest (λ ys d. omega (arith, short ys d))),
    )

-- the node at `q` is one of the chain
abbrev pub On : Nodes → Link → List Value → ℕ → Type 0
On s p [] q = q < 0
On s p (x ∷ xs) q =
    (q' : ℕ) × (p ≡ node q')
    × ((q' ≡ q)
        ⊎ ((r : Link) × (s.at_address q' ≡ some (record { value = x; next = r })) × On s r xs q))

On-put :
    (s : Nodes) (q : ℕ) (c : Option LNode) (k : ℕ) (xs : List Value) (p : Link)
    → Chain s p xs
    → ((ys : List Value) → Chain s (node q) ys → length xs < length ys)
    → On s p xs k
    → On (put_node q c s) p xs k
On-put s q c k [] p e short on = on
On-put s q c k (x ∷ xs) p (q', e, (r, found, rest)) short (q2, e2, inl here) = (q2, e2, inl here)
On-put s q c k (x ∷ xs) p (q', e, (r, found, rest)) short (q2, e2, inr (r2, found2, on)) =
    let same : q' ≡ q2 = ground (arith, e, e2) in
    let same_r : r2 ≡ r = ground (arith, same, found, found2) in
    let apart : q2 ≢ q = λ eq.
      absurd (omega (arith, short (x ∷ xs) (q', ap node (sym eq ∙ sym same), (r, found, rest)))) in
    (
      q2,
      e2,
      inr (
        r2,
        ground (arith, found2),
        rw same_r (On-put s q c k xs r rest (λ ys d. omega (arith, short ys d)) (rw same_r at on)),
      ),
    )

-- a chain that avoids a freed node is there without the freeing
On-unput :
    (s : Nodes) (q k : ℕ) (xs : List Value) (p : Link) → On (put_node q none s) p xs k → On s p xs k
On-unput s q k [] p on = on
On-unput s q k (x ∷ xs) p (q', e, inl here) = (q', e, inl here)
On-unput s q k (x ∷ xs) p (q', e, inr (r, found, on)) =
    (q', e, inr (r, ground (arith, found), On-unput s q k xs r on))

-- what llist_clear makes of the nodes: those of the list are freed, and no other node is written to
pub record Cleared (s : Nodes) (p : Link) (xs : List Value) (s' : Nodes) : Type 0 where
  pub freed : (k : ℕ) → On s p xs k → s'.at_address k ≡ none
  pub kept : (k : ℕ) → On s p xs k ⊎ (s'.at_address k ≡ s.at_address k)

clear_loop-Cleared :
    (lst : LList)
    → lst.allocator ≡ null_allocator
    → (xs : List Value) (fuel : ℕ) (s : Nodes) (p : Link) → length xs < fuel
    → Chain s p xs
    → Returns (Cleared s p xs) (clear_loop fuel lst p s)
unfolding clear_loop delete
clear_loop-Cleared lst plain xs zero s p enough c = absurd (omega arith)
clear_loop-Cleared lst plain [] (suc fuel) s p enough c =
    rw c (returns (record { freed = λ k on. absurd (omega arith); kept = λ k. inr refl }))
clear_loop-Cleared lst plain (x ∷ xs) (suc fuel) s p enough (q, e, (r, found, rest)) =
    let n : LNode = record { value = x; next = r } in
    let short : (ys : List Value) → Chain s (node q) ys → length xs < length ys =
      λ ys d. omega (arith, Chain-length s (x ∷ xs) ys (node q) (q, refl, (r, found, rest)) d) in
    let deleted : delete lst q s ≡ put_node q none s = ap (λ a. delete_by a q s) plain in
    rw (e, fetch-ok q n s found, deleted)
      (Returns-map
        (clear_loop-Cleared lst plain xs fuel (put_node q none s) r (omega arith)
          (Chain-put s q none xs r rest short))
        λ s' d. record {
          freed = λ k (q2, e2, on). elim on [
            | inl here ↦ elim (d.kept k) [
              | inl again ↦ d.freed k again
              | inr same ↦ let at_q : k ≡ q = ground (arith, e, e2, here) in same ∙ ground arith
            ]
            | inr (r2, found2, on2) ↦
                let same_q : q2 ≡ q = ground (arith, e, e2) in
                let same_r : r2 ≡ r = ground (arith, same_q, found, found2) in
                d.freed k (On-put s q none k xs r rest short (rw same_r at on2))
          ];
          kept = λ k. elim (d.kept k) [
            | inl later ↦ inl (q, refl, inr (r, found, On-unput s q k xs r later))
            | inr same ↦ elim (Bool-cases (k == q)) [
              | inl at_q ↦ inl (q, refl, inl (ground (arith, at_q)))
              | inr other ↦ inr (same ∙ ground arith)
            ]
          ];
        })

-- llist_clear of a list with the null allocator frees the nodes of the list and writes to no other,
-- and leaves an empty list.
pub llist_clear-Cleared :
    (s : Nodes) (lst : LList) (xs : List Value)
    → Linked s lst xs
    → lst.allocator ≡ null_allocator
    → Returns (λ (lst', s'). Linked s' lst' [] × Cleared s lst.first xs s') (llist_clear lst s)
unfolding llist_clear
llist_clear-Cleared s lst xs h plain =
    Returns-bind
      (clear_loop-Cleared lst plain xs (suc lst.length) s lst.first (omega (arith, h.count))
        (Linked-Chain s lst xs h))
      λ s' c. returns (record { count = refl; ends = inl (refl, refl, refl) }, c)
