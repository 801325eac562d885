-- ===== src/Link/Double/Push.antt =====
-- dllist_push_back.
use c_algorithm.Base.{
  ℕ, suc, ◌-◌, ◌<◌, ◌≡◌, ◌≢◌, ◌∙◌, ap, refl, some, none, List, [], ◌∷◌, ◌++◌, arith, length-append,
  Value, false, ◌==◌, Returns, returns,
}
use c_algorithm.Link.{Link, null, head, node}
use c_algorithm.Link.Double.{DlNode, DlNodes, DlList, put_dlnode, dllink_after, dllist_push_back}
use c_algorithm.Link.Double.Laws.{DlChain, DlLinked, fetch-ok}

-- the last node of a chain that is not empty
DlChain-last :
    (s : DlNodes) (x : Value) (xs : List Value) (back p last : Link)
    → DlChain s back p (x ∷ xs) last
    → (t : ℕ) × (last ≡ node t) × ((n : DlNode) × (s.at_address t ≡ some n) × (n.next ≡ null))
DlChain-last s x [] back p last (q, e, (r, found, (at_end, e'))) = (q, e', (_, found, at_end))
DlChain-last s x (y ∷ ys) back p last (q, e, (r, found, rest)) =
    DlChain-last s y ys (node q) r last rest

module _ (s s2 : DlNodes) (t u : ℕ) (v : Value) (n : DlNode) (at_t : s.at_address t ≡ some n)
    (ends_t : n.next ≡ null) (linked : s2.at_address t ≡ some (record n { next = node u }))
    (fresh : s2.at_address u ≡ some (record { value = v; next = null; prev = node t }))
    (kept : (q : ℕ) (m : DlNode) → q ≢ t → s.at_address q ≡ some m → s2.at_address q ≡ some m) where
  -- the last node leads to a new one
  DlChain-snoc :
      (x : Value) (xs : List Value) (back p : Link)
      → DlChain s back p (x ∷ xs) (node t)
      → DlChain s2 back p ((x ∷ xs) ++ v ∷ []) (node u)
  DlChain-snoc x [] back p (q, e, (r, found, (at_end, e'))) =
      let same : q ≡ t = ground (arith, e') in
      let known : n ≡ record { value = x; next = r; prev = back } =
        ground (arith, same, found, at_t) in
      let at_q : s2.at_address q ≡ some (record { value = x; next = node u; prev = back }) =
        rw same (linked ∙ ap (λ (m : DlNode). some (record m { next = node u })) known) in
      (q, e, (node u, at_q, (u, refl, (null, rw same fresh, (refl, refl)))))
  DlChain-snoc x (y ∷ ys) back p (q, e, (r, found, (q2, e2, rest))) =
      let apart : q ≢ t = λ same. absurd (ground (arith, same, found, at_t, ends_t, e2)) in
      (q, e, (r, kept q _ apart found, DlChain-snoc y ys (node q) r (q2, e2, rest)))

-- dllist_push_back puts the value behind the last one of the list, where there is memory for a node.
pub dllist_push_back-DlLinked :
    (s : DlNodes) (lst : DlList) (xs : List Value) (v : Value)
    → DlLinked s lst xs
    → 0 < s.room
    → s.at_address s.unused ≡ none
    → Returns (λ (lst', s'). DlLinked s' lst' (xs ++ v ∷ [])) (dllist_push_back lst v s)
unfolding dllist_push_back dllink_after
dllist_push_back-DlLinked s lst [] v h room free =
    let some_room : (s.room == 0) ≡ false = ground arith in
    let at_head : lst.tail ≡ head = (h.chain).1 in
    rw (some_room, at_head)
      (returns (record {
        count = omega (arith, h.count);
        chain = (s.unused, refl, (null, ground arith, (refl, refl)));
      }))
dllist_push_back-DlLinked s lst (x ∷ xs) v h room free =
    let some_room : (s.room == 0) ≡ false = ground arith in
    let (t, e, (n, at_t, ends_t)) = DlChain-last s x xs head lst.first lst.tail h.chain in
    let apart : t ≢ s.unused = ground (arith, at_t, free) in
    let s1 : DlNodes =
      record (put_dlnode s.unused (some (record { value = v; next = null; prev = node t })) s) {
        unused = suc s.unused;
        room = s.room - 1;
      } in
    let at_t1 : s1.at_address t ≡ some n = ground (arith, at_t) in
    let s2 : DlNodes = put_dlnode t (some (record n { next = node s.unused })) s1 in
    rw (some_room, e, fetch-ok t n s1 at_t1)
      (returns (record {
        count = omega (arith, h.count, length-append xs (v ∷ []));
        chain =
            DlChain-snoc s s2 t s.unused v n at_t ends_t (ground arith) (ground arith)
              (λ q m ne there.
                let new : q ≢ s.unused = ground (arith, there, free) in ground (arith, there))
              x xs head lst.first (rw e at h.chain);
      }))
