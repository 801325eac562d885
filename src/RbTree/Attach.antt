-- ===== src/RbTree/Attach.antt =====
-- A new node in the tree: below a node, at the place of a leaf, or as the root of an empty tree.
use c_algorithm.Base.{
  ℕ, suc, ◌+◌, ◌-◌, ◌≤◌, ◌≡◌, ◌≢◌, ◌⊎◌, ◌∙◌, sym, ap, inl, inr, refl, arith, ◌==◌, ==→eq, ==→ne,
  Bool, true, false, Bool-cases, if◌then◌else◌, ◌&&◌, Value,
}
use c_algorithm.Order.{Compare}
use c_algorithm.RbTree.{RbTree, Side, lhs, rhs, other, leaf, set_child}
use c_algorithm.RbTree.Sides.{
  same_side_self, same_side_flipped, up_side, both_sides, sides_up, other-other,
}
use c_algorithm.RbTree.Links.{IsThreeWay, IsNode, Linked, Ordered, before}
use c_algorithm.RbTree.Balanced.{Balanced}

-- no node has an address that `malloc` has not given out
abbrev pub IsFresh : RbTree → Type 0
IsFresh tr = (q : ℕ) → tr.unused ≤ q → tr.allocated q ≡ false

-- the tree after rbtree_open_node
abbrev pub opened : RbTree → Value → ℕ → RbTree
opened tr v parent = record tr {
  value = λ q. if q == tr.unused then v else tr.value q;
  red = λ q. if q == tr.unused then true else tr.red q;
  parent = λ q. if q == tr.unused then parent else tr.parent q;
  child = λ t q. if q == tr.unused then leaf else tr.child t q;
  allocated = λ q. if q == tr.unused then true else tr.allocated q;
  unused = suc tr.unused;
  room = tr.room - 1;
}

module _ (cmp : Compare) (o : IsThreeWay cmp) (tr : RbTree) (bound : ℕ)
    (b : Balanced cmp tr bound 0) (fresh : IsFresh tr) (v : Value) (s : Side) (p : ℕ)
    (n : IsNode tr p) (free : tr.child s p ≡ leaf) (admitted : b.admits p v ≡ true)
    (side : before cmp s v (tr.value p) ≡ true) where
  abbrev z : ℕ
  z = tr.unused

  abbrev pub attached : RbTree
  attached = record (set_child s p z (opened tr v p)) { length = tr.length + 1 }

  z_fresh : tr.allocated z ≡ false
  z_fresh = fresh z (omega arith)

  some_z : (z ≢ leaf) × (z ≢ p) × (z ≢ tr.root)
  some_z = (
    (λ e. ground (arith, z_fresh, ap tr.allocated e, b.linked.leaf_there)),
    (λ e. ground (arith, z_fresh, ap tr.allocated e, n)),
    (λ e. ground (arith, z_fresh, ap tr.allocated e, b.linked.root_there)),
  )

  -- no pointer leads to the new node yet
  child_ne_z : (t : Side) (q : ℕ) → IsNode tr q → tr.child t q ≢ z
  child_ne_z t q m e = ground (arith, z_fresh, b.linked.down t q m, ap tr.allocated e, some_z)

  old : (q : ℕ) → IsNode attached q → q ≢ z → IsNode tr q
  old q m ne = ground (arith, m)

  abbrev admits' : ℕ → Value → Bool
  admits' q w = if q == z then (b.admits p w && before cmp s w (tr.value p)) else b.admits q w

  abbrev height' : ℕ → ℕ
  height' q = if q == z then 0 else b.height q

  -- the children of an old node
  near : (q : ℕ) → q ≢ z → attached.child s q ≡ (if q == p then z else tr.child s q)
  near q ne = ground (arith, same_side_self s)

  far : (q : ℕ) → q ≢ z → attached.child (other s) q ≡ tr.child (other s) q
  far q ne = ground (arith, same_side_flipped s)

  new : (t : Side) → attached.child t z ≡ leaf
  new t = ground (arith, some_z)

  abbrev Down : Side → Type 0
  Down t =
      (q : ℕ)
      → IsNode attached q
      → attached.child t q ≢ leaf
      → (attached.allocated (attached.child t q) ≡ true)
        × (attached.parent (attached.child t q) ≡ q)
        × (attached.child t q ≢ tr.root)

  Down-near : Down s
  Down-near q m ne = elim (Bool-cases (q == z)) [
    | inl e ↦ let k : q ≡ z = ==→eq _ _ e in absurd (ne (ap (attached.child s) k ∙ new s))
    | inr e ↦
        let d = b.linked.down s q (old q m (==→ne _ _ e)) in
        let c : (if q == p then z else tr.child s q) ≢ leaf =
          λ e'. ne (near q (==→ne _ _ e) ∙ e') in
        rw (near q (==→ne _ _ e))
          (ground (arith, d, c, child_ne_z s q (old q m (==→ne _ _ e)), some_z))
  ]

  Down-far : Down (other s)
  Down-far q m ne = elim (Bool-cases (q == z)) [
    | inl e ↦
        let k : q ≡ z = ==→eq _ _ e in absurd (ne (ap (attached.child (other s)) k ∙ new (other s)))
    | inr e ↦
        let d = b.linked.down (other s) q (old q m (==→ne _ _ e)) in
        let c : tr.child (other s) q ≢ leaf = λ e'. ne (far q (==→ne _ _ e) ∙ e') in
        rw (far q (==→ne _ _ e))
          (ground (arith, d, c, child_ne_z (other s) q (old q m (==→ne _ _ e))))
  ]

  Apart-near :
      (q : ℕ)
      → IsNode attached q
      → attached.child s q ≢ leaf
      → attached.child s q ≢ attached.child (other s) q
  Apart-near q m ne = elim (Bool-cases (q == z)) [
    | inl e ↦ let k : q ≡ z = ==→eq _ _ e in absurd (ne (ap (attached.child s) k ∙ new s))
    | inr e ↦
        let c : (if q == p then z else tr.child s q) ≢ leaf =
          λ e'. ne (near q (==→ne _ _ e) ∙ e') in
        rw (near q (==→ne _ _ e), far q (==→ne _ _ e))
          (ground (
            arith,
            b.linked.apart s q (old q m (==→ne _ _ e)),
            c,
            child_ne_z (other s) q (old q m (==→ne _ _ e)),
          ))
  ]

  Apart-far :
      (q : ℕ)
      → IsNode attached q
      → attached.child (other s) q ≢ leaf
      → attached.child (other s) q ≢ attached.child (other (other s)) q
  Apart-far q m ne = rw (other-other s) (λ e. Apart-near q m (λ e2. ne (e ∙ e2)) (sym e))

  up_attached :
      (q : ℕ)
      → IsNode attached q
      → q ≢ tr.root
      → IsNode attached (attached.parent q)
        × ((attached.child lhs (attached.parent q) ≡ q)
            ⊎ (attached.child rhs (attached.parent q) ≡ q))
  up_attached q m inner = elim (Bool-cases (q == z)) [
    | inl e ↦
        let k : q ≡ z = ==→eq _ _ e in
        let up : attached.parent q ≡ p = rw e refl in
        let down : attached.child s p ≡ q = near p (λ e'. some_z.1 (sym e')) ∙ ground (arith, k) in
        rw up ((ground (arith, n), n.1), sides_up (λ t. attached.child t p) s (inl down))
    | inr e ↦
        let u = b.linked.up q (old q m (==→ne _ _ e)) inner in
        let up : attached.parent q ≡ tr.parent q = rw e refl in
        let old_up : tr.parent q ≢ z = λ e'. ground (arith, z_fresh, u, ap tr.allocated e') in
        let from = up_side (λ t. tr.child t (tr.parent q)) s u.1 in
        let down : (attached.child s (tr.parent q) ≡ q)
            ⊎ (attached.child (other s) (tr.parent q) ≡ q) =
          rw (near (tr.parent q) old_up, far (tr.parent q) old_up)
            (ground (arith, from, free, ap (tr.child s), m)) in
        rw up ((ground (arith, u), u.0.1), sides_up (λ t. attached.child t (tr.parent q)) s down)
  ]

  attached-Linked : Linked attached
  attached-Linked = record {
    leaf_there = ground (arith, b.linked.leaf_there);
    no_null =
        ground (arith, b.linked.no_null, b.linked.root_there, b.linked.leaf_there, fresh leaf);
    root_there = ground (arith, b.linked.root_there);
    down = both_sides Down s Down-near Down-far;
    apart =
        both_sides
          (λ t.
            (q : ℕ)
            → IsNode attached q
            → attached.child t q ≢ leaf
            → attached.child t q ≢ attached.child (other t) q)
          s Apart-near Apart-far;
    up = up_attached;
  }

  abbrev Split : Side → Type 0
  Split t =
      (q : ℕ) (w : Value)
      → IsNode attached q
      → attached.child t q ≢ leaf
      → admits' (attached.child t q) w ≡ (admits' q w && before cmp t w (attached.value q))

  Split-near : Split s
  Split-near q w m ne = elim (Bool-cases (q == z)) [
    | inl e ↦ let k : q ≡ z = ==→eq _ _ e in absurd (ne (ap (attached.child s) k ∙ new s))
    | inr e ↦
        let c : (if q == p then z else tr.child s q) ≢ leaf =
          λ e'. ne (near q (==→ne _ _ e) ∙ e') in
        rw (near q (==→ne _ _ e), e)
          (elim (Bool-cases (q == p)) [
            | inl e2 ↦ let k : q ≡ p = ==→eq _ _ e2 in rw k (ground arith)
            | inr e2 ↦ rw e2 (
                ground (
                  arith,
                  b.ordered.split s q w (old q m (==→ne _ _ e)),
                  c,
                  child_ne_z s q (old q m (==→ne _ _ e)),
                ))
          ])
  ]

  Split-far : Split (other s)
  Split-far q w m ne = elim (Bool-cases (q == z)) [
    | inl e ↦
        let k : q ≡ z = ==→eq _ _ e in absurd (ne (ap (attached.child (other s)) k ∙ new (other s)))
    | inr e ↦
        let c : tr.child (other s) q ≢ leaf = λ e'. ne (far q (==→ne _ _ e) ∙ e') in
        rw (far q (==→ne _ _ e), e)
          (ground (
            arith,
            b.ordered.split (other s) q w (old q m (==→ne _ _ e)),
            c,
            child_ne_z (other s) q (old q m (==→ne _ _ e)),
          ))
  ]

  attached-Ordered : Ordered attached cmp admits'
  attached-Ordered = record {
    own = λ q m. elim (Bool-cases (q == z)) [
      | inl e ↦ rw e (ground (arith, admitted, side))
      | inr e ↦ rw e (b.ordered.own q (old q m (==→ne _ _ e)))
    ];
    full = λ w ne. ground (arith, b.ordered.full w ne, some_z);
    split = both_sides Split s Split-near Split-far;
  }

  abbrev Even : Side → Type 0
  Even t =
      (q : ℕ)
      → IsNode attached q
      → height' q ≡ height' (attached.child t q) + (if attached.red q then 0 else 1)

  abbrev NoRedRed : Side → Type 0
  NoRedRed t =
      (q : ℕ)
      → IsNode attached q
      → attached.red q ≡ true
      → attached.child t q ≢ z
      → attached.red (attached.child t q) ≡ false

  Even-near : Even s
  Even-near q m = elim (Bool-cases (q == z)) [
    | inl e ↦
        let k : q ≡ z = ==→eq _ _ e in
        rw (k, new s) (ground (arith, b.coloured.leaf_height, some_z))
    | inr e ↦
        let q_old = old q m (==→ne _ _ e) in
        rw (near q (==→ne _ _ e), e)
          (ground (
            arith,
            b.coloured.even s q q_old,
            child_ne_z s q q_old,
            free,
            ap (tr.child s),
            b.coloured.leaf_height,
          ))
  ]

  Even-far : Even (other s)
  Even-far q m = elim (Bool-cases (q == z)) [
    | inl e ↦
        let k : q ≡ z = ==→eq _ _ e in
        rw (k, new (other s)) (ground (arith, b.coloured.leaf_height, some_z))
    | inr e ↦
        let q_old = old q m (==→ne _ _ e) in
        rw (far q (==→ne _ _ e), e)
          (ground (arith, b.coloured.even (other s) q q_old, child_ne_z (other s) q q_old))
  ]

  NoRedRed-near : NoRedRed s
  NoRedRed-near q m r ne = elim (Bool-cases (q == z)) [
    | inl e ↦
        let k : q ≡ z = ==→eq _ _ e in rw (k, new s) (ground (arith, b.coloured.leaf_black, some_z))
    | inr e ↦
        let q_old = old q m (==→ne _ _ e) in
        let r' : tr.red q ≡ true = ground (arith, r, e) in
        let c : (if q == p then z else tr.child s q) ≢ z = λ e'. ne (near q (==→ne _ _ e) ∙ e') in
        rw (near q (==→ne _ _ e)) (
          ground (
            arith,
            b.coloured.no_red_red s q q_old r',
            child_ne_z s q q_old,
            b.linked.down s q q_old,
            b.linked.no_null,
            c,
            b.coloured.leaf_black,
            ap tr.allocated,
          ))
  ]

  NoRedRed-far : NoRedRed (other s)
  NoRedRed-far q m r ne = elim (Bool-cases (q == z)) [
    | inl e ↦
        let k : q ≡ z = ==→eq _ _ e in
        rw (k, new (other s)) (ground (arith, b.coloured.leaf_black, some_z))
    | inr e ↦
        let q_old = old q m (==→ne _ _ e) in
        let r' : tr.red q ≡ true = ground (arith, r, e) in
        rw (far q (==→ne _ _ e)) (
          ground (
            arith,
            b.coloured.no_red_red (other s) q q_old r',
            child_ne_z (other s) q q_old,
            b.linked.down (other s) q q_old,
            b.linked.no_null,
            b.coloured.leaf_black,
            ap tr.allocated,
          ))
  ]

  pub attached-Balanced : (b' : Balanced cmp attached bound z) × IsNode attached z
  attached-Balanced = (
    record {
      admits = admits';
      height = height';
      linked = attached-Linked;
      ordered = attached-Ordered;
      coloured = record {
        leaf_black = ground (arith, b.coloured.leaf_black, some_z);
        leaf_height = ground (arith, b.coloured.leaf_height, some_z);
        bounded = λ q m. ground (arith, b.coloured.bounded q, m);
        even = both_sides Even s Even-near Even-far;
        no_red_red = both_sides NoRedRed s NoRedRed-near NoRedRed-far;
        root_black = λ ne. ground (
          arith,
          b.coloured.root_black,
          some_z,
          b.linked.root_there,
          b.linked.no_null,
          ap tr.allocated,
        );
      };
    },
    (ground arith, some_z.0),
  )
