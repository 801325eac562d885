-- ===== src/String/Copy.antt =====
-- What a string holds, after a copy and in a comparison.
use c_algorithm.Base.{
  ℕ, zero, suc, ◌+◌, ◌<◌, ◌≤◌, le→ltb, ◌≡◌, ◌≢◌, ◌⊎◌, ◌∙◌, sym, ap, inl, inr, refl, arith, ◌==◌,
  ==→eq, ==→ne, ltb, if◌then◌else◌, true, false, Bool-cases, List, [], ◌∷◌, ◌++◌, length, none,
  some, ℤ, pos, negsuc, ok, Returns, returns,
}
use c_algorithm.String.{
  Texts, String, read, release, strlen, strncpy, strncmp, copy_of, open_string_with_data,
  string_cpy, string_cmp,
}

-- no character is the closing 0
abbrev pub IsText : List ℕ → Type 0
IsText [] = Unit {0}
IsText (c ∷ cs) = (c ≢ 0) × IsText cs

abbrev pub closed : List ℕ → List ℕ
closed cs = cs ++ (0 ∷ [])

-- the string has a block with the characters, or is empty and has the literal
pub record HoldsText (s : Texts) (str : String) (cs : List ℕ) : Type 0 where
  pub text : IsText cs
  pub len_is : str.len ≡ length cs
  pub chars_are :
      ((str.len ≡ 0) × (str.chars ≡ none))
      ⊎ ((str.len ≢ 0)
          × ((p : ℕ) × (str.chars ≡ some p) × (s.block p ≡ some (closed cs)) × (p < s.next)))

pub read-HoldsText :
    (s : Texts) (str : String) (cs : List ℕ)
    → HoldsText s str cs
    → read str.chars s ≡ ok (closed cs)
unfolding read
read-HoldsText s str [] h = elim h.chars_are [
  | inl (e, e') ↦ rw e' refl
  | inr (ne, (p, e, there, old)) ↦ absurd (ne h.len_is)
]
read-HoldsText s str (c ∷ cs) h = elim h.chars_are [
  | inl (e, e') ↦ absurd (omega (arith, e, h.len_is))
  | inr (ne, (p, e, there, old)) ↦ rw (e, read, there) refl
]

-- the order of two texts, character by character; a text stands before its extensions
abbrev pub order : List ℕ → List ℕ → ℤ
order [] [] = pos 0
order [] (y ∷ ys) = negsuc 0
order (x ∷ xs) [] = pos 1
order (x ∷ xs) (y ∷ ys) = if x == y then order xs ys else if ltb x y then negsuc 0 else pos 1

strncmp-order :
    (n : ℕ) (xs ys : List ℕ)
    → IsText xs
    → IsText ys
    → (length xs < n) ⊎ (length ys < n)
    → strncmp n (closed xs) (closed ys) ≡ ok (order xs ys)
unfolding strncmp
strncmp-order zero xs ys t u enough = absurd (ground (arith, enough))
strncmp-order (suc n) [] [] t u enough = refl
strncmp-order (suc n) [] (y ∷ ys) t u enough = ground (arith, u)
strncmp-order (suc n) (x ∷ xs) [] t u enough = ground (arith, t)
strncmp-order (suc n) (x ∷ xs) (y ∷ ys) t u enough =
    let rest = strncmp-order n xs ys t.1 u.1 (ground (arith, enough)) in
    let some_x : (x == 0) ≡ false = ground (arith, t) in
    elim (Bool-cases (x == y)) [ inl e ↦ rw (e, some_x) rest | inr e ↦ rw e refl ]

-- string_cmp gives the sign of the order of the two texts: 0 for equal texts only.
pub string_cmp-order :
    (s : Texts) (str str2 : String) (xs ys : List ℕ)
    → HoldsText s str xs
    → HoldsText s str2 ys
    → string_cmp str str2 s ≡ ok (order xs ys)
unfolding string_cmp
string_cmp-order s str str2 xs ys h k =
    rw (read-HoldsText s str xs h, read-HoldsText s str2 ys k)
      (strncmp-order ((if ltb str.len str2.len then str.len else str2.len) + 1) xs ys h.text k.text
        (ground (arith, h.len_is, k.len_is)))

strncpy-all : (cs : List ℕ) → IsText cs → strncpy (suc (length cs)) (closed cs) ≡ ok (closed cs)
unfolding strncpy
strncpy-all [] t = refl
strncpy-all (c ∷ cs) t =
    let some_c : (c == 0) ≡ false = ground (arith, t) in rw (some_c, strncpy-all cs t.1) refl

empty_text : (cs : List ℕ) → length cs ≡ 0 → cs ≡ []
empty_text [] e = refl
empty_text (c ∷ cs) e = absurd (omega (arith, e))

-- the blocks without one of them
abbrev without : ℕ → Texts → Texts
without p s = record s { block = λ q. if q == p then none else s.block q }

without-HoldsText :
    (s : Texts) (src : String) (ys : List ℕ) (p : ℕ)
    → HoldsText s src ys
    → src.chars ≢ some p
    → HoldsText (without p s) src ys
without-HoldsText s src ys p k apart = record {
  text = k.text;
  len_is = k.len_is;
  chars_are = elim k.chars_are [
    | inl z ↦ inl z
    | inr (ne, (q, e, there, old)) ↦
        let other_block : (q == p) ≡ false = ne→== (λ same. apart (e ∙ ap some same)) in
        inr (ne, (q, e, rw other_block there, old))
  ];
}
  where
    ne→== : {q : ℕ} → q ≢ p → (q == p) ≡ false
    ne→== {q = q} ne = ground (arith, ne)

module _ (s : Texts) (src : String) (ys : List ℕ) (k : HoldsText s src ys)
    (some_chars : src.len ≢ 0) where
  abbrev with_copy : Texts
  with_copy = record s {
    block = λ q. if q == s.next then some (closed ys) else s.block q;
    next = suc s.next;
  }

  copied-HoldsText :
      HoldsText with_copy (record { chars = some s.next; len = src.len }) ys
      × HoldsText with_copy src ys
  copied-HoldsText = (
    record {
      text = k.text;
      len_is = k.len_is;
      chars_are = inr (some_chars, (s.next, refl, rw (self s.next) refl, omega arith));
    },
    record {
      text = k.text;
      len_is = k.len_is;
      chars_are = elim k.chars_are [
        | inl z ↦ inl z
        | inr (ne, (q, e, there, old)) ↦
            let before : (q == s.next) ≡ false = ground (arith, old) in
            inr (ne, (q, e, rw before there, omega (arith, old)))
      ];
    },
  )
    where
      self : (q : ℕ) → (q == q) ≡ true
      self q = ground arith

  copy_of-ok : src.len + 1 ≤ s.avail → copy_of (src.len + 1) (closed ys) s ≡ ok (s.next, with_copy)
  unfolding copy_of
  copy_of-ok memory =
      let size : (src.len + 1) ≡ suc (length ys) = omega (arith, k.len_is) in
      rw (le→ltb s.avail (src.len + 1) memory, copy_of, size, strncpy-all ys k.text) refl

-- string_cpy of two strings in blocks of their own, if `malloc` can give the length of the source
-- and one: both then hold the text of the source.
pub string_cpy-HoldsText :
    (s : Texts) (str src : String) (xs ys : List ℕ)
    → HoldsText s str xs
    → HoldsText s src ys
    → ((p : ℕ) → str.chars ≡ some p → src.chars ≢ some p)
    → src.len + 1 ≤ s.avail
    → Returns (λ (str', s'). HoldsText s' str' ys × HoldsText s' src ys) (string_cpy str src s)
unfolding string_cpy release
string_cpy-HoldsText s str src xs ys h k apart memory = elim h.chars_are [
  | inl (e, e') ↦ elim k.chars_are [
    | inl (z, z') ↦
        let none_left : ys ≡ [] = empty_text ys (sym k.len_is ∙ z) in
        let no_src : (src.len == 0) ≡ true = ground (arith, z) in
        let no_str : (str.len == 0) ≡ true = ground (arith, e) in
        rw (no_src, no_str)
          (returns
            (record { text = k.text; len_is = e ∙ sym z ∙ k.len_is; chars_are = inl (e, e') }, k))
    | inr (ne, there) ↦
        let some_src : (src.len == 0) ≡ false = ground (arith, ne) in
        let no_str : (str.len == 0) ≡ true = ground (arith, e) in
        rw (some_src, no_str)
          (rw (read-HoldsText s src ys k, copy_of-ok s src ys k ne memory)
            (returns (copied-HoldsText s src ys k ne)))
  ]
  | inr (ne', (p, e, there, old)) ↦
      let some_str : (str.len == 0) ≡ false = ground (arith, ne') in
      let k1 = without-HoldsText s src ys p k (apart p e) in
      elim k.chars_are [
        | inl (z, z') ↦
            let no_src : (src.len == 0) ≡ true = ground (arith, z) in
            rw (no_src, some_str, e, release, there)
              (returns (
                record { text = k.text; len_is = sym z ∙ k.len_is; chars_are = inl (refl, refl) },
                k1,
              ))
        | inr (ne, src_there) ↦
            let some_src : (src.len == 0) ≡ false = ground (arith, ne) in
            rw (some_src, some_str, e, release, there)
              (rw
                (
                  read-HoldsText (without p s) src ys k1,
                  copy_of-ok (without p s) src ys k1 ne memory,
                )
                (returns (copied-HoldsText (without p s) src ys k1 ne)))
      ]
]

strlen-closed : (cs : List ℕ) → IsText cs → strlen (closed cs) ≡ ok (length cs)
unfolding strlen
strlen-closed [] t = refl
strlen-closed (c ∷ cs) t =
    let some_c : (c == 0) ≡ false = ground (arith, t) in rw (some_c, strlen-closed cs t.1) refl

-- open_string_with_data gives a string that holds a copy of the text, if `malloc` can give its
-- length and one.
pub open_string_with_data-HoldsText :
    (s : Texts) (cs : List ℕ)
    → IsText cs
    → length cs + 1 ≤ s.avail
    → Returns
        (λ (str, s'). HoldsText s' str cs × (str.len ≡ length cs))
        (open_string_with_data (closed cs) s)
unfolding open_string_with_data copy_of
open_string_with_data-HoldsText s cs t memory =
    rw (strlen-closed cs t) (elim (Bool-cases (length cs == 0)) [
      | inl e ↦ rw e (
          returns (
            record { text = t; len_is = sym (==→eq _ _ e); chars_are = inl (refl, refl) },
            sym (==→eq _ _ e),
          ))
      | inr e ↦
          let size : (length cs + 1) ≡ suc (length cs) = omega arith in
          let self : (s.next == s.next) ≡ true = ground arith in
          rw e (
            rw (le→ltb s.avail (length cs + 1) memory, copy_of, size, strncpy-all cs t)
              (returns (
                record {
                  text = t;
                  len_is = refl;
                  chars_are = inr (==→ne _ _ e, (s.next, refl, rw self refl, omega arith));
                },
                refl,
              )))
    ])
