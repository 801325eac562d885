-- ===== src/Memory/Copy.antt =====
-- What a copy between arrays leaves, entry by entry.
use c_algorithm.Base.{
  ℕ, ◌+◌, ◌-◌, ◌≤◌, ◌<◌, ◌≡◌, ◌∙◌, ◌⊎◌, inl, inr, List, ◌++◌, arith, length, take, drop,
  length-append, length-take, length-drop, get_or-append, get_or-take, get_or-drop, leb, ltb, Value,
  at, Returns, returns, true, false,
}
use c_algorithm.Memory.{copy}

-- `d` is `dst` but for the `n` entries from `to` on, which are those of `src` from `from` on
pub record Copied (src : List Value) (from n : ℕ) (dst : List Value) (to : ℕ) (d : List Value)
    : Type 0 where
  pub size : length d ≡ length dst
  pub moved : (k m : ℕ) → from ≤ k → k < from + n → k + to ≡ m + from → at d m ≡ at src k
  pub kept : (m : ℕ) → (m < to) ⊎ (to + n ≤ m) → at d m ≡ at dst m

pub copy-Copied :
    (src : List Value) (from n : ℕ) (dst : List Value) (to : ℕ)
    → from + n ≤ length src
    → to + n ≤ length dst
    → Returns (Copied src from n dst to) (copy src from n dst to)
unfolding copy
copy-Copied src from n dst to h w =
    let fits : leb (from + n) (length src) ≡ true = ground arith in
    let fits' : leb (to + n) (length dst) ≡ true = ground arith in
    rw (fits, fits') (returns (record { size = size; moved = moved; kept = kept }))
  where
    head : length (take to dst) ≡ to
    head = omega (arith, length-take to dst)

    middle : length (take n (drop from src)) ≡ n
    middle = omega (arith, length-take n (drop from src), length-drop from src)

    tail : List Value
    tail = take n (drop from src) ++ drop (to + n) dst

    size : length (take to dst ++ tail) ≡ length dst
    size = omega (
      arith,
      head,
      middle,
      length-append (take to dst) tail,
      length-append (take n (drop from src)) (drop (to + n) dst),
      length-drop (to + n) dst,
    )

    moved :
        (k m : ℕ)
        → from ≤ k
        → k < from + n
        → k + to ≡ m + from
        → at (take to dst ++ tail) m ≡ at src k
    moved k m lo hi e =
        let past : ltb m (length (take to dst)) ≡ false = ground (arith, head) in
        let within : ltb (m - length (take to dst)) (length (take n (drop from src))) ≡ true =
          ground (arith, head, middle) in
        get_or-append (take to dst) tail m 0
        ∙ rw
            (
              past,
              get_or-append (take n (drop from src)) (drop (to + n) dst) (m - length (take to dst))
                  0,
              within,
            )
            (get_or-take n (drop from src) (m - length (take to dst)) 0 (omega (arith, head))
              ∙ get_or-drop from src (m - length (take to dst)) k 0 (omega (arith, head)))

    kept : (m : ℕ) → (m < to) ⊎ (to + n ≤ m) → at (take to dst ++ tail) m ≡ at dst m
    kept m (inl x) =
        let before : ltb m (length (take to dst)) ≡ true = ground (arith, head) in
        get_or-append (take to dst) tail m 0 ∙ rw before (get_or-take to dst m 0 x)
    kept m (inr x) =
        let past : ltb m (length (take to dst)) ≡ false = ground (arith, head) in
        let past' : ltb (m - length (take to dst)) (length (take n (drop from src))) ≡ false =
          ground (arith, head, middle) in
        get_or-append (take to dst) tail m 0
        ∙ rw
            (
              past,
              get_or-append (take n (drop from src)) (drop (to + n) dst) (m - length (take to dst))
                  0,
              past',
            )
            (get_or-drop (to + n) dst (m - length (take to dst) - length (take n (drop from src))) m
              0 (omega (arith, head, middle)))
