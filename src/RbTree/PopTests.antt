-- ===== src/RbTree/PopTests.antt =====
-- A tree in which a black node is missing, and the loop of rbtree_fast_pop at it.
use c_algorithm.Base.{
  Bool, Value, ◌≢◌, ◌&&◌, ◌⊎◌, inl, inr, ◌≤◌, is_pos, ℕ, ◌+◌, ◌≡◌, refl, arith, ◌==◌, if◌then◌else◌,
  true, false, Returns,
}
use c_algorithm.RbTree.{Side, other, lhs, rhs, RbTree, leaf}
use c_algorithm.RbTree.Links.{before, IsNode, Linked}
use c_algorithm.RbTree.Pop.{pop_fixup}
use c_algorithm.RbTree.Deficit.{Deficit}
use c_algorithm.RbTree.Mend.{Mended, pop_fixup-Mended}
use c_algorithm.RbTree.Tests.{by_number, by_number-IsThreeWay}

-- 5 above 7, both black: to the left of 5 a black node is missing
abbrev lame : RbTree
lame = record {
  value = λ p. if p == 2 then 5 else if p == 3 then 7 else 0;
  red = λ p. false;
  parent = λ p. if p == 3 then 2 else if p == leaf then 2 else 0;
  child = λ s p. if p == 2 then elim s [ lhs ↦ leaf | rhs ↦ 3 ] else if p == 3 then leaf else 0;
  allocated = λ p. if p == 2 then true else if p == 3 then true else p == leaf;
  root = 2;
  length = 2;
  unused = 4;
  room = 10;
}

lame_node : (q : ℕ) → IsNode lame q → (q ≡ 2) ⊎ (q ≡ 3)
lame_node q m = ground (arith, m)

-- what holds of both nodes
lame_both : (P : ℕ → Type 0) → P 2 → P 3 → (q : ℕ) → IsNode lame q → P q
lame_both P two three q m = elim (lame_node q m) [ inl e ↦ rw e two | inr e ↦ rw e three ]

-- the conditions of the links and of the order at one node
abbrev DownAt : Side → ℕ → Type 0
DownAt s k =
    lame.child s k ≢ leaf
    → (lame.allocated (lame.child s k) ≡ true)
      × (lame.parent (lame.child s k) ≡ k)
      × (lame.child s k ≢ 2)

abbrev ApartAt : Side → ℕ → Type 0
ApartAt s k = lame.child s k ≢ leaf → lame.child s k ≢ lame.child (other s) k

abbrev UpAt : ℕ → Type 0
UpAt q =
    q ≢ 2
    → IsNode lame (lame.parent q)
      × ((lame.child lhs (lame.parent q) ≡ q) ⊎ (lame.child rhs (lame.parent q) ≡ q))

abbrev admitted : ℕ → Value → Bool
admitted q v = if q == 3 then is_pos (by_number v 5) else true

abbrev SplitAt : Side → Value → ℕ → Type 0
SplitAt s v k =
    lame.child s k ≢ leaf
    → admitted (lame.child s k) v ≡ (admitted k v && before by_number s v (lame.value k))

lame_down : (s : Side) (q : ℕ) → IsNode lame q → DownAt s q
lame_down lhs = lame_both (DownAt lhs) (λ ne. absurd (ne refl)) (λ ne. absurd (ne refl))
lame_down rhs =
    lame_both (DownAt rhs) (λ ne. (refl, refl, λ e. omega (arith, e))) (λ ne. absurd (ne refl))

lame_apart : (s : Side) (q : ℕ) → IsNode lame q → ApartAt s q
lame_apart lhs = lame_both (ApartAt lhs) (λ ne. absurd (ne refl)) (λ ne. absurd (ne refl))
lame_apart rhs = lame_both (ApartAt rhs) (λ ne e. omega (arith, e)) (λ ne. absurd (ne refl))

lame_split : (s : Side) (v : Value) (q : ℕ) → IsNode lame q → SplitAt s v q
lame_split lhs v = lame_both (SplitAt lhs v) (λ ne. absurd (ne refl)) (λ ne. absurd (ne refl))
lame_split rhs v = lame_both (SplitAt rhs v) (λ ne. refl) (λ ne. absurd (ne refl))

lame-Linked : Linked lame
lame-Linked = record {
  leaf_there = refl;
  no_null = refl;
  root_there = refl;
  down = lame_down;
  apart = lame_apart;
  up = lame_both UpAt (λ ne. absurd (ne refl)) (λ ne. ((refl, λ e. omega (arith, e)), inr refl));
}

abbrev level : ℕ → ℕ
level q = if q == 2 then 2 else if q == 3 then 1 else 0

lame-Deficit : Deficit by_number lame 2 lhs 2 leaf
lame-Deficit = record {
  admits = admitted;
  height = level;
  linked = lame-Linked;
  ordered = record {
    own = lame_both (λ q. admitted q (lame.value q) ≡ true) refl refl;
    full = λ v ne. refl;
    split = λ s q v m. lame_split s v q m;
  };
  p_node = (refl, λ e. omega (arith, e));
  down = refl;
  back = refl;
  temp_inner = λ e. omega (arith, e);
  leaf_black = refl;
  leaf_height = refl;
  bounded = lame_both (λ q. level q ≤ 2) (omega arith) (omega arith);
  even_near =
      lame_both (λ k. level k ≡ level (lame.child lhs k) + 1 + (if k == 2 then 1 else 0)) refl refl;
  even_far = lame_both (λ k. level k ≡ level (lame.child rhs k) + 1) refl refl;
  red_near = λ q m r ne ne'. refl;
  red_far = λ q m r ne. refl;
  root_black = refl;
}

pop_fixup-Mended_example :
    Returns
      (λ (temp', tr'). Mended by_number by_number-IsThreeWay lame tr' 2 temp')
      (pop_fixup 5 leaf lame)
pop_fixup-Mended_example =
    pop_fixup-Mended by_number by_number-IsThreeWay 5 lame 2 lhs 2 leaf lame-Deficit
      (inl (omega arith))
