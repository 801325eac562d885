-- ===== src/RbTree/Balanced.antt =====
-- The red-black tree as a whole: linked, ordered and coloured; and what painting a node keeps.
use c_algorithm.Base.{ℕ, ◌≡◌, ◌∙◌, refl, Bool, Value}
use c_algorithm.Order.{Compare}
use c_algorithm.RbTree.{RbTree, set_red}
use c_algorithm.RbTree.Links.{Linked, Ordered}
use c_algorithm.RbTree.Colours.{Coloured}

-- Every way down from the root has at most `bound` black nodes; `exempt` may be red under a red parent.
pub record Balanced (cmp : Compare) (tr : RbTree) (bound exempt : ℕ) : Type 0 where
  pub admits : ℕ → Value → Bool
  pub height : ℕ → ℕ
  pub linked : Linked tr
  pub ordered : Ordered tr cmp admits
  pub coloured : Coloured tr height bound exempt

-- the same nodes with the same values
pub record Same (tr tr' : RbTree) : Type 0 where
  pub same_value : (q : ℕ) → tr'.value q ≡ tr.value q
  pub same_allocated : (q : ℕ) → tr'.allocated q ≡ tr.allocated q
  pub same_rest : (tr'.unused ≡ tr.unused) × (tr'.room ≡ tr.room) × (tr'.length ≡ tr.length)

pub Same-refl : (tr : RbTree) → Same tr tr
Same-refl tr = record {
  same_value = λ q. refl;
  same_allocated = λ q. refl;
  same_rest = (refl, refl, refl);
}

pub Same-trans : {a b c : RbTree} → Same a b → Same b c → Same a c
Same-trans s t = record {
  same_value = λ q. t.same_value q ∙ s.same_value q;
  same_allocated = λ q. t.same_allocated q ∙ s.same_allocated q;
  same_rest =
      (t.same_rest.0 ∙ s.same_rest.0, t.same_rest.1 ∙ s.same_rest.1, t.same_rest.2 ∙ s.same_rest.2);
}

pub set_red-Linked : (q : ℕ) (c : Bool) {tr : RbTree} → Linked tr → Linked (set_red q c tr)
set_red-Linked q c l = record {
  leaf_there = l.leaf_there;
  no_null = l.no_null;
  root_there = l.root_there;
  down = l.down;
  apart = l.apart;
  up = l.up;
}

pub set_red-Ordered :
    (q : ℕ) (c : Bool) {tr : RbTree} {cmp : Compare} {admits : ℕ → Value → Bool}
    → Ordered tr cmp admits
    → Ordered (set_red q c tr) cmp admits
set_red-Ordered q c r = record { own = r.own; full = r.full; split = r.split }

pub set_red-Same : (q : ℕ) (c : Bool) (tr : RbTree) → Same tr (set_red q c tr)
set_red-Same q c tr = record {
  same_value = λ p. refl;
  same_allocated = λ p. refl;
  same_rest = (refl, refl, refl);
}
