-- ===== src/RbTree/Colours.antt =====
-- The colours: no red node has a red child, and every way down has as many black nodes.
use c_algorithm.Base.{ℕ, ◌+◌, ◌≤◌, ◌≡◌, ◌≢◌, true, false, if◌then◌else◌}
use c_algorithm.RbTree.{RbTree, Side, leaf}
use c_algorithm.RbTree.Links.{IsNode}

-- `height p` counts the black nodes on a way down from `p`, and is `bound` at most. The node
-- `exempt` may be red under a red parent, and the root may be red only if it is exempt.
pub record Coloured (tr : RbTree) (height : ℕ → ℕ) (bound exempt : ℕ) : Type 0 where
  pub leaf_black : tr.red leaf ≡ false
  pub leaf_height : height leaf ≡ 0
  pub bounded : (p : ℕ) → IsNode tr p → height p ≤ bound
  pub even :
      (s : Side) (p : ℕ)
      → IsNode tr p
      → height p ≡ height (tr.child s p) + (if tr.red p then 0 else 1)
  pub no_red_red :
      (s : Side) (p : ℕ)
      → IsNode tr p
      → tr.red p ≡ true
      → tr.child s p ≢ exempt
      → tr.red (tr.child s p) ≡ false
  pub root_black : tr.root ≢ exempt → tr.red tr.root ≡ false
