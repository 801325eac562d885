-- ===== src/RbTree/Sides.antt =====
-- The two sides of a node, for what is said of one side and of the other.
use c_algorithm.Base.{ℕ, ◌≡◌, ◌⊎◌, inl, inr, refl, true, false}
use c_algorithm.RbTree.{Side, lhs, rhs, other, same_side}

pub same_side_self : (s : Side) → same_side s s ≡ true
same_side_self lhs = refl
same_side_self rhs = refl

pub same_side-other : (s : Side) → same_side s (other s) ≡ false
same_side-other lhs = refl
same_side-other rhs = refl

pub same_side_flipped : (s : Side) → same_side (other s) s ≡ false
same_side_flipped lhs = refl
same_side_flipped rhs = refl

pub up_side :
    {b : ℕ} (f : Side → ℕ) (s : Side) → (f lhs ≡ b) ⊎ (f rhs ≡ b) → (f s ≡ b) ⊎ (f (other s) ≡ b)
up_side f lhs u = u
up_side f rhs (inl e) = inr e
up_side f rhs (inr e) = inl e

pub both_sides : (P : Side → Type 0) (s : Side) → P s → P (other s) → (t : Side) → P t
both_sides P lhs near far lhs = near
both_sides P lhs near far rhs = far
both_sides P rhs near far lhs = far
both_sides P rhs near far rhs = near

pub sides_up :
    {b : ℕ} (f : Side → ℕ) (s : Side) → (f s ≡ b) ⊎ (f (other s) ≡ b) → (f lhs ≡ b) ⊎ (f rhs ≡ b)
sides_up f lhs u = u
sides_up f rhs (inl e) = inr e
sides_up f rhs (inr e) = inl e

pub other-other : (s : Side) → other (other s) ≡ s
other-other lhs = refl
other-other rhs = refl
