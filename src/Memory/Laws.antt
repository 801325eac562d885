-- ===== src/Memory/Laws.antt =====
-- Accesses to memory that is there, and the invariant under writes.
use c_algorithm.Base.{
  ℕ, ◌<◌, ◌≡◌, ◌≢◌, some, arith, ok, ◌==◌, inl, inr, Bool-cases, ==→eq, Run, ◌>>=◌, Returns,
  returns,
}
use c_algorithm.Memory.{Block, Store, IsStore, deref, write}

-- only the array at `p` differs
abbrev pub SameBut : ℕ → Store → Store → Type 0
SameBut p s s' = (q : ℕ) → q ≢ p → s'.block q ≡ s.block q

pub deref-ok : (p : ℕ) (s : Store) (b : Block) → 0 < p → s.block p ≡ some b → deref p s ≡ ok (b, s)
unfolding deref
deref-ok p s b h e = ground arith

pub write-SameBut : (p : ℕ) (b : Block) (s : Store) → SameBut p s (write p (some b) s)
write-SameBut p b s q ne = ground arith

-- a write into an array that is there keeps the memory well-formed
pub write-IsStore :
    (p : ℕ) (b c : Block) (s : Store)
    → IsStore s
    → s.block p ≡ some b
    → IsStore (write p (some c) s)
write-IsStore p b c s i found = record {
  fresh = λ q h. elim (Bool-cases (q == p)) [
    | inl e ↦ absurd (ground (arith, i.fresh p, ==→eq q p e))
    | inr e ↦ rw e (i.fresh q h)
  ];
  not_null = i.not_null;
  bounded = i.bounded;
}

-- a call that does not touch the memory, and then another
pub Returns-lift :
    {A C : Type 0} {P : A → Type 0} {Q : C → Type 0} {run : Run A} {s : Store}
    (after : A × Store → Run C)
    → Returns P run
    → ((v : A) → P v → Returns Q (after (v, s)))
    → Returns Q (run >>= (λ v. ok (v, s)) >>= after)
Returns-lift after (returns holds) next = next _ holds
