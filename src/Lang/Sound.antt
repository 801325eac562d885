-- ===== src/Lang/Sound.antt =====
-- The evaluation of an expression that has a type.
use c_algorithm.Lang.{Interpreter, Eval}
use c_algorithm.Lang.Types.{ExpressionTy, Sound}

-- an evaluation that is sound from every state
abbrev pub SoundFor : ExpressionTy → Eval (Unit {0}) → Type 0
SoundFor t m = (s : Interpreter) → Sound t s (m s)
