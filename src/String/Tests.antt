-- ===== src/String/Tests.antt =====
-- Short strings, and the theorems at them.
use c_algorithm.Base.{
  ℕ, ◌≡◌, refl, sym, ap, ◌∙◌, arith, ◌==◌, if◌then◌else◌, [], ◌∷◌, Option, none, some, inr, ok,
  fault, bounds, ◌>>=◌, Returns,
}
use c_algorithm.String.{Texts, String, read, release, string_clear, string_cpy, string_cmp}
use c_algorithm.String.Copy.{HoldsText, order, string_cmp-order, string_cpy-HoldsText}

abbrev texts : Texts
texts = record {
  block =
      λ p. if p == 1 then some (7 ∷ 8 ∷ 0 ∷ []) else if p == 2 then some (7 ∷ 9 ∷ 0 ∷ []) else none;
  next = 3;
  avail = 100;
}

abbrev first : String
first = record { chars = some 1; len = 2 }

abbrev second : String
second = record { chars = some 2; len = 2 }

first-HoldsText : HoldsText texts first (7 ∷ 8 ∷ [])
first-HoldsText = record {
  text = ((λ e. omega (arith, e)), ((λ e. omega (arith, e)), tt));
  len_is = refl;
  chars_are = inr ((λ e. omega (arith, e)), (1, refl, refl, omega arith));
}

second-HoldsText : HoldsText texts second (7 ∷ 9 ∷ [])
second-HoldsText = record {
  text = ((λ e. omega (arith, e)), ((λ e. omega (arith, e)), tt));
  len_is = refl;
  chars_are = inr ((λ e. omega (arith, e)), (2, refl, refl, omega arith));
}

string_cmp-order_example : string_cmp first second texts ≡ ok (order (7 ∷ 8 ∷ []) (7 ∷ 9 ∷ []))
string_cmp-order_example =
    string_cmp-order texts first second (7 ∷ 8 ∷ []) (7 ∷ 9 ∷ []) first-HoldsText second-HoldsText

-- the block of a `some`
abbrev address : Option ℕ → ℕ
address none = 0
address (some p) = p

string_cpy-HoldsText_example :
    Returns
      (λ (str', s'). HoldsText s' str' (7 ∷ 9 ∷ []) × HoldsText s' second (7 ∷ 9 ∷ []))
      (string_cpy first second texts)
string_cpy-HoldsText_example =
    string_cpy-HoldsText texts first second (7 ∷ 8 ∷ []) (7 ∷ 9 ∷ []) first-HoldsText
      second-HoldsText (λ p e e'. omega (arith, ap address (e' ∙ sym e))) (omega arith)

-- a string that was cleared still points to the block that was freed
clear_then_cmp : (string_clear first texts >>= λ (str, s). string_cmp str second s) ≡ fault bounds
unfolding string_clear string_cmp read release
clear_then_cmp = refl
