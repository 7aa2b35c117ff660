-- ===== src/Common/Text.antt =====
-- Equality of texts: a Boolean test, and a decision.
use Prim.Native.String.{String}
use mathlib.Core.Path.{◌≡◌, sym, ◌∙◌}
use mathlib.Core.Bool.{Bool, true, false≢true}
use mathlib.Core.Logic.{inl, inr, ◌↔◌}
use mathlib.Core.HLevel.{hedberg}
use text.Mathlib.Text.{◌==◌ as text_eq}
use text.Mathlib.TextEquality.{eq_iff}
use govertone.Common.Tests.{Bool-cases}

abbrev pub str_eq : String → String → Bool
str_eq = text_eq

pub str_eq_iff : (a b : String) → (str_eq a b ≡ true) ↔ (a ≡ b)
str_eq_iff = eq_iff

pub String-discrete : Discrete String
String-discrete a b = elim (Bool-cases (str_eq a b)) [
  | inl e ↦ yes ((eq_iff a b).0 e)
  | inr e ↦ no (λ same. false≢true (sym e ∙ (eq_iff a b).1 same))
]

pub String-set : IsSet String
String-set = hedberg String-discrete
