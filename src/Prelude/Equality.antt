-- ===== src/Prelude/Equality.antt =====
-- `==` as an interface with its law, and the instance for text.
use Prim.Native.String.{String}
use mathlib.Core.Path.{◌≡◌}
use mathlib.Core.Logic.{◌↔◌}
use mathlib.Core.Bool.{Bool, true}
use text.Mathlib.TextEquality.{eq_iff}
use text.Mathlib.Text

-- A class with an `__eq__` that answers True on equal values alone.
pub record Eq {κ} (K : Type κ) : Type κ where
  pub equals : (left right : K) → Bool
  pub equals_iff : (left right : K) → (equals left right ≡ true) ↔ (left ≡ right)

infix 45 ◌==◌
abbrev pub ◌==◌ {κ} : {K : Type κ} ⦃by_class : Eq K⦄ (left right : K) → Bool
◌==◌ ⦃by_class⦄ left right = by_class.equals left right

instance abbrev pub text_equality : Eq String
text_equality = record { equals = λ left right. Text.◌==◌ left right; equals_iff = eq_iff }
