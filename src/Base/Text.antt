-- ===== src/Base/Text.antt =====
-- Equality of texts as a decision, for keys of maps and names of fields.
use Prim.Native.String.{String}
use mathlib.Core.Path.{◌≡◌, refl}
use mathlib.Core.Logic.{◌↔◌}
use mathlib.Core.Bool.{Bool, true, false}
use text.Mathlib.Text.{◌==◌ as str_eq}
use text.Mathlib.TextEquality.{eq_iff}

unfoldable pub of_test : {P : Type 0} (b : Bool) → (b ≡ true) ↔ P → Dec P
of_test true h = yes (h.0 refl)
of_test false h = no (λ p. cc (h.1 p))

unfoldable pub text_discrete : Discrete String
unfolding of_test
text_discrete s t = of_test (str_eq s t) (eq_iff s t)

unfoldable pub same_text : String → String → Bool
same_text s t = str_eq s t

pub same_text_iff : (s t : String) → (same_text s t ≡ true) ↔ (s ≡ t)
unfolding same_text
same_text_iff s t = eq_iff s t
