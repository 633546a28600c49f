-- ===== src/Base/Dict.antt =====
-- A Go map with text keys, as an association list in which the first entry of a key counts.
use Prim.Native.String.{String}
use mathlib.Core.Path.{◌≡◌, refl}
use mathlib.Core.Logic.{ite}
use mathlib.Core.Option.{Option, none, some}
use mathlib.Core.List.{List, [], ◌∷◌}
use native.Mathlib.Omega.{arith}
use tracing_proxy.Base.Text.{text_discrete}

module _ {ℓ} {V : Type ℓ} where
  unfoldable pub lookup : String → List (String × V) → Option V
  unfolding text_discrete
  lookup k [] = none
  lookup k ((j, v) ∷ m) = ite (text_discrete j k) (some v) (lookup k m)

  unfoldable pub insert : String → V → List (String × V) → List (String × V)
  unfolding text_discrete
  insert k v [] = (k, v) ∷ []
  insert k v ((j, w) ∷ m) = ite (text_discrete j k) ((k, v) ∷ m) ((j, w) ∷ insert k v m)

  unfoldable pub delete : String → List (String × V) → List (String × V)
  unfolding text_discrete
  delete k [] = []
  delete k ((j, w) ∷ m) = ite (text_discrete j k) (delete k m) ((j, w) ∷ delete k m)

  -- Reading after a write.
  pub lookup-insert :
      (k j : String) (v : V) (m : List (String × V))
      → lookup j (insert k v m) ≡ ite (text_discrete k j) (some v) (lookup j m)
  unfolding lookup insert
  lookup-insert k j v [] = refl
  lookup-insert k j v ((i, w) ∷ m) = ground (arith, lookup-insert k j v m)

  -- Reading after a removal.
  pub lookup-delete :
      (k j : String) (m : List (String × V))
      → lookup j (delete k m) ≡ ite (text_discrete k j) none (lookup j m)
  unfolding lookup delete
  lookup-delete k j [] = ground arith
  lookup-delete k j ((i, w) ∷ m) = ground (arith, lookup-delete k j m)
