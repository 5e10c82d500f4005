-- ===== src/Common/Dict.antt =====
-- Python's `dict` with text keys, in insertion order: an association list whose first entry for a
-- key is its value. `put` overwrites in place, as `d[k] = v` does.
use mathlib.Core.Path.{◌≡◌, refl}
use mathlib.Core.List.{List, [], ◌∷◌}
use mathlib.Core.Option.{Option, none, some}
use native.Mathlib.Omega.{arith}
use pybotx.Common.Tests.{if◌then◌else◌}
use pybotx.Common.Text.{Str, str_eq, str_eq_iff}

module _ {ℓ} {V : Type ℓ} where
  unfoldable pub lookup : Str → List (Str × V) → Option V
  unfolding str_eq
  lookup k [] = none
  lookup k ((j, v) ∷ m) = if str_eq j k then some v else lookup k m

  unfoldable pub put : Str → V → List (Str × V) → List (Str × V)
  unfolding str_eq
  put k v [] = (k, v) ∷ []
  put k v ((j, w) ∷ m) = if str_eq j k then (j, v) ∷ m else (j, w) ∷ put k v m

  pub lookup-put :
      (k j : Str) (v : V) (m : List (Str × V))
      → lookup j (put k v m) ≡ (if str_eq k j then some v else lookup j m)
  unfolding lookup put
  lookup-put k j v [] = refl
  lookup-put k j v ((i, w) ∷ m) =
      ground (arith, str_eq_iff k j, str_eq_iff i k, str_eq_iff i j, lookup-put k j v m)
