-- ===== src/Base/Maps.antt =====
-- `HashMap<String, V>` as an association list with at most one entry for a key.
use Prim.Native.String.{String}
use mathlib.Core.Path.{◌≡◌, refl}
use mathlib.Core.Bool.{Bool, false, ◌||◌}
use mathlib.Core.Option.{Option, none, some}
use mathlib.Core.List.{List, [], ◌∷◌}
use native.Mathlib.Omega.{arith}
use text.Mathlib.Text.{◌==◌}
use text.Mathlib.TextEquality.{eq_iff}
use sol_rpc_router.Base.Tests.{if◌then◌else◌}

abbrev pub HashMap {ℓ} : Type ℓ → Type ℓ
HashMap V = List (String × V)

module _ {ℓ} {V : Type ℓ} where
  unfoldable pub get : String → HashMap V → Option V
  get k [] = none
  get k ((j, v) ∷ m) = if j == k then some v else get k m

  unfoldable pub insert : String → V → HashMap V → HashMap V
  insert k v [] = (k, v) ∷ []
  insert k v ((j, w) ∷ m) = if j == k then (k, v) ∷ m else (j, w) ∷ insert k v m

  unfoldable pub contains_key : String → HashMap V → Bool
  contains_key k [] = false
  contains_key k ((j, _) ∷ m) = j == k || contains_key k m

  pub get-insert :
      (k j : String) (v : V) (m : HashMap V)
      → get j (insert k v m) ≡ (if k == j then some v else get j m)
  unfolding get insert
  get-insert k j v [] = refl
  get-insert k j v ((i, w) ∷ m) =
      ground (arith, eq_iff k j, eq_iff i k, eq_iff i j, get-insert k j v m)

  pub contains_key-insert :
      (k j : String) (v : V) (m : HashMap V)
      → contains_key j (insert k v m) ≡ (k == j || contains_key j m)
  unfolding contains_key insert
  contains_key-insert k j v [] = refl
  contains_key-insert k j v ((i, w) ∷ m) =
      ground (arith, eq_iff k j, eq_iff i k, eq_iff i j, contains_key-insert k j v m)
