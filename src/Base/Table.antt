-- ===== src/Base/Table.antt =====
-- A table with a text primary key, as the list of its rows in insertion order.
use Prim.Native.String.{String}
use mathlib.Core.Path.{◌≡◌, refl}
use mathlib.Core.Option
use mathlib.Core.Option.{Option, none, some}
use mathlib.Core.List.{List, [], ◌∷◌, ◌++◌}
use native.Mathlib.Omega.{arith}
use text.Mathlib.Text.{◌==◌ as str_eq}
use text.Mathlib.TextEquality.{eq_iff as str_eq_iff}
use japan_agent.Base.Tests.{if◌then◌else◌}

abbrev pub Table {ℓ} : Type ℓ → Type ℓ
Table V = List (String × V)

module _ {ℓ} {V : Type ℓ} where
  -- SELECT * FROM t WHERE key = ?
  unfoldable pub lookup : String → Table V → Option V
  lookup k [] = none
  lookup k ((j, v) ∷ rows) = if str_eq j k then some v else lookup k rows

  -- INSERT INTO t VALUES (key, …), for a key that no row has
  unfoldable pub insert : String → V → Table V → Table V
  insert k v rows = rows ++ (k, v) ∷ []

  -- UPDATE t SET … WHERE key = ?
  unfoldable pub update : String → (V → V) → Table V → Table V
  update k f [] = []
  update k f ((j, v) ∷ rows) = (if str_eq j k then (j, f v) else (j, v)) ∷ update k f rows

  pub lookup-insert :
      (j k : String) (v : V) (rows : Table V)
      → lookup k rows ≡ none
      → lookup j (insert k v rows) ≡ (if str_eq k j then some v else lookup j rows)
  unfolding lookup insert
  lookup-insert j k v [] h = refl
  lookup-insert j k v ((i, w) ∷ rows) h =
      ground (arith, str_eq_iff i k, str_eq_iff i j, str_eq_iff k j, lookup-insert j k v rows)

  pub lookup-update :
      (j k : String) (f : V → V) (rows : Table V)
      → lookup j (update k f rows)
        ≡ (if str_eq k j then Option.map f (lookup j rows) else lookup j rows)
  unfolding lookup update
  lookup-update j k f [] = ground arith
  lookup-update j k f ((i, w) ∷ rows) =
      ground (arith, str_eq_iff i k, str_eq_iff i j, str_eq_iff k j, lookup-update j k f rows)
