-- ===== src/Prelude/Maps.antt =====
-- A Go map with string keys, as an association list. The order of the entries stands for the order
-- in which the runtime would range over the map; a theorem about every list covers every order.
use Prim.Native.String.{String}
use mathlib.Core.Path.{◌≡◌, refl}
use mathlib.Core.Logic.{◌≢◌, ite}
use mathlib.Core.Option.{Option, none, some}
use mathlib.Core.List.{List, [], ◌∷◌}
use native.Mathlib.Omega.{arith}
use piko.Prelude.Tests.{same}

abbrev pub Map {ℓ} : Type ℓ → Type ℓ
Map V = List (String × V)

module _ {ℓ} {V : Type ℓ} where
  -- m[k], with its `ok`
  unfoldable pub lookup : String → Map V → Option V
  lookup k [] = none
  lookup k ((j, v) ∷ m) = ite (same j k) (some v) (lookup k m)

  -- m[k] = v
  unfoldable pub insert : String → V → Map V → Map V
  insert k v [] = (k, v) ∷ []
  insert k v ((j, w) ∷ m) = ite (same j k) ((j, v) ∷ m) ((j, w) ∷ insert k v m)

  -- delete(m, k)
  unfoldable pub remove : String → Map V → Map V
  remove k [] = []
  remove k ((j, v) ∷ m) = let rest = remove k m in ite (same j k) rest ((j, v) ∷ rest)

  pub lookup-insert :
      (k j : String) (v : V) (m : Map V)
      → lookup j (insert k v m) ≡ ite (same k j) (some v) (lookup j m)
  unfolding lookup insert
  lookup-insert k j v [] = ground arith
  lookup-insert k j v ((i, w) ∷ m) = ground (arith, lookup-insert k j v m)

  pub lookup-remove :
      (k j : String) (m : Map V) → lookup j (remove k m) ≡ ite (same k j) none (lookup j m)
  unfolding lookup remove
  lookup-remove k j [] = ground arith
  lookup-remove k j ((i, w) ∷ m) = ground (arith, lookup-remove k j m)

  -- The values, in the order of a range over the map.
  abbrev pub values : Map V → List V
  values [] = []
  values ((k, v) ∷ m) = v ∷ values m

  abbrev pub keys : Map V → List String
  keys [] = []
  keys ((k, v) ∷ m) = k ∷ keys m

  -- No key stands twice.
  abbrev pub Absent : String → Map V → Type 0
  Absent k [] = Unit {0}
  Absent k ((j, v) ∷ m) = (j ≢ k) × Absent k m

  abbrev pub IsMap : Map V → Type 0
  IsMap [] = Unit {0}
  IsMap ((k, v) ∷ m) = Absent k m × IsMap m

  pub lookup-Absent : (k : String) (m : Map V) → Absent k m → lookup k m ≡ none
  unfolding lookup
  lookup-Absent k [] h = refl
  lookup-Absent k ((j, v) ∷ m) h = ground (arith, lookup-Absent k m h.1)

  pub Absent-insert :
      (j k : String) (v : V) (m : Map V) → k ≢ j → Absent j m → Absent j (insert k v m)
  unfolding insert
  Absent-insert j k v [] ne h = (ne, tt)
  Absent-insert j k v ((i, w) ∷ m) ne h = ground (arith, h.0, Absent-insert j k v m ne h.1)

  pub Absent-remove : (j k : String) (m : Map V) → Absent j m → Absent j (remove k m)
  unfolding remove
  Absent-remove j k [] h = tt
  Absent-remove j k ((i, w) ∷ m) h = ground (arith, h.0, Absent-remove j k m h.1)

  pub insert-IsMap : (k : String) (v : V) (m : Map V) → IsMap m → IsMap (insert k v m)
  unfolding insert
  insert-IsMap k v [] h = (tt, tt)
  insert-IsMap k v ((i, w) ∷ m) h = ground (arith, insert-IsMap k v m h.1, Absent-insert i k v m)

  pub remove-IsMap : (k : String) (m : Map V) → IsMap m → IsMap (remove k m)
  unfolding remove
  remove-IsMap k [] h = tt
  remove-IsMap k ((i, w) ∷ m) h = ground (arith, remove-IsMap k m h.1, Absent-remove i k m h.0)
