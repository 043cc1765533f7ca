-- ===== src/Prelude/Dict.antt =====
-- Go's map[string]V as an association list with at most one entry for a key.
use orbit_cli.Prelude.Tests.{if◌then◌else◌}
use orbit_cli.Prelude.Words.{Text, same, same_iff, same_refl}
use mathlib.Core.Path.{◌≡◌}
use mathlib.Core.Option.{Option, none, some}
use mathlib.Core.List.{List, [], ◌∷◌}
use native.Mathlib.Omega.{arith}

abbrev pub Dict {ℓ} : Type ℓ → Type ℓ
Dict V = List (Text × V)

module _ {ℓ} {V : Type ℓ} where
  -- v, ok := m[k]
  unfoldable pub lookup : Text → Dict V → Option V
  lookup k [] = none
  lookup k ((j, v) ∷ m) = if same j k then some v else lookup k m

  -- delete(m, k)
  unfoldable pub delete : Text → Dict V → Dict V
  delete k [] = []
  delete k ((j, v) ∷ m) = let rest = delete k m in if same j k then rest else (j, v) ∷ rest

  -- m[k] = v
  unfoldable pub put : Text → V → Dict V → Dict V
  put k v m = (k, v) ∷ delete k m

  pub lookup-delete :
      (k j : Text) (m : Dict V) → lookup j (delete k m) ≡ (if same k j then none else lookup j m)
  unfolding lookup delete
  lookup-delete k j [] = ground arith
  lookup-delete k j ((i, v) ∷ m) =
      ground (arith, lookup-delete k j m, same_iff i k, same_iff i j, same_iff k j)

  pub lookup-put :
      (k j : Text) (v : V) (m : Dict V)
      → lookup j (put k v m) ≡ (if same k j then some v else lookup j m)
  unfolding lookup put
  lookup-put k j v m = ground (arith, lookup-delete k j m)

  -- no key has two entries
  abbrev pub IsUnique : Dict V → Type ℓ
  IsUnique [] = Unit
  IsUnique ((k, v) ∷ m) = (lookup k m ≡ none) × IsUnique m

  delete-IsUnique : (k : Text) (m : Dict V) → IsUnique m → IsUnique (delete k m)
  unfolding delete
  delete-IsUnique k [] u = tt
  delete-IsUnique k ((j, v) ∷ m) u =
      ground (arith, lookup-delete k j m, delete-IsUnique k m u.1, same_iff k j, same_iff j k)

  pub put-IsUnique : (k : Text) (v : V) (m : Dict V) → IsUnique m → IsUnique (put k v m)
  unfolding put
  put-IsUnique k v m u = (ground (arith, lookup-delete k k m, same_refl k), delete-IsUnique k m u)
