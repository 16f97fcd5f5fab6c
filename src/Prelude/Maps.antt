-- ===== src/Prelude/Maps.antt =====
-- A Go map is an association list, read through `lookup`.
use mathlib.Core.List.{List, [], ◌∷◌}
use mathlib.Core.Logic.{ite, ◌≢◌}
use mathlib.Core.Option.{Option, none, some}
use mathlib.Core.Path.{◌≡◌}
use native.Mathlib.Omega.{arith}

module _ {ℓ} {K V : Type ℓ} (dec : Discrete K) where
  -- `v, ok := m[k]`
  unfoldable pub lookup : K → List (K × V) → Option V
  lookup k [] = none
  lookup k ((j, v) ∷ m) = ite (dec k j) (some v) (lookup k m)

  -- `delete(m, k)`
  unfoldable pub delete : K → List (K × V) → List (K × V)
  delete k [] = []
  delete k ((j, v) ∷ m) = ite (dec k j) (delete k m) ((j, v) ∷ delete k m)

  -- `m[k] = v`
  unfoldable pub insert : K → V → List (K × V) → List (K × V)
  unfolding delete
  insert k v m = (k, v) ∷ delete k m

  pub lookup-delete :
      (q k : K) (m : List (K × V)) → lookup q (delete k m) ≡ ite (dec q k) none (lookup q m)
  unfolding lookup delete
  lookup-delete q k [] = ground arith
  lookup-delete q k ((j, v) ∷ m) = ground (arith, lookup-delete q k m)

  pub lookup-insert :
      (q k : K) (v : V) (m : List (K × V))
      → lookup q (insert k v m) ≡ ite (dec q k) (some v) (lookup q m)
  unfolding insert lookup
  lookup-insert q k v m = ground (arith, lookup-delete q k m)

  pub lookup-insert_self : (k : K) (v : V) (m : List (K × V)) → lookup k (insert k v m) ≡ some v
  lookup-insert_self k v m = ground (arith, lookup-insert k k v m)

  pub lookup-insert_ne :
      (q k : K) (v : V) (m : List (K × V)) → q ≢ k → lookup q (insert k v m) ≡ lookup q m
  lookup-insert_ne q k v m h = ground (arith, lookup-insert q k v m)
