-- ===== src/Prelude/Dict.antt =====
-- Go's maps with string keys, as association lists. A missing key is `none`.
use mathlib.Core.Path.{◌≡◌, refl}
use mathlib.Core.Option.{Option, none, some}
use mathlib.Core.List.{List, [], ◌∷◌}
use native.Mathlib.Omega.{arith}
use mr_cassop.Prelude.Tests.{Eq, ◌==◌, if◌then◌else◌}

abbrev pub Dict {ℓ κ} : Type ℓ → Type κ → Type (ℓ ⊔ κ)
Dict K V = List (K × V)

abbrev pub keys {ℓ κ} : {K : Type ℓ} {V : Type κ} → Dict K V → List K
keys [] = []
keys ((k, _) ∷ d) = k ∷ keys d

module _ {ℓ κ} {K : Type ℓ} {V : Type κ} ⦃e : Eq K⦄ where
  -- `v, exists := m[k]`
  unfoldable pub lookup : K → Dict K V → Option V
  lookup k [] = none
  lookup k ((j, v) ∷ d) = if k == j then some v else lookup k d

  -- `m[k] = v`
  unfoldable pub insert : K → V → Dict K V → Dict K V
  insert k v [] = (k, v) ∷ []
  insert k v ((j, w) ∷ d) = if k == j then (k, v) ∷ d else (j, w) ∷ insert k v d

  -- `delete(m, k)`
  unfoldable pub erase : K → Dict K V → Dict K V
  erase k [] = []
  erase k ((j, w) ∷ d) = let rest = erase k d in if k == j then rest else (j, w) ∷ rest

  abbrev pub NodupKeys : Dict K V → Type κ
  NodupKeys [] = Unit
  NodupKeys ((k, _) ∷ d) = (lookup k d ≡ none) × NodupKeys d

  pub lookup-nil : (k : K) → lookup k [] ≡ none
  unfolding lookup
  lookup-nil k = refl

  pub lookup-cons :
      (j k : K) (v : V) (d : Dict K V)
      → lookup j ((k, v) ∷ d) ≡ (if j == k then some v else lookup j d)
  unfolding lookup
  lookup-cons j k v d = refl

  pub lookup-insert :
      (j k : K) (v : V) (d : Dict K V)
      → lookup j (insert k v d) ≡ (if j == k then some v else lookup j d)
  unfolding insert lookup
  lookup-insert j k v [] = refl
  lookup-insert j k v (_ ∷ d) = ground (arith, lookup-insert j k v d)

  pub lookup-erase :
      (j k : K) (d : Dict K V) → lookup j (erase k d) ≡ (if j == k then none else lookup j d)
  unfolding erase lookup
  lookup-erase j k [] = ground arith
  lookup-erase j k (_ ∷ d) = ground (arith, lookup-erase j k d)

  pub insert-NodupKeys : (k : K) (v : V) (d : Dict K V) → NodupKeys d → NodupKeys (insert k v d)
  unfolding insert
  insert-NodupKeys k v [] _ = (lookup-nil k, tt)
  insert-NodupKeys k v ((j, _) ∷ d) (fresh, u) =
      ground (arith, insert-NodupKeys k v d u, lookup-insert j k v d)
