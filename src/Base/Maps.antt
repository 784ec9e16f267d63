-- ===== src/Base/Maps.antt =====
-- A Go map with string keys, as an association list.
use mathlib.Core.Path.{◌≡◌, refl}
use mathlib.Core.Logic.{◌⊎◌, inl, inr}
use mathlib.Core.Bool.{Bool}
use mathlib.Core.Option.{Option, none, some}
use mathlib.Core.List.{List, [], ◌∷◌}
use native.Mathlib.Omega.{arith}
use safe_road.Base.Tests.{if◌then◌else◌}
use safe_road.Base.Strings.{Text, text_eq, text_eq_iff, text_eq_refl}

pub Option-cases {ℓ} : {A : Type ℓ} (o : Option A) → (o ≡ none) ⊎ ((a : A) × (o ≡ some a))
Option-cases none = inl refl
Option-cases (some a) = inr (a, refl)

abbrev pub Assoc {ℓ} : Type ℓ → Type ℓ
Assoc V = List (Text × V)

module _ {ℓ} {V : Type ℓ} where
  unfoldable pub lookup : Text → Assoc V → Option V
  lookup k [] = none
  lookup k ((j, v) ∷ rows) = if text_eq j k then some v else lookup k rows

  unfoldable pub insert : Text → V → Assoc V → Assoc V
  insert k v [] = (k, v) ∷ []
  insert k v ((j, w) ∷ rows) = if text_eq j k then (k, v) ∷ rows else (j, w) ∷ insert k v rows

  -- `delete(m, k)`
  unfoldable pub delete : Text → Assoc V → Assoc V
  delete k [] = []
  delete k ((j, v) ∷ rows) = let rest = delete k rows in if text_eq j k then rest else (j, v) ∷ rest

  -- `for key, v := range m { if drop(v) { delete(m, key) } }`
  unfoldable pub delete_where : (V → Bool) → Assoc V → Assoc V
  delete_where drop [] = []
  delete_where drop ((j, v) ∷ rows) =
      let rest = delete_where drop rows in if drop v then delete j rest else (j, v) ∷ rest

  abbrev pub keep : (V → Bool) → Option V → Option V
  keep drop none = none
  keep drop (some v) = if drop v then none else some v

  pub lookup-insert :
      (k j : Text) (v : V) (rows : Assoc V)
      → lookup j (insert k v rows) ≡ (if text_eq k j then some v else lookup j rows)
  unfolding lookup insert
  lookup-insert k j v [] = refl
  lookup-insert k j v ((i, w) ∷ rows) =
      ground (arith, text_eq_iff k j, text_eq_iff i k, text_eq_iff i j, lookup-insert k j v rows)

  pub lookup-insert_self : (k : Text) (v : V) (rows : Assoc V) → lookup k (insert k v rows) ≡ some v
  lookup-insert_self k v rows = simp (lookup-insert, text_eq_refl)

  pub lookup-delete :
      (k j : Text) (rows : Assoc V)
      → lookup j (delete k rows) ≡ (if text_eq k j then none else lookup j rows)
  unfolding lookup delete
  lookup-delete k j [] = ground arith
  lookup-delete k j ((i, v) ∷ rows) =
      ground (arith, lookup-delete k j rows, text_eq_iff i k, text_eq_iff i j, text_eq_iff k j)

  pub lookup-delete_where :
      (drop : V → Bool) (k : Text) (rows : Assoc V)
      → lookup k (delete_where drop rows) ≡ keep drop (lookup k rows)
  unfolding lookup delete_where
  lookup-delete_where drop k [] = refl
  lookup-delete_where drop k ((i, v) ∷ rows) =
      ground (arith, lookup-delete_where drop k rows, lookup-delete i k (delete_where drop rows))
