-- ===== src/Prelude/Maps.antt =====
-- JavaScript's `Map`: entries in the order of their first insertion. `set` on a key that is there
-- keeps its place, and iteration reads a snapshot of the values.
use mathlib.Core.Path.{◌≡◌, refl}
use mathlib.Core.Logic.{inl, inr}
use mathlib.Core.Option.{Option, none, some}
use mathlib.Core.List.{List, [], ◌∷◌}
use native.Mathlib.Omega.{arith}
use vicoop_bridge.Prelude.Tests.{if◌then◌else◌, Bool-cases}
use vicoop_bridge.Prelude.Lists.{All, All-map, Contains}
use vicoop_bridge.Prelude.Equality.{Eq, ◌==◌, ==_iff, ==_self}

abbrev pub Dict {ℓ κ} : Type ℓ → Type κ → Type (ℓ ⊔ κ)
Dict K V = List (K × V)

module _ {ℓ κ} {K : Type ℓ} {V : Type κ} where
  unfoldable pub values : Dict K V → List V
  values [] = []
  values ((j, v) ∷ m) = v ∷ values m

module _ {ℓ κ} {K : Type ℓ} {V : Type κ} ⦃e : Eq K⦄ where
  unfoldable pub lookup : K → Dict K V → Option V
  lookup k [] = none
  lookup k ((j, v) ∷ m) = if j == k then some v else lookup k m

  unfoldable pub insert : K → V → Dict K V → Dict K V
  insert k v [] = (k, v) ∷ []
  insert k v ((j, w) ∷ m) = if j == k then (j, v) ∷ m else (j, w) ∷ insert k v m

  unfoldable pub remove : K → Dict K V → Dict K V
  remove k [] = []
  remove k ((j, v) ∷ m) = if j == k then remove k m else (j, v) ∷ remove k m

  pub lookup-insert :
      (key other : K) (new : V) (entries : Dict K V)
      → lookup other (insert key new entries)
        ≡ (if key == other then some new else lookup other entries)
  unfolding lookup insert
  lookup-insert key other new [] = refl
  lookup-insert key other new ((i, w) ∷ entries) =
      ground
        (arith, ==_iff i key, ==_iff key other, ==_iff i other, lookup-insert key other new entries)

  pub lookup-remove :
      (key other : K) (entries : Dict K V)
      → lookup other (remove key entries) ≡ (if key == other then none else lookup other entries)
  unfolding remove lookup
  lookup-remove key other [] = ground arith
  lookup-remove key other ((i, w) ∷ entries) =
      ground
        (arith, ==_iff i key, ==_iff key other, ==_iff i other, lookup-remove key other entries)

  -- A `Map` has one entry for each key.
  abbrev pub HasDistinctKeys : Dict K V → Type κ
  HasDistinctKeys [] = Unit
  HasDistinctKeys ((k, v) ∷ m) = (lookup k m ≡ none) × HasDistinctKeys m

  pub insert-HasDistinctKeys :
      (k : K) (v : V) (m : Dict K V) → HasDistinctKeys m → HasDistinctKeys (insert k v m)
  unfolding insert lookup
  insert-HasDistinctKeys k v [] h = (refl, tt)
  insert-HasDistinctKeys k v ((j, w) ∷ m) h = elim (Bool-cases (j == k)) [
    | inl same ↦ rw same h
    | inr other ↦ rw other (
      ground (arith, lookup-insert k j v m, ==_iff k j, ==_iff j k),
      insert-HasDistinctKeys k v m h.1,
    )
  ]

  pub remove-HasDistinctKeys :
      (k : K) (m : Dict K V) → HasDistinctKeys m → HasDistinctKeys (remove k m)
  unfolding remove lookup
  remove-HasDistinctKeys k [] h = tt
  remove-HasDistinctKeys k ((j, w) ∷ m) h = elim (Bool-cases (j == k)) [
    | inl same ↦ rw same (remove-HasDistinctKeys k m h.1)
    | inr other ↦ rw other (ground (arith, lookup-remove k j m), remove-HasDistinctKeys k m h.1)
  ]

  -- A snapshot of the values holds exactly what the keys are bound to.
  pub values-lookup :
      (m : Dict K V) → HasDistinctKeys m → All (λ v. (k : K) × (lookup k m ≡ some v)) (values m)
  unfolding lookup values
  values-lookup [] h = tt
  values-lookup ((j, w) ∷ m) h =
      ((j, ground (arith, ==_self j)), All-map (values m) later (values-lookup m h.1))
    where
      later :
          (v : V)
          → (k : K) × (lookup k m ≡ some v)
          → (k : K) × ((if j == k then some w else lookup k m) ≡ some v)
      later v (k, e) = (k, ground (arith, ==_iff j k, h.0, e))

  pub lookup-values : (k : K) (v : V) (m : Dict K V) → lookup k m ≡ some v → Contains v (values m)
  unfolding lookup values
  lookup-values k v [] e = cc
  lookup-values k v ((j, w) ∷ m) e = elim (Bool-cases (j == k)) [
    | inl same ↦ inl (ground arith)
    | inr other ↦ inr (lookup-values k v m (ground arith))
  ]
