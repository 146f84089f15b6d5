-- ===== src/Base/Map/Keys.antt =====
-- The keys of the maps of Map.antt stay distinct.
use mathlib.Core.Path.{refl}
use mathlib.Core.List.{[], ◌∷◌}
use mathlib.Core.Logic.{inl, inr}
use native.Mathlib.Omega.{arith}
use travelmode.Base.Tests.{Key, beq_sym, Bool-cases}
use travelmode.Base.Map
use travelmode.Base.Map.{Map, get-insert, get-remove, get-update_or, get-map_values}

module _ {ℓ} {K V : Type ℓ} ⦃e : Key K⦄ where
  pub insert-Distinct :
      (k : K) (v : V) (m : Map K V) → Map.Distinct m → Map.Distinct (Map.insert k v m)
  unfolding Map.insert Map.contains_key Map.get
  insert-Distinct k v [] d = (refl, tt)
  insert-Distinct k v ((j, w) ∷ m) (n, d) = elim (Bool-cases (e.beq j k)) [
    | inl t ↦ rw t (n, d)
    | inr t ↦ rw t (ground (arith, get-insert k j v m, beq_sym j k), insert-Distinct k v m d)
  ]

  pub remove-Distinct : (k : K) (m : Map K V) → Map.Distinct m → Map.Distinct (Map.remove k m)
  unfolding Map.remove Map.contains_key
  remove-Distinct k [] d = tt
  remove-Distinct k ((j, w) ∷ m) (n, d) = elim (Bool-cases (e.beq j k)) [
    | inl t ↦ rw t (remove-Distinct k m d)
    | inr t ↦ rw t (ground (arith, get-remove k j m), remove-Distinct k m d)
  ]

  pub update_or-Distinct :
      (k : K) (a : V) (f : V → V) (m : Map K V)
      → Map.Distinct m
      → Map.Distinct (Map.update_or k a f m)
  unfolding Map.update_or Map.contains_key Map.get
  update_or-Distinct k a f [] d = (refl, tt)
  update_or-Distinct k a f ((j, w) ∷ m) (n, d) = elim (Bool-cases (e.beq j k)) [
    | inl t ↦ rw t (n, d)
    | inr t ↦
        rw t (ground (arith, get-update_or k j a f m, beq_sym j k), update_or-Distinct k a f m d)
  ]

  pub map_values-Distinct :
      (f : V → V) (m : Map K V) → Map.Distinct m → Map.Distinct (Map.map_values f m)
  unfolding Map.map_values Map.contains_key
  map_values-Distinct f [] d = tt
  map_values-Distinct f ((j, w) ∷ m) (n, d) =
      (ground (arith, get-map_values j f m), map_values-Distinct f m d)
