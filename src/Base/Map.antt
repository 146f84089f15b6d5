-- ===== src/Base/Map.antt =====
-- `HashMap` and `BTreeMap` as association lists. The order of entries stands for an iteration
-- order; a new key goes to the end, an old one keeps its place and its stored key.
pub mod Keys
use mathlib.Core.Path.{◌≡◌, refl}
use mathlib.Core.Bool.{Bool, true, false}
use mathlib.Core.List.{List, [], ◌∷◌}
use mathlib.Core.Option
use mathlib.Core.Option.{Option, none, some}
use native.Mathlib.Omega.{arith}
use travelmode.Base.Tests.{Key, beq_sym, beq_congr_right, if◌then◌else◌, is_some}

abbrev pub Map {ℓ} : Type ℓ → Type ℓ → Type ℓ
Map K V = List (K × V)

module _ {ℓ} {K V : Type ℓ} where
  abbrev pub empty : Map K V
  empty = []

  unfoldable pub keys : Map K V → List K
  keys [] = []
  keys ((k, v) ∷ m) = k ∷ keys m

  unfoldable pub values : Map K V → List V
  values [] = []
  values ((k, v) ∷ m) = v ∷ values m

  -- `values_mut`.
  unfoldable pub map_values : (V → V) → Map K V → Map K V
  map_values f [] = []
  map_values f ((k, v) ∷ m) = (k, f v) ∷ map_values f m

module _ {ℓ} {K V : Type ℓ} ⦃e : Key K⦄ where
  unfoldable pub get : K → Map K V → Option V
  get k [] = none
  get k ((j, v) ∷ m) = if e.beq j k then some v else get k m

  unfoldable pub contains_key : K → Map K V → Bool
  unfolding get
  contains_key k m = is_some (get k m)

  unfoldable pub insert : K → V → Map K V → Map K V
  insert k v [] = (k, v) ∷ []
  insert k v ((j, w) ∷ m) = if e.beq j k then (j, v) ∷ m else (j, w) ∷ insert k v m

  unfoldable pub remove : K → Map K V → Map K V
  remove k [] = []
  remove k ((j, w) ∷ m) = let rest = remove k m in if e.beq j k then rest else (j, w) ∷ rest

  -- `*entry(k).or_insert(d) = f(..)`.
  unfoldable pub update_or : K → V → (V → V) → Map K V → Map K V
  update_or k d f [] = (k, f d) ∷ []
  update_or k d f ((j, w) ∷ m) = if e.beq j k then (j, f w) ∷ m else (j, w) ∷ update_or k d f m

  pub get-insert :
      (k j : K) (v : V) (m : Map K V)
      → get j (insert k v m) ≡ (if e.beq k j then some v else get j m)
  unfolding get insert
  get-insert k j v [] = refl
  get-insert k j v ((i, w) ∷ m) =
      ground (arith, e.beq_congr i k j, beq_congr_right k j i, get-insert k j v m)

  pub get-remove :
      (k j : K) (m : Map K V) → get j (remove k m) ≡ (if e.beq k j then none else get j m)
  unfolding get remove
  get-remove k j [] = ground arith
  get-remove k j ((i, w) ∷ m) =
      ground (arith, e.beq_congr i k j, beq_congr_right k j i, get-remove k j m)

  -- Equivalent keys find the same value.
  pub get_congr : (k j : K) (m : Map K V) → e.beq k j ≡ true → get k m ≡ get j m
  unfolding get
  get_congr k j [] h = refl
  get_congr k j ((i, w) ∷ m) h =
      ground (arith, beq_sym i k, beq_sym i j, e.beq_congr k j i h, get_congr k j m h)

  pub get-update_or :
      (k j : K) (d : V) (f : V → V) (m : Map K V)
      → get j (update_or k d f m)
        ≡ (if e.beq k j then some (f (Option.get_or (get k m) d)) else get j m)
  unfolding get update_or
  get-update_or k j d f [] = refl
  get-update_or k j d f ((i, w) ∷ m) =
      ground (arith, e.beq_congr i k j, beq_congr_right k j i, get-update_or k j d f m)

  pub get-map_values :
      (k : K) (f : V → V) (m : Map K V) → get k (map_values f m) ≡ Option.map f (get k m)
  unfolding get map_values
  get-map_values k f [] = refl
  get-map_values k f ((i, w) ∷ m) = ground (arith, get-map_values k f m)

  -- No two entries with equivalent keys.
  abbrev pub Distinct : Map K V → Type 0
  Distinct [] = Unit
  Distinct ((k, v) ∷ m) = (contains_key k m ≡ false) × Distinct m

  pub get-nil : (k : K) → ◌≡◌ {A = Option V} (get k []) none
  unfolding get
  get-nil k = refl
