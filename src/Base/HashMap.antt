-- ===== src/Base/HashMap.antt =====
-- `std::collections::HashMap` as an association list with one entry for a key. The order of the
-- entries stands for the unspecified iteration order.
use Prim.Native.Nat.{suc, ◌≤◌}
use mathlib.Core.Path.{◌≡◌, refl}
use mathlib.Core.Bool.{Bool, true, false, ◌||◌}
use mathlib.Core.Option.{Option, none, some}
use mathlib.Core.List.{List, [], ◌∷◌}
use native.Mathlib.Omega.{arith}
use clash_prism_engine.Base.Tests.{if◌then◌else◌}
use clash_prism_engine.Base.Equality.{Eq, ◌==◌}
use clash_prism_engine.Base.Lists.{length}

abbrev pub HashMap {ℓ κ} : Type ℓ → Type κ → Type (ℓ ⊔ κ)
HashMap K V = List (K × V)

module _ {ℓ κ} {K : Type ℓ} ⦃e : Eq K⦄ {V : Type κ} where
  unfoldable pub get : K → HashMap K V → Option V
  get k [] = none
  get k ((j, v) ∷ m) = if j == k then some v else get k m

  unfoldable pub contains_key : K → HashMap K V → Bool
  contains_key k [] = false
  contains_key k ((j, v) ∷ m) = if j == k then true else contains_key k m

  unfoldable pub insert : K → V → HashMap K V → HashMap K V
  insert k v [] = (k, v) ∷ []
  insert k v ((j, w) ∷ m) = if j == k then (j, v) ∷ m else (j, w) ∷ insert k v m

  unfoldable pub remove : K → HashMap K V → HashMap K V
  remove k [] = []
  remove k ((j, w) ∷ m) = if j == k then remove k m else (j, w) ∷ remove k m

  pub get-insert :
      (k j : K) (v : V) (m : HashMap K V)
      → get j (insert k v m) ≡ (if k == j then some v else get j m)
  unfolding get insert
  get-insert k j v [] = refl
  get-insert k j v ((i, w) ∷ m) =
      ground (arith, e.test_iff k j, e.test_iff i k, e.test_iff i j, get-insert k j v m)

  pub get-remove :
      (k j : K) (m : HashMap K V) → get j (remove k m) ≡ (if k == j then none else get j m)
  unfolding get remove
  get-remove k j [] = ground arith
  get-remove k j ((i, w) ∷ m) =
      ground (arith, e.test_iff k j, e.test_iff i k, e.test_iff i j, get-remove k j m)

  pub contains_key-get :
      (k : K) (m : HashMap K V) → contains_key k m ≡ elim (get k m) [ none ↦ false | some _ ↦ true ]
  unfolding get contains_key
  contains_key-get k [] = refl
  contains_key-get k ((i, w) ∷ m) = ground (arith, contains_key-get k m)

  pub length-insert :
      (k : K) (v : V) (m : HashMap K V)
      → length (insert k v m) ≡ (if contains_key k m then length m else suc (length m))
  unfolding insert contains_key
  length-insert k v [] = refl
  length-insert k v ((i, w) ∷ m) = ground (arith, length-insert k v m)

  pub length-remove-le : (k : K) (m : HashMap K V) → length (remove k m) ≤ length m
  unfolding remove
  length-remove-le k [] = omega arith
  length-remove-le k ((i, w) ∷ m) = ground (arith, length-remove-le k m)

  -- `for v in map.values_mut()`.
  unfoldable pub map_values : (V → V) → HashMap K V → HashMap K V
  map_values f [] = []
  map_values f ((j, w) ∷ m) = (j, f w) ∷ map_values f m

  -- `entry(k).or_default()`, read.
  abbrev pub get_or : V → K → HashMap K V → V
  get_or d k m = elim (get k m) [ none ↦ d | some v ↦ v ]

  pub get_or-map_values :
      (f : V → V) (d : V) (k : K) (m : HashMap K V)
      → f d ≡ d
      → get_or d k (map_values f m) ≡ f (get_or d k m)
  unfolding get map_values
  get_or-map_values f d k [] h = ground arith
  get_or-map_values f d k ((i, w) ∷ m) h = ground (arith, get_or-map_values f d k m h)

  abbrev pub IsUnique : HashMap K V → Type 0
  IsUnique [] = Unit
  IsUnique ((k, v) ∷ m) = (contains_key k m ≡ false) × IsUnique m

  pub contains_key-insert :
      (k j : K) (v : V) (m : HashMap K V)
      → contains_key j (insert k v m) ≡ ((k == j) || contains_key j m)
  unfolding contains_key insert
  contains_key-insert k j v [] = ground arith
  contains_key-insert k j v ((i, w) ∷ m) =
      ground (arith, contains_key-insert k j v m, e.test_iff i k, e.test_iff i j, e.test_iff k j)

  pub IsUnique-insert : (k : K) (v : V) (m : HashMap K V) → IsUnique m → IsUnique (insert k v m)
  unfolding insert contains_key
  IsUnique-insert k v [] h = (refl, tt)
  IsUnique-insert k v ((i, w) ∷ m) (h, hs) =
      ground (
        arith,
        IsUnique-insert k v m hs,
        contains_key-insert k i v m,
        e.test_iff i k,
        e.test_iff k i,
      )

  pub contains_key-remove :
      (k j : K) (m : HashMap K V)
      → contains_key j (remove k m) ≡ (if k == j then false else contains_key j m)
  unfolding contains_key remove
  contains_key-remove k j [] = ground arith
  contains_key-remove k j ((i, w) ∷ m) =
      ground (arith, contains_key-remove k j m, e.test_iff i k, e.test_iff i j, e.test_iff k j)

  pub IsUnique-remove : (k : K) (m : HashMap K V) → IsUnique m → IsUnique (remove k m)
  unfolding remove
  IsUnique-remove k [] h = tt
  IsUnique-remove k ((i, w) ∷ m) (h, hs) =
      ground (arith, IsUnique-remove k m hs, contains_key-remove k i m, e.test_iff i k)

  length-remove_absent :
      (k : K) (m : HashMap K V) → contains_key k m ≡ false → length (remove k m) ≡ length m
  unfolding remove contains_key
  length-remove_absent k [] h = refl
  length-remove_absent k ((i, w) ∷ m) h = ground (arith, length-remove_absent k m)

  pub length-remove :
      (k : K) (m : HashMap K V)
      → IsUnique m
      → length m ≡ (if contains_key k m then suc (length (remove k m)) else length (remove k m))
  unfolding remove contains_key
  length-remove k [] h = refl
  length-remove k ((i, w) ∷ m) (h, hs) =
      ground (arith, length-remove k m hs, length-remove_absent k m, e.test_iff i k)
