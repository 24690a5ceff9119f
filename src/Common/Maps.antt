-- ===== src/Common/Maps.antt =====
-- Maps with numbers for keys, as `unordered_map` keeps them, in lists of pairs.
use Prim.Native.Nat.{ℕ}
use mathlib.Core.Path.{◌≡◌, refl}
use mathlib.Core.Bool.{Bool, true, false}
use mathlib.Core.List.{List, [], ◌∷◌}
use mathlib.Core.Option.{Option, none, some}
use native.Mathlib.Omega.{arith}
use radeon_developer_panel.Common.Tests.{◌==◌, if◌then◌else◌}

abbrev pub is_some {ℓ} : {A : Type ℓ} → Option A → Bool
is_some none = false
is_some (some a) = true

module _ {ℓ} {V : Type ℓ} where
  abbrev pub find_key : List (ℕ × V) → ℕ → Option V
  find_key [] k = none
  find_key ((j, v) ∷ m) k = if j == k then some v else find_key m k

  -- `contains`.
  abbrev pub has_key : List (ℕ × V) → ℕ → Bool
  has_key m k = is_some (find_key m k)

  -- `insert` keeps the value of a key that is there.
  unfoldable pub insert_key : ℕ → V → List (ℕ × V) → List (ℕ × V)
  insert_key k v [] = (k, v) ∷ []
  insert_key k v ((j, w) ∷ m) = if j == k then (j, w) ∷ m else (j, w) ∷ insert_key k v m

  -- `m[k] = v`.
  unfoldable pub assign_key : ℕ → V → List (ℕ × V) → List (ℕ × V)
  assign_key k v [] = (k, v) ∷ []
  assign_key k v ((j, w) ∷ m) = if j == k then (j, v) ∷ m else (j, w) ∷ assign_key k v m

  unfoldable pub erase_key : ℕ → List (ℕ × V) → List (ℕ × V)
  erase_key k [] = []
  erase_key k ((j, w) ∷ m) = if j == k then erase_key k m else (j, w) ∷ erase_key k m

  abbrev pub value_or : V → Option V → V
  value_or v none = v
  value_or v (some w) = w

  pub find_key-insert_key :
      (k j : ℕ) (v : V) (m : List (ℕ × V))
      → find_key (insert_key k v m) j
        ≡ (if k == j then some (value_or v (find_key m j)) else find_key m j)
  unfolding insert_key
  find_key-insert_key k j v [] = refl
  find_key-insert_key k j v ((i, w) ∷ m) = ground (arith, find_key-insert_key k j v m)

  pub find_key-assign_key :
      (k j : ℕ) (v : V) (m : List (ℕ × V))
      → find_key (assign_key k v m) j ≡ (if k == j then some v else find_key m j)
  unfolding assign_key
  find_key-assign_key k j v [] = refl
  find_key-assign_key k j v ((i, w) ∷ m) = ground (arith, find_key-assign_key k j v m)

  pub find_key-erase_key :
      (k j : ℕ) (m : List (ℕ × V))
      → find_key (erase_key k m) j ≡ (if k == j then none else find_key m j)
  unfolding erase_key
  find_key-erase_key k j [] = ground arith
  find_key-erase_key k j ((i, w) ∷ m) = ground (arith, find_key-erase_key k j m)

  -- No key stands twice.
  abbrev pub HasDistinctKeys : List (ℕ × V) → Type ℓ
  HasDistinctKeys [] = Unit
  HasDistinctKeys ((k, v) ∷ m) = (find_key m k ≡ none) × HasDistinctKeys m

  pub insert_key-HasDistinctKeys :
      (k : ℕ) (v : V) (m : List (ℕ × V)) → HasDistinctKeys m → HasDistinctKeys (insert_key k v m)
  unfolding insert_key
  insert_key-HasDistinctKeys k v [] h = (refl, tt)
  insert_key-HasDistinctKeys k v ((j, w) ∷ m) h =
      ground (arith, find_key-insert_key k j v m, insert_key-HasDistinctKeys k v m h.1)

  pub assign_key-HasDistinctKeys :
      (k : ℕ) (v : V) (m : List (ℕ × V)) → HasDistinctKeys m → HasDistinctKeys (assign_key k v m)
  unfolding assign_key
  assign_key-HasDistinctKeys k v [] h = (refl, tt)
  assign_key-HasDistinctKeys k v ((j, w) ∷ m) h =
      ground (arith, find_key-assign_key k j v m, assign_key-HasDistinctKeys k v m h.1)
