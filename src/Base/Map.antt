-- ===== src/Base/Map.antt =====
-- `BTreeMap<String, V>` as the list of its entries in the order of the keys.
use mathlib.Core.Path.{◌≡◌, refl}
use mathlib.Core.Logic.{◌⊎◌, inl, inr}
use mathlib.Core.Bool.{false}
use mathlib.Core.Option.{Option, none, some}
use mathlib.Core.List.{List, [], ◌∷◌}
use native.Mathlib.Omega.{arith}
use beam_init.Base.Tests.{if◌then◌else◌, Bool-cases}
use beam_init.Base.Text.{Text, text_eq, text_eq_iff, text_eq→eq, text_eq_refl, text_lt}

abbrev pub Map {ℓ} : Type ℓ → Type ℓ
Map V = List (Text × V)

module _ {ℓ} {V : Type ℓ} where
  unfoldable pub get : Text → Map V → Option V
  get k [] = none
  get k ((j, v) ∷ m) = if text_eq j k then some v else get k m

  -- `insert`, and also a write through `get_mut`: the value of a key that is present is replaced.
  unfoldable pub insert : Text → V → Map V → Map V
  insert k v [] = (k, v) ∷ []
  insert k v ((j, w) ∷ m) =
      let rest = insert k v m in
      if text_eq j k then (k, v) ∷ m else if text_lt k j then (k, v) ∷ (j, w) ∷ m else (j, w) ∷ rest

  unfoldable pub remove : Text → Map V → Map V
  remove k [] = []
  remove k ((j, v) ∷ m) = let rest = remove k m in if text_eq j k then rest else (j, v) ∷ rest

  unfoldable pub keys : Map V → List Text
  keys [] = []
  keys ((k, v) ∷ m) = k ∷ keys m

  unfoldable pub extend : Map V → Map V → Map V
  extend m [] = m
  extend m ((k, v) ∷ n) = extend (insert k v m) n

  pub get-insert :
      (k j : Text) (v : V) (m : Map V)
      → get j (insert k v m) ≡ (if text_eq k j then some v else get j m)
  unfolding get insert
  get-insert k j v [] = refl
  get-insert k j v ((i, w) ∷ m) =
      ground (arith, text_eq_iff k j, text_eq_iff i k, text_eq_iff i j, get-insert k j v m)

  pub get-insert_self : (k : Text) (v : V) (m : Map V) → get k (insert k v m) ≡ some v
  get-insert_self k v m = simp (get-insert, text_eq_refl)

  pub get-remove :
      (k j : Text) (m : Map V) → get j (remove k m) ≡ (if text_eq k j then none else get j m)
  unfolding get remove
  get-remove k j [] = ground arith
  get-remove k j ((i, w) ∷ m) =
      ground (arith, text_eq_iff k j, text_eq_iff i k, text_eq_iff i j, get-remove k j m)

  -- Where an entry of a changed map comes from.
  pub get-insert_cases :
      (k j : Text) (v : V) (m : Map V) {w : V}
      → get j (insert k v m) ≡ some w
      → ((k ≡ j) × (v ≡ w)) ⊎ ((text_eq k j ≡ false) × (get j m ≡ some w))
  get-insert_cases k j v m h = elim (Bool-cases (text_eq k j)) [
    | inl e ↦ inl (text_eq→eq k j e, ground (arith, get-insert k j v m))
    | inr e ↦ inr (e, ground (arith, get-insert k j v m))
  ]

  pub get-remove-some :
      (k j : Text) (m : Map V) {w : V}
      → get j (remove k m) ≡ some w
      → (text_eq k j ≡ false) × (get j m ≡ some w)
  get-remove-some k j m h = ground (arith, get-remove k j m)
