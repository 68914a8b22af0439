-- ===== src/Base/Sorted.antt =====
-- The order of texts is a strict total order, and the keys of a map stand in it.
use beam_init.Base.Text.{Text, text_eq, text_lt, text_eq_iff, text_eq→eq}
use beam_init.Base.Map.{Map, get, insert, remove}
use mathlib.Core.Path.{◌≡◌, refl, subst}
use mathlib.Core.Bool.{true, false}
use mathlib.Core.Option.{some, none}
use mathlib.Core.List.{[], ◌∷◌}
use native.Mathlib.Omega.{arith}

pub text_lt_irrefl : (s : Text) → text_lt s s ≡ false
unfolding text_lt
text_lt_irrefl [] = refl
text_lt_irrefl (x ∷ xs) = ground (arith, text_lt_irrefl xs)

pub text_lt_trans : (s t u : Text) → text_lt s t ≡ true → text_lt t u ≡ true → text_lt s u ≡ true
unfolding text_lt
text_lt_trans s t [] h k = cc
text_lt_trans s [] (z ∷ u) h k = cc
text_lt_trans [] (y ∷ t) (z ∷ u) h k = refl
text_lt_trans (x ∷ s) (y ∷ t) (z ∷ u) h k = ground (arith, text_lt_trans s t u)

pub text_lt_total : (s t : Text) → text_eq s t ≡ false → text_lt t s ≡ false → text_lt s t ≡ true
unfolding text_lt text_eq
text_lt_total [] [] h k = cc
text_lt_total [] (y ∷ t) h k = refl
text_lt_total (x ∷ s) [] h k = cc
text_lt_total (x ∷ s) (y ∷ t) h k = ground (arith, text_lt_total s t)

module _ {ℓ} {V : Type ℓ} where
  -- Every key lies above `k`.
  abbrev pub IsAbove : Text → Map V → Type 0
  IsAbove k [] = Unit
  IsAbove k ((j, v) ∷ m) = (text_lt k j ≡ true) × IsAbove k m

  abbrev pub IsSorted : Map V → Type 0
  IsSorted [] = Unit
  IsSorted ((k, v) ∷ m) = IsAbove k m × IsSorted m

  -- An entry of the list.
  pub data HasEntry (k : Text) (v : V) : Map V → Type ℓ where
    here : {m : Map V} → HasEntry k v ((k, v) ∷ m)
    there : {j : Text} {w : V} {m : Map V} → HasEntry k v m → HasEntry k v ((j, w) ∷ m)

  IsAbove-mono : (i k : Text) (m : Map V) → text_lt i k ≡ true → IsAbove k m → IsAbove i m
  IsAbove-mono i k [] h a = tt
  IsAbove-mono i k ((j, v) ∷ m) h a = (text_lt_trans i k j h a.0, IsAbove-mono i k m h a.1)

  insert-IsAbove :
      (i k : Text) (v : V) (m : Map V) → text_lt i k ≡ true → IsAbove i m → IsAbove i (insert k v m)
  unfolding insert
  insert-IsAbove i k v [] h a = (h, tt)
  insert-IsAbove i k v ((j, w) ∷ m) h a = ground (arith, insert-IsAbove i k v m h a.1)

  pub insert-IsSorted : (k : Text) (v : V) (m : Map V) → IsSorted m → IsSorted (insert k v m)
  unfolding insert
  insert-IsSorted k v [] s = (tt, tt)
  insert-IsSorted k v ((j, w) ∷ m) s = ground (
    arith,
    text_eq_iff j k,
    insert-IsSorted k v m s.1,
    insert-IsAbove j k v m,
    text_lt_total j k,
    IsAbove-mono k j m,
  )

  remove-IsAbove : (i k : Text) (m : Map V) → IsAbove i m → IsAbove i (remove k m)
  unfolding remove
  remove-IsAbove i k [] a = tt
  remove-IsAbove i k ((j, w) ∷ m) a = ground (arith, remove-IsAbove i k m a.1)

  pub remove-IsSorted : (k : Text) (m : Map V) → IsSorted m → IsSorted (remove k m)
  unfolding remove
  remove-IsSorted k [] s = tt
  remove-IsSorted k ((j, w) ∷ m) s =
      ground (arith, remove-IsSorted k m s.1, remove-IsAbove j k m s.0)

  above_entry :
      (k : Text) {j : Text} {v : V} {m : Map V} → HasEntry j v m → IsAbove k m → text_lt k j ≡ true
  above_entry k here a = a.0
  above_entry k (there e) a = above_entry k e a.1

  -- In a sorted map every entry is the one that is found under its key.
  pub get-entry : {k : Text} {v : V} {m : Map V} → HasEntry k v m → IsSorted m → get k m ≡ some v
  unfolding get
  get-entry {k} here s = ground (arith, text_eq_iff k k)
  get-entry {k} (there {j = j} e) s =
      ground (arith, get-entry e s.1, text_eq_iff j k, above_entry j e s.0, text_lt_irrefl k)

  get-IsAbove_self : (k : Text) (m : Map V) → IsAbove k m → get k m ≡ none
  unfolding get
  get-IsAbove_self k [] a = refl
  get-IsAbove_self k ((j, v) ∷ m) a =
      ground (arith, text_eq_iff j k, text_lt_irrefl k, get-IsAbove_self k m a.1)

  -- A key below all those of a map is not in it.
  pub get-IsAbove : (j k : Text) (m : Map V) → text_eq j k ≡ true → IsAbove j m → get k m ≡ none
  get-IsAbove j k m e a = get-IsAbove_self k m (subst (λ i. IsAbove i m) (text_eq→eq j k e) a)
