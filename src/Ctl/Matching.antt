-- ===== src/Ctl/Matching.antt =====
-- What `keys_match` of beam-init/src/bin/beamctl.rs decides.
use beam_init.Base.{
  ap, ◌≤◌, ◌≡◌, ◌↔◌, refl, inl, inr, Bool, true, false, ◌&&◌, Option, none, some, List, [], ◌∷◌,
  length, arith, Bool-cases, Option-cases,
}
use beam_init.Base.Text.{Text, text_eq, text_eq_iff, text_eq→eq}
use beam_init.Base.Map
use beam_init.Base.Map.{Map}
use beam_init.Base.Sorted.{IsSorted, get-IsAbove}
use beam_init.Ctl.Select.{keys_match, found_values, push_found, values, texts_eq}

length-texts_eq : (xs ys : List Text) → texts_eq xs ys ≡ true → length xs ≡ length ys
unfolding texts_eq
length-texts_eq [] [] h = refl
length-texts_eq [] (y ∷ ys) h = absurd (ground (arith, h))
length-texts_eq (x ∷ xs) [] h = absurd (ground (arith, h))
length-texts_eq (x ∷ xs) (y ∷ ys) h = ground (arith, length-texts_eq xs ys (ground (arith, h)))

length-found_values :
    (selector labels : Map Text) → length (found_values selector labels) ≤ length (values selector)
unfolding found_values push_found values
length-found_values [] labels = omega arith
length-found_values ((k, v) ∷ selector) labels = elim (Option-cases (Map.get k labels)) [
  | inl e ↦ rw e (omega (arith, length-found_values selector labels))
  | inr (w, e) ↦ rw e (omega (arith, length-found_values selector labels))
]

-- The label `k` has the value `v`.
has_value : Option Text → Text → Bool
has_value none v = false
has_value (some w) v = text_eq w v

all_match : Map Text → Map Text → Bool
unfolding has_value
all_match [] labels = true
all_match ((k, v) ∷ selector) labels = has_value (Map.get k labels) v && all_match selector labels

keys_match-all_match :
    (selector labels : Map Text) → keys_match selector labels ≡ all_match selector labels
unfolding keys_match found_values values texts_eq push_found all_match has_value
keys_match-all_match [] labels = refl
keys_match-all_match ((k, v) ∷ selector) labels = elim (Option-cases (Map.get k labels)) [
  | inl e ↦ rw e (too_short (found_values selector labels) (length-found_values selector labels))
  | inr (w, e) ↦ rw (e, keys_match-all_match selector labels) refl
]
  where
    too_short :
        (xs : List Text)
        → length xs ≤ length (values selector)
        → texts_eq xs (v ∷ values selector) ≡ false
    too_short xs h = elim (Bool-cases (texts_eq xs (v ∷ values selector))) [
      | inl e ↦ absurd (omega (arith, length-texts_eq xs (v ∷ values selector) e))
      | inr e ↦ e
    ]

-- Every label of the selector is one of the labels.
abbrev pub IsSelected : Map Text → Map Text → Type 0
IsSelected selector labels = (k v : Text) → Map.get k selector ≡ some v → Map.get k labels ≡ some v

has_value_iff : (o : Option Text) (v : Text) → (has_value o v ≡ true) ↔ (o ≡ some v)
unfolding has_value
has_value_iff none v = (λ h. cc, λ h. cc)
has_value_iff (some w) v = (λ h. ap some (text_eq→eq w v h), λ h. (text_eq_iff w v).1 (cc))

all_match→IsSelected :
    (selector labels : Map Text) → all_match selector labels ≡ true → IsSelected selector labels
unfolding all_match Map.get
all_match→IsSelected [] labels h k v found = absurd (ground (arith, found))
all_match→IsSelected ((j, w) ∷ selector) labels h k v found = ground (
  arith,
  text_eq_iff j k,
  all_match→IsSelected selector labels (ground (arith, h)) k v,
  (has_value_iff (Map.get j labels) w).0 (ground (arith, h)),
  found,
)

IsSelected→all_match :
    (selector labels : Map Text)
    → IsSorted selector
    → IsSelected selector labels
    → all_match selector labels ≡ true
unfolding all_match Map.get
IsSelected→all_match [] labels s h = refl
IsSelected→all_match ((j, w) ∷ selector) labels s h =
    rw ((has_value_iff (Map.get j labels) w).1 (h j w (ground (arith, text_eq_iff j j)))) (
      IsSelected→all_match selector labels s.1 (λ k v found. elim (Bool-cases (text_eq j k)) [
        | inl e ↦ absurd (ground (arith, get-IsAbove j k selector e s.0, found))
        | inr e ↦ h k v (ground (arith, e, found))
      ]))

-- Labels match a selector, whose keys are in order, exactly if every label of the selector is among
-- them, with its value.
pub keys_match_iff :
    (selector labels : Map Text)
    → IsSorted selector
    → (keys_match selector labels ≡ true) ↔ IsSelected selector labels
keys_match_iff selector labels s =
    rw (keys_match-all_match selector labels)
      (all_match→IsSelected selector labels, IsSelected→all_match selector labels s)
