-- ===== src/Ctl/Prefix.antt =====
-- What `prefix_match` of beam-init/src/bin/beamctl.rs decides.
use beam_init.Base.{
  sym, ◌≡◌, refl, ap, ◌∙◌, inl, inr, true, false, List, [], ◌∷◌, keep, arith, Bool-cases,
}
use beam_init.Base.Text.{Text, text_lt, starts_with}
use beam_init.Base.Sorted.{text_lt_trans}
use beam_init.Ctl.Select.{keys_from, take_prefixed, unique_or, prefix_match}

-- Names in their order.
abbrev pub AllAbove : Text → List Text → Type 0
AllAbove k [] = Unit {0}
AllAbove k (j ∷ keys) = (text_lt k j ≡ true) × AllAbove k keys

abbrev pub IsAscending : List Text → Type 0
IsAscending [] = Unit {0}
IsAscending (k ∷ keys) = AllAbove k keys × IsAscending keys

-- Names with a prefix lie at or above it.
prefixed_above : (k name : Text) → text_lt k name ≡ true → starts_with k name ≡ false
unfolding text_lt starts_with
prefixed_above k [] h = absurd (ground (arith, h))
prefixed_above [] (y ∷ name) h = refl
prefixed_above (x ∷ k) (y ∷ name) h = ground (arith, prefixed_above k name)

-- Above a name that lies above the prefix but does not have it, no name has it.
prefix_passed :
    (name j k : Text)
    → text_lt j name ≡ false
    → starts_with j name ≡ false
    → text_lt j k ≡ true
    → starts_with k name ≡ false
unfolding text_lt starts_with
prefix_passed [] j k a n h = absurd (ground (arith, n))
prefix_passed (y ∷ name) [] k a n h = absurd (ground (arith, a))
prefix_passed (y ∷ name) (x ∷ j) [] a n h = refl
prefix_passed (y ∷ name) (x ∷ j) (z ∷ k) a n h = ground (arith, prefix_passed name j k)

none_prefixed :
    (name j : Text) (keys : List Text)
    → text_lt j name ≡ false
    → starts_with j name ≡ false
    → AllAbove j keys
    → keep (λ k. starts_with k name) keys ≡ []
none_prefixed name j [] a n all = refl
none_prefixed name j (k ∷ keys) a n all =
    rw (prefix_passed name j k a n all.0) (none_prefixed name j keys a n all.1)

abbrev NoneBelow : Text → List Text → Type 0
NoneBelow name [] = Unit {0}
NoneBelow name (k ∷ keys) = (text_lt k name ≡ false) × NoneBelow name keys

AllAbove-NoneBelow :
    (name k : Text) (keys : List Text)
    → text_lt k name ≡ false
    → AllAbove k keys
    → NoneBelow name keys
AllAbove-NoneBelow name k [] a b = tt
AllAbove-NoneBelow name k (j ∷ keys) a b =
    (ground (arith, a, b.0, text_lt_trans k j name), AllAbove-NoneBelow name k keys a b.1)

-- Among names at or above the prefix those with the prefix come first.
take_prefixed-keep :
    (name : Text) (keys : List Text)
    → NoneBelow name keys
    → IsAscending keys
    → take_prefixed name keys ≡ keep (λ k. starts_with k name) keys
unfolding take_prefixed
take_prefixed-keep name [] b s = refl
take_prefixed-keep name (k ∷ keys) b s = elim (Bool-cases (starts_with k name)) [
  | inl e ↦ rw e (ap (λ (rest : List Text). k ∷ rest) (take_prefixed-keep name keys b.1 s.1))
  | inr e ↦ rw e (sym (none_prefixed name k keys b.0 e s.0))
]

take_prefixed-eq-keep :
    (name : Text) (keys : List Text)
    → IsAscending keys
    → take_prefixed name (keys_from name keys) ≡ keep (λ k. starts_with k name) keys
unfolding take_prefixed keys_from
take_prefixed-eq-keep name [] s = refl
take_prefixed-eq-keep name (k ∷ keys) s = elim (Bool-cases (text_lt k name)) [
  | inl e ↦ rw (e, prefixed_above k name e) (take_prefixed-eq-keep name keys s.1)
  | inr e ↦ rw e (take_prefixed-keep name (k ∷ keys) (e, AllAbove-NoneBelow name k keys e s.0) s)
]

-- Among names in order, `prefix_match` gives the one name that has the prefix, if there is exactly
-- one and it is not the bootstrap service's; else it gives what the user typed.
pub prefix_match-eq-unique_or :
    (keys : List Text) (name : Text)
    → IsAscending keys
    → prefix_match keys name ≡ unique_or name (keep (λ k. starts_with k name) keys)
unfolding prefix_match
prefix_match-eq-unique_or keys name s = ap (unique_or name) (take_prefixed-eq-keep name keys s)

-- A name stands in a list.
pub data IsIn (name : Text) : List Text → Type 0 where
  here : {keys : List Text} → IsIn name (name ∷ keys)
  there : {k : Text} {keys : List Text} → IsIn name keys → IsIn name (k ∷ keys)

starts_with_self : (name : Text) → starts_with name name ≡ true
unfolding starts_with
starts_with_self [] = refl
starts_with_self (c ∷ name) = ground (arith, starts_with_self name)

IsIn-keep :
    (name : Text) (keys : List Text)
    → IsIn name keys
    → IsIn name (keep (λ k. starts_with k name) keys)
IsIn-keep name [] i = elim i [ ]
IsIn-keep name (k ∷ keys) here = rw (starts_with_self name) here
IsIn-keep name (k ∷ keys) (there i) = elim (Bool-cases (starts_with k name)) [
  | inl e ↦ rw e (there (IsIn-keep name keys i))
  | inr e ↦ rw e (IsIn-keep name keys i)
]

unique_or-IsIn : (name : Text) (keys : List Text) → IsIn name keys → unique_or name keys ≡ name
unfolding unique_or
unique_or-IsIn name [] i = elim i [ ]
unique_or-IsIn name (k ∷ []) here = ground arith
unique_or-IsIn name (k ∷ []) (there i) = elim i [ ]
unique_or-IsIn name (k ∷ j ∷ rest) i = refl

-- The full name of a service always stands for that service, also if it is a prefix of others.
pub prefix_match-IsIn :
    (keys : List Text) (name : Text)
    → IsAscending keys
    → IsIn name keys
    → prefix_match keys name ≡ name
prefix_match-IsIn keys name s i =
    prefix_match-eq-unique_or keys name s
    ∙ unique_or-IsIn name (keep (λ k. starts_with k name) keys) (IsIn-keep name keys i)
