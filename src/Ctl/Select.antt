-- ===== src/Ctl/Select.antt =====
-- The choice of services by a selector or a prefix of the name in beam-init/src/bin/beamctl.rs.
use beam_init.Base.{
  ◌-◌, ◌*◌, ◌==◌, length, take, Bool, true, false, ◌&&◌, Option, none, some, List, [], ◌∷◌, ◌++◌,
  if◌then◌else◌,
}
use beam_init.Base.Text.{Text, codes, text_eq, text_lt, starts_with}
use beam_init.Base.Map
use beam_init.Base.Map.{Map}
use beam_init.Services.Manager.{bootstrap_name}

-- `BTreeMap::from_iter`: of two pairs with one key the later counts.
unfoldable pub from_iter {ℓ} : {V : Type ℓ} → List (Text × V) → Map V
from_iter pairs = Map.extend [] pairs

unfoldable pub values {ℓ} : {V : Type ℓ} → Map V → List V
values [] = []
values ((k, v) ∷ m) = v ∷ values m

-- `keys().filter_map(|k| labels.get(k))`.
unfoldable pub push_found : Option Text → List Text → List Text
push_found none rest = rest
push_found (some v) rest = v ∷ rest

unfoldable pub found_values : Map Text → Map Text → List Text
unfolding push_found
found_values [] labels = []
found_values ((k, v) ∷ selector) labels =
    push_found (Map.get k labels) (found_values selector labels)

-- `Iterator::eq`.
unfoldable pub texts_eq : List Text → List Text → Bool
texts_eq [] [] = true
texts_eq [] (t ∷ ts) = false
texts_eq (s ∷ ss) [] = false
texts_eq (s ∷ ss) (t ∷ ts) = text_eq s t && texts_eq ss ts

unfoldable pub keys_match : (selector labels : Map Text) → Bool
keys_match selector labels = texts_eq (found_values selector labels) (values selector)

-- `BTreeMap::split_off(&name).into_keys()`: the keys from `name` on.
unfoldable pub keys_from : Text → List Text → List Text
keys_from name [] = []
keys_from name (k ∷ keys) =
    let rest = keys_from name keys in if text_lt k name then rest else k ∷ keys

-- `take_while(|key| key.starts_with(&name))`.
unfoldable pub take_prefixed : Text → List Text → List Text
take_prefixed name [] = []
take_prefixed name (k ∷ keys) =
    let rest = take_prefixed name keys in if starts_with k name then k ∷ rest else []

-- The first of the names, if it is the only one, and not the bootstrap service.
unfoldable pub unique_or : Text → List Text → Text
unique_or name [] = name
unique_or name (k ∷ []) = if text_eq k bootstrap_name then name else k
unique_or name (k ∷ j ∷ rest) = name

-- `prefix_match`, on the names that `list_services` gives.
unfoldable pub prefix_match : List Text → Text → Text
unfolding keys_from take_prefixed unique_or
prefix_match keys name = unique_or name (take_prefixed name (keys_from name keys))

-- `intersperse`: each item is followed by the separator, and the last one is cut off.
unfoldable pub alternated : Text → List Text → List Text
alternated sep [] = []
alternated sep (item ∷ items) = item ∷ sep ∷ alternated sep items

unfoldable pub intersperse : Text → List Text → List Text
unfolding alternated
intersperse sep items =
    take (if length items == 0 then 0 else 2 * length items - 1) (alternated sep items)

unfoldable pub concat : List Text → Text
concat [] = []
concat (t ∷ ts) = t ++ concat ts

unfoldable pub pairs : Map Text → List Text
pairs [] = []
pairs ((key, value) ∷ labels) = (key ++ b'=' ∷ value) ∷ pairs labels

unfoldable pub display_labels : Map Text → Text
unfolding intersperse concat pairs
display_labels [] = []
display_labels (label ∷ labels) = concat (intersperse (codes ",") (pairs (label ∷ labels)))
