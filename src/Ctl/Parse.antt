-- ===== src/Ctl/Parse.antt =====
-- The value parsers of beam-init/src/bin/beamctl.rs.
use beam_init.Base.{
  ℕ, ◌+◌, ◌-◌, ◌*◌, ◌^◌, Bool, false, ◌&&◌, ◌||◌, Option, none, some, [], ◌∷◌, ◌++◌, ◌==◌, leb, ltb,
  length, if◌then◌else◌,
}
use beam_init.Base.Text.{Text, codes, contains}
use beam_init.Environment.Line.{split_once}

pub data ParseLabelError : Type 0 where
  invalid_key_value : Text → ParseLabelError
  not_key_value : ParseLabelError

unfoldable pub display_label_error : ParseLabelError → Text
display_label_error not_key_value = codes "not a key-value pair"
display_label_error (invalid_key_value value) =
    codes "'" ++ (value ++ codes "' is not a valid key-value pair")

pub data Parsed {ℓ κ} (E : Type ℓ) (A : Type κ) : Type (ℓ ⊔ κ) where
  ok : A → Parsed E A
  err : E → Parsed E A

-- `label.chars().any(|ch| ch.is_control())` on UTF-8: the characters below 0x20, 0x7F, and those
-- from 0x80 to 0x9F, which are encoded with the first byte 0xC2.
is_c1 : Text → Bool
is_c1 [] = false
is_c1 (c ∷ rest) = leb 0x80 c && leb c 0x9f

unfoldable pub has_control : Text → Bool
unfolding is_c1
has_control [] = false
has_control (c ∷ rest) = ltb c 32 || (c == 127 || ((c == 0xc2 && is_c1 rest) || has_control rest))

unfoldable pub split_label : Text → Option (Text × Text) → Parsed ParseLabelError (Text × Text)
split_label label none = err not_key_value
split_label label (some (key, value)) =
    if contains b'=' value then err (invalid_key_value label) else ok (key, value)

unfoldable pub parse_label : Text → Parsed ParseLabelError (Text × Text)
unfolding split_label
parse_label label =
    if has_control label
    then err (invalid_key_value label)
    else split_label label (split_once b'=' label)

unfoldable pub split_key_value : Text → Option (Text × Text) → Parsed Text (Text × Text)
split_key_value s none = err (codes "invalid KEY=VALUE: `=` not found in " ++ s)
split_key_value s (some (k, v)) =
    if length k == 0 then err (codes "environment variable key cannot be empty") else ok (k, v)

unfoldable pub parse_key_value : Text → Parsed Text (Text × Text)
unfolding split_key_value
parse_key_value s = split_key_value s (split_once b'=' s)

-- `str::parse::<u64>`.
pub data ParseIntError : Type 0 where
  empty invalid_digit pos_overflow : ParseIntError

-- `n` is the value of the digits read so far.
unfoldable pub parse_digits : ℕ → Text → Parsed ParseIntError ℕ
parse_digits n [] = ok n
parse_digits n (c ∷ s) =
    let more = parse_digits (n * 10 + (c - b'0')) s in
    if ltb c b'0' || ltb b'9' c
    then err invalid_digit
    else if leb (2 ^ 64) (n * 10 + (c - b'0'))
    then err pos_overflow
    else more

-- A plus sign is taken off; alone it is an invalid digit.
unfoldable pub parse_u64 : Text → Parsed ParseIntError ℕ
unfolding parse_digits
parse_u64 [] = err empty
parse_u64 (c ∷ []) = if c == b'+' then err invalid_digit else parse_digits 0 (c ∷ [])
parse_u64 (c ∷ d ∷ s) = parse_digits 0 (if c == b'+' then d ∷ s else c ∷ d ∷ s)

-- Durations are counted in seconds here.
unfoldable pub parse_duration_seconds : Text → Parsed ParseIntError ℕ
parse_duration_seconds s = parse_u64 s
