-- ===== src/Environment/Line.antt =====
-- `env_line` of beam-init/src/environment.rs with the methods of `str` that it calls.
use beam_init.Base.{
  ℕ, zero, suc, ◌-◌, Bool, false, not, ◌&&◌, ◌||◌, Option, none, some, List, [], ◌∷◌, ◌==◌, leb,
  if◌then◌else◌, length, all_of,
}
use beam_init.Base.Text.{Text, starts_with}

-- `split_once('=')` and the like: at the first such byte.
unfoldable pub before_rest : ℕ → Option (Text × Text) → Option (Text × Text)
before_rest x none = none
before_rest x (some (k, v)) = some (x ∷ k, v)

unfoldable pub split_once : ℕ → Text → Option (Text × Text)
unfolding before_rest
split_once byte [] = none
split_once byte (x ∷ xs) =
    let rest = before_rest x (split_once byte xs) in if x == byte then some ([], xs) else rest

-- How many bytes the white space takes with which a text begins (`char::is_whitespace`), 0 if it
-- begins with something else. The text is UTF-8.
unfoldable pub three_byte_space : ℕ → ℕ → ℕ → Bool
three_byte_space a b c =
    (a == 0xe1 && (b == 0x9a && c == 0x80))
    || ((a == 0xe2
          && (b == 0x80 && (leb 0x80 c && leb c 0x8a || (c == 0xa8 || (c == 0xa9 || c == 0xaf)))))
        || ((a == 0xe2 && (b == 0x81 && c == 0x9f)) || (a == 0xe3 && (b == 0x80 && c == 0x80))))

unfoldable pub space_of_two : ℕ → ℕ → ℕ
space_of_two a b = if a == 0xc2 && (b == 0x85 || b == 0xa0) then 2 else 0

unfoldable pub space_of_three : ℕ → ℕ → ℕ → ℕ
unfolding three_byte_space space_of_two
space_of_three a b c = if three_byte_space a b c then 3 else space_of_two a b

unfoldable pub wide_space : Text → ℕ
unfolding space_of_three space_of_two
wide_space [] = 0
wide_space (a ∷ []) = 0
wide_space (a ∷ b ∷ []) = space_of_two a b
wide_space (a ∷ b ∷ c ∷ rest) = space_of_three a b c

unfoldable pub space_len : Text → ℕ
unfolding wide_space
space_len [] = 0
space_len (a ∷ rest) = if (leb 9 a && leb a 13) || a == 32 then 1 else wide_space (a ∷ rest)

-- `skip` bytes of the white space met last are left.
unfoldable pub trim_from : ℕ → Text → Text
unfolding space_len
trim_from skip [] = []
trim_from (suc skip) (x ∷ xs) = trim_from skip xs
trim_from zero (x ∷ xs) =
    let rest = trim_from (space_len (x ∷ xs) - 1) xs in
    if space_len (x ∷ xs) == 0 then x ∷ xs else rest

unfoldable pub trim_start : Text → Text
unfolding trim_from
trim_start s = trim_from 0 s

-- `u8::is_ascii_alphanumeric`, or an underscore.
unfoldable pub is_key_byte : ℕ → Bool
is_key_byte c =
    (leb b'0' c && leb c b'9')
    || ((leb b'A' c && leb c b'Z') || ((leb b'a' c && leb c b'z') || c == b'_'))

unfoldable pub ends_with : ℕ → Text → Bool
ends_with byte [] = false
ends_with byte (x ∷ []) = x == byte
ends_with byte (x ∷ y ∷ xs) = ends_with byte (y ∷ xs)

-- `&s[..s.len() - 1]` of a text that is not empty.
unfoldable pub drop_last : Text → Text
drop_last [] = []
drop_last (x ∷ []) = []
drop_last (x ∷ y ∷ xs) = x ∷ drop_last (y ∷ xs)

unfoldable pub tail : Text → Text
tail [] = []
tail (x ∷ xs) = xs

unfoldable pub quoted_by : ℕ → Text → Bool
quoted_by quote v = starts_with v (quote ∷ []) && ends_with quote v

-- `if v.len() >= 2 && (…) { v = &v[1..(v.len() - 1)] }`.
unfoldable pub unquote : Text → Text
unfolding quoted_by tail drop_last
unquote v = if leb 2 (length v) && (quoted_by 34 v || quoted_by 39 v) then drop_last (tail v) else v

unfoldable pub accept : Option (Text × Text) → Option (Text × Text)
unfolding unquote is_key_byte
accept none = none
accept (some (k, v)) =
    if length k == 0 || not (all_of is_key_byte k) then none else some (k, unquote v)

unfoldable pub entry : Text → Option (Text × Text)
unfolding accept
entry line =
    if length line == 0 || starts_with line (b'#' ∷ []) then none else accept (split_once b'=' line)

unfoldable pub env_line : Text → Option (Text × Text)
unfolding entry trim_start
env_line line = entry (trim_start line)

-- `str::lines`: a line ends at LF or CRLF, and the end of the last one may be missing.
starts_with_newline : Text → Bool
starts_with_newline [] = false
starts_with_newline (x ∷ xs) = x == 10

first_line : ℕ → List Text → List Text
first_line x [] = (x ∷ []) ∷ []
first_line x (l ∷ ls) = (x ∷ l) ∷ ls

unfoldable pub lines : Text → List Text
unfolding first_line starts_with_newline
lines [] = []
lines (x ∷ xs) =
    let rest = lines xs in
    if x == 10
    then [] ∷ rest
    else if x == 13 && starts_with_newline xs
    then rest
    else first_line x rest
