-- ===== src/Environment/Keys.antt =====
-- What `env_line` accepts.
use beam_init.Base.{
  length-append, ◌⊎◌, ◌∙◌, ap, ℕ, ◌≡◌, ◌≢◌, refl, inl, inr, Bool, true, ◌||◌, Option, none, some,
  [], ◌∷◌, ◌++◌, ◌==◌, length, all_of, arith,
}
use beam_init.Base.Text.{Text, starts_with}
use beam_init.Environment.Line.{
  tail, three_byte_space, space_of_two, space_of_three, wide_space, trim_from, split_once,
  space_len, trim_start, is_key_byte, ends_with, drop_last, quoted_by, unquote, accept, entry,
  env_line,
}

-- A key: not empty, and ASCII letters, digits and underscores only.
abbrev pub IsKey : Text → Type 0
IsKey k = (length k ≢ 0) × (all_of is_key_byte k ≡ true)

-- A key byte is neither white space, nor `#`, nor `=`.
is_key_byte_lem : (c : ℕ) → is_key_byte c ≡ true → (c ≢ 61) × (c ≢ 35) × (c ≢ 0)
unfolding is_key_byte
is_key_byte_lem c h = (λ e. ground arith, λ e. ground arith, λ e. ground arith)

space_len-key_byte : (c : ℕ) (rest : Text) → is_key_byte c ≡ true → space_len (c ∷ rest) ≡ 0
unfolding is_key_byte space_len wide_space space_of_three space_of_two three_byte_space
space_len-key_byte c [] h = ground arith
space_len-key_byte c (a ∷ []) h = ground arith
space_len-key_byte c (a ∷ b ∷ rest) h = ground arith

split_once-key :
    (k v : Text) → all_of is_key_byte k ≡ true → split_once 61 (k ++ 61 ∷ v) ≡ some (k, v)
unfolding split_once
split_once-key [] v h = refl
split_once-key (c ∷ k) v h =
    rw (split_once-key k v (ground arith)) (ground (arith, (is_key_byte_lem c (ground arith)).0))

accept-IsKey : (o : Option (Text × Text)) (k v : Text) → accept o ≡ some (k, v) → IsKey k
unfolding accept
accept-IsKey none k v h = absurd cc
accept-IsKey (some (j, w)) k v h = (λ e. ground arith, ground arith)

-- ASCII blanks.
abbrev pub is_blank : ℕ → Bool
is_blank c = c == 32 || c == 9

trim_start-key : (c : ℕ) (rest : Text) → is_key_byte c ≡ true → trim_start (c ∷ rest) ≡ c ∷ rest
unfolding trim_start trim_from
trim_start-key c rest h = rw (space_len-key_byte c rest h) refl

space_len-blank : (c : ℕ) (rest : Text) → is_blank c ≡ true → space_len (c ∷ rest) ≡ 1
unfolding space_len
space_len-blank c rest h = ground arith

trim_start-blanks :
    (indent s : Text) → all_of is_blank indent ≡ true → trim_start (indent ++ s) ≡ trim_start s
unfolding trim_start trim_from
trim_start-blanks [] s h = refl
trim_start-blanks (c ∷ indent) s h =
    rw (space_len-blank c (indent ++ s) (ground arith)) (trim_start-blanks indent s (ground arith))

entry-key : (k v : Text) → IsKey k → entry (k ++ 61 ∷ v) ≡ some (k, unquote v)
unfolding entry accept starts_with
entry-key [] v (n, h) = absurd (n refl)
entry-key (c ∷ k) v (n, h) =
    ground (arith, (is_key_byte_lem c (ground arith)).1, split_once-key (c ∷ k) v h, h)

-- A line with a key, an equals sign and a value, after any blanks.
pub env_line-entry :
    (indent k v : Text)
    → all_of is_blank indent ≡ true
    → IsKey k
    → env_line (indent ++ (k ++ 61 ∷ v)) ≡ some (k, unquote v)
unfolding env_line
env_line-entry indent [] v b (n, h) = absurd (n refl)
env_line-entry indent (c ∷ k) v b (n, h) =
    rw
      (
        trim_start-blanks indent ((c ∷ k) ++ 61 ∷ v) b,
        trim_start-key c (k ++ 61 ∷ v) (ground arith),
      )
      (entry-key (c ∷ k) v (n, h))

ends_with-append : (q x : ℕ) (v : Text) → ends_with q (x ∷ (v ++ q ∷ [])) ≡ true
unfolding ends_with
ends_with-append q x [] = ground arith
ends_with-append q x (y ∷ v) = ends_with-append q y v

drop_last-append : (q : ℕ) (v : Text) → drop_last (v ++ q ∷ []) ≡ v
unfolding drop_last
drop_last-append q [] = refl
drop_last-append q (x ∷ []) = refl
drop_last-append q (x ∷ y ∷ v) = ap (λ (t : Text). x ∷ t) (drop_last-append q (y ∷ v))

-- A quotation mark: `"` or `'`.
abbrev pub IsQuote : ℕ → Type 0
IsQuote q = (q ≡ 34) ⊎ (q ≡ 39)

unquote-quoted : (q : ℕ) (v : Text) → IsQuote q → unquote (q ∷ (v ++ q ∷ [])) ≡ v
unfolding unquote quoted_by starts_with tail
unquote-quoted q v (inl e) =
    rw e
      (ground (arith, length-append v (34 ∷ []), ends_with-append 34 34 v, drop_last-append 34 v))
unquote-quoted q v (inr e) =
    rw e
      (ground (arith, length-append v (39 ∷ []), ends_with-append 39 39 v, drop_last-append 39 v))

-- A value in quotation marks of either kind is read as it stands between them, whatever it is
-- (also with such marks, blanks, `=` or `#` inside), behind any key of ASCII letters, digits and
-- underscores and after any indentation.
pub env_line-quoted :
    (indent k v : Text) (q : ℕ)
    → all_of is_blank indent ≡ true
    → IsKey k
    → IsQuote q
    → env_line (indent ++ (k ++ 61 ∷ (q ∷ (v ++ q ∷ [])))) ≡ some (k, v)
env_line-quoted indent k v q b i m =
    env_line-entry indent k (q ∷ (v ++ q ∷ [])) b i ∙ ap (λ t. some (k, t)) (unquote-quoted q v m)

entry-IsKey : (line k v : Text) → entry line ≡ some (k, v) → IsKey k
unfolding entry
entry-IsKey line k v h = accept-IsKey (split_once 61 line) k v (ground (arith, h))

-- Every key that is read from a line is one that an environment may have: it is not empty, and it
-- has ASCII letters, digits and underscores only.
pub env_line-IsKey : (line k v : Text) → env_line line ≡ some (k, v) → IsKey k
unfolding env_line
env_line-IsKey line k v h = entry-IsKey (trim_start line) k v h
