-- ===== src/Logs/Sanitize.antt =====
-- `sanitize` of beam-init/src/logs.rs, over the code points of a line. Decoding the bytes
-- (`String::from_utf8`, or else `from_utf8_lossy`) is the argument `decode`.
use beam_init.Base.{
  ℕ, zero, suc, ◌+◌, ◌≡◌, refl, ap, ◌∙◌, inl, inr, Bool, true, false, ◌&&◌, ◌||◌, not, Option, none,
  some, List, [], ◌∷◌, arith, ltb, leb, ◌==◌, if◌then◌else◌, length, get_elem?, all_of, Bool-cases,
}

-- `char::is_control`: the general category Cc.
unfoldable pub is_control : ℕ → Bool
is_control ch = ltb ch 0x20 || (leb 0x7f ch && leb ch 0x9f)

unfoldable pub is_filtered_control : ℕ → Bool
unfolding is_control
is_filtered_control ch = is_control ch && not (ch == 10 || ch == 9)

-- `char::from_u32`: the scalar values, which leave out the surrogates.
from_u32 : ℕ → Option ℕ
from_u32 n = if ltb n 0xd800 || (leb 0xe000 n && leb n 0x10ffff) then some n else none

unfoldable pub replace : ℕ → Option ℕ
unfolding is_filtered_control from_u32
replace ch =
    if not (is_filtered_control ch)
    then some ch
    else if ltb ch 0x20
    then from_u32 (ch + 0x2400)
    else some 0x2370

any_filtered : List ℕ → Bool
any_filtered [] = false
any_filtered (ch ∷ chars) = is_filtered_control ch || any_filtered chars

cons_replaced : Option ℕ → Option (List ℕ) → Option (List ℕ)
cons_replaced none rest = none
cons_replaced (some ch) none = none
cons_replaced (some ch) (some rest) = some (ch ∷ rest)

replace_all : List ℕ → Option (List ℕ)
unfolding cons_replaced
replace_all [] = some []
replace_all (ch ∷ chars) = cons_replaced (replace ch) (replace_all chars)

sanitize_chars : List ℕ → Option (List ℕ)
sanitize_chars line = if not (any_filtered line) then some line else replace_all line

-- `none` stands for the panic of the `expect` on `char::from_u32`.
unfoldable pub sanitize : (decode : List ℕ → List ℕ) → List ℕ → Option (List ℕ)
unfolding sanitize_chars any_filtered replace_all
sanitize decode bytes = sanitize_chars (decode bytes)

-- What a sanitized line owes to the decoded one.
pub record IsSanitized (chars out : List ℕ) : Type 0 where
  pub clean : all_of (λ ch. not (is_filtered_control ch)) out ≡ true
  pub same_length : length out ≡ length chars
  pub keeps :
      (i ch : ℕ)
      → get_elem? chars i ≡ some ch
      → is_filtered_control ch ≡ false
      → get_elem? out i ≡ some ch

replace_lem :
    (ch : ℕ)
    → (c : ℕ) × (replace ch ≡ some c)
      × (is_filtered_control c ≡ false)
      × (is_filtered_control ch ≡ false → c ≡ ch)
unfolding replace
replace_lem ch = elim (Bool-cases (is_filtered_control ch)) [
  | inl e ↦ elim (Bool-cases (ltb ch 0x20)) [
    | inl low ↦ (ch + 0x2400, ground arith, ground arith, ground arith)
    | inr high ↦ (0x2370, ground arith, ground arith, ground arith)
  ]
  | inr e ↦ (ch, ground arith, ground arith, ground arith)
]

replace_all_lem :
    (chars : List ℕ) → (out : List ℕ) × (replace_all chars ≡ some out) × IsSanitized chars out
unfolding replace_all
replace_all_lem [] = ([], refl, record { clean = refl; same_length = refl; keeps = λ i ch h f. h })
replace_all_lem (ch ∷ chars) =
    let (c, step, is_clean, same) = replace_lem ch in
    let (out, more, s) = replace_all_lem chars in
    (
      c ∷ out,
      ground (arith, step, more),
      record {
        clean = ground (arith, is_clean, s.clean);
        same_length = ground (arith, s.same_length);
        keeps = kept c out same s;
      },
    )
  where
    kept :
        (c : ℕ) (out : List ℕ)
        → (is_filtered_control ch ≡ false → c ≡ ch)
        → IsSanitized chars out
        → (i d : ℕ) → get_elem? (ch ∷ chars) i ≡ some d
        → is_filtered_control d ≡ false
        → get_elem? (c ∷ out) i ≡ some d
    kept c out same s zero d h f = let e : ch ≡ d = ground arith in ap some (same (rw e f)) ∙ h
    kept c out same s (suc i) d h f = s.keeps i d h f

unfiltered :
    (chars : List ℕ)
    → any_filtered chars ≡ false
    → all_of (λ ch. not (is_filtered_control ch)) chars ≡ true
unfolding any_filtered
unfiltered [] h = refl
unfiltered (ch ∷ chars) h = ground (arith, unfiltered chars)

pub sanitize-IsSanitized :
    (decode : List ℕ → List ℕ) (bytes : List ℕ)
    → (out : List ℕ) × (sanitize decode bytes ≡ some out) × IsSanitized (decode bytes) out
unfolding sanitize
sanitize-IsSanitized decode bytes = elim (Bool-cases (any_filtered (decode bytes))) [
  | inl e ↦ let (out, h, s) = replace_all_lem (decode bytes) in (out, rw e h, s)
  | inr e ↦ (
    decode bytes,
    rw e refl,
    record { clean = unfiltered (decode bytes) e; same_length = refl; keeps = λ i ch h f. h },
  )
]
