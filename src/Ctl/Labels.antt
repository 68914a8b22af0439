-- ===== src/Ctl/Labels.antt =====
-- What the value parsers of beam-init/src/bin/beamctl.rs accept.
use beam_init.Base.{
  ℕ, ◌+◌, ◌-◌, ◌*◌, ◌^◌, ◌<◌, ◌≡◌, ◌↔◌, refl, ap, inl, inr, false, ◌||◌, some, [], ◌∷◌, ◌++◌, ◌==◌,
  ltb, leb, if◌then◌else◌, arith, Bool-cases, Option-cases, subst₂,
}
use beam_init.Base.Text.{Text, contains}
use beam_init.Environment.Line.{split_once, before_rest}
use beam_init.Services.Spawn.Entries.{split_once-append}
use beam_init.Ctl.Parse.{ok, parse_label, split_label, has_control, parse_u64, parse_digits}

-- What `split_once` found: the text is the two parts with the byte between, which the first has not.
record IsSplit (byte : ℕ) (text k v : Text) : Type 0 where
  whole : text ≡ k ++ byte ∷ v
  first : contains byte k ≡ false

split_once-IsSplit :
    (byte : ℕ) (text k v : Text) → split_once byte text ≡ some (k, v) → IsSplit byte text k v
unfolding split_once before_rest contains
split_once-IsSplit byte [] k v h = absurd (cc)
split_once-IsSplit byte (x ∷ text) k v h = elim (Bool-cases (x == byte)) [
  | inl e ↦
      let p : ◌≡◌ {A = Text} [] k = ground (arith, h, e) in
      let q : text ≡ v = ground (arith, h, e) in
      subst₂ (IsSplit byte (x ∷ text)) p q
        (record { whole = ap (λ c. c ∷ text) (ground (arith, e)); first = refl })
  | inr e ↦ elim (Option-cases (split_once byte text)) [
    | inl n ↦ absurd (ground (arith, h, e, n))
    | inr ((j, w), f) ↦
        let i = split_once-IsSplit byte text j w f in
        let p : x ∷ j ≡ k = ground (arith, h, e, f) in
        let q : w ≡ v = ground (arith, h, e, f) in
        subst₂ (IsSplit byte (x ∷ text)) p q
          (record { whole = ap (λ (t : Text). x ∷ t) i.whole; first = ground (arith, e, i.first) })
  ]
]

-- A label that is a text with one equals sign and no control characters.
abbrev pub IsLabel : Text → Text → Text → Type 0
IsLabel label k v =
    (label ≡ k ++ b'=' ∷ v)
    × (contains b'=' k ≡ false)
    × (contains b'=' v ≡ false)
    × (has_control label ≡ false)

parse_label→IsLabel : (label k v : Text) → parse_label label ≡ ok (k, v) → IsLabel label k v
unfolding parse_label split_label
parse_label→IsLabel label k v h = elim (Bool-cases (has_control label)) [
  | inl e ↦ absurd (ground (arith, h, e))
  | inr e ↦ elim (Option-cases (split_once b'=' label)) [
    | inl n ↦ absurd (ground (arith, h, e, n))
    | inr ((j, w), f) ↦ elim (Bool-cases (contains b'=' w)) [
      | inl g ↦ absurd (ground (arith, h, e, f, g))
      | inr g ↦
          let i = split_once-IsSplit b'=' label j w f in
          let p : j ≡ k = ground (arith, h, e, f, g) in
          let q : w ≡ v = ground (arith, h, e, f, g) in
          subst₂ (IsLabel label) p q (i.whole, i.first, g, e)
    ]
  ]
]

IsLabel→parse_label : (label k v : Text) → IsLabel label k v → parse_label label ≡ ok (k, v)
unfolding parse_label split_label
IsLabel→parse_label label k v (whole, key, value, control) =
    rw (control, whole, split_once-append b'=' k v key, value) refl

-- A text is read as a label exactly if it is the key and the value with one equals sign between
-- them, no other equals sign and no control character.
pub parse_label_iff : (label k v : Text) → (parse_label label ≡ ok (k, v)) ↔ IsLabel label k v
parse_label_iff label k v = (parse_label→IsLabel label k v, IsLabel→parse_label label k v)

parse_digits-bound : (s : Text) (n m : ℕ) → n < 2 ^ 64 → parse_digits n s ≡ ok m → m < 2 ^ 64
unfolding parse_digits
parse_digits-bound [] n m b h = ground (arith, b, h)
parse_digits-bound (c ∷ s) n m b h = elim (Bool-cases (ltb c b'0' || ltb b'9' c)) [
  | inl e ↦ absurd (ground (arith, h, e))
  | inr e ↦ elim (Bool-cases (leb (2 ^ 64) (n * 10 + (c - b'0')))) [
    | inl f ↦ absurd (ground (arith, h, e, f))
    | inr f ↦
        parse_digits-bound s (n * 10 + (c - b'0')) m (ground (arith, f)) (ground (arith, h, e, f))
  ]
]

-- A duration that is accepted fits 64 bits.
pub parse_u64-bound : (s : Text) (n : ℕ) → parse_u64 s ≡ ok n → n < 2 ^ 64
unfolding parse_u64
parse_u64-bound [] n h = absurd (ground (arith, h))
parse_u64-bound (c ∷ []) n h = elim (Bool-cases (c == b'+')) [
  | inl e ↦ absurd (ground (arith, h, e))
  | inr e ↦ parse_digits-bound (c ∷ []) 0 n (omega arith) (ground (arith, h, e))
]
parse_u64-bound (c ∷ d ∷ s) n h =
    parse_digits-bound (if c == b'+' then d ∷ s else c ∷ d ∷ s) 0 n (omega arith) h
