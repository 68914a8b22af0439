-- ===== src/Ctl/Name.antt =====
-- `gen_name` of beam-init/src/bin/beamctl.rs over `getrandom` of beam-init/src/system/mod.rs: the name
-- that a service without a name is given. What the kernel answers is an argument.
use beam_init.Base.{
  ◌||◌, ◌&&◌, leb, Bool, length-append, ℕ, zero, suc, ◌+◌, ◌-◌, ◌*◌, ◌/◌, ◌%◌, ◌≤◌, ◌<◌, ◌≡◌, refl,
  true, false, List, [], ◌∷◌, ◌++◌, ◌==◌, ltb, length, all_of, if◌then◌else◌, arith,
}
use beam_init.Base.Text.{Text}
use beam_init.Environment.Line.{is_key_byte}
use beam_init.Server.Dispatch.{IsPlain, is_plain_byte}

-- What a call of `libc::getrandom` returns: the bytes that it put at the start of the buffer, an
-- interruption, or another error.
pub data Answer : Type 0 where
  filled : List ℕ → Answer
  interrupted failed : Answer

-- The buffer behind the bytes that are there, `panicked`, or that the kernel has not answered yet.
pub data Filling : Type 0 where
  full : List ℕ → Filling
  panicked waiting : Filling

unfoldable pub prepended : List ℕ → Filling → Filling
prepended bytes (full rest) = full (bytes ++ rest)
prepended bytes panicked = panicked
prepended bytes waiting = waiting

-- `getrandom` on a buffer with `len` bytes, answer by answer. A part longer than the buffer would
-- make the slicing panic.
unfoldable pub getrandom : List Answer → (len : ℕ) → Filling
unfolding prepended
getrandom [] len = waiting
getrandom (filled bytes ∷ answers) len =
    let rest = getrandom answers (len - length bytes) in
    if length bytes == len
    then full bytes
    else if ltb len (length bytes)
    then panicked
    else prepended bytes rest
getrandom (interrupted ∷ answers) len = getrandom answers len
getrandom (failed ∷ answers) len = panicked

-- Answers that fill a buffer of `len` bytes with these bytes, in parts of any sizes, with
-- interruptions between them.
pub data Fills : (len : ℕ) → List ℕ → List Answer → Type 0 where
  last :
      (bytes : List ℕ) (answers : List Answer) → Fills (length bytes) bytes (filled bytes ∷ answers)
  part :
      {len : ℕ} {rest : List ℕ} {answers : List Answer} (bytes : List ℕ)
      → 1 ≤ len
      → Fills len rest answers
      → Fills (length bytes + len) (bytes ++ rest) (filled bytes ∷ answers)
  again :
      {len : ℕ} {bytes : List ℕ} {answers : List Answer}
      → Fills len bytes answers
      → Fills len bytes (interrupted ∷ answers)

not_all : (n l : ℕ) → 1 ≤ l → (n == n + l) ≡ false
not_all n l p = ground (arith, p)

not_more : (n l : ℕ) → ltb (n + l) n ≡ false
not_more n l = ground arith

left_over : (n l : ℕ) → n + l - n ≡ l
left_over n l = omega arith

-- However the kernel splits the bytes and however often it is interrupted, the loop ends with the
-- buffer full of these bytes in their order.
pub getrandom-Fills :
    (len : ℕ) (bytes : List ℕ) (answers : List Answer)
    → Fills len bytes answers
    → (getrandom answers len ≡ full bytes) × (length bytes ≡ len)
unfolding getrandom prepended
getrandom-Fills len bytes answers (last b more) = (ground arith, refl)
getrandom-Fills len bytes answers (part {len = l} {rest = rest} {answers = more} b p f) =
    let (g, n) = getrandom-Fills l rest more f in
    (
      rw (not_all (length b) l p, not_more (length b) l, left_over (length b) l, g) refl,
      omega (arith, n, length-append b rest),
    )
getrandom-Fills len bytes answers (again f) = getrandom-Fills _ _ _ f

-- `u64::from_ne_bytes` on a little-endian machine.
unfoldable pub from_ne_bytes : List ℕ → ℕ
from_ne_bytes [] = 0
from_ne_bytes (b ∷ bytes) = b + 256 * from_ne_bytes bytes

unfoldable pub hex_digit : ℕ → ℕ
hex_digit d = if ltb d 10 then b'0' + d else b'a' + (d - 10)

-- `{:016x}` of a number of 64 bits: the last `width` digits, with leading zeros.
unfoldable pub hex_onto : (width n : ℕ) → Text → Text
unfolding hex_digit
hex_onto zero n rest = rest
hex_onto (suc width) n rest = hex_onto width (n / 16) (hex_digit (n % 16) ∷ rest)

unfoldable pub name_of : Filling → Filling
unfolding hex_onto from_ne_bytes
name_of (full bytes) = full (hex_onto 16 (from_ne_bytes bytes) [])
name_of panicked = panicked
name_of waiting = waiting

unfoldable pub gen_name : List Answer → Filling
unfolding getrandom name_of
gen_name answers = name_of (getrandom answers 8)

-- `0` to `9` and `a` to `f`.
abbrev pub is_hex_byte : ℕ → Bool
is_hex_byte b = (leb 48 b && leb b 57) || (leb 97 b && leb b 102)

hex_digit-hex : (d : ℕ) → d < 16 → is_hex_byte (hex_digit d) ≡ true
unfolding hex_digit
hex_digit-hex d h = ground (arith, h)

hex_onto-hex :
    (width n : ℕ) (rest : Text)
    → all_of is_hex_byte rest ≡ true
    → all_of is_hex_byte (hex_onto width n rest) ≡ true
unfolding hex_onto
hex_onto-hex zero n rest h = h
hex_onto-hex (suc width) n rest h =
    hex_onto-hex width (n / 16) (hex_digit (n % 16) ∷ rest)
      (rw (hex_digit-hex (n % 16) (omega arith)) h)

hex_digit-plain : (d : ℕ) → d < 16 → is_plain_byte (hex_digit d) ≡ true
unfolding hex_digit is_key_byte
hex_digit-plain d h = ground (arith, h)

hex_onto-plain :
    (width n : ℕ) (rest : Text)
    → all_of is_plain_byte rest ≡ true
    → (all_of is_plain_byte (hex_onto width n rest) ≡ true)
      × (length (hex_onto width n rest) ≡ width + length rest)
unfolding hex_onto
hex_onto-plain zero n rest h = (h, omega arith)
hex_onto-plain (suc width) n rest h =
    let (p, l) =
      hex_onto-plain width (n / 16) (hex_digit (n % 16) ∷ rest)
        (rw (hex_digit-plain (n % 16) (omega arith)) h) in
    (p, omega (arith, l))

-- Once the kernel has given eight bytes, in whatever parts, there is a name: it has 16 bytes, all of
-- them hexadecimal digits from `0` to `9` and `a` to `f`, and it can stand in the path of a request
-- as it is.
pub gen_name-IsPlain :
    (bytes : List ℕ) (answers : List Answer)
    → Fills 8 bytes answers
    → (name : Text) × (gen_name answers ≡ full name)
      × (length name ≡ 16)
      × (all_of is_hex_byte name ≡ true)
      × IsPlain name
unfolding gen_name name_of
gen_name-IsPlain bytes answers f =
    let (p, l) = hex_onto-plain 16 (from_ne_bytes bytes) [] refl in
    (
      hex_onto 16 (from_ne_bytes bytes) [],
      rw ((getrandom-Fills 8 bytes answers f).0) refl,
      l,
      hex_onto-hex 16 (from_ne_bytes bytes) [] refl,
      (λ e. absurd (omega (arith, l, e)), p),
    )
