-- ===== src/Environment/UserLookup.antt =====
-- `get_user_info` of beam-init/src/environment.rs: the loop that asks `getpwuid_r` again with a larger
-- buffer. What the C library returns for a buffer of some length is an argument, in which a null
-- pointer is `none`.
use beam_init.Base.{
  false, Option-cases, ℕ, zero, suc, ◌*◌, ◌^◌, ◌<◌, ◌≤◌, ◌≡◌, refl, ap, ◌∙◌, sym, inl, inr, Option,
  none, some, [], leb, Bool-cases, arith, if◌then◌else◌,
}
use native.Mathlib.Nat.{pow-succ', mul_assoc}
use beam_init.Base.Text.{Text, codes}
use beam_init.Services.Spawn.{IoResult, done, failed}
use beam_init.Environment.{UserInfo}

pub record Passwd : Type 0 where
  pub pw_name : Option Text
  pub pw_dir : Option Text

-- `erange` is the code of a buffer that is too small, `not_found` 0 with a null result.
pub data Lookup : Type 0 where
  erange not_found : Lookup
  found : Passwd → Lookup
  error_code : ℕ → Lookup

dir_or_empty : Option Text → Text
dir_or_empty none = []
dir_or_empty (some dir) = dir

-- The part behind the loop.
unfoldable pub user_info_of : Option Text → Option Text → IoResult (Option UserInfo)
unfolding dir_or_empty
user_info_of none dir = failed (record { raw_os_error = none; message = codes "user is null" })
user_info_of (some name) dir = done (some (record { user = name; home = dir_or_empty dir }))

abbrev too_large : IoResult (Option UserInfo)
too_large = failed (record { raw_os_error = none; message = codes "buffer too large" })

-- What a round ends the loop with; `none` is another round.
unfoldable pub settled : (os_error_text : ℕ → Text) → Lookup → Option (IoResult (Option UserInfo))
unfolding user_info_of
settled os_error_text erange = none
settled os_error_text not_found = some (done none)
settled os_error_text (found pwd) = some (user_info_of pwd.pw_name pwd.pw_dir)
settled os_error_text (error_code code) =
    some (failed (record { raw_os_error = some code; message = os_error_text code }))

-- `get_user_info` returns, or panics.
pub data Ending : Type 0 where
  returned : IoResult (Option UserInfo) → Ending
  panicked : Ending

zero_pow : (n : ℕ) → n * 2 ^ 0 ≡ n
zero_pow n = omega arith

double_pow : (n k : ℕ) → n * 2 ^ suc k ≡ n * 2 * 2 ^ k
double_pow n k = ap (λ (p : ℕ). n * p) (pow-succ' 2 k) ∙ sym (mul_assoc n 2 (2 ^ k))

fits : (n : ℕ) → n < 2 ^ 63 → leb (2 ^ 64) (n * 2) ≡ false
fits n h = ground (arith, h)

module _ (getpwuid_r : (buflen : ℕ) → Lookup) (os_error_text : ℕ → Text) where
  -- The rest of the loop after a round.
  or_else : Option (IoResult (Option UserInfo)) → Option Ending → Option Ending
  or_else none more = more
  or_else (some r) more = some (returned r)

  -- `checked_mul`, whose product is an error if it does not fit the 64 bits of a `usize`, and then
  -- `resize`, which panics above `isize::MAX`.
  enlarged : (buflen : ℕ) → Option Ending → Option Ending
  enlarged buflen more =
      if leb (2 ^ 64) (buflen * 2)
      then some (returned too_large)
      else if leb (2 ^ 63) (buflen * 2)
      then some panicked
      else more

  -- The loop on fuel, which a round takes one of; `none` is that it ran out.
  unfoldable pub lookup : (fuel buflen : ℕ) → Option Ending
  unfolding or_else settled enlarged
  lookup zero buflen = none
  lookup (suc fuel) buflen =
      let more = lookup fuel (buflen * 2) in
      or_else (settled os_error_text (getpwuid_r buflen)) (enlarged buflen more)

  -- `vec![0; buflen]`, which panics above `isize::MAX`, and the loop.
  allocated : (buflen : ℕ) → Option Ending
  unfolding lookup
  allocated buflen = if leb (2 ^ 63) buflen then some panicked else lookup 64 buflen

  -- `sysconf(_SC_GETPW_R_SIZE_MAX)`, where -1 is `none`.
  unfoldable pub get_user_info : (sysconf : Option ℕ) → Option Ending
  unfolding allocated
  get_user_info none = allocated 1024
  get_user_info (some buflen) = allocated buflen

  -- The first buffer, among those of the first length and its doubles, that is not too small decides;
  -- if all those that can be allocated are too small there is a panic.
  pub data Decides : (buflen : ℕ) → Ending → Type 0 where
    at_once :
        {buflen : ℕ} {r : IoResult (Option UserInfo)}
        → buflen < 2 ^ 63
        → settled os_error_text (getpwuid_r buflen) ≡ some r
        → Decides buflen (returned r)
    too_long : {buflen : ℕ} → 2 ^ 63 ≤ buflen → Decides buflen panicked
    later :
        {buflen : ℕ} {r : Ending}
        → buflen < 2 ^ 63
        → settled os_error_text (getpwuid_r buflen) ≡ none
        → Decides (buflen * 2) r
        → Decides buflen r

  lookup-Decides :
      (fuel buflen : ℕ)
      → buflen < 2 ^ 63
      → 2 ^ 63 ≤ buflen * 2 ^ fuel
      → (r : Ending) × (lookup fuel buflen ≡ some r) × Decides buflen r
  unfolding lookup or_else enlarged
  lookup-Decides zero buflen b e = absurd (omega (arith, b, e, zero_pow buflen))
  lookup-Decides (suc fuel) buflen b e =
      elim (Option-cases (settled os_error_text (getpwuid_r buflen))) [
        | inr (r, s) ↦ (returned r, rw s refl, at_once b s)
        | inl s ↦ elim (Bool-cases (leb (2 ^ 63) (buflen * 2))) [
          | inl t ↦
              (panicked, rw (s, fits buflen b, t) refl, later b s (too_long (ground (arith, t))))
          | inr t ↦
              let (r, l, d) =
                lookup-Decides fuel (buflen * 2) (ground (arith, t))
                  (omega (arith, e, double_pow buflen fuel)) in
              (r, rw (s, fits buflen b, t) l, later b s d)
        ]
      ]

  abbrev pub buffer_length : Option ℕ → ℕ
  buffer_length none = 1024
  buffer_length (some buflen) = buflen

  allocated-Decides :
      (buflen : ℕ) → 1 ≤ buflen → (r : Ending) × (allocated buflen ≡ some r) × Decides buflen r
  unfolding allocated
  allocated-Decides buflen p = elim (Bool-cases (leb (2 ^ 63) buflen)) [
    | inl t ↦ (panicked, rw t refl, too_long (ground (arith, t)))
    | inr t ↦
        let (r, l, d) = lookup-Decides 64 buflen (ground (arith, t)) (omega (arith, p)) in
        (r, rw t l, d)
  ]

  -- 64 rounds are enough for `get_user_info` to end, whatever the C library returns, if the first
  -- length is at least one byte: the first buffer among those of the doubled lengths that is large
  -- enough decides what it returns, and if none of those below 2^63 bytes is, it panics.
  pub get_user_info-Decides :
      (sysconf : Option ℕ)
      → 1 ≤ buffer_length sysconf
      → (r : Ending) × (get_user_info sysconf ≡ some r) × Decides (buffer_length sysconf) r
  unfolding get_user_info
  get_user_info-Decides none p = allocated-Decides 1024 p
  get_user_info-Decides (some buflen) p = allocated-Decides buflen p
