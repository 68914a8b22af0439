-- ===== src/Environment/Examples.antt =====
-- Lines and files of an environment at concrete inputs.
use beam_init.Base.{
  ltb, if◌then◌else◌, Option, ◌≡◌, refl, none, some, Option, ℕ, [], ◌∷◌, inr, ◌++◌, arith,
}
use beam_init.Base.Text.{starts_with, text_eq, text_lt, Text, codes}
use beam_init.Base.Map
use beam_init.Base.Map.{Map}
use beam_init.Services.Spawn.{IoResult, done}
use beam_init.Environment.{
  env_from_files, env_from_file, build_base_environment, UserInfo, build_environment,
}
use beam_init.Environment.UserLookup.{
  Ending, Lookup, erange, get_user_info, Decides, get_user_info-Decides,
}
use beam_init.Environment.{UserInfo}
use beam_init.Services.Spawn.{IoResult}
use beam_init.Environment.Line.{lines, split_once, env_line, is_key_byte}
use beam_init.Environment.Keys.{env_line-quoted, IsKey}
use beam_init.Environment.Sources.{get-build_environment, in_files, or_else, default_value}

A_1-IsKey : IsKey (codes "A_1")
unfolding is_key_byte
A_1-IsKey = (λ e. omega (arith, e), refl)

env_line-quoted_example :
    env_line (codes "  " ++ (codes "A_1" ++ 61 ∷ (39 ∷ (codes "it's" ++ 39 ∷ []))))
    ≡ some (codes "A_1", codes "it's")
env_line-quoted_example =
    env_line-quoted (codes "  ") (codes "A_1") (codes "it's") 39 refl A_1-IsKey (inr refl)

abbrev user_info : ℕ → IoResult (Option UserInfo)
user_info user = done none

abbrev read : Text → IoResult Text
read path = done (codes "A=1")

abbrev built : Map Text
built =
    (codes "A", codes "1")
    ∷ (codes "PATH", codes "/usr/local/sbin:/usr/local/bin:/usr/sbin:/usr/bin:/sbin:/bin")
    ∷ []

get-build_environment_example :
    Map.get (codes "A") built
    ≡ or_else
        (in_files read (codes "A") (codes "/etc/env" ∷ []))
        (default_value user_info 0 (codes "A"))
unfolding build_environment env_from_files env_from_file Map.extend lines env_line starts_with
    split_once Map.insert build_base_environment text_eq text_lt
get-build_environment_example =
    get-build_environment user_info read 0 (codes "/etc/env" ∷ []) built (codes "A") refl

-- A database that needs 3000 bytes for its one entry.
passwd : ℕ → Lookup
passwd buflen =
    if ltb buflen 3000
    then erange
    else Lookup.found (record { pw_name = some (codes "alice"); pw_dir = none })

abbrev no_text : ℕ → Text
no_text code = []

get_user_info-Decides_example :
    (r : Ending) × (get_user_info passwd no_text none ≡ some r) × Decides passwd no_text 1024 r
get_user_info-Decides_example = get_user_info-Decides passwd no_text none (omega arith)
