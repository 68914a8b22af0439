-- ===== src/Environment.antt =====
-- beam-init/src/environment.rs: the environment that a new service starts from.
-- Texts are their bytes. Reading a file and looking a user up are arguments.
pub mod Line
pub mod Keys
pub mod Sources
pub mod UserLookup
pub mod Examples
use beam_init.Base.{ℕ, zero, suc, Option, none, some, List, [], ◌∷◌, ◌==◌, if◌then◌else◌}
use beam_init.Base.Text.{Text, codes}
use beam_init.Base.Map
use beam_init.Base.Map.{Map}
use beam_init.Services.Spawn.{IoResult, done, failed, ◌>>=◌}
use Line.{lines, env_line}

pub record UserInfo : Type 0 where
  pub user : Text
  pub home : Text

abbrev pub default_user_path : Text
default_user_path = codes "/usr/local/bin:/usr/bin:/bin:/usr/local/games:/usr/games"

abbrev pub default_root_path : Text
default_root_path = codes "/usr/local/sbin:/usr/local/bin:/usr/sbin:/usr/bin:/sbin:/bin"

-- `filter_map(env_line)` collected into a map: of two lines with one key the later counts.
unfoldable pub insert_line : Option (Text × Text) → Map Text → Map Text
insert_line none env = env
insert_line (some (k, v)) env = Map.insert k v env

unfoldable pub insert_lines : List Text → Map Text → Map Text
unfolding insert_line
insert_lines [] env = env
insert_lines (line ∷ rest) env = insert_lines rest (insert_line (env_line line) env)

unfoldable pub env_from_contents : Text → Map Text
unfolding insert_lines
env_from_contents contents = insert_lines (lines contents) []

unfoldable pub env_from_file : (read : Text → IoResult Text) → Text → IoResult (Map Text)
unfolding env_from_contents
env_from_file read path = do contents ← read path; done (env_from_contents contents)

-- The loop of `env_from_files` over the files left.
unfoldable pub extend_from :
    (read : Text → IoResult Text) → List Text → Map Text → IoResult (Map Text)
extend_from read [] env = done env
extend_from read (path ∷ paths) env =
    env_from_file read path >>= λ more. extend_from read paths (Map.extend env more)

unfoldable pub env_from_files : (read : Text → IoResult Text) → List Text → IoResult (Map Text)
unfolding extend_from
env_from_files read paths = extend_from read paths []

-- An error of the look-up is printed, and the environment stays empty.
unfoldable pub build_base_environment : IoResult (Option UserInfo) → Map Text
build_base_environment (done none) = []
build_base_environment (done (some info)) =
    Map.insert (codes "HOME") info.home (Map.insert (codes "USER") info.user [])
build_base_environment (failed e) = []

unfoldable pub build_environment :
    (user_info : ℕ → IoResult (Option UserInfo)) (read : Text → IoResult Text)
    → ℕ
    → List Text
    → IoResult (Map Text)
build_environment user_info read user env_files = do
  let path = if user == 0 then default_root_path else default_user_path
  let env = Map.insert (codes "PATH") path (build_base_environment (user_info user))
  envf ← env_from_files read env_files
  done (Map.extend env envf)
