-- ===== src/Environment/Sources.antt =====
-- Which value a variable of a new service has: environment.rs, and `Command::CreateService` of
-- api_impl.rs.
use beam_init.Base.{
  ◌==◌, sym, subst, ℕ, ◌≡◌, refl, ap, ◌∙◌, inl, inr, Option, none, some, List, [], ◌∷◌,
  if◌then◌else◌, arith, Bool-cases,
}
use beam_init.Base.Text.{Text, codes, text_eq}
use beam_init.Base.Map
use beam_init.Base.Map.{Map, get-insert}
use beam_init.Base.Sorted.{get-IsAbove, IsSorted, insert-IsSorted}
use beam_init.Services.Spawn.{◌>>=◌, IoResult, done, failed}
use beam_init.Environment.Line.{lines, env_line}
use beam_init.Environment.{
  default_user_path, default_root_path, UserInfo, env_from_contents, env_from_file, env_from_files,
  extend_from, insert_lines, insert_line, build_environment, build_base_environment,
}

-- The first of two that is there.
abbrev pub or_else {ℓ} : {A : Type ℓ} → Option A → Option A → Option A
or_else none o = o
or_else (some a) o = some a

pub get-extend :
    {V : Type 0} (k : Text) (m n : Map V)
    → IsSorted n
    → Map.get k (Map.extend m n) ≡ or_else (Map.get k n) (Map.get k m)
unfolding Map.extend Map.get
get-extend k m [] s = refl
get-extend k m ((j, v) ∷ n) s =
    get-extend k (Map.insert j v m) n s.1 ∙ elim (Bool-cases (text_eq j k)) [
      | inl e ↦ rw (get-IsAbove j k n e s.0, get-insert j k v m, e) refl
      | inr e ↦ rw (get-insert j k v m, e) refl
    ]

-- The value that a line gives to `k`, and that of the last line that gives one.
unfoldable pub value_of : Text → Option (Text × Text) → Option Text
value_of k none = none
value_of k (some (j, v)) = if text_eq j k then some v else none

unfoldable pub last_value : Text → List Text → Option Text
last_value k [] = none
last_value k (line ∷ rest) = or_else (last_value k rest) (value_of k (env_line line))

or_else_assoc {ℓ} :
    {A : Type ℓ} (a b c : Option A) → or_else (or_else a b) c ≡ or_else a (or_else b c)
or_else_assoc none b c = refl
or_else_assoc (some a) b c = refl

get-insert_line :
    (k : Text) (o : Option (Text × Text)) (env : Map Text)
    → Map.get k (insert_line o env) ≡ or_else (value_of k o) (Map.get k env)
unfolding insert_line value_of
get-insert_line k none env = refl
get-insert_line k (some (j, v)) env = ground (arith, get-insert j k v env)

get-insert_lines :
    (k : Text) (ls : List Text) (env : Map Text)
    → Map.get k (insert_lines ls env) ≡ or_else (last_value k ls) (Map.get k env)
unfolding insert_lines last_value
get-insert_lines k [] env = refl
get-insert_lines k (line ∷ ls) env =
    get-insert_lines k ls (insert_line (env_line line) env)
    ∙ ap (or_else (last_value k ls)) (get-insert_line k (env_line line) env)
    ∙ sym (or_else_assoc (last_value k ls) (value_of k (env_line line)) (Map.get k env))

insert_line-IsSorted :
    (o : Option (Text × Text)) (env : Map Text) → IsSorted env → IsSorted (insert_line o env)
unfolding insert_line
insert_line-IsSorted none env s = s
insert_line-IsSorted (some (j, v)) env s = insert-IsSorted j v env s

insert_lines-IsSorted :
    (ls : List Text) (env : Map Text) → IsSorted env → IsSorted (insert_lines ls env)
unfolding insert_lines
insert_lines-IsSorted [] env s = s
insert_lines-IsSorted (line ∷ ls) env s =
    insert_lines-IsSorted ls _ (insert_line-IsSorted (env_line line) env s)

-- The value of `k` in a file, and in the last of some files that gives it one.
unfoldable pub in_file : Text → IoResult Text → Option Text
in_file k (done contents) = last_value k (lines contents)
in_file k (failed e) = none

unfoldable pub in_files : (Text → IoResult Text) → Text → List Text → Option Text
in_files read k [] = none
in_files read k (path ∷ paths) = or_else (in_files read k paths) (in_file k (read path))

or_else-none {ℓ} : {A : Type ℓ} (a : Option A) → or_else a none ≡ a
or_else-none none = refl
or_else-none (some a) = refl

get-env_from_contents :
    (k contents : Text) → Map.get k (env_from_contents contents) ≡ last_value k (lines contents)
unfolding env_from_contents Map.get
get-env_from_contents k contents =
    get-insert_lines k (lines contents) [] ∙ or_else-none (last_value k (lines contents))

env_from_contents-IsSorted : (contents : Text) → IsSorted (env_from_contents contents)
unfolding env_from_contents
env_from_contents-IsSorted contents = insert_lines-IsSorted (lines contents) [] tt

abbrev Extends : (Text → IoResult Text) → Text → List Text → Map Text → Type 0
Extends read k paths env =
    (all : Map Text)
    → extend_from read paths env ≡ done all
    → Map.get k all ≡ or_else (in_files read k paths) (Map.get k env)

extend_from_cons :
    (read : Text → IoResult Text) (k : Text) (paths : List Text) (env : Map Text)
    (r : IoResult Text)
    → ((more : Map Text) → Extends read k paths (Map.extend env more))
    → (all : Map Text)
    → ((do contents ← r; done (env_from_contents contents)) >>= λ more.
        extend_from read paths (Map.extend env more))
      ≡ done all
    → Map.get k all ≡ or_else (or_else (in_files read k paths) (in_file k r)) (Map.get k env)
unfolding in_file
extend_from_cons read k paths env (failed e) step all h = absurd cc
extend_from_cons read k paths env (done contents) step all h =
    step (env_from_contents contents) all h
    ∙ ap (or_else (in_files read k paths)) (
        get-extend k env (env_from_contents contents) (env_from_contents-IsSorted contents)
        ∙ ap (λ o. or_else o (Map.get k env)) (get-env_from_contents k contents))
    ∙ sym (or_else_assoc (in_files read k paths) (last_value k (lines contents)) (Map.get k env))

get-extend_from :
    (read : Text → IoResult Text) (k : Text) (paths : List Text) (env : Map Text)
    → Extends read k paths env
unfolding extend_from in_files env_from_file
get-extend_from read k [] env all h = cc
get-extend_from read k (path ∷ paths) env all h =
    extend_from_cons read k paths env (read path)
      (λ more. get-extend_from read k paths (Map.extend env more)) all h

extend-IsSorted : {V : Type 0} (m n : Map V) → IsSorted m → IsSorted (Map.extend m n)
unfolding Map.extend
extend-IsSorted m [] s = s
extend-IsSorted m ((k, v) ∷ n) s = extend-IsSorted (Map.insert k v m) n (insert-IsSorted k v m s)

abbrev Sorts : (Text → IoResult Text) → List Text → Map Text → Type 0
Sorts read paths env = (all : Map Text) → extend_from read paths env ≡ done all → IsSorted all

extend_from-Sorts :
    (read : Text → IoResult Text) (paths : List Text) (env : Map Text) (r : IoResult Text)
    → ((more : Map Text) → Sorts read paths (Map.extend env more))
    → (all : Map Text)
    → ((do contents ← r; done (env_from_contents contents)) >>= λ more.
        extend_from read paths (Map.extend env more))
      ≡ done all
    → IsSorted all
extend_from-Sorts read paths env (failed e) step all h = absurd cc
extend_from-Sorts read paths env (done contents) step all h =
    step (env_from_contents contents) all h

extend_from-IsSorted :
    (read : Text → IoResult Text) (paths : List Text) (env : Map Text)
    → IsSorted env
    → Sorts read paths env
unfolding extend_from env_from_file
extend_from-IsSorted read [] env s all h = let same : env ≡ all = cc in subst IsSorted same s
extend_from-IsSorted read (path ∷ paths) env s all h =
    extend_from-Sorts read paths env (read path)
      (λ more. extend_from-IsSorted read paths (Map.extend env more) (extend-IsSorted env more s))
      all h

-- The default of a user: the path that root or another user has, and the entry of the user.
abbrev pub default_path : ℕ → Text
default_path user = if user == 0 then default_root_path else default_user_path

abbrev pub default_value : (ℕ → IoResult (Option UserInfo)) → ℕ → Text → Option Text
default_value user_info user k =
    if text_eq (codes "PATH") k
    then some (default_path user)
    else Map.get k (build_base_environment (user_info user))

build_with :
    (read : Text → IoResult Text) (k : Text) (paths : List Text) (env : Map Text)
    (files : IoResult (Map Text)) (built : Map Text)
    → extend_from read paths [] ≡ files
    → (files >>= λ envf. done (Map.extend env envf)) ≡ done built
    → Map.get k built ≡ or_else (in_files read k paths) (Map.get k env)
unfolding Map.get
build_with read k paths env (failed e) built f h = absurd cc
build_with read k paths env (done envf) built f h =
    let same : Map.extend env envf ≡ built = cc in
    subst (λ b. Map.get k b ≡ or_else (in_files read k paths) (Map.get k env)) same
      (get-extend k env envf (extend_from-IsSorted read paths [] tt envf f)
        ∙ ap (λ o. or_else o (Map.get k env))
            (get-extend_from read k paths [] envf f ∙ or_else-none (in_files read k paths)))

-- Each variable of the environment that is built for a user has the value of the last of the
-- environment files that sets it, there that of the last line that does; if none sets it, `PATH`
-- is root's path or that of other users, and other variables are those of the user's entry.
pub get-build_environment :
    (user_info : ℕ → IoResult (Option UserInfo)) (read : Text → IoResult Text) (user : ℕ)
    (files : List Text) (built : Map Text) (k : Text)
    → build_environment user_info read user files ≡ done built
    → Map.get k built ≡ or_else (in_files read k files) (default_value user_info user k)
unfolding build_environment env_from_files
get-build_environment user_info read user files built k h =
    build_with read k files _ (extend_from read files []) built refl h
    ∙ ap (or_else (in_files read k files))
        (get-insert (codes "PATH") k (default_path user) (build_base_environment (user_info user)))
