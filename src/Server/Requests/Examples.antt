-- ===== src/Server/Requests/Examples.antt =====
-- The requests of the client at concrete inputs, over an HTTP library that does what the handling
-- relies on.
use beam_init.Base.{
  ℕ, ◌≡◌, refl, true, false, Option, none, some, [], ◌∷◌, ◌++◌, drop, length, all_of, ◌==◌,
  if◌then◌else◌, arith,
}
use beam_init.Base.Text.{Text, codes, text_eq, text_eq_refl, contains, starts_with}
use beam_init.Api.{CreateService}
use beam_init.Environment.Line.{split_once, is_key_byte, before_rest}
use beam_init.Services.Types.{Credentials}
use beam_init.Services.Spawn.Entries.{split_once-append}
use beam_init.Client.{freeze_service, request, create_service}
use beam_init.Server.Command
use beam_init.Server.Loop.{Event}
use beam_init.Server.Routes.{Match, Http, event, serve}
use beam_init.Server.Dispatch.{IsHttp, IsPlain, IsSuffix, is_plain_byte, is_path_byte}
use beam_init.Server.Requests.{serve-request, serve-create_service}

first_segment : Text → Text × Text
first_segment [] = ([], [])
first_segment (c ∷ s) =
    let (n, rest) = first_segment s in if c == b'/' then ([], c ∷ s) else (c ∷ n, rest)

capture : Text → Text × Text → Match
capture suffix (name, rest) =
    if length name == 0
    then Match.no_match
    else if text_eq suffix rest
    then Match.captured name
    else Match.no_match

matches : Text → Text → Match
unfolding capture first_segment
matches pattern path =
    if contains b'{' pattern
    then (if starts_with path (codes "/service/")
        then capture (drop 15 pattern) (first_segment (drop 9 path))
        else Match.no_match)
    else if text_eq pattern path
    then Match.literal
    else Match.no_match

parts_or : Text × Text → Option (Text × Text) → Text × Text
parts_or whole none = whole
parts_or whole (some parts) = parts

address : Text → Text × Text
unfolding parts_or
address target = parts_or (target, []) (split_once b'?' target)

value_for : Text → Option (Text × Text) → Option Text
value_for key none = none
value_for key (some (k, v)) = if text_eq k key then some v else none

query_value : Text → Text → Option Text
unfolding value_for
query_value key query = value_for key (split_once b'=' query)

abbrev http : Http
http = record { matches = matches; address = address; query_value = query_value }

path_byte_lem : (c : ℕ) → is_path_byte c ≡ true → (c == b'?') ≡ false
unfolding is_key_byte
path_byte_lem c h = ground arith

no_question : (path : Text) → all_of is_path_byte path ≡ true → contains b'?' path ≡ false
unfolding contains
no_question [] h = refl
no_question (c ∷ path) h =
    ground (arith, no_question path (ground arith), path_byte_lem c (ground arith))

no_equals : (key : Text) → all_of is_plain_byte key ≡ true → contains b'=' key ≡ false
unfolding contains is_key_byte
no_equals [] h = refl
no_equals (c ∷ key) h = ground (arith, no_equals key (ground arith))

split_once-none : (byte : ℕ) (t : Text) → contains byte t ≡ false → split_once byte t ≡ none
unfolding contains split_once before_rest
split_once-none byte [] h = refl
split_once-none byte (c ∷ t) h = rw (split_once-none byte t (ground arith)) (ground arith)

first_segment-append :
    (name s : Text)
    → all_of is_plain_byte name ≡ true
    → IsSuffix s
    → first_segment (name ++ s) ≡ (name, s)
unfolding first_segment is_key_byte
first_segment-append [] [] h i = refl
first_segment-append [] (c ∷ s) h i = rw i refl
first_segment-append (c ∷ name) s h i =
    rw (first_segment-append name s (ground arith) i) (ground arith)

http-IsHttp : IsHttp http
unfolding matches contains starts_with address query_value capture
http-IsHttp = record {
  path = λ path s h. rw (split_once-none b'?' path (no_question path h)) refl;
  query = λ path key value s h k v.
      rw (split_once-append b'?' path (key ++ b'=' ∷ value) (no_question path h)) refl;
  value = λ key value k v.
      rw (split_once-append b'=' key value (no_equals key k), text_eq_refl key) refl;
  literal = λ pattern path h. rw h refl;
  captured = λ name suffix p i.
      rw (first_segment-append name suffix p.1 i) (ground (arith, text_eq_refl suffix, p.0));
  missed =
      λ name suffix other p i j e. rw (first_segment-append name other p.1 j, e) (ground arith);
  elsewhere = λ suffix path h. rw h refl;
}

abbrev alice : Credentials
alice = record { uid = 1000; gid = 1000 }

web-IsPlain : IsPlain (codes "web-1")
unfolding is_key_byte
web-IsPlain = (λ e. omega (arith, e), refl)

serve-request_example :
    serve http (request (freeze_service (codes "web-1"))) alice
    ≡ event (Event.command (Command.freeze (codes "web-1")) alice)
serve-request_example =
    serve-request http http-IsHttp (freeze_service (codes "web-1")) alice web-IsPlain

abbrev sleep : CreateService
sleep = record {
  cmd = codes "sleep";
  args = codes "60" ∷ [];
  env = [];
  liveness = none;
  pty = false;
  labels = [];
  graceful_termination_period = 5;
}

serve-create_service_example :
    (serve http (request (create_service (codes "web-1/stop") sleep)) alice
      ≡ event (Event.command (Command.stop_service (codes "web-1") false) alice))
    × (serve http (request (create_service (codes "web-1/restart") sleep)) alice
        ≡ event (Event.command (Command.restart_service (codes "web-1")) alice))
    × (serve http (request (create_service (codes "web-1/freeze") sleep)) alice
        ≡ event (Event.command (Command.freeze (codes "web-1")) alice))
    × (serve http (request (create_service (codes "web-1/thaw") sleep)) alice
        ≡ event (Event.command (Command.thaw (codes "web-1")) alice))
serve-create_service_example =
    serve-create_service http (codes "web-1") sleep alice http-IsHttp web-IsPlain
