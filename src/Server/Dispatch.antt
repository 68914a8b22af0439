-- ===== src/Server/Dispatch.antt =====
-- Which handler a request of the client library reaches in the table of api_impl.rs.
use beam_init.Base.{
  arith, ℕ, ◌≡◌, ◌≢◌, refl, inl, inr, Bool, true, false, ◌||◌, Option, none, some, List, [], ◌∷◌,
  ◌++◌, map, length, all_of, ◌==◌, if◌then◌else◌, Bool-cases, subst,
}
use beam_init.Base.Text.{Text, codes, text_eq, text_eq→eq, contains, starts_with}
use beam_init.Environment.Line.{is_key_byte}
use beam_init.Client.{Method, Payload}
use beam_init.Services.Types.{Credentials}
use beam_init.Server.Routes.{
  routes, serve, create_service, delete_service, restart_service, stop_service, freeze_service,
  thaw_service, show_service, service_logs, notify_pty_attached, notify_pty_detached, send_signal,
  wait_service, version, Match, Http, Handler, Route, Handling, serve_path, handle_by, handler_for,
  serve_match,
}

-- Bytes that a URL takes as they are: ASCII letters, digits, `-` and `_`; with `/` those of a path.
abbrev pub is_plain_byte : ℕ → Bool
is_plain_byte c = is_key_byte c || c == b'-'

abbrev pub is_path_byte : ℕ → Bool
is_path_byte c = is_plain_byte c || c == b'/'

abbrev pub IsPlain : Text → Type 0
IsPlain name = (length name ≢ 0) × (all_of is_plain_byte name ≡ true)

-- What follows a captured name: nothing, or a slash and more.
abbrev pub IsSuffix : Text → Type 0
IsSuffix [] = Unit {0}
IsSuffix (c ∷ s) = c ≡ b'/'

-- What the handling relies on in the HTTP library.
pub record IsHttp (http : Http) : Type 0 where
  pub path :
      (path : Text)
      → starts_with path (codes "/") ≡ true
      → all_of is_path_byte path ≡ true
      → http.address path ≡ (path, [])
  pub query :
      (path key value : Text)
      → starts_with path (codes "/") ≡ true
      → all_of is_path_byte path ≡ true
      → all_of is_plain_byte key ≡ true
      → all_of is_plain_byte value ≡ true
      → http.address (path ++ b'?' ∷ (key ++ b'=' ∷ value)) ≡ (path, key ++ b'=' ∷ value)
  pub value :
      (key value : Text)
      → all_of is_plain_byte key ≡ true
      → all_of is_plain_byte value ≡ true
      → http.query_value key (key ++ b'=' ∷ value) ≡ some value
  pub literal :
      (pattern path : Text)
      → contains b'{' pattern ≡ false
      → http.matches pattern path ≡ (if text_eq pattern path then Match.literal else Match.no_match)
  pub captured :
      (name suffix : Text)
      → IsPlain name
      → IsSuffix suffix
      → http.matches (codes "/service/{name}" ++ suffix) (codes "/service/" ++ (name ++ suffix))
        ≡ Match.captured name
  pub missed :
      (name suffix other : Text)
      → IsPlain name
      → IsSuffix suffix
      → IsSuffix other
      → text_eq suffix other ≡ false
      → http.matches (codes "/service/{name}" ++ suffix) (codes "/service/" ++ (name ++ other))
        ≡ Match.no_match
  pub elsewhere :
      (suffix path : Text)
      → starts_with path (codes "/service/") ≡ false
      → http.matches (codes "/service/{name}" ++ suffix) path ≡ Match.no_match

-- A route under `/service/{name}`.
pub record Entry : Type 0 where
  pub suffix : Text
  pub on_get : Option Handler
  pub on_post : Option Handler
  pub on_delete : Option Handler

abbrev pub to_route : Entry → Route
to_route e = record {
  pattern = codes "/service/{name}" ++ e.suffix;
  on_get = e.on_get;
  on_post = e.on_post;
  on_delete = e.on_delete;
}

abbrev AllSuffixes : List Entry → Type 0
AllSuffixes [] = Unit {0}
AllSuffixes (e ∷ es) = IsSuffix e.suffix × AllSuffixes es

abbrev pub entry_for : Text → List Entry → Option Entry
entry_for s [] = none
entry_for s (e ∷ es) = if text_eq e.suffix s then some e else entry_for s es

module _ (http : Http) (h : IsHttp http) (method : Method) (query : Text) (body : Payload)
    (credentials : Credentials) where
  abbrev pub handle_entry : Text → List Route → Text → Option Entry → Handling
  handle_entry name rest path none = serve_path http rest method path query body credentials
  handle_entry name rest path (some e) =
      handle_by http (handler_for method (to_route e)) name query body credentials

  serve_path-entries :
      (name s : Text) (es : List Entry) (rest : List Route)
      → IsPlain name
      → IsSuffix s
      → AllSuffixes es
      → serve_path http
          (map to_route es ++ rest)
          method
          (codes "/service/" ++ (name ++ s))
          query
          body
          credentials
        ≡ handle_entry name rest (codes "/service/" ++ (name ++ s)) (entry_for s es)
  unfolding serve_path serve_match
  serve_path-entries name s [] rest p q all = refl
  serve_path-entries name s (e ∷ es) rest p q all = elim (Bool-cases (text_eq e.suffix s)) [
    | inl same ↦
        let found : http.matches (codes "/service/{name}" ++ e.suffix)
              (codes "/service/" ++ (name ++ s))
            ≡ Match.captured name =
          subst
            (λ t.
              http.matches (codes "/service/{name}" ++ e.suffix) (codes "/service/" ++ (name ++ t))
              ≡ Match.captured name)
            (text_eq→eq e.suffix s same) (h.captured name e.suffix p all.0) in
        rw (found, same) refl
    | inr other ↦
        rw (h.missed name e.suffix s p all.0 q other, other)
          (serve_path-entries name s es rest p q all.1)
  ]

  -- No route below a service serves another path.
  pub serve_path-elsewhere :
      (path : Text) (es : List Entry) (rest : List Route)
      → starts_with path (codes "/service/") ≡ false
      → serve_path http (map to_route es ++ rest) method path query body credentials
        ≡ serve_path http rest method path query body credentials
  unfolding serve_path serve_match
  serve_path-elsewhere path [] rest n = refl
  serve_path-elsewhere path (e ∷ es) rest n =
      rw (h.elsewhere e.suffix path n) (serve_path-elsewhere path es rest n)

pub all_of-append :
    (f : ℕ → Bool) (xs ys : Text)
    → all_of f xs ≡ true
    → all_of f ys ≡ true
    → all_of f (xs ++ ys) ≡ true
all_of-append f [] ys h k = k
all_of-append f (x ∷ xs) ys h k = ground (arith, all_of-append f xs ys (ground arith) k)

pub plain-path : (name : Text) → all_of is_plain_byte name ≡ true → all_of is_path_byte name ≡ true
plain-path [] h = refl
plain-path (x ∷ name) h = ground (arith, plain-path name (ground arith))

abbrev pub posted : Text → Handler → Entry
posted suffix handler = record {
  suffix = suffix;
  on_get = none;
  on_post = some handler;
  on_delete = none;
}

abbrev pub read_by : Text → Handler → Entry
read_by suffix handler = record {
  suffix = suffix;
  on_get = some handler;
  on_post = none;
  on_delete = none;
}

abbrev pub entries : List Entry
entries =
    record {
      suffix = [];
      on_get = none;
      on_post = some create_service;
      on_delete = some delete_service;
    }
    ∷ posted (codes "/restart") restart_service
    ∷ posted (codes "/stop") stop_service
    ∷ posted (codes "/freeze") freeze_service
    ∷ posted (codes "/thaw") thaw_service
    ∷ posted (codes "/show") show_service
    ∷ read_by (codes "/logs") service_logs
    ∷ posted (codes "/notify_pty_attached") notify_pty_attached
    ∷ posted (codes "/notify_pty_detached") notify_pty_detached
    ∷ posted (codes "/send_signal") send_signal
    ∷ read_by (codes "/wait") wait_service
    ∷ []

abbrev pub version_route : Route
version_route = record {
  pattern = codes "/version";
  on_get = some version;
  on_post = none;
  on_delete = none;
}

-- A path below a service is served by the entry for what follows the name.
pub serve-service :
    (http : Http) (method : Method) (target name s query : Text) (body : Payload)
    (timeout : Option ℕ) (credentials : Credentials) (h : IsHttp http)
    → IsPlain name
    → IsSuffix s
    → http.address target ≡ (codes "/service/" ++ (name ++ s), query)
    → serve http
        (record { method = method; target = target; payload = body; timeout = timeout })
        credentials
      ≡ handle_entry http h method query body credentials name
          (version_route ∷ [])
          (codes "/service/" ++ (name ++ s))
          (entry_for s entries)
unfolding serve routes contains text_eq serve_path serve_match
serve-service http method target name s query body timeout credentials h p q a =
    rw (a, serve_path, h.literal (codes "/services") (codes "/service/" ++ (name ++ s)) refl)
      (serve_path-entries http h method query body credentials name s entries (version_route ∷ []) p
        q (tt, (refl, (refl, (refl, (refl, (refl, (refl, (refl, (refl, (refl, (refl, tt))))))))))))
