-- ===== src/Server/Requests.antt =====
-- What the requests of beam-init-client/src/blocking.rs become in beam-init/src/api_impl.rs.
pub mod Examples
use beam_init.Base.{ap, ℕ, ◌≡◌, refl, ◌∙◌, true, false, Option, none, some, [], ◌∷◌, ◌++◌, all_of}
use mathlib.Core.List.{append-nil}
use beam_init.Base.Text.{contains, Text, codes, starts_with, text_eq}
use beam_init.Environment.Line.{is_key_byte}
use beam_init.Api.Kind.{from_str-to_string_iff, ServiceStatusKind, to_string}
use beam_init.Client.{
  Call, request, create_service, list_services, stop_service, restart_service, show_service,
  freeze_service, thaw_service, logs, follow_logs, notify_pty_attached, notify_pty_detached,
  send_signal, wait_service_state, version, Payload, get, post, delete, service_path,
  service_action_path,
}
use beam_init.Services.Types.{Credentials}
use beam_init.Server.Command
use beam_init.Server.Loop.{Event}
use beam_init.Server.Routes.{
  logs_handler, wait_handler, state_of, follow_of, serve_match, serve_path, routes, Http, Handling,
  event, wait_for, version_answer, serve, handle, handle_by, handler_for,
}
use beam_init.Server.Dispatch.{
  serve_path-elsewhere, entries, entry_for, version_route, handle_entry, IsSuffix, IsHttp, IsPlain,
  serve-service, plain-path, all_of-append, is_path_byte, is_plain_byte,
}
use beam_init.Api.{CreateService}

-- What a call of the client is meant to do.
abbrev pub meant : Call → Credentials → Handling
meant (create_service name s) c = event (Event.command (Command.create name s) c)
meant list_services c = event (Event.command Command.list c)
meant (stop_service name prune) c = event (Event.command (Command.stop_service name prune) c)
meant (restart_service name) c = event (Event.command (Command.restart_service name) c)
meant (show_service name) c = event (Event.command (Command.show name) c)
meant (freeze_service name) c = event (Event.command (Command.freeze name) c)
meant (thaw_service name) c = event (Event.command (Command.thaw name) c)
meant (logs name) c = event (Event.command (Command.logs name false) c)
meant (follow_logs name) c = event (Event.command (Command.logs name true) c)
meant (notify_pty_attached name) c = event (Event.command (Command.pty_attached name) c)
meant (notify_pty_detached name) c = event (Event.command (Command.pty_detached name) c)
meant (send_signal name sig) c = event (Event.command (Command.send_signal name sig) c)
meant (wait_service_state name kind timeout) c = wait_for (Event.wait_service name c) kind
meant version c = version_answer

-- The service that a call names has a plain name.
abbrev pub IsPlainCall : Call → Type 0
IsPlainCall (create_service name s) = IsPlain name
IsPlainCall list_services = Unit {0}
IsPlainCall (stop_service name prune) = IsPlain name
IsPlainCall (restart_service name) = IsPlain name
IsPlainCall (show_service name) = IsPlain name
IsPlainCall (freeze_service name) = IsPlain name
IsPlainCall (thaw_service name) = IsPlain name
IsPlainCall (logs name) = IsPlain name
IsPlainCall (follow_logs name) = IsPlain name
IsPlainCall (notify_pty_attached name) = IsPlain name
IsPlainCall (notify_pty_detached name) = IsPlain name
IsPlainCall (send_signal name sig) = IsPlain name
IsPlainCall (wait_service_state name kind timeout) = IsPlain name
IsPlainCall version = Unit {0}

to_string-plain : (k : ServiceStatusKind) → all_of is_plain_byte (to_string k) ≡ true
unfolding to_string is_key_byte
to_string-plain ServiceStatusKind.stopped = refl
to_string-plain _ = refl

module _ (http : Http) (h : IsHttp http) where
  path_below :
      (name s : Text)
      → IsPlain name
      → all_of is_path_byte s ≡ true
      → all_of is_path_byte (codes "/service/" ++ (name ++ s)) ≡ true
  unfolding is_key_byte
  path_below name s p q = all_of-append is_path_byte name s (plain-path name p.1) q

  address_below :
      (name s : Text)
      → IsPlain name
      → all_of is_path_byte s ≡ true
      → http.address (codes "/service/" ++ (name ++ s)) ≡ (codes "/service/" ++ (name ++ s), [])
  unfolding starts_with
  address_below name s p q = h.path (codes "/service/" ++ (name ++ s)) refl (path_below name s p q)

  address_of :
      (name : Text)
      → IsPlain name
      → http.address (codes "/service/" ++ name) ≡ (codes "/service/" ++ (name ++ []), [])
  unfolding starts_with is_key_byte
  address_of name p = rw append-nil (h.path (codes "/service/" ++ name) refl (plain-path name p.1))

  action :
      (name s : Text) (c : Credentials)
      → IsPlain name
      → IsSuffix s
      → all_of is_path_byte s ≡ true
      → serve http
          (record {
            method = post;
            target = codes "/service/" ++ (name ++ s);
            payload = Payload.unit;
            timeout = some 30;
          })
          c
        ≡ handle_entry http h post [] Payload.unit c name
            (version_route ∷ [])
            (codes "/service/" ++ (name ++ s))
            (entry_for s entries)
  action name s c p q r =
      serve-service http post _ name s [] Payload.unit (some 30) c h p q (address_below name s p r)

  asks :
      (name s key value : Text) (timeout : Option ℕ) (c : Credentials)
      → IsPlain name
      → IsSuffix s
      → all_of is_path_byte s ≡ true
      → all_of is_plain_byte key ≡ true
      → all_of is_plain_byte value ≡ true
      → serve http
          (record {
            method = get;
            target = codes "/service/" ++ ((name ++ s) ++ b'?' ∷ (key ++ b'=' ∷ value));
            payload = Payload.nothing;
            timeout = timeout;
          })
          c
        ≡ handle_entry http h get
            (key ++ b'=' ∷ value)
            Payload.nothing
            c
            name
            (version_route ∷ [])
            (codes "/service/" ++ (name ++ s))
            (entry_for s entries)
  unfolding starts_with is_key_byte
  asks name s key value timeout c p q r k v =
      serve-service http get _ name s (key ++ b'=' ∷ value) Payload.nothing timeout c h p q
        (h.query (codes "/service/" ++ (name ++ s)) key value refl (path_below name s p r) k v)

  -- Whatever a user asks of the client library for a service whose name has ASCII letters, digits,
  -- `-` and `_` only, the request reaches the handler that does it, with the user's credentials.
  pub serve-request :
      (call : Call) (credentials : Credentials)
      → IsPlainCall call
      → serve http (request call) credentials ≡ meant call credentials
  unfolding serve routes serve_path serve_match contains starts_with follow_of state_of request
      service_path service_action_path text_eq is_key_byte handle_by handle handler_for
  serve-request (create_service name s) c p =
      serve-service http post _ name [] [] (Payload.service s) (some 30) c h p tt
        (address_of name p)
  serve-request list_services c p =
      rw
        (
          h.path (codes "/services") refl refl,
          serve_path,
          h.literal (codes "/services") (codes "/services") refl,
        )
        refl
  serve-request (stop_service name true) c p =
      serve-service http delete _ name [] [] Payload.nothing (some 30) c h p tt (address_of name p)
  serve-request (stop_service name false) c p = action name (codes "/stop") c p refl refl
  serve-request (restart_service name) c p = action name (codes "/restart") c p refl refl
  serve-request (show_service name) c p = action name (codes "/show") c p refl refl
  serve-request (freeze_service name) c p = action name (codes "/freeze") c p refl refl
  serve-request (thaw_service name) c p = action name (codes "/thaw") c p refl refl
  serve-request (logs name) c p =
      asks name (codes "/logs") (codes "follow") (codes "false") (some 30) c p refl refl refl refl
      ∙ ap (λ q. logs_handler name (follow_of q) c)
          (h.value (codes "follow") (codes "false") refl refl)
  serve-request (follow_logs name) c p =
      asks name (codes "/logs") (codes "follow") (codes "true") none c p refl refl refl refl
      ∙ ap (λ q. logs_handler name (follow_of q) c)
          (h.value (codes "follow") (codes "true") refl refl)
  serve-request (notify_pty_attached name) c p =
      action name (codes "/notify_pty_attached") c p refl refl
  serve-request (notify_pty_detached name) c p =
      action name (codes "/notify_pty_detached") c p refl refl
  serve-request (send_signal name sig) c p =
      serve-service http post _ name (codes "/send_signal") [] (Payload.signal sig) (some 30) c h p
        refl (address_below name (codes "/send_signal") p refl)
  serve-request (wait_service_state name kind timeout) c p =
      asks name (codes "/wait") (codes "state") (to_string kind) timeout c p refl refl refl
        (to_string-plain kind)
      ∙ ap (λ q. wait_handler name (state_of q) c)
          (h.value (codes "state") (to_string kind) refl (to_string-plain kind))
      ∙ ap (λ k. wait_handler name k c) ((from_str-to_string_iff (to_string kind) kind).1 refl)
  serve-request version c p =
      rw
        (
          h.path (codes "/version") refl refl,
          serve_path,
          h.literal (codes "/services") (codes "/version") refl,
        )
        (serve_path-elsewhere http h get [] Payload.nothing c (codes "/version") entries
            (version_route ∷ []) refl
          ∙ rw (h.literal (codes "/version") (codes "/version") refl) refl)

  -- A post to a service's name and one of its actions.
  slashed :
      (name s : Text) (service : CreateService) (c : Credentials)
      → IsPlain name
      → IsSuffix s
      → all_of is_path_byte s ≡ true
      → serve http (request (create_service (name ++ s) service)) c
        ≡ handle_entry http h post []
            (Payload.service service)
            c
            name
            (version_route ∷ [])
            (codes "/service/" ++ (name ++ s))
            (entry_for s entries)
  unfolding request service_path
  slashed name s service c p q r =
      serve-service http post _ name s [] (Payload.service service) (some 30) c h p q
        (address_below name s p r)

-- The client puts a name into the path of a request as it stands. So a request to create a service
-- whose name is that of another service with `/stop`, `/restart`, `/freeze` or `/thaw` behind it
-- creates none: it stops, restarts, freezes or thaws that other service.
pub serve-create_service :
    (http : Http) (name : Text) (service : CreateService) (c : Credentials)
    → IsHttp http
    → IsPlain name
    → (serve http (request (create_service (name ++ codes "/stop") service)) c
        ≡ event (Event.command (Command.stop_service name false) c))
      × (serve http (request (create_service (name ++ codes "/restart") service)) c
          ≡ event (Event.command (Command.restart_service name) c))
      × (serve http (request (create_service (name ++ codes "/freeze") service)) c
          ≡ event (Event.command (Command.freeze name) c))
      × (serve http (request (create_service (name ++ codes "/thaw") service)) c
          ≡ event (Event.command (Command.thaw name) c))
unfolding text_eq is_key_byte handle_by handle handler_for
serve-create_service http name service c h p = (
  slashed http h name (codes "/stop") service c p refl refl,
  slashed http h name (codes "/restart") service c p refl refl,
  slashed http h name (codes "/freeze") service c p refl refl,
  slashed http h name (codes "/thaw") service c p refl refl,
)
