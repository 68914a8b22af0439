-- ===== src/Client.antt =====
-- beam-init-client/src/blocking.rs and error.rs: the requests that the client library sends, and
-- what it makes of a response. The HTTP client and serde are arguments.
use beam_init.Base.{ℕ, Bool, true, false, ◌&&◌, Option, none, some, ◌++◌, leb, ltb, if◌then◌else◌}
use beam_init.Base.Int.{ℤ}
use beam_init.Base.Text.{Text, codes}
use beam_init.Api.{CreateService}
use beam_init.Api.Kind.{ServiceStatusKind, to_string}

pub data Method : Type 0 where
  get post delete : Method

-- What `RequestBuilder::json` is given, if anything.
pub data Payload : Type 0 where
  nothing unit : Payload
  service : CreateService → Payload
  signal : ℤ → Payload

-- `target` is what follows `http://beam-init`; `timeout` is in seconds.
pub record Request : Type 0 where
  pub method : Method
  pub target : Text
  pub payload : Payload
  pub timeout : Option ℕ

unfoldable pub service_path : Text → Text
service_path name = codes "/service/" ++ name

unfoldable pub service_action_path : Text → Text → Text
unfolding service_path
service_action_path name action = service_path name ++ (codes "/" ++ action)

-- The methods of `Client` that send a request, with their arguments.
pub data Call : Type 0 where
  create_service : (name : Text) → CreateService → Call
  list_services : Call
  stop_service : (name : Text) (prune : Bool) → Call
  restart_service show_service freeze_service thaw_service : (name : Text) → Call
  logs follow_logs : (name : Text) → Call
  notify_pty_attached notify_pty_detached : (name : Text) → Call
  send_signal : (name : Text) → ℤ → Call
  wait_service_state : (name : Text) → ServiceStatusKind → (timeout : Option ℕ) → Call
  version : Call

abbrev thirty_seconds : ℕ
thirty_seconds = 30

get_request : Text → Option ℕ → Request
get_request target timeout = record {
  method = get;
  target = target;
  payload = nothing;
  timeout = timeout;
}

post_request : Text → Payload → Request
post_request target payload = record {
  method = post;
  target = target;
  payload = payload;
  timeout = some thirty_seconds;
}

delete_request : Text → Request
delete_request target = record {
  method = delete;
  target = target;
  payload = nothing;
  timeout = some thirty_seconds;
}

action_request : Text → Text → Request
unfolding post_request service_action_path
action_request name action = post_request (service_action_path name action) unit

unfoldable pub request : Call → Request
unfolding get_request post_request delete_request action_request service_path service_action_path
request (create_service name s) = post_request (service_path name) (service s)
request list_services = get_request (codes "/services") (some thirty_seconds)
request (stop_service name true) = delete_request (service_path name)
request (stop_service name false) = action_request name (codes "stop")
request (restart_service name) = action_request name (codes "restart")
request (show_service name) = action_request name (codes "show")
request (freeze_service name) = action_request name (codes "freeze")
request (thaw_service name) = action_request name (codes "thaw")
request (logs name) =
    get_request (service_action_path name (codes "logs") ++ codes "?follow=false")
      (some thirty_seconds)
request (follow_logs name) =
    get_request (service_action_path name (codes "logs") ++ codes "?follow=true") none
request (notify_pty_attached name) = action_request name (codes "notify_pty_attached")
request (notify_pty_detached name) = action_request name (codes "notify_pty_detached")
request (send_signal name sig) =
    post_request (service_action_path name (codes "send_signal")) (signal sig)
request (wait_service_state name kind timeout) =
    get_request (service_action_path name (codes "wait") ++ (codes "?state=" ++ to_string kind))
      timeout
request version = get_request (codes "/version") (some thirty_seconds)

-- `Error`, the wrapped errors by their texts.
pub data Error : Type 0 where
  io : Text → Error
  socket_not_found : Error
  creation transport decode : Text → Error
  response : (status : ℕ) (body : Text) → Error

-- `Display`. The text of a status code, with its reason, belongs to the HTTP library.
unfoldable pub display_error : (status_text : ℕ → Text) → Error → Text
display_error status_text (io error) = codes "i/o error: " ++ error
display_error status_text socket_not_found = codes "beam-init socket not found"
display_error status_text (creation error) = codes "client creation failed: " ++ error
display_error status_text (transport error) = codes "request failed: " ++ error
display_error status_text (decode error) = codes "response decoding failed: " ++ error
display_error status_text (response status body) =
    codes "server returned " ++ (status_text status ++ (codes ": " ++ body))

pub data Result {ℓ} (A : Type ℓ) : Type ℓ where
  ok : A → Result A
  err : Error → Result A

-- A response: its status, and its body as text, whose reading may fail.
pub record HttpResponse : Type 0 where
  pub status : ℕ
  pub body : Result Text

-- `Client::with_socket`: `exists` is the result of `fs::exists`, `built` that of the builder.
unfoldable pub with_socket : Result Bool → Result (Unit {0}) → Result (Unit {0})
with_socket (err e) built = err e
with_socket (ok false) built = err socket_not_found
with_socket (ok true) built = built

-- `resp.text().unwrap_or_else(|e| e.to_string())`, the text of the error being an argument.
abbrev text_or : (Error → Text) → Result Text → Text
text_or error_text (ok text) = text
text_or error_text (err e) = error_text e

-- `error_for_status`: a client or a server error.
unfoldable pub is_error_status : ℕ → Bool
is_error_status status = leb 400 status && ltb status 600

-- `Client::send`, given what the HTTP client returned.
unfoldable pub send : (Error → Text) → Result HttpResponse → Result HttpResponse
unfolding is_error_status
send error_text (err e) = err e
send error_text (ok r) =
    if is_error_status r.status then err (response r.status (text_or error_text r.body)) else ok r
