-- ===== src/Server/Routes.antt =====
-- The routes of beam-init/src/api_impl.rs and their handlers, which turn a request into an event
-- for the event loop. The matching of paths, the decoding of the address and that of the query
-- belong to axum: they are the record `Http`.
use beam_init.Base.{Bool, true, false, Option, none, some, List, [], ◌∷◌, ◌++◌, if◌then◌else◌}
use beam_init.Base.Text.{Text, codes, text_eq}
use beam_init.Api.Kind.{ServiceStatusKind, from_str}
use beam_init.Client.{Method, get, post, delete, Payload, Request}
use beam_init.Services.Types.{Credentials}
use beam_init.Server.Command.{Command}
use beam_init.Server.Loop.{Event}

-- A pattern may have one parameter, `{name}`.
pub data Match : Type 0 where
  no_match literal : Match
  captured : (name : Text) → Match

-- `address` gives the path and the query of a target as they reach the handlers, `query_value` the
-- value that a key has in a query.
pub record Http : Type 0 where
  pub matches : (pattern path : Text) → Match
  pub address : Text → Text × Text
  pub query_value : (key query : Text) → Option Text

pub data Handler : Type 0 where
  list_services create_service delete_service restart_service stop_service : Handler
  freeze_service thaw_service show_service service_logs : Handler
  notify_pty_attached notify_pty_detached send_signal wait_service version : Handler

pub record Route : Type 0 where
  pub pattern : Text
  pub on_get : Option Handler
  pub on_post : Option Handler
  pub on_delete : Option Handler

get_route : Text → Handler → Route
get_route pattern handler = record {
  pattern = pattern;
  on_get = some handler;
  on_post = none;
  on_delete = none;
}

post_route : Text → Handler → Route
post_route pattern handler = record {
  pattern = pattern;
  on_get = none;
  on_post = some handler;
  on_delete = none;
}

service_route : Text → Text
service_route action = codes "/service/{name}" ++ action

-- The table of `bind_api_socket`.
unfoldable pub routes : List Route
unfolding get_route post_route service_route
routes =
    get_route (codes "/services") list_services
    ∷ record {
      pattern = service_route [];
      on_get = none;
      on_post = some create_service;
      on_delete = some delete_service;
    }
    ∷ post_route (service_route (codes "/restart")) restart_service
    ∷ post_route (service_route (codes "/stop")) stop_service
    ∷ post_route (service_route (codes "/freeze")) freeze_service
    ∷ post_route (service_route (codes "/thaw")) thaw_service
    ∷ post_route (service_route (codes "/show")) show_service
    ∷ get_route (service_route (codes "/logs")) service_logs
    ∷ post_route (service_route (codes "/notify_pty_attached")) notify_pty_attached
    ∷ post_route (service_route (codes "/notify_pty_detached")) notify_pty_detached
    ∷ post_route (service_route (codes "/send_signal")) send_signal
    ∷ get_route (service_route (codes "/wait")) wait_service
    ∷ get_route (codes "/version") version
    ∷ []

-- What a handler does: it sends an event and passes its answer on, or waits with the subscription
-- that it gets for a status of some kind, or it answers by itself.
pub data Handling : Type 0 where
  event : Event → Handling
  wait_for : Event → ServiceStatusKind → Handling
  version_answer : Handling
  not_found method_not_allowed rejected : Handling

command : Command → Credentials → Handling
command c credentials = event (Event.command c credentials)

-- `ServiceLogsQuery`, whose field is false by default, and `WaitConditionQuery`, whose derived
-- `Deserialize` takes the texts that `FromStr` takes.
unfoldable pub follow_of : Option Text → Option Bool
follow_of none = some false
follow_of (some value) =
    if text_eq value (codes "true")
    then some true
    else if text_eq value (codes "false")
    then some false
    else none

unfoldable pub state_of : Option Text → Option ServiceStatusKind
state_of none = none
state_of (some value) = from_str value

unfoldable pub create_handler : Text → Payload → Credentials → Handling
unfolding command
create_handler name (Payload.service s) credentials = command (Command.create name s) credentials
create_handler name _ credentials = rejected

unfoldable pub logs_handler : Text → Option Bool → Credentials → Handling
unfolding command
logs_handler name none credentials = rejected
logs_handler name (some follow) credentials = command (Command.logs name follow) credentials

unfoldable pub signal_handler : Text → Payload → Credentials → Handling
unfolding command
signal_handler name (Payload.signal sig) credentials =
    command (Command.send_signal name sig) credentials
signal_handler name _ credentials = rejected

unfoldable pub wait_handler : Text → Option ServiceStatusKind → Credentials → Handling
wait_handler name none credentials = rejected
wait_handler name (some kind) credentials = wait_for (Event.wait_service name credentials) kind

-- The handlers; `name` is the captured one, where the pattern has a parameter.
unfoldable pub handle : Http → Handler → Text → Text → Payload → Credentials → Handling
unfolding command follow_of state_of create_handler logs_handler signal_handler wait_handler
handle http list_services name query body credentials = command Command.list credentials
handle http create_service name query body credentials = create_handler name body credentials
handle http delete_service name query body credentials =
    command (Command.stop_service name true) credentials
handle http restart_service name query body credentials =
    command (Command.restart_service name) credentials
handle http stop_service name query body credentials =
    command (Command.stop_service name false) credentials
handle http freeze_service name query body credentials = command (Command.freeze name) credentials
handle http thaw_service name query body credentials = command (Command.thaw name) credentials
handle http show_service name query body credentials = command (Command.show name) credentials
handle http service_logs name query body credentials =
    logs_handler name (follow_of (http.query_value (codes "follow") query)) credentials
handle http notify_pty_attached name query body credentials =
    command (Command.pty_attached name) credentials
handle http notify_pty_detached name query body credentials =
    command (Command.pty_detached name) credentials
handle http send_signal name query body credentials = signal_handler name body credentials
handle http wait_service name query body credentials =
    wait_handler name (state_of (http.query_value (codes "state") query)) credentials
handle http version name query body credentials = version_answer

unfoldable pub handler_for : Method → Route → Option Handler
handler_for get r = r.on_get
handler_for post r = r.on_post
handler_for delete r = r.on_delete

unfoldable pub handle_by : Http → Option Handler → Text → Text → Payload → Credentials → Handling
unfolding handle
handle_by http none name query body credentials = method_not_allowed
handle_by http (some h) name query body credentials = handle http h name query body credentials

-- `others` is what the routes after this one make of the request.
unfoldable pub serve_match :
    Http → Method → Text → Payload → Credentials → Route → Match → Handling → Handling
unfolding handler_for handle_by
serve_match http method query body credentials r no_match others = others
serve_match http method query body credentials r literal others =
    handle_by http (handler_for method r) [] query body credentials
serve_match http method query body credentials r (captured name) others =
    handle_by http (handler_for method r) name query body credentials

-- A router serves the route whose pattern matches the path; no two of the table match one path.
unfoldable pub serve_path :
    Http → List Route → Method → Text → Text → Payload → Credentials → Handling
unfolding serve_match
serve_path http [] method path query body credentials = not_found
serve_path http (r ∷ rs) method path query body credentials =
    serve_match http method query body credentials r (http.matches r.pattern path)
      (serve_path http rs method path query body credentials)

unfoldable pub serve : Http → Request → Credentials → Handling
unfolding serve_path routes
serve http r credentials =
    let (path, query) = http.address r.target in
    serve_path http routes r.method path query r.payload credentials
