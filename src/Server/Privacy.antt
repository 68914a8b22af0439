-- ===== src/Server/Privacy.antt =====
-- What a user is told of the services of others by the commands of api_impl.rs that only read.
use beam_init.Base.{
  ap, false, ◌∙◌, ◌||◌, ◌==◌, ◌≡◌, ◌≢◌, refl, inl, inr, Bool, true, false, some, none, Option, [],
  ◌∷◌, if◌then◌else◌, arith, Bool-cases,
}
use beam_init.Base.Text.{Text, text_eq}
use beam_init.Base.Map
use beam_init.Base.Map.{Map}
use beam_init.Api
use beam_init.Services.Types.{Credentials, Service, ServiceManager, invalid_credentials}
use beam_init.Services.Outcome.{ok, err}
use beam_init.Services.Service.{api_status, check_credentials}
use beam_init.Services.Manager.{get_service}
use beam_init.Services.Query.{service_logs, list_services, is_permitted, subscribe, get_pty}
use beam_init.Server.Response.{Body}
use beam_init.Server.Command.{Host, handle_api_command, show, logs, list, api_statuses}
use beam_init.Server.Loop.{
  Event, handle_event, wait_service, response, subscription, nothing, respond, describe, is_panic,
}
use beam_init.Server.Response.{error_response}
use beam_init.Base.Sorted.{get-entry, get-IsAbove, here, there, HasEntry, IsSorted}
use beam_init.Services.Invariant.{IsValid}

-- The service belongs to another user, and the sender is not root.
abbrev pub IsForeign : Credentials → Service → Type 0
IsForeign credentials s = (credentials.uid ≢ 0) × (credentials.uid ≢ s.config.credentials.uid)

get_service-foreign :
    (credentials : Credentials) (name : Text) (m : ServiceManager) (s : Service)
    → Map.get name m.services ≡ some s
    → IsForeign credentials s
    → get_service credentials name m ≡ err invalid_credentials
unfolding get_service check_credentials
get_service-foreign credentials name m s found (a, b) = rw found (ground arith)

-- The status that a sender is told of a service: the one that its subscribers were told, if the
-- sender is root or owns it.
abbrev pub visible : Credentials → Option Service → Option Api.ServiceStatus
visible credentials none = none
visible credentials (some s) =
    if credentials.uid == 0 || credentials.uid == s.config.credentials.uid
    then some s.state.publisher.latest
    else none

is_permitted_iff :
    (credentials : Credentials) (s : Service)
    → is_permitted (check_credentials s credentials)
      ≡ (credentials.uid == 0 || credentials.uid == s.config.credentials.uid)
unfolding is_permitted check_credentials
is_permitted_iff credentials s = ground arith

-- What the list of some services shows.
record IsListed (credentials : Credentials) (services : Map Service) : Type 0 where
  statuses : Map Api.ServiceStatus
  answered : api_statuses (list_services credentials services) ≡ ok statuses
  shows : (name : Text) → Map.get name statuses ≡ visible credentials (Map.get name services)

listed :
    (credentials : Credentials) (services : Map Service)
    → IsSorted services
    → ((k : Text) (s : Service)
        → HasEntry k s services
        → api_status s.state.status ≡ ok s.state.publisher.latest)
    → IsListed credentials services
unfolding list_services api_statuses Map.get
listed credentials [] sorted each = record { statuses = []; answered = refl; shows = λ name. refl }
listed credentials ((k, t) ∷ services) sorted each =
    let i = listed credentials services sorted.1 (λ j s e. each j s (there e)) in
    elim (Bool-cases (credentials.uid == 0 || credentials.uid == t.config.credentials.uid)) [
      | inl e ↦ record {
        statuses = (k, t.state.publisher.latest) ∷ i.statuses;
        answered = rw (is_permitted_iff credentials t, e) (rw (each k t here, i.answered) refl);
        shows = λ name. elim (Bool-cases (text_eq k name)) [
          | inl f ↦ rw (f, e) refl
          | inr f ↦ rw f (i.shows name)
        ];
      }
      | inr e ↦ record {
        statuses = i.statuses;
        answered = rw (is_permitted_iff credentials t, e) i.answered;
        shows = λ name. elim (Bool-cases (text_eq k name)) [
          | inl f ↦
              rw (f, e)
                (i.shows name ∙ ap (visible credentials) (get-IsAbove k name services f sorted.0))
          | inr f ↦ rw f (i.shows name)
        ];
      }
    ]

-- In a manager in order, the list that a sender gets shows exactly the services that the sender
-- owns, or all of them if the sender is root, each with the status that its subscribers were told;
-- listing changes nothing.
pub handle_api_command-list :
    (host : Host) (credentials : Credentials) (m : ServiceManager)
    → IsValid m
    → (statuses : Map Api.ServiceStatus) × (handle_api_command host list credentials m
        ≡ (ok (Body.statuses statuses), m))
      × ((name : Text) → Map.get name statuses ≡ visible credentials (Map.get name m.services))
unfolding handle_api_command
handle_api_command-list host credentials m v =
    let i =
      listed credentials m.services v.sorted
        (λ k s e. (v.each k s (get-entry e v.sorted)).published) in
    (i.statuses, rw i.answered refl, i.shows)

-- A sender who is neither root nor the owner of a service is refused each request to read it, and
-- nothing changes: showing it, its log as it is or as it grows, and its next statuses are answered
-- with the same error, and for its terminal nothing is sent back.
pub handle_event-foreign :
    (host : Host) (credentials : Credentials) (m : ServiceManager) (name : Text) (s : Service)
    (follow : Bool)
    → Map.get name m.services ≡ some s
    → IsForeign credentials s
    → (handle_event host (Event.command (show name) credentials) m
        ≡ (response (error_response invalid_credentials), false, m))
      × (handle_event host (Event.command (logs name follow) credentials) m
          ≡ (response (error_response invalid_credentials), false, m))
      × (handle_event host (wait_service name credentials) m
          ≡ (subscription (err invalid_credentials), false, m))
      × (handle_event host (Event.pty name credentials) m ≡ (nothing, false, m))
unfolding handle_event handle_api_command service_logs get_pty subscribe respond describe is_panic
handle_event-foreign host credentials m name s true found f =
    let e = get_service-foreign credentials name m s found f in
    (rw e refl, rw e refl, rw e refl, rw e refl)
handle_event-foreign host credentials m name s false found f =
    let e = get_service-foreign credentials name m s found f in
    (rw e refl, rw e refl, rw e refl, rw e refl)
