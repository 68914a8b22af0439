-- ===== src/Ctl/Examples.antt =====
-- beamctl at concrete inputs: a server with three services that forgets one when it is stopped.
use beam_init.Base.{
  all_of, subst, ℕ, ◌≡◌, ◌↔◌, ◌∙◌, refl, ap, true, false, Option, none, some, List, [], ◌∷◌, keep,
  length, if◌then◌else◌, arith,
}
use beam_init.Base.Text.{Text, codes, text_eq, text_lt}
use beam_init.Base.Map
use beam_init.Base.Map.{Map}
use beam_init.Api.{Service, ServiceStatus, stopped}
use beam_init.Client.{Call, Result, ok, err, socket_not_found, stop_service, notify_pty_attached}
use beam_init.Server.Dispatch.{IsPlain}
use beam_init.Ctl.Parse.{ok, parse_label}
use beam_init.Ctl.Select.{texts_eq, found_values, values, keys_match, from_iter}
use beam_init.Ctl.Matching.{keys_match_iff, IsSelected}
use beam_init.Ctl.Prefix.{here, there, IsAscending}
use beam_init.Ctl.Labels.{parse_label_iff, IsLabel}
use beam_init.Ctl.Run.{show_error_and_exit, done, Client, Session}
use beam_init.Ctl.Commands.{act, act_on}
use beam_init.Ctl.Selected.{act_on-act_on_all, act_on-IsIn, act_on_all, IsServer}
use beam_init.Ctl.Name.{
  is_hex_byte, gen_name, gen_name-IsPlain, filled, interrupted, full, Fills, last, part, again,
  Answer,
}
use beam_init.Ctl.Terminal.{Round, manage, from_pty, signal_arrived, failed, sigint, sigtstp}
use beam_init.Ctl.Attached.{manage-calls, server_of, requests, calls, all_events}
use beam_init.Base.Sorted.{IsSorted}

abbrev wanted : Map Text
wanted = (codes "tier", codes "web") ∷ []

abbrev given : Map Text
given = (codes "env", codes "dev") ∷ (codes "tier", codes "web") ∷ []

keys_match_iff_example : (keys_match wanted given ≡ true) ↔ IsSelected wanted given
keys_match_iff_example = keys_match_iff wanted given (tt, tt)

abbrev names : List Text
names = codes "api" ∷ codes "app" ∷ codes "web" ∷ []

names-IsAscending : IsAscending names
unfolding text_lt
names-IsAscending = ((refl, (refl, tt)), ((refl, tt), (tt, tt)))

parse_label_iff_example :
    (parse_label (codes "tier=web") ≡ ok (codes "tier", codes "web"))
    ↔ IsLabel (codes "tier=web") (codes "tier") (codes "web")
parse_label_iff_example = parse_label_iff (codes "tier=web") (codes "tier") (codes "web")

abbrev service : Text → Service
service name = record {
  cmd = codes "sleep";
  args = [];
  status = stopped;
  automatic_restart_attempts = 0;
  labels = if text_eq name (codes "api") then [] else wanted;
}

-- The services that are there, with their statuses.
abbrev listing : Map ServiceStatus
listing = (codes "api", stopped) ∷ (codes "app", stopped) ∷ (codes "web", stopped) ∷ []

shown_if : Text → Option ServiceStatus → Result Service
shown_if name none = err socket_not_found
shown_if name (some status) = Result.ok (service name)

acted : Call → Map ServiceStatus → Result (Unit {0}) × Map ServiceStatus
acted (stop_service name true) m = (Result.ok tt, Map.remove name m)
acted c m = (Result.ok tt, m)

abbrev client : Client (Map ServiceStatus)
client = record {
  list_services = λ m. (Result.ok m, m);
  show_service = λ name m. (shown_if name (Map.get name m), m);
  logs = λ name m. (Result.ok [], m);
  follow_logs = λ name m. (Result.ok [], m);
  version = λ m. (Result.ok ([], []), m);
  connect = λ m. (Result.ok tt, m);
  get_pty_from_store = λ name m. (false, m);
  manage = λ name m. (none, m);
  wait_service_state = λ name kind timeout m. (Result.ok stopped, m);
  act = acted;
  status_text = λ status. [];
  services_json = λ m. [];
  service_json = λ s. [];
  status_json = λ status. [];
}

abbrev session : Session (Map ServiceStatus)
session = record { server = listing; out = []; errors = [] }

abbrev pruned : Text → Call
pruned name = stop_service name true

client-IsServer : IsServer client pruned (λ name. (service name).labels)
unfolding shown_if acted
client-IsServer = record {
  IsPresent = λ m name. Map.get name m ≡ some stopped;
  service = λ name m. service name;
  shows = λ m name h. rw h refl;
  shows_labels = λ m name h. refl;
  keeps = λ m t k name d h e.
      subst (λ r. Map.get name r ≡ some stopped) (ap (λ p. p.1) e)
        (Map.get-remove k name m ∙ rw d h);
}

listing-IsSorted : IsSorted listing
unfolding text_lt
listing-IsSorted = names-IsAscending

act_on-act_on_all_example :
    act_on client none ((codes "tier", codes "web") ∷ []) pruned session
    ≡ act_on_all client pruned
        (keep
          (λ n. keys_match (from_iter ((codes "tier", codes "web") ∷ [])) ((service n).labels))
          (Map.keys listing))
        session
unfolding Map.keys client-IsServer Map.get text_eq
act_on-act_on_all_example =
    act_on-act_on_all client pruned (λ name. (service name).labels) client-IsServer
      (codes "tier", codes "web") [] listing session refl listing-IsSorted
      (refl, (refl, (refl, tt)))

-- Two of the three services match, and they are gone.
selected_left :
    act_on client none ((codes "tier", codes "web") ∷ []) pruned session
    ≡ done tt (record session { server = (codes "api", stopped) ∷ [] })
unfolding act_on show_error_and_exit Map.keys shown_if Map.get text_eq keys_match texts_eq
    found_values from_iter Map.extend Map.insert values acted Map.remove
selected_left = refl

act_on-IsIn_example :
    act_on client (some (codes "app")) [] pruned session ≡ act client (pruned (codes "app")) session
unfolding Map.keys
act_on-IsIn_example =
    act_on-IsIn client pruned (codes "app") listing session refl listing-IsSorted (there here)

abbrev drawn : List Answer
drawn = interrupted ∷ filled (1 ∷ 2 ∷ 3 ∷ []) ∷ interrupted ∷ filled (4 ∷ 5 ∷ 6 ∷ 7 ∷ 8 ∷ []) ∷ []

abbrev eight : List ℕ
eight = 1 ∷ 2 ∷ 3 ∷ 4 ∷ 5 ∷ 6 ∷ 7 ∷ 8 ∷ []

drawn-Fills : Fills 8 eight drawn
drawn-Fills = again (part (1 ∷ 2 ∷ 3 ∷ []) (omega arith) (again (last (4 ∷ 5 ∷ 6 ∷ 7 ∷ 8 ∷ []) [])))

gen_name-IsPlain_example :
    (name : Text) × (gen_name drawn ≡ full name)
    × (length name ≡ 16)
    × (all_of is_hex_byte name ≡ true)
    × IsPlain name
gen_name-IsPlain_example = gen_name-IsPlain eight drawn drawn-Fills

-- The user interrupts the service and then suspends.
abbrev rounds : List Round
rounds =
    record {
      synced = true;
      polled = true;
      events = from_pty (failed none true) ∷ signal_arrived (some sigint) ∷ [];
    }
    ∷ record { synced = true; polled = true; events = signal_arrived (some sigtstp) ∷ [] }
    ∷ []

manage-calls_example :
    server_of (manage client (codes "app") true true rounds listing)
    ≡ requests client
        (codes "app")
        (notify_pty_attached (codes "app") ∷ calls (codes "app") (all_events rounds))
        listing
manage-calls_example =
    manage-calls client (codes "app") rounds listing (refl, refl, (refl, refl, tt))
