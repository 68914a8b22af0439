-- ===== src/Services/Wait.antt =====
-- `wait_service` of beam-init/src/api_impl.rs: a client waits until a service has a status of some
-- kind, over the subscription to its `ServiceStatusPublisher` of beam-init/src/services.rs.
use beam_init.Base.{
  ℕ, ◌≡◌, refl, inl, inr, Option, none, some, List, [], ◌∷◌, map, if◌then◌else◌, arith, Bool-cases,
}
use beam_init.Api.{ServiceStatus, kind, status_eq}
use beam_init.Api.Kind.{ServiceStatusKind, kind_eq}
use beam_init.Api.Equality.{status_eq→eq}
use beam_init.Services.Types.{
  service_pruned_while_waiting, observation_lagged, ServiceStatusPublisher,
}
use beam_init.Services.Outcome.{Outcome, ok, err}
use beam_init.Services.Service.{publish}
use beam_init.Services.Query.{subscription_of, ServiceStatusSubscription}

-- What the broadcast channel gives to a receiver.
pub data Received : Type 0 where
  status : ServiceStatus → Received
  closed : Received
  lagged : (skipped : ℕ) → Received

-- `ServiceStatusSubscription::recv`, one call after another: the status at the start of the
-- subscription comes first.
unfoldable pub received_by : ServiceStatusSubscription → List Received → List Received
received_by subscription later = elim subscription.current [
  | none ↦ later
  | some s ↦ status s ∷ later
]

-- The loop of `wait_service`; `none` means that it still waits.
unfoldable pub wait_service : ServiceStatusKind → List Received → Option (Outcome ServiceStatus)
wait_service wanted [] = none
wait_service wanted (status s ∷ rest) =
    let later = wait_service wanted rest in if kind_eq (kind s) wanted then some (ok s) else later
wait_service wanted (closed ∷ rest) = some (err service_pruned_while_waiting)
wait_service wanted (lagged skipped ∷ rest) = some (err (observation_lagged skipped))

-- The statuses that a service takes one after another.
unfoldable pub publish_all : List ServiceStatus → ServiceStatusPublisher → ServiceStatusPublisher
publish_all [] p = p
publish_all (s ∷ statuses) p = publish_all statuses (publish s p)

-- Messages sent one after another, the newest at the front.
abbrev pub send_all : List ServiceStatus → List ServiceStatus → List ServiceStatus
send_all [] sent = sent
send_all (s ∷ messages) sent = send_all messages (s ∷ sent)

-- The first status of a kind.
unfoldable pub first_of : ServiceStatusKind → List ServiceStatus → Option (Outcome ServiceStatus)
first_of wanted [] = none
first_of wanted (s ∷ statuses) =
    let rest = first_of wanted statuses in if kind_eq (kind s) wanted then some (ok s) else rest

-- What a waiting client is told of the statuses published after it subscribed.
pub record IsTold (wanted : ServiceStatusKind) (statuses : List ServiceStatus)
    (p : ServiceStatusPublisher) : Type 0 where
  pub messages : List ServiceStatus
  pub sent : (publish_all statuses p).sent ≡ send_all messages p.sent
  pub waits :
      wait_service wanted (received_by (subscription_of p) (map status messages))
      ≡ first_of wanted (p.latest ∷ statuses)

-- A client subscribes to a publisher and waits for a status of some kind, while the service takes
-- any further statuses. The publisher then has sent some messages since, and if they all reach the
-- client, it is told the first status of that kind among the one at the time of the subscription
-- and all the later ones, or still waits if there is none: that repeated statuses are not sent
-- loses nothing.
pub wait_service-publish_all :
    (wanted : ServiceStatusKind) (statuses : List ServiceStatus) (p : ServiceStatusPublisher)
    → IsTold wanted statuses p
unfolding publish_all wait_service first_of publish received_by subscription_of
wait_service-publish_all wanted [] p = record { messages = []; sent = refl; waits = refl }
wait_service-publish_all wanted (s ∷ statuses) p = elim (Bool-cases (status_eq p.latest s)) [
  | inl e ↦
      let i = wait_service-publish_all wanted statuses p in
      record {
        messages = i.messages;
        sent = rw (publish_all, e) i.sent;
        waits = rw (← status_eq→eq p.latest s e) (ground (arith, i.waits));
      }
  | inr e ↦
      let i = wait_service-publish_all wanted statuses (record { latest = s; sent = s ∷ p.sent }) in
      record {
        messages = s ∷ i.messages;
        sent = rw (publish_all, e) i.sent;
        waits = ground (arith, i.waits);
      }
]
