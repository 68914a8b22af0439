-- ===== src/Services/Invariant.antt =====
-- The invariant of the service manager of beam-init/src/services.rs, and lemmas for an operation
-- on one service.
pub mod Start
pub mod Lifecycle
pub mod Create
pub mod Query
pub mod Reap
pub mod Others
pub mod Shutdown
pub mod Completion
use beam_init.Base.{
  if◌then◌else◌, ℕ, ◌≡◌, refl, sym, ◌∙◌, ◌≢◌, inl, inr, Bool, true, false, Option, none, some,
  arith, subst₂,
}
use beam_init.Base.Text.{Text, text_eq}
use beam_init.Base.Map
use beam_init.Base.Map.{Map, get-insert, get-remove, get-insert_cases, get-remove-some}
use beam_init.Base.Sorted.{IsSorted, insert-IsSorted, remove-IsSorted}
use beam_init.Api
use beam_init.Api.{Probe, status_eq}
use beam_init.Api.Equality.{status_eq→eq}
use beam_init.Services.Types.{
  Credentials, ServiceStatus, running, frozen, stopping, Service, ServiceError, World,
  ServiceManager, ServiceStatusPublisher,
}
use beam_init.Services.Outcome.{ok_or, err, Outcome, ok, panic}
use beam_init.Services.Service.{api_status, set_status, is_restart, check_credentials, publish}
use beam_init.Services.Manager.{
  removed, Step, store, with_service, check_name, validate, get_service, get_service_mut,
  bootstrap_name,
}

abbrev pub is_some {ℓ} : {A : Type ℓ} → Option A → Bool
is_some none = false
is_some (some a) = true

-- A liveness task runs exactly for a running service that is configured with a probe.
abbrev pub ProbeFits : ServiceStatus → Option ℕ → Option Probe → Type 0
ProbeFits (running process pty) task probe = is_some task ≡ is_some probe
ProbeFits _ task probe = task ≡ none

-- A process that can be attached to has a monitor and a terminal exactly if that is configured.
abbrev pub IsConnected : ServiceStatus → Bool → Type 0
IsConnected (running process pty) wanted =
    (is_some pty ≡ wanted) × (is_some process.monitor_tx ≡ wanted)
IsConnected (frozen process pty) wanted =
    (is_some pty ≡ wanted) × (is_some process.monitor_tx ≡ wanted)
IsConnected _ wanted = Unit {0}

-- On the way down nothing runs, and nothing will be started again.
abbrev pub IsSettled : ServiceStatus → Type 0
IsSettled (running process pty) = ⊥
IsSettled (frozen process pty) = ⊥
IsSettled (stopping process after_stop pending) = is_restart after_stop ≡ false
IsSettled _ = Unit {0}

-- What holds of a service with this name between two events; `down` is whether the program shuts
-- down. By `published` the status is not the dummy, and the subscribers know it.
pub record IsGoodAs (down : Bool) (name : Text) (s : Service) (status : ServiceStatus)
    : Type 0 where
  pub named : check_name name ≡ ok tt
  pub env_valid : validate s.config.env ≡ ok tt
  pub published : api_status status ≡ ok s.state.publisher.latest
  pub probed : ProbeFits status s.state.liveness_probe s.config.liveness
  pub connected : IsConnected status s.config.pty
  pub settled : down ≡ true → IsSettled status

abbrev pub IsGood : Bool → Text → Service → Type 0
IsGood down name s = IsGoodAs down name s s.state.status

pub record IsValid (m : ServiceManager) : Type 0 where
  pub sorted : IsSorted m.services
  pub each : (k : Text) (s : Service) → Map.get k m.services ≡ some s → IsGood m.shutdown k s

-- The outcome of an operation on the service `name`: it returned, the others are as they were, and
-- the invariant holds.
pub record IsSafe (name : Text) (m : ServiceManager) (r : Step (Unit {0})) : Type 0 where
  pub returns : r.0 ≢ panic
  pub flag : r.1.shutdown ≡ m.shutdown
  pub frame : (j : Text) → text_eq name j ≡ false → Map.get j r.1.services ≡ Map.get j m.services
  pub valid : IsValid r.1

latest-publish :
    (status : Api.ServiceStatus) (p : ServiceStatusPublisher) → (publish status p).latest ≡ status
unfolding publish
latest-publish status p = ground (arith, status_eq→eq p.latest status)

pub set_status-published :
    (status : ServiceStatus) (s : Service) {a : Api.ServiceStatus}
    → api_status status ≡ ok a
    → api_status status ≡ ok (set_status status s).state.publisher.latest
unfolding set_status
set_status-published status s {a} h = ground (arith, latest-publish a s.state.publisher)

pub set_status-IsGood :
    {down : Bool} {name : Text} (status : ServiceStatus) (s : Service) {a : Api.ServiceStatus}
    → check_name name ≡ ok tt
    → validate s.config.env ≡ ok tt
    → api_status status ≡ ok a
    → ProbeFits status s.state.liveness_probe s.config.liveness
    → IsConnected status s.config.pty
    → (down ≡ true → IsSettled status)
    → IsGood down name (set_status status s)
unfolding set_status
set_status-IsGood status s {a} n v h p c d = record {
  named = n;
  env_valid = v;
  published = set_status-published status s h;
  probed = p;
  connected = c;
  settled = d;
}

-- Setting the status that a service has again.
pub reset-IsGood :
    {down : Bool} {name : Text} (status : ServiceStatus) (s : Service)
    → IsGoodAs down name s status
    → IsGood down name (set_status status s)
reset-IsGood status s g =
    set_status-IsGood status s g.named g.env_valid g.published g.probed g.connected g.settled

pub IsGood-up :
    (m : ServiceManager) {name : Text} (s : Service)
    → m.shutdown ≡ false
    → IsGood false name s
    → IsGood m.shutdown name s
IsGood-up m s up g = record {
  named = g.named;
  env_valid = g.env_valid;
  published = g.published;
  probed = g.probed;
  connected = g.connected;
  settled = λ d. cc;
}

-- The invariant holds of every service but `name`.
pub record IsValidBut (name : Text) (m : ServiceManager) : Type 0 where
  pub sorted : IsSorted m.services
  pub each :
      (k : Text) (s : Service)
      → text_eq name k ≡ false
      → Map.get k m.services ≡ some s
      → IsGood m.shutdown k s

pub IsValid-but : (name : Text) {m : ServiceManager} → IsValid m → IsValidBut name m
IsValid-but name v = record { sorted = v.sorted; each = λ k s e h. v.each k s h }

pub same-IsSafe :
    (name : Text) {m : ServiceManager} {r : Outcome (Unit {0})}
    → IsValid m
    → r ≢ panic
    → IsSafe name m (r, m)
same-IsSafe name v returned = record {
  returns = returned;
  flag = refl;
  frame = λ j h. refl;
  valid = v;
}

pub world-IsSafe :
    (name : Text) {m : ServiceManager} {r : Outcome (Unit {0})} (w : World)
    → IsValid m
    → r ≢ panic
    → IsSafe name m (r, record m { world = w })
world-IsSafe name w v returned = record {
  returns = returned;
  flag = refl;
  frame = λ j h. refl;
  valid = record { sorted = v.sorted; each = v.each };
}

pub store-IsSafe :
    (name : Text) (m : ServiceManager) {r : Outcome (Unit {0})} (s : Service) (w : World)
    → IsValidBut name m
    → r ≢ panic
    → IsGood m.shutdown name s
    → IsSafe name m (r, store name s w m)
store-IsSafe name m s w others returned g = record {
  returns = returned;
  flag = refl;
  frame = λ j h. get-insert name j s m.services ∙ rw h refl;
  valid = record { sorted = insert-IsSorted name s m.services others.sorted; each = each };
}
  where
    each :
        (k : Text) (t : Service)
        → Map.get k (Map.insert name s m.services) ≡ some t
        → IsGood m.shutdown k t
    each k t h = elim (get-insert_cases name k s m.services h) [
      | inl (e, p) ↦ subst₂ (IsGood m.shutdown) e p g
      | inr (e, q) ↦ others.each k t e q
    ]

pub remove-IsSafe :
    (name : Text) (m : ServiceManager) (s : Service) {r : Outcome (Unit {0})}
    → IsValidBut name m
    → r ≢ panic
    → IsSafe name m (r, removed name s m)
remove-IsSafe name m s others returned = record {
  returns = returned;
  flag = refl;
  frame = λ j h. get-remove name j m.services ∙ rw h refl;
  valid = record { sorted = remove-IsSorted name m.services others.sorted; each = each };
}
  where
    each :
        (k : Text) (t : Service)
        → Map.get k (Map.remove name m.services) ≡ some t
        → IsGood m.shutdown k t
    each k t h = let (e, q) = get-remove-some name k m.services h in others.each k t e q

-- An operation after a write to the same service.
pub IsSafe-store :
    (name : Text) (m : ServiceManager) (s : Service) (w : World) {r : Step (Unit {0})}
    → IsSafe name (store name s w m) r
    → IsSafe name m r
IsSafe-store name m s w i = record {
  returns = i.returns;
  flag = i.flag;
  frame = λ j h. i.frame j h ∙ get-insert name j s m.services ∙ rw h refl;
  valid = i.valid;
}

pub IsValidBut-store :
    (name : Text) (m : ServiceManager) (s : Service) (w : World)
    → IsValidBut name m
    → IsValidBut name (store name s w m)
IsValidBut-store name m s w others = record {
  sorted = insert-IsSorted name s m.services others.sorted;
  each = λ k t e h. others.each k t e (sym (get-insert name k s m.services ∙ rw e refl) ∙ h);
}

-- What a successful look-up says.
pub get_service-eq-ok :
    (credentials : Credentials) (name : Text) (m : ServiceManager) {s : Service}
    → get_service credentials name m ≡ ok s
    → (Map.get name m.services ≡ some s) × (check_credentials s credentials ≡ ok tt)
unfolding get_service
get_service-eq-ok credentials name m h = ground arith

pub get_service_mut-eq-ok :
    (credentials : Credentials) (name : Text) (m : ServiceManager) {s : Service}
    → get_service_mut credentials name m ≡ ok s
    → (text_eq name bootstrap_name ≡ false)
      × (Map.get name m.services ≡ some s)
      × (check_credentials s credentials ≡ ok tt)
unfolding get_service_mut
get_service_mut-eq-ok credentials name m h = ground arith

pub get_service_mut-returns :
    (credentials : Credentials) (name : Text) (m : ServiceManager)
    → get_service_mut credentials name m ≢ panic
unfolding get_service_mut check_credentials
get_service_mut-returns credentials name m = ground arith

pub with_service-IsSafe :
    (name : Text) (m : ServiceManager) (r : Outcome Service) (f : Service → Step (Unit {0}))
    → IsValid m
    → r ≢ panic
    → ((s : Service) → r ≡ ok s → IsSafe name m (f s))
    → IsSafe name m (with_service r m f)
with_service-IsSafe name m (ok s) f v h k = k s refl
with_service-IsSafe name m (err e) f v h k = same-IsSafe name v (λ p. cc)
with_service-IsSafe name m panic f v h k = absurd (h refl)

pub ok_or-returns {ℓ} : {A : Type ℓ} (o : Option A) (e : ServiceError) → ok_or o e ≢ panic
ok_or-returns none e = λ h. cc
ok_or-returns (some a) e = λ h. cc

pub ok_or-eq-ok {ℓ} :
    {A : Type ℓ} (o : Option A) (e : ServiceError) {a : A} → ok_or o e ≡ ok a → o ≡ some a
ok_or-eq-ok none e h = cc
ok_or-eq-ok (some b) e h = ground arith

pub IsSafe-if :
    {name : Text} {m : ServiceManager} (b : Bool) {x y : Step (Unit {0})}
    → (b ≡ true → IsSafe name m x)
    → (b ≡ false → IsSafe name m y)
    → IsSafe name m (if b then x else y)
IsSafe-if true f g = f refl
IsSafe-if false f g = g refl

-- The outcome of an operation that may touch several services.
pub record IsFine (m : ServiceManager) (r : Step (Unit {0})) : Type 0 where
  pub returns : r.0 ≢ panic
  pub flag : r.1.shutdown ≡ m.shutdown
  pub valid : IsValid r.1

pub IsSafe-IsFine :
    (name : Text) {m : ServiceManager} {r : Step (Unit {0})} → IsSafe name m r → IsFine m r
IsSafe-IsFine name i = record { returns = i.returns; flag = i.flag; valid = i.valid }

pub IsFine-if :
    {m : ServiceManager} (b : Bool) {x y : Step (Unit {0})}
    → IsFine m x
    → IsFine m y
    → IsFine m (if b then x else y)
IsFine-if true f g = f
IsFine-if false f g = g
