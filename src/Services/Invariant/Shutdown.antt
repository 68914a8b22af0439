-- ===== src/Services/Invariant/Shutdown.antt =====
-- The invariant of the manager where a shutdown begins (`begin_shutdown` of services.rs).
use beam_init.Base.{
  ◌==◌, ◌∙◌, if◌then◌else◌, ℕ, Bool-cases, ◌≡◌, refl, ◌≢◌, inl, inr, Bool, true, false, Option,
  none, some, arith, subst, subst₂, Option-cases, List, [], ◌∷◌, ◌||◌,
}
use beam_init.Base.Text.{Text, text_eq, text_eq_iff}
use beam_init.Base.Map
use beam_init.Base.Map.{Map, get-insert, get-insert_cases}
use beam_init.Base.Sorted.{IsSorted, insert-IsSorted}
use beam_init.Services.Types.{
  Credentials, AfterStop, stop, prune, ServiceStatus, stopped, running, frozen, stopping, exited,
  error, dummy, Service, ServiceManager, World, PendingKill,
}
use beam_init.Services.Outcome.{ok, panic}
use beam_init.Services.Service.{
  api_status, set_status, is_restart, merge, abort_liveness_probe, send_signal,
}
use beam_init.Services.Spawn.{Os}
use beam_init.Services.Manager.{Step, store}
use beam_init.Services.Lifecycle.{
  terminate, terminate_idle, terminate_running, terminate_service_inner, schedule_kill, sigterm,
  sigkill,
}
use beam_init.Services.Reap.{
  handle_signal, shutdown_signal, sigchld, sigint, reap_all, stop_all_services, and_then,
  stop_services, begin_shutdown, root,
}
use beam_init.Services.Invariant.{
  err, Outcome, IsFine, IsFine-if, IsValid, IsGoodAs, IsGood, IsSettled, set_status-IsGood,
}
use beam_init.Api.{ExitStatus}
use beam_init.Services.Invariant.Start.{HasLogPipes}
use beam_init.Services.Invariant.Reap.{reap_all-IsFine}

-- What asking a service to stop does: it is written back, settled.
abbrev Stops : Text → ServiceManager → Step (Unit {0}) → Type 0
Stops name m r = (t : Service) × (w : World) × (r ≡ (ok tt, store name t w m)) × IsGood true name t

merge_stop : (current : AfterStop) → is_restart (merge current stop) ≡ false
unfolding merge is_restart
merge_stop prune = refl
merge_stop _ = refl

idle-Stops :
    (name : Text) (m : ServiceManager) (s : Service) (status : ServiceStatus)
    → IsGoodAs false name s status
    → IsSettled status
    → Stops name m (ok tt, store name (set_status status s) m.world m)
idle-Stops name m s status g settled = (
  set_status status s,
  m.world,
  refl,
  set_status-IsGood status s g.named g.env_valid g.published g.probed g.connected (λ d. settled),
)

terminate-Stops :
    (os : Os) (credentials : Credentials) (name : Text) (m : ServiceManager) (s : Service)
    (status : ServiceStatus)
    → IsGoodAs false name s status
    → Stops name m (terminate os credentials name m stop s status)
unfolding terminate terminate_idle terminate_running abort_liveness_probe api_status is_restart
terminate-Stops os credentials name m s (stopping process after_stop pending) g = (
  set_status (stopping process (merge after_stop stop) pending) s,
  m.world,
  refl,
  set_status-IsGood (stopping process (merge after_stop stop) pending) s g.named g.env_valid refl
      g.probed tt (λ d. merge_stop after_stop),
)
terminate-Stops os credentials name m s (frozen process pty) g = (
  set_status (stopping process stop none) s,
  send_signal process sigkill m.world,
  refl,
  set_status-IsGood (stopping process stop none) s g.named g.env_valid refl g.probed tt (λ d. refl),
)
terminate-Stops os credentials name m s (running process pty) g = (
  set_status (stopping process stop killed.0) s',
  killed.1,
  refl,
  set_status-IsGood (stopping process stop killed.0) s' g.named g.env_valid refl refl tt
      (λ d. refl),
)
  where
    s' : Service
    s' = (abort_liveness_probe s m.world).0

    killed : Option PendingKill × World
    killed =
        schedule_kill credentials name process s.config.graceful_termination_period
          (send_signal process sigterm (abort_liveness_probe s m.world).1)
terminate-Stops os credentials name m s dummy g = cc g.published
terminate-Stops os credentials name m s stopped g = idle-Stops name m s stopped g tt
terminate-Stops os credentials name m s (exited e) g = idle-Stops name m s (exited e) g tt
terminate-Stops os credentials name m s (error e) g = idle-Stops name m s (error e) g tt

abbrev listed : Text → List Text → Bool
listed k [] = false
listed k (j ∷ js) = text_eq j k || listed k js

-- Midway through the loop: what is not among the names to come is settled.
record IsHalfway (names : List Text) (m : ServiceManager) : Type 0 where
  sorted : IsSorted m.services
  good : (k : Text) (s : Service) → Map.get k m.services ≡ some s → IsGood false k s
  settled :
      (k : Text) (s : Service)
      → Map.get k m.services ≡ some s
      → listed k names ≡ false
      → IsSettled s.state.status

weaken : (name : Text) (s : Service) → IsGood true name s → IsGood false name s
weaken name s g = record {
  named = g.named;
  env_valid = g.env_valid;
  published = g.published;
  probed = g.probed;
  connected = g.connected;
  settled = λ d. cc;
}

store-IsHalfway :
    (name : Text) (names : List Text) (m : ServiceManager) (t : Service) (w : World)
    → IsHalfway (name ∷ names) m
    → IsGood true name t
    → IsHalfway names (store name t w m)
store-IsHalfway name names m t w h g = record {
  sorted = insert-IsSorted name t m.services h.sorted;
  good = λ k s e. elim (get-insert_cases name k t m.services e) [
    | inl (p, q) ↦ subst₂ (IsGood false) p q (weaken name t g)
    | inr (p, q) ↦ h.good k s q
  ];
  settled = λ k s e l. elim (get-insert_cases name k t m.services e) [
    | inl (p, q) ↦ subst (λ r. IsSettled r.state.status) q (g.settled refl)
    | inr (p, q) ↦ h.settled k s q (ground arith)
  ];
}

-- One round of the loop.
record IsRound (names : List Text) (m : ServiceManager) (r : Step (Unit {0})) : Type 0 where
  returns : r.0 ≢ panic
  flag : r.1.shutdown ≡ m.shutdown
  halfway : IsHalfway names r.1

stop-IsRound :
    (os : Os) (name : Text) (names : List Text) (m : ServiceManager)
    → IsHalfway (name ∷ names) m
    → IsRound names m (terminate_service_inner os root name stop m)
unfolding terminate_service_inner
stop-IsRound os name names m h = elim (Option-cases (Map.get name m.services)) [
  | inl missing ↦ rw missing (record {
    returns = λ e. cc;
    flag = refl;
    halfway = record {
      sorted = h.sorted;
      good = h.good;
      settled = λ k s e l. h.settled k s e (ground (arith, text_eq_iff name k));
    };
  })
  | inr (s, found) ↦
      let (t, w, e, g) = terminate-Stops os root name m s s.state.status (h.good name s found) in
      rw (found, e)
        (record { returns = λ p. cc; flag = refl; halfway = store-IsHalfway name names m t w h g })
]

and_then-IsRound :
    (names : List Text) (m : ServiceManager) (r : Step (Unit {0}))
    (f : ServiceManager → Step (Unit {0}))
    → IsRound names m r
    → ((n : ServiceManager) → IsHalfway names n → IsRound [] n (f n))
    → IsRound [] m (and_then r f)
and_then-IsRound names m (panic, n) f i k = absurd (i.returns refl)
and_then-IsRound names m (ok u, n) f i k =
    let j = k n i.halfway in
    record { returns = j.returns; flag = j.flag ∙ i.flag; halfway = j.halfway }
and_then-IsRound names m (err e, n) f i k =
    let j = k n i.halfway in
    record { returns = j.returns; flag = j.flag ∙ i.flag; halfway = j.halfway }

-- The whole loop.
stop_services-IsRound :
    (os : Os) (names : List Text) (m : ServiceManager)
    → IsHalfway names m
    → IsRound [] m (stop_services os names m)
unfolding stop_services
stop_services-IsRound os [] m h = record { returns = λ e. cc; flag = refl; halfway = h }
stop_services-IsRound os (name ∷ names) m h =
    and_then-IsRound names m (terminate_service_inner os root name stop m) (stop_services os names)
      (stop-IsRound os name names m h) (stop_services-IsRound os names)

listed-keys :
    (k : Text) (services : Map Service) {s : Service}
    → Map.get k services ≡ some s
    → listed k (Map.keys services) ≡ true
unfolding Map.get Map.keys
listed-keys k [] h = cc
listed-keys k ((j, t) ∷ services) {s} h = elim (Bool-cases (text_eq j k)) [
  | inl e ↦ rw e refl
  | inr e ↦ rw e (listed-keys k services {s = s} (ground arith))
]

IsHalfway-start :
    (m : ServiceManager)
    → IsValid m
    → m.shutdown ≡ false
    → IsHalfway (Map.keys m.services) (record m { shutdown = true })
IsHalfway-start m v up = record {
  sorted = v.sorted;
  good = λ k s e. subst (λ down. IsGood down k s) up (v.each k s e);
  settled = λ k s e l. cc (listed-keys k m.services e);
}

IsHalfway-end : (m : ServiceManager) → IsHalfway [] m → m.shutdown ≡ true → IsValid m
IsHalfway-end m h down = record {
  sorted = h.sorted;
  each = λ k s e.
      let g = h.good k s e in
      record {
        named = g.named;
        env_valid = g.env_valid;
        published = g.published;
        probed = g.probed;
        connected = g.connected;
        settled = λ d. h.settled k s e refl;
      };
}

-- The outcome of an operation that may begin the shutdown.
pub record IsFineDown (m : ServiceManager) (r : Step (Unit {0})) : Type 0 where
  pub returns : r.0 ≢ panic
  pub stays_down : m.shutdown ≡ true → r.1.shutdown ≡ true
  pub valid : IsValid r.1

IsFineDown-if :
    {m : ServiceManager} (b : Bool) {x y : Step (Unit {0})}
    → (b ≡ true → IsFineDown m x)
    → (b ≡ false → IsFineDown m y)
    → IsFineDown m (if b then x else y)
IsFineDown-if true f g = f refl
IsFineDown-if false f g = g refl

then-IsFineDown :
    {m : ServiceManager} (r : Step (Unit {0})) (f : ServiceManager → Step (Unit {0}))
    → IsFine m r
    → ((n : ServiceManager) → IsValid n → IsFineDown n (f n))
    → IsFineDown m (and_then r f)
then-IsFineDown (panic, n) f i k = absurd (i.returns refl)
then-IsFineDown (ok u, n) f i k =
    let j = k n i.valid in
    record { returns = j.returns; stays_down = λ d. j.stays_down (i.flag ∙ d); valid = j.valid }
then-IsFineDown (err e, n) f i k =
    let j = k n i.valid in
    record { returns = j.returns; stays_down = λ d. j.stays_down (i.flag ∙ d); valid = j.valid }

stay : {m : ServiceManager} {r : Outcome (Unit {0})} → r ≢ panic → IsValid m → IsFineDown m (r, m)
stay h v = record { returns = h; stays_down = λ d. d; valid = v }

pub begin_shutdown-IsFineDown :
    (os : Os) (m : ServiceManager) → IsValid m → IsFineDown m (begin_shutdown os m)
unfolding begin_shutdown stop_all_services
begin_shutdown-IsFineDown os m v =
    IsFineDown-if m.shutdown (λ d. stay (λ e. cc) v)
      λ up.
        let i = stop_services-IsRound os _ _ (IsHalfway-start m v up) in
        record {
          returns = i.returns;
          stays_down = λ d. i.flag;
          valid = IsHalfway-end _ i.halfway i.flag;
        }

-- If the pipe of a log can be made and the manager is in order, then whatever signal arrives and
-- whatever children have exited, the handler does not panic, leaves the manager in order, and never
-- takes a shutdown back.
pub handle_signal-IsFineDown :
    (os : Os) (signo : ℕ) (children : List (ℕ × ExitStatus)) (m : ServiceManager)
    → HasLogPipes os
    → IsValid m
    → IsFineDown m (handle_signal os signo children m)
unfolding handle_signal
handle_signal-IsFineDown os signo children m pipes v =
    then-IsFineDown (if signo == sigchld then reap_all os children m else (ok tt, m))
      (shutdown_signal os signo)
      (IsFine-if (signo == sigchld) (reap_all-IsFine os children m pipes v)
        (record { returns = λ e. cc; flag = refl; valid = v }))
      (λ n w.
        IsFineDown-if (signo == 15 || signo == sigint) (λ t. begin_shutdown-IsFineDown os n w)
          (λ f. stay (λ e. cc) w))
