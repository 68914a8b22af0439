-- ===== src/Services/Growth.antt =====
-- How the operations of beam-init/src/services.rs change the service manager: which kill timers a
-- service can be waiting for afterwards, and which commands a monitor process can have been sent.
pub mod Start
pub mod Lifecycle
pub mod Reap
pub mod Query
use beam_init.Base.{
  if◌then◌else◌, Bool, false, subst₂, Option-cases, true, ℕ, ◌≤◌, ◌≡◌, ◌≢◌, refl, ◌⊎◌, inl, inr,
  Option, none, some, List, [], ◌∷◌, arith, ltb,
}
use beam_init.Base.Text.{Text}
use beam_init.Base.Map
use beam_init.Base.Map.{get-insert_cases, get-remove-some}
use beam_init.Services.Types.{
  MonitorCommand, Effect, monitor_command, World, ServiceStatus, stopping, Service, ServiceManager,
  ServiceProcess,
}
use beam_init.Services.Outcome.{Outcome, ok, err, panic}
use beam_init.Services.Service.{emit, take_id, abort, send_signal}
use beam_init.Services.Manager.{Step, store, removed, with_service}
use beam_init.Services.Monitor.{ser}

-- A command to a monitor has a byte that stands for it, so that its conversion does not panic.
abbrev pub IsEncodable : Effect → Type 0
IsEncodable (monitor_command pid command) = ser command ≢ none
IsEncodable _ = Unit {0}

abbrev pub AllEncodable : List Effect → Type 0
AllEncodable [] = Unit {0}
AllEncodable (e ∷ effects) = IsEncodable e × AllEncodable effects

-- Identities are not given out twice, and every command that is sent has its byte.
pub record WorldGrows (w w' : World) : Type 0 where
  pub ids : w.next_id ≤ w'.next_id
  pub sent : AllEncodable w.effects → AllEncodable w'.effects

pub WorldGrows-refl : (w : World) → WorldGrows w w
WorldGrows-refl w = record { ids = omega arith; sent = λ h. h }

pub WorldGrows-trans : {u v w : World} → WorldGrows u v → WorldGrows v w → WorldGrows u w
WorldGrows-trans g h = record { ids = omega (arith, g.ids, h.ids); sent = λ a. h.sent (g.sent a) }

pub emit-WorldGrows : (e : Effect) (w : World) → IsEncodable e → WorldGrows w (emit e w)
unfolding emit
emit-WorldGrows e w i = record { ids = omega arith; sent = λ h. (i, h) }

pub take_id-WorldGrows : (w : World) → WorldGrows w (take_id w)
unfolding take_id
take_id-WorldGrows w = record { ids = omega arith; sent = λ h. h }

pub abort-WorldGrows : (task : Option ℕ) (w : World) → WorldGrows w (abort task w)
unfolding abort
abort-WorldGrows none w = WorldGrows-refl w
abort-WorldGrows (some task) w = emit-WorldGrows _ w tt

signal-IsEncodable : (sig : ℕ) → ltb sig 128 ≡ true → ser (MonitorCommand.signal sig) ≢ none
unfolding ser
signal-IsEncodable sig h = ground (arith, h)

pub send_signal-WorldGrows :
    (process : ServiceProcess) (sig : ℕ) (w : World)
    → ltb sig 128 ≡ true
    → WorldGrows w (send_signal process sig w)
unfolding send_signal
send_signal-WorldGrows process sig w h = elim (Option-cases process.monitor_tx) [
  | inl e ↦ rw e (emit-WorldGrows _ w tt)
  | inr (pipes, e) ↦ rw e (emit-WorldGrows _ w (signal-IsEncodable sig h))
]

-- The token of the kill timer that a service waits for.
abbrev pub token_of : ServiceStatus → Option ℕ
token_of (stopping process after_stop (some kill)) = some kill.token
token_of _ = none

-- The service `name` waits for the timer with this token.
pub record IsPending (name : Text) (token : ℕ) (m : ServiceManager) : Type 0 where
  pub service : Service
  pub found : Map.get name m.services ≡ some service
  pub waits : token_of service.state.status ≡ some token

-- A timer that a service waits for afterwards is one that it waited for before, or a new one.
pub record Grows (m n : ServiceManager) : Type 0 where
  pub world : WorldGrows m.world n.world
  pub tokens :
      (name : Text) (token : ℕ)
      → IsPending name token n
      → IsPending name token m ⊎ (m.world.next_id ≤ token)

pub Grows-refl : (m : ServiceManager) → Grows m m
Grows-refl m = record { world = WorldGrows-refl m.world; tokens = λ name token p. inl p }

pub Grows-trans : {l m n : ServiceManager} → Grows l m → Grows m n → Grows l n
Grows-trans {l} {m} {n} g h = record { world = WorldGrows-trans g.world h.world; tokens = tokens }
  where
    tokens :
        (name : Text) (token : ℕ)
        → IsPending name token n
        → IsPending name token l ⊎ (l.world.next_id ≤ token)
    tokens name token p = elim (h.tokens name token p) [
      | inl q ↦ g.tokens name token q
      | inr q ↦ inr (omega (arith, q, g.world.ids))
    ]

pub world-Grows :
    (m : ServiceManager) (w : World) → WorldGrows m.world w → Grows m (record m { world = w })
world-Grows m w g = record {
  world = g;
  tokens = λ name token p. inl (record { service = p.service; found = p.found; waits = p.waits });
}

pub store-Grows :
    (name : Text) (s : Service) (w : World) (m : ServiceManager)
    → WorldGrows m.world w
    → ((token : ℕ)
        → token_of s.state.status ≡ some token
        → IsPending name token m ⊎ (m.world.next_id ≤ token))
    → Grows m (store name s w m)
store-Grows name s w m g h = record { world = g; tokens = tokens }
  where
    tokens :
        (k : Text) (token : ℕ)
        → IsPending k token (store name s w m)
        → IsPending k token m ⊎ (m.world.next_id ≤ token)
    tokens k token p = elim (get-insert_cases name k s m.services p.found) [
      | inl (e, q) ↦
          subst₂
            (λ j (t : Service).
              token_of t.state.status ≡ some token
              → IsPending j token m ⊎ (m.world.next_id ≤ token))
            e q (h token) p.waits
      | inr (e, q) ↦ inl (record { service = p.service; found = q; waits = p.waits })
    ]

-- The flag of the shutdown plays no part.
pub Grows-down :
    (m : ServiceManager) {n : ServiceManager} → Grows (record m { shutdown = true }) n → Grows m n
Grows-down m {n} g = record { world = g.world; tokens = tokens }
  where
    tokens :
        (name : Text) (token : ℕ)
        → IsPending name token n
        → IsPending name token m ⊎ (m.world.next_id ≤ token)
    tokens name token p = elim (g.tokens name token p) [
      | inl q ↦ inl (record { service = q.service; found = q.found; waits = q.waits })
      | inr q ↦ inr q
    ]

pub removed-Grows : (name : Text) (s : Service) (m : ServiceManager) → Grows m (removed name s m)
removed-Grows name s m = record { world = abort-WorldGrows _ m.world; tokens = tokens }
  where
    tokens :
        (k : Text) (token : ℕ)
        → IsPending k token (removed name s m)
        → IsPending k token m ⊎ (m.world.next_id ≤ token)
    tokens k token p =
        let (e, q) = get-remove-some name k m.services p.found in
        inl (record { service = p.service; found = q; waits = p.waits })

pub with_service-Grows :
    (m : ServiceManager) (r : Outcome Service) (f : Service → Step (Unit {0}))
    → ((s : Service) → r ≡ ok s → Grows m (f s).1)
    → Grows m (with_service r m f).1
with_service-Grows m (ok s) f k = k s refl
with_service-Grows m (err e) f k = Grows-refl m
with_service-Grows m panic f k = Grows-refl m

pub Grows-if :
    {m : ServiceManager} (b : Bool) (x y : Step (Unit {0}))
    → Grows m x.1
    → Grows m y.1
    → Grows m (if b then x else y).1
Grows-if true x y g h = g
Grows-if false x y g h = h
