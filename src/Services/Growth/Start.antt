-- ===== src/Services/Growth/Start.antt =====
-- How starting a service changes the manager (beam-init/src/services.rs).
use beam_init.Base.{if◌then◌else◌, ℕ, ◌≡◌, refl, inl, Bool, true, false, Option, none, some, List}
use beam_init.Base.Text.{Text}
use beam_init.Api.{Probe}
use beam_init.Services.Types.{
  MonitorCommandSender, Pty, StartReason, World, ServiceConfig, ServiceStatus, Service,
  ServiceManager, spawn_log_writer, Credentials,
}
use beam_init.Services.Outcome.{Outcome}
use beam_init.Services.Service.{take_id, set_status, restart_probe, start_probe}
use beam_init.Services.Spawn.{forked, piped, Os, IoResult, done, failed, spawn_service}
use beam_init.Services.Manager.{
  count_attempt, launched, new_writer, start_logged, start_pty, start, started, start_service,
  get_service,
}
use beam_init.Services.Invariant.{get_service-eq-ok}
use beam_init.Services.Growth.{
  Grows-if, WorldGrows, WorldGrows-refl, WorldGrows-trans, emit-WorldGrows, take_id-WorldGrows,
  abort-WorldGrows, token_of, Grows, Grows-refl, store-Grows, with_service-Grows,
}

-- A service `s` in a world became `t` in a later one, and `t` waits for no other timer.
pub record Kept (s : Service) (w : World) (t : Service) (w' : World) : Type 0 where
  pub world : WorldGrows w w'
  pub tokens :
      (token : ℕ) → token_of t.state.status ≡ some token → token_of s.state.status ≡ some token

pub Kept-trans :
    {s t u : Service} {w w' w'' : World} → Kept s w t w' → Kept t w' u w'' → Kept s w u w''
Kept-trans k l = record {
  world = WorldGrows-trans k.world l.world;
  tokens = λ token h. k.tokens token (l.tokens token h);
}

pub start_probe-Kept :
    (probe : Option Probe) (name : Text) (s : Service) (w : World)
    → Kept s w (start_probe probe name s w).0 (start_probe probe name s w).1
unfolding start_probe
start_probe-Kept none name s w = record { world = WorldGrows-refl w; tokens = λ token h. h }
start_probe-Kept (some probe) name s w = record {
  world = WorldGrows-trans (emit-WorldGrows _ w tt) (take_id-WorldGrows _);
  tokens = λ token h. h;
}

pub restart_probe-Kept :
    (name : Text) (s : Service) (w : World)
    → Kept s w (restart_probe name s w).0 (restart_probe name s w).1
unfolding restart_probe
restart_probe-Kept name s w = start_probe-Kept s.config.liveness name s w

-- A status with no timer.
pub set_status-Kept :
    (status : ServiceStatus) (s : Service) (w w' : World)
    → token_of status ≡ none
    → WorldGrows w w'
    → Kept s w (set_status status s) w'
unfolding set_status
set_status-Kept status s w w' n g = record { world = g; tokens = λ token h. cc }

forked-WorldGrows :
    (os : Os) (config : ServiceConfig) (has_ctty : Bool) (strings : List Text × List Text)
    (w : World) (r : IoResult (Unit {0}))
    → WorldGrows w (forked os config has_ctty strings w r).1
unfolding forked
forked-WorldGrows os config has_ctty (argv, envp) w (failed e) = WorldGrows-refl w
forked-WorldGrows os config has_ctty (argv, envp) w (done u) = emit-WorldGrows _ w tt

piped-WorldGrows :
    (os : Os) (config : ServiceConfig) (has_ctty : Bool) (w : World)
    (r : IoResult (List Text × List Text))
    → WorldGrows w (piped os config has_ctty w r).1
unfolding piped
piped-WorldGrows os config has_ctty w (failed e) = WorldGrows-refl w
piped-WorldGrows os config has_ctty w (done strings) =
    forked-WorldGrows os config has_ctty strings w _

spawn_service-WorldGrows :
    (os : Os) (config : ServiceConfig) (has_ctty : Bool) (w : World)
    → WorldGrows w (spawn_service os config has_ctty w).1
unfolding spawn_service
spawn_service-WorldGrows os config has_ctty w = piped-WorldGrows os config has_ctty w _

launched-Kept :
    (name : Text) (pty : Option Pty) (s : Service) (w : World)
    (r : IoResult (ℕ × Option MonitorCommandSender) × World)
    → WorldGrows w r.1
    → Kept s w (launched name pty s r).1 (launched name pty s r).2
unfolding launched
launched-Kept name pty s w (done (pid, tx), w') g =
    Kept-trans (set_status-Kept _ s w w' refl g) (restart_probe-Kept name _ w')
launched-Kept name pty s w (failed e, w') g = set_status-Kept _ s w w' refl g

start_logged-Kept :
    (os : Os) (name : Text) (s : Service) (w : World) (r : IoResult (Unit {0}))
    → Kept s w (start_logged os name s w r).1 (start_logged os name s w r).2
unfolding start_logged new_writer
start_logged-Kept os name s w (failed e) = record {
  world = WorldGrows-refl w;
  tokens = λ token h. h;
}
start_logged-Kept os name s w (done u) =
    Kept-trans
      (record {
        world = WorldGrows-trans (abort-WorldGrows s.state.logs.writer w) (
            WorldGrows-trans (emit-WorldGrows (spawn_log_writer w.next_id) _ tt)
              (take_id-WorldGrows _));
        tokens = λ token h. h;
      })
      (launched-Kept name none _ _ _ (spawn_service-WorldGrows os s.config false _))

start_pty-Kept :
    (os : Os) (name : Text) (s : Service) (w : World) (r : IoResult Pty)
    → Kept s w (start_pty os name s w r).1 (start_pty os name s w r).2
unfolding start_pty
start_pty-Kept os name s w (failed e) = set_status-Kept _ s w w refl (WorldGrows-refl w)
start_pty-Kept os name s w (done pty) =
    launched-Kept name (some pty) s w _
      (WorldGrows-trans (emit-WorldGrows _ w tt) (spawn_service-WorldGrows os s.config true _))

Kept-if :
    {s : Service} {w : World} (b : Bool) (x y : Outcome (Unit {0}) × Service × World)
    → Kept s w x.1 x.2
    → Kept s w y.1 y.2
    → Kept s w (if b then x else y).1 (if b then x else y).2
Kept-if true x y k l = k
Kept-if false x y k l = l

start-Kept :
    (os : Os) (name : Text) (reason : StartReason) (s : Service) (w : World)
    → Kept s w (start os name reason s w).1 (start os name reason s w).2
unfolding start count_attempt
start-Kept os name reason s w =
    let counted : Kept s w (count_attempt reason s) (take_id w) = record {
      world = take_id-WorldGrows w;
      tokens = λ token h. h;
    } in
    Kept-if s.config.pty _ _ (Kept-trans counted (start_pty-Kept os name _ _ _))
      (Kept-trans counted (start_logged-Kept os name _ _ _))

pub start_service-Grows :
    (os : Os) (credentials : Credentials) (name : Text) (reason : StartReason) (m : ServiceManager)
    → Grows m (start_service os credentials name reason m).1
unfolding start_service started
start_service-Grows os credentials name reason m = Grows-if m.shutdown _ _ (Grows-refl m) (
    with_service-Grows m (get_service credentials name m) _ (λ s h.
      let k = start-Kept os name reason s m.world in
      store-Grows name _ _ m k.world (λ token p. inl (record {
        service = s;
        found = (get_service-eq-ok credentials name m h).0;
        waits = k.tokens token p;
      }))))
