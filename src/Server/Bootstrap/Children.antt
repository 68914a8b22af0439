-- ===== src/Server/Bootstrap/Children.antt =====
-- How the event loop of beam-init/src/main.rs ends with the bootstrap service, among all the children
-- that one signal tells of.
use beam_init.Base.{◌≡◌, ◌≢◌, false, some}
use beam_init.Base.Text.{Text}
use beam_init.Base.Map
use beam_init.Base.Map.{Map}
use beam_init.Api.{ExitStatus}
use beam_init.Services.Types.{exited, Service}
use beam_init.Services.Outcome.{Outcome, panic}
use beam_init.Services.Manager.{Step, bootstrap_name}

-- The bootstrap service has ended with the status, and there is no shutdown.
record HasEnded (status : ExitStatus) (r : Step (Unit {0})) : Type 0 where
  returns : r.0 ≢ panic
  flag : r.1.shutdown ≡ false
  service : Service
  found : Map.get bootstrap_name r.1.services ≡ some service
  ended : service.state.status ≡ exited status
