-- ===== src/Server/Response.antt =====
-- `impl IntoResponse for ServiceError` of beam-init/src/services.rs, and the bodies that the
-- handlers of api_impl.rs answer with. Serializing to JSON belongs to serde.
use beam_init.Base.{ℕ, ◌++◌}
use beam_init.Base.Text.{Text, codes}
use beam_init.Base.Decimal.{decimal}
use beam_init.Base.Map.{Map}
use beam_init.Api
use beam_init.Services.Types.{
  ServiceError, no_pty, service_not_found, service_exists, spawn_failed, invalid_credentials,
  invalid_request, build_environment, bootstrap_is_protected, service_pruned_while_waiting,
  observation_lagged, shutting_down, too_many_open_files,
}

-- `log_stream` is the body that follows the log of a service.
pub data Body : Type 0 where
  created : Api.CreateService → Body
  unit : Body
  service : Api.Service → Body
  statuses : Map Api.ServiceStatus → Body
  status : Api.ServiceStatus → Body
  log_stream : (name : Text) → Body
  text : Text → Body

pub record Response : Type 0 where
  pub code : ℕ
  pub body : Body

abbrev reply : ℕ → Text → Response
reply code message = record { code = code; body = text message }

-- `ServiceError::into_response`.
unfoldable pub error_response : ServiceError → Response
error_response (no_pty name) = reply 404 (codes "Service " ++ (name ++ codes " has no PTY"))
error_response (service_not_found name) =
    reply 404 (codes "Service " ++ (name ++ codes " was not found"))
error_response (service_exists name) =
    reply 409 (codes "Service named `" ++ (name ++ codes "` already exists"))
error_response (spawn_failed cmd err) =
    reply 400 (codes "Failed to spawn " ++ (cmd ++ (codes ": " ++ err)))
error_response invalid_credentials = reply 401 (codes "Service owned by a different user")
error_response (invalid_request err) = reply 400 err
error_response (build_environment err) = reply 500 err
error_response bootstrap_is_protected =
    reply 403 (codes "The \"bootstrap\" service cannot be modified")
error_response service_pruned_while_waiting =
    reply 410 (codes "Service was pruned before condition was met")
error_response (observation_lagged skipped) = reply 409 (
    codes "Unable to determine if requested state occurred: missed "
    ++ (decimal skipped ++ codes " service status updates"))
error_response shutting_down = reply 503 (codes "beam-init is shutting down")
error_response too_many_open_files = reply 500 (codes "Too many open files")
