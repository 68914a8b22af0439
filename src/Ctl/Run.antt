-- ===== src/Ctl/Run.antt =====
-- What the commands of beam-init/src/bin/beamctl.rs do with the server and print. A command is a
-- sequence of calls of the client library, which is an argument here with the state of the server.
use beam_init.Base.{Bool, ◌⊎◌, ◌≡◌, refl, inl, inr, ◌++◌, ◌&&◌, Option, ℕ, leb, ltb, if◌then◌else◌}
use beam_init.Base.Text.{Text, codes}
use beam_init.Base.Map.{Map}
use beam_init.Api.{Service, ServiceStatus}
use beam_init.Api.Kind.{ServiceStatusKind}
use beam_init.Client.{Call, Error, Result, ok, err, display_error, response, socket_not_found}

-- The methods of the client by what they return. `act` stands for those that return nothing,
-- `connect` for `Client::new`, `follow_logs` for a stream that was read to its end,
-- `get_pty_from_store` for whether there is a terminal, `manage` for the error of attaching to it,
-- `status_text` for the text of a status code in the HTTP library, and the texts in JSON are those
-- of serde.
pub record Client {ℓ} (S : Type ℓ) : Type ℓ where
  pub list_services : S → Result (Map ServiceStatus) × S
  pub show_service : Text → S → Result Service × S
  pub logs : Text → S → Result Text × S
  pub follow_logs : Text → S → Result Text × S
  pub version : S → Result (Text × Text) × S
  pub connect : S → Result (Unit {0}) × S
  pub get_pty_from_store : Text → S → Bool × S
  pub manage : Text → S → Option Text × S
  pub wait_service_state : Text → ServiceStatusKind → Option ℕ → S → Result ServiceStatus × S
  pub act : Call → S → Result (Unit {0}) × S
  pub status_text : ℕ → Text
  pub services_json : Map ServiceStatus → Text
  pub service_json : Service → Text
  pub status_json : ServiceStatus → Text

-- The state of the server, the text on the standard output and that on the standard error.
pub record Session {ℓ} (S : Type ℓ) : Type ℓ where
  pub server : S
  pub out : Text
  pub errors : Text

-- `exited` is `process::exit(1)`, `panicked` a failed `expect`.
pub data Run {ℓ κ} (S : Type ℓ) (A : Type κ) : Type (ℓ ⊔ κ) where
  done : A → Session S → Run S A
  exited panicked : Session S → Run S A

-- A failed request: client errors by their body, the others by their text.
unfoldable pub shown_error : (ℕ → Text) → Error → Text
shown_error status_text (response status body) =
    if leb 400 status && ltb status 500
    then body
    else display_error status_text (response status body)
shown_error status_text socket_not_found =
    display_error status_text socket_not_found
    ++ codes "\nhint: beamctl only works inside containers that use beam-init as init process"
shown_error status_text e = display_error status_text e

module _ {ℓ} {S : Type ℓ} where
  abbrev pub and_then {κ μ} :
      {A : Type κ} {B : Type μ} → Run S A → (A → Session S → Run S B) → Run S B
  and_then (done a s) f = f a s
  and_then (exited s) f = exited s
  and_then (panicked s) f = panicked s

  unfoldable pub print : Text → Session S → Run S (Unit {0})
  print text s = done tt (record s { out = s.out ++ text })

  unfoldable pub eprint : Text → Session S → Run S (Unit {0})
  eprint text s = done tt (record s { errors = s.errors ++ text })

  -- `.unwrap_or_else(show_error_and_exit)`.
  unfoldable pub show_error_and_exit {κ} :
      {A : Type κ} → (ℕ → Text) → Session S → Result A × S → Run S A
  unfolding shown_error
  show_error_and_exit status_text s (ok a, server) = done a (record s { server = server })
  show_error_and_exit status_text s (err e, server) =
      exited (record s {
        server = server;
        errors = s.errors ++ (shown_error status_text e ++ codes "\n");
      })

-- How a request without a result ends.
pub Result-cases {ℓ} :
    {S : Type ℓ} (r : Result (Unit {0}) × S)
    → ((e : Error) × (t : S) × (r ≡ (err e, t))) ⊎ ((t : S) × (r ≡ (ok tt, t)))
Result-cases (err e, t) = inl (e, t, refl)
Result-cases (ok u, t) = inr (t, refl)
