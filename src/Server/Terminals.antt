-- ===== src/Server/Terminals.antt =====
-- beam-init/src/ptystore.rs with `get_pty_from_store` of beam-init/src/bin/beamctl.rs: the socket
-- over which a client gets the terminal of a service. A connection carries one byte for the length
-- of the name and the bytes of the name, and then a descriptor back. Connecting is the system's, and
-- the message that carries the descriptor is in Server/Terminals/Descriptor.
pub mod Descriptor
pub mod Examples
use beam_init.Base.{
  ◌≤◌, ◌∙◌, inr, inl, Bool-cases, ℕ, ◌≡◌, refl, Bool, true, false, Option, none, some, List, [],
  ◌∷◌, length, take, ltb, if◌then◌else◌, arith, ap,
}
use beam_init.Base.Text.{Text, codes}
use beam_init.Services.Types.{Credentials, ServiceManager}
use beam_init.Services.Outcome.{Outcome, ok, err, panic}
use beam_init.Services.Query.{get_pty}
use beam_init.Services.Manager.{create_service, check_name}
use beam_init.Services.Invariant.Create.{create_service_lem}
use beam_init.Services.Types.{ServiceConfig}
use beam_init.Server.Command.{Host}
use beam_init.Server.Loop.{Event, Answer, descriptor, handle_event, describe}

-- What the client writes. `name.len().try_into().unwrap()` panics, here `none`, if the length does
-- not fit a byte.
unfoldable pub request_bytes : Text → Option (List ℕ)
request_bytes name = if ltb 255 (length name) then none else some (length name ∷ name)

-- What the server makes of a connection: it gives up, or sends an event.
pub data Connection : Type 0 where
  given_up : Text → Connection
  asked : Event → Connection

-- `String::from_utf8`.
named : (is_utf8 : Text → Bool) → Credentials → Text → Connection
named is_utf8 credentials name =
    if is_utf8 name then asked (Event.pty name credentials) else given_up (codes "not UTF-8")

-- `read_exact` of `name_len` bytes.
read_name : (is_utf8 : Text → Bool) → Credentials → ℕ → Text → Connection
unfolding named
read_name is_utf8 credentials name_len stream =
    if ltb (length stream) name_len
    then given_up (codes "name")
    else named is_utf8 credentials (take name_len stream)

-- `handle_connection` up to the event, on the bytes that the client sends before it closes or waits.
-- A peer without credentials is refused.
unfoldable pub handle_connection :
    (is_utf8 : Text → Bool) → Option Credentials → List ℕ → Connection
unfolding read_name
handle_connection is_utf8 none stream = given_up (codes "no credentials")
handle_connection is_utf8 (some credentials) [] = given_up (codes "length")
handle_connection is_utf8 (some credentials) (name_len ∷ stream) =
    read_name is_utf8 credentials name_len stream

-- The descriptor that the client receives: none if the server closes without sending one.
unfoldable pub received : Answer → Option ℕ
received (descriptor fd) = some fd
received _ = none

unfoldable pub answer_connection : Host → ServiceManager → Connection → Option ℕ
unfolding received
answer_connection host m (given_up reason) = none
answer_connection host m (asked event) = received ((handle_event host event m).0)

exchange :
    Host
    → (is_utf8 : Text → Bool) → Credentials
    → ServiceManager
    → Option (List ℕ)
    → Option (Option ℕ)
unfolding answer_connection handle_connection
exchange host is_utf8 credentials m none = none
exchange host is_utf8 credentials m (some bytes) =
    some (answer_connection host m (handle_connection is_utf8 (some credentials) bytes))

-- `get_pty_from_store` against this server; `none` is the panic.
unfoldable pub get_pty_from_store :
    Host → (is_utf8 : Text → Bool) → Credentials → Text → ServiceManager → Option (Option ℕ)
unfolding exchange request_bytes
get_pty_from_store host is_utf8 credentials name m =
    exchange host is_utf8 credentials m (request_bytes name)

-- The descriptor of a result.
unfoldable pub found {ℓ} : {A : Type ℓ} → Outcome A → Option A
found (ok a) = some a
found _ = none

take-length : (name : Text) → take (length name) name ≡ name
take-length [] = refl
take-length (c ∷ name) = ap (λ (t : Text). c ∷ t) (take-length name)

ltb_self : (n : ℕ) → ltb n n ≡ false
ltb_self n = ground arith

received-describe : (r : Outcome ℕ) → received (describe r) ≡ found r
unfolding received describe found
received-describe (ok fd) = refl
received-describe (err e) = refl
received-describe panic = refl

-- A client that asks for the terminal of a service by a UTF-8 name of at most 255 bytes receives
-- exactly what the manager gives to these credentials for this name; for a longer name it panics.
pub get_pty_from_store-get_pty :
    (host : Host) (is_utf8 : Text → Bool) (credentials : Credentials) (name : Text)
    (m : ServiceManager)
    → is_utf8 name ≡ true
    → get_pty_from_store host is_utf8 credentials name m
      ≡ (if ltb 255 (length name) then none else some (found (get_pty host.os credentials name m)))
unfolding get_pty_from_store request_bytes handle_connection read_name named answer_connection
    handle_event
get_pty_from_store-get_pty host is_utf8 credentials name m h =
    elim (Bool-cases (ltb 255 (length name))) [
      | inl e ↦ rw e refl
      | inr e ↦
          rw
            (
              e,
              ltb_self (length name),
              take-length name,
              h,
              received-describe (get_pty host.os credentials name m),
            )
            refl
    ]

short_enough : (name : Text) → length name ≤ 255 → ltb 255 (length name) ≡ false
short_enough name h = ground (arith, h)

-- A UTF-8 name under which a service could be created never makes the client panic: asking for the
-- terminal gives what the manager gives for it.
pub get_pty_from_store-create_service :
    (host : Host) (is_utf8 : Text → Bool) (credentials : Credentials) (name : Text)
    (config : ServiceConfig) (m n : ServiceManager)
    → is_utf8 name ≡ true
    → (create_service name config m).0 ≡ ok tt
    → get_pty_from_store host is_utf8 credentials name n
      ≡ some (found (get_pty host.os credentials name n))
get_pty_from_store-create_service host is_utf8 credentials name config m n u c =
    let (up, least, most, env, vacant) = (create_service_lem name config m).0.0 c in
    get_pty_from_store-get_pty host is_utf8 credentials name n u ∙ rw (short_enough name most) refl
