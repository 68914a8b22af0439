-- ===== src/Server/Terminals/Descriptor.antt =====
-- The terminal of a service sent over its socket (beam-init/src/ptystore.rs), by the messages of
-- System/Socket, to `get_pty_from_store` of beam-init/src/bin/beamctl.rs.
use beam_init.Base.{
  ℕ, ◌≡◌, refl, ◌∙◌, ap, Bool, true, Option, none, some, List, [], ◌∷◌, length, take, ltb,
  if◌then◌else◌, Bool-cases, inl, inr,
}
use beam_init.Base.Text.{Text}
use beam_init.Services.Types.{Credentials, ServiceManager}
use beam_init.Services.Spawn.{IoResult, done}
use beam_init.Services.Query.{get_pty}
use beam_init.Server.Command.{Host}
use beam_init.Server.Terminals.{get_pty_from_store, found, get_pty_from_store-get_pty}
use beam_init.System.Socket.{
  rights_message, after_recvmsg, ControlMessage, Header, SocketPair, fd_header, socket_send_fd,
  socket_recv_fd,
}
use mathlib.Core.Option

-- The message that is on its way after `socket_send_fd` of one zero byte; without one the
-- connection is closed, also where sending failed.
in_flight : Option (IoResult ℕ) → (fd : ℕ) → Option Header
unfolding fd_header
in_flight (some (done len)) fd = some (fd_header (0 ∷ []) fd)
in_flight _ fd = none

unfoldable pub send_answer : SocketPair → Option ℕ → Option Header
unfolding in_flight socket_send_fd
send_answer sockets none = none
send_answer sockets (some fd) = in_flight (socket_send_fd sockets.sendmsg (0 ∷ []) fd) fd

-- `none` is the panic of the `unwrap()`.
unwrapped : Option (IoResult (List ℕ × Option ℕ)) → Option (Option ℕ)
unwrapped (some (done (bytes, fd))) = some fd
unwrapped _ = none

-- The client receives into a buffer of one byte.
unfoldable pub receive_answer : SocketPair → Option ℕ → Option (Option ℕ)
unfolding unwrapped socket_recv_fd send_answer
receive_answer sockets answer =
    unwrapped (socket_recv_fd (sockets.recvmsg (send_answer sockets answer)) 1)

asked_over : SocketPair → Option (Option ℕ) → Option (Option ℕ)
unfolding receive_answer
asked_over sockets none = none
asked_over sockets (some answer) = receive_answer sockets answer

-- `get_pty_from_store` against the server, down to the messages.
unfoldable pub get_pty_over :
    Host
    → SocketPair
    → (is_utf8 : Text → Bool) → Credentials
    → Text
    → ServiceManager
    → Option (Option ℕ)
unfolding asked_over get_pty_from_store
get_pty_over host sockets is_utf8 credentials name m =
    asked_over sockets (get_pty_from_store host is_utf8 credentials name m)

-- What the sockets do: sending succeeds, the other end receives the bytes that fit its buffer with a
-- descriptor of its own for the one that was sent, and nothing once the connection is closed.
pub record IsConnected (sockets : SocketPair) (own : ℕ → ℕ) : Type 0 where
  pub sends : (h : Header) → (len : ℕ) × (sockets.sendmsg h ≡ done len)
  pub receives :
      (h : Header) (c : ControlMessage) (len : ℕ)
      → h.control ≡ some c
      → sockets.recvmsg (some h) len
        ≡ done (record { iov = take len h.iov; control = some (record c { fd = own c.fd }) })
  pub ends : (len : ℕ) → sockets.recvmsg none len ≡ done (record { iov = []; control = none })

receive_answer-IsConnected :
    (sockets : SocketPair) (own : ℕ → ℕ) (answer : Option ℕ)
    → IsConnected sockets own
    → receive_answer sockets answer ≡ some (Option.map own answer)
unfolding receive_answer send_answer in_flight socket_send_fd socket_recv_fd unwrapped fd_header
receive_answer-IsConnected sockets own none c = rw (c.ends 1, after_recvmsg) refl
receive_answer-IsConnected sockets own (some fd) c =
    rw
      (
        (c.sends (fd_header (0 ∷ []) fd)).1,
        c.receives (fd_header (0 ∷ []) fd) (rights_message fd) 1 refl,
        after_recvmsg,
      )
      refl

-- A client that asks for the terminal of a service by a UTF-8 name of at most 255 bytes receives,
-- over connected sockets, a descriptor of its own for exactly the one that the manager gives to
-- these credentials for this name, and none where the manager gives none; for a longer name it
-- panics.
pub get_pty_over-get_pty :
    (host : Host) (sockets : SocketPair) (own : ℕ → ℕ) (is_utf8 : Text → Bool)
    (credentials : Credentials) (name : Text) (m : ServiceManager)
    → IsConnected sockets own
    → is_utf8 name ≡ true
    → get_pty_over host sockets is_utf8 credentials name m ≡ (
        if ltb 255 (length name)
        then none
        else some (Option.map own (found (get_pty host.os credentials name m))))
unfolding get_pty_over asked_over
get_pty_over-get_pty host sockets own is_utf8 credentials name m c u =
    ap (asked_over sockets) (get_pty_from_store-get_pty host is_utf8 credentials name m u)
    ∙ elim (Bool-cases (ltb 255 (length name))) [
      | inl e ↦ rw e refl
      | inr e ↦ rw e (receive_answer-IsConnected sockets own _ c)
    ]
