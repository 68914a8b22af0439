-- ===== src/System/Socket.antt =====
-- beam-init/src/system/unix_socket.rs: a descriptor sent beside some bytes. `sendmsg` and `recvmsg`
-- are arguments. The control buffer has room for one control message with one descriptor.
use beam_init.Base.{ℕ, Bool, ◌&&◌, not, Option, none, some, List, [], ◌∷◌, ◌==◌, if◌then◌else◌}
use beam_init.Base.Text.{codes}
use beam_init.Services.Types.{IoError}
use beam_init.Services.Spawn.{IoResult, done, failed}

pub record ControlMessage : Type 0 where
  pub cmsg_len : ℕ
  pub cmsg_level : ℕ
  pub cmsg_type : ℕ
  pub fd : ℕ

-- The `msghdr` of a call: its bytes, and the control message if there is one.
pub record Header : Type 0 where
  pub iov : List ℕ
  pub control : Option ControlMessage

-- `SOL_SOCKET`, `SCM_RIGHTS` and `CMSG_LEN(size_of::<c_int>())` of Linux on 64 bits.
abbrev pub sol_socket : ℕ
sol_socket = 1

abbrev pub scm_rights : ℕ
scm_rights = 1

abbrev pub cmsg_len_of_int : ℕ
cmsg_len_of_int = 20

abbrev pub rights_message : (fd : ℕ) → ControlMessage
rights_message fd = record {
  cmsg_len = cmsg_len_of_int;
  cmsg_level = sol_socket;
  cmsg_type = scm_rights;
  fd = fd;
}

unfoldable pub fd_header : List ℕ → (fd : ℕ) → Header
fd_header bytes fd = record { iov = bytes; control = some (rights_message fd) }

-- `none` is the failed `assert!`.
unfoldable pub socket_send_fd :
    (sendmsg : Header → IoResult ℕ) → List ℕ → (fd : ℕ) → Option (IoResult ℕ)
unfolding fd_header
socket_send_fd sendmsg [] fd = none
socket_send_fd sendmsg (byte ∷ bytes) fd = some (sendmsg (fd_header (byte ∷ bytes) fd))

abbrev invalid_data : IoError
invalid_data = record {
  raw_os_error = none;
  message = codes "no SCM_RIGHTS control message received";
}

unfoldable pub is_rights : ControlMessage → Bool
is_rights c = (c.cmsg_level == sol_socket) && (c.cmsg_type == scm_rights)

-- The descriptor of the control message; `none` is the failed `assert_eq!`.
unfoldable pub received_fd : Option ControlMessage → Option (IoResult (Option ℕ))
unfolding is_rights
received_fd none = some (done none)
received_fd (some c) =
    if not (is_rights c)
    then some (failed invalid_data)
    else if c.cmsg_len == cmsg_len_of_int
    then some (done (some c.fd))
    else none

unfoldable pub with_bytes :
    List ℕ → Option (IoResult (Option ℕ)) → Option (IoResult (List ℕ × Option ℕ))
with_bytes bytes none = none
with_bytes bytes (some (failed e)) = some (failed e)
with_bytes bytes (some (done fd)) = some (done (bytes, fd))

unfoldable pub after_recvmsg : IoResult Header → Option (IoResult (List ℕ × Option ℕ))
unfolding received_fd with_bytes
after_recvmsg (failed e) = some (failed e)
after_recvmsg (done header) = with_bytes header.iov (received_fd header.control)

-- `recvmsg` is given the length of the buffer; the bytes that it filled come with the descriptor.
unfoldable pub socket_recv_fd :
    (recvmsg : ℕ → IoResult Header) → (len : ℕ) → Option (IoResult (List ℕ × Option ℕ))
unfolding after_recvmsg
socket_recv_fd recvmsg len = if len == 0 then none else after_recvmsg (recvmsg len)

-- A pair of connected sockets: what sending gives, and what receiving gives, with a buffer of some
-- length, once a message was sent or the other end is closed.
pub record SocketPair : Type 0 where
  pub sendmsg : Header → IoResult ℕ
  pub recvmsg : Option Header → (len : ℕ) → IoResult Header
