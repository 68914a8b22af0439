-- ===== src/Server/Terminals/Examples.antt =====
-- A terminal sent over a pair of sockets whose other end numbers its descriptors from 10 on.
use beam_init.Base.{◌∷◌, ◌≡◌, refl, none, some, [], length, take, ltb, if◌then◌else◌, true, ◌+◌}
use beam_init.Base.Text.{codes}
use beam_init.Services.Spawn.{done}
use beam_init.Services.Types.{ServiceManager, running}
use beam_init.Services.Query.{get_pty}
use beam_init.Server.Terminals.{found}
use beam_init.Server.Terminals.Descriptor.{get_pty_over, get_pty_over-get_pty, IsConnected}
use beam_init.System.Socket.{SocketPair, ControlMessage}
use beam_init.Server.Examples.{system, alice}
use beam_init.Server.Runs.{manager, with_pid, process}
use mathlib.Core.Option

abbrev own : ControlMessage → ControlMessage
own c = record c { fd = c.fd + 10 }

abbrev sockets : SocketPair
sockets = record {
  sendmsg = λ h. done 1;
  recvmsg = λ sent len. elim sent [
    | none ↦ done (record { iov = []; control = none })
    | some h ↦ done (record { iov = take len h.iov; control = Option.map own h.control })
  ];
}

-- A service with a terminal.
abbrev attached : ServiceManager
attached = record manager {
  services =
      (
        codes "web",
        record (with_pid 30) {
          state = record ((with_pid 30).state) {
            status = running (process 30) (some (record { path = codes "/dev/pts/0" }));
          };
        },
      )
      ∷ [];
}

sockets-IsConnected : IsConnected sockets (λ fd. fd + 10)
sockets-IsConnected = record {
  sends = λ h. (1, refl);
  receives = λ h c len e. rw e refl;
  ends = λ len. refl;
}

get_pty_over-get_pty_example :
    get_pty_over system sockets (λ t. true) alice (codes "web") attached ≡ (
      if ltb 255 (length (codes "web"))
      then none
      else some
          (Option.map (λ fd. fd + 10) (found (get_pty system.os alice (codes "web") attached))))
get_pty_over-get_pty_example =
    get_pty_over-get_pty system sockets (λ fd. fd + 10) (λ t. true) alice (codes "web") attached
      sockets-IsConnected refl
