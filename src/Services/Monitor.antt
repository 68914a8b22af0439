-- ===== src/Services/Monitor.antt =====
-- `MonitorCommand` of beam-init/src/spawn.rs on the pipe to the monitor process: one byte each.
pub mod Process
use beam_init.Base.{◌-◌, ◌^◌, ℕ, ◌≡◌, ◌↔◌, Option, none, some, ◌==◌, ltb, if◌then◌else◌, arith}
use beam_init.Services.Types.{MonitorCommand, signal, foreground, background}

-- `MonitorCommand::ser`: the signal as an `i8`, whose conversion panics if it does not fit, which
-- is `none` here; -1 and -2 stand for the other commands. Then the `i8` is taken as a `u8`.
unfoldable pub ser : MonitorCommand → Option ℕ
ser (signal sig) = if ltb sig (2 ^ 7) then some sig else none
ser foreground = some (2 ^ 8 - 1)
ser background = some (2 ^ 8 - 2)

-- `MonitorCommand::de` of a byte; `none` is the `unreachable!`.
unfoldable pub de : ℕ → Option MonitorCommand
de b =
    if b == 2 ^ 8 - 1
    then some foreground
    else if b == 2 ^ 8 - 2
    then some background
    else if ltb b (2 ^ 7)
    then some (signal b)
    else none

ser→de : (c : MonitorCommand) (b : ℕ) → ser c ≡ some b → de b ≡ some c
unfolding ser de
ser→de (signal sig) b h = ground arith
ser→de foreground b h = ground arith
ser→de background b h = ground arith

de→ser : (c : MonitorCommand) (b : ℕ) → de b ≡ some c → ser c ≡ some b
unfolding ser de
de→ser c b h = ground arith

-- A command is written as a byte exactly if the byte is read as that command, so the monitor acts
-- on the command that was sent, and it never reads a byte that it does not know.
pub ser-de_iff : (c : MonitorCommand) (b : ℕ) → (ser c ≡ some b) ↔ (de b ≡ some c)
ser-de_iff c b = (ser→de c b, de→ser c b)
