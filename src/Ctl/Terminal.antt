-- ===== src/Ctl/Terminal.antt =====
-- `manage` of beam-init/src/bin/terminal/mod.rs: beamctl between the user's terminal and that of a
-- service. What the system returns is an argument, and the requests go to a client library that is
-- an argument too. Copying between the terminals and their modes are the system's.
use beam_init.Base.{
  ℕ, Bool, true, false, ◌||◌, Option, none, some, List, [], ◌∷◌, ◌==◌, if◌then◌else◌,
}
use beam_init.Base.Int.{pos}
use beam_init.Base.Text.{Text}
use beam_init.Client.{Result, ok, err, send_signal, notify_pty_attached, notify_pty_detached}
use beam_init.Ctl.Run.{Client}

-- The result of `std::io::copy`: both ends are non-blocking.
pub data Copied : Type 0 where
  copied : Copied
  failed : (raw_os_error : Option ℕ) (would_block : Bool) → Copied

abbrev eio : ℕ
eio = 5

unfoldable pub is_eio : Option ℕ → Bool
is_eio none = false
is_eio (some code) = code == eio

-- `terminated`; `none` is the error.
unfoldable pub terminated : Copied → Option Bool
unfolding is_eio
terminated copied = some true
terminated (failed code would_block) =
    if is_eio code then some true else if would_block then some false else none

abbrev pub sigint : ℕ
sigint = 2

abbrev pub sigquit : ℕ
sigquit = 3

abbrev pub sigtstp : ℕ
sigtstp = 20

abbrev pub sigwinch : ℕ
sigwinch = 28

-- An event of the poller: `signal_arrived none` is a signal descriptor that cannot be read.
pub data Event : Type 0 where
  from_pty from_controller : Copied → Event
  signal_arrived : (signal : Option ℕ) → Event
  other_token : Event

-- A round of the loop: whether `tty.sync` and `poller.poll` succeed, and the events.
pub record Round : Type 0 where
  pub synced : Bool
  pub polled : Bool
  pub events : List Event

-- `going_on` is the loop, `returned` what `manage` returns: whether it is `Ok`.
pub data Managed {ℓ} (S : Type ℓ) : Type ℓ where
  going_on panicked : S → Managed S
  returned : Bool → S → Managed S

module _ {ℓ} {S : Type ℓ} where
  abbrev pub and_then : Managed S → (S → Managed S) → Managed S
  and_then (going_on s) f = f s
  and_then (panicked s) f = panicked s
  and_then (returned fine s) f = returned fine s

  -- `.map_err(io::Error::other)?`.
  unfoldable pub requested : Result (Unit {0}) × S → Managed S
  requested (ok u, s) = going_on s
  requested (err e, s) = returned false s

  -- `if terminated(res)? { …; return Ok(()); }`.
  unfoldable pub unless_terminated : Option Bool → S → Managed S
  unless_terminated none s = returned false s
  unless_terminated (some true) s = returned true s
  unless_terminated (some false) s = going_on s

  unfoldable pub check : Bool → S → Managed S
  check true s = going_on s
  check false s = returned false s

module _ {ℓ} {S : Type ℓ} (client : Client S) (name : Text) where
  unfoldable pub on_signal : ℕ → S → Managed S
  unfolding requested unless_terminated terminated
  on_signal sig s =
      let forwarded = requested (client.act (send_signal name (pos sig)) s) in
      let detached = requested (client.act (notify_pty_detached name) s) in
      if sig == sigint || sig == sigquit
      then forwarded
      else if sig == sigwinch
      then going_on s
      else if sig == sigtstp
      then and_then detached (unless_terminated (terminated copied))
      else panicked s

  unfoldable pub on_event : Event → S → Managed S
  unfolding on_signal unless_terminated terminated
  on_event (from_pty r) s = unless_terminated (terminated r) s
  on_event (from_controller r) s = unless_terminated (terminated r) s
  on_event (signal_arrived none) s = returned false s
  on_event (signal_arrived (some sig)) s = on_signal sig s
  on_event other_token s = going_on s

  unfoldable pub on_events : List Event → S → Managed S
  unfolding on_event
  on_events [] s = going_on s
  on_events (e ∷ events) s = and_then (on_event e s) (on_events events)

  unfoldable pub manage_rounds : List Round → S → Managed S
  unfolding on_events check
  manage_rounds [] s = going_on s
  manage_rounds (r ∷ rounds) s = and_then (check r.synced s) (λ s1.
      and_then (check r.polled s1) (λ s2. and_then (on_events r.events s2) (manage_rounds rounds)))

  -- `prepared` is whether the terminal and the signals could be set up and a client created, `ready`
  -- whether what follows the first request succeeds.
  unfoldable pub manage : (prepared ready : Bool) → List Round → S → Managed S
  unfolding manage_rounds check requested
  manage prepared ready rounds s = and_then (check prepared s) (λ s1.
      and_then (requested (client.act (notify_pty_attached name) s1))
        (λ s2. and_then (check ready s2) (manage_rounds rounds)))
