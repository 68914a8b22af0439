-- ===== src/Ctl/Attached.antt =====
-- What `manage` of beam-init/src/bin/terminal/mod.rs asks of the server.
use beam_init.Base.{
  ℕ, ◌≡◌, refl, Bool, true, ◌||◌, not, none, some, List, [], ◌∷◌, ◌++◌, ◌==◌, inl, inr,
  if◌then◌else◌, Bool-cases,
}
use beam_init.Base.Int.{pos}
use beam_init.Base.Text.{Text}
use beam_init.Client.{Call, Result, ok, err, send_signal, notify_pty_attached, notify_pty_detached}
use beam_init.Ctl.Run.{Result-cases, Client}
use beam_init.Ctl.Terminal.{
  Copied, copied, failed, is_eio, terminated, Event, from_pty, from_controller, signal_arrived,
  other_token, Round, Managed, going_on, panicked, returned, and_then, requested, unless_terminated,
  check, on_signal, on_event, on_events, manage_rounds, manage, sigint, sigquit, sigwinch, sigtstp,
}

-- The state of the server at the end.
unfoldable pub server_of {ℓ} : {S : Type ℓ} → Managed S → S
server_of (going_on s) = s
server_of (panicked s) = s
server_of (returned fine s) = s

-- The requests for these events: signals are passed on until a terminal closes, fails, or is left.
unfoldable pub stops : Copied → Bool
unfolding is_eio
stops copied = true
stops (failed code would_block) = is_eio code || not would_block

module _ (name : Text) where
  unfoldable pub calls : List Event → List Call
  unfolding stops is_eio
  calls [] = []
  calls (from_pty r ∷ events) = let rest = calls events in if stops r then [] else rest
  calls (from_controller r ∷ events) = let rest = calls events in if stops r then [] else rest
  calls (signal_arrived none ∷ events) = []
  calls (signal_arrived (some sig) ∷ events) =
      let rest = calls events in
      if sig == sigint || sig == sigquit
      then send_signal name (pos sig) ∷ rest
      else if sig == sigwinch
      then rest
      else if sig == sigtstp
      then notify_pty_detached name ∷ []
      else []
  calls (other_token ∷ events) = calls events

abbrev pub AllReady : List Round → Type 0
AllReady [] = Unit {0}
AllReady (r ∷ rounds) = (r.synced ≡ true) × (r.polled ≡ true) × AllReady rounds

abbrev pub all_events : List Round → List Event
all_events [] = []
all_events (r ∷ rounds) = r.events ++ all_events rounds

module _ {ℓ} {S : Type ℓ} (client : Client S) (name : Text) where
  -- The state after the requests, up to the first that fails.
  requests_from : Result (Unit {0}) × S → (S → S) → S
  requests_from (err e, s) more = s
  requests_from (ok u, s) more = more s

  unfoldable pub requests : List Call → S → S
  unfolding requests_from
  requests [] s = s
  requests (c ∷ cs) s = requests_from (client.act c s) (requests cs)

  module _ (k : S → Managed S) (later : List Event)
      (h : (s : S) → server_of (k s) ≡ requests (calls name later) s) where
    after_copy :
        (r : Copied) (events : List Event) (s : S)
        → ((s : S)
            → server_of (and_then (on_events client name events s) k)
              ≡ requests (calls name (events ++ later)) s)
        → server_of (
            and_then
              (and_then (unless_terminated (terminated r) s) (on_events client name events))
              k)
          ≡ requests (if stops r then [] else calls name (events ++ later)) s
    unfolding terminated unless_terminated stops requests server_of
    after_copy copied events s i = refl
    after_copy (failed code would_block) events s i = elim (Bool-cases (is_eio code)) [
      | inl e ↦ rw e refl
      | inr e ↦ elim (Bool-cases would_block) [ inl b ↦ rw (e, b) (i s) | inr b ↦ rw (e, b) refl ]
    ]

    after_signal :
        (sig : ℕ) (events : List Event) (s : S)
        → ((s : S)
            → server_of (and_then (on_events client name events s) k)
              ≡ requests (calls name (events ++ later)) s)
        → server_of
            (and_then (and_then (on_signal client name sig s) (on_events client name events)) k)
          ≡ requests (calls name (signal_arrived (some sig) ∷ events ++ later)) s
    unfolding on_signal requested terminated unless_terminated requests server_of calls
    after_signal sig events s i = elim (Bool-cases (sig == sigint || sig == sigquit)) [
      | inl e ↦ elim (Result-cases (client.act (send_signal name (pos sig)) s)) [
        | inl (x, t, f) ↦ rw (e, f) refl
        | inr (t, f) ↦ rw (e, f) (i t)
      ]
      | inr e ↦ elim (Bool-cases (sig == sigwinch)) [
        | inl w ↦ rw (e, w) (i s)
        | inr w ↦ elim (Bool-cases (sig == sigtstp)) [
          | inr d ↦ rw (e, w, d) refl
          | inl d ↦ elim (Result-cases (client.act (notify_pty_detached name) s)) [
            | inl (x, t, f) ↦ rw (e, w, d, f) refl
            | inr (t, f) ↦ rw (e, w, d, f) refl
          ]
        ]
      ]
    ]

    on_events-calls :
        (events : List Event) (s : S)
        → server_of (and_then (on_events client name events s) k)
          ≡ requests (calls name (events ++ later)) s
    unfolding on_events on_event calls server_of requests
    on_events-calls [] s = h s
    on_events-calls (from_pty r ∷ events) s = after_copy r events s (on_events-calls events)
    on_events-calls (from_controller r ∷ events) s = after_copy r events s (on_events-calls events)
    on_events-calls (signal_arrived none ∷ events) s = refl
    on_events-calls (signal_arrived (some sig) ∷ events) s =
        after_signal sig events s (on_events-calls events)
    on_events-calls (other_token ∷ events) s = on_events-calls events s

  manage_rounds-calls :
      (rounds : List Round) (s : S)
      → AllReady rounds
      → server_of (manage_rounds client name rounds s) ≡ requests (calls name (all_events rounds)) s
  unfolding manage_rounds check calls requests server_of
  manage_rounds-calls [] s a = refl
  manage_rounds-calls (r ∷ rounds) s a =
      rw (a.0, a.1)
        (on_events-calls (manage_rounds client name rounds) (all_events rounds)
          (λ t. manage_rounds-calls rounds t a.2) r.events s)

  -- While the system does what it is asked for, the server is sent exactly these requests, up to the
  -- first that fails: that the terminal is attached; each interrupt and quit signal that arrives, in
  -- order, until one of the terminals closes or fails or the user suspends; and in the last case, and
  -- in no other, that the terminal is detached.
  pub manage-calls :
      (rounds : List Round) (s : S)
      → AllReady rounds
      → server_of (manage client name true true rounds s)
        ≡ requests (notify_pty_attached name ∷ calls name (all_events rounds)) s
  unfolding manage check requested requests server_of
  manage-calls rounds s a = elim (Result-cases (client.act (notify_pty_attached name) s)) [
    | inl (x, t, f) ↦ rw f refl
    | inr (t, f) ↦ rw f (manage_rounds-calls rounds t a)
  ]
