-- ===== src/Server/Completion.antt =====
-- How the event loop of beam-init/src/main.rs ends a shutdown.
use beam_init.Base.{◌≡◌, ◌↔◌, ◌⊎◌, refl, inl, inr, true, Bool-cases}
use beam_init.Services.Types.{ServiceManager}
use beam_init.Services.Reap.{shutdown_complete}
use beam_init.Services.Invariant.{IsValid}
use beam_init.Services.Invariant.Completion.{NoneStopping, shutdown_complete_iff}
use beam_init.Server.Command.{Host}
use beam_init.Server.Loop.{Event, Next, break, continue, handle_event, after_event, round}
use beam_init.Server.Events.{IsReliable, handle_event-IsHandled}

abbrev HasEnded : Next → ServiceManager → Type 0
HasEnded next m = ((next ≡ break) ↔ NoneStopping m) × ((next ≡ break) ⊎ (next ≡ continue))

after_event-HasEnded :
    (m : ServiceManager) → IsValid m → m.shutdown ≡ true → HasEnded (after_event m) m
unfolding after_event
after_event-HasEnded m v down =
    let complete = shutdown_complete_iff m v down in
    elim (Bool-cases (shutdown_complete m)) [
      | inl e ↦ rw e ((λ h. complete.0 e, λ h. refl), inl refl)
      | inr e ↦ rw (e, down) ((λ h. absurd cc, λ h. absurd (cc (complete.1 h))), inr refl)
    ]

-- In a round of the loop after which a shutdown is under way, if the system is reliable and the
-- manager in order: the program ends exactly if no service is being stopped any more, and otherwise
-- the loop goes on.
pub round-break_iff :
    (host : Host) (event : Event) (m : ServiceManager)
    → IsReliable host.os
    → IsValid m
    → (round host event m).1.shutdown ≡ true
    → (((round host event m).0 ≡ break) ↔ NoneStopping (round host event m).1)
      × (((round host event m).0 ≡ break) ⊎ ((round host event m).0 ≡ continue))
unfolding round
round-break_iff host event m r v down =
    let i = handle_event-IsHandled host event m r v in
    rw i.panicked (after_event-HasEnded (handle_event host event m).2 i.valid down)
