-- ===== src/Ctl/Commands.antt =====
-- `attach`, `service_match`, `prefix_match` and the loops over services of beam-init/src/bin/beamctl.rs.
use beam_init.Base.{◌++◌, Bool, true, false, Option, none, some, List, [], ◌∷◌}
use beam_init.Base.Text.{Text, codes}
use beam_init.Base.Map
use beam_init.Base.Map.{Map}
use beam_init.Api.{Service, ServiceStatus, display_status, running, frozen}
use beam_init.Client.{Call}
use beam_init.Ctl.Select.{from_iter, keys_match, prefix_match, display_labels}
use beam_init.Ctl.Run.{Client, Session, Run, done, panicked, and_then, print, show_error_and_exit}

-- `args.join(" ")`.
unfoldable pub join : Text → List Text → Text
join sep [] = []
join sep (t ∷ []) = t
join sep (t ∷ u ∷ ts) = t ++ (sep ++ join sep (u ∷ ts))

unfoldable pub shown_labels : Map Text → Text
shown_labels [] = []
shown_labels (label ∷ labels) = codes " [" ++ (display_labels (label ∷ labels) ++ codes "]")

unfoldable pub display_service : Text → Service → Text
unfolding shown_labels join
display_service name s =
    name
    ++ (shown_labels s.labels
        ++ (codes " ("
            ++ (display_status s.status
                ++ (codes "): " ++ (join (codes " ") (s.cmd ∷ s.args) ++ codes "\n")))))

unfoldable pub display_entry : Text → ServiceStatus → Text
display_entry name status = name ++ (codes " (" ++ (display_status status ++ codes ")\n"))

unfoldable pub display_entries : Map ServiceStatus → Text
unfolding display_entry
display_entries [] = []
display_entries ((name, status) ∷ services) = display_entry name status ++ display_entries services

module _ {ℓ} {S : Type ℓ} (client : Client S) where
  unfoldable pub list_services : Session S → Run S (Map ServiceStatus)
  list_services s = show_error_and_exit client.status_text s (client.list_services s.server)

  unfoldable pub show_service : Text → Session S → Run S Service
  show_service name s = show_error_and_exit client.status_text s (client.show_service name s.server)

  unfoldable pub act : Call → Session S → Run S (Unit {0})
  act call s = show_error_and_exit client.status_text s (client.act call s.server)

  -- `prefix_match` with its request.
  unfoldable pub matched_name : Text → Session S → Run S Text
  unfolding list_services
  matched_name name s =
      and_then (list_services s) (λ services t. done (prefix_match (Map.keys services) name) t)

  unfoldable pub has_labels : Map Text → Text → Session S → Run S Bool
  unfolding show_service
  has_labels selector name s =
      and_then (show_service name s) (λ service t. done (keys_match selector service.labels) t)

  unfoldable pub act_if : Bool → Call → Session S → Run S (Unit {0})
  unfolding act
  act_if true call s = act call s
  act_if false call s = done tt s

  -- The end of a command that failed by itself.
  exit_after : Run S (Unit {0}) → Run S (Unit {0})
  exit_after (done u s) = Run.exited s
  exit_after (Run.exited s) = Run.exited s
  exit_after (panicked s) = panicked s

  no_pty_text : Text → ServiceStatus → Text
  no_pty_text name (running pid none) =
      codes "service " ++ (name ++ codes " does not have a pty attached\n")
  no_pty_text name (frozen pid none) =
      codes "service " ++ (name ++ codes " does not have a pty attached\n")
  no_pty_text name status =
      codes "could not attach to "
      ++ (name ++ (codes " (" ++ (display_status status ++ codes ")\n")))

  reattach_text : Text → ServiceStatus → Text
  reattach_text name (running pid pty) =
      codes "to reattach use `beamctl attach " ++ (name ++ codes "`\n")
  reattach_text name status = []

  detached_text : Text → ServiceStatus → Text
  unfolding reattach_text
  detached_text name status =
      codes "detached from "
      ++ (name
          ++ (codes " (" ++ (display_status status ++ (codes ")\n" ++ reattach_text name status))))

  unfoldable pub connect : Session S → Run S (Unit {0})
  connect s = show_error_and_exit client.status_text s (client.connect s.server)

  after_manage : Text → Session S → Option Text × S → Run S (Unit {0})
  unfolding exit_after detached_text connect show_service
  after_manage name s (none, server) =
      and_then (connect (record s { server = server })) (λ u t.
        and_then (show_service name t) (λ service. print (detached_text name service.status)))
  after_manage name s (some error, server) = exit_after (
      print (codes "pty error for service " ++ (name ++ (codes " (" ++ (error ++ codes ")\n"))))
        (record s { server = server }))

  with_pty : Text → Session S → Bool × S → Run S (Unit {0})
  unfolding no_pty_text after_manage show_service
  with_pty name s (true, server) = after_manage name s (client.manage name server)
  with_pty name s (false, server) =
      and_then (show_service name (record s { server = server }))
        (λ service. print (no_pty_text name service.status))

  unfoldable pub attach : Text → Session S → Run S (Unit {0})
  unfolding with_pty
  attach name s = with_pty name s (client.get_pty_from_store name s.server)

  unfoldable pub attach_if : Bool → Text → Session S → Run S (Unit {0})
  unfolding attach
  attach_if true name s = attach name s
  attach_if false name s = done tt s

  -- The loop over the iterator of `service_match`, which is lazy: each service is looked at right
  -- before the next one that matches is acted on.
  unfoldable pub act_on_matching :
      Map Text → (Text → Call) → List Text → Session S → Run S (Unit {0})
  unfolding has_labels act_if
  act_on_matching selector call [] s = done tt s
  act_on_matching selector call (name ∷ names) s =
      and_then (has_labels selector name s) (λ matches t.
        and_then (act_if matches (call name) t) (λ u. act_on_matching selector call names))

  -- The loop over `service_match(&client, name, selector)`, without its debug assertion.
  unfoldable pub act_on :
      Option Text → List (Text × Text) → (Text → Call) → Session S → Run S (Unit {0})
  unfolding matched_name act act_on_matching
  act_on none [] call s = panicked s
  act_on (some name) [] call s = and_then (matched_name name s) (λ found. act (call found))
  act_on name (label ∷ labels) call s =
      and_then (list_services s)
        (λ services. act_on_matching (from_iter (label ∷ labels)) call (Map.keys services))

  -- `services.retain(…)`.
  unfoldable pub kept_if : Bool → Text → ServiceStatus → Map ServiceStatus → Map ServiceStatus
  kept_if true name status services = (name, status) ∷ services
  kept_if false name status services = services

  unfoldable pub retain : Map Text → Map ServiceStatus → Session S → Run S (Map ServiceStatus)
  unfolding has_labels kept_if
  retain selector [] s = done [] s
  retain selector ((name, status) ∷ services) s =
      and_then (has_labels selector name s) (λ matches t.
        and_then (retain selector services t) (λ rest. done (kept_if matches name status rest)))

  unfoldable pub select :
      List (Text × Text) → Map ServiceStatus → Session S → Run S (Map ServiceStatus)
  unfolding retain
  select [] services s = done services s
  select (label ∷ labels) services s = retain (from_iter (label ∷ labels)) services s
