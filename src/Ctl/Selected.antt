-- ===== src/Ctl/Selected.antt =====
-- Which services a command of beam-init/src/bin/beamctl.rs with a selector acts on.
use beam_init.Base.{
  if◌then◌else◌, arith, true, some, none, refl, Bool-cases, keep, inr, inl, ◌≡◌, false, List, [],
  ◌∷◌,
}
use beam_init.Base.Text.{text_lt, Text, text_eq}
use beam_init.Base.Map.{Map}
use beam_init.Api.{ServiceStatus, Service}
use beam_init.Client.{Call, ok}
use beam_init.Ctl.Run.{Result-cases, show_error_and_exit, Client, Session, Run, done, and_then}
use beam_init.Ctl.Prefix.{IsAscending, AllAbove, IsIn, prefix_match-IsIn}
use beam_init.Base.Sorted.{IsSorted, IsAbove}
use beam_init.Base.Map
use beam_init.Ctl.Commands.{
  retain, kept_if, list_services, matched_name, act_on, show_service, has_labels, act_if,
  act_on_matching, act,
}
use beam_init.Ctl.Select.{from_iter, keys_match}

-- A server and what is asked of it.
pub record IsServer {ℓ} {S : Type ℓ} (client : Client S) (call : Text → Call)
    (labels : Text → Map Text) : Type (ℓ + 1) where
  -- A service is there.
  pub IsPresent : S → Text → Type ℓ
  pub service : Text → S → Service
  -- A service that is there is shown with its labels, and looking at it changes nothing.
  pub shows :
      (s : S) (name : Text)
      → IsPresent s name
      → client.show_service name s ≡ (ok (service name s), s)
  pub shows_labels :
      (s : S) (name : Text) → IsPresent s name → (service name s).labels ≡ labels name
  -- The action on one service leaves the other ones there.
  pub keeps :
      (s t : S) (k name : Text)
      → text_eq k name ≡ false
      → IsPresent s name
      → client.act (call k) s ≡ (ok tt, t)
      → IsPresent t name

-- Names that differ from each other.
abbrev AllOther : Text → List Text → Type 0
AllOther k [] = Unit {0}
AllOther k (name ∷ names) = (text_eq k name ≡ false) × AllOther k names

abbrev pub IsDistinct : List Text → Type 0
IsDistinct [] = Unit {0}
IsDistinct (name ∷ names) = AllOther name names × IsDistinct names

text_lt-text_eq : (s t : Text) → text_lt s t ≡ true → text_eq s t ≡ false
unfolding text_lt text_eq
text_lt-text_eq s [] h = absurd (ground (arith, h))
text_lt-text_eq [] (y ∷ t) h = refl
text_lt-text_eq (x ∷ s) (y ∷ t) h = ground (arith, text_lt-text_eq s t)

IsAbove-AllOther {ℓ} : {V : Type ℓ} (k : Text) (m : Map V) → IsAbove k m → AllOther k (Map.keys m)
unfolding Map.keys
IsAbove-AllOther k [] a = tt
IsAbove-AllOther k ((j, v) ∷ m) a = (text_lt-text_eq k j a.0, IsAbove-AllOther k m a.1)

IsSorted-IsDistinct {ℓ} : {V : Type ℓ} (m : Map V) → IsSorted m → IsDistinct (Map.keys m)
unfolding Map.keys
IsSorted-IsDistinct [] s = tt
IsSorted-IsDistinct ((k, v) ∷ m) s = (IsAbove-AllOther k m s.0, IsSorted-IsDistinct m s.1)

IsAbove-AllAbove {ℓ} : {V : Type ℓ} (k : Text) (m : Map V) → IsAbove k m → AllAbove k (Map.keys m)
unfolding Map.keys
IsAbove-AllAbove k [] a = tt
IsAbove-AllAbove k ((j, v) ∷ m) a = (a.0, IsAbove-AllAbove k m a.1)

IsSorted-IsAscending {ℓ} : {V : Type ℓ} (m : Map V) → IsSorted m → IsAscending (Map.keys m)
unfolding Map.keys
IsSorted-IsAscending [] s = tt
IsSorted-IsAscending ((k, v) ∷ m) s = (IsAbove-AllAbove k m s.0, IsSorted-IsAscending m s.1)

-- The calls for all the names, in their order, up to the first that fails.
unfoldable pub act_on_all {ℓ} :
    {S : Type ℓ} → Client S → (Text → Call) → List Text → Session S → Run S (Unit {0})
act_on_all client call [] s = done tt s
act_on_all client call (name ∷ names) s =
    and_then (act client (call name) s) (λ u. act_on_all client call names)

module _ {ℓ} {S : Type ℓ} (client : Client S) (call : Text → Call) (labels : Text → Map Text)
    (h : IsServer client call labels) where
  abbrev AllPresent : S → List Text → Type ℓ
  AllPresent s [] = Unit {ℓ}
  AllPresent s (name ∷ names) = h.IsPresent s name × AllPresent s names

  AllPresent-keeps :
      (s t : S) (k : Text) (names : List Text)
      → AllOther k names
      → AllPresent s names
      → client.act (call k) s ≡ (ok tt, t)
      → AllPresent t names
  AllPresent-keeps s t k [] o p e = tt
  AllPresent-keeps s t k (name ∷ names) o p e =
      (h.keeps s t k name o.0 p.0 e, AllPresent-keeps s t k names o.1 p.1 e)

  act_on_matching-act_on_all :
      (selector : Map Text) (names : List Text) (s : Session S)
      → IsDistinct names
      → AllPresent s.server names
      → act_on_matching client selector call names s
        ≡ act_on_all client call (keep (λ n. keys_match selector (labels n)) names) s
  unfolding act_on_matching act_on_all act_if act has_labels show_service show_error_and_exit
  act_on_matching-act_on_all selector [] s d p = refl
  act_on_matching-act_on_all selector (name ∷ names) s d p =
      rw (h.shows s.server name p.0, h.shows_labels s.server name p.0)
        (elim (Bool-cases (keys_match selector (labels name))) [
          | inl e ↦ rw e (elim (Result-cases (client.act (call name) s.server)) [
            | inl (e', t, f) ↦ rw f refl
            | inr (t, f) ↦ rw f (
                act_on_matching-act_on_all selector names (record s { server = t }) d.1
                  (AllPresent-keeps s.server t name names d.0 p.1 f))
          ])
          | inr e ↦ rw e (act_on_matching-act_on_all selector names s d.1 p.1)
        ])

  -- With a selector a command acts on exactly the listed services whose labels match it, each once
  -- and in the order of their names, up to the first request that fails, although it looks at each
  -- service only after it acted on those before. This is for a server that lists the services with
  -- their names in order, shows those that are there, and keeps a service while it acts on others.
  pub act_on-act_on_all :
      (label : Text × Text) (more : List (Text × Text)) (services : Map ServiceStatus)
      (s : Session S)
      → client.list_services s.server ≡ (ok services, s.server)
      → IsSorted services
      → AllPresent s.server (Map.keys services)
      → act_on client none (label ∷ more) call s
        ≡ act_on_all client call
            (keep (λ n. keys_match (from_iter (label ∷ more)) (labels n)) (Map.keys services))
            s
  unfolding act_on list_services show_error_and_exit
  act_on-act_on_all label more services s e o p = rw e (
      act_on_matching-act_on_all (from_iter (label ∷ more)) (Map.keys services) s
        (IsSorted-IsDistinct services o) p)

-- The services whose labels match.
abbrev pub matching : (Text → Map Text) → Map Text → Map ServiceStatus → Map ServiceStatus
matching labels selector [] = []
matching labels selector ((name, status) ∷ services) =
    let rest = matching labels selector services in
    if keys_match selector (labels name) then (name, status) ∷ rest else rest

module _ {ℓ} {S : Type ℓ} (client : Client S) (call : Text → Call) (labels : Text → Map Text)
    (h : IsServer client call labels) where
  -- A list with a selector has exactly the listed services whose labels match it, in the same order
  -- and with the statuses that were listed, and leaves the server and the output as they were. This is
  -- for a server that shows the services that it listed and is not changed by that.
  pub retain-matching :
      (selector : Map Text) (services : Map ServiceStatus) (s : Session S)
      → AllPresent client call labels h s.server (Map.keys services)
      → retain client selector services s ≡ done (matching labels selector services) s
  unfolding retain has_labels show_service show_error_and_exit kept_if Map.keys
  retain-matching selector [] s p = refl
  retain-matching selector ((name, status) ∷ services) s p =
      rw
        (
          h.shows s.server name p.0,
          h.shows_labels s.server name p.0,
          retain-matching selector services s p.1,
        )
        (elim (Bool-cases (keys_match selector (labels name))) [
          | inl e ↦ rw e refl
          | inr e ↦ rw e refl
        ])

-- With the full name of a listed service a command acts on that service, also if its name is a
-- prefix of others. This is for a server that lists the services with their names in order.
pub act_on-IsIn {ℓ} :
    {S : Type ℓ} (client : Client S) (call : Text → Call) (name : Text)
    (services : Map ServiceStatus) (s : Session S)
    → client.list_services s.server ≡ (ok services, s.server)
    → IsSorted services
    → IsIn name (Map.keys services)
    → act_on client (some name) [] call s ≡ act client (call name) s
unfolding act_on list_services show_error_and_exit matched_name
act_on-IsIn client call name services s e o i =
    rw (e, prefix_match-IsIn (Map.keys services) name (IsSorted-IsAscending services o) i) refl
