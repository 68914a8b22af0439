-- ===== src/Services/Invariant/Others.antt =====
-- What reaping children (`handle_signal` of beam-init/src/services.rs) leaves of a service whose own
-- main process is not among them.
use beam_init.Base.{
  ℕ, ◌≡◌, ◌≢◌, ◌∙◌, refl, sym, subst, inl, inr, Bool, false, Option, none, some, List, [], ◌∷◌,
  ◌==◌, if◌then◌else◌, Bool-cases, arith,
}
use beam_init.Base.Text.{Text, text_eq, text_eq→eq}
use beam_init.Base.Map
use beam_init.Base.Map.{Map}
use beam_init.Base.Sorted.{HasEntry, here, there, get-entry}
use beam_init.Api.{ExitStatus}
use beam_init.Services.Types.{
  ServiceStatus, running, frozen, stopping, stopped, exited, error, dummy, Service, ServiceManager,
}
use beam_init.Services.Outcome.{ok, err, panic}
use beam_init.Services.Spawn.{Os}
use beam_init.Services.Manager.{Step}
use beam_init.Services.Reap.{reap, reap_in, reap_service, reap_all, and_then}
use beam_init.Services.Invariant.{IsGoodAs, IsValid, IsSafe}
use beam_init.Services.Invariant.Start.{HasLogPipes}
use beam_init.Services.Invariant.Reap.{reap_exited-IsSafe, reap_stopping-IsSafe}

-- The process of a service, if it has one.
abbrev pub pid_of : ServiceStatus → Option ℕ
pid_of (running process pty) = some process.main_pid
pid_of (frozen process pty) = some process.main_pid
pid_of (stopping process after_stop pending) = some process.main_pid
pid_of _ = none

pub reap_service-other :
    (os : Os) (pid : ℕ) (status : ExitStatus) (m : ServiceManager) (k : Text) (t : Service)
    (st : ServiceStatus) (next : Step (Unit {0}))
    → pid_of st ≢ some pid
    → reap_service os pid status k m t st next ≡ next
unfolding reap_service
reap_service-other os pid status m k t (running process pty) next h = ground (arith, h)
reap_service-other os pid status m k t (frozen process pty) next h = ground (arith, h)
reap_service-other os pid status m k t (stopping process after_stop pending) next h =
    ground (arith, h)
reap_service-other os pid status m k t stopped next h = refl
reap_service-other os pid status m k t (exited e) next h = refl
reap_service-other os pid status m k t (error e) next h = refl
reap_service-other os pid status m k t dummy next h = refl

-- The service `name` is as it was, in a manager that is still in order.
pub record Leaves (name : Text) (m : ServiceManager) (r : Step (Unit {0})) : Type 0 where
  pub returns : r.0 ≢ panic
  pub flag : r.1.shutdown ≡ m.shutdown
  pub kept : Map.get name r.1.services ≡ Map.get name m.services
  pub valid : IsValid r.1

IsSafe-Leaves :
    (k name : Text) {m : ServiceManager} {r : Step (Unit {0})}
    → text_eq k name ≡ false
    → IsSafe k m r
    → Leaves name m r
IsSafe-Leaves k name d i = record {
  returns = i.returns;
  flag = i.flag;
  kept = i.frame name d;
  valid = i.valid;
}

Leaves-if :
    {name : Text} {m : ServiceManager} (b : Bool) {r r' : Step (Unit {0})}
    → Leaves name m r
    → Leaves name m r'
    → Leaves name m (if b then r else r')
Leaves-if b i j = elim (Bool-cases b) [ inl e ↦ rw e i | inr e ↦ rw e j ]

module _ (os : Os) (pid : ℕ) (status : ExitStatus) (name : Text) (m : ServiceManager)
    (pipes : HasLogPipes os) (v : IsValid m) where
  reap_service-Leaves :
      (k : Text) (s : Service) (before : ServiceStatus) (next : Step (Unit {0}))
      → text_eq k name ≡ false
      → IsGoodAs m.shutdown k s before
      → Leaves name m next
      → Leaves name m (reap_service os pid status k m s before next)
  unfolding reap_service
  reap_service-Leaves k s (running process pty) next d g l =
      Leaves-if (process.main_pid == pid)
        (IsSafe-Leaves k name d (reap_exited-IsSafe k m s status (running process pty) v g)) l
  reap_service-Leaves k s (frozen process pty) next d g l =
      Leaves-if (process.main_pid == pid)
        (IsSafe-Leaves k name d (reap_exited-IsSafe k m s status (frozen process pty) v g)) l
  reap_service-Leaves k s (stopping process after_stop pending) next d g l =
      Leaves-if (process.main_pid == pid)
        (IsSafe-Leaves k name d
          (reap_stopping-IsSafe os k m s process after_stop pending pipes v g))
        l
  reap_service-Leaves k s before next d g l = l

  reap_in-Leaves :
      (s : Service) (rest : Map Service)
      → Map.get name m.services ≡ some s
      → pid_of s.state.status ≢ some pid
      → ((k : Text) (t : Service) → HasEntry k t rest → Map.get k m.services ≡ some t)
      → Leaves name m (reap_in os pid status m rest)
  unfolding reap_in
  reap_in-Leaves s [] found other each = record {
    returns = λ e. cc;
    flag = refl;
    kept = refl;
    valid = v;
  }
  reap_in-Leaves s ((k, t) ∷ rest) found other each =
      let l = reap_in-Leaves s rest found other (λ j u e. each j u (there e)) in
      elim (Bool-cases (text_eq k name)) [
        | inl q ↦
            let found' : Map.get name m.services ≡ some t =
              subst (λ j. Map.get j m.services ≡ some t) (text_eq→eq k name q) (each k t here) in
            let same : s ≡ t = (cc (found, found')) in
            subst (Leaves name m)
              (sym (
                reap_service-other os pid status m k t t.state.status _
                  (subst (λ (u : Service). pid_of u.state.status ≢ some pid) same other)))
              l
        | inr q ↦ reap_service-Leaves k t t.state.status _ q (v.each k t (each k t here)) l
      ]

  pub reap-Leaves :
      (s : Service)
      → Map.get name m.services ≡ some s
      → pid_of s.state.status ≢ some pid
      → Leaves name m (reap os pid status m)
  unfolding reap
  reap-Leaves s found other =
      reap_in-Leaves s m.services found other (λ k t e. get-entry e v.sorted)

-- None of the children is the process.
abbrev pub NoneIs : Option ℕ → List (ℕ × ExitStatus) → Type 0
NoneIs p [] = Unit {0}
NoneIs p ((pid, status) ∷ children) = (p ≢ some pid) × NoneIs p children

then-Leaves :
    {name : Text} {m : ServiceManager} (r : Step (Unit {0})) (f : ServiceManager → Step (Unit {0}))
    → Leaves name m r
    → (Leaves name m (ok tt, r.1) → Leaves name r.1 (f r.1))
    → Leaves name m (and_then r f)
then-Leaves (ok u, n) f i k =
    let j = k i in
    record { returns = j.returns; flag = j.flag ∙ i.flag; kept = j.kept ∙ i.kept; valid = j.valid }
then-Leaves (err e, n) f i k =
    let j = k (record { returns = λ x. cc; flag = i.flag; kept = i.kept; valid = i.valid }) in
    record { returns = j.returns; flag = j.flag ∙ i.flag; kept = j.kept ∙ i.kept; valid = j.valid }
then-Leaves (panic, n) f i k = absurd (i.returns refl)

pub reap_all-Leaves :
    (os : Os) (name : Text) (children : List (ℕ × ExitStatus)) (m : ServiceManager) (s : Service)
    → HasLogPipes os
    → IsValid m
    → Map.get name m.services ≡ some s
    → NoneIs (pid_of s.state.status) children
    → Leaves name m (reap_all os children m)
unfolding reap_all
reap_all-Leaves os name [] m s pipes v found none_is = record {
  returns = λ e. cc;
  flag = refl;
  kept = refl;
  valid = v;
}
reap_all-Leaves os name ((pid, status) ∷ children) m s pipes v found none_is =
    then-Leaves (reap os pid status m) (reap_all os children)
      (reap-Leaves os pid status name m pipes v s found none_is.0)
      (λ l.
        reap_all-Leaves os name children (reap os pid status m).1 s pipes l.valid (l.kept ∙ found)
          none_is.1)
