-- ===== src/Services/Spawn/Privileges.antt =====
-- How the child of `spawn_service` (Services/Spawn/Child) that is to execute the program ends, and
-- what the parent reads of it.
use beam_init.Base.{
  ◌↔◌, Option, subst, Option-cases, ℕ, none, some, List, [], ◌∷◌, ◌≡◌, sym, ap, ◌∙◌, inl, inr,
}
use beam_init.Base.Text.{Text}
use beam_init.Services.Spawn.{Report}
use beam_init.Services.Types.{Credentials}
use beam_init.Services.Spawn.Child.{
  report, write_errno, reported_failure, execvp, after_exec, children, exec, reported, ◌>=◌,
  perform, going, executed, died, Sink, Child, Sys, Call,
}
use beam_init.Services.Spawn.Calls.{after, NoneFails, run_cases, perform-none, perform-some}
use beam_init.Services.Spawn.Preparation.{preparation, children-run}

module _ (sys : Sys) (argv envp : List Text) (credentials : Credentials) where
  -- The calls made up to the execution, the newest first.
  prepared : Sink → List Call
  prepared sink = after (preparation sys sink credentials) []

  Ready : Sink → Type 0
  Ready sink = NoneFails sys (preparation sys sink credentials) []

  exec-none :
      (made : List Call)
      → sys.error made (execvp argv envp) ≡ none
      → exec sys argv envp made ≡ executed (execvp argv envp ∷ made)
  unfolding exec after_exec
  exec-none made ok = ap (λ e. after_exec sys e (execvp argv envp) made) ok

  exec-some :
      (made : List Call) (errno : ℕ)
      → sys.error made (execvp argv envp) ≡ some errno
      → exec sys argv envp made ≡ reported_failure sys errno (perform sys (write_errno errno) made)
  unfolding exec after_exec
  exec-some made errno fails = ap (λ e. after_exec sys e (execvp argv envp) made) fails

  -- The ways in which the child ends.
  data Outcome (sink : Sink) : Child → Type 0 where
    executes :
        Ready sink
        → sys.error (prepared sink) (execvp argv envp) ≡ none
        → Outcome sink (executed (execvp argv envp ∷ prepared sink))
    reports :
        (errno : ℕ)
        → Ready sink
        → sys.error (prepared sink) (execvp argv envp) ≡ some errno
        → sys.error (prepared sink) (write_errno errno) ≡ none
        → Outcome sink (reported errno (write_errno errno ∷ prepared sink))
    dies : (made : List Call) → Outcome sink (died made)

  exec-outcome : (sink : Sink) → Ready sink → Outcome sink (exec sys argv envp (prepared sink))
  unfolding reported_failure
  exec-outcome sink ready = elim (Option-cases (sys.error (prepared sink) (execvp argv envp))) [
    | inl ok ↦ subst (Outcome sink) (sym (exec-none (prepared sink) ok)) (executes ready ok)
    | inr (errno, fails) ↦
        subst (Outcome sink) (sym (exec-some (prepared sink) errno fails))
          (elim (Option-cases (sys.error (prepared sink) (write_errno errno))) [
            | inl wrote ↦
                rw (perform-none sys (write_errno errno) (prepared sink) wrote)
                  (reports errno ready fails wrote)
            | inr (e, lost) ↦
                rw (perform-some sys (write_errno errno) (prepared sink) e lost)
                  (dies (prepared sink))
          ])
  ]

  outcome : (sink : Sink) → Outcome sink (children sys sink argv envp credentials).0
  unfolding Ready prepared
  outcome sink =
      subst (Outcome sink) (sym (children-run sys argv envp credentials sink))
        (elim (run_cases sys (preparation sys sink credentials) []) [
          | inl (ready, e) ↦
              subst (λ c. Outcome sink (c >= exec sys argv envp)) (sym e) (exec-outcome sink ready)
          | inr (fails, (made, e)) ↦
              subst (λ c. Outcome sink (c >= exec sys argv envp)) (sym e) (dies made)
        ])

  Ready-child :
      (sink : Sink)
      → Ready sink
      → (children sys sink argv envp credentials).0 ≡ exec sys argv envp (prepared sink)
  unfolding Ready prepared
  Ready-child sink ready =
      children-run sys argv envp credentials sink
      ∙ elim (run_cases sys (preparation sys sink credentials) []) [
        | inl (_, e) ↦ ap (λ c. c >= exec sys argv envp) e
        | inr (fails, _) ↦ absurd (fails ready)
      ]

  executed_only :
      (sink : Sink) (calls : List Call) (c : Child)
      → Outcome sink c
      → c ≡ executed calls
      → Ready sink
        × (sys.error (prepared sink) (execvp argv envp) ≡ none)
        × (calls ≡ (execvp argv envp ∷ prepared sink))
  executed_only sink calls c (executes ready ok) e = (ready, ok, cc)
  executed_only sink calls c (reports errno ready fails wrote) e = absurd cc
  executed_only sink calls c (dies made) e = absurd cc

  reported_only :
      (sink : Sink) (errno : ℕ) (c : Child) (pid : Option ℕ)
      → Outcome sink c
      → report (c, pid) ≡ some (Report.exec_failed errno)
      → Ready sink
        × (sys.error (prepared sink) (execvp argv envp) ≡ some errno)
        × (sys.error (prepared sink) (write_errno errno) ≡ none)
  unfolding report
  reported_only sink errno c none (executes ready ok) e = absurd cc
  reported_only sink errno c (some pid) (executes ready ok) e = absurd cc
  reported_only sink errno c pid (reports n ready fails wrote) e = (ready, cc, cc)
  reported_only sink errno c none (dies made) e = absurd cc
  reported_only sink errno c (some pid) (dies made) e = absurd cc

  reported_back :
      (sink : Sink) (errno : ℕ) (c : Child) (pid : Option ℕ)
      → c ≡ reported_failure sys errno (going (write_errno errno ∷ prepared sink))
      → report (c, pid) ≡ some (Report.exec_failed errno)
  unfolding report reported_failure
  reported_back sink errno c pid e = ap (λ c. report (c, pid)) e

  -- The child executes the program if and only if none of the calls of `preparation`, made in
  -- that order, and then the execution fails. Then it made these calls and no others: among them
  -- the soft limit on descriptors is at most 1024, the supplementary groups are cleared and the
  -- group and user of the credentials are set, in this order.
  pub children-executed_iff :
      (sink : Sink) (calls : List Call)
      → ((children sys sink argv envp credentials).0 ≡ executed calls) ↔ (
          NoneFails sys (preparation sys sink credentials) []
          × (sys.error (after (preparation sys sink credentials) []) (execvp argv envp) ≡ none)
          × (calls ≡ (execvp argv envp ∷ after (preparation sys sink credentials) [])))
  unfolding Ready prepared
  children-executed_iff sink calls = (
    executed_only sink calls _ (outcome sink),
    λ h. Ready-child sink h.0 ∙ exec-none (prepared sink) h.1 ∙ ap executed (sym h.2),
  )

  -- What the parent reads is the error number of a failed execution if and only if none of the
  -- calls of `preparation` failed, the execution failed with that number, and it was written. So
  -- a child that ends before the execution is no error of `spawn_service`.
  pub report-children_iff :
      (sink : Sink) (errno : ℕ)
      → (report (children sys sink argv envp credentials) ≡ some (Report.exec_failed errno)) ↔ (
          NoneFails sys (preparation sys sink credentials) []
          × (sys.error (after (preparation sys sink credentials) []) (execvp argv envp)
              ≡ some errno)
          × (sys.error (after (preparation sys sink credentials) []) (write_errno errno) ≡ none))
  unfolding Ready prepared
  report-children_iff sink errno = (
    reported_only sink errno _ _ (outcome sink),
    λ h. reported_back sink errno _ _ (
        Ready-child sink h.0
        ∙ exec-some (prepared sink) errno h.1
        ∙ ap (reported_failure sys errno)
            (perform-none sys (write_errno errno) (prepared sink) h.2)),
  )
