-- ===== src/Services/Spawn/Calls.antt =====
-- The calls of a child of `spawn_service` (Services/Spawn/Child), made one after the other.
use beam_init.Base.{
  ◌≢◌, Option-cases, ℕ, none, some, List, [], ◌∷◌, ◌≡◌, refl, sym, ap, ◌∙◌, ◌⊎◌, inl, inr,
}
use beam_init.Services.Spawn.Child.{
  expected, reported, ◌>=◌, perform, going, executed, died, Child, Sys, Call,
}

-- `calls` made after `before`, the newest first.
unfoldable pub after : (calls before : List Call) → List Call
after [] before = before
after (call ∷ calls) before = after calls (call ∷ before)

-- None of `calls` fails when they are made in order after `before`.
unfoldable pub NoneFails : Sys → (calls before : List Call) → Type 0
NoneFails sys [] before = Unit {0}
NoneFails sys (call ∷ calls) before =
    (sys.error before call ≡ none) × NoneFails sys calls (call ∷ before)

some≢none : {n : ℕ} → some n ≢ none
some≢none h = cc

module _ (sys : Sys) where
  unfoldable pub run : Child → List Call → Child
  unfolding perform
  run c [] = c
  run c (call ∷ calls) = run (c >= perform sys call) calls

  run-died : (calls : List Call) (before : List Call) → run (died before) calls ≡ died before
  unfolding run
  run-died [] before = refl
  run-died (call ∷ calls) before = run-died calls before

  run-executed :
      (calls : List Call) (before : List Call) → run (executed before) calls ≡ executed before
  unfolding run
  run-executed [] before = refl
  run-executed (call ∷ calls) before = run-executed calls before

  run-reported :
      (calls : List Call) (errno : ℕ) (before : List Call)
      → run (reported errno before) calls ≡ reported errno before
  unfolding run
  run-reported [] errno before = refl
  run-reported (call ∷ calls) errno before = run-reported calls errno before

  -- A part of the program that performs `calls` performs them after any other part.
  pub run_bind :
      (f : List Call → Child) (calls : List Call)
      → ((before : List Call) → f before ≡ run (going before) calls)
      → (c : Child) → (c >= f) ≡ run c calls
  run_bind f calls same (going before) = same before
  run_bind f calls same (died before) = sym (run-died calls before)
  run_bind f calls same (executed before) = sym (run-executed calls before)
  run_bind f calls same (reported errno before) = sym (run-reported calls errno before)

  pub perform-none :
      (call : Call) (before : List Call)
      → sys.error before call ≡ none
      → perform sys call before ≡ going (call ∷ before)
  unfolding perform
  perform-none call before ok = ap (λ e. expected sys e call before) ok

  pub perform-some :
      (call : Call) (before : List Call) (errno : ℕ)
      → sys.error before call ≡ some errno
      → perform sys call before ≡ died before
  unfolding perform
  perform-some call before errno fails = ap (λ e. expected sys e call before) fails

  -- Calls either all succeed, or the child ended.
  pub run_cases :
      (calls before : List Call)
      → (NoneFails sys calls before × (run (going before) calls ≡ going (after calls before)))
        ⊎ (¬ NoneFails sys calls before
            × ((made : List Call) × (run (going before) calls ≡ died made)))
  unfolding NoneFails run after
  run_cases [] before = inl (tt, refl)
  run_cases (call ∷ calls) before = elim (Option-cases (sys.error before call)) [
    | inl ok ↦ elim (run_cases calls (call ∷ before)) [
      | inl (rest, e) ↦ inl ((ok, rest), ap (λ c. run c calls) (perform-none call before ok) ∙ e)
      | inr (fails, (made, e)) ↦
          inr (λ p. fails p.1, (made, ap (λ c. run c calls) (perform-none call before ok) ∙ e))
    ]
    | inr (errno, fails) ↦ inr (
      λ p. some≢none (sym fails ∙ p.0),
      (
        before,
        ap (λ c. run c calls) (perform-some call before errno fails) ∙ run-died calls before,
      ),
    )
  ]

  pub run_bind_then :
      (k f : List Call → Child) (calls : List Call)
      → ((before : List Call) → f before ≡ (run (going before) calls >= k))
      → (c : Child) → (c >= f) ≡ (run c calls >= k)
  run_bind_then k f calls same (going before) = same before
  run_bind_then k f calls same (died before) = ap (λ c. c >= k) (sym (run-died calls before))
  run_bind_then k f calls same (executed before) =
      ap (λ c. c >= k) (sym (run-executed calls before))
  run_bind_then k f calls same (reported errno before) =
      ap (λ c. c >= k) (sym (run-reported calls errno before))
