-- ===== src/Services/Liveness.antt =====
-- `run_liveness_probe` of beam-init/src/services.rs. The task sleeps, asks the service over HTTP
-- and counts; here it is given the answers one after another, and it ends with its verdict or
-- still probes once the answers are used up.
use beam_init.Base.{
  ℕ, ◌+◌, ◌<◌, ◌≤◌, ◌≡◌, inl, inr, Bool, true, false, ◌&&◌, Option, none, some, List, [], ◌∷◌, ◌++◌,
  ◌==◌, ltb, leb, if◌then◌else◌, arith, Bool-cases,
}
use beam_init.Base.Text.{Text, codes}
use beam_init.Base.Decimal.{decimal}
use beam_init.Api.{Probe}
use beam_init.Logs.{RingBuffer, push}

pub data Verdict : Type 0 where
  probing gave_up restart_requested : Verdict

-- An answer is the status code of the response, or `none` for an error or a timeout.
unfoldable pub is_healthy : Option ℕ → Bool
is_healthy none = false
is_healthy (some code) = leb 200 code && ltb code 300

probe_failed_line : Probe → ℕ → Text
probe_failed_line probe failures =
    codes "[liveness probe failed ("
    ++ (decimal failures ++ (codes "/" ++ (decimal probe.failure_threshold ++ codes ")]")))

max_retries_line : Probe → Text
max_retries_line probe =
    codes "[liveness probe exceeded max retries (max_retries="
    ++ (decimal probe.max_retries ++ codes ")]")

-- What the task does once `failures` consecutive probes have failed: it ends, or it goes on.
unfoldable pub after_failure :
    Probe → ℕ → RingBuffer → (RingBuffer → Verdict × RingBuffer) → Verdict × RingBuffer
unfolding probe_failed_line max_retries_line
after_failure probe failures queue go_on =
    let queue' = push (probe_failed_line probe failures) queue in
    if ltb probe.max_retries failures
    then (gave_up, push (max_retries_line probe) queue')
    else if leb probe.failure_threshold failures
    then (restart_requested, push (codes "[liveness probe exhausted. requesting restart]") queue')
    else go_on queue'

-- The loop, `failures` being `consecutive_failures`.
unfoldable pub run_liveness_probe : Probe → ℕ → List (Option ℕ) → RingBuffer → Verdict × RingBuffer
unfolding is_healthy after_failure
run_liveness_probe probe failures [] queue = (probing, queue)
run_liveness_probe probe failures (answer ∷ answers) queue = elim (is_healthy answer) [
  | true ↦ run_liveness_probe probe 0 answers queue
  | false ↦
      after_failure probe (failures + 1) queue
        (λ queue'. run_liveness_probe probe (failures + 1) answers queue')
]

-- The length of the longest run of failures, where `n` failures came just before.
unfoldable pub longest_run : ℕ → List (Option ℕ) → ℕ
longest_run n [] = n
longest_run n (answer ∷ answers) = elim (is_healthy answer) [
  | true ↦ let rest = longest_run 0 answers in if ltb n rest then rest else n
  | false ↦ longest_run (n + 1) answers
]

-- How many consecutive failures a restart needs, and how many end the probing.
abbrev pub needed : Probe → ℕ
needed probe = if probe.failure_threshold == 0 then 1 else probe.failure_threshold

abbrev pub limit : Probe → ℕ
limit probe = if leb (needed probe) probe.max_retries then needed probe else probe.max_retries + 1

abbrev pub verdict_at_limit : Probe → Verdict
verdict_at_limit probe = if leb (needed probe) probe.max_retries then restart_requested else gave_up

le-longest_run : (n : ℕ) (answers : List (Option ℕ)) → n ≤ longest_run n answers
unfolding longest_run
le-longest_run n [] = omega arith
le-longest_run n (answer ∷ answers) = elim (Bool-cases (is_healthy answer)) [
  | inl e ↦ rw (longest_run, e) (ground arith)
  | inr e ↦ rw (longest_run, e) (omega (arith, le-longest_run (n + 1) answers))
]

abbrev Ends : Probe → ℕ → List (Option ℕ) → RingBuffer → Type 0
Ends probe n answers queue =
    (run_liveness_probe probe n answers queue).0
    ≡ (if ltb (longest_run n answers) (limit probe) then probing else verdict_at_limit probe)

verdict_from :
    (probe : Probe) (n : ℕ) (answers : List (Option ℕ)) (queue : RingBuffer)
    → n < limit probe
    → Ends probe n answers queue
unfolding run_liveness_probe longest_run after_failure
verdict_from probe n [] queue h = ground arith
verdict_from probe n (answer ∷ answers) queue h = elim (Bool-cases (is_healthy answer)) [
  | inl e ↦
      rw (run_liveness_probe, longest_run, e)
        (ground (arith, verdict_from probe 0 answers queue (omega arith)))
  | inr e ↦
      rw (run_liveness_probe, longest_run, e)
        (ground (
          arith,
          le-longest_run (n + 1) answers,
          verdict_from probe (n + 1) answers (push (probe_failed_line probe (n + 1)) queue),
        ))
]

-- However the service answers: the task asks for a restart, or gives up, exactly once the answers
-- hold a long enough run of consecutive failures, and probes on until then. The run is as long as
-- the failure threshold (but one at least) if that is at most `max_retries`, and then it ends in a
-- request for a restart; else it is one longer than `max_retries`, and then the task gives up
-- without a restart.
pub run_liveness_probe_lem :
    (probe : Probe) (answers : List (Option ℕ)) (queue : RingBuffer)
    → (run_liveness_probe probe 0 answers queue).0
      ≡ (if ltb (longest_run 0 answers) (limit probe) then probing else verdict_at_limit probe)
run_liveness_probe_lem probe answers queue = verdict_from probe 0 answers queue (ground arith)
