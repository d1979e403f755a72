-- ===== src/Job/History.antt =====
-- A ScanJob over any sequence of Mark* calls: its times, its counters and its identity.
use sbombastic.Common.{ℕ, ◌≡◌, true, Option, none, some, List, [], ◌∷◌, arith, is_some}
use sbombastic.Conditions.{ConditionOps}
use sbombastic.Job.{
  ScanJob, initialize_conditions, mark_scheduled, mark_in_progress, mark_complete, mark_failed,
  is_in_progress, job_finished,
}
use sbombastic.Job.Phases.{Mark, apply, apply-Shows, initialize_conditions-Shows}

-- The calls, in the order in which they were made.
unfoldable pub run : ConditionOps → List Mark → ScanJob → ScanJob
run ops [] s = s
run ops (m ∷ ms) s = run ops ms (apply ops m s)

-- The time of the first MarkInProgress, unless a start time was there before.
abbrev pub first_start : Option ℕ → List Mark → Option ℕ
first_start (some t) ms = some t
first_start none [] = none
first_start none (Mark.progress t _ _ ∷ ms) = some t
first_start none (_ ∷ ms) = first_start none ms

-- The time of the last MarkComplete or MarkFailed, or the completion time that was there before.
abbrev pub last_completion : Option ℕ → List Mark → Option ℕ
last_completion t [] = t
last_completion t (Mark.complete n _ _ ∷ ms) = last_completion (some n) ms
last_completion t (Mark.fail n _ _ ∷ ms) = last_completion (some n) ms
last_completion t (_ ∷ ms) = last_completion t ms

-- What a sequence of calls leaves of the times, and what it does not touch.
pub record Ran (s : ScanJob) (ms : List Mark) (t : ScanJob) : Type 0 where
  pub started : t.status.start_time ≡ first_start s.status.start_time ms
  pub completed : t.status.completion_time ≡ last_completion s.status.completion_time ms
  pub images : t.status.images_count ≡ s.status.images_count
  pub scanned : t.status.scanned_images_count ≡ s.status.scanned_images_count
  pub uid : t.uid ≡ s.uid
  pub spec : t.spec ≡ s.spec
  pub annotations : t.annotations ≡ s.annotations

Ran-cons :
    (ops : ConditionOps) (m : Mark) (ms : List Mark) (s t : ScanJob)
    → Ran (apply ops m s) ms t
    → Ran s (m ∷ ms) t
unfolding apply mark_scheduled mark_in_progress mark_complete mark_failed
Ran-cons ops (Mark.schedule r n) ms s t h = ground arith
Ran-cons ops (Mark.progress k r n) ms s t h = ground arith
Ran-cons ops (Mark.complete k r n) ms s t h = ground arith
Ran-cons ops (Mark.fail k r n) ms s t h = ground arith

-- The start time is written once, by the first MarkInProgress of a job that has none; the completion
-- time is that of the last MarkComplete or MarkFailed; counters, identity, spec and annotations stay.
run-Ran : (ops : ConditionOps) (ms : List Mark) (s : ScanJob) → Ran s ms (run ops ms s)
unfolding run
run-Ran ops [] s = ground arith
run-Ran ops (m ∷ ms) s =
    Ran-cons ops m ms s (run ops ms (apply ops m s)) (run-Ran ops ms (apply ops m s))

-- A finished job has a completion time, and a job in progress has a start time.
pub record IsTimed (ops : ConditionOps) (s : ScanJob) : Type 0 where
  pub finished : job_finished ops s ≡ true → is_some s.status.completion_time ≡ true
  pub in_progress : is_in_progress ops s ≡ true → is_some s.status.start_time ≡ true

apply-IsTimed :
    (ops : ConditionOps) (m : Mark) (s : ScanJob) → IsTimed ops s → IsTimed ops (apply ops m s)
unfolding apply mark_scheduled mark_in_progress mark_complete mark_failed
apply-IsTimed ops (Mark.schedule r t) s h = ground (arith, apply-Shows ops (Mark.schedule r t) s)
apply-IsTimed ops (Mark.progress n r t) s h =
    ground (arith, apply-Shows ops (Mark.progress n r t) s)
apply-IsTimed ops (Mark.complete n r t) s h =
    ground (arith, apply-Shows ops (Mark.complete n r t) s)
apply-IsTimed ops (Mark.fail n r t) s h = ground (arith, apply-Shows ops (Mark.fail n r t) s)

run-IsTimed_from :
    (ops : ConditionOps) (ms : List Mark) (s : ScanJob) → IsTimed ops s → IsTimed ops (run ops ms s)
unfolding run
run-IsTimed_from ops [] s h = h
run-IsTimed_from ops (m ∷ ms) s h =
    run-IsTimed_from ops ms (apply ops m s) (apply-IsTimed ops m s h)

-- From InitializeConditions on, after any sequence of Mark* calls, a job that JobFinished reports has
-- a completion time, and a job that is in progress has a start time.
pub run-IsTimed :
    (ops : ConditionOps) (ms : List Mark) (s : ScanJob)
    → IsTimed ops (run ops ms (initialize_conditions ops s))
run-IsTimed ops ms s =
    run-IsTimed_from ops ms (initialize_conditions ops s)
      (ground (arith, initialize_conditions-Shows ops s))
