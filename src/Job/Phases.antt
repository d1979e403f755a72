-- ===== src/Job/Phases.antt =====
-- The phases of a ScanJob: what the Is* methods, JobFinished and jobStatus say after each Mark*.
use sbombastic.Common.{ℕ, String, ◌≡◌, refl, Bool, true, false, not, ◌||◌, List, arith}
use sbombastic.Conditions.{ConditionOps, Condition, Cell, lit, write_all}
use sbombastic.Conditions.Written.{
  scheduled_written, in_progress_written, complete_written, failed_written,
}
use sbombastic.Job.{
  ScanJob, initialize_conditions, mark_scheduled, mark_in_progress, mark_complete, mark_failed,
  is_pending, is_scheduled, is_in_progress, is_complete, is_failed, job_finished, job_status,
}

-- One call of a Mark* method, with its reason and message, and the time where the method reads it.
pub data Mark : Type 0 where
  schedule : String → String → Mark
  progress complete fail : ℕ → String → String → Mark

unfoldable pub apply : ConditionOps → Mark → ScanJob → ScanJob
apply ops (Mark.schedule r m) s = mark_scheduled ops r m s
apply ops (Mark.progress t r m) s = mark_in_progress ops t r m s
apply ops (Mark.complete t r m) s = mark_complete ops t r m s
apply ops (Mark.fail t r m) s = mark_failed ops t r m s

-- jobStatus, by which of the four tests hold.
abbrev pub status_text : Bool → Bool → Bool → Bool → String
status_text _ _ _ true = "failed"
status_text _ _ true false = "complete"
status_text _ true false false = "in_progress"
status_text true false false false = "scheduled"
status_text false false false false = "pending"

abbrev pub is_schedule : Mark → Bool
is_schedule (Mark.schedule _ _) = true
is_schedule _ = false

abbrev pub is_progress : Mark → Bool
is_progress (Mark.progress _ _ _) = true
is_progress _ = false

abbrev pub is_completion : Mark → Bool
is_completion (Mark.complete _ _ _) = true
is_completion _ = false

abbrev pub is_failure : Mark → Bool
is_failure (Mark.fail _ _ _) = true
is_failure _ = false

-- What the Is* tests, JobFinished and jobStatus answer, by which of the four conditions is True.
pub record Shows (ops : ConditionOps) (s : ScanJob) (sched prog comp fail : Bool) : Type 0 where
  pub scheduled : is_scheduled ops s ≡ sched
  pub in_progress : is_in_progress ops s ≡ prog
  pub complete : is_complete ops s ≡ comp
  pub failed : is_failed ops s ≡ fail
  pub pending : is_pending ops s ≡ not (sched || (prog || (comp || fail)))
  pub finished : job_finished ops s ≡ (comp || fail)
  pub status : job_status ops s ≡ status_text sched prog comp fail

-- The later tests follow from the first four.
Shows-of_tests :
    (ops : ConditionOps) (s : ScanJob) (a b c d : Bool)
    → is_scheduled ops s ≡ a
    → is_in_progress ops s ≡ b
    → is_complete ops s ≡ c
    → is_failed ops s ≡ d
    → Shows ops s a b c d
unfolding is_pending job_finished job_status
Shows-of_tests ops s a b c d p q r t = record {
  scheduled = p;
  in_progress = q;
  complete = r;
  failed = t;
  pending = ground arith;
  finished = ground arith;
  status = ground arith;
}

module _ (ops : ConditionOps) (g : ℕ) (cs : List Condition) (a b c d : Cell) where
  -- A job whose conditions were written by the four calls shows the cells that are True.
  pub written-Shows :
      (s : ScanJob)
      → s.status.conditions ≡ write_all ops g cs a b c d
      → Shows ops s (lit a) (lit b) (lit c) (lit d)
  unfolding is_scheduled is_in_progress is_complete is_failed
  written-Shows s e =
      Shows-of_tests ops s (lit a) (lit b) (lit c) (lit d)
        (rw e (scheduled_written ops g cs a b c d)) (rw e (in_progress_written ops g cs a b c d))
        (rw e (complete_written ops g cs a b c d)) (rw e (failed_written ops g cs a b c d))

-- Whatever conditions a job carried, after a Mark* method the job is in that method's phase and in no
-- other: exactly one of the four Is* tests holds, IsPending does not, JobFinished holds exactly
-- after MarkComplete and MarkFailed, and jobStatus names the phase.
pub apply-Shows :
    (ops : ConditionOps) (m : Mark) (s : ScanJob)
    → Shows ops (apply ops m s) (is_schedule m) (is_progress m) (is_completion m) (is_failure m)
unfolding apply mark_scheduled mark_in_progress mark_complete mark_failed
apply-Shows ops (Mark.schedule r t) s = written-Shows ops _ _ _ _ _ _ _ refl
apply-Shows ops (Mark.progress n r t) s = written-Shows ops _ _ _ _ _ _ _ refl
apply-Shows ops (Mark.complete n r t) s = written-Shows ops _ _ _ _ _ _ _ refl
apply-Shows ops (Mark.fail n r t) s = written-Shows ops _ _ _ _ _ _ _ refl

-- InitializeConditions makes the job pending, whatever conditions it carried.
pub initialize_conditions-Shows :
    (ops : ConditionOps) (s : ScanJob)
    → Shows ops (initialize_conditions ops s) false false false false
unfolding initialize_conditions
initialize_conditions-Shows ops s = written-Shows ops _ _ _ _ _ _ _ refl
