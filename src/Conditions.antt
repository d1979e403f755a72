-- ===== src/Conditions.antt =====
-- The status conditions that ScanJobs and NodeScanJobs carry, and the four writes that each Mark*
-- method of api/v1alpha1/scanjob_types.go and nodescanjob_types.go makes in the same order.
-- meta.SetStatusCondition and meta.FindStatusCondition belong to k8s.io/apimachinery: they are the
-- fields of `ConditionOps`. LastTransitionTime, which only that library writes and which nothing
-- here reads, is left out of `Condition`.
pub mod Written
use sbombastic.Common.{
  ℕ, String, ◌≡◌, Bool, true, false, Option, none, some, List, [], ◌==◌, if◌then◌else◌,
}

pub data ConditionStatus : Type 0 where
  condition_true condition_false condition_unknown : ConditionStatus

pub record Condition : Type 0 where
  pub type : String
  pub status : ConditionStatus
  pub reason : String
  pub message : String
  pub observed_generation : ℕ

-- The library's two functions, and what its documentation says of them: a set condition is found
-- with the fields that it was set with, and the other types are left alone.
pub record ConditionOps : Type 0 where
  pub set_status_condition : List Condition → Condition → List Condition
  pub find_status_condition : List Condition → String → Option Condition
  pub find-nil : (t : String) → find_status_condition [] t ≡ none
  pub find-set :
      (cs : List Condition) (c : Condition) (t : String)
      → find_status_condition (set_status_condition cs c) t
        ≡ (if c.type == t then some c else find_status_condition cs t)

abbrev pub condition_type_scheduled : String
condition_type_scheduled = "Scheduled"

abbrev pub condition_type_in_progress : String
condition_type_in_progress = "InProgress"

abbrev pub condition_type_complete : String
condition_type_complete = "Complete"

abbrev pub condition_type_failed : String
condition_type_failed = "Failed"

-- `cond != nil && cond.Status == metav1.ConditionTrue`
abbrev pub holds : Option Condition → Bool
holds none = false
holds (some c) = elim c.status [ condition_true ↦ true | _ ↦ false ]

-- What a write puts into one condition: its status, reason and message.
pub record Cell : Type 0 where
  pub status : ConditionStatus
  pub reason : String
  pub message : String

module _ (ops : ConditionOps) where
  unfoldable pub write : ℕ → List Condition → String → Cell → List Condition
  write generation cs type cell = ops.set_status_condition cs (record {
    type = type;
    status = cell.status;
    reason = cell.reason;
    message = cell.message;
    observed_generation = generation;
  })

  -- The four calls of meta.SetStatusCondition, in the order of the source.
  unfoldable pub write_all : ℕ → List Condition → Cell → Cell → Cell → Cell → List Condition
  unfolding write
  write_all generation cs scheduled in_progress complete failed =
      let cs1 = write generation cs condition_type_scheduled scheduled in
      let cs2 = write generation cs1 condition_type_in_progress in_progress in
      let cs3 = write generation cs2 condition_type_complete complete in
      write generation cs3 condition_type_failed failed

  -- A type is found True exactly when a condition of that type is present and True.
  unfoldable pub is_true : List Condition → String → Bool
  is_true cs type = holds (ops.find_status_condition cs type)

-- Is the cell written True?
abbrev pub lit : Cell → Bool
lit c = elim c.status [ condition_true ↦ true | _ ↦ false ]
