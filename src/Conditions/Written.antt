-- ===== src/Conditions/Written.antt =====
-- What a job shows after the four writes of a Mark* method: each condition is what was written last.
use sbombastic.Common.{ℕ, ◌≡◌, List}
use sbombastic.Conditions.{
  ConditionOps, Condition, Cell, condition_type_scheduled, condition_type_in_progress,
  condition_type_complete, condition_type_failed, lit, write_all, is_true,
}

module _ (ops : ConditionOps) (g : ℕ) (cs : List Condition) (a b c d : Cell) where
  pub scheduled_written : is_true ops (write_all ops g cs a b c d) condition_type_scheduled ≡ lit a
  unfolding is_true write_all
  scheduled_written = simp ops.find-set

  pub in_progress_written :
      is_true ops (write_all ops g cs a b c d) condition_type_in_progress ≡ lit b
  unfolding is_true write_all
  in_progress_written = simp ops.find-set

  pub complete_written : is_true ops (write_all ops g cs a b c d) condition_type_complete ≡ lit c
  unfolding is_true write_all
  complete_written = simp ops.find-set

  pub failed_written : is_true ops (write_all ops g cs a b c d) condition_type_failed ≡ lit d
  unfolding is_true write_all
  failed_written = simp ops.find-set
