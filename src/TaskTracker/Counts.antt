-- ===== src/TaskTracker/Counts.antt =====
-- The counters of a tracker after a sequence of completions.
use bas_dev.Common.{none, ℕ, ◌+◌, ◌≡◌, Bool, true, false, List, [], ◌∷◌, arith, if◌then◌else◌}
use bas_dev.TaskTracker.{
  TaskStatus, unknown, skipped, empty_response, error, success, Tracker, task_completed, run,
}

abbrev pub is_status : TaskStatus → TaskStatus → Bool
is_status unknown unknown = true
is_status skipped skipped = true
is_status empty_response empty_response = true
is_status error error = true
is_status success success = true
is_status _ _ = false

-- How many tasks ended with the given status.
abbrev pub count : TaskStatus → List TaskStatus → ℕ
count status [] = 0
count status (x ∷ xs) = (if is_status status x then 1 else 0) + count status xs

pub record IsCounted (before after : Tracker) (statuses : List TaskStatus) : Type 0 where
  pub successes :
      after.successful_tasks_count ≡ before.successful_tasks_count + count success statuses
  pub empties : after.empty_tasks_count ≡ before.empty_tasks_count + count empty_response statuses
  pub skips : after.skipped_tasks_count ≡ before.skipped_tasks_count + count skipped statuses
  pub errors : after.error_tasks_count ≡ before.error_tasks_count + count error statuses

abbrev pub one_done : TaskStatus → Tracker → Tracker
one_done status t = (task_completed {S = Unit {0}} status none (t, tt)).0

pub one_done-IsCounted :
    (status : TaskStatus) (t : Tracker) → IsCounted t (one_done status t) (status ∷ [])
unfolding task_completed
one_done-IsCounted success t = ground arith
one_done-IsCounted _ t = ground arith

-- Each completed task is counted once, under its status.
pub run-IsCounted :
    (t : Tracker) (statuses : List TaskStatus) → IsCounted t (run t statuses).0 statuses
unfolding run
run-IsCounted t [] = omega arith
run-IsCounted t (x ∷ xs) =
    let first = one_done-IsCounted x t in let later = run-IsCounted (one_done x t) xs in omega arith
