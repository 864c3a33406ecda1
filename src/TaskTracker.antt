-- ===== src/TaskTracker.antt =====
-- services/common/util/async_task_tracker.{h,cc}. The mutex makes each call atomic, so threads that
-- report their tasks are one sequence of calls, in some order. Logging is left out.
pub mod Counts
pub mod Completion
use bas_dev.Common.{
  ℕ, zero, suc, ◌+◌, ◌≡◌, Bool, true, false, ◌||◌, ◌&&◌, not, List, [], ◌∷◌, ◌++◌, Option, none,
  some, ltb, ◌==◌, nat_eq, if◌then◌else◌,
}
use bas_dev.Common.Int.{ℤ, pos, negsuc, ◌-ℤ◌, pos_part, neg_part, ltb_ℤ}

pub data TaskStatus : Type 0 where
  unknown skipped empty_response error success : TaskStatus

-- The counters of `AsyncTaskTracker`. `pending_tasks_count` is an `int` that nothing keeps from
-- falling below zero once checks are compiled out.
pub record Tracker : Type 0 where
  pub num_tasks_to_track : ℤ
  pub pending_tasks_count : ℤ
  pub successful_tasks_count : ℕ
  pub empty_tasks_count : ℕ
  pub skipped_tasks_count : ℕ
  pub error_tasks_count : ℕ

-- The constructor, and `SetNumTasksToTrack` at any earlier state.
unfoldable pub tracking : ℤ → Tracker
tracking n = record {
  num_tasks_to_track = n;
  pending_tasks_count = n;
  successful_tasks_count = 0;
  empty_tasks_count = 0;
  skipped_tasks_count = 0;
  error_tasks_count = 0;
}

unfoldable pub set_num_tasks_to_track : Tracker → ℤ → Tracker
set_num_tasks_to_track t n = record t {
  num_tasks_to_track = n;
  pending_tasks_count = n;
  successful_tasks_count = 0;
  empty_tasks_count = 0;
  skipped_tasks_count = 0;
  error_tasks_count = 0;
}

unfoldable pub any_task_successfully_completed : Tracker → Bool
any_task_successfully_completed t =
    let possible_chaff = ltb 0 t.empty_tasks_count || ltb 0 t.skipped_tasks_count in
    ltb 0 t.successful_tasks_count || possible_chaff || t.error_tasks_count == 0

-- The `switch` on the status of a finished task.
unfoldable pub count_status : TaskStatus → Tracker → Tracker
count_status error t = record t { error_tasks_count = t.error_tasks_count + 1 }
count_status empty_response t = record t { empty_tasks_count = t.empty_tasks_count + 1 }
count_status skipped t = record t { skipped_tasks_count = t.skipped_tasks_count + 1 }
count_status success t = record t { successful_tasks_count = t.successful_tasks_count + 1 }
count_status unknown t = t

unfoldable pub predecessor : ℤ → ℤ
predecessor (pos (suc n)) = pos n
predecessor (pos zero) = negsuc 0
predecessor (negsuc n) = negsuc (suc n)

abbrev pub is_zero : ℤ → Bool
is_zero (pos n) = n == 0
is_zero (negsuc n) = false

-- `TaskCompleted`: the closure for the single task, if any, changes the client's state under the
-- lock; the last result is the argument of `on_all_tasks_done_` if this call makes it.
unfoldable pub task_completed {ℓ} :
    {S : Type ℓ} → TaskStatus → Option (S → S) → Tracker × S → Tracker × S × Option Bool
unfolding count_status predecessor any_task_successfully_completed
task_completed {S} status on_single_task_done (t, s) =
    let s' : S = elim on_single_task_done [ none ↦ s | some f ↦ f s ] in
    let t' =
      count_status status (record t { pending_tasks_count = predecessor t.pending_tasks_count }) in
    (
      t',
      s',
      if is_zero t'.pending_tasks_count then some (any_task_successfully_completed t') else none,
    )

-- `DCHECK_EQ(num_tasks_to_track_, sum_tasks_count)` of `AnyTaskSuccessfullyCompleted`, an equation of
-- integers by their parts.
unfoldable pub sum_is_checked : Tracker → Bool
sum_is_checked t =
    let finished_tasks =
      t.skipped_tasks_count + t.successful_tasks_count + t.error_tasks_count
      + t.empty_tasks_count in
    pos_part t.num_tasks_to_track + neg_part t.pending_tasks_count
    == finished_tasks + pos_part t.pending_tasks_count + neg_part t.num_tasks_to_track

-- The two `DCHECK`s of a call of `TaskCompleted`; `task_completed` is what it does where these hold,
-- or where checks are compiled out.
unfoldable pub completion_is_checked : TaskStatus → Tracker → Bool
completion_is_checked status t =
    let t' = (task_completed {S = Unit {0}} status none (t, tt)).0 in
    ltb_ℤ (pos 0) t.pending_tasks_count
    && (not (is_zero t'.pending_tasks_count) || sum_is_checked t')

-- Whether the checks hold in a sequence of completions.
unfoldable pub run_is_checked : Tracker → List TaskStatus → Bool
run_is_checked t [] = true
run_is_checked t (status ∷ later) =
    let t' = (task_completed {S = Unit {0}} status none (t, tt)).0 in
    completion_is_checked status t && run_is_checked t' later

abbrev pub called : Option Bool → List Bool
called none = []
called (some b) = b ∷ []

-- A sequence of completions without closures, and the calls of `on_all_tasks_done_` in it.
unfoldable pub run : Tracker → List TaskStatus → Tracker × List Bool
run t [] = (t, [])
run t (status ∷ later) =
    let (t', _, call) = task_completed {S = Unit {0}} status none (t, tt) in
    let (t'', calls) = run t' later in (t'', called call ++ calls)
