-- ===== src/TaskTracker/Completion.antt =====
-- When the final callback of a tracker is called, how often, and with which argument.
use bas_dev.Common.{
  append-nil, sym, none, some, Option, inr, inl, ap, ◌⊎◌, ◌∙◌, zero, ℕ, suc, ◌+◌, ◌-◌, ◌≤◌, ◌<◌,
  ◌≡◌, ◌≢◌, refl, Bool, true, false, ◌||◌, List, [], ◌∷◌, ◌++◌, arith, length, ltb, ◌==◌, nat_eq,
  if◌then◌else◌,
}
use bas_dev.Common.Int.{ℤ, pos, negsuc, ltb_ℤ}
use bas_dev.TaskTracker.{
  is_zero, TaskStatus, unknown, skipped, empty_response, error, success, Tracker,
  set_num_tasks_to_track, any_task_successfully_completed, task_completed, run, predecessor,
  sum_is_checked, completion_is_checked, run_is_checked,
}
use bas_dev.TaskTracker.Counts.{count, run-IsCounted, one_done, one_done-IsCounted}

one_done_pending :
    (status : TaskStatus) (t : Tracker)
    → (one_done status t).pending_tasks_count ≡ predecessor t.pending_tasks_count
unfolding task_completed
one_done_pending success t = refl
one_done_pending _ t = refl

run_step :
    (t : Tracker) (x : TaskStatus) (xs : List TaskStatus)
    → (run t (x ∷ xs)).1
      ≡ (if is_zero (predecessor t.pending_tasks_count)
          then any_task_successfully_completed (one_done x t) ∷ []
          else [])
        ++ (run (one_done x t) xs).1
unfolding run task_completed
run_step t success xs = ground arith
run_step t _ xs = ground arith

-- Beyond the last task the count of pending ones is at or below zero, and nothing is called.
abbrev IsOver : ℤ → Type 0
IsOver (pos n) = n ≡ 0
IsOver (negsuc n) = Unit {0}

IsOver-predecessor : (p : ℤ) → IsOver p → IsOver (predecessor p) × (is_zero (predecessor p) ≡ false)
unfolding predecessor
IsOver-predecessor (pos zero) h = (tt, refl)
IsOver-predecessor (pos (suc n)) h = absurd (omega arith)
IsOver-predecessor (negsuc n) h = (tt, refl)

run-over :
    (t : Tracker) (statuses : List TaskStatus)
    → IsOver t.pending_tasks_count
    → (run t statuses).1 ≡ []
unfolding run
run-over t [] h = refl
run-over t (x ∷ xs) h =
    let (over, nonzero) = IsOver-predecessor t.pending_tasks_count h in
    rw (run_step t x xs, nonzero) (run-over (one_done x t) xs (rw (one_done_pending x t) over))

-- A list of completions with as many entries as tasks are pending.
run-fires :
    (n : ℕ) (t : Tracker) (statuses extra : List TaskStatus)
    → t.pending_tasks_count ≡ pos (suc n)
    → length statuses ≡ suc n
    → (run t (statuses ++ extra)).1 ≡ any_task_successfully_completed (run t statuses).0 ∷ []
unfolding run predecessor
run-fires n t [] extra p e = absurd (omega arith)
run-fires zero t (x ∷ []) extra p e =
    let pending = one_done_pending x t in
    let over : IsOver (one_done x t).pending_tasks_count = rw (pending, p) refl in
    let last : is_zero (predecessor t.pending_tasks_count) ≡ true = rw p refl in
    rw (run_step t x extra, last, run-over (one_done x t) extra over)
run-fires zero t (x ∷ y ∷ xs) extra p e = absurd (omega arith)
run-fires (suc n) t (x ∷ xs) extra p e =
    let pending = one_done_pending x t in
    let more : is_zero (predecessor t.pending_tasks_count) ≡ false = rw p (ground arith) in
    rw (run_step t x (xs ++ extra), more)
      (run-fires n (one_done x t) xs extra (pending ∙ ap predecessor p) (omega arith))

run-early :
    (n : ℕ) (t : Tracker) (statuses : List TaskStatus)
    → t.pending_tasks_count ≡ pos n
    → length statuses < n
    → (run t statuses).1 ≡ []
unfolding run predecessor
run-early n t [] p h = refl
run-early zero t (x ∷ xs) p h = absurd (omega arith)
run-early (suc n) t (x ∷ xs) p h =
    let pending = one_done_pending x t in
    let more : is_zero (predecessor t.pending_tasks_count) ≡ false = rw p (ground arith) in
    rw (run_step t x xs, more)
      (run-early n (one_done x t) xs (pending ∙ ap predecessor p) (omega arith))

abbrev pub has : TaskStatus → List TaskStatus → Bool
has status statuses = ltb 0 (count status statuses)

-- What the final callback is told: that some task succeeded, came back empty or was skipped, or
-- that none failed.
abbrev pub outcome : List TaskStatus → Bool
outcome statuses =
    has success statuses
    || (has empty_response statuses || has skipped statuses)
    || count error statuses == 0

any_task_counts :
    (t : Tracker) (a b c d : ℕ)
    → t.successful_tasks_count ≡ a
    → t.empty_tasks_count ≡ b
    → t.skipped_tasks_count ≡ c
    → t.error_tasks_count ≡ d
    → any_task_successfully_completed t ≡ (ltb 0 a || (ltb 0 b || ltb 0 c) || d == 0)
unfolding any_task_successfully_completed
any_task_counts t a b c d e f g h = simp (e, f, g, h)

outcome_lem :
    (n : ℕ) (t : Tracker) (statuses : List TaskStatus)
    → any_task_successfully_completed (run (set_num_tasks_to_track t (pos n)) statuses).0
      ≡ outcome statuses
unfolding set_num_tasks_to_track
outcome_lem n t statuses =
    let counted = run-IsCounted (set_num_tasks_to_track t (pos n)) statuses in
    any_task_counts (run (set_num_tasks_to_track t (pos n)) statuses).0 (count success statuses)
      (count empty_response statuses) (count skipped statuses) (count error statuses) (omega arith)
      (omega arith) (omega arith) (omega arith)

length-counts :
    (statuses : List TaskStatus)
    → length statuses
      ≡ count success statuses
        + count empty_response statuses
        + count skipped statuses
        + count error statuses
        + count unknown statuses
length-counts [] = refl
length-counts (success ∷ xs) = omega (arith, length-counts xs)
length-counts (empty_response ∷ xs) = omega (arith, length-counts xs)
length-counts (skipped ∷ xs) = omega (arith, length-counts xs)
length-counts (error ∷ xs) = omega (arith, length-counts xs)
length-counts (unknown ∷ xs) = omega (arith, length-counts xs)

one_done_tracked :
    (status : TaskStatus) (t : Tracker)
    → (one_done status t).num_tasks_to_track ≡ t.num_tasks_to_track
unfolding task_completed
one_done_tracked success t = refl
one_done_tracked _ t = refl

abbrev finished_count : Tracker → ℕ
finished_count t =
    t.skipped_tasks_count + t.successful_tasks_count + t.error_tasks_count + t.empty_tasks_count

sum_is_checked_lem :
    (t : Tracker) (n : ℕ)
    → t.pending_tasks_count ≡ pos n
    → t.num_tasks_to_track ≡ pos (finished_count t + n)
    → sum_is_checked t ≡ true
unfolding sum_is_checked
sum_is_checked_lem t n p h = rw (sum_is_checked, p, h) (ground arith)

run_is_checked_lem :
    (t : Tracker) (statuses : List TaskStatus)
    → count unknown statuses ≡ 0
    → t.pending_tasks_count ≡ pos (length statuses)
    → t.num_tasks_to_track ≡ pos (finished_count t + length statuses)
    → run_is_checked t statuses ≡ true
unfolding run_is_checked completion_is_checked predecessor
run_is_checked_lem t [] known p h = refl
run_is_checked_lem t (x ∷ xs) known p h =
    let counted = one_done-IsCounted x t in
    let one = length-counts (x ∷ []) in
    let pending : (one_done x t).pending_tasks_count ≡ pos (length xs) =
      one_done_pending x t ∙ ap predecessor p in
    let tracked : (one_done x t).num_tasks_to_track
        ≡ pos (finished_count (one_done x t) + length xs) =
      one_done_tracked x t ∙ h ∙ ap pos (omega arith) in
    let summed = sum_is_checked_lem (one_done x t) (length xs) pending tracked in
    let some_pending : ltb_ℤ (pos 0) t.pending_tasks_count ≡ true = rw p (ground arith) in
    rw (run_is_checked, completion_is_checked, some_pending, summed)
      (ground (arith, run_is_checked_lem (one_done x t) xs (omega arith) pending tracked))

-- A tracker that was reset to track some tasks, one at least, whose completions are as many and have
-- no unknown status, passes all its checks and calls `on_all_tasks_done_` once, whatever order the
-- completions come in. The argument of the call says that some task succeeded, came back empty or
-- was skipped, or that none failed.
pub run-once :
    (t : Tracker) (statuses : List TaskStatus)
    → statuses ≢ []
    → count unknown statuses ≡ 0
    → let start = set_num_tasks_to_track t (pos (length statuses)) in
      (run_is_checked start statuses ≡ true) × ((run start statuses).1 ≡ outcome statuses ∷ [])
unfolding set_num_tasks_to_track
run-once t [] h known = absurd (h refl)
run-once t (x ∷ xs) h known =
    let start = set_num_tasks_to_track t (pos (length (x ∷ xs))) in
    (
      run_is_checked_lem start (x ∷ xs) known refl (ap pos (omega arith)),
      ap (λ ys. (run start ys).1) (sym (append-nil (x ∷ xs)))
          ∙ run-fires (length xs) start (x ∷ xs) [] refl refl
          ∙ ap (λ b. b ∷ []) (outcome_lem (length (x ∷ xs)) t (x ∷ xs)),
    )

-- While tasks are pending the callback is not called, and a tracker of no tasks never calls it.
pub run-pending :
    (t : Tracker) (n : ℕ) (statuses : List TaskStatus)
    → (length statuses < n) ⊎ (n ≡ 0)
    → (run (set_num_tasks_to_track t (pos n)) statuses).1 ≡ []
unfolding set_num_tasks_to_track
run-pending t n statuses (inl h) = run-early n _ statuses refl h
run-pending t n statuses (inr h) = run-over _ statuses h

run_pending_count :
    (n : ℕ) (t : Tracker) (statuses : List TaskStatus)
    → t.pending_tasks_count ≡ pos n
    → length statuses ≤ n
    → (run t statuses).0.pending_tasks_count ≡ pos (n - length statuses)
unfolding run predecessor
run_pending_count n t [] p h = p ∙ ap pos (omega arith)
run_pending_count zero t (x ∷ xs) p h = absurd (omega arith)
run_pending_count (suc n) t (x ∷ xs) p h =
    run_pending_count n (one_done x t) xs (one_done_pending x t ∙ ap predecessor p) (omega arith)
    ∙ ap pos (omega arith)

-- The sum that `AnyTaskSuccessfullyCompleted` checks holds after any completions, no more than
-- there are tasks, whose status is not unknown: the counters and the pending tasks make up the
-- number of tasks.
run-sum :
    (t : Tracker) (n : ℕ) (statuses : List TaskStatus)
    → count unknown statuses ≡ 0
    → length statuses ≤ n
    → let t' = (run (set_num_tasks_to_track t (pos n)) statuses).0 in
      (pending : ℕ) × (t'.pending_tasks_count ≡ pos pending)
      × (t'.skipped_tasks_count + t'.successful_tasks_count + t'.error_tasks_count
            + t'.empty_tasks_count + pending
          ≡ n)
unfolding set_num_tasks_to_track
run-sum t n statuses known h =
    let start = set_num_tasks_to_track t (pos n) in
    let counted = run-IsCounted start statuses in
    (
      n - length statuses,
      run_pending_count n start statuses refl h,
      omega (arith, length-counts statuses),
    )

-- One completion, with a closure for the single task or without, on any state of a client.
module _ {S : Type 0} (g : Option (S → S)) (t : Tracker) (s : S) where
  pub task_completed-pending :
      (status : TaskStatus)
      → (task_completed status g (t, s)).0.pending_tasks_count ≡ predecessor t.pending_tasks_count
  unfolding task_completed
  task_completed-pending success = refl
  task_completed-pending _ = refl

  pub task_completed-call :
      (status : TaskStatus)
      → (any : Bool) × ((task_completed status g (t, s)).2
          ≡ (if is_zero (predecessor t.pending_tasks_count) then some any else none))
  unfolding task_completed
  task_completed-call success = (_, refl)
  task_completed-call _ = (_, refl)
