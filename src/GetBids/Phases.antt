-- ===== src/GetBids/Phases.antt =====
-- The invariant of a run: the tracker's pending tasks are those that a response or a call is still
-- to complete.
use bas_dev.Common.{
  ℕ, suc, ◌≡◌, refl, ap, ◌∙◌, Bool, true, false, String, ◌∷◌, Option, none, some, if◌then◌else◌,
  arith,
}
use bas_dev.Common.Int.{pos}
use bas_dev.TaskTracker.{TaskStatus, task_completed, predecessor, is_zero}
use bas_dev.TaskTracker.Completion.{task_completed-pending, task_completed-call}
use bas_dev.SelectAd.Services.{Status, StatusOr, value, failure}
use bas_dev.GetBids.{
  finish_encrypted, BuyerServices, GetBidsReactor, Gathered, on_all_generated_bids_done,
  complete_task,
}

module _ {W : Type 0} (services : BuyerServices W) where
  -- The RPC is finished, once, and nothing else has changed.
  abbrev pub IsFinishedFrom : GetBidsReactor W → GetBidsReactor W → Type 0
  IsFinishedFrom r r' =
      (r'.audience ≡ r.audience)
      × (r'.signals_due ≡ r.signals_due)
      × (r'.app_awaited ≡ r.app_awaited)
      × (r'.raw_request ≡ r.raw_request)
      × (status : Status) × (r'.finished ≡ status ∷ r.finished)

  finish_encrypted-IsFinishedFrom :
      (result : StatusOr String) (any : Bool) (r : GetBidsReactor W)
      → IsFinishedFrom r (finish_encrypted services result any r)
  finish_encrypted-IsFinishedFrom (failure status) any r = (refl, refl, refl, refl, _, refl)
  finish_encrypted-IsFinishedFrom (value ciphertext) true r = (refl, refl, refl, refl, _, refl)
  finish_encrypted-IsFinishedFrom (value ciphertext) false r = (refl, refl, refl, refl, _, refl)

  on_all_generated_bids_done-IsFinishedFrom :
      (is_cancelled any : Bool) (r : GetBidsReactor W)
      → IsFinishedFrom r (on_all_generated_bids_done services is_cancelled any r)
  unfolding on_all_generated_bids_done
  on_all_generated_bids_done-IsFinishedFrom true any r = (refl, refl, refl, refl, _, refl)
  on_all_generated_bids_done-IsFinishedFrom false any r =
      finish_encrypted-IsFinishedFrom (services.aead_encrypt r.gathered.1) any r

  -- A completed task leaves one task less, and only the last one finishes the RPC.
  pub complete_task-more :
      (status : TaskStatus) (g : Option (Gathered W → Gathered W)) (is_cancelled : Bool) (n : ℕ)
      (r : GetBidsReactor W)
      → r.tracker.pending_tasks_count ≡ pos (suc (suc n))
      → let r' = complete_task services status g is_cancelled r in
        (r'.tracker.pending_tasks_count ≡ pos (suc n))
        × (r'.audience ≡ r.audience)
        × (r'.signals_due ≡ r.signals_due)
        × (r'.app_awaited ≡ r.app_awaited)
        × (r'.raw_request ≡ r.raw_request)
        × (r'.finished ≡ r.finished)
  unfolding complete_task predecessor
  complete_task-more status g is_cancelled n r e =
      let (any, fired) = task_completed-call g r.tracker r.gathered status in
      let more : is_zero (predecessor r.tracker.pending_tasks_count) ≡ false =
        rw e (ground arith) in
      let silent : (task_completed status g (r.tracker, r.gathered)).2 ≡ none =
        fired ∙ ap (λ b. if b then some any else none) more in
      let pending = task_completed-pending g r.tracker r.gathered status ∙ ap predecessor e in
      rw (complete_task, silent) (pending, refl, refl, refl, refl, refl)

  pub complete_task-last :
      (status : TaskStatus) (g : Option (Gathered W → Gathered W)) (is_cancelled : Bool)
      (r : GetBidsReactor W)
      → r.tracker.pending_tasks_count ≡ pos 1
      → IsFinishedFrom r (complete_task services status g is_cancelled r)
  unfolding complete_task predecessor
  complete_task-last status g is_cancelled r e =
      let (tracker, gathered, call) = task_completed status g (r.tracker, r.gathered) in
      let r' = record r { tracker = tracker; gathered = gathered } in
      let (any, fired) = task_completed-call g r.tracker r.gathered status in
      let last : is_zero (predecessor r.tracker.pending_tasks_count) ≡ true = rw e refl in
      let fires : (task_completed status g (r.tracker, r.gathered)).2 ≡ some any =
        fired ∙ ap (λ b. if b then some any else none) last in
      rw (complete_task, fires) (on_all_generated_bids_done-IsFinishedFrom is_cancelled any r')
