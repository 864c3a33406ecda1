-- ===== src/GetBids/Tasks.antt =====
-- The tasks of a run: each step completes the task that it takes up, or leaves it to a later step.
use bas_dev.Common.{
  ℕ, zero, suc, ◌+◌, ◌≤◌, ◌≡◌, ◌⊎◌, inl, inr, Bool, true, false, not, ◌&&◌, ◌||◌, List, [], ◌∷◌,
  Option, none, some, if◌then◌else◌, arith, Bool-cases,
}
use bas_dev.Common.Int.{pos}
use bas_dev.TaskTracker.{TaskStatus, empty_response, error, success}
use bas_dev.SelectAd.Messages.{GetBidsRawRequest}
use bas_dev.SelectAd.Services.{Status, StatusOr, value, failure}
use bas_dev.SelectAd.Currency.{empty}
use bas_dev.GetBids.{
  BuyerServices, GetBidsReactor, Gathered, AudienceCall, no_call, for_bidding_signals, for_bids,
  signals_calls, has_field, has_signals, push_error, complete_task, handle_single_bid_completion,
}
use bas_dev.GetBids.Phases.{complete_task-more, complete_task-last}

abbrev pub audience_tasks : AudienceCall → ℕ
audience_tasks no_call = 0
audience_tasks for_bidding_signals = 1
audience_tasks for_bids = 1

abbrev pub audience_rank : AudienceCall → ℕ
audience_rank no_call = 0
audience_rank for_bidding_signals = 2
audience_rank for_bids = 1

module _ {W : Type 0} (services : BuyerServices W) where
  -- The request has protected app signals if it has an input for them and they are enabled.
  abbrev pub IsAnswerable : GetBidsRawRequest → Type 0
  IsAnswerable raw_request =
      (not (
          services.is_protected_app_signals_enabled
          && has_field raw_request.protected_app_signals_buyer_input)
        || has_signals services raw_request)
      ≡ true

  -- The tasks that a later step completes, and the most steps that are left.
  abbrev pub total : GetBidsReactor W → ℕ
  total r =
      audience_tasks r.audience
      + (if r.signals_due then signals_calls services r.raw_request else 0)
      + (if r.app_awaited then 1 else 0)

  abbrev pub rank : GetBidsReactor W → ℕ
  rank r =
      audience_rank r.audience + (if r.signals_due then 2 else 0) + (if r.app_awaited then 1 else 0)

  pub record IsWaiting (n : ℕ) (r : GetBidsReactor W) : Type 0 where
    pub pending : r.tracker.pending_tasks_count ≡ pos n
    pub tasks : total r ≡ n
    pub open_still : r.finished ≡ []
    pub not_both : (r.signals_due && r.app_awaited) ≡ false
    pub answerable : IsAnswerable r.raw_request

  pub record IsOver (r : GetBidsReactor W) : Type 0 where
    pub no_tasks : total r ≡ 0
    pub status : Status
    pub finishes : r.finished ≡ status ∷ []
    pub answerable : IsAnswerable r.raw_request

  abbrev pub IsGood : GetBidsReactor W → Type 0
  IsGood r = ((n : ℕ) × IsWaiting (suc n) r) ⊎ IsOver r

  -- A task that is taken up, and is about to complete.
  pub record IsTaken (n : ℕ) (r : GetBidsReactor W) : Type 0 where
    pub pending : r.tracker.pending_tasks_count ≡ pos (suc n)
    pub tasks : total r ≡ n
    pub open_still : r.finished ≡ []
    pub not_both : (r.signals_due && r.app_awaited) ≡ false
    pub answerable : IsAnswerable r.raw_request

  abbrev pub GoodWithin : ℕ → GetBidsReactor W → Type 0
  GoodWithin k r = IsGood r × (rank r ≤ k)

  pub completed-GoodWithin :
      (status : TaskStatus) (g : Option (Gathered W → Gathered W)) (is_cancelled : Bool) (n : ℕ)
      (r : GetBidsReactor W)
      → IsTaken n r
      → GoodWithin (rank r) (complete_task services status g is_cancelled r)
  completed-GoodWithin status g is_cancelled zero r h =
      let (a, b, c, d, s, e) = complete_task-last services status g is_cancelled r h.pending in
      let tasks = h.tasks in
      let unfinished = h.open_still in
      let answerable = h.answerable in
      (
        inr (record { no_tasks = cc; status = s; finishes = cc; answerable = cc }),
        (let same : rank (complete_task services status g is_cancelled r) ≡ rank r = cc in
            omega (arith, same)),
      )
  completed-GoodWithin status g is_cancelled (suc m) r h =
      let (p, a, b, c, d, e) = complete_task-more services status g is_cancelled m r h.pending in
      let tasks = h.tasks in
      let unfinished = h.open_still in
      let answerable = h.answerable in
      let not_both = h.not_both in
      (
        inl (
          m,
          record { pending = p; tasks = cc; open_still = cc; not_both = cc; answerable = cc },
        ),
        (let same : rank (complete_task services status g is_cancelled r) ≡ rank r = cc in
            omega (arith, same)),
      )

  pub handled-GoodWithin :
      {B : Type 0} (result : StatusOr (List B)) (swap : List B → Gathered W → Gathered W)
      (is_cancelled : Bool) (n : ℕ) (r : GetBidsReactor W)
      → IsTaken n r
      → GoodWithin (rank r) (handle_single_bid_completion services result swap is_cancelled r)
  unfolding handle_single_bid_completion
  handled-GoodWithin (failure status) swap is_cancelled n r h =
      completed-GoodWithin error (some (push_error services status.message)) is_cancelled n r h
  handled-GoodWithin (value bids) swap is_cancelled n r h = elim (Bool-cases (empty bids)) [
    | inl e ↦
        rw (handle_single_bid_completion, e)
          (completed-GoodWithin empty_response none is_cancelled n r h)
    | inr e ↦
        rw (handle_single_bid_completion, e)
          (completed-GoodWithin success (some (swap bids)) is_cancelled n r h)
  ]

  abbrev pub Progress : ℕ → GetBidsReactor W → Type 0
  Progress k r = (j : ℕ) × (suc j ≤ k) × GoodWithin j r
