-- ===== src/GetBids/Responses.antt =====
-- Each response completes its task, and brings the run closer to its end.
use bas_dev.Common.{
  ℕ, suc, ◌≤◌, ◌≡◌, inl, inr, refl, ap, Bool, true, false, String, List, none, some, is_empty,
  arith, Bool-cases, Option-cases,
}
use bas_dev.TaskTracker.{empty_response, error}
use bas_dev.SelectAd.Services.{StatusOr, value, failure}
use bas_dev.GetBids.{
  BuyerServices, GetBidsReactor, Gathered, no_call, for_bidding_signals, for_bids, push_error,
  handle_single_bid_completion, on_bidding_signals,
}
use bas_dev.GetBids.Tasks.{
  audience_tasks, audience_rank, rank, IsWaiting, IsGood, IsTaken, GoodWithin, completed-GoodWithin,
  handled-GoodWithin,
}

module _ {W : Type 0} (services : BuyerServices W) where
  -- Taking up a response that is awaited.
  audience-IsTaken :
      (n : ℕ) (r : GetBidsReactor W)
      → audience_tasks r.audience ≡ 1
      → IsWaiting services (suc n) r
      → IsTaken services n (record r { audience = no_call })
  audience-IsTaken n r e h = record {
    pending = h.pending;
    tasks = omega (arith, h.tasks);
    open_still = h.open_still;
    not_both = h.not_both;
    answerable = h.answerable;
  }

  app-IsTaken :
      (n : ℕ) (r : GetBidsReactor W)
      → r.app_awaited ≡ true
      → IsWaiting services (suc n) r
      → IsTaken services n (record r { app_awaited = false })
  app-IsTaken n r e h =
      let tasks = h.tasks in
      let not_both = h.not_both in
      record {
        pending = h.pending;
        tasks = ground arith;
        open_still = h.open_still;
        not_both = ground arith;
        answerable = h.answerable;
      }

  pub bids_came-IsGood :
      {B : Type 0} (result : StatusOr (List B)) (swap : List B → Gathered W → Gathered W)
      (is_cancelled : Bool) (r : GetBidsReactor W)
      → r.audience ≡ for_bids
      → IsGood services r
      → (k : ℕ) × (suc k ≤ rank services r)
        × GoodWithin services k (
            handle_single_bid_completion services result swap is_cancelled
              (record r { audience = no_call }))
  bids_came-IsGood result swap is_cancelled r e (inl (n, h)) =
      let one : audience_tasks r.audience ≡ 1 = ap audience_tasks e in
      let step : audience_rank r.audience ≡ 1 = ap audience_rank e in
      (
        rank services (record r { audience = no_call }),
        omega (arith, step),
        handled-GoodWithin services result swap is_cancelled n (record r { audience = no_call })
            (audience-IsTaken n r one h),
      )
  bids_came-IsGood result swap is_cancelled r e (inr h) =
      let one : audience_tasks r.audience ≡ 1 = ap audience_tasks e in
      absurd (omega (arith, h.no_tasks))

  pub app_bids_came-IsGood :
      {B : Type 0} (result : StatusOr (List B)) (swap : List B → Gathered W → Gathered W)
      (is_cancelled : Bool) (r : GetBidsReactor W)
      → r.app_awaited ≡ true
      → IsGood services r
      → (k : ℕ) × (suc k ≤ rank services r)
        × GoodWithin services k (
            handle_single_bid_completion services result swap is_cancelled
              (record r { app_awaited = false }))
  app_bids_came-IsGood result swap is_cancelled r e (inl (n, h)) = (
    rank services (record r { app_awaited = false }),
    ground arith,
    handled-GoodWithin services result swap is_cancelled n (record r { app_awaited = false })
        (app-IsTaken n r e h),
  )
  app_bids_came-IsGood result swap is_cancelled r e (inr h) =
      let none_left = h.no_tasks in absurd (ground arith)

  signals_answered :
      (result : StatusOr String) (is_cancelled : Bool) (n : ℕ) (r : GetBidsReactor W)
      → r.audience ≡ no_call
      → IsTaken services n r
      → GoodWithin services
          (suc (rank services r))
          (on_bidding_signals services result is_cancelled r)
  unfolding on_bidding_signals
  signals_answered (failure status) is_cancelled n r e h =
      let (good, m) =
        completed-GoodWithin services error (some (push_error services status.message)) is_cancelled
          n r h in
      (good, omega (arith, m))
  signals_answered (value signals) is_cancelled n r e h = elim (Bool-cases (is_empty signals)) [
    | inl none_there ↦
        let (good, m) = completed-GoodWithin services empty_response none is_cancelled n r h in
        rw (on_bidding_signals, none_there) (good, omega (arith, m))
    | inr there ↦ elim (Option-cases (services.call_bidding r.raw_request signals)) [
      | inr (message, refused) ↦
          let (good, m) =
            completed-GoodWithin services error (some (push_error services message)) is_cancelled n
              r h in
          rw (on_bidding_signals, there, refused) (good, omega (arith, m))
      | inl called ↦
          let none_before : audience_tasks r.audience ≡ 0 = ap audience_tasks e in
          let rank_before : audience_rank r.audience ≡ 0 = ap audience_rank e in
          rw (on_bidding_signals, there, called)
            (
              inl (
                n,
                record {
                  pending = h.pending;
                  tasks = omega (arith, h.tasks);
                  open_still = h.open_still;
                  not_both = h.not_both;
                  answerable = h.answerable;
                },
              ),
              omega arith,
            )
    ]
  ]

  pub signals_came-IsGood :
      (result : StatusOr String) (is_cancelled : Bool) (r : GetBidsReactor W)
      → r.audience ≡ for_bidding_signals
      → IsGood services r
      → (k : ℕ) × (suc k ≤ rank services r)
        × GoodWithin services k
            (on_bidding_signals services result is_cancelled (record r { audience = no_call }))
  signals_came-IsGood result is_cancelled r e (inl (n, h)) =
      let one : audience_tasks r.audience ≡ 1 = ap audience_tasks e in
      let step : audience_rank r.audience ≡ 2 = ap audience_rank e in
      (
        suc (rank services (record r { audience = no_call })),
        omega (arith, step),
        signals_answered result is_cancelled n (record r { audience = no_call }) refl
            (audience-IsTaken n r one h),
      )
  signals_came-IsGood result is_cancelled r e (inr h) =
      let one : audience_tasks r.audience ≡ 1 = ap audience_tasks e in
      absurd (omega (arith, h.no_tasks))
