-- ===== src/GetBids/Unanswered.antt =====
-- Requests whose input for protected app signals has no signals: their task is counted and never
-- completed.
use bas_dev.Common.{
  inr, inl, ◌∙◌, ℕ, zero, suc, ◌≤◌, ◌≡◌, refl, ap, Bool, false, not, ◌&&◌, String, List, [], Option,
  none, some, is_empty, ◌==◌, nat_eq, arith, Bool-cases, Option-cases,
}
use bas_dev.Common.Int.{pos}
use bas_dev.TaskTracker.{TaskStatus, empty_response, error, success, set_num_tasks_to_track}
use bas_dev.SelectAd.Messages.{GetBidsRawRequest}
use bas_dev.SelectAd.Services.{StatusOr, value, failure}
use bas_dev.SelectAd.Currency.{empty}
use bas_dev.GetBids.{
  BuyerServices, GetBidsReactor, Gathered, no_call, signals_calls, has_signals, push_error,
  complete_task, get_number_of_bidding_calls, handle_single_bid_completion, on_bidding_signals,
  may_get_protected_audience_bids, may_get_protected_signals_bids, new_reactor, execute_decrypted,
}
use bas_dev.GetBids.Steps.{
  Step, signals_called, signals_came, bids_came, app_bids_came, Run, started, then_step,
}
use bas_dev.GetBids.Phases.{complete_task-more}
use bas_dev.GetBids.Tasks.{audience_tasks}

module _ {W : Type 0} (services : BuyerServices W) where
  abbrev HasNoSignals : GetBidsRawRequest → Type 0
  HasNoSignals raw_request = has_signals services raw_request ≡ false

  -- More tasks are pending than steps are to complete.
  record IsStuck (n : ℕ) (r : GetBidsReactor W) : Type 0 where
    pub pending : r.tracker.pending_tasks_count ≡ pos (suc n)
    pub fewer : audience_tasks r.audience ≤ n
    pub not_awaited : r.app_awaited ≡ false
    pub open_still : r.finished ≡ []
    pub no_signals : HasNoSignals r.raw_request

  completed-IsStuck :
      (status : TaskStatus) (g : Option (Gathered W → Gathered W)) (is_cancelled : Bool) (n : ℕ)
      (r : GetBidsReactor W)
      → r.audience ≡ no_call
      → IsStuck (suc n) r
      → IsStuck n (complete_task services status g is_cancelled r)
  completed-IsStuck status g is_cancelled n r e h =
      let (p, a, b, c, d, f) = complete_task-more services status g is_cancelled n r h.pending in
      let not_awaited = h.not_awaited in
      let open_still = h.open_still in
      let no_signals = h.no_signals in
      let none_called : audience_tasks (complete_task services status g is_cancelled r).audience
          ≡ 0 =
        ap audience_tasks (a ∙ e) in
      record {
        pending = p;
        fewer = omega (arith, none_called);
        not_awaited = cc;
        open_still = cc;
        no_signals = cc;
      }

  handled-IsStuck :
      {B : Type 0} (result : StatusOr (List B)) (swap : List B → Gathered W → Gathered W)
      (is_cancelled : Bool) (n : ℕ) (r : GetBidsReactor W)
      → r.audience ≡ no_call
      → IsStuck (suc n) r
      → IsStuck n (handle_single_bid_completion services result swap is_cancelled r)
  unfolding handle_single_bid_completion
  handled-IsStuck (failure status) swap is_cancelled n r e h =
      completed-IsStuck error (some (push_error services status.message)) is_cancelled n r e h
  handled-IsStuck (value bids) swap is_cancelled n r e h = elim (Bool-cases (empty bids)) [
    | inl no_bids ↦
        rw (handle_single_bid_completion, no_bids)
          (completed-IsStuck empty_response none is_cancelled n r e h)
    | inr some_bids ↦
        rw (handle_single_bid_completion, some_bids)
          (completed-IsStuck success (some (swap bids)) is_cancelled n r e h)
  ]

  taken-IsStuck :
      (n : ℕ) (r : GetBidsReactor W) → IsStuck n r → IsStuck n (record r { audience = no_call })
  taken-IsStuck n r h = record {
    pending = h.pending;
    fewer = omega arith;
    not_awaited = h.not_awaited;
    open_still = h.open_still;
    no_signals = h.no_signals;
  }

  signals-IsStuck :
      (result : StatusOr String) (is_cancelled : Bool) (n : ℕ) (r : GetBidsReactor W)
      → r.audience ≡ no_call
      → IsStuck (suc n) r
      → (m : ℕ) × IsStuck m (on_bidding_signals services result is_cancelled r)
  unfolding on_bidding_signals
  signals-IsStuck (failure status) is_cancelled n r e h =
      (n, completed-IsStuck error (some (push_error services status.message)) is_cancelled n r e h)
  signals-IsStuck (value signals) is_cancelled n r e h = elim (Bool-cases (is_empty signals)) [
    | inl none_there ↦
        rw (on_bidding_signals, none_there)
          (n, completed-IsStuck empty_response none is_cancelled n r e h)
    | inr there ↦ elim (Option-cases (services.call_bidding r.raw_request signals)) [
      | inr (message, refused) ↦
          rw (on_bidding_signals, there, refused)
            (n, completed-IsStuck error (some (push_error services message)) is_cancelled n r e h)
      | inl called ↦
          rw (on_bidding_signals, there, called)
            (
              suc n,
              record {
                pending = h.pending;
                fewer = omega arith;
                not_awaited = h.not_awaited;
                open_still = h.open_still;
                no_signals = h.no_signals;
              },
            )
    ]
  ]

  called-IsStuck :
      (is_cancelled : Bool) (n : ℕ) (r : GetBidsReactor W)
      → IsStuck n r
      → IsStuck n
          (may_get_protected_signals_bids services is_cancelled (record r { signals_due = false }))
  unfolding may_get_protected_signals_bids
  called-IsStuck is_cancelled n r h =
      let no_signals = h.no_signals in
      let skip : (services.is_protected_app_signals_enabled && has_signals services r.raw_request)
          ≡ false =
        ground arith in
      rw (may_get_protected_signals_bids, skip)
        (record {
          pending = h.pending;
          fewer = h.fewer;
          not_awaited = h.not_awaited;
          open_still = h.open_still;
          no_signals = h.no_signals;
        })

  more_than_one : (n m : ℕ) → m ≡ 1 → m ≤ n → (k : ℕ) × (n ≡ suc k)
  more_than_one zero m e l = absurd (omega (arith, e, l))
  more_than_one (suc k) m e l = (k, refl)

  Step-IsStuck :
      {r r' : GetBidsReactor W} (n : ℕ) → IsStuck n r → Step services r r' → (m : ℕ) × IsStuck m r'
  Step-IsStuck n h (signals_called r is_cancelled due) = (n, called-IsStuck is_cancelled n r h)
  Step-IsStuck zero h (signals_came r result is_cancelled e) =
      let one : audience_tasks r.audience ≡ 1 = ap audience_tasks e in
      absurd (omega (arith, h.fewer))
  Step-IsStuck (suc n) h (signals_came r result is_cancelled e) =
      signals-IsStuck result is_cancelled n (record r { audience = no_call }) refl
        (taken-IsStuck (suc n) r h)
  Step-IsStuck zero h (bids_came r result is_cancelled e) =
      let one : audience_tasks r.audience ≡ 1 = ap audience_tasks e in
      absurd (omega (arith, h.fewer))
  Step-IsStuck (suc n) h (bids_came r result is_cancelled e) = (
    n,
    handled-IsStuck result _ is_cancelled n (record r { audience = no_call }) refl
        (taken-IsStuck (suc n) r h),
  )
  Step-IsStuck n h (app_bids_came r result is_cancelled e) =
      let not_awaited = h.not_awaited in absurd (ground arith)

  Run-IsStuck :
      {n : ℕ} {r r' : GetBidsReactor W}
      → (m : ℕ) × IsStuck m r
      → Run services n r r'
      → (m : ℕ) × IsStuck m r'
  Run-IsStuck h (started r) = h
  Run-IsStuck h (then_step run step) =
      let (m, stuck) = Run-IsStuck h run in Step-IsStuck m stuck step

  execute-IsStuck :
      (raw_request : GetBidsRawRequest)
      → signals_calls services raw_request ≡ 1
      → HasNoSignals raw_request
      → (m : ℕ) × IsStuck m (execute_decrypted services raw_request)
  unfolding execute_decrypted new_reactor set_num_tasks_to_track may_get_protected_audience_bids
      get_number_of_bidding_calls
  execute-IsStuck raw_request one no_signals =
      let calls = get_number_of_bidding_calls services raw_request in
      let some_calls : (calls == 0) ≡ false = ground arith in
      elim (Bool-cases (
        services.is_protected_audience_enabled
        && not (empty raw_request.buyer_input.interest_groups))) [
          | inl audience ↦
              rw (execute_decrypted, some_calls, audience)
                (
                  1,
                  record {
                    pending = ap pos (omega (arith, one));
                    fewer = omega arith;
                    not_awaited = refl;
                    open_still = refl;
                    no_signals = no_signals;
                  },
                )
          | inr no_audience ↦
              rw (execute_decrypted, some_calls, no_audience)
                (
                  0,
                  record {
                    pending = ap pos (omega (arith, one));
                    fewer = omega arith;
                    not_awaited = refl;
                    open_still = refl;
                    no_signals = no_signals;
                  },
                )
        ]

  -- The RPC is never finished, in any run, for a request with an input for protected app signals
  -- that has no such signals, if protected app signals are enabled.
  pub Run-unanswered :
      (raw_request : GetBidsRawRequest)
      → signals_calls services raw_request ≡ 1
      → has_signals services raw_request ≡ false
      → {n : ℕ} (r : GetBidsReactor W) → Run services n (execute_decrypted services raw_request) r
      → r.finished ≡ []
  Run-unanswered raw_request one no_signals r run =
      let (m, stuck) = Run-IsStuck (execute-IsStuck raw_request one no_signals) run in
      stuck.open_still
