-- ===== src/GetBids/Finishes.antt =====
-- Every run of the reactor ends with the RPC finished once, but for requests with an empty input for
-- protected app signals, which are never answered.
use bas_dev.Common.{
  ℕ, ◌+◌, ◌≤◌, ◌≡◌, ◌⊎◌, inl, inr, refl, ap, false, not, ◌&&◌, [], ◌∷◌, ◌==◌, nat_eq, if◌then◌else◌,
  arith, Bool-cases,
}
use bas_dev.Common.Int.{pos}
use bas_dev.TaskTracker.{set_num_tasks_to_track}
use bas_dev.SelectAd.Messages.{GetBidsRawRequest}
use bas_dev.SelectAd.Services.{Status, value}
use bas_dev.SelectAd.Currency.{empty}
use bas_dev.GetBids.{
  BuyerServices, GetBidsReactor, AudienceCall, no_call, for_bidding_signals, for_bids,
  signals_calls, get_number_of_bidding_calls, may_get_protected_audience_bids, new_reactor,
  execute_decrypted,
}
use bas_dev.GetBids.Steps.{
  Step, signals_called, signals_came, bids_came, app_bids_came, Run, started, then_step,
}
use bas_dev.GetBids.Tasks.{IsAnswerable, rank, IsGood, GoodWithin, audience_tasks}
use bas_dev.GetBids.Tasks.{Progress}
use bas_dev.GetBids.Responses.{signals_came-IsGood, bids_came-IsGood, app_bids_came-IsGood}
use bas_dev.GetBids.Called.{waiting-Progress, over-Progress}

module _ {W : Type 0} (services : BuyerServices W) where
  Step-Progress :
      {r r' : GetBidsReactor W}
      → IsGood services r
      → Step services r r'
      → Progress services (rank services r) r'
  Step-Progress (inl (n, h)) (signals_called r is_cancelled due) =
      waiting-Progress services is_cancelled r due n h
  Step-Progress (inr h) (signals_called r is_cancelled due) =
      over-Progress services is_cancelled r due h
  Step-Progress h (signals_came r result is_cancelled e) =
      signals_came-IsGood services result is_cancelled r e h
  Step-Progress h (bids_came r result is_cancelled e) =
      bids_came-IsGood services result _ is_cancelled r e h
  Step-Progress h (app_bids_came r result is_cancelled e) =
      app_bids_came-IsGood services result _ is_cancelled r e h

  Run-Progress :
      {n : ℕ} {r r' : GetBidsReactor W}
      → IsGood services r
      → Run services n r r'
      → IsGood services r' × (n + rank services r' ≤ rank services r)
  Run-Progress h (started r) = (h, omega arith)
  Run-Progress h (then_step run step) =
      let (good, m) = Run-Progress h run in
      let (j, m', (good', m'')) = Step-Progress good step in (good', omega (arith, m, m', m''))

  -- What goes on from a state: the RPC is finished, or a step can be taken.
  abbrev pub GoesOn : GetBidsReactor W → Type 0
  GoesOn r =
      ((status : Status) × (r.finished ≡ status ∷ []))
      ⊎ ((r.finished ≡ []) × (r' : GetBidsReactor W) × Step services r r')

  good-GoesOn : (r : GetBidsReactor W) → IsGood services r → GoesOn r
  good-GoesOn r (inr h) = inl (h.status, h.finishes)
  good-GoesOn r (inl (n, h)) = elim (Bool-cases r.signals_due) [
    | inl due ↦ inr (h.open_still, _, signals_called r false due)
    | inr made ↦ elim (Bool-cases r.app_awaited) [
      | inl awaited ↦ inr (h.open_still, _, app_bids_came r (value []) false awaited)
      | inr none_awaited ↦ audience made none_awaited r.audience refl
    ]
  ]
    where
      audience :
          r.signals_due ≡ false
          → r.app_awaited ≡ false
          → (call : AudienceCall) → r.audience ≡ call
          → GoesOn r
      audience made none_awaited for_bidding_signals e =
          inr (h.open_still, _, signals_came r (value "") false e)
      audience made none_awaited for_bids e = inr (h.open_still, _, bids_came r (value []) false e)
      audience made none_awaited no_call e =
          let none_due : (if r.signals_due then signals_calls services r.raw_request else 0) ≡ 0 =
            rw made refl in
          let none_app : if◌then◌else◌ {A = ℕ} r.app_awaited 1 0 ≡ 0 = rw none_awaited refl in
          let none_audience : audience_tasks r.audience ≡ 0 = ap audience_tasks e in
          absurd (omega (arith, h.tasks))

  execute_decrypted-IsGood :
      (raw_request : GetBidsRawRequest)
      → IsAnswerable services raw_request
      → GoodWithin services 4 (execute_decrypted services raw_request)
  unfolding execute_decrypted new_reactor set_num_tasks_to_track may_get_protected_audience_bids
      get_number_of_bidding_calls
  execute_decrypted-IsGood raw_request answerable =
      let calls = get_number_of_bidding_calls services raw_request in
      elim (Bool-cases (calls == 0)) [
        | inl missing ↦
            rw (execute_decrypted, missing)
              (
                inr (record {
                  no_tasks = refl;
                  status = _;
                  finishes = refl;
                  answerable = answerable;
                }),
                omega arith,
              )
        | inr some_calls ↦
            let r = new_reactor services raw_request in
            elim (Bool-cases (
              services.is_protected_audience_enabled
              && not (empty raw_request.buyer_input.interest_groups))) [
                | inl audience ↦
                    rw (execute_decrypted, some_calls, audience)
                      (
                        inl (
                          signals_calls services raw_request,
                          record {
                            pending = ap pos (omega arith);
                            tasks = omega arith;
                            open_still = refl;
                            not_both = refl;
                            answerable = answerable;
                          },
                        ),
                        omega arith,
                      )
                | inr no_audience ↦
                    let one : signals_calls services raw_request ≡ 1 = ground arith in
                    rw (execute_decrypted, some_calls, no_audience)
                      (
                        inl (
                          0,
                          record {
                            pending = ap pos (omega (arith, one));
                            tasks = omega (arith, one);
                            open_still = refl;
                            not_both = refl;
                            answerable = answerable;
                          },
                        ),
                        omega arith,
                      )
              ]
      ]

  -- A run takes at most four steps after the first calls of Execute, if the request has protected
  -- app signals whenever it has an input for them and they are enabled. Wherever the run stands, the
  -- RPC is finished once, or it is not finished and a response or a call is still to come.
  pub Run-GoesOn :
      (raw_request : GetBidsRawRequest)
      → IsAnswerable services raw_request
      → {n : ℕ} (r : GetBidsReactor W) → Run services n (execute_decrypted services raw_request) r
      → (n ≤ 4) × GoesOn r
  Run-GoesOn raw_request answerable r run =
      let (good, m) = execute_decrypted-IsGood raw_request answerable in
      let (good', m') = Run-Progress good run in (omega (arith, m, m'), good-GoesOn r good')
