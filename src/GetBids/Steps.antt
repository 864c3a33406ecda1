-- ===== src/GetBids/Steps.antt =====
-- The runs of the reactor: the last call of `Execute` and the responses, in any order in which they
-- can come.
use bas_dev.Common.{ℕ, suc, ◌≡◌, Bool, true, false, String, List}
use bas_dev.SelectAd.Messages.{AdWithBid, ProtectedAppSignalsAdWithBid}
use bas_dev.SelectAd.Services.{StatusOr}
use bas_dev.GetBids.{
  BuyerServices, GetBidsReactor, no_call, for_bidding_signals, for_bids, on_bidding_signals,
  handle_single_bid_completion, swap_bids, swap_app_bids, may_get_protected_signals_bids,
}

module _ {W : Type 0} (services : BuyerServices W) where
  pub data Step : GetBidsReactor W → GetBidsReactor W → Type 0 where
    signals_called :
        (r : GetBidsReactor W) (is_cancelled : Bool)
        → r.signals_due ≡ true
        → Step r (
            may_get_protected_signals_bids services is_cancelled (record r { signals_due = false }))
    signals_came :
        (r : GetBidsReactor W) (result : StatusOr String) (is_cancelled : Bool)
        → r.audience ≡ for_bidding_signals
        → Step r (on_bidding_signals services result is_cancelled (record r { audience = no_call }))
    bids_came :
        (r : GetBidsReactor W) (result : StatusOr (List (AdWithBid W))) (is_cancelled : Bool)
        → r.audience ≡ for_bids
        → Step r (
            handle_single_bid_completion services result
              (swap_bids services)
              is_cancelled
              (record r { audience = no_call }))
    app_bids_came :
        (r : GetBidsReactor W) (result : StatusOr (List (ProtectedAppSignalsAdWithBid W)))
        (is_cancelled : Bool)
        → r.app_awaited ≡ true
        → Step r (
            handle_single_bid_completion services result
              (swap_app_bids services)
              is_cancelled
              (record r { app_awaited = false }))

  -- A number of steps, one after the other.
  pub data Run : ℕ → GetBidsReactor W → GetBidsReactor W → Type 0 where
    started : (r : GetBidsReactor W) → Run 0 r r
    then_step : {n : ℕ} {r r' r'' : GetBidsReactor W} → Run n r r' → Step r' r'' → Run (suc n) r r''
