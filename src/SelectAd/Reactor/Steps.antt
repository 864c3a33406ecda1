-- ===== src/SelectAd/Reactor/Steps.antt =====
-- The runs of the reactor: the loop over the buyers and the responses of the services, in any order
-- in which they can come. A response of a buyer may come while the loop is still running. The
-- context may be cancelled at any step.
use bas_dev.Common.{ℕ, suc, ◌≡◌, Bool, String, List, ◌∷◌, ◌++◌, Option}
use bas_dev.Common.Float.{Float}
use bas_dev.Api.{AdScore}
use bas_dev.SelectAd.Messages.{GetBidsRawResponse}
use bas_dev.SelectAd.Services.{StatusOr, Request, Services}
use bas_dev.SelectAd.Reactor.{
  SelectAdReactor, idle, for_signals, for_scores, visit_buyer, on_fetch_bids_done,
  on_fetch_scoring_signals_done, on_score_ads_done,
}

module _ {W : Type 0} ⦃f : Float W⦄ (services : Services W) (request : Request) where
  pub data Step : SelectAdReactor W → SelectAdReactor W → Type 0 where
    buyer_visited :
        (r : SelectAdReactor W) (buyer : String) (later : List String) (is_cancelled : Bool)
        → r.to_visit ≡ buyer ∷ later
        → Step r (visit_buyer services request buyer is_cancelled (record r { to_visit = later }))
    bids_fetched :
        (r : SelectAdReactor W) (front : List String) (buyer : String) (back : List String)
        (response : StatusOr (GetBidsRawResponse W)) (is_cancelled : Bool)
        → r.called ≡ front ++ (buyer ∷ back)
        → Step r (
            on_fetch_bids_done services request response buyer is_cancelled
              (record r { called = front ++ back }))
    signals_fetched :
        (r : SelectAdReactor W) (result : StatusOr String)
        → r.waiting ≡ for_signals
        → Step r
            (on_fetch_scoring_signals_done services request result (record r { waiting = idle }))
    ads_scored :
        (r : SelectAdReactor W) (response : StatusOr (Option (AdScore W)))
        → r.waiting ≡ for_scores
        → Step r (on_score_ads_done services request response (record r { waiting = idle }))

  -- A number of steps, one after the other.
  pub data Run : ℕ → SelectAdReactor W → SelectAdReactor W → Type 0 where
    started : (r : SelectAdReactor W) → Run 0 r r
    then_step :
        {n : ℕ} {r r' r'' : SelectAdReactor W} → Run n r r' → Step r' r'' → Run (suc n) r r''
