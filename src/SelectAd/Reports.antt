-- ===== src/SelectAd/Reports.antt =====
-- `PerformDebugReporting` of services/seller_frontend_service/select_ad_reactor.cc: the URLs that
-- are fetched, in order. The metrics, the logging and the callbacks of the requests are left out.
use bas_dev.Common.{
  Bool, ◌&&◌, String, List, [], ◌∷◌, ◌++◌, Option, none, some, ◌==◌, string_eq, is_empty,
  if◌then◌else◌,
}
use bas_dev.Common.Float.{Float}
use bas_dev.Api.{AdScore, DebugReportUrls}
use bas_dev.Signals.{
  PostAuctionSignals, generate_post_auction_signals, get_placeholder_data_for_interest_group,
  create_debug_reporting_url,
}
use bas_dev.SelectAd.Messages.{AdWithBid, ProtectedAuctionInput}
use bas_dev.SelectAd.Currency.{BuyerBids}
use bas_dev.SelectAd.Services.{Services}

module _ {W : Type 0} ⦃f : Float W⦄ (services : Services W) (signals : PostAuctionSignals W) where
  -- Whether the bid is the winner, and the URL for what it is.
  abbrev pub is_win : String → AdWithBid W → Bool
  is_win ig_owner ad =
      signals.winning_ig_owner == ig_owner && ad.interest_group_name == signals.winning_ig_name

  abbrev pub debug_url : Bool → DebugReportUrls → String
  debug_url win urls = if win then urls.auction_debug_win_url else urls.auction_debug_loss_url

  -- The reports of one bid.
  unfoldable pub report_bid : String → AdWithBid W → List String
  report_bid ig_owner ad = elim ad.debug_report_urls [
    | none ↦ []
    | some urls ↦
        let win = is_win ig_owner ad in
        let url = debug_url win urls in
        let placeholder =
          get_placeholder_data_for_interest_group ig_owner ad.interest_group_name signals in
        if is_empty url
        then []
        else create_debug_reporting_url services.format services.str_replace_all url placeholder win
          ∷ []
  ]

  unfoldable pub report_bids : String → List (AdWithBid W) → List String
  report_bids ig_owner [] = []
  report_bids ig_owner (ad ∷ ads) = report_bid ig_owner ad ++ report_bids ig_owner ads

  unfoldable pub report_buyers : BuyerBids W → List String
  report_buyers [] = []
  report_buyers ((ig_owner, response) ∷ later) =
      report_bids ig_owner response.bids ++ report_buyers later

unfoldable pub report_to_buyers :
    {W : Type 0} ⦃f : Float W⦄
    → Services W
    → ProtectedAuctionInput
    → String
    → Option (AdScore W)
    → BuyerBids W
    → List String
report_to_buyers services input seller_currency high_score buyer_bids =
    if input.enable_debug_reporting
    then report_buyers services (generate_post_auction_signals high_score seller_currency)
        buyer_bids
    else []
