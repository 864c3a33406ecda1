-- ===== src/Scoring.antt =====
-- services/auction_service/score_ads_reactor.{h,cc} and the parser of scoring results in
-- services/auction_service/utils/proto_utils.cc: how the auction service turns the results of the
-- seller's scoreAd() into a winner. Logging and metrics are left out.
pub mod Parse
pub mod Requests
pub mod Dispatched
pub mod Execution
pub mod Handle
pub mod Loop
pub mod Others
pub mod Callback
pub mod Listed
pub mod Outcomes
pub mod Ranges
pub mod Steps
pub mod Leading
pub mod Winner
pub mod Urls
pub mod Totals
use bas_dev.Common.{
  ℕ, ◌≡◌, Bool, true, false, not, ◌&&◌, ◌||◌, String, List, [], ◌∷◌, Option, none, some, ◌==◌,
  string_eq, is_empty, if◌then◌else◌,
}
use bas_dev.Common.Float.{Float}
use bas_dev.Api.{
  AdScore, AdRejectionReason, AdWithBidMetadata, ProtectedAppSignalsAdWithBidMetadata,
}
use bas_dev.Scope.{AuctionScope, is_component}

-- What a reactor holds while it scores: the request's seller currency, its scope, the limits on
-- debug URLs, and the ads by the id of their dispatch request.
pub record Reactor (W : Type 0) : Type 0 where
  pub auction_scope : AuctionScope
  pub seller_currency : String
  pub max_allowed_size_debug_url_chars : ℕ
  pub max_allowed_size_all_debug_urls_chars : ℕ
  pub ad_data : List (String × AdWithBidMetadata W)
  pub protected_app_signals_ad_data : List (String × ProtectedAppSignalsAdWithBidMetadata W)

-- `ScoringData`. The hash map from scores to indices is an association list in the order of
-- insertion.
pub record ScoringData (W : Type 0) : Type 0 where
  pub index_of_most_desirable_ad : ℕ
  pub seller_rejected_bid_count : ℕ
  pub score_ad_map : List (W × List ℕ)
  pub desirability_of_most_desirable_ad : W
  pub ad_rejection_reasons : List AdRejectionReason
  pub winning_ad : Option (AdScore W)

-- A response of the dispatcher that is not an error.
pub record DispatchResponse : Type 0 where
  pub id : String
  pub resp : String

module _ {W : Type 0} ⦃f : Float W⦄ where
  open f use {nought, currency_epsilon, le, gt, minus, fabsf}

  unfoldable pub is_incoming_bid_in_seller_currency_illegally_modified :
      String → String → W → W → Bool
  is_incoming_bid_in_seller_currency_illegally_modified seller_currency ad_with_bid_currency
        incoming_bid_in_seller_currency buyer_bid =
      not (is_empty seller_currency)
      && not (is_empty ad_with_bid_currency)
      && seller_currency == ad_with_bid_currency
      && gt incoming_bid_in_seller_currency currency_epsilon
      && gt (fabsf (minus incoming_bid_in_seller_currency buyer_bid)) currency_epsilon

  unfoldable pub is_bid_currency_mismatched : AuctionScope → String → W → String → Bool
  is_bid_currency_mismatched auction_scope seller_currency modified_bid modified_bid_currency =
      is_component auction_scope
      && not (is_empty seller_currency)
      && gt modified_bid nought
      && not (is_empty modified_bid_currency)
      && not (modified_bid_currency == seller_currency)

  -- The new ad score. (The Boolean result is only logged.)
  unfoldable pub check_and_update_modified_bid : AuctionScope → W → String → AdScore W → AdScore W
  check_and_update_modified_bid auction_scope buyer_bid ad_with_bid_currency ad_score =
      if is_component auction_scope && le ad_score.bid nought
      then if gt buyer_bid nought
        then record ad_score { bid = buyer_bid; bid_currency = ad_with_bid_currency }
        else ad_score
      else ad_score
