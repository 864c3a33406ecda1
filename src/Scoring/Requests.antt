-- ===== src/Scoring/Requests.antt =====
-- The dispatch requests that `Execute` makes of the bids of a request, and of component auction results:
-- `PopulateTopLevelAuctionDispatchRequests`, `PopulateProtectedAudienceDispatchRequests` and
-- `MayPopulateProtectedAppSignalsDispatchRequests` of score_ads_reactor.cc, and of
-- utils/proto_utils.{h,cc} what they call. The inputs of a dispatch request other than its id are left
-- out. `BuildScoreAdRequest` of an ad fails where `MessageToJsonString` of protobuf does, which is the
-- parameter `serializes`; the overload for a component auction result has no error path.
use bas_dev.Common.{
  ◌&&◌, Bool, ◌||◌, String, List, [], ◌∷◌, ◌++◌, Option, none, some, ◌==◌, string_eq, is_empty,
  if◌then◌else◌, contains, emplace,
}
use bas_dev.Api.{AuctionResult, AdWithBidMetadata, ProtectedAppSignalsAdWithBidMetadata}

-- The ads by the id of their request, and the ids of `dispatch_requests_`.
pub record Dispatch (W : Type 0) : Type 0 where
  pub ad_data : List (String × AdWithBidMetadata W)
  pub protected_app_signals_ad_data : List (String × ProtectedAppSignalsAdWithBidMetadata W)
  pub dispatch_requests : List String

module _ {W : Type 0} where
  abbrev pub no_dispatch : Dispatch W
  no_dispatch = record { ad_data = []; protected_app_signals_ad_data = []; dispatch_requests = [] }

  unfoldable pub map_auction_result_to_ad_with_bid_metadata : AuctionResult W → AdWithBidMetadata W
  map_auction_result_to_ad_with_bid_metadata auction_result = record {
    bid = auction_result.bid;
    bid_currency = auction_result.bid_currency;
    render = auction_result.ad_render_url;
    ad_components = auction_result.ad_component_render_urls;
    interest_group_name = auction_result.interest_group_name;
    interest_group_owner = auction_result.interest_group_owner;
    interest_group_origin = "";
  }

  -- `emplace` and, where it inserted, `push_back`.
  unfoldable pub dispatch_ad : String → AdWithBidMetadata W → Dispatch W → Dispatch W
  dispatch_ad id ad d = if contains id d.ad_data then d else record d {
    ad_data = emplace id ad d.ad_data;
    dispatch_requests = d.dispatch_requests ++ id ∷ [];
  }

  unfoldable pub dispatch_app_signals_ad :
      String → ProtectedAppSignalsAdWithBidMetadata W → Dispatch W → Dispatch W
  dispatch_app_signals_ad id ad d =
      if contains id d.protected_app_signals_ad_data then d else record d {
        protected_app_signals_ad_data = emplace id ad d.protected_app_signals_ad_data;
        dispatch_requests = d.dispatch_requests ++ id ∷ [];
      }

  -- A result that takes no part.
  abbrev pub is_skipped : AuctionResult W → Bool
  is_skipped auction_result = auction_result.is_chaff || is_empty auction_result.component_seller

  -- The loop with its `generation_id`; `none` is the error of mismatched generation ids.
  unfoldable pub top_level_loop : String → List (AuctionResult W) → Dispatch W → Option (Dispatch W)
  top_level_loop generation_id [] d = some d
  top_level_loop generation_id (result ∷ results) d =
      let dispatched =
        dispatch_ad result.ad_render_url (map_auction_result_to_ad_with_bid_metadata result) d in
      let skipping = top_level_loop generation_id results d in
      let starting = top_level_loop result.ciphertext_generation_id results dispatched in
      let continuing = top_level_loop generation_id results dispatched in
      if is_skipped result
      then skipping
      else if is_empty generation_id
      then starting
      else if generation_id == result.ciphertext_generation_id
      then continuing
      else none

  unfoldable pub populate_top_level_auction_dispatch_requests :
      List (AuctionResult W) → Dispatch W → Option (Dispatch W)
  populate_top_level_auction_dispatch_requests = top_level_loop ""

  -- The loops take the ads from the back; the lists here are in the order of the loops.
  -- `scoring_signals` is the test whether the map of the signals has a render URL.
  unfoldable pub populate_protected_audience_dispatch_requests :
      (AdWithBidMetadata W → Bool)
      → (String → Bool)
      → List (AdWithBidMetadata W)
      → Dispatch W
      → Dispatch W
  populate_protected_audience_dispatch_requests serializes scoring_signals [] d = d
  populate_protected_audience_dispatch_requests serializes scoring_signals (ad ∷ ads) d =
      populate_protected_audience_dispatch_requests serializes scoring_signals ads
        (if scoring_signals ad.render && serializes ad then dispatch_ad ad.render ad d else d)

  unfoldable pub may_populate_protected_app_signals_dispatch_requests :
      (ProtectedAppSignalsAdWithBidMetadata W → Bool)
      → (String → Bool)
      → List (ProtectedAppSignalsAdWithBidMetadata W)
      → Dispatch W
      → Dispatch W
  may_populate_protected_app_signals_dispatch_requests serializes scoring_signals [] d = d
  may_populate_protected_app_signals_dispatch_requests serializes scoring_signals (ad ∷ ads) d =
      may_populate_protected_app_signals_dispatch_requests serializes scoring_signals ads (
        if scoring_signals ad.render && serializes ad
        then dispatch_app_signals_ad ad.render ad d
        else d)
