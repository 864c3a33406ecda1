-- ===== src/SelectAd/Messages.antt =====
-- The messages of api/bidding_auction_servers.proto that the seller frontend reads and writes, with
-- the fields that the modelled code uses. A field without presence has its proto3 default when it
-- is unset; a protobuf map is an association list, in the order in which the code iterates. `W` is
-- the type of the numbers that are only handed on (`float` and `double`).
use bas_dev.Common.{Bool, String, List, Option}
use bas_dev.Common.Int.{ℤ}
use bas_dev.Api.{ClientType, DebugReportUrls}
use bas_dev.Json.{Json}

pub record BrowserSignals : Type 0 where
  pub join_count : ℤ
  pub recency : ℤ
  pub recency_ms : Option ℤ

pub record InterestGroup : Type 0 where
  pub name : String
  pub origin : String
  pub browser_signals : BrowserSignals

-- `app_install_signals` is all that ProtectedAppSignals is tested for.
pub record BuyerInput : Type 0 where
  pub interest_groups : List InterestGroup
  pub protected_app_signals : Option String

pub record PerBuyerConfig : Type 0 where
  pub buyer_signals : String
  pub buyer_kv_experiment_group_id : Option ℤ
  pub buyer_debug_id : String
  pub buyer_currency : String
  pub contextual_protected_app_signals_data : Option (List String)

pub record AuctionConfig : Type 0 where
  pub seller_signals : String
  pub auction_signals : String
  pub buyer_list : List String
  pub seller : String
  pub per_buyer_config : List (String × PerBuyerConfig)
  pub seller_debug_id : String
  pub top_level_seller : String
  pub seller_currency : String

-- ProtectedAuctionInput and ProtectedAudienceInput, which have the same fields for this code.
pub record ProtectedAuctionInput : Type 0 where
  pub publisher_name : String
  pub enable_debug_reporting : Bool
  pub generation_id : String
  pub consented_debug_config : Option String
  pub enable_unlimited_egress : Bool

pub record LogContext : Type 0 where
  pub generation_id : String
  pub adtech_debug_id : String

-- `ad` is a google.protobuf.Value, which holds a JSON document.
pub record AdWithBid (W : Type 0) : Type 0 where
  pub ad : Option (Json W)
  pub bid : W
  pub render : String
  pub ad_components : List String
  pub allow_component_auction : Bool
  pub interest_group_name : String
  pub ad_cost : W
  pub debug_report_urls : Option DebugReportUrls
  pub modeling_signals : ℤ
  pub bid_currency : String
  pub buyer_reporting_id : String

pub record ProtectedAppSignalsAdWithBid (W : Type 0) : Type 0 where
  pub ad : Option (Json W)
  pub bid : W
  pub render : String
  pub ad_cost : W
  pub modeling_signals : ℤ
  pub bid_currency : String
  pub egress_payload : String
  pub temporary_unlimited_egress_payload : String

pub record GetBidsRawResponse (W : Type 0) : Type 0 where
  pub bids : List (AdWithBid W)
  pub protected_app_signals_bids : List (ProtectedAppSignalsAdWithBid W)

-- ProtectedAppSignalsBuyerInput.
pub record AppSignalsBuyerInput : Type 0 where
  pub protected_app_signals : Option String
  pub contextual_protected_app_signals_data : Option (List String)

pub record GetBidsRawRequest : Type 0 where
  pub is_chaff : Bool
  pub buyer_input : BuyerInput
  pub auction_signals : String
  pub buyer_signals : String
  pub seller : String
  pub publisher_name : String
  pub enable_debug_reporting : Bool
  pub log_context : LogContext
  pub consented_debug_config : Option String
  pub protected_app_signals_buyer_input : Option AppSignalsBuyerInput
  pub client_type : ClientType
  pub top_level_seller : String
  pub buyer_kv_experiment_group_id : Option ℤ
  pub enable_unlimited_egress : Bool

-- ScoreAdsRawRequest.AdWithBidMetadata and ProtectedAppSignalsAdWithBidMetadata, in full.
pub record AdToScore (W : Type 0) : Type 0 where
  pub ad : Option (Json W)
  pub bid : W
  pub render : String
  pub ad_components : List String
  pub allow_component_auction : Bool
  pub interest_group_name : String
  pub interest_group_owner : String
  pub join_count : ℤ
  pub recency : ℤ
  pub modeling_signals : ℤ
  pub ad_cost : W
  pub bid_currency : String
  pub interest_group_origin : String
  pub buyer_reporting_id : String

pub record AppSignalsAdToScore (W : Type 0) : Type 0 where
  pub ad : Option (Json W)
  pub bid : W
  pub render : String
  pub modeling_signals : ℤ
  pub ad_cost : W
  pub owner : String
  pub bid_currency : String
  pub egress_payload : String
  pub temporary_unlimited_egress_payload : String

pub record ScoreAdsRawRequest (W : Type 0) : Type 0 where
  pub ad_bids : List (AdToScore W)
  pub protected_app_signals_ad_bids : List (AppSignalsAdToScore W)
  pub seller_signals : String
  pub auction_signals : String
  pub scoring_signals : Option String
  pub publisher_hostname : String
  pub enable_debug_reporting : Bool
  pub log_context : LogContext
  pub per_buyer_signals : List (String × String)
  pub consented_debug_config : Option String
  pub seller : String
  pub top_level_seller : String
  pub seller_currency : String
