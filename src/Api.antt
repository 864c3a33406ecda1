-- ===== src/Api.antt =====
-- Messages of api/bidding_auction_servers.proto, with the fields that the modelled code reads. An
-- unset field has its proto3 default; a submessage whose presence matters is an `Option`. `W` is
-- the type of floats.
use bas_dev.Common.{Bool, String, List, Option}

pub data ClientType : Type 0 where
  client_type_unknown client_type_android client_type_browser : ClientType

pub data AdType : Type 0 where
  ad_type_unknown ad_type_protected_audience_ad ad_type_protected_app_signals_ad : AdType

-- A component auction result as a seller frontend receives it.
pub record EncryptedAuctionResult : Type 0 where
  pub auction_result_ciphertext : String
  pub key_id : String

-- SelectAdRequest, as far as it is not encrypted.
pub record SelectAdRequest : Type 0 where
  pub protected_auction_ciphertext : String
  pub protected_audience_ciphertext : String
  pub seller_signals : String
  pub auction_signals : String
  pub seller : String
  pub client_type : ClientType
  pub component_auction_results : List EncryptedAuctionResult

-- AuctionResult, with `auction_params`, `error.message` and the reporting URL of the top-level
-- seller as fields of its own.
pub record AuctionResult (W : Type 0) : Type 0 where
  pub ad_render_url : String
  pub ad_component_render_urls : List String
  pub interest_group_name : String
  pub interest_group_owner : String
  pub bid : W
  pub bid_currency : String
  pub ad_metadata : String
  pub is_chaff : Bool
  pub error_message : String
  pub ad_type : AdType
  pub top_level_seller : String
  pub ciphertext_generation_id : String
  pub component_seller : String
  pub top_level_reporting_url : String

-- The rejection reasons of the proto, in the order of its numbers.
pub data SellerRejectionReason : Type 0 where
  seller_rejection_reason_not_available : SellerRejectionReason
  invalid_bid bid_below_auction_floor pending_approval_by_exchange : SellerRejectionReason
  disapproved_by_exchange blocked_by_publisher language_exclusions : SellerRejectionReason
  category_exclusions bid_from_generate_bid_failed_currency_check : SellerRejectionReason
  bid_from_score_ad_failed_currency_check : SellerRejectionReason

pub record AdRejectionReason : Type 0 where
  pub interest_group_owner : String
  pub interest_group_name : String
  pub rejection_reason : SellerRejectionReason

pub record DebugReportUrls : Type 0 where
  pub auction_debug_win_url : String
  pub auction_debug_loss_url : String

-- ScoreAdsResponse.AdScore. The map of other bids has an entry for each owner, in an order that a
-- protobuf map does not fix.
pub record AdScore (W : Type 0) : Type 0 where
  pub desirability : W
  pub render : String
  pub component_renders : List String
  pub interest_group_name : String
  pub buyer_bid : W
  pub buyer_bid_currency : String
  pub interest_group_owner : String
  pub interest_group_origin : String
  pub allow_component_auction : Bool
  pub ad_metadata : String
  pub bid : W
  pub bid_currency : String
  pub incoming_bid_in_seller_currency : W
  pub ig_owner_highest_scoring_other_bids_map : List (String × List W)
  pub debug_report_urls : Option DebugReportUrls
  pub ad_rejection_reasons : List AdRejectionReason
  pub ad_type : AdType

-- ScoreAdsRawRequest.AdWithBidMetadata.
pub record AdWithBidMetadata (W : Type 0) : Type 0 where
  pub bid : W
  pub bid_currency : String
  pub render : String
  pub ad_components : List String
  pub interest_group_name : String
  pub interest_group_owner : String
  pub interest_group_origin : String

-- ScoreAdsRawRequest.ProtectedAppSignalsAdWithBidMetadata.
pub record ProtectedAppSignalsAdWithBidMetadata (W : Type 0) : Type 0 where
  pub bid : W
  pub bid_currency : String
  pub render : String
  pub owner : String
