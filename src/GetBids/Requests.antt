-- ===== src/GetBids/Requests.antt =====
-- services/buyer_frontend_service/util/proto_factory.cc: the request for bids of protected app signals.
use bas_dev.Common.{Bool, String, List, Option, none, some, is_empty, if◌then◌else◌}
use bas_dev.SelectAd.Messages.{LogContext, AppSignalsBuyerInput, GetBidsRawRequest}

-- GenerateProtectedAppSignalsBidsRawRequest. The code sets its ProtectedAppSignals in any case.
pub record GenerateAppSignalsBidsRawRequest : Type 0 where
  pub auction_signals : String
  pub buyer_signals : String
  pub protected_app_signals : String
  pub seller : String
  pub publisher_name : String
  pub log_context : LogContext
  pub consented_debug_config : Option String
  pub enable_debug_reporting : Bool
  pub contextual_protected_app_signals_data : Option (List String)
  pub enable_unlimited_egress : Bool

-- A field that is unset reads as its default.
abbrev pub signals_or_default : Option AppSignalsBuyerInput → String
signals_or_default none = ""
signals_or_default (some input) = elim input.protected_app_signals [
  | none ↦ ""
  | some signals ↦ signals
]

abbrev pub contextual_of : Option AppSignalsBuyerInput → Option (List String)
contextual_of none = none
contextual_of (some input) = input.contextual_protected_app_signals_data

unfoldable pub create_generate_app_signals_bids_raw_request :
    GetBidsRawRequest → GenerateAppSignalsBidsRawRequest
create_generate_app_signals_bids_raw_request raw_request = record {
  auction_signals = raw_request.auction_signals;
  buyer_signals = if is_empty raw_request.buyer_signals then "" else raw_request.buyer_signals;
  protected_app_signals = signals_or_default raw_request.protected_app_signals_buyer_input;
  seller = raw_request.seller;
  publisher_name = raw_request.publisher_name;
  log_context = raw_request.log_context;
  consented_debug_config = raw_request.consented_debug_config;
  enable_debug_reporting = raw_request.enable_debug_reporting;
  contextual_protected_app_signals_data =
      contextual_of raw_request.protected_app_signals_buyer_input;
  enable_unlimited_egress = raw_request.enable_unlimited_egress;
}
