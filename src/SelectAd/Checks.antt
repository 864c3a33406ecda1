-- ===== src/SelectAd/Checks.antt =====
-- The checks of a request in services/seller_frontend_service/select_ad_reactor.{h,cc}. What
-- `std::regex_match` says of a currency and the seller's own domain are parameters.
pub mod Passed
pub mod Inputs
use Prim.Native.String
use bas_dev.Common.{
  ◌≡◌, Bool, true, false, not, ◌&&◌, ◌||◌, String, List, [], ◌∷◌, ◌++◌, Option, none, some, ◌==◌,
  string_eq, is_empty, if◌then◌else◌,
}
use bas_dev.Api.{ClientType, client_type_unknown, client_type_android}
use bas_dev.Scope.{AuctionScope, is_device_component}
use bas_dev.Validation.{Checks}
use bas_dev.Errors.{
  ErrorVisibility, client_visible, ad_server_visible, client_side, ErrorAccumulator, Messages,
  emplace_message, error_delimiter, str_join, report_error, get_errors,
  get_accumulated_error_string,
}
use bas_dev.SelectAd.Messages.{BuyerInput, PerBuyerConfig, AuctionConfig, ProtectedAuctionInput}
use bas_dev.SelectAd.Currency.{empty}

-- The calls of `ReportError` with one visibility, on the side of the client.
unfoldable pub report_failed : ErrorVisibility → Checks → ErrorAccumulator → ErrorAccumulator
report_failed visibility [] errors = errors
report_failed visibility ((has_error, msg) ∷ checks) errors =
    report_failed visibility checks
      (if has_error then report_error visibility msg client_side errors else errors)

-- `HaveClientVisibleErrors` and `HaveAdServerVisibleErrors`.
unfoldable pub have_errors : ErrorVisibility → ErrorAccumulator → Bool
have_errors visibility errors = not (empty (get_errors errors visibility))

abbrev is_unknown : ClientType → Bool
is_unknown client_type_unknown = true
is_unknown _ = false

abbrev is_android : ClientType → Bool
is_android client_type_android = true
is_android _ = false

unfoldable pub client_checks : ClientType → AuctionScope → Checks
client_checks client_type auction_scope =
    (is_unknown client_type, "Unknown client type in SelectAdRequest")
    ∷ (
      is_android client_type && is_device_component auction_scope,
      "Device orchestrated Component Auctions not supported for Android",
    )
    ∷ []

module _ (is_currency_code : String → Bool) where
  -- A currency, when it is set, is checked for its form.
  abbrev pub is_wrong_currency : String → Bool
  is_wrong_currency currency = not (is_empty currency) && not (is_currency_code currency)

  -- The loop over the configurations of the buyers.
  unfoldable pub buyer_checks : List (String × PerBuyerConfig) → Checks
  buyer_checks [] = []
  buyer_checks ((buyer, config) ∷ later) =
      (is_empty buyer, "One or more buyer keys are empty in per buyer config map")
      ∷ (
        is_empty config.buyer_signals,
        String.◌++◌ "Buyer signals missing in auction config for buyer: " buyer,
      )
      ∷ (is_wrong_currency config.buyer_currency, "Invalid Buyer Currency")
      ∷ buyer_checks later

  unfoldable pub config_checks : AuctionConfig → String → Checks
  config_checks config seller_origin_domain =
      (is_empty config.seller_signals, "Seller signals missing in auction config")
      ∷ (is_empty config.auction_signals, "Auction signals missing in auction config")
      ∷ (empty config.buyer_list, "No buyers specified")
      ∷ (is_empty config.seller, "Seller origin missing in auction config")
      ∷ (is_wrong_currency config.seller_currency, "Invalid Seller Currency")
      ∷ (
        not (seller_origin_domain == config.seller),
        "Seller domain passed in request does not match this server's domain",
      )
      ∷ []

  -- `MayPopulateAdServerVisibleErrors`.
  unfoldable pub may_populate_ad_server_visible_errors :
      AuctionConfig → ClientType → AuctionScope → String → ErrorAccumulator → ErrorAccumulator
  may_populate_ad_server_visible_errors config client_type auction_scope seller_origin_domain
        errors =
      report_failed ad_server_visible (client_checks client_type auction_scope) (
        report_failed ad_server_visible (buyer_checks config.per_buyer_config)
          (report_failed ad_server_visible (config_checks config seller_origin_domain) errors))

-- The loop over the buyer inputs: `is_any_buyer_input_valid` and `observed_errors`.
abbrev has_no_input : BuyerInput → Bool
has_no_input input =
    empty input.interest_groups && elim input.protected_app_signals [ none ↦ true | some _ ↦ false ]

abbrev insert_if : Bool → String → Messages → Messages
insert_if b msg errors = if b then emplace_message msg errors else errors

unfoldable pub observe_inputs : List (String × BuyerInput) → Bool × Messages → Bool × Messages
observe_inputs [] state = state
observe_inputs ((buyer, input) ∷ later) (valid, observed) = observe_inputs later (
  valid || not (is_empty buyer || has_no_input input),
  insert_if (has_no_input input)
      (String.◌++◌ "Request is missing interest groups and protected signals for buyer: " buyer)
      (insert_if (is_empty buyer) "One or more interest group owner name is empty in buyer inputs"
        observed),
)

-- `ValidateProtectedAuctionInput`.
unfoldable pub input_checks : ProtectedAuctionInput → List (String × BuyerInput) → Checks
input_checks protected_input buyer_inputs =
    let (valid, observed) = observe_inputs buyer_inputs (false, []) in
    (is_empty protected_input.generation_id, "Request is missing generation ID")
    ∷ (is_empty protected_input.publisher_name, "Request is missing publisher name")
    ∷ (empty buyer_inputs, "Request is missing buyer inputs")
    ∷ (
      not (empty buyer_inputs) && not valid,
      String.◌++◌ "BuyerInput map is present but malformed: " (str_join observed error_delimiter),
    )
    ∷ []

unfoldable pub validate_protected_auction_input :
    ProtectedAuctionInput → List (String × BuyerInput) → ErrorAccumulator → ErrorAccumulator
validate_protected_auction_input protected_input buyer_inputs =
    report_failed client_visible (input_checks protected_input buyer_inputs)

-- `MayPopulateClientVisibleErrors`: the message of `error_`, when it is set.
unfoldable pub may_populate_client_visible_errors : ErrorAccumulator → Option String
may_populate_client_visible_errors errors =
    if have_errors client_visible errors
    then some (get_accumulated_error_string errors client_visible)
    else none
