-- ===== src/Validation.antt =====
-- services/seller_frontend_service/util/validation_utils.cc: the checks of a SelectAdRequest and
-- of a decrypted component auction result. Errors go to the accumulator of the request.
pub mod Checks
pub mod Acceptance
pub mod Results
pub mod Problems
use bas_dev.Common.{
  ℕ, suc, ◌+◌, ◌≡◌, Bool, true, false, not, ◌&&◌, ◌||◌, String, List, [], ◌∷◌, ◌++◌, ◌==◌, nat_eq,
  string_eq, is_empty, length, if◌then◌else◌,
}
use Prim.Native.String
use bas_dev.Api.{
  ClientType, client_type_unknown, client_type_android, client_type_browser, AdType,
  ad_type_protected_audience_ad, EncryptedAuctionResult, SelectAdRequest, AuctionResult,
}
use bas_dev.Errors.{ad_server_visible, client_side, ErrorAccumulator, report_error}
use bas_dev.Scope.{AuctionScope, is_top_level}

-- The calls of `report_error_lambda`, in order: whether there is an error, and its message.
abbrev pub Checks : Type 0
Checks = List (Bool × String)

-- One call on the variables that the lambda captures.
unfoldable pub report : Bool × String → Bool × ErrorAccumulator → Bool × ErrorAccumulator
report (has_error, error_msg) (valid, errors) =
    if has_error
    then (false, report_error ad_server_visible error_msg client_side errors)
    else (valid, errors)

unfoldable pub run_checks : Checks → Bool × ErrorAccumulator → Bool × ErrorAccumulator
run_checks [] state = state
run_checks (check ∷ checks) state = run_checks checks (report check state)

abbrev pub is_client_type_unknown : ClientType → Bool
is_client_type_unknown client_type_unknown = true
is_client_type_unknown _ = false

abbrev is_protected_audience_ad : AdType → Bool
is_protected_audience_ad ad_type_protected_audience_ad = true
is_protected_audience_ad _ = false

-- The loop that counts component results with a ciphertext and a key.
unfoldable pub valid_results : List EncryptedAuctionResult → ℕ
valid_results [] = 0
valid_results (result ∷ results) =
    if is_empty result.auction_result_ciphertext || is_empty result.key_id
    then valid_results results
    else suc (valid_results results)

unfoldable pub request_checks : SelectAdRequest → String → Checks
request_checks request seller_domain =
    (
      is_empty request.protected_auction_ciphertext
          && is_empty request.protected_audience_ciphertext,
      "protected_auction_ciphertext must be non-null.",
    )
    ∷ (is_empty request.seller_signals, "Seller signals missing in auction config")
    ∷ (is_empty request.auction_signals, "Auction signals missing in auction config")
    ∷ (is_empty request.seller, "Seller origin missing in auction config")
    ∷ (
      not (seller_domain == request.seller),
      "Seller domain passed in request does not match this server's domain",
    )
    ∷ (is_client_type_unknown request.client_type, "Unknown client type in SelectAdRequest")
    ∷ []

-- The checks under the test for a top-level auction.
unfoldable pub component_checks : List EncryptedAuctionResult → Checks
component_checks results =
    (length results == 0, "No Component Auction Results for Top Level Seller auction")
    ∷ (
      valid_results results == 0 && not (length results == 0),
      "Empty Component Auction Results for Top Level Seller auction",
    )
    ∷ []

unfoldable pub validate_encrypted_select_ad_request :
    SelectAdRequest → AuctionScope → String → ErrorAccumulator → Bool × ErrorAccumulator
validate_encrypted_select_ad_request request auction_scope seller_domain errors =
    let state = run_checks (request_checks request seller_domain) (true, errors) in
    if is_top_level auction_scope
    then run_checks (component_checks request.component_auction_results) state
    else state

-- `absl::StrFormat(kErrorInAuctionResult, …)`.
unfoldable pub error_in_auction_result : String → String
error_in_auction_result msg =
    String.◌++◌ "Error while validating component auction_result: " (String.◌++◌ msg ".")

unfoldable pub result_checks : {W : Type 0} → AuctionResult W → String → String → Checks
result_checks auction_result request_generation_id seller_domain =
    (
      not (auction_result.ciphertext_generation_id == request_generation_id),
      error_in_auction_result "Mismatched generationId.",
    )
    ∷ (
      not (auction_result.top_level_seller == seller_domain),
      error_in_auction_result "Mismatched top level seller.",
    )
    ∷ (
      is_empty auction_result.component_seller,
      error_in_auction_result
          "Component Seller Auction Result must contain component seller domain",
    )
    ∷ (
      not (is_protected_audience_ad auction_result.ad_type),
      error_in_auction_result "Unsupported ad type.",
    )
    ∷ (
      not (is_empty auction_result.top_level_reporting_url),
      error_in_auction_result "Top Level Win Reporting URLs should not be present.",
    )
    ∷ []

unfoldable pub validate_component_auction_result :
    {W : Type 0} → AuctionResult W → String → String → ErrorAccumulator → Bool × ErrorAccumulator
validate_component_auction_result auction_result request_generation_id seller_domain errors =
    if auction_result.is_chaff || not (is_empty auction_result.error_message)
    then (true, errors)
    else run_checks (result_checks auction_result request_generation_id seller_domain)
        (true, errors)
