-- ===== src/Scoring/Parse.antt =====
-- The parsers of proto_utils.cc: `ParseAndGetScoreAdResponseJson`, `ParseAdRejectionReason`,
-- `GetDebugUrlIfInLimit`, `ParseScoreAdResponse`. The JSON parser and writer are parameters; sizes
-- are taken to stay below 2 ^ 31, where the code's `int` and `int64_t` agree.
use Prim.Native.String.{len}
use Prim.Native.String
use bas_dev.Common.{
  ℕ, ◌+◌, Bool, true, false, ◌&&◌, String, [], Option, none, some, string_eq, if◌then◌else◌, leb,
  nat_eq,
}
use bas_dev.Common.Float.{Float}
use bas_dev.Api.{AdScore, AdRejectionReason, DebugReportUrls, ad_type_unknown}
use bas_dev.Json.{Json, null, bool, number, string, object, find_member}
use bas_dev.Signals.{to_seller_rejection_reason}

abbrev pub is_number : {W : Type 0} → Json W → Bool
is_number (number _) = true
is_number _ = false

-- The copy of the member "response" if it is an object or a number, and null if not.
abbrev pub response_of : {W : Type 0} → Option (Json W) → Json W
response_of (some (object members)) = object members
response_of (some (number x)) = number x
response_of _ = null

unfoldable pub parse_and_get_score_ad_response_json :
    {W : Type 0} → (String → Option (Json W)) → String → Option (Json W)
parse_and_get_score_ad_response_json parse_json_string response =
    elim (parse_json_string response) [
      | none ↦ none
      | some document ↦ some (response_of (find_member "response" document))
    ]

unfoldable pub parse_ad_rejection_reason :
    {W : Type 0} → Json W → String → String → Option AdRejectionReason
parse_ad_rejection_reason score_ad_resp interest_group_owner interest_group_name =
    elim (find_member "rejectReason" score_ad_resp) [
      | some (string rejection_reason_str) ↦ some (record {
        interest_group_owner = interest_group_owner;
        interest_group_name = interest_group_name;
        rejection_reason = to_seller_rejection_reason rejection_reason_str;
      })
      | _ ↦ none
    ]

-- The URL if it is a text within both limits, and the empty text if not.
abbrev pub url_in_limit : {W : Type 0} → ℕ → ℕ → ℕ → Option (Json W) → String
url_in_limit max_allowed_size_debug_url_chars max_allowed_size_all_debug_urls_chars
      current_all_debug_urls_chars (some (string debug_url)) =
    if leb (len debug_url) max_allowed_size_debug_url_chars
      && leb (len debug_url + current_all_debug_urls_chars) max_allowed_size_all_debug_urls_chars
    then debug_url
    else ""
url_in_limit _ _ _ _ = ""

unfoldable pub get_debug_url_if_in_limit : {W : Type 0} → String → Json W → ℕ → ℕ → ℕ → String
get_debug_url_if_in_limit url_type debug_reporting_urls max_allowed_size_debug_url_chars
      max_allowed_size_all_debug_urls_chars current_all_debug_urls_chars =
    url_in_limit max_allowed_size_debug_url_chars max_allowed_size_all_debug_urls_chars
      current_all_debug_urls_chars (find_member url_type debug_reporting_urls)

-- `if (!url.empty()) { set…; current_all_debug_urls_chars += url.size(); }`; the empty text has
-- size 0.
abbrev pub debug_report_urls_from : {W : Type 0} → Json W → ℕ → ℕ → ℕ → DebugReportUrls × ℕ
debug_report_urls_from urls max_url max_all current =
    let win = get_debug_url_if_in_limit "auctionDebugWinUrl" urls max_url max_all current in
    let current' = current + len win in
    let loss = get_debug_url_if_in_limit "auctionDebugLossUrl" urls max_url max_all current' in
    (record { auction_debug_win_url = win; auction_debug_loss_url = loss }, current' + len loss)

abbrev pub number_or : {W : Type 0} → Option (Json W) → W → W
number_or (some (number x)) d = x
number_or _ d = d

abbrev pub bool_or : {W : Type 0} → Option (Json W) → Bool → Bool
bool_or (some (bool b)) d = b
bool_or _ d = d

abbrev pub string_or : {W : Type 0} → Option (Json W) → String → String
string_or (some (string s)) d = s
string_or _ d = d

abbrev pub quoted : String → String
quoted s = String.◌++◌ "\"" (String.◌++◌ s "\"")

module _ {W : Type 0} ⦃f : Float W⦄ where
  open f use {nought}

  -- A new AdScore with the given desirability.
  abbrev pub new_ad_score : W → AdScore W
  new_ad_score desirability = record {
    desirability = desirability;
    render = "";
    component_renders = [];
    interest_group_name = "";
    buyer_bid = nought;
    buyer_bid_currency = "";
    interest_group_owner = "";
    interest_group_origin = "";
    allow_component_auction = false;
    ad_metadata = "";
    bid = nought;
    bid_currency = "";
    incoming_bid_in_seller_currency = nought;
    ig_owner_highest_scoring_other_bids_map = [];
    debug_report_urls = none;
    ad_rejection_reasons = [];
    ad_type = ad_type_unknown;
  }

  module _ (serialize_json_doc : Json W → Option String) where
    -- The metadata of an ad in a component auction; `none` is a failure to write it.
    unfoldable pub ad_metadata_of : Option (Json W) → Option String
    ad_metadata_of (some (string s)) = some (quoted s)
    ad_metadata_of (some (object members)) = serialize_json_doc (object members)
    ad_metadata_of _ = some ""

    -- The fields of a component auction.
    unfoldable pub with_component_fields : Json W → AdScore W → Option (AdScore W)
    with_component_fields resp score = elim (ad_metadata_of (find_member "ad" resp)) [
      | none ↦ none
      | some ad_metadata ↦ some (record score {
        allow_component_auction = bool_or (find_member "allowComponentAuction" resp) false;
        ad_metadata = ad_metadata;
        bid = number_or (find_member "bid" resp) nought;
        bid_currency = string_or (find_member "bidCurrency" resp) "";
      })
    ]

    -- The last part: the score with its debug URLs, and `current_all_debug_urls_chars`, which the
    -- function changes through a reference.
    unfoldable pub with_debug_urls : Json W → ℕ → ℕ → ℕ → AdScore W → AdScore W × ℕ
    with_debug_urls resp max_url max_all current score = elim (find_member "debugReportUrls" resp) [
      | none ↦ (score, current)
      | some urls ↦
          let (debug_report_urls, current') = debug_report_urls_from urls max_url max_all current in
          (record score { debug_report_urls = some debug_report_urls }, current')
    ]

    -- The score that an object, or anything but a number, stands for, without its debug URLs.
    unfoldable pub score_of_object : Json W → Bool → Option (AdScore W)
    score_of_object resp device_component_auction =
        let score : AdScore W =
          record (new_ad_score (number_or (find_member "desirability" resp) nought)) {
            incoming_bid_in_seller_currency =
                number_or (find_member "incomingBidInSellerCurrency" resp) nought;
          } in
        if device_component_auction then with_component_fields resp score else some score

    unfoldable pub parse_score_ad_response : Json W → ℕ → ℕ → Bool → ℕ → Option (AdScore W × ℕ)
    parse_score_ad_response (number x) max_url max_all device_component_auction current =
        some (new_ad_score x, current)
    parse_score_ad_response resp max_url max_all device_component_auction current =
        elim (score_of_object resp device_component_auction) [
          | none ↦ none
          | some score ↦ some (with_debug_urls resp max_url max_all current score)
        ]
