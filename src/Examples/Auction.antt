-- ===== src/Examples/Auction.antt =====
-- The theorems on the auction service, on an auction of two ads with a seller whose scoreAd() returned a
-- number for the first and an object with debug URLs for the second.
use bas_dev.Common.{
  emplace, Bool, lookup, All, ℕ, ◌+◌, ◌*◌, ◌≤◌, ◌≡◌, ◌⊎◌, refl, true, false, String, List, [], ◌∷◌,
  Option, none, some, ◌==◌, string_eq, if◌then◌else◌,
}
use bas_dev.Api.{ad_type_protected_audience_ad, AdWithBidMetadata, AuctionResult}
use bas_dev.Json.{Json, number, string, object, member, end}
use bas_dev.Scope.{single_seller}
use bas_dev.Scoring.{check_and_update_modified_bid, Reactor, DispatchResponse}
use bas_dev.Scoring.Parse.{
  new_ad_score, parse_and_get_score_ad_response_json, parse_score_ad_response, score_of_object,
  with_debug_urls, get_debug_url_if_in_limit,
}
use bas_dev.Scoring.Handle.{final_score, amended, Scored, Scores}
use bas_dev.Scoring.Loop.{
  find_scored_ad_type, scored_of, debug_report_urls_length, find_winning_ad, read_response,
  scored_ads,
}
use bas_dev.Scoring.Requests.{
  Dispatch, dispatch_ad, no_dispatch, populate_protected_audience_dispatch_requests,
  may_populate_protected_app_signals_dispatch_requests,
  populate_top_level_auction_dispatch_requests,
}
use bas_dev.Scoring.Execution.{
  RawRequest, signals_for, batch_execute, execute, execute_with_signals, execute_batch, IsBatch,
  execute-IsBatch,
}
use bas_dev.Scoring.Dispatched.{
  IsDispatched, is_some, populate-IsDispatched, populate_top_level-has_one_generation,
}
use bas_dev.Scoring.Leading.{IsDesirabilityNumber, HasWinner, HasNoWinner, CountsRejections}
use bas_dev.Scoring.Winner.{all_ads, find_winning_ad-winner, find_winning_ad-rejections}
use bas_dev.Scoring.Totals.{urls_of, total_urls, scored_ads-total_urls, read_response-counter}
use bas_dev.Examples.{nat_float, nat_IsOrdered}

abbrev ad : String → ℕ → AdWithBidMetadata ℕ
ad url bid = record {
  bid = bid;
  bid_currency = "";
  render = url;
  ad_components = [];
  interest_group_name = url;
  interest_group_owner = "owner";
  interest_group_origin = "";
}

abbrev reactor : Reactor ℕ
reactor = record {
  auction_scope = single_seller;
  seller_currency = "";
  max_allowed_size_debug_url_chars = 10;
  max_allowed_size_all_debug_urls_chars = 12;
  ad_data = ("a", ad "a" 3) ∷ ("b", ad "b" 5) ∷ [];
  protected_app_signals_ad_data = [];
}

-- The results, as the parser reads them: 2 for the ad "a", and for "b" a desirability of 4 and a
-- debug URL.
abbrev parse_json_string : String → Option (Json ℕ)
parse_json_string resp =
    if resp == "2"
    then some (object (member "response" (number 2) end))
    else if resp == "4"
    then some (
        object (
          member "response"
            (object (
              member "desirability" (number 4) (
                member "debugReportUrls" (object (member "auctionDebugWinUrl" (string "win") end))
                  end)))
            end))
    else none

abbrev serialize_json_doc : Json ℕ → Option String
serialize_json_doc json = some ""

abbrev responses : List (Option DispatchResponse)
responses =
    some (record { id = "a"; resp = "2" }) ∷ none ∷ some (record { id = "b"; resp = "4" }) ∷ []

desirabilities :
    All
      (IsDesirabilityNumber reactor)
      (all_ads reactor parse_json_string serialize_json_doc responses)
unfolding read_response find_scored_ad_type lookup parse_and_get_score_ad_response_json
    parse_score_ad_response score_of_object scored_of with_debug_urls get_debug_url_if_in_limit
    debug_report_urls_length scored_ads final_score check_and_update_modified_bid amended
desirabilities = (refl, (refl, tt))

find_winning_ad-winner_example :
    (scores : Scores ℕ) × (find_winning_ad parse_json_string serialize_json_doc reactor responses
      ≡ some scores)
    × (HasNoWinner reactor (all_ads reactor parse_json_string serialize_json_doc responses) scores.1
        ⊎ HasWinner reactor
            (all_ads reactor parse_json_string serialize_json_doc responses)
            scores.1)
find_winning_ad-winner_example =
    find_winning_ad-winner reactor parse_json_string serialize_json_doc responses desirabilities

find_winning_ad-rejections_example :
    (scores : Scores ℕ) × (find_winning_ad parse_json_string serialize_json_doc reactor responses
      ≡ some scores)
    × CountsRejections reactor
        (all_ads reactor parse_json_string serialize_json_doc responses)
        scores.1
find_winning_ad-rejections_example =
    find_winning_ad-rejections reactor parse_json_string serialize_json_doc responses desirabilities

scored_ads-total_urls_example :
    total_urls (scored_ads parse_json_string serialize_json_doc reactor 0 responses 0) ≤ 12
scored_ads-total_urls_example =
    scored_ads-total_urls parse_json_string serialize_json_doc reactor responses

abbrev scored_b : Scored ℕ
scored_b = record {
  index = 2;
  buyer_bid = 5;
  ad_with_bid_currency = "";
  interest_group_name = "b";
  interest_group_owner = "owner";
  interest_group_origin = "";
  response_json = object (
      member "desirability" (number 4)
        (member "debugReportUrls" (object (member "auctionDebugWinUrl" (string "win") end)) end));
  ad_type = ad_type_protected_audience_ad;
  ad_score = record (new_ad_score 4) {
    debug_report_urls =
        some (record { auction_debug_win_url = "win"; auction_debug_loss_url = "" });
  };
  dispatch_response_id = "b";
}

read_b :
    read_response parse_json_string serialize_json_doc reactor 2
      (some (record { id = "b"; resp = "4" }))
      0
    ≡ some (scored_b, 6)
unfolding read_response find_scored_ad_type lookup parse_and_get_score_ad_response_json
    parse_score_ad_response score_of_object scored_of with_debug_urls get_debug_url_if_in_limit
    debug_report_urls_length
read_b = refl

read_response-counter_example : (6 ≡ 0 + 2 * urls_of scored_b) × (urls_of scored_b ≤ 2 * 10)
read_response-counter_example =
    read_response-counter parse_json_string serialize_json_doc reactor 2
      (record { id = "b"; resp = "4" }) 0 read_b

populate-IsDispatched_example : IsDispatched (
    may_populate_protected_app_signals_dispatch_requests {W = ℕ}
      (λ app_ad. true)
      (λ url. true)
      []
      (populate_protected_audience_dispatch_requests
        (λ ad. true)
        (λ url. true)
        (ad "a" 3 ∷ ad "a" 4 ∷ [])
        no_dispatch))
populate-IsDispatched_example =
    populate-IsDispatched (λ ad. true) (λ app_ad. true) (λ url. true) (ad "a" 3 ∷ ad "a" 4 ∷ []) []

abbrev result : String → AuctionResult ℕ
result generation_id = record {
  ad_render_url = generation_id;
  ad_component_render_urls = [];
  interest_group_name = "n";
  interest_group_owner = "o";
  bid = 3;
  bid_currency = "";
  ad_metadata = "";
  is_chaff = false;
  error_message = "";
  ad_type = ad_type_protected_audience_ad;
  top_level_seller = "seller.com";
  ciphertext_generation_id = generation_id;
  component_seller = "component.com";
  top_level_reporting_url = "";
}

populate_top_level-has_one_generation_example :
    is_some
      (populate_top_level_auction_dispatch_requests (result "g" ∷ result "h" ∷ []) no_dispatch)
    ≡ false
populate_top_level-has_one_generation_example =
    populate_top_level-has_one_generation (result "g" ∷ result "h" ∷ []) no_dispatch

-- A stable sort by insertion, for `std::sort`.
abbrev insert_by : (ℕ → ℕ → Bool) → ℕ → List ℕ → List ℕ
insert_by before x [] = x ∷ []
insert_by before x (y ∷ ys) = if before x y then x ∷ y ∷ ys else y ∷ insert_by before x ys

abbrev sort_by : (ℕ → ℕ → Bool) → List ℕ → List ℕ
sort_by before [] = []
sort_by before (x ∷ xs) = insert_by before x (sort_by before xs)

abbrev raw_request : RawRequest ℕ
raw_request = record {
  ad_bids = ad "a" 3 ∷ ad "b" 5 ∷ [];
  protected_app_signals_ad_bids = [];
  component_auction_results = [];
}

abbrev batch : Dispatch ℕ
batch = record {
  ad_data = ("a", ad "a" 3) ∷ ("b", ad "b" 5) ∷ [];
  protected_app_signals_ad_data = [];
  dispatch_requests = "a" ∷ "b" ∷ [];
}

executed :
    execute (λ ad. true) (λ app_ad. true) single_seller (signals_for (λ url. true)) raw_request
    ≡ batch_execute batch
unfolding execute execute_with_signals execute_batch
    may_populate_protected_app_signals_dispatch_requests
    populate_protected_audience_dispatch_requests dispatch_ad emplace lookup
executed = refl

execute-IsBatch_example : IsBatch batch
execute-IsBatch_example =
    execute-IsBatch (λ ad. true) (λ app_ad. true) single_seller (signals_for (λ url. true))
      raw_request batch executed
