-- ===== src/Examples/SelectAd.antt =====
-- The theorems on the seller frontend, at concrete inputs: an app's request of one buyer or of two.
use mathlib.Core.List.{Perm}
use bas_dev.Common.{
  inl, ◌<◌, ◌*◌, emplace, lookup, lookup, ℕ, ◌+◌, ◌≤◌, ◌≡◌, ◌≢◌, ◌↔◌, ◌⊎◌, refl, true, false, not,
  String, List, [], ◌∷◌, none, some, map, filter, length, All, IsMap, ◌==◌, string_eq, arith,
}
use bas_dev.Common.Int.{pos}
use bas_dev.Api.{client_type_browser, client_type_android}
use bas_dev.Scope.{single_seller}
use bas_dev.Examples.{nat_float}
use bas_dev.SelectAd.Messages.{
  InterestGroup, BuyerInput, PerBuyerConfig, AuctionConfig, ProtectedAuctionInput, AdWithBid,
  GetBidsRawResponse,
}
use bas_dev.SelectAd.Services.{value, Request, Decoded, plaintext, Services}
use bas_dev.TaskTracker.{
  tracking, task_completed, count_status, predecessor, any_task_successfully_completed,
}
use bas_dev.Errors.{client_visible, ad_server_visible, get_errors, has_errors}
use bas_dev.SelectAd.Currency.{
  BuyerBids, empty, has_no_bids, erase_empty, filter_helper, filter_bids_with_mismatching_currency,
  swap_loop, swap_elements, filter_buyer, filter_buyers,
}
use bas_dev.SelectAd.Currency.Filter.{keeps, filter_helper-Perm}
use bas_dev.SelectAd.Currency.Buyers.{AllFiltered, HasBids, filter_bids-AllFiltered}
use bas_dev.SelectAd.Requests.{find_group, create_app_get_bids_request, build_ad_with_bid_metadata}
use bas_dev.SelectAd.Requests.Origins.{
  IsCarried, create_app_get_bids_request-gated, build_ad_with_bid_metadata-recency,
}
use bas_dev.SelectAd.Requests.Scores.{
  create_app_score_ads_request, create_score_ads_request, may_populate_protected_app_signals_bids,
  ads_to_score, app_signals_ads_to_score, create_app_score_ads_request-owners,
}
use bas_dev.SelectAd.Checks.{
  have_errors, may_populate_ad_server_visible_errors, validate_protected_auction_input,
  report_failed, config_checks, buyer_checks, client_checks, input_checks, observe_inputs,
  may_populate_client_visible_errors,
}
use bas_dev.SelectAd.Checks.Passed.{IsConfigured, may_populate_ad_server_visible_errors_iff}
use bas_dev.SelectAd.Checks.Inputs.{SomeUsable, validate_protected_auction_input_iff}
use bas_dev.SelectAd.Solicit.{solicit, not_yet, visit, fetch_bid}
use bas_dev.SelectAd.Solicit.Asked.{IsDue, solicit-bounded}
use bas_dev.SelectAd.Reactor.{
  SelectAdReactor, idle, for_signals, for_scores, visit_buyer, on_fetch_bids_done,
  on_fetch_scoring_signals_done, on_score_ads_done, complete, on_all_bids_done, score_ads,
}
use bas_dev.SelectAd.Reactor.Execute.{
  execute_request, constructed, decrypt_request, execute_decoded, report_decode_errors,
}
use bas_dev.SelectAd.Reactor.Steps.{
  buyer_visited, bids_fetched, signals_fetched, ads_scored, Run, started, then_step,
}
use bas_dev.SelectAd.Reactor.Phases.{IsDone}
use bas_dev.SelectAd.Reactor.Finishes.{Run-bounded, Run-finishes_once}

abbrev group : InterestGroup
group = record {
  name = "shoes";
  origin = "https://a";
  browser_signals = record {
    join_count = pos 3;
    recency = pos 120;
    recency_ms = some (pos 125000);
  };
}

abbrev input : BuyerInput
input = record { interest_groups = group ∷ []; protected_app_signals = some "signals" }

abbrev buyer_config : PerBuyerConfig
buyer_config = record {
  buyer_signals = "{}";
  buyer_kv_experiment_group_id = none;
  buyer_debug_id = "";
  buyer_currency = "USD";
  contextual_protected_app_signals_data = some ("ad" ∷ []);
}

abbrev config : AuctionConfig
config = record {
  seller_signals = "{}";
  auction_signals = "{}";
  buyer_list = "a" ∷ "b" ∷ "a" ∷ [];
  seller = "s";
  per_buyer_config = ("a", buyer_config) ∷ [];
  seller_debug_id = "";
  top_level_seller = "";
  seller_currency = "USD";
}

abbrev publisher : ProtectedAuctionInput
publisher = record {
  publisher_name = "p";
  enable_debug_reporting = true;
  generation_id = "1";
  consented_debug_config = none;
  enable_unlimited_egress = false;
}

abbrev decoded : Decoded
decoded = record {
  input = publisher;
  buyer_inputs = ("a", input) ∷ ("b", input) ∷ [];
  decode_errors = [];
}

abbrev request : Request
request = record {
  protected_auction_ciphertext = "c";
  protected_audience_ciphertext = "";
  config = config;
  client_type = client_type_android;
  auction_scope = single_seller;
}

abbrev services : Services ℕ
services = record {
  is_protected_audience_enabled = true;
  is_pas_enabled = true;
  for_app = true;
  max_buyers_solicited = pos 2;
  seller_origin_domain = "s";
  is_currency_code = λ c. c == "USD";
  decrypt = λ c. value c;
  decode = λ b c. decoded;
  has_buyer_client = λ b. true;
  call_buyer = λ b r. true;
  call_scoring = λ r. true;
  non_encrypted_response = λ s m b. plaintext "response";
  hpke_encrypt = λ t. none;
  encapsulate = λ t. some t;
  format = λ n. "0.00";
  str_replace_all = λ t r. t;
}

abbrev ad_in : String → AdWithBid ℕ
ad_in currency = record {
  ad = none;
  bid = 2;
  render = "https://ad";
  ad_components = [];
  allow_component_auction = false;
  interest_group_name = "shoes";
  ad_cost = 0;
  debug_report_urls = none;
  modeling_signals = pos 0;
  bid_currency = currency;
  buyer_reporting_id = "";
}

abbrev bids : GetBidsRawResponse ℕ
bids = record {
  bids = ad_in "EUR" ∷ ad_in "USD" ∷ ad_in "" ∷ ad_in "EUR" ∷ [];
  protected_app_signals_bids = [];
}

filter_helper-Perm_example :
    (kept : List String) × (filter_helper (λ s. s) "USD" ("EUR" ∷ "USD" ∷ "" ∷ "EUR" ∷ [])
      ≡ some kept)
    × Perm kept (filter (keeps (λ s. s) "USD") ("EUR" ∷ "USD" ∷ "" ∷ "EUR" ∷ []))
filter_helper-Perm_example = filter_helper-Perm (λ s. s) "USD" ("EUR" ∷ "USD" ∷ "" ∷ "EUR" ∷ [])

some_bids : All (HasBids true true config) (("a", bids) ∷ [])
unfolding has_no_bids
some_bids = (refl, tt)

filter_bids-AllFiltered_example :
    (after : BuyerBids ℕ) × (filter_bids_with_mismatching_currency true true config
        (("a", bids) ∷ [])
      ≡ some (not (empty (erase_empty true true after)), erase_empty true true after))
    × AllFiltered true true config (("a", bids) ∷ []) after
    × All (HasBids true true config) (erase_empty true true after)
filter_bids-AllFiltered_example =
    filter_bids-AllFiltered true true config (("a", bids) ∷ []) some_bids

create_app_get_bids_request-gated_example :
    let request' =
      create_app_get_bids_request config client_type_android publisher true true "a" input in
    (request'.buyer_input.protected_app_signals ≡ none)
    × IsCarried config "a" true (some "signals") request'.protected_app_signals_buyer_input
    × (empty request'.buyer_input.interest_groups ≡ false)
create_app_get_bids_request-gated_example =
    create_app_get_bids_request-gated config client_type_android publisher true true "a" input

found_group : find_group "shoes" input.interest_groups ≡ some group
found_group = refl

build_ad_with_bid_metadata-recency_example :
    (minutes : ℕ) × (minutes * 60000 ≤ 125000)
    × (125000 < (minutes + 1) * 60000)
    × ((build_ad_with_bid_metadata client_type_browser input "a" (ad_in "USD")).recency
        ≡ pos minutes)
build_ad_with_bid_metadata-recency_example =
    build_ad_with_bid_metadata-recency client_type_browser input "a" (ad_in "USD") group 125000
      found_group (inl refl) (omega arith)

create_app_score_ads_request-owners_example :
    let request =
      create_app_score_ads_request config client_type_browser publisher true false
        decoded.buyer_inputs
        (some "{}")
        (("a", bids) ∷ ("b", bids) ∷ []) in
    (filter (λ ad. ad.interest_group_owner == "b") request.ad_bids
      ≡ map (build_ad_with_bid_metadata client_type_browser input "b") bids.bids)
    × (filter (λ ad. ad.owner == "b") request.protected_app_signals_ad_bids ≡ [])
unfolding lookup
create_app_score_ads_request-owners_example =
    create_app_score_ads_request-owners config client_type_browser publisher true false
      decoded.buyer_inputs (some "{}") (("a", bids) ∷ ("b", bids) ∷ []) "b" (refl, (refl, tt))

may_populate_ad_server_visible_errors_iff_example :
    (have_errors ad_server_visible (
        may_populate_ad_server_visible_errors services.is_currency_code config client_type_android
          single_seller "s" [])
      ≡ false)
    ↔ IsConfigured services.is_currency_code config client_type_android single_seller "s"
unfolding have_errors get_errors lookup
may_populate_ad_server_visible_errors_iff_example =
    may_populate_ad_server_visible_errors_iff services.is_currency_code config client_type_android
      single_seller "s" [] refl

validate_protected_auction_input_iff_example :
    (have_errors client_visible (validate_protected_auction_input publisher decoded.buyer_inputs [])
      ≡ false)
    ↔ ((publisher.generation_id ≢ "")
        × (publisher.publisher_name ≢ "")
        × SomeUsable decoded.buyer_inputs)
unfolding have_errors get_errors lookup
validate_protected_auction_input_iff_example =
    validate_protected_auction_input_iff publisher decoded.buyer_inputs [] refl

solicit-bounded_example :
    let (statuses, s) =
      solicit services request decoded request.config.buyer_list
        (not_yet services request decoded) in
    (length statuses + length s.sent ≡ 3)
    × (length s.sent ≤ 2)
    × IsMap s.sent
    × All (IsDue services request decoded) s.sent
solicit-bounded_example = solicit-bounded services request decoded

-- A request of one buyer, whose bids are scored without a winner.
abbrev small_request : Request
small_request = record request { config = record config { buyer_list = "a" ∷ [] } }

abbrev r0 : SelectAdReactor ℕ
r0 = execute_request services small_request

abbrev r1 : SelectAdReactor ℕ
r1 = visit_buyer services small_request "a" false (record r0 { to_visit = [] })

abbrev r2 : SelectAdReactor ℕ
r2 = on_fetch_bids_done services small_request (value bids) "a" false (record r1 { called = [] })

abbrev r3 : SelectAdReactor ℕ
r3 =
    on_fetch_scoring_signals_done services small_request (value "{}") (record r2 { waiting = idle })

abbrev r4 : SelectAdReactor ℕ
r4 = on_score_ads_done services small_request (value none) (record r3 { waiting = idle })

e0 : r0.to_visit ≡ "a" ∷ []
unfolding execute_request constructed decrypt_request execute_decoded report_decode_errors
    have_errors get_errors lookup may_populate_ad_server_visible_errors report_failed client_checks
    buyer_checks config_checks has_errors validate_protected_auction_input input_checks
    observe_inputs
e0 = refl

e1 : r1.called ≡ "a" ∷ []
unfolding execute_request constructed decrypt_request execute_decoded report_decode_errors
    have_errors get_errors lookup may_populate_ad_server_visible_errors report_failed client_checks
    buyer_checks config_checks has_errors validate_protected_auction_input input_checks
    observe_inputs visit_buyer visit fetch_bid may_populate_client_visible_errors
e1 = refl

e2 : r2.waiting ≡ for_signals
unfolding execute_request constructed decrypt_request execute_decoded report_decode_errors
    have_errors get_errors lookup may_populate_ad_server_visible_errors report_failed client_checks
    buyer_checks config_checks has_errors validate_protected_auction_input input_checks
    observe_inputs visit_buyer visit fetch_bid may_populate_client_visible_errors on_fetch_bids_done
    complete task_completed count_status predecessor any_task_successfully_completed tracking
    on_all_bids_done has_no_bids filter_bids_with_mismatching_currency filter_buyers filter_buyer
    filter_helper swap_loop swap_elements erase_empty emplace
e2 = refl

e3 : r3.waiting ≡ for_scores
unfolding execute_request constructed decrypt_request execute_decoded report_decode_errors
    have_errors get_errors lookup may_populate_ad_server_visible_errors report_failed client_checks
    buyer_checks config_checks has_errors validate_protected_auction_input input_checks
    observe_inputs visit_buyer visit fetch_bid may_populate_client_visible_errors on_fetch_bids_done
    complete task_completed count_status predecessor any_task_successfully_completed tracking
    on_all_bids_done has_no_bids filter_bids_with_mismatching_currency filter_buyers filter_buyer
    filter_helper swap_loop swap_elements erase_empty on_fetch_scoring_signals_done score_ads
    create_app_score_ads_request create_score_ads_request may_populate_protected_app_signals_bids
    ads_to_score app_signals_ads_to_score emplace
e3 = refl

whole-Run : Run services small_request 4 r0 r4
whole-Run =
    then_step
      (then_step
        (then_step (then_step (started r0) (buyer_visited r0 "a" [] false e0))
          (bids_fetched r1 [] "a" [] (value bids) false e1))
        (signals_fetched r2 (value "{}") e2))
      (ads_scored r3 (value none) e3)

Run-bounded_example : 4 ≤ 6
Run-bounded_example = Run-bounded services small_request r4 whole-Run

Run-finishes_once_example : (r4.finished ≡ []) ⊎ IsDone r4
Run-finishes_once_example = Run-finishes_once services small_request r4 whole-Run
