-- ===== src/Examples/Services.antt =====
-- The theorems on the parts that the services share, at concrete inputs.
use bas_dev.Common.{
  refl, ◌*◌, ◌^◌, ◌==◌, ◌<◌, ◌⊎◌, ◌/◌, if◌then◌else◌, ◌%◌, ◌↔◌, ◌+◌, ◌≤◌, ℕ, ◌≡◌, ◌≢◌, true, false,
  String, List, [], ◌∷◌, none, some, inl, nat_eq, arith,
}
use bas_dev.Common.Int.{◌+ℤ◌, ◌≤ℤ◌, pos, negsuc, ◌-ℤ◌}
use bas_dev.Api
use bas_dev.Errors.{ad_server_visible, report_error, client_visible, client_side}
use bas_dev.Errors.Reports.{reported, reported-report_error}
use bas_dev.Noiser.{
  rand_generator, ok, rand_int, to_int32, max_acceptable_value, noise, replace, bucket_join_count,
  bucket_recency,
}
use bas_dev.Noiser.Generator.{rounds, rand_int-append, rand_int_bounds, rand_generator_uniform}
use bas_dev.Noiser.Noise.{Between, noise-Between, noise-append}
use bas_dev.Noiser.Rounding.{finite, round_stochastically_to_k_bits, round_stochastically_lem}
use bas_dev.Noiser.Buckets.{
  recency_boundaries, join_count_boundaries, reached, bucket_join_count-reached,
  bucket_recency-reached, buckets_mono,
}
use bas_dev.Scope.{
  is_server_component, is_top_level, score_ads_auction_scope, select_ad_auction_scope, is_component,
  SelectAdScopeFields, gcp, scopes_agree, server_top_level_seller,
}
use bas_dev.Signals.{
  to_seller_rejection_reason, to_seller_rejection_reason_string, rejection_reason_of,
  group_rejection_reasons,
}
use bas_dev.Signals.Reasons.{reason_iff}
use bas_dev.Signals.Placeholders.{first_reason, rejection_reason-group}
use bas_dev.TaskTracker.{
  set_num_tasks_to_track, run, run_is_checked, TaskStatus, success, error, skipped, tracking,
}
use bas_dev.TaskTracker.Completion.{run-once, run-pending}
use bas_dev.Validation.{validate_encrypted_select_ad_request, validate_component_auction_result}
use bas_dev.Validation.Problems.{
  Problem, message_of, HasProblem, validate_encrypted_select_ad_request-ProblemFor,
}
use bas_dev.Validation.Acceptance.{IsAcceptable, validate_encrypted_select_ad_request_iff}
use bas_dev.Validation.Results.{IsUsable, validate_component_auction_result_iff}

abbrev three_tasks : List TaskStatus
three_tasks = error ∷ success ∷ skipped ∷ []

some_tasks : three_tasks ≢ []
some_tasks e = cc

run-once_example :
    let start = set_num_tasks_to_track (tracking (pos 0)) (pos 3) in
    (run_is_checked start three_tasks ≡ true) × ((run start three_tasks).1 ≡ true ∷ [])
run-once_example = run-once (tracking (pos 0)) three_tasks some_tasks refl

run-pending_example : (run (set_num_tasks_to_track (tracking (pos 0)) (pos 4)) three_tasks).1 ≡ []
run-pending_example = run-pending (tracking (pos 0)) 4 three_tasks (inl (omega arith))

reported-report_error_example :
    reported (report_error client_visible "bad" client_side []) client_visible client_side "bad"
    ≡ true
reported-report_error_example =
    reported-report_error [] client_visible "bad" client_side client_visible client_side "bad"

rand_int-append_example :
    rand_int (pos 0) (pos 100) (some 18446744073709551615 ∷ some 205 ∷ none ∷ [])
    ≡ ok (pos (205 % 101) +ℤ pos 0) (none ∷ [])
unfolding max_acceptable_value ◌-ℤ◌
rand_int-append_example =
    rand_int-append (pos 0) (pos 100) (18446744073709551615 ∷ []) 205 (none ∷ [])
      (omega arith, omega arith) (omega arith, tt) (omega arith)

rand_int_bounds_example : (pos 0 ≤ℤ pos 3) × (pos 3 ≤ℤ pos 100)
unfolding max_acceptable_value ◌-ℤ◌ ◌+ℤ◌ to_int32
rand_int_bounds_example =
    rand_int_bounds (pos 0) (pos 100) (some 205 ∷ []) ((omega arith), (omega arith))
      (rand_int-append (pos 0) (pos 100) [] 205 [] (omega arith, omega arith) tt (omega arith))

rand_generator_uniform_example :
    (rand_generator 101 (some 18446744073709551615 ∷ some 205 ∷ []) ≡ ok 3 [])
    ↔ ((k : ℕ) × (k < rounds 101) × (205 ≡ k * 101 + 3))
rand_generator_uniform_example =
    rand_generator_uniform 101 3 205 (18446744073709551615 ∷ []) (omega arith) (omega arith)
      (omega arith) (omega arith, tt)

noise-append_example :
    noise 8 5 (pos 1) (pos 16) (some 205 ∷ [])
    ≡ (if 205 % 101 == 1 then replace 8 5 (pos 1) (pos 16) [] else ok 5 [])
unfolding max_acceptable_value
noise-append_example = noise-append 8 5 (pos 1) (pos 16) [] 205 [] tt (omega arith)

noise-Between_example : Between 1 16 5
unfolding max_acceptable_value
noise-Between_example =
    noise-Between 8 1 16 5 (omega arith) (omega arith) (omega arith) (some 205 ∷ [])
      (omega arith, omega arith) (noise-append 8 5 (pos 1) (pos 16) [] 205 [] tt (omega arith))

round_stochastically_lem_example :
    round_stochastically_to_k_bits (finite false 4503599627370497 (pos 1)) 8 (some 1 ∷ [])
    ≡ ok (finite false ((4503599627370497 / 2 ^ 45 + 1) * 2 ^ 45) (pos 1)) []
round_stochastically_lem_example =
    round_stochastically_lem false 4503599627370497 8 1 (pos 1) [] (omega arith) (omega arith)
      (omega arith) (omega arith)

bucket_join_count-reached_example :
    bucket_join_count (pos 25) ≡ 1 + reached join_count_boundaries 25
bucket_join_count-reached_example = bucket_join_count-reached (pos 25)

bucket_recency-reached_example : bucket_recency (pos 25) ≡ reached recency_boundaries 25
bucket_recency-reached_example = bucket_recency-reached (pos 25)

buckets_mono_example :
    (bucket_join_count (negsuc 4) ≤ bucket_join_count (pos 25))
    × (bucket_recency (negsuc 4) ≤ bucket_recency (pos 25))
buckets_mono_example = buckets_mono (negsuc 4) (pos 25) (omega arith)

abbrev device_request : SelectAdScopeFields
device_request = record {
  top_level_seller = "seller.com";
  top_level_cloud_platform = gcp;
  component_auction_results_size = 0;
}

scopes_agree_example :
    (is_component (select_ad_auction_scope device_request)
      ≡ is_component (score_ads_auction_scope "seller.com" 0))
    × (is_top_level (select_ad_auction_scope device_request)
        ≡ is_top_level (score_ads_auction_scope "seller.com" 0))
    × (is_server_component (score_ads_auction_scope "seller.com" 0) ≡ false)
    × ((is_component (select_ad_auction_scope device_request) ≡ true)
        ↔ (◌≢◌ {A = String} "seller.com" ""))
scopes_agree_example = scopes_agree device_request

is_named : Api.invalid_bid ≢ Api.seller_rejection_reason_not_available
is_named e = cc

reason_iff_example :
    (to_seller_rejection_reason "invalid-bid" ≡ Api.invalid_bid)
    ↔ ("invalid-bid" ≡ to_seller_rejection_reason_string Api.invalid_bid)
reason_iff_example = reason_iff "invalid-bid" Api.invalid_bid is_named

abbrev two_reasons : List Api.AdRejectionReason
two_reasons =
    (record {
      interest_group_owner = "o";
      interest_group_name = "n";
      rejection_reason = Api.invalid_bid;
    })
    ∷ (record {
      interest_group_owner = "o";
      interest_group_name = "n";
      rejection_reason = Api.category_exclusions;
    })
    ∷ []

rejection_reason-group_example :
    rejection_reason_of "o" "n" (group_rejection_reasons two_reasons [])
    ≡ first_reason "o" "n" two_reasons
rejection_reason-group_example = rejection_reason-group "o" "n" two_reasons

abbrev request : Api.SelectAdRequest
request = record {
  protected_auction_ciphertext = "x";
  protected_audience_ciphertext = "";
  seller_signals = "{}";
  auction_signals = "{}";
  seller = "seller.com";
  client_type = Api.client_type_browser;
  component_auction_results = [];
}

validate_encrypted_select_ad_request_iff_example :
    ((validate_encrypted_select_ad_request request server_top_level_seller "seller.com" []).0
      ≡ true)
    ↔ IsAcceptable request server_top_level_seller "seller.com"
validate_encrypted_select_ad_request_iff_example =
    validate_encrypted_select_ad_request_iff request server_top_level_seller "seller.com" []

validate_encrypted_select_ad_request-ProblemFor_example :
    (reported
        (validate_encrypted_select_ad_request request server_top_level_seller "seller.com" []).1
        ad_server_visible
        client_side
        "No Component Auction Results for Top Level Seller auction"
      ≡ true)
    ↔ ((p : Problem) × ("No Component Auction Results for Top Level Seller auction" ≡ message_of p)
        × HasProblem request server_top_level_seller "seller.com" p)
validate_encrypted_select_ad_request-ProblemFor_example =
    validate_encrypted_select_ad_request-ProblemFor request server_top_level_seller "seller.com"
      "No Component Auction Results for Top Level Seller auction"

abbrev result : Api.AuctionResult ℕ
result = record {
  ad_render_url = "ad";
  ad_component_render_urls = [];
  interest_group_name = "n";
  interest_group_owner = "o";
  bid = 3;
  bid_currency = "";
  ad_metadata = "";
  is_chaff = false;
  error_message = "";
  ad_type = Api.ad_type_protected_audience_ad;
  top_level_seller = "seller.com";
  ciphertext_generation_id = "g";
  component_seller = "component.com";
  top_level_reporting_url = "";
}

validate_component_auction_result_iff_example :
    ((validate_component_auction_result result "g" "seller.com" []).0 ≡ true)
    ↔ ((false ≡ true) ⊎ (◌≢◌ {A = String} "" "") ⊎ IsUsable result "g" "seller.com")
validate_component_auction_result_iff_example =
    validate_component_auction_result_iff result "g" "seller.com" []
