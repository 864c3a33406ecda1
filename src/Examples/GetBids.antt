-- ===== src/Examples/GetBids.antt =====
-- The theorems on the buyer frontend, at concrete inputs.
use bas_dev.Common.{lookup, ℕ, ◌≤◌, ◌≡◌, refl, true, false, String, [], ◌∷◌, Option, none, some}
use bas_dev.Common.Int.{pos}
use bas_dev.Api.{client_type_android}
use bas_dev.SelectAd.Messages.{BuyerInput, InterestGroup, GetBidsRawRequest}
use bas_dev.SelectAd.Services.{value}
use bas_dev.GetBids.{
  for_bidding_signals, BuyerServices, GetBidsReactor, for_bids, execute_decrypted, new_reactor,
  get_number_of_bidding_calls, may_get_protected_audience_bids, may_get_protected_signals_bids,
  on_bidding_signals, handle_single_bid_completion, swap_bids, no_call,
}
use bas_dev.GetBids.Steps.{signals_called, signals_came, bids_came, Run, started, then_step}
use bas_dev.SelectAd.Messages.{PerBuyerConfig, AuctionConfig, ProtectedAuctionInput}
use bas_dev.SelectAd.Requests.{
  create_app_get_bids_request, create_get_bids_request,
  may_populate_protected_app_signals_buyer_input,
}
use bas_dev.GetBids.Requests.{create_generate_app_signals_bids_raw_request}
use bas_dev.GetBids.Sent.{create_app_get_bids_request-sent, create_app_get_bids_request-GoesOn}
use bas_dev.GetBids.Finishes.{GoesOn, Run-GoesOn}
use bas_dev.GetBids.Unanswered.{Run-unanswered}

abbrev group : InterestGroup
group = record {
  name = "shoes";
  origin = "https://a";
  browser_signals = record {
    join_count = pos 3;
    recency = pos 120;
    recency_ms = some (pos 125000);
  };
}

-- A request for one interest group, with protected app signals or with an empty input for them.
abbrev request : Option String → GetBidsRawRequest
request signals = record {
  is_chaff = false;
  buyer_input = record { interest_groups = group ∷ []; protected_app_signals = none };
  auction_signals = "{}";
  buyer_signals = "{}";
  seller = "s";
  publisher_name = "p";
  enable_debug_reporting = false;
  log_context = record { generation_id = "1"; adtech_debug_id = "" };
  consented_debug_config = none;
  protected_app_signals_buyer_input =
      some
        (record { protected_app_signals = signals; contextual_protected_app_signals_data = none });
  client_type = client_type_android;
  top_level_seller = "";
  buyer_kv_experiment_group_id = none;
  enable_unlimited_egress = false;
}

abbrev services : BuyerServices ℕ
services = record {
  is_protected_audience_enabled = true;
  is_protected_app_signals_enabled = true;
  get_private_key = λ k. some k;
  hpke_decrypt = λ k c. some c;
  parse = λ p. some (request none);
  call_bidding = λ r s. none;
  call_app_bidding = λ r. none;
  aead_encrypt = λ r. value "c";
}

abbrev r0 : GetBidsRawRequest → GetBidsReactor ℕ
r0 raw_request = execute_decrypted services raw_request

abbrev r1 : GetBidsRawRequest → GetBidsReactor ℕ
r1 raw_request =
    may_get_protected_signals_bids services false (record (r0 raw_request) { signals_due = false })

abbrev r2 : GetBidsRawRequest → GetBidsReactor ℕ
r2 raw_request =
    on_bidding_signals services (value "{}") false (record (r1 raw_request) { audience = no_call })

abbrev r3 : GetBidsRawRequest → GetBidsReactor ℕ
r3 raw_request =
    handle_single_bid_completion services (value []) (swap_bids services) false
      (record (r2 raw_request) { audience = no_call })

three-Run :
    (raw_request : GetBidsRawRequest)
    → (r0 raw_request).signals_due ≡ true
    → (r1 raw_request).audience ≡ for_bidding_signals
    → (r2 raw_request).audience ≡ for_bids
    → Run services 3 (r0 raw_request) (r3 raw_request)
three-Run raw_request e0 e1 e2 =
    then_step
      (then_step (then_step (started (r0 raw_request)) (signals_called (r0 raw_request) false e0))
        (signals_came (r1 raw_request) (value "{}") false e1))
      (bids_came (r2 raw_request) (value []) false e2)

empty-Run : Run services 3 (r0 (request none)) (r3 (request none))
unfolding execute_decrypted new_reactor get_number_of_bidding_calls may_get_protected_audience_bids
    may_get_protected_signals_bids on_bidding_signals
empty-Run = three-Run (request none) refl refl refl

full-Run : Run services 3 (r0 (request (some "signals"))) (r3 (request (some "signals")))
unfolding execute_decrypted new_reactor get_number_of_bidding_calls may_get_protected_audience_bids
    may_get_protected_signals_bids on_bidding_signals
full-Run = three-Run (request (some "signals")) refl refl refl

Run-GoesOn_example : (3 ≤ 4) × GoesOn services (r3 (request (some "signals")))
Run-GoesOn_example =
    Run-GoesOn services (request (some "signals")) refl (r3 (request (some "signals"))) full-Run

Run-unanswered_example : (r3 (request none)).finished ≡ []
Run-unanswered_example =
    Run-unanswered services (request none) refl refl (r3 (request none)) empty-Run

abbrev buyer_config : PerBuyerConfig
buyer_config = record {
  buyer_signals = "{}";
  buyer_kv_experiment_group_id = none;
  buyer_debug_id = "";
  buyer_currency = "USD";
  contextual_protected_app_signals_data = some ("ad" ∷ []);
}

abbrev config : AuctionConfig
config = record {
  seller_signals = "{}";
  auction_signals = "{}";
  buyer_list = "a" ∷ [];
  seller = "s";
  per_buyer_config = ("a", buyer_config) ∷ [];
  seller_debug_id = "";
  top_level_seller = "";
  seller_currency = "USD";
}

abbrev publisher : ProtectedAuctionInput
publisher = record {
  publisher_name = "p";
  enable_debug_reporting = true;
  generation_id = "1";
  consented_debug_config = none;
  enable_unlimited_egress = false;
}

abbrev buyer_input : BuyerInput
buyer_input = record { interest_groups = group ∷ []; protected_app_signals = some "signals" }

abbrev sent : GetBidsRawRequest
sent = create_app_get_bids_request config client_type_android publisher true true "a" buyer_input

create_app_get_bids_request-sent_example :
    let request' = create_generate_app_signals_bids_raw_request sent in
    (request'.protected_app_signals ≡ "signals")
    × (request'.contextual_protected_app_signals_data ≡ some ("ad" ∷ []))
unfolding lookup
create_app_get_bids_request-sent_example =
    create_app_get_bids_request-sent config client_type_android publisher true true "a" buyer_input

sent-Run : Run services 3 (r0 sent) (r3 sent)
unfolding execute_decrypted new_reactor get_number_of_bidding_calls may_get_protected_audience_bids
    may_get_protected_signals_bids on_bidding_signals create_app_get_bids_request
    create_get_bids_request may_populate_protected_app_signals_buyer_input
sent-Run = three-Run sent refl refl refl

create_app_get_bids_request-GoesOn_example : (3 ≤ 4) × GoesOn services (r3 sent)
create_app_get_bids_request-GoesOn_example =
    create_app_get_bids_request-GoesOn config client_type_android publisher true true "a"
      buyer_input services (r3 sent) sent-Run
