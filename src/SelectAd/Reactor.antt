-- ===== src/SelectAd/Reactor.antt =====
-- The state of `SelectAdReactor` and its handlers, from
-- services/seller_frontend_service/select_ad_reactor.cc. Metrics, logs and the copies of debug
-- information are left out. A handler that the source calls from a lock or a callback is one
-- function of the state; `finished` holds the calls of `Finish`.
pub mod Execute
pub mod Steps
pub mod Phases
mod Bidding
mod Bounds
pub mod Finishes
use Prim.Native.String
use bas_dev.Common.{
  ℕ, ◌≡◌, Bool, true, false, not, ◌&&◌, ◌||◌, String, List, [], ◌∷◌, ◌++◌, Option, none, some, ltb,
  is_empty, length, emplace, string_eq, if◌then◌else◌,
}
use bas_dev.Common.Int.{ℤ, pos}
use bas_dev.Common.Float.{Float}
use bas_dev.Api.{AdScore}
use bas_dev.Scope.{is_server_component}
use bas_dev.TaskTracker.{
  TaskStatus, skipped, empty_response, error, success, Tracker, tracking, task_completed,
}
use bas_dev.Errors.{
  client_visible, ad_server_visible, client_side, server_side, ErrorAccumulator, report_error,
  has_errors, get_accumulated_error_string,
}
use bas_dev.SelectAd.Messages.{GetBidsRawResponse, ScoreAdsRawRequest}
use bas_dev.SelectAd.Currency.{BuyerBids, empty, has_no_bids, filter_bids_with_mismatching_currency}
use bas_dev.SelectAd.Requests.Scores.{create_score_ads_request, create_app_score_ads_request}
use bas_dev.SelectAd.Services.{
  GrpcCode, grpc_ok, grpc_internal, grpc_invalid_argument, grpc_aborted, Status, StatusOr, value,
  failure, Request, Decoded, Plaintext, plaintext, finished_with, left_open, Services,
}
use bas_dev.SelectAd.Solicit.{Soliciting, TaskOutcome, completed, awaited, visit}
use bas_dev.SelectAd.Checks.{
  report_failed, have_errors, may_populate_ad_server_visible_errors,
  validate_protected_auction_input, may_populate_client_visible_errors,
}
use bas_dev.SelectAd.Reports.{report_to_buyers}

-- The response that is awaited from another service than a buyer's.
pub data Waiting : Type 0 where
  idle for_signals for_scores : Waiting

pub record SelectAdReactor (W : Type 0) : Type 0 where
  pub decoded : Decoded
  pub to_visit : List String
  pub soliciting : Soliciting
  pub called : List String
  pub tracker : Tracker
  pub buyer_bids : BuyerBids W
  pub errors : ErrorAccumulator
  pub error_message : Option String
  pub scoring_signals : Option String
  pub waiting : Waiting
  pub ciphertext : Option String
  pub key_id : Option String
  pub reports : List String
  pub finished : List Status

abbrev pub finish : {W : Type 0} → GrpcCode → String → SelectAdReactor W → SelectAdReactor W
finish code message r = record r {
  finished = record { code = code; message = message } ∷ r.finished;
}

abbrev internal_server_error : String
internal_server_error = "Internal server error."

abbrev pub is_internal : GrpcCode → Bool
is_internal grpc_internal = true
is_internal _ = false

-- A score with a bid of nought does not count.
abbrev pub high_score_of : {W : Type 0} ⦃f : Float W⦄ → Option (AdScore W) → Option (AdScore W)
high_score_of ⦃f⦄ none = none
high_score_of ⦃f⦄ (some score) = if f.gt score.buyer_bid f.nought then some score else none

module _ {W : Type 0} ⦃f : Float W⦄ (services : Services W) (request : Request) where
  -- `EncryptResponse`, and the end of `OnScoreAdsDone` that follows it.
  unfoldable pub encrypt_response : String → SelectAdReactor W → SelectAdReactor W
  encrypt_response text r = elim (is_server_component request.auction_scope) [
    | true ↦ elim (services.hpke_encrypt text) [
      | none ↦ finish grpc_internal internal_server_error r
      | some (ciphertext, key_id) ↦
          finish grpc_ok "" (record r { ciphertext = some ciphertext; key_id = some key_id })
    ]
    | false ↦ elim (services.encapsulate text) [
      | none ↦ finish grpc_internal internal_server_error r
      | some ciphertext ↦ finish grpc_ok "" (record r { ciphertext = some ciphertext })
    ]
  ]

  -- The end of `OnScoreAdsDone`, from the error for the client on.
  unfoldable pub respond : Option (AdScore W) → SelectAdReactor W → SelectAdReactor W
  respond high_score r =
      let error =
        if have_errors client_visible r.errors
        then some (elim r.error_message [ none ↦ "" | some message ↦ message ])
        else none in
      elim (services.non_encrypted_response high_score error r.buyer_bids) [
        | plaintext text ↦ encrypt_response text r
        | finished_with status ↦ finish status.code status.message r
        | left_open ↦ r
      ]

  unfoldable pub on_score_ads_done :
      StatusOr (Option (AdScore W)) → SelectAdReactor W → SelectAdReactor W
  on_score_ads_done response r = elim (have_errors ad_server_visible r.errors) [
    | true ↦
        finish grpc_invalid_argument (get_accumulated_error_string r.errors ad_server_visible) r
    | false ↦ elim response [
      | failure status ↦
          if is_internal status.code then respond none r else finish status.code status.message r
      | value ad_score ↦
          let high_score = high_score_of ad_score in
          let reports =
            report_to_buyers services r.decoded.input request.config.seller_currency high_score
              r.buyer_bids in
          respond high_score (record r { reports = r.reports ++ reports })
    ]
  ]

  -- The virtual `CreateScoreAdsRequest`.
  abbrev pub score_ads_request : SelectAdReactor W → ScoreAdsRawRequest W
  score_ads_request r =
      if services.for_app
      then create_app_score_ads_request request.config request.client_type r.decoded.input
          services.is_protected_audience_enabled services.is_pas_enabled r.decoded.buyer_inputs
          r.scoring_signals r.buyer_bids
      else create_score_ads_request request.config request.client_type r.decoded.input
          services.is_protected_audience_enabled r.decoded.buyer_inputs r.scoring_signals
          r.buyer_bids

  unfoldable pub score_ads : SelectAdReactor W → SelectAdReactor W
  score_ads r =
      let raw_request = score_ads_request r in
      elim (empty raw_request.ad_bids && empty raw_request.protected_app_signals_ad_bids) [
        | true ↦ on_score_ads_done (value none) r
        | false ↦ elim (services.call_scoring raw_request) [
          | true ↦ record r { waiting = for_scores }
          | false ↦ finish grpc_internal internal_server_error r
        ]
      ]

  unfoldable pub on_fetch_scoring_signals_done :
      StatusOr String → SelectAdReactor W → SelectAdReactor W
  on_fetch_scoring_signals_done result r = elim result [
    | failure status ↦
        let errors = report_error ad_server_visible "Internal Error" server_side r.errors in
        on_score_ads_done (value none) (record r { errors = errors })
    | value signals ↦
        let r' = record r { scoring_signals = some signals } in
        elim (is_empty signals) [ true ↦ on_score_ads_done (value none) r' | false ↦ score_ads r' ]
  ]

  -- The filter runs out of no fuel, so its result is there; see the module of the filter.
  unfoldable pub on_all_bids_done : Bool → Bool → SelectAdReactor W → SelectAdReactor W
  on_all_bids_done is_cancelled any_successful_bids r = elim is_cancelled [
    | true ↦ finish grpc_aborted "Request Cancelled by Client." r
    | false ↦ elim (empty r.buyer_bids) [
      | true ↦ elim any_successful_bids [
        | false ↦ finish grpc_internal internal_server_error r
        | true ↦ on_score_ads_done (value none) r
      ]
      | false ↦
          elim (filter_bids_with_mismatching_currency services.is_protected_audience_enabled
            services.is_pas_enabled request.config r.buyer_bids) [
              | none ↦ r
              | some (any_valid_bids, buyer_bids) ↦
                  let filtered = record r { buyer_bids = buyer_bids } in
                  elim any_valid_bids [
                    | false ↦
                        finish grpc_invalid_argument
                          "All bids rejected for failure to match buyer currency." filtered
                    | true ↦ record filtered { waiting = for_signals }
                  ]
            ]
    ]
  ]

  -- `async_task_tracker_.TaskCompleted`, with `OnAllBidsDone` as its final callback.
  unfoldable pub complete :
      TaskStatus → Option (BuyerBids W → BuyerBids W) → Bool → SelectAdReactor W → SelectAdReactor W
  complete status on_single_task_done is_cancelled r =
      let (tracker, buyer_bids, call) =
        task_completed status on_single_task_done (r.tracker, r.buyer_bids) in
      let r' = record r { tracker = tracker; buyer_bids = buyer_bids } in
      elim call [ none ↦ r' | some any ↦ on_all_bids_done is_cancelled any r' ]

  unfoldable pub on_fetch_bids_done :
      StatusOr (GetBidsRawResponse W) → String → Bool → SelectAdReactor W → SelectAdReactor W
  on_fetch_bids_done response buyer_ig_owner is_cancelled r = elim response [
    | failure status ↦ complete error none is_cancelled r
    | value found ↦
        elim (has_no_bids services.is_protected_audience_enabled services.is_pas_enabled found) [
          | true ↦ complete empty_response none is_cancelled r
          | false ↦ complete success (some (emplace buyer_ig_owner found)) is_cancelled r
        ]
  ]

  -- One turn of the loop over the buyers, for a buyer that is taken off the list.
  unfoldable pub visit_buyer : String → Bool → SelectAdReactor W → SelectAdReactor W
  visit_buyer buyer is_cancelled r =
      let (outcome, soliciting) = visit services request r.decoded buyer r.soliciting in
      let r' = record r { soliciting = soliciting } in
      elim outcome [
        | completed status ↦ complete status none is_cancelled r'
        | awaited ↦ record r' { called = buyer ∷ r'.called }
      ]
