-- ===== src/Scoring/Execution.antt =====
-- `Execute`: what becomes of a ScoreAdsRawRequest, up to the call of the dispatcher. What
-- `BuildTrustedScoringSignals` gave is an argument: the status of its failure, or the test whether it has
-- signals for a render URL. Logging, metrics and the inputs of the requests are left out.
use bas_dev.Common.{
  subst, ◌≡◌, Bool, true, false, not, ◌&&◌, String, List, [], ◌∷◌, none, some, inl, inr, arith,
  if◌then◌else◌, is_empty, Bool-cases, Option-cases, ◌==◌, nat_eq, string_eq,
}
use bas_dev.Api.{AuctionResult, AdWithBidMetadata, ProtectedAppSignalsAdWithBidMetadata}
use bas_dev.Scope.{AuctionScope, is_device_component, is_top_level}
use bas_dev.Scoring.Requests.{
  Dispatch, no_dispatch, populate_top_level_auction_dispatch_requests,
  populate_protected_audience_dispatch_requests,
  may_populate_protected_app_signals_dispatch_requests, top_level_loop, is_skipped, dispatch_ad,
  map_auction_result_to_ad_with_bid_metadata,
}
use bas_dev.Scoring.Dispatched.{
  IsDispatched, IsDispatched-dispatch_ad, populate-IsDispatched, IsDispatched-no_dispatch,
}

-- The fields of the request that decide; the bids are in the order in which the loops take them.
pub record RawRequest (W : Type 0) : Type 0 where
  pub ad_bids : List (AdWithBidMetadata W)
  pub protected_app_signals_ad_bids : List (ProtectedAppSignalsAdWithBidMetadata W)
  pub component_auction_results : List (AuctionResult W)

-- The status that the RPC finishes with, or the requests for the dispatcher.
pub data Execution (W : Type 0) : Type 0 where
  device_component_auction_with_pas no_valid_component_auctions : Execution W
  mismatched_generation_ids no_ads_with_valid_scoring_signals : Execution W
  scoring_signals_failed : String → Execution W
  batch_execute : Dispatch W → Execution W

pub data TrustedSignals : Type 0 where
  signals_error : String → TrustedSignals
  signals_for : (String → Bool) → TrustedSignals

abbrev is_nil : {A : Type 0} → List A → Bool
is_nil [] = true
is_nil (x ∷ xs) = false

module _ {W : Type 0} where
  -- The end of `Execute`, once the requests were made.
  unfoldable pub execute_batch : Dispatch W → Execution W
  execute_batch d =
      if is_nil d.dispatch_requests then no_ads_with_valid_scoring_signals else batch_execute d

  unfoldable pub execute_top_level : RawRequest W → Execution W
  execute_top_level request =
      if is_nil request.component_auction_results
      then no_valid_component_auctions
      else elim (populate_top_level_auction_dispatch_requests request.component_auction_results
          no_dispatch) [ none ↦ mismatched_generation_ids | some d ↦ execute_batch d ]

  -- `serializes` and `app_serializes` are the tests whether the JSON of an ad can be written.
  unfoldable pub execute_with_signals :
      (AdWithBidMetadata W → Bool)
      → (ProtectedAppSignalsAdWithBidMetadata W → Bool)
      → TrustedSignals
      → RawRequest W
      → Execution W
  execute_with_signals serializes app_serializes (signals_error status) request =
      scoring_signals_failed status
  execute_with_signals serializes app_serializes (signals_for scoring_signals) request =
      execute_batch (
        may_populate_protected_app_signals_dispatch_requests app_serializes scoring_signals
          request.protected_app_signals_ad_bids
          (populate_protected_audience_dispatch_requests serializes scoring_signals request.ad_bids
            no_dispatch))

  unfoldable pub execute :
      (AdWithBidMetadata W → Bool)
      → (ProtectedAppSignalsAdWithBidMetadata W → Bool)
      → AuctionScope
      → TrustedSignals
      → RawRequest W
      → Execution W
  execute serializes app_serializes auction_scope signals request =
      if is_device_component auction_scope && not (is_nil request.protected_app_signals_ad_bids)
      then device_component_auction_with_pas
      else if is_top_level auction_scope
      then execute_top_level request
      else execute_with_signals serializes app_serializes signals request

  top_level_loop-IsDispatched :
      (generation_id : String) (results : List (AuctionResult W)) (d : Dispatch W)
      {found : Dispatch W}
      → IsDispatched d
      → top_level_loop generation_id results d ≡ some found
      → IsDispatched found
  unfolding top_level_loop map_auction_result_to_ad_with_bid_metadata
  top_level_loop-IsDispatched generation_id [] d {found} h e =
      let same : d ≡ found = ground (arith, e) in subst IsDispatched same h
  top_level_loop-IsDispatched generation_id (result ∷ results) d {found} h e =
      let rest =
        dispatch_ad result.ad_render_url (map_auction_result_to_ad_with_bid_metadata result) d in
      let held : IsDispatched rest =
        IsDispatched-dispatch_ad (map_auction_result_to_ad_with_bid_metadata result) d h in
      elim (Bool-cases (is_skipped result)) [
        | inl b ↦
            top_level_loop-IsDispatched generation_id results d {found = found} h
              (ground (arith, e, b))
        | inr b ↦ elim (Bool-cases (is_empty generation_id)) [
          | inl c ↦
              top_level_loop-IsDispatched result.ciphertext_generation_id results rest
                {found = found} held (ground (arith, e, b, c))
          | inr c ↦ elim (Bool-cases (generation_id == result.ciphertext_generation_id)) [
            | inl k ↦
                top_level_loop-IsDispatched generation_id results rest {found = found} held
                  (ground (arith, e, b, c, k))
            | inr k ↦ absurd (ground (arith, e, b, c, k))
          ]
        ]
      ]

  -- Requests to dispatch, one at least, each of which belongs to an ad.
  abbrev pub IsBatch : Dispatch W → Type 0
  IsBatch d = IsDispatched d × (is_nil d.dispatch_requests ≡ false)

  IsBatch-execute_batch :
      (made d : Dispatch W) → IsDispatched made → execute_batch made ≡ batch_execute d → IsBatch d
  unfolding execute_batch
  IsBatch-execute_batch made d h e = elim (Bool-cases (is_nil made.dispatch_requests)) [
    | inl b ↦ absurd (ground (arith, e, b))
    | inr b ↦ let same : made ≡ d = ground (arith, e, b) in subst IsBatch same (h, b)
  ]

  IsBatch-execute_top_level :
      (request : RawRequest W) (d : Dispatch W)
      → execute_top_level request ≡ batch_execute d
      → IsBatch d
  unfolding execute_top_level populate_top_level_auction_dispatch_requests
  IsBatch-execute_top_level request d e =
      elim (Bool-cases (is_nil request.component_auction_results)) [
        | inl b ↦ absurd (ground (arith, e, b))
        | inr b ↦
            elim (Option-cases (top_level_loop "" request.component_auction_results no_dispatch)) [
              | inl n ↦ absurd (ground (arith, e, b, n))
              | inr (made, n) ↦
                  IsBatch-execute_batch made d
                    (top_level_loop-IsDispatched "" request.component_auction_results no_dispatch
                      IsDispatched-no_dispatch n)
                    (ground (arith, e, b, n))
            ]
      ]

  IsBatch-execute_with_signals :
      (serializes : AdWithBidMetadata W → Bool)
      (app_serializes : ProtectedAppSignalsAdWithBidMetadata W → Bool) (signals : TrustedSignals)
      (request : RawRequest W) (d : Dispatch W)
      → execute_with_signals serializes app_serializes signals request ≡ batch_execute d
      → IsBatch d
  unfolding execute_with_signals
  IsBatch-execute_with_signals serializes app_serializes (signals_error status) request d e =
      absurd (ground (arith, e))
  IsBatch-execute_with_signals serializes app_serializes (signals_for scoring_signals) request d e =
      IsBatch-execute_batch _ d
        (populate-IsDispatched serializes app_serializes scoring_signals request.ad_bids
          request.protected_app_signals_ad_bids)
        e

  -- What `Execute` hands to the dispatcher is one request at least, and each request is that of an
  -- ad that the reactor holds, whatever the kind of the auction and whatever ads fail to be written
  -- as JSON.
  pub execute-IsBatch :
      (serializes : AdWithBidMetadata W → Bool)
      (app_serializes : ProtectedAppSignalsAdWithBidMetadata W → Bool)
      (auction_scope : AuctionScope) (signals : TrustedSignals) (request : RawRequest W)
      (d : Dispatch W)
      → execute serializes app_serializes auction_scope signals request ≡ batch_execute d
      → IsBatch d
  unfolding execute
  execute-IsBatch serializes app_serializes auction_scope signals request d e =
      elim (Bool-cases
        (is_device_component auction_scope && not (is_nil request.protected_app_signals_ad_bids))) [
          | inl b ↦ absurd (ground (arith, e, b))
          | inr b ↦ elim (Bool-cases (is_top_level auction_scope)) [
            | inl c ↦ IsBatch-execute_top_level request d (ground (arith, e, b, c))
            | inr c ↦
                IsBatch-execute_with_signals serializes app_serializes signals request d
                  (ground (arith, e, b, c))
          ]
        ]
