-- ===== src/SelectAd/Requests/Scores.antt =====
-- `CreateScoreAdsRequest` of the base class and of the app's reactor, and whose ads it scores.
use bas_dev.Common.{
  filter, IsMap, ◌≡◌, refl, ap, ◌∙◌, Bool, true, false, String, List, [], ◌∷◌, ◌++◌, Option, none,
  some, map, ◌==◌, string_eq, lookup, emplace, if◌then◌else◌,
}
use bas_dev.Api.{ClientType}
use bas_dev.SelectAd.Messages.{
  BuyerInput, PerBuyerConfig, AuctionConfig, ProtectedAuctionInput, AdWithBid,
  ProtectedAppSignalsAdWithBid, AdToScore, AppSignalsAdToScore, ScoreAdsRawRequest,
}
use bas_dev.SelectAd.Currency.{BuyerBids}
use bas_dev.SelectAd.Requests.Attributed.{stretches, filter-stretches}
use bas_dev.SelectAd.Requests.{
  build_ad_with_bid_metadata, build_protected_app_signals_ad_with_bid_metadata,
}

-- `*buyer_inputs_->find(owner)` at an owner without an entry is not defined in the source; the
-- reactor only asks for owners that it found there before.
abbrev pub input_of : List (String × BuyerInput) → String → BuyerInput
input_of buyer_inputs owner = elim (lookup owner buyer_inputs) [
  | none ↦ record { interest_groups = []; protected_app_signals = none }
  | some input ↦ input
]

unfoldable pub per_buyer_signals :
    List (String × PerBuyerConfig) → List (String × String) → List (String × String)
per_buyer_signals [] signals = signals
per_buyer_signals ((buyer, config) ∷ later) signals =
    per_buyer_signals later (emplace buyer config.buyer_signals signals)

module _ {W : Type 0} where
  -- The two loops over `shared_buyer_bids_map_`.
  unfoldable pub ads_to_score :
      ClientType → List (String × BuyerInput) → BuyerBids W → List (AdToScore W)
  ads_to_score client_type buyer_inputs [] = []
  ads_to_score client_type buyer_inputs ((buyer, response) ∷ later) =
      map (build_ad_with_bid_metadata client_type (input_of buyer_inputs buyer) buyer) response.bids
      ++ ads_to_score client_type buyer_inputs later

  unfoldable pub app_signals_ads_to_score : BuyerBids W → List (AppSignalsAdToScore W)
  app_signals_ads_to_score [] = []
  app_signals_ads_to_score ((buyer, response) ∷ later) =
      map (build_protected_app_signals_ad_with_bid_metadata buyer)
        response.protected_app_signals_bids
      ++ app_signals_ads_to_score later

  unfoldable pub create_score_ads_request :
      AuctionConfig
      → ClientType
      → ProtectedAuctionInput
      → Bool
      → List (String × BuyerInput)
      → Option String
      → BuyerBids W
      → ScoreAdsRawRequest W
  create_score_ads_request config client_type protected_input is_protected_audience_enabled
        buyer_inputs scoring_signals buyer_bids =
      record {
        ad_bids =
            if is_protected_audience_enabled
            then ads_to_score client_type buyer_inputs buyer_bids
            else [];
        protected_app_signals_ad_bids = [];
        auction_signals = config.auction_signals;
        seller_currency = config.seller_currency;
        seller_signals = config.seller_signals;
        top_level_seller = config.top_level_seller;
        scoring_signals = scoring_signals;
        publisher_hostname = protected_input.publisher_name;
        enable_debug_reporting = protected_input.enable_debug_reporting;
        log_context = record {
          generation_id = protected_input.generation_id;
          adtech_debug_id = config.seller_debug_id;
        };
        consented_debug_config = protected_input.consented_debug_config;
        per_buyer_signals = per_buyer_signals config.per_buyer_config [];
        seller = config.seller;
      }

  -- `MayPopulateProtectedAppSignalsBids`.
  unfoldable pub may_populate_protected_app_signals_bids :
      Bool → BuyerBids W → ScoreAdsRawRequest W → ScoreAdsRawRequest W
  may_populate_protected_app_signals_bids is_pas_enabled buyer_bids request =
      if is_pas_enabled
      then record request {
        protected_app_signals_ad_bids =
            request.protected_app_signals_ad_bids ++ app_signals_ads_to_score buyer_bids;
      }
      else request

  unfoldable pub create_app_score_ads_request :
      AuctionConfig
      → ClientType
      → ProtectedAuctionInput
      → Bool
      → Bool
      → List (String × BuyerInput)
      → Option String
      → BuyerBids W
      → ScoreAdsRawRequest W
  create_app_score_ads_request config client_type protected_input is_protected_audience_enabled
        is_pas_enabled buyer_inputs scoring_signals buyer_bids =
      may_populate_protected_app_signals_bids is_pas_enabled buyer_bids (
        create_score_ads_request config client_type protected_input is_protected_audience_enabled
          buyer_inputs scoring_signals buyer_bids)

  abbrev pub bids_of : String → BuyerBids W → List (AdWithBid W)
  bids_of buyer buyer_bids = elim (lookup buyer buyer_bids) [
    | none ↦ []
    | some response ↦ response.bids
  ]

  abbrev pub app_signals_bids_of : String → BuyerBids W → List (ProtectedAppSignalsAdWithBid W)
  app_signals_bids_of buyer buyer_bids = elim (lookup buyer buyer_bids) [
    | none ↦ []
    | some response ↦ response.protected_app_signals_bids
  ]

  module _ (client_type : ClientType) (buyer_inputs : List (String × BuyerInput))
      (buyer : String) where
    abbrev build_for : String → AdWithBid W → AdToScore W
    build_for owner = build_ad_with_bid_metadata client_type (input_of buyer_inputs owner) owner

    ads_to_score-stretches :
        (m : BuyerBids W)
        → ads_to_score client_type buyer_inputs m
          ≡ stretches (λ r. r.bids) build_for (λ ad. ad.interest_group_owner) m
    unfolding ads_to_score
    ads_to_score-stretches [] = refl
    ads_to_score-stretches ((owner, response) ∷ m) =
        ap (map (build_for owner) response.bids ++◌) (ads_to_score-stretches m)

    ads_to_score-owners :
        (m : BuyerBids W)
        → IsMap m
        → filter (λ ad. ad.interest_group_owner == buyer) (ads_to_score client_type buyer_inputs m)
          ≡ map (build_for buyer) (bids_of buyer m)
    unfolding build_ad_with_bid_metadata
    ads_to_score-owners m distinct =
        ap (filter (λ ad. ad.interest_group_owner == buyer)) (ads_to_score-stretches m)
        ∙ filter-stretches (λ r. r.bids) build_for (λ ad. ad.interest_group_owner) (λ key ad. refl)
            buyer m distinct

  app_signals_ads_to_score-stretches :
      (m : BuyerBids W)
      → app_signals_ads_to_score m
        ≡ stretches
            (λ r. r.protected_app_signals_bids)
            build_protected_app_signals_ad_with_bid_metadata
            (λ ad. ad.owner)
            m
  unfolding app_signals_ads_to_score
  app_signals_ads_to_score-stretches [] = refl
  app_signals_ads_to_score-stretches ((owner, response) ∷ m) =
      ap
        (map (build_protected_app_signals_ad_with_bid_metadata owner)
          response.protected_app_signals_bids ++◌)
        (app_signals_ads_to_score-stretches m)

  app_signals_ads_to_score-owners :
      (buyer : String) (m : BuyerBids W)
      → IsMap m
      → filter (λ ad. ad.owner == buyer) (app_signals_ads_to_score m)
        ≡ map (build_protected_app_signals_ad_with_bid_metadata buyer) (app_signals_bids_of buyer m)
  unfolding build_protected_app_signals_ad_with_bid_metadata
  app_signals_ads_to_score-owners buyer m distinct =
      ap (filter (λ ad. ad.owner == buyer)) (app_signals_ads_to_score-stretches m)
      ∙ filter-stretches (λ r. r.protected_app_signals_bids)
          build_protected_app_signals_ad_with_bid_metadata (λ ad. ad.owner) (λ key ad. refl) buyer m
          distinct

  -- In the request of the app's reactor, what an owner of the bids owns among the ads to score is
  -- its own bids, in their order, and nothing of a kind that is not enabled.
  pub create_app_score_ads_request-owners :
      (config : AuctionConfig) (client_type : ClientType) (protected_input : ProtectedAuctionInput)
      (pa pas : Bool) (buyer_inputs : List (String × BuyerInput)) (scoring_signals : Option String)
      (buyer_bids : BuyerBids W) (buyer : String)
      → IsMap buyer_bids
      → let request =
          create_app_score_ads_request config client_type protected_input pa pas buyer_inputs
            scoring_signals buyer_bids in
        (filter (λ ad. ad.interest_group_owner == buyer) request.ad_bids ≡ (
          if pa
          then map
              (build_ad_with_bid_metadata client_type (input_of buyer_inputs buyer) buyer)
              (bids_of buyer buyer_bids)
          else []))
        × (filter (λ ad. ad.owner == buyer) request.protected_app_signals_ad_bids ≡ (
            if pas
            then map
                (build_protected_app_signals_ad_with_bid_metadata buyer)
                (app_signals_bids_of buyer buyer_bids)
            else []))
  unfolding create_app_score_ads_request create_score_ads_request
      may_populate_protected_app_signals_bids
  create_app_score_ads_request-owners config client_type protected_input true true buyer_inputs
        scoring_signals buyer_bids buyer distinct =
      (
        ads_to_score-owners client_type buyer_inputs buyer buyer_bids distinct,
        app_signals_ads_to_score-owners buyer buyer_bids distinct,
      )
  create_app_score_ads_request-owners config client_type protected_input true false buyer_inputs
        scoring_signals buyer_bids buyer distinct =
      (ads_to_score-owners client_type buyer_inputs buyer buyer_bids distinct, refl)
  create_app_score_ads_request-owners config client_type protected_input false true buyer_inputs
        scoring_signals buyer_bids buyer distinct =
      (refl, app_signals_ads_to_score-owners buyer buyer_bids distinct)
  create_app_score_ads_request-owners config client_type protected_input false false buyer_inputs
        scoring_signals buyer_bids buyer distinct =
      (refl, refl)
