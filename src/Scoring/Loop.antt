-- ===== src/Scoring/Loop.antt =====
-- `FindScoredAdType` and `FindWinningAd`: the loop over the responses of the dispatcher.
use Prim.Native.String.{len}
use bas_dev.Common.{ℕ, suc, ◌+◌, String, List, [], ◌∷◌, Option, none, some, string_eq, lookup}
use bas_dev.Common.Float.{Float}
use bas_dev.Api.{
  AdScore, AdWithBidMetadata, ProtectedAppSignalsAdWithBidMetadata, ad_type_protected_audience_ad,
  ad_type_protected_app_signals_ad,
}
use bas_dev.Json.{Json}
use bas_dev.Scope.{is_component}
use bas_dev.Scoring.{Reactor, ScoringData, DispatchResponse}
use bas_dev.Scoring.Parse.{parse_and_get_score_ad_response_json, parse_score_ad_response}
use bas_dev.Scoring.Handle.{Scored, Scores, handle_scored_ad}

-- The ad behind a dispatch id, of one type or the other.
pub data ScoredAd (W : Type 0) : Type 0 where
  audience_ad : AdWithBidMetadata W → ScoredAd W
  app_signals_ad : ProtectedAppSignalsAdWithBidMetadata W → ScoredAd W

unfoldable pub find_scored_ad_type : {W : Type 0} → Reactor W → String → Option (ScoredAd W)
find_scored_ad_type r response_id = elim (lookup response_id r.ad_data) [
  | some ad ↦ some (audience_ad ad)
  | none ↦ elim (lookup response_id r.protected_app_signals_ad_data) [
    | some ad ↦ some (app_signals_ad ad)
    | none ↦ none
  ]
]

-- `DebugReportUrlsLength`.
unfoldable pub debug_report_urls_length : {W : Type 0} → AdScore W → ℕ
debug_report_urls_length ad_score = elim ad_score.debug_report_urls [
  | none ↦ 0
  | some urls ↦ len urls.auction_debug_win_url + len urls.auction_debug_loss_url
]

module _ {W : Type 0} ⦃f : Float W⦄ where
  -- The arguments that the loop gives to `HandleScoredAd`.
  unfoldable pub scored_of : ℕ → DispatchResponse → Json W → AdScore W → ScoredAd W → Scored W
  scored_of index response response_json ad_score (audience_ad ad) = record {
    index = index;
    buyer_bid = ad.bid;
    ad_with_bid_currency = ad.bid_currency;
    interest_group_name = ad.interest_group_name;
    interest_group_owner = ad.interest_group_owner;
    interest_group_origin = ad.interest_group_origin;
    response_json = response_json;
    ad_type = ad_type_protected_audience_ad;
    ad_score = ad_score;
    dispatch_response_id = response.id;
  }
  scored_of index response response_json ad_score (app_signals_ad ad) = record {
    index = index;
    buyer_bid = ad.bid;
    ad_with_bid_currency = "";
    interest_group_name = "";
    interest_group_owner = ad.owner;
    interest_group_origin = "";
    response_json = response_json;
    ad_type = ad_type_protected_app_signals_ad;
    ad_score = ad_score;
    dispatch_response_id = response.id;
  }

  -- `ScoringData` as it is constructed.
  abbrev pub no_scores : ScoringData W
  no_scores = record {
    index_of_most_desirable_ad = 0;
    seller_rejected_bid_count = 0;
    score_ad_map = [];
    desirability_of_most_desirable_ad = f.nought;
    ad_rejection_reasons = [];
    winning_ad = none;
  }

  module _ (parse_json_string : String → Option (Json W))
      (serialize_json_doc : Json W → Option String) (r : Reactor W) where
    -- A round of the loop up to `HandleScoredAd`: its arguments and the new
    -- `current_all_debug_urls_chars`, or nothing where the round ends with `continue`, at a failed
    -- execution, an unknown ad, or a response that cannot be parsed.
    unfoldable pub read_response : ℕ → Option DispatchResponse → ℕ → Option (Scored W × ℕ)
    read_response index none current = none
    read_response index (some response) current = elim (find_scored_ad_type r response.id) [
      | none ↦ none
      | some ad ↦ elim (parse_and_get_score_ad_response_json parse_json_string response.resp) [
        | none ↦ none
        | some response_json ↦
            elim (parse_score_ad_response serialize_json_doc response_json
              r.max_allowed_size_debug_url_chars r.max_allowed_size_all_debug_urls_chars
              (is_component r.auction_scope) current) [
                | none ↦ none
                | some (ad_score, current') ↦ some (
                  scored_of index response response_json ad_score ad,
                  current' + debug_report_urls_length ad_score,
                )
              ]
      ]
    ]

    -- The ads that the loop hands to `HandleScoredAd`, in order.
    unfoldable pub scored_ads : ℕ → List (Option DispatchResponse) → ℕ → List (Scored W)
    scored_ads index [] current = []
    scored_ads index (response ∷ responses) current = elim (read_response index response current) [
      | none ↦ scored_ads (suc index) responses current
      | some (s, current') ↦ s ∷ scored_ads (suc index) responses current'
    ]

    unfoldable pub winning_loop :
        ℕ → List (Option DispatchResponse) → ℕ → Scores W → Option (Scores W)
    winning_loop index [] current scores = some scores
    winning_loop index (response ∷ responses) current scores =
        elim (read_response index response current) [
          | none ↦ winning_loop (suc index) responses current scores
          | some (s, current') ↦ elim (handle_scored_ad r s scores) [
            | none ↦ none
            | some scores' ↦ winning_loop (suc index) responses current' scores'
          ]
        ]

    unfoldable pub find_winning_ad : List (Option DispatchResponse) → Option (Scores W)
    find_winning_ad responses = winning_loop 0 responses 0 ([], no_scores)
