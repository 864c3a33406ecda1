-- ===== src/Scoring/Callback.antt =====
-- `ScoreAdsCallback` and `PerformDebugReporting`: what the reactor sends once the dispatcher has
-- answered. Logging, metrics and the encryption of the response are left out, and the dispatch of
-- the reporting script stays a request for it. `none` is undefined behaviour, as in the functions called.
use bas_dev.Common.{
  Bool, true, false, ◌&&◌, String, List, [], ◌∷◌, Option, none, some, ◌==◌, string_eq, is_empty,
  if◌then◌else◌,
}
use bas_dev.Common.Float.{Float}
use bas_dev.Api.{AdScore}
use bas_dev.Json.{Json, number, object, is_object, find_member}
use bas_dev.Scoring.Parse.{response_of, score_of_object}
use bas_dev.Signals.{
  PostAuctionSignals, generate_post_auction_signals, get_placeholder_data_for_interest_group,
  create_debug_reporting_url,
}
use bas_dev.Scope.{is_top_level, is_component}
use bas_dev.Scoring.{Reactor, DispatchResponse}
use bas_dev.Scoring.Handle.{Scores}
use bas_dev.Scoring.Loop.{find_winning_ad, find_scored_ad_type}
use bas_dev.Scoring.Others.{
  response_id, populate_relevant_fields_in_response, populate_highest_scoring_other_bids_data,
}

-- What the callback leaves: the score of the response, the URLs of the debug reports in order, and
-- the score and id for `PerformReporting`, if it is called.
pub record Outcome (W : Type 0) : Type 0 where
  pub ad_score : Option (AdScore W)
  pub debug_reports : List String
  pub reporting : Option (AdScore W × String)

module _ {W : Type 0} ⦃f : Float W⦄ (r : Reactor W) where
  -- Whether the lookups in a response's JSON, once it is parsed, are all in objects: `FindMember` of
  -- rapidjson is undefined on other values. They end where the ad of a component auction cannot be
  -- written.
  unfoldable pub is_readable_json : (Json W → Option String) → Json W → Bool
  is_readable_json serialize_json_doc (number x) = true
  is_readable_json serialize_json_doc (object members) =
      elim (score_of_object serialize_json_doc (object members) (is_component r.auction_scope)) [
        | none ↦ true
        | some score ↦ elim (find_member "debugReportUrls" (object members)) [
          | none ↦ true
          | some urls ↦ is_object urls
        ]
      ]
  is_readable_json serialize_json_doc _ = false

  -- The same of a response of the dispatcher, which is read if it belongs to an ad and can be parsed.
  unfoldable pub is_readable :
      (String → Option (Json W)) → (Json W → Option String) → Option DispatchResponse → Bool
  is_readable parse_json_string serialize_json_doc none = true
  is_readable parse_json_string serialize_json_doc (some response) =
      elim (find_scored_ad_type r response.id) [
        | none ↦ true
        | some ad ↦ elim (parse_json_string response.resp) [
          | none ↦ true
          | some document ↦
              is_object document
              && is_readable_json serialize_json_doc (response_of (find_member "response" document))
        ]
      ]

  unfoldable pub are_readable :
      (String → Option (Json W)) → (Json W → Option String) → List (Option DispatchResponse) → Bool
  are_readable parse_json_string serialize_json_doc [] = true
  are_readable parse_json_string serialize_json_doc (response ∷ responses) =
      is_readable parse_json_string serialize_json_doc response
      && are_readable parse_json_string serialize_json_doc responses

module _ {W : Type 0} ⦃f : Float W⦄ (r : Reactor W) (format : W → String)
    (str_replace_all : String → List (String × String) → String) where
  -- Whether an ad counts as the winner for its debug report.
  abbrev pub is_win_debug_url : PostAuctionSignals W → AdScore W → Bool
  is_win_debug_url signals ad_score =
      ad_score.interest_group_owner == signals.winning_ig_owner
      && ad_score.interest_group_name == signals.winning_ig_name

  -- The debug URL to report for an ad, empty if there is none.
  abbrev pub debug_url_of : PostAuctionSignals W → AdScore W → String
  debug_url_of signals ad_score = elim ad_score.debug_report_urls [
    | none ↦ ""
    | some urls ↦
        if is_win_debug_url signals ad_score
        then urls.auction_debug_win_url
        else urls.auction_debug_loss_url
  ]

  unfoldable pub debug_reports_of : PostAuctionSignals W → List (String × AdScore W) → List String
  debug_reports_of signals [] = []
  debug_reports_of signals ((id, ad_score) ∷ ad_scores) =
      let rest = debug_reports_of signals ad_scores in
      let debug_url = debug_url_of signals ad_score in
      if is_empty debug_url
      then rest
      else create_debug_reporting_url format str_replace_all debug_url
          (get_placeholder_data_for_interest_group ad_score.interest_group_owner
            ad_score.interest_group_name signals)
          (is_win_debug_url signals ad_score)
        ∷ rest

  unfoldable pub perform_debug_reporting :
      List (String × AdScore W) → Option (AdScore W) → List String
  perform_debug_reporting ad_scores winning_ad =
      if is_top_level r.auction_scope
      then []
      else debug_reports_of (generate_post_auction_signals winning_ad r.seller_currency) ad_scores

  module _ (sort : (W → W → Bool) → List W → List W)
      (enable_debug_reporting enable_report_result_url_generation : Bool) where
    -- The winner as it goes into the response.
    unfoldable pub complete_winner :
        List (Option DispatchResponse) → String → Scores W → AdScore W → Option (AdScore W)
    complete_winner responses id (ad_scores, scoring) winning_ad =
        elim (populate_relevant_fields_in_response r id winning_ad) [
          | none ↦ none
          | some rendered ↦
              elim (populate_highest_scoring_other_bids_data r ad_scores responses sort
                scoring.index_of_most_desirable_ad scoring.score_ad_map rendered) [
                  | none ↦ none
                  | some populated ↦
                      some
                        (record populated { ad_rejection_reasons = scoring.ad_rejection_reasons })
                ]
        ]

    unfoldable pub finish_scoring : List (Option DispatchResponse) → Scores W → Option (Outcome W)
    finish_scoring responses (ad_scores, scoring) = elim scoring.winning_ad [
      | none ↦ some (record {
        ad_score = none;
        debug_reports =
            if enable_debug_reporting then perform_debug_reporting ad_scores none else [];
        reporting = none;
      })
      | some winning_ad ↦ elim (response_id responses scoring.index_of_most_desirable_ad) [
        | none ↦ none
        | some id ↦ elim (complete_winner responses id (ad_scores, scoring) winning_ad) [
          | none ↦ none
          | some winner ↦ some (record {
            ad_score = some winner;
            debug_reports =
                if enable_debug_reporting
                then perform_debug_reporting ad_scores (some winner)
                else [];
            reporting = if enable_report_result_url_generation then some (winner, id) else none;
          })
        ]
      ]
    ]

    unfoldable pub score_ads_callback :
        (String → Option (Json W))
        → (Json W → Option String)
        → List (Option DispatchResponse)
        → Option (Outcome W)
    score_ads_callback parse_json_string serialize_json_doc responses =
        elim (are_readable r parse_json_string serialize_json_doc responses) [
          | false ↦ none
          | true ↦ elim (find_winning_ad parse_json_string serialize_json_doc r responses) [
            | none ↦ none
            | some scores ↦ finish_scoring responses scores
          ]
        ]
