-- ===== src/Scoring/Totals.antt =====
-- The characters of debug URLs over a whole round of scoring.
use bas_dev.Common.{
  ◌∙◌, sym, subst, ℕ, suc, ◌+◌, ◌*◌, ◌≤◌, ◌≡◌, refl, List, [], ◌∷◌, Option, none, some, inl, inr,
  ◌⊎◌, arith, String, Option-cases,
}
use bas_dev.Common.Float.{Float}
use bas_dev.Api.{AdScore}
use bas_dev.Json.{Json}
use bas_dev.Scope.{is_component}
use bas_dev.Scoring.{Reactor, DispatchResponse}
use bas_dev.Scoring.Parse.{parse_score_ad_response, parse_and_get_score_ad_response_json}
use bas_dev.Scoring.Handle.{Scored}
use bas_dev.Scoring.Loop.{
  ScoredAd, audience_ad, app_signals_ad, debug_report_urls_length, find_scored_ad_type, scored_of,
  read_response, scored_ads,
}
use bas_dev.Scoring.Urls.{parse_score_ad_response-urls}

module _ {W : Type 0} ⦃f : Float W⦄ where
  -- The characters of an ad's debug URLs.
  abbrev pub urls_of : Scored W → ℕ
  urls_of s = debug_report_urls_length s.ad_score

  abbrev pub total_urls : List (Scored W) → ℕ
  total_urls [] = 0
  total_urls (s ∷ ss) = urls_of s + total_urls ss

  ad_score-scored_of :
      (index : ℕ) (response : DispatchResponse) (json : Json W) (score : AdScore W)
      (ad : ScoredAd W)
      → (scored_of index response json score ad).ad_score ≡ score
  unfolding scored_of
  ad_score-scored_of index response json score (audience_ad ad) = refl
  ad_score-scored_of index response json score (app_signals_ad ad) = refl

  module _ (parse_json_string : String → Option (Json W))
      (serialize_json_doc : Json W → Option String) (r : Reactor W) where
    abbrev read : ℕ → Option DispatchResponse → ℕ → Option (Scored W × ℕ)
    read = read_response parse_json_string serialize_json_doc r

    abbrev IsRead : ℕ → Scored W × ℕ → Type 0
    IsRead current (s, current') =
        (current' ≡ current + 2 * urls_of s)
        × (urls_of s ≤ 2 * r.max_allowed_size_debug_url_chars)
        × ((urls_of s ≡ 0) ⊎ (current + urls_of s ≤ r.max_allowed_size_all_debug_urls_chars))

    read_lem :
        (index : ℕ) (response : DispatchResponse) (current : ℕ) {read_ad : Scored W × ℕ}
        → read index (some response) current ≡ some read_ad
        → IsRead current read_ad
    unfolding read_response
    read_lem index response current {read_ad} h =
        elim (Option-cases (find_scored_ad_type r response.id)) [
          | inl e ↦ absurd (ground (arith, e))
          | inr (ad, e) ↦
              elim (Option-cases
                (parse_and_get_score_ad_response_json parse_json_string response.resp)) [
                  | inl e' ↦ absurd (ground (arith, e, e'))
                  | inr (json, e') ↦
                      elim (Option-cases (
                        parse_score_ad_response serialize_json_doc json
                          r.max_allowed_size_debug_url_chars r.max_allowed_size_all_debug_urls_chars
                          (is_component r.auction_scope) current)) [
                            | inl e2 ↦ absurd (ground (arith, e, e', e2))
                            | inr ((score, current'), e2) ↦
                                let scored = scored_of index response json score ad in
                                let same : (scored, current' + debug_report_urls_length score)
                                    ≡ read_ad =
                                  ground (arith, e, e', e2) in
                                let (grown, small, fits) =
                                  parse_score_ad_response-urls r.max_allowed_size_debug_url_chars
                                    r.max_allowed_size_all_debug_urls_chars serialize_json_doc json
                                    (is_component r.auction_scope) current e2 in
                                subst (IsRead current) same (
                                  rw (ad_score-scored_of index response json score ad)
                                    (omega arith, small, fits))
                          ]
                ]
        ]

    -- When a round of the loop has scored an ad, the counter of debug URL characters has grown by
    -- twice the characters of the ad's URLs; these are at most twice the limit for one URL.
    pub read_response-counter :
        (index : ℕ) (response : DispatchResponse) (current : ℕ) {s : Scored W} {current' : ℕ}
        → read index (some response) current ≡ some (s, current')
        → (current' ≡ current + 2 * urls_of s)
          × (urls_of s ≤ 2 * r.max_allowed_size_debug_url_chars)
    read_response-counter index response current h =
        let (grown, small, fits) = read_lem index response current h in (grown, small)

    abbrev max_all : ℕ
    max_all = r.max_allowed_size_all_debug_urls_chars

    abbrev ads : ℕ → List (Option DispatchResponse) → ℕ → List (Scored W)
    ads = scored_ads parse_json_string serialize_json_doc r

    module _ (index : ℕ) (response : DispatchResponse) (responses : List (Option DispatchResponse))
        (current : ℕ) where
      total-none :
          read index (some response) current ≡ none
          → total_urls (ads index (some response ∷ responses) current)
            ≡ total_urls (ads (suc index) responses current)
      unfolding scored_ads
      total-none e = ground (arith, e)

      total-some :
          {s : Scored W} {current' : ℕ}
          → read index (some response) current ≡ some (s, current')
          → total_urls (ads index (some response ∷ responses) current)
            ≡ urls_of s + total_urls (ads (suc index) responses current')
      unfolding scored_ads
      total-some e = ground (arith, e)

    total_fits :
        (index : ℕ) (responses : List (Option DispatchResponse)) (current total : ℕ)
        → total_urls (scored_ads parse_json_string serialize_json_doc r index responses current)
          ≡ total
        → (total ≡ 0) ⊎ (current + total ≤ max_all)
    unfolding scored_ads read_response
    total_fits index [] current total h = inl (sym h)
    total_fits index (none ∷ responses) current total h =
        total_fits (suc index) responses current total h
    total_fits index (some response ∷ responses) current total h =
        elim (Option-cases (read index (some response) current)) [
          | inl e ↦
              total_fits (suc index) responses current total
                (sym (total-none index response responses current e) ∙ h)
          | inr ((s, current'), e) ↦
              let rest = total_urls (ads (suc index) responses current') in
              let sum : urls_of s + rest ≡ total =
                sym (total-some index response responses current e) ∙ h in
              let read_ad = read_lem index response current e in
              let fits = total_fits (suc index) responses current' rest refl in omega arith
        ]

    -- The debug URLs of all the ads that `FindWinningAd` scores have, in all, at most as many
    -- characters as the limit for all of them.
    pub scored_ads-total_urls :
        (responses : List (Option DispatchResponse))
        → total_urls (scored_ads parse_json_string serialize_json_doc r 0 responses 0) ≤ max_all
    scored_ads-total_urls responses =
        let fits =
          total_fits 0 responses 0
            (total_urls (scored_ads parse_json_string serialize_json_doc r 0 responses 0)) refl in
        omega arith
