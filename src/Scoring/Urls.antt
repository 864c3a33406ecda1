-- ===== src/Scoring/Urls.antt =====
-- The limits on the debug URLs of the scored ads, and the counter of their characters.
use Prim.Native.String.{len}
use bas_dev.Common.{
  subst, ℕ, ◌+◌, ◌*◌, ◌≤◌, ◌≡◌, refl, Bool, ◌&&◌, Option, none, some, inl, inr, ◌⊎◌, arith, String,
  Option-cases, Bool-cases, leb,
}
use bas_dev.Common.Float.{Float}
use bas_dev.Api.{AdScore, DebugReportUrls}
use bas_dev.Json.{Json, null, bool, number, string, array, object, find_member}
use bas_dev.Scoring.Parse.{
  score_of_object, url_in_limit, get_debug_url_if_in_limit, debug_report_urls_from, with_debug_urls,
  with_component_fields, parse_score_ad_response,
}
use bas_dev.Scoring.Loop.{debug_report_urls_length}

module _ (max_url max_all : ℕ) where
  abbrev IsInLimit : ℕ → String → Type 0
  IsInLimit current url = (len url ≤ max_url) × ((len url ≡ 0) ⊎ (len url + current ≤ max_all))

  IsInLimit-empty : (current : ℕ) → IsInLimit current ""
  IsInLimit-empty current = (omega arith, inl refl)

  -- The size of both URLs.
  abbrev urls_length : DebugReportUrls → ℕ
  urls_length urls = len urls.auction_debug_win_url + len urls.auction_debug_loss_url

  abbrev IsCounted : ℕ → ℕ → ℕ → Type 0
  IsCounted current current' size =
      (current' ≡ current + size) × (size ≤ 2 * max_url) × ((size ≡ 0) ⊎ (current + size ≤ max_all))

  module _ {W : Type 0} where
    IsInLimit-url :
        (current : ℕ) (url : Option (Json W))
        → IsInLimit current (url_in_limit max_url max_all current url)
    IsInLimit-url current (some (string url)) =
        elim (Bool-cases (leb (len url) max_url && leb (len url + current) max_all)) [
          | inl e ↦ rw e (ground arith)
          | inr e ↦ rw e (IsInLimit-empty current)
        ]
    IsInLimit-url current _ = IsInLimit-empty current

    from-IsCounted :
        (urls : Json W) (current : ℕ)
        → IsCounted current
            (debug_report_urls_from urls max_url max_all current).1
            (urls_length (debug_report_urls_from urls max_url max_all current).0)
    unfolding get_debug_url_if_in_limit
    from-IsCounted urls current =
        let win = url_in_limit max_url max_all current (find_member "auctionDebugWinUrl" urls) in
        let won = IsInLimit-url current (find_member "auctionDebugWinUrl" urls) in
        let lost = IsInLimit-url (current + len win) (find_member "auctionDebugLossUrl" urls) in
        (omega arith, omega arith, omega arith)

    module _ ⦃f : Float W⦄ (serialize_json_doc : Json W → Option String) where
      abbrev parse : Json W → Bool → ℕ → Option (AdScore W × ℕ)
      parse resp = parse_score_ad_response serialize_json_doc resp max_url max_all

      with_debug_urls-IsCounted :
          (resp : Json W) (current : ℕ) (score : AdScore W)
          → score.debug_report_urls ≡ none
          → IsCounted current
              (with_debug_urls serialize_json_doc resp max_url max_all current score).1
              (debug_report_urls_length
                (with_debug_urls serialize_json_doc resp max_url max_all current score).0)
      unfolding with_debug_urls debug_report_urls_length
      with_debug_urls-IsCounted resp current score h =
          elim (Option-cases (find_member "debugReportUrls" resp)) [
            | inl e ↦
                rw (with_debug_urls, e, debug_report_urls_length, h)
                  (omega arith, omega arith, inl refl)
            | inr (urls, e) ↦
                rw (with_debug_urls, e, debug_report_urls_length) (from-IsCounted urls current)
          ]

      score_of_object-urls :
          (resp : Json W) (component : Bool) {score : AdScore W}
          → score_of_object serialize_json_doc resp component ≡ some score
          → score.debug_report_urls ≡ none
      unfolding score_of_object with_component_fields
      score_of_object-urls resp component e = ground (arith, e)

      abbrev parse_object : Json W → Bool → ℕ → Option (AdScore W × ℕ)
      parse_object resp component current =
          elim (score_of_object serialize_json_doc resp component) [
            | none ↦ none
            | some score ↦
                some (with_debug_urls serialize_json_doc resp max_url max_all current score)
          ]

      parse_object-urls :
          (resp : Json W) (component : Bool) (current : ℕ) {score : AdScore W} {current' : ℕ}
          → parse_object resp component current ≡ some (score, current')
          → IsCounted current current' (debug_report_urls_length score)
      parse_object-urls resp component current {score} {current'} h =
          elim (Option-cases (score_of_object serialize_json_doc resp component)) [
            | inl e ↦ absurd (ground (arith, e))
            | inr (plain, e) ↦
                let same : with_debug_urls serialize_json_doc resp max_url max_all current plain
                    ≡ (score, current') =
                  ground (arith, e) in
                subst (λ p. IsCounted current p.1 (debug_report_urls_length p.0)) same
                  (with_debug_urls-IsCounted resp current plain
                    (score_of_object-urls resp component e))
          ]

      -- A response that is parsed keeps debug URLs of at most twice the limit for one in all, that
      -- either are empty or fit, with the characters already counted, the limit for all; and the
      -- count grows by just their characters.
      pub parse_score_ad_response-urls :
          (resp : Json W) (component : Bool) (current : ℕ) {score : AdScore W} {current' : ℕ}
          → parse resp component current ≡ some (score, current')
          → IsCounted current current' (debug_report_urls_length score)
      unfolding parse_score_ad_response debug_report_urls_length
      parse_score_ad_response-urls (number x) component current {score} e =
          let none_kept : score.debug_report_urls ≡ none = ground (arith, e) in
          rw none_kept (ground (arith, e), omega arith, inl refl)
      parse_score_ad_response-urls null component current e =
          parse_object-urls null component current e
      parse_score_ad_response-urls (bool b) component current e =
          parse_object-urls (bool b) component current e
      parse_score_ad_response-urls (string t) component current e =
          parse_object-urls (string t) component current e
      parse_score_ad_response-urls (array items) component current e =
          parse_object-urls (array items) component current e
      parse_score_ad_response-urls (object members) component current e =
          parse_object-urls (object members) component current e
