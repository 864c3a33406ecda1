-- ===== src/Scoring/Ranges.antt =====
-- That the loop of `FindWinningAd` only records indices of responses whose ad is known.
use bas_dev.Common.{ℕ, String, List, Option, none, some}
use bas_dev.Common.Float.{Float, IsOrdered}
use bas_dev.Json.{Json}
use bas_dev.Scoring.{Reactor, DispatchResponse}
use bas_dev.Scoring.Handle.{Scored, Scores, final_score}
use bas_dev.Scoring.Loop.{read_response, scored_ads, winning_loop}
use bas_dev.Scoring.Listed.{IsKey}

abbrev id_of : Option (Option DispatchResponse) → Option String
id_of (some (some response)) = some response.id
id_of _ = none

-- A desirability that is a number, and whose conversion to `int` is defined.
abbrev pub IsDesirabilityKey : {W : Type 0} ⦃f : Float W⦄ → Reactor W → Scored W → Type 0
IsDesirabilityKey ⦃f⦄ r s = IsKey (final_score r s).desirability

module _ {W : Type 0} ⦃f : Float W⦄ (parse_json_string : String → Option (Json W))
    (serialize_json_doc : Json W → Option String) (r : Reactor W) where
  abbrev read : ℕ → Option DispatchResponse → ℕ → Option (Scored W × ℕ)
  read = read_response parse_json_string serialize_json_doc r

  module _ ⦃o : IsOrdered W⦄ (responses : List (Option DispatchResponse)) where
    abbrev loop : ℕ → List (Option DispatchResponse) → ℕ → Scores W → Option (Scores W)
    loop = winning_loop parse_json_string serialize_json_doc r

    abbrev ads : ℕ → List (Option DispatchResponse) → ℕ → List (Scored W)
    ads = scored_ads parse_json_string serialize_json_doc r
