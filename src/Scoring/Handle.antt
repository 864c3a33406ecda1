-- ===== src/Scoring/Handle.antt =====
-- `HandleScoredAd`: the rejection reason of a scored ad, and what the ad changes in the scoring
-- data. `none` is the read of an empty optional, which C++ leaves undefined.
use bas_dev.Common.{
  ℕ, ◌+◌, Bool, true, false, not, ◌&&◌, String, List, [], ◌∷◌, ◌++◌, Option, none, some, string_eq,
  if◌then◌else◌, emplace,
}
use bas_dev.Common.Float.{Float}
use bas_dev.Api.{
  AdScore, AdRejectionReason, AdType, SellerRejectionReason, seller_rejection_reason_not_available,
  invalid_bid, bid_from_score_ad_failed_currency_check,
}
use bas_dev.Json.{Json}
use bas_dev.Scope.{AuctionScope, is_device_component}
use bas_dev.Scoring.{
  Reactor, ScoringData, is_incoming_bid_in_seller_currency_illegally_modified,
  is_bid_currency_mismatched, check_and_update_modified_bid,
}
use bas_dev.Scoring.Parse.{is_number, parse_ad_rejection_reason}

-- The arguments of `HandleScoredAd`, apart from the state that it changes.
pub record Scored (W : Type 0) : Type 0 where
  pub index : ℕ
  pub buyer_bid : W
  pub ad_with_bid_currency : String
  pub interest_group_name : String
  pub interest_group_owner : String
  pub interest_group_origin : String
  pub response_json : Json W
  pub ad_type : AdType
  pub ad_score : AdScore W
  pub dispatch_response_id : String

abbrev is_not_available : SellerRejectionReason → Bool
is_not_available SellerRejectionReason.seller_rejection_reason_not_available = true
is_not_available _ = false

-- `is_valid_ad`.
abbrev pub is_valid_ad : Option AdRejectionReason → Bool
is_valid_ad none = true
is_valid_ad (some reason) = is_not_available reason.rejection_reason

-- The reactor's `ad_scores_` and the scoring data.
abbrev pub Scores : Type 0 → Type 0
Scores W = List (String × AdScore W) × ScoringData W

module _ {W : Type 0} ⦃f : Float W⦄ where
  open f use {nought, le, gt, eq}

  -- `UpdateWinner`.
  unfoldable pub update_winner : ℕ → AdScore W → ScoringData W → ScoringData W
  update_winner index ad_score scoring = record scoring {
    winning_ad = some ad_score;
    index_of_most_desirable_ad = index;
    desirability_of_most_desirable_ad = ad_score.desirability;
  }

  -- `score_ad_map[score].push_back(index)`.
  unfoldable pub push_index : W → ℕ → List (W × List ℕ) → List (W × List ℕ)
  push_index score index [] = (score, index ∷ []) ∷ []
  push_index score index ((key, indices) ∷ m) =
      if eq key score
      then (key, indices ++ index ∷ []) ∷ m
      else (key, indices) ∷ push_index score index m

  -- The score with the fields that come from the ad, as kept for debug reports.
  unfoldable pub amended : Scored W → AdScore W
  amended s = record s.ad_score {
    interest_group_name = s.interest_group_name;
    interest_group_owner = s.interest_group_owner;
    interest_group_origin = s.interest_group_origin;
    ad_type = s.ad_type;
    buyer_bid = s.buyer_bid;
    buyer_bid_currency = s.ad_with_bid_currency;
  }

  -- The score that competes: a bid that scoreAd() left unset is the buyer's.
  unfoldable pub final_score : Reactor W → Scored W → AdScore W
  final_score r s =
      check_and_update_modified_bid r.auction_scope s.buyer_bid s.ad_with_bid_currency (amended s)

  -- The reason that scoreAd() gave, if it returned an object.
  unfoldable pub parsed_reason : Scored W → Option AdRejectionReason
  parsed_reason s =
      if is_number s.response_json
      then none
      else parse_ad_rejection_reason s.response_json s.interest_group_owner s.interest_group_name

  reason_for : AdScore W → SellerRejectionReason → AdRejectionReason
  reason_for ad_score reason = record {
    interest_group_owner = ad_score.interest_group_owner;
    interest_group_name = ad_score.interest_group_name;
    rejection_reason = reason;
  }

  -- `ad_rejection_reason` after both currency checks, each of which overrides what was there.
  unfoldable pub ad_rejection_reason : Reactor W → Scored W → Option AdRejectionReason
  unfolding reason_for
  ad_rejection_reason r s =
      let ad_score = final_score r s in
      if is_incoming_bid_in_seller_currency_illegally_modified r.seller_currency
        s.ad_with_bid_currency ad_score.incoming_bid_in_seller_currency s.buyer_bid
      then some (reason_for ad_score invalid_bid)
      else if is_bid_currency_mismatched r.auction_scope r.seller_currency ad_score.bid
          ad_score.bid_currency
      then some (reason_for ad_score bid_from_score_ad_failed_currency_check)
      else parsed_reason s

  -- The default reason of an ad with no positive desirability.
  unfoldable pub or_default_reason : AdScore W → Option AdRejectionReason → Option AdRejectionReason
  unfolding reason_for
  or_default_reason ad_score none =
      if le ad_score.desirability nought
      then some (reason_for ad_score seller_rejection_reason_not_available)
      else none
  or_default_reason ad_score (some reason) = some reason

  -- `push_back(*ad_rejection_reason)` and the count.
  unfoldable pub reject : Option AdRejectionReason → ScoringData W → Option (ScoringData W)
  reject none scoring = none
  reject (some reason) scoring = some (record scoring {
    ad_rejection_reasons = scoring.ad_rejection_reasons ++ reason ∷ [];
    seller_rejected_bid_count = scoring.seller_rejected_bid_count + 1;
  })

  -- The end of `HandleScoredAd`, once the winner was updated.
  unfoldable pub record_index :
      ℕ → AdScore W → Option AdRejectionReason → ScoringData W → Option (ScoringData W)
  record_index index ad_score reason scoring =
      if is_valid_ad reason && gt ad_score.desirability nought
      then some (record scoring {
        score_ad_map = push_index ad_score.desirability index scoring.score_ad_map;
      })
      else reject (or_default_reason ad_score reason) scoring

  -- All that `HandleScoredAd` does to the scoring data. A component ad that would lead but may not
  -- take part in the top-level auction ends the function early.
  unfoldable pub record_score :
      AuctionScope
      → ℕ
      → AdScore W
      → Option AdRejectionReason
      → ScoringData W
      → Option (ScoringData W)
  record_score auction_scope index ad_score reason scoring =
      if is_valid_ad reason && gt ad_score.desirability scoring.desirability_of_most_desirable_ad
      then if is_device_component auction_scope && not ad_score.allow_component_auction
        then some scoring
        else record_index index ad_score reason (update_winner index ad_score scoring)
      else record_index index ad_score reason scoring

  unfoldable pub handle_scored_ad : Reactor W → Scored W → Scores W → Option (Scores W)
  handle_scored_ad r s (ad_scores, scoring) =
      elim (record_score r.auction_scope s.index (final_score r s) (ad_rejection_reason r s)
        scoring) [
          | none ↦ none
          | some scoring' ↦ some (emplace s.dispatch_response_id (amended s) ad_scores, scoring')
        ]
