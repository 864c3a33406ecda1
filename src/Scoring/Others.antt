-- ===== src/Scoring/Others.antt =====
-- `PopulateRelevantFieldsInResponse` and `PopulateHighestScoringOtherBidsData`: what the winning
-- score carries of the winning ad and of the bids with the two highest scores. `std::sort` is a
-- parameter: it takes the comparator and the list. `none` is an access out of bounds or through a null
-- pointer, or a conversion to `int` out of range, which C++ leaves undefined, or an exception of `at`.
use bas_dev.Common.{
  ℕ, zero, suc, ◌^◌, ltb, ◌&&◌, Bool, true, false, String, List, [], ◌∷◌, ◌++◌, Option, none, some,
  ◌==◌, nat_eq, string_eq, is_empty, if◌then◌else◌, lookup, get_elem?, map,
}
use bas_dev.Common.Int.{ltb_ℤ, pos, negsuc}
use bas_dev.Common.Float.{Float}
use bas_dev.Api.{AdScore}
use bas_dev.Scope.{is_top_level}
use bas_dev.Scoring.{Reactor, DispatchResponse}
use bas_dev.Scoring.Loop.{ScoredAd, audience_ad, app_signals_ad, find_scored_ad_type}

-- The map from owners to the bids of each, in the order of insertion.
abbrev pub OtherBids : Type 0 → Type 0
OtherBids W = List (String × List W)

unfoldable pub update_highest_scoring_other_bid_map :
    {W : Type 0} → W → String → OtherBids W → OtherBids W
update_highest_scoring_other_bid_map bid owner [] = (owner, bid ∷ []) ∷ []
update_highest_scoring_other_bid_map bid owner ((key, bids) ∷ m) =
    if key == owner
    then (key, bids ++ bid ∷ []) ∷ m
    else (key, bids) ∷ update_highest_scoring_other_bid_map bid owner m

-- `responses[index]->id`.
abbrev pub response_id : List (Option DispatchResponse) → ℕ → Option String
response_id responses index = elim (get_elem? responses index) [
  | some (some response) ↦ some response.id
  | _ ↦ none
]

module _ {W : Type 0} where
  -- `set_render` and `set_component_renders`.
  abbrev pub with_render : ScoredAd W → AdScore W → AdScore W
  with_render (audience_ad ad) winning_ad = record winning_ad {
    render = ad.render;
    component_renders = ad.ad_components;
  }
  with_render (app_signals_ad ad) winning_ad = record winning_ad { render = ad.render }

  unfoldable pub populate_relevant_fields_in_response :
      Reactor W → String → AdScore W → Option (AdScore W)
  populate_relevant_fields_in_response r request_id winning_ad =
      elim (find_scored_ad_type r request_id) [
        | none ↦ none
        | some ad ↦ some (with_render ad winning_ad)
      ]

  -- The owner and the bid of an ad, in its own currency.
  abbrev pub owner_and_bid : ScoredAd W → String × W
  owner_and_bid (audience_ad ad) = (ad.interest_group_owner, ad.bid)
  owner_and_bid (app_signals_ad ad) = (ad.owner, ad.bid)

module _ {W : Type 0} ⦃f : Float W⦄ where
  open f use {nought, eq, to_int}

  -- Whether the conversion of a float to `int` is defined.
  abbrev pub converts : W → Bool
  converts score = elim (to_int score) [ pos n ↦ ltb n (2 ^ 31) | negsuc n ↦ ltb n (2 ^ 31) ]

  unfoldable pub all_convert : List W → Bool
  all_convert [] = true
  all_convert (score ∷ scores) = converts score && all_convert scores

  -- Whether the sort of some scores is defined: with two at least it converts each.
  abbrev pub are_comparable : List W → Bool
  are_comparable [] = true
  are_comparable (score ∷ []) = true
  are_comparable (score ∷ other ∷ scores) = all_convert (score ∷ other ∷ scores)

  -- `[](int a, int b) { return a > b; }`.
  abbrev pub int_greater : W → W → Bool
  int_greater a b = ltb_ℤ (to_int b) (to_int a)

  -- `score_ad_map.at(score)`.
  unfoldable pub indices_at : W → List (W × List ℕ) → Option (List ℕ)
  indices_at score [] = none
  indices_at score ((key, indices) ∷ m) = if eq key score then some indices else indices_at score m

  -- The first two scores, up to one that is 0.
  unfoldable pub top_scores : ℕ → List W → List W
  top_scores zero scores = []
  top_scores (suc n) [] = []
  top_scores (suc n) (score ∷ scores) =
      let rest = top_scores n scores in if eq score nought then [] else score ∷ rest

  module _ (r : Reactor W) (ad_scores : List (String × AdScore W))
      (responses : List (Option DispatchResponse)) where
    -- The owner and the bid of the response at an index; the bid is that in the seller's currency
    -- where there is one.
    unfoldable pub other_bid : ℕ → Option (String × W)
    other_bid index = elim (response_id responses index) [
      | none ↦ none
      | some id ↦ elim (find_scored_ad_type r id) [
        | none ↦ none
        | some ad ↦ some (
            if is_empty r.seller_currency then owner_and_bid ad else elim (lookup id ad_scores) [
              | none ↦ owner_and_bid ad
              | some ad_score ↦ ((owner_and_bid ad).0, ad_score.incoming_bid_in_seller_currency)
            ])
      ]
    ]

    -- The inner loop, over the indices with one score.
    unfoldable pub add_bids : ℕ → List ℕ → OtherBids W → Option (OtherBids W)
    add_bids winner [] m = some m
    add_bids winner (index ∷ indices) m =
        if winner == index then add_bids winner indices m else elim (other_bid index) [
          | none ↦ none
          | some (owner, bid) ↦
              add_bids winner indices (update_highest_scoring_other_bid_map bid owner m)
        ]

    unfoldable pub add_scores : ℕ → List (W × List ℕ) → List W → OtherBids W → Option (OtherBids W)
    add_scores winner score_ad_map [] m = some m
    add_scores winner score_ad_map (score ∷ scores) m = elim (indices_at score score_ad_map) [
      | none ↦ none
      | some indices ↦ elim (add_bids winner indices m) [
        | none ↦ none
        | some m' ↦ add_scores winner score_ad_map scores m'
      ]
    ]

    unfoldable pub populate_highest_scoring_other_bids_data :
        ((W → W → Bool) → List W → List W) → ℕ → List (W × List ℕ) → AdScore W → Option (AdScore W)
    populate_highest_scoring_other_bids_data sort winner score_ad_map winning_ad =
        if is_top_level r.auction_scope
        then some winning_ad
        else elim (are_comparable (map (λ (score, _). score) score_ad_map)) [
          | false ↦ none
          | true ↦
              elim (add_scores winner score_ad_map
                (top_scores 2 (sort int_greater (map (λ (score, _). score) score_ad_map)))
                winning_ad.ig_owner_highest_scoring_other_bids_map) [
                  | none ↦ none
                  | some m ↦
                      some (record winning_ad { ig_owner_highest_scoring_other_bids_map = m })
                ]
        ]
