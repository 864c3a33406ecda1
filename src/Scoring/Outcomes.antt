-- ===== src/Scoring/Outcomes.antt =====
-- That `ScoreAdsCallback` comes to an outcome: no index that it uses is out of range, and no
-- ad or score that it looks up is missing.
use bas_dev.Common.{
  true, ℕ, zero, suc, ◌≡◌, refl, Bool, String, List, [], ◌∷◌, Option, some, inl, inr, arith, All,
  All-map, Bool-cases, Option-cases, map, ◌==◌, nat_eq,
}
use bas_dev.Common.Float.{Float, IsOrdered}
use bas_dev.Api.{AdScore}
use bas_dev.Scope.{is_top_level}
use bas_dev.Scoring.{Reactor, DispatchResponse}
use bas_dev.Scoring.Handle.{Scores}
use bas_dev.Scoring.Loop.{find_scored_ad_type}
use bas_dev.Scoring.Others.{
  with_render, OtherBids, response_id, populate_relevant_fields_in_response,
  populate_highest_scoring_other_bids_data, indices_at, top_scores, other_bid, add_bids, add_scores,
  int_greater, all_convert, are_comparable, update_highest_scoring_other_bid_map,
}
use bas_dev.Scoring.Callback.{complete_winner, finish_scoring}
use bas_dev.Scoring.Listed.{IsListed, IsEntry}

-- An option that has a value.
abbrev pub IsSome : {A : Type 0} → Option A → Type 0
IsSome {A} o = (a : A) × (o ≡ some a)

module _ {W : Type 0} ⦃f : Float W⦄ (r : Reactor W)
    (responses : List (Option DispatchResponse)) where
  open f use {nought, eq}

  -- An index of a response whose ad is known.
  abbrev pub InRange : ℕ → Type 0
  InRange index =
      (id : String) × (response_id responses index ≡ some id) × IsSome (find_scored_ad_type r id)

  -- A score whose indices are in the map, and in range.
  abbrev IsFound : List (W × List ℕ) → W → Type 0
  IsFound m score = (indices : List ℕ) × (indices_at score m ≡ some indices) × All InRange indices

  module _ (ad_scores : List (String × AdScore W)) where
    IsSome-other_bid : (index : ℕ) → InRange index → IsSome (other_bid r ad_scores responses index)
    unfolding other_bid
    IsSome-other_bid index (id, e, (ad, e')) =
        elim (Option-cases (other_bid r ad_scores responses index)) [
          | inl n ↦ absurd (ground (arith, e, e', n))
          | inr found ↦ found
        ]

    IsSome-add_bids :
        (winner : ℕ) (indices : List ℕ) (m : OtherBids W)
        → All InRange indices
        → IsSome (add_bids r ad_scores responses winner indices m)
    unfolding add_bids
    IsSome-add_bids winner [] m h = (m, refl)
    IsSome-add_bids winner (index ∷ indices) m (inside, h) =
        let ((owner, bid), e) = IsSome-other_bid index inside in
        elim (Bool-cases (winner == index)) [
          | inl b ↦ rw (add_bids, b) (IsSome-add_bids winner indices m h)
          | inr b ↦
              rw (add_bids, b, e)
                (IsSome-add_bids winner indices (update_highest_scoring_other_bid_map bid owner m)
                  h)
        ]

    IsSome-add_scores :
        (winner : ℕ) (m : List (W × List ℕ)) (scores : List W) (bids : OtherBids W)
        → All (IsFound m) scores
        → IsSome (add_scores r ad_scores responses winner m scores bids)
    unfolding add_scores
    IsSome-add_scores winner m [] bids h = (bids, refl)
    IsSome-add_scores winner m (score ∷ scores) bids ((indices, e, inside), h) =
        let (bids', e') = IsSome-add_bids winner indices bids inside in
        rw (add_scores, e, e') (IsSome-add_scores winner m scores bids' h)

  All-top_scores :
      (P : W → Type 0) (n : ℕ) (scores : List W) → All P scores → All P (top_scores n scores)
  unfolding top_scores
  All-top_scores P zero scores h = tt
  All-top_scores P (suc n) [] h = tt
  All-top_scores P (suc n) (score ∷ scores) (p, h) = elim (Bool-cases (eq score nought)) [
    | inl b ↦ rw (top_scores, b) tt
    | inr b ↦ rw (top_scores, b) (p, All-top_scores P n scores h)
  ]

  module _ ⦃o : IsOrdered W⦄ where
    IsFound-later :
        (entry : W × List ℕ) (m : List (W × List ℕ)) (score : W)
        → IsEntry InRange entry
        → IsFound m score
        → IsFound (entry ∷ m) score
    unfolding indices_at
    IsFound-later (key, indices) m score (keyed, inside) (found, e, h) =
        elim (Bool-cases (eq key score)) [
          | inl b ↦ (indices, rw (indices_at, b) refl, inside)
          | inr b ↦ (found, rw (indices_at, b) e, h)
        ]

    abbrev scores_of : List (W × List ℕ) → List W
    scores_of = map (λ (score, _). score)

    All-IsFound : (m : List (W × List ℕ)) → All (IsEntry InRange) m → All (IsFound m) (scores_of m)
    unfolding indices_at
    All-IsFound [] h = tt
    All-IsFound ((key, indices) ∷ m) (((number, fits), inside), h) = (
      (indices, rw (indices_at, o.eq-eq-le_both key key, number) refl, inside),
      All-map (IsFound m) (IsFound ((key, indices) ∷ m))
          (λ score. IsFound-later (key, indices) m score ((number, fits), inside)) (scores_of m)
          (All-IsFound m h),
    )

    all_convert-scores_of :
        (m : List (W × List ℕ)) → All (IsEntry InRange) m → all_convert (scores_of m) ≡ true
    unfolding all_convert
    all_convert-scores_of [] h = refl
    all_convert-scores_of ((key, indices) ∷ m) (((number, fits), inside), h) =
        rw (all_convert, fits) (all_convert-scores_of m h)

    are_comparable-scores_of :
        (m : List (W × List ℕ)) → All (IsEntry InRange) m → are_comparable (scores_of m) ≡ true
    are_comparable-scores_of [] h = refl
    are_comparable-scores_of (entry ∷ []) h = refl
    are_comparable-scores_of (entry ∷ other ∷ m) h = all_convert-scores_of (entry ∷ other ∷ m) h

    module _ (sort : (W → W → Bool) → List W → List W)
        (sort_All : (P : W → Type 0) (xs : List W) → All P xs → All P (sort int_greater xs)) where
      IsSome-populate :
          (ad_scores : List (String × AdScore W)) (winner : ℕ) (m : List (W × List ℕ))
          (winning_ad : AdScore W)
          → All (IsEntry InRange) m
          → IsSome (
              populate_highest_scoring_other_bids_data r ad_scores responses sort winner m
                winning_ad)
      unfolding populate_highest_scoring_other_bids_data
      IsSome-populate ad_scores winner m winning_ad h =
          let top = top_scores 2 (sort int_greater (scores_of m)) in
          let found : All (IsFound m) top =
            All-top_scores (IsFound m) 2 (sort int_greater (scores_of m))
              (sort_All (IsFound m) (scores_of m) (All-IsFound m h)) in
          let (bids, e) =
            IsSome-add_scores ad_scores winner m top
              winning_ad.ig_owner_highest_scoring_other_bids_map found in
          elim (Bool-cases (is_top_level r.auction_scope)) [
            | inl b ↦ rw (populate_highest_scoring_other_bids_data, b) (winning_ad, refl)
            | inr b ↦
                rw (populate_highest_scoring_other_bids_data, b, are_comparable-scores_of m h, e)
                  (record winning_ad { ig_owner_highest_scoring_other_bids_map = bids }, refl)
          ]

      module _ (format : W → String) (str_replace_all : String → List (String × String) → String)
          (debug report_result : Bool) where
        pub IsSome-finish_scoring :
            (scores : Scores W)
            → IsListed InRange scores.1
            → IsSome
                (finish_scoring r format str_replace_all sort debug report_result responses scores)
        unfolding finish_scoring complete_winner populate_relevant_fields_in_response
        IsSome-finish_scoring (ad_scores, scoring) (entries, winner) =
            let finished =
              finish_scoring r format str_replace_all sort debug report_result responses
                (ad_scores, scoring) in
            elim (Option-cases finished) [
              | inr found ↦ found
              | inl n ↦ elim (Option-cases scoring.winning_ad) [
                | inl e ↦ absurd (ground (arith, n, e))
                | inr (ad, e) ↦ elim winner [
                  | inl none_won ↦ absurd (ground (arith, e, none_won))
                  | inr (id, e_id, (scored, e_ad)) ↦
                      let (populated, p) =
                        IsSome-populate ad_scores scoring.index_of_most_desirable_ad
                          scoring.score_ad_map (with_render scored ad) entries in
                      absurd (ground (arith, n, e, e_id, e_ad, p))
                ]
              ]
            ]
