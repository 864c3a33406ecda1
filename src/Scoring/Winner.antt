-- ===== src/Scoring/Winner.antt =====
-- Which ad `FindWinningAd` finds, and what it counts as rejected.
use bas_dev.Common.{
  subst, string_eq, suc, emplace, ℕ, ◌≡◌, refl, List, [], ◌∷◌, ◌++◌, append-nil, append_assoc,
  Option, none, some, inl, inr, ◌⊎◌, arith, All, Option-cases, String,
}
use bas_dev.Common.Float.{Float, IsOrdered}
use bas_dev.Json.{Json}
use bas_dev.Scoring.{Reactor, DispatchResponse}
use bas_dev.Scoring.Handle.{
  amended, Scored, Scores, final_score, ad_rejection_reason, handle_scored_ad,
}
use bas_dev.Scoring.Loop.{read_response, scored_ads, winning_loop, find_winning_ad, no_scores}
use bas_dev.Scoring.Steps.{record_score_lem}
use bas_dev.Scoring.Leading.{
  IsScored, IsDesirabilityNumber, HasNoWinner, HasWinner, CountsRejections, start-IsScored, stays,
  wins,
}

module _ {W : Type 0} ⦃f : Float W⦄ (r : Reactor W) where
  module _ ⦃o : IsOrdered W⦄ where
    handle_lem :
        (done : List (Scored W)) (s : Scored W) (scores : Scores W)
        → IsDesirabilityNumber r s
        → IsScored r done scores.1
        → (scores' : Scores W) × (handle_scored_ad r s scores ≡ some scores')
          × IsScored r (done ++ s ∷ []) scores'.1
    unfolding handle_scored_ad
    handle_lem done s (ad_scores, before) number h =
        let (after, e, round) =
          record_score_lem r.auction_scope s.index (final_score r s) (ad_rejection_reason r s)
            before number h.lead-IsNumber h.lead_nought in
        (
          (emplace s.dispatch_response_id (amended s) ad_scores, after),
          rw (e, handle_scored_ad) refl,
          elim round.1 [
            | inl (behind, same) ↦ stays r done before after s number h round behind same
            | inr (may, ahead, same) ↦ wins r done before after s number h round may ahead same
          ],
        )

    module _ (parse_json_string : String → Option (Json W))
        (serialize_json_doc : Json W → Option String) where
      abbrev ads_from : ℕ → List (Option DispatchResponse) → ℕ → List (Scored W)
      ads_from = scored_ads parse_json_string serialize_json_doc r

      abbrev loop : ℕ → List (Option DispatchResponse) → ℕ → Scores W → Option (Scores W)
      loop = winning_loop parse_json_string serialize_json_doc r

      abbrev read : ℕ → Option DispatchResponse → ℕ → Option (Scored W × ℕ)
      read = read_response parse_json_string serialize_json_doc r

      module _ (index : ℕ) (response : Option DispatchResponse)
          (responses : List (Option DispatchResponse)) (current : ℕ) where
        pub ads_from-none :
            read index response current ≡ none
            → ads_from index (response ∷ responses) current ≡ ads_from (suc index) responses current
        unfolding scored_ads
        ads_from-none e = ground (arith, e)

        pub ads_from-some :
            {s : Scored W} {current' : ℕ}
            → read index response current ≡ some (s, current')
            → ads_from index (response ∷ responses) current
              ≡ s ∷ ads_from (suc index) responses current'
        unfolding scored_ads
        ads_from-some e = ground (arith, e)

        pub loop-none :
            (scores : Scores W)
            → read index response current ≡ none
            → loop index (response ∷ responses) current scores
              ≡ loop (suc index) responses current scores
        unfolding winning_loop
        loop-none scores e = ground (arith, e)

        pub loop-some :
            {s : Scored W} {current' : ℕ} (scores : Scores W) {scores' : Scores W}
            → read index response current ≡ some (s, current')
            → handle_scored_ad r s scores ≡ some scores'
            → loop index (response ∷ responses) current scores
              ≡ loop (suc index) responses current' scores'
        unfolding winning_loop
        loop-some scores e e' = ground (arith, e, e')

      abbrev Finds : List (Scored W) → Option (Scores W) → Type 0
      Finds ads found = (scores : Scores W) × (found ≡ some scores) × IsScored r ads scores.1

      winning_loop_lem :
          (index : ℕ) (responses : List (Option DispatchResponse)) (current : ℕ) (scores : Scores W)
          (done : List (Scored W))
          → All (IsDesirabilityNumber r) (ads_from index responses current)
          → IsScored r done scores.1
          → Finds (done ++ ads_from index responses current) (loop index responses current scores)
      unfolding winning_loop scored_ads
      winning_loop_lem index [] current scores done numbers h = (scores, refl, rw append-nil h)
      winning_loop_lem index (response ∷ responses) current scores done numbers h =
          elim (Option-cases (read index response current)) [
            | inl e ↦
                rw
                  (
                    ads_from-none index response responses current e,
                    loop-none index response responses current scores e,
                  )
                  (winning_loop_lem (suc index) responses current scores done
                    (subst (All (IsDesirabilityNumber r))
                      (ads_from-none index response responses current e) numbers)
                    h)
            | inr ((s, current'), e) ↦
                let number_all =
                  subst (All (IsDesirabilityNumber r))
                    (ads_from-some index response responses current e) numbers in
                let (scores', e', h') = handle_lem done s scores number_all.0 h in
                rw
                  (
                    ads_from-some index response responses current e,
                    loop-some index response responses current scores e e',
                    ← append_assoc done (s ∷ []) (ads_from (suc index) responses current'),
                  )
                  (winning_loop_lem (suc index) responses current' scores' (done ++ s ∷ [])
                    number_all.1 h')
          ]

      abbrev pub all_ads : List (Option DispatchResponse) → List (Scored W)
      all_ads responses = ads_from 0 responses 0

      find_winning_ad_lem :
          (responses : List (Option DispatchResponse))
          → All (IsDesirabilityNumber r) (all_ads responses)
          → Finds
              (all_ads responses)
              (find_winning_ad parse_json_string serialize_json_doc r responses)
      unfolding find_winning_ad
      find_winning_ad_lem responses numbers =
          winning_loop_lem 0 responses 0 ([], no_scores) [] numbers (start-IsScored r)

      -- If no desirability is a NaN, `FindWinningAd` never reads an empty rejection reason; it
      -- finds no winner where no ad may win, and if one may, the winner and its index are those of
      -- the first ad of the highest desirability among the ads that may win.
      pub find_winning_ad-winner :
          (responses : List (Option DispatchResponse))
          → All (IsDesirabilityNumber r) (all_ads responses)
          → (scores : Scores W) × (find_winning_ad parse_json_string serialize_json_doc r responses
              ≡ some scores)
            × (HasNoWinner r (all_ads responses) scores.1
                ⊎ HasWinner r (all_ads responses) scores.1)
      find_winning_ad-winner responses numbers =
          let (scores, e, scored) = find_winning_ad_lem responses numbers in
          (scores, e, elim scored.found [ inl (h, _) ↦ inl h | inr (h, _) ↦ inr h ])

      -- If no desirability is a NaN, the rejection reasons that `FindWinningAd` lists are, in the
      -- order of the responses, one for each ad that is not valid with a positive desirability: the
      -- reason of that ad, or the default reason if it has none; and it counts as many rejected bids.
      pub find_winning_ad-rejections :
          (responses : List (Option DispatchResponse))
          → All (IsDesirabilityNumber r) (all_ads responses)
          → (scores : Scores W) × (find_winning_ad parse_json_string serialize_json_doc r responses
              ≡ some scores)
            × CountsRejections r (all_ads responses) scores.1
      find_winning_ad-rejections responses numbers =
          let (scores, e, scored) = find_winning_ad_lem responses numbers in
          (scores, e, scored.counted)
