-- ===== src/Scoring/Leading.antt =====
-- What makes an ad the winner among the ads scored, and how a round of scoring keeps it so.
use bas_dev.Common.{
  not, ◌||◌, string_eq, All-map, ◌≡◌, refl, sym, ap, ◌∙◌, Bool, true, false, List, [], ◌∷◌, ◌++◌,
  append-nil, append_assoc, none, some, inl, inr, ◌⊎◌, arith, length, length-append, All,
  All-append,
}
use bas_dev.Common.Float.{Float, IsNumber, IsOrdered}
use bas_dev.Api.{AdRejectionReason}
use bas_dev.Scoring.{Reactor, ScoringData}
use bas_dev.Scoring.Handle.{Scored, final_score, ad_rejection_reason, update_winner}
use bas_dev.Scoring.Loop.{no_scores}
use bas_dev.Scoring.Steps.{
  le-gt-false, is_eligible, rejections_of, IsRound, IsSameWinner, gt-le, gt-le_trans,
}

holds_if : (b : Bool) {c : Bool} → (b ≡ true → c ≡ true) → (not b || c) ≡ true
holds_if true h = h refl
holds_if false h = refl

module _ {W : Type 0} ⦃f : Float W⦄ (r : Reactor W) where
  open f use {nought, le, gt}

  abbrev pub desirability_of : Scored W → W
  desirability_of s = (final_score r s).desirability

  -- Whether a scored ad may win.
  abbrev pub may_win : Scored W → Bool
  may_win s = is_eligible r.auction_scope (final_score r s) (ad_rejection_reason r s)

  abbrev pub IsDesirabilityNumber : Scored W → Type 0
  IsDesirabilityNumber s = IsNumber (desirability_of s)

  abbrev pub rejections : List (Scored W) → List AdRejectionReason
  rejections [] = []
  rejections (s ∷ ss) = rejections_of (final_score r s) (ad_rejection_reason r s) ++ rejections ss

  abbrev pub IsBounded : W → Scored W → Type 0
  IsBounded lead s =
      IsDesirabilityNumber s × (may_win s ≡ true → le (desirability_of s) lead ≡ true)

  -- No ad may win, and there is no winner.
  abbrev pub HasNoWinner : List (Scored W) → ScoringData W → Type 0
  HasNoWinner ads scoring = (scoring.winning_ad ≡ none) × All (λ s. may_win s ≡ false) ads

  abbrev pub IsNotAhead : Scored W → Scored W → Type 0
  IsNotAhead winner s = (not (may_win s) || le (desirability_of s) (desirability_of winner)) ≡ true

  abbrev pub IsBehind : Scored W → Scored W → Type 0
  IsBehind winner s = (not (may_win s) || gt (desirability_of winner) (desirability_of s)) ≡ true

  -- The winner is the first of the most desirable ads that may win.
  abbrev pub HasWinner : List (Scored W) → ScoringData W → Type 0
  HasWinner ads scoring =
      (winner : Scored W) × (before : List (Scored W)) × (after : List (Scored W)) × (ads
        ≡ before ++ winner ∷ after)
      × (may_win winner ≡ true)
      × (scoring.winning_ad ≡ some (final_score r winner))
      × (scoring.index_of_most_desirable_ad ≡ winner.index)
      × All (IsBehind winner) before
      × All (IsNotAhead winner) after

  abbrev pub CountsRejections : List (Scored W) → ScoringData W → Type 0
  CountsRejections ads scoring =
      (scoring.ad_rejection_reasons ≡ rejections ads)
      × (scoring.seller_rejected_bid_count ≡ length (rejections ads))

  rejections-append :
      (xs ys : List (Scored W)) → rejections (xs ++ ys) ≡ rejections xs ++ rejections ys
  rejections-append [] ys = refl
  rejections-append (x ∷ xs) ys =
      ap (λ l. rejections_of (final_score r x) (ad_rejection_reason r x) ++ l)
        (rejections-append xs ys)
      ∙ sym (
          append_assoc (rejections_of (final_score r x) (ad_rejection_reason r x)) (rejections xs)
            (rejections ys))

  module _ (done : List (Scored W)) (scoring : ScoringData W) where
    abbrev pub lead : W
    lead = scoring.desirability_of_most_desirable_ad

    -- What holds after the ads of `done`.
    pub record IsScored : Type 0 where
      pub lead-IsNumber : IsNumber lead
      pub lead_nought : le nought lead ≡ true
      pub bounded : All (IsBounded lead) done
      pub found :
          (HasNoWinner done scoring × (lead ≡ nought))
          ⊎ ((w : HasWinner done scoring) × (lead ≡ desirability_of w.0))
      pub counted : CountsRejections done scoring

  module _ ⦃o : IsOrdered W⦄ where
    pub start-IsScored : IsScored [] no_scores
    start-IsScored = record {
      lead-IsNumber = o.nought-IsNumber;
      lead_nought = o.nought-IsNumber;
      bounded = tt;
      found = inl ((refl, tt), refl);
      counted = (refl, refl);
    }

    module _ (done : List (Scored W)) (before after : ScoringData W) (s : Scored W)
        (number : IsDesirabilityNumber s) (h : IsScored done before) where
      abbrev pub Round : Type 0
      Round =
          IsRound s.index (final_score r s) before r.auction_scope (ad_rejection_reason r s) after

      counts : Round → CountsRejections (done ++ s ∷ []) after
      counts (recorded, _) = (
        recorded.0 ∙ rw (h.counted.0, rejections-append done (s ∷ []), append-nil) refl,
        rw (rejections-append done (s ∷ []), append-nil) (omega (arith, length-append {0})),
      )

      pub stays :
          Round
          → (may_win s ≡ true → le (desirability_of s) (lead done before) ≡ true)
          → IsSameWinner before after
          → IsScored (done ++ s ∷ []) after
      stays recorded behind (same_ad, same_index, same_lead) = record {
        lead-IsNumber = rw same_lead h.lead-IsNumber;
        lead_nought = rw same_lead h.lead_nought;
        bounded = rw same_lead (
            All-append (IsBounded (lead done before)) done (s ∷ []) h.bounded
              ((number, behind), tt));
        found = elim h.found [
          | inl ((none_won, none_may), e) ↦ inl (
            (
              same_ad ∙ none_won,
              All-append (λ t. may_win t ≡ false) done (s ∷ []) none_may
                  (
                    ground (
                      arith,
                      e,
                      behind,
                      le-gt-false (desirability_of s) nought number o.nought-IsNumber,
                    ),
                    tt,
                  ),
            ),
            same_lead ∙ e,
          )
          | inr ((w, xs, ys, split, may, ad, index, ahead, later), e) ↦ inr (
            (
              w,
              xs,
              ys ++ s ∷ [],
              rw split (append_assoc xs (w ∷ ys) (s ∷ [])),
              may,
              same_ad ∙ ad,
              same_index ∙ index,
              ahead,
              All-append (IsNotAhead w) ys (s ∷ []) later
                  (rw (← e) (holds_if (may_win s) behind), tt),
            ),
            same_lead ∙ e,
          )
        ];
        counted = counts recorded;
      }

      pub wins :
          Round
          → may_win s ≡ true
          → gt (desirability_of s) (lead done before) ≡ true
          → IsSameWinner (update_winner s.index (final_score r s) before) after
          → IsScored (done ++ s ∷ []) after
      unfolding update_winner
      wins recorded may ahead (same_ad, same_index, same_lead) =
          let over = gt-le (desirability_of s) (lead done before) number h.lead-IsNumber ahead in
          record {
            lead-IsNumber = rw same_lead number;
            lead_nought =
                rw same_lead
                  (o.le_trans nought (lead done before) (desirability_of s) h.lead_nought over);
            bounded = rw same_lead (
                All-append (IsBounded (desirability_of s)) done (s ∷ [])
                  (All-map (IsBounded (lead done before)) (IsBounded (desirability_of s))
                    (λ t (n, k). (
                      n,
                      λ q.
                          o.le_trans (desirability_of t) (lead done before) (desirability_of s)
                            (k q) over,
                    ))
                    done h.bounded)
                  ((number, λ q. number), tt));
            found = inr (
              (
                s,
                done,
                [],
                refl,
                may,
                same_ad,
                same_index,
                All-map (IsBounded (lead done before)) (IsBehind s)
                    (λ t (n, k). holds_if (may_win t) (λ q.
                      gt-le_trans (desirability_of s) (lead done before) (desirability_of t) number
                        h.lead-IsNumber n ahead (k q)))
                    done h.bounded,
                tt,
              ),
              same_lead,
            );
            counted = counts recorded;
          }
