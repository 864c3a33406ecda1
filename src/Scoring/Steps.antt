-- ===== src/Scoring/Steps.antt =====
-- One round of the scoring loop: how a scored ad changes the winner and the list of rejections.
use bas_dev.Common.{
  sym, append-nil, ℕ, ◌+◌, ◌≡◌, refl, Bool, true, false, not, ◌&&◌, List, [], ◌∷◌, ◌++◌, Option,
  none, some, inl, inr, ◌⊎◌, arith, length, if◌then◌else◌, Bool-cases,
}
use bas_dev.Common.Float.{Float, IsNumber, IsOrdered}
use bas_dev.Api.{AdScore, AdRejectionReason, seller_rejection_reason_not_available}
use bas_dev.Scope.{AuctionScope, is_device_component}
use bas_dev.Scoring.{ScoringData}
use bas_dev.Scoring.Handle.{
  is_valid_ad, update_winner, push_index, or_default_reason, reject, record_index, record_score,
}

module _ {W : Type 0} ⦃f : Float W⦄ where
  open f use {nought, le, gt}

  -- An ad that counts as valid: it has no reason against it and is desired.
  abbrev pub is_scored_valid : AdScore W → Option AdRejectionReason → Bool
  is_scored_valid ad_score reason = is_valid_ad reason && gt ad_score.desirability nought

  -- An ad of a component auction whose scoreAd() did not allow it in the top-level auction.
  abbrev pub is_withheld : AuctionScope → AdScore W → Bool
  is_withheld auction_scope ad_score =
      is_device_component auction_scope && not ad_score.allow_component_auction

  abbrev pub is_eligible : AuctionScope → AdScore W → Option AdRejectionReason → Bool
  is_eligible auction_scope ad_score reason =
      is_scored_valid ad_score reason && not (is_withheld auction_scope ad_score)

  -- The rejections that an ad adds: none if it is valid, and its reason, or the default one, if not.
  abbrev pub rejections_of : AdScore W → Option AdRejectionReason → List AdRejectionReason
  rejections_of ad_score reason = if is_scored_valid ad_score reason then [] else elim reason [
    | none ↦
        (record {
          interest_group_owner = ad_score.interest_group_owner;
          interest_group_name = ad_score.interest_group_name;
          rejection_reason = seller_rejection_reason_not_available;
        })
        ∷ []
    | some given ↦ given ∷ []
  ]

  module _ ⦃o : IsOrdered W⦄ where
    pub gt-le : (x y : W) → IsNumber x → IsNumber y → gt x y ≡ true → le y x ≡ true
    gt-le x y nx ny h = ground (arith, o.gt-eq-not_le x y nx ny, o.le_total x y nx ny)

    pub not_gt-le : (x y : W) → IsNumber x → IsNumber y → gt x y ≡ false → le x y ≡ true
    not_gt-le x y nx ny h = ground (arith, o.gt-eq-not_le x y nx ny)

    pub gt-le_trans :
        (x y z : W)
        → IsNumber x
        → IsNumber y
        → IsNumber z
        → gt x y ≡ true
        → le z y ≡ true
        → gt x z ≡ true
    gt-le_trans x y z nx ny nz g l =
        ground (arith, o.gt-eq-not_le x y nx ny, o.gt-eq-not_le x z nx nz, o.le_trans x z y)

    pub le-gt-false : (x y : W) → IsNumber x → IsNumber y → le x y ≡ true → gt x y ≡ false
    le-gt-false x y nx ny l = ground (arith, o.gt-eq-not_le x y nx ny)

    -- What the end of `HandleScoredAd` adds, the winner being left alone.
    abbrev pub IsRecorded :
        AdScore W → Option AdRejectionReason → ScoringData W → ScoringData W → Type 0
    IsRecorded ad_score reason before after =
        (after.ad_rejection_reasons ≡ before.ad_rejection_reasons ++ rejections_of ad_score reason)
        × (after.seller_rejected_bid_count
            ≡ before.seller_rejected_bid_count + length (rejections_of ad_score reason))

    abbrev pub IsSameWinner : ScoringData W → ScoringData W → Type 0
    IsSameWinner before after =
        (after.winning_ad ≡ before.winning_ad)
        × (after.index_of_most_desirable_ad ≡ before.index_of_most_desirable_ad)
        × (after.desirability_of_most_desirable_ad ≡ before.desirability_of_most_desirable_ad)

    module _ (index : ℕ) (ad_score : AdScore W) (scoring : ScoringData W) where
      abbrev RecordsIndex : Option AdRejectionReason → Type 0
      RecordsIndex reason =
          (after : ScoringData W) × (record_index index ad_score reason scoring ≡ some after)
          × IsRecorded ad_score reason scoring after
          × IsSameWinner scoring after

      records_valid :
          (reason : Option AdRejectionReason)
          → is_scored_valid ad_score reason ≡ true
          → RecordsIndex reason
      unfolding record_index
      records_valid reason h = (
        record scoring {
          score_ad_map = push_index ad_score.desirability index scoring.score_ad_map;
        },
        rw h refl,
        (rw h (sym (append-nil _)), rw h (omega arith)),
        (refl, refl, refl),
      )

      records_rejected :
          (reason : Option AdRejectionReason)
          → IsNumber ad_score.desirability
          → is_scored_valid ad_score reason ≡ false
          → RecordsIndex reason
      unfolding record_index reject or_default_reason
      records_rejected none number h = (
        record scoring {
          ad_rejection_reasons = scoring.ad_rejection_reasons ++ rejections_of ad_score none;
          seller_rejected_bid_count = scoring.seller_rejected_bid_count + 1;
        },
        rw (h, not_gt-le ad_score.desirability nought number o.nought-IsNumber h) refl,
        (refl, rw h refl),
        (refl, refl, refl),
      )
      records_rejected (some given) number h = (
        record scoring {
          ad_rejection_reasons = scoring.ad_rejection_reasons ++ given ∷ [];
          seller_rejected_bid_count = scoring.seller_rejected_bid_count + 1;
        },
        rw h refl,
        (rw h refl, rw h refl),
        (refl, refl, refl),
      )

      record_index_lem :
          (reason : Option AdRejectionReason) → IsNumber ad_score.desirability → RecordsIndex reason
      record_index_lem reason number = elim (Bool-cases (is_scored_valid ad_score reason)) [
        | inl h ↦ records_valid reason h
        | inr h ↦ records_rejected reason number h
      ]

      -- What a round does: its rejections are recorded, and either the winner stays and the ad,
      -- where eligible, is not more desirable, or the ad is eligible, more desirable and wins.
      abbrev pub IsRound : AuctionScope → Option AdRejectionReason → ScoringData W → Type 0
      IsRound auction_scope reason after =
          IsRecorded ad_score reason scoring after
          × (((is_eligible auction_scope ad_score reason ≡ true
                  → le ad_score.desirability scoring.desirability_of_most_desirable_ad ≡ true)
                × IsSameWinner scoring after)
              ⊎ ((is_eligible auction_scope ad_score reason ≡ true)
                  × (gt ad_score.desirability scoring.desirability_of_most_desirable_ad ≡ true)
                  × IsSameWinner (update_winner index ad_score scoring) after))

    module _ (auction_scope : AuctionScope) (index : ℕ) (ad_score : AdScore W)
        (reason : Option AdRejectionReason) (scoring : ScoringData W)
        (number : IsNumber ad_score.desirability)
        (lead_number : IsNumber scoring.desirability_of_most_desirable_ad)
        (lead_nought : le nought scoring.desirability_of_most_desirable_ad ≡ true) where
      abbrev lead : W
      lead = scoring.desirability_of_most_desirable_ad

      positive : gt ad_score.desirability lead ≡ true → gt ad_score.desirability nought ≡ true
      positive h =
          gt-le_trans ad_score.desirability lead nought number lead_number o.nought-IsNumber h
            lead_nought

      abbrev Round : Type 0
      Round =
          (after : ScoringData W) × (record_score auction_scope index ad_score reason scoring
            ≡ some after)
          × IsRound index ad_score scoring auction_scope reason after

      behind : (is_valid_ad reason && gt ad_score.desirability lead) ≡ false → Round
      unfolding record_score
      behind h =
          let (after, e, recorded, same) = record_index_lem index ad_score scoring reason number in
          (
            after,
            rw h e,
            (
              recorded,
              inl (
                λ q. not_gt-le ad_score.desirability lead number lead_number (ground arith),
                same,
              ),
            ),
          )

      withheld :
          (is_valid_ad reason && gt ad_score.desirability lead) ≡ true
          → is_withheld auction_scope ad_score ≡ true
          → Round
      unfolding record_score
      withheld h w =
          let valid : is_scored_valid ad_score reason ≡ true = ground (arith, positive) in
          (
            scoring,
            rw (h, w) refl,
            (
              (rw valid (sym (append-nil _)), rw valid (omega arith)),
              inl (λ q. absurd (ground arith), (refl, refl, refl)),
            ),
          )

      ahead :
          (is_valid_ad reason && gt ad_score.desirability lead) ≡ true
          → is_withheld auction_scope ad_score ≡ false
          → Round
      unfolding record_score update_winner
      ahead h w =
          let (after, e, recorded, same) =
            record_index_lem index ad_score (update_winner index ad_score scoring) reason number in
          (after, rw (h, w) e, (recorded, inr (ground (arith, positive), ground arith, same)))

      pub record_score_lem : Round
      record_score_lem = elim (Bool-cases (is_valid_ad reason && gt ad_score.desirability lead)) [
        | inr h ↦ behind h
        | inl h ↦ elim (Bool-cases (is_withheld auction_scope ad_score)) [
          | inl w ↦ withheld h w
          | inr w ↦ ahead h w
        ]
      ]
