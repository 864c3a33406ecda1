-- ===== src/Scoring/Listed.antt =====
-- The indices that the scoring data hold: each is that of a response whose ad is known.
use bas_dev.Common.{
  ℕ, ◌≡◌, true, not, ◌&&◌, List, [], ◌∷◌, Option, none, some, inl, inr, ◌⊎◌, arith, All, All-append,
  Bool-cases,
}
use bas_dev.Common.Float.{Float, IsNumber}
use bas_dev.Api.{AdScore, AdRejectionReason}
use bas_dev.Scope.{AuctionScope, is_device_component}
use bas_dev.Scoring.{ScoringData}
use bas_dev.Scoring.Handle.{
  is_valid_ad, update_winner, push_index, or_default_reason, reject, record_index, record_score,
}
use bas_dev.Scoring.Others.{converts}

-- A score that is a number, and whose conversion to `int` is defined.
abbrev pub IsKey : {W : Type 0} ⦃f : Float W⦄ → W → Type 0
IsKey ⦃f⦄ score = IsNumber score × (converts score ≡ true)

module _ {W : Type 0} ⦃f : Float W⦄ (InRange : ℕ → Type 0) where
  open f use {nought, gt}

  -- An entry of `score_ad_map`.
  abbrev pub IsEntry : W × List ℕ → Type 0
  IsEntry (score, indices) = IsKey score × All InRange indices

  -- The entries of the map, and the index of the winner if there is one.
  abbrev pub IsListed : ScoringData W → Type 0
  IsListed scoring =
      All IsEntry scoring.score_ad_map
      × ((scoring.winning_ad ≡ none) ⊎ InRange scoring.index_of_most_desirable_ad)

  IsEntry-push_index :
      (score : W) (index : ℕ) (m : List (W × List ℕ))
      → IsKey score
      → InRange index
      → All IsEntry m
      → All IsEntry (push_index score index m)
  unfolding push_index
  IsEntry-push_index score index [] number inside h = ((number, (inside, tt)), tt)
  IsEntry-push_index score index ((key, indices) ∷ m) number inside ((n, ins), h) =
      elim (Bool-cases (f.eq key score)) [
        | inl e ↦
            rw (push_index, e) ((n, All-append InRange indices (index ∷ []) ins (inside, tt)), h)
        | inr e ↦ rw (push_index, e) ((n, ins), IsEntry-push_index score index m number inside h)
      ]

  IsListed-same :
      (before after : ScoringData W)
      → after.score_ad_map ≡ before.score_ad_map
      → after.winning_ad ≡ before.winning_ad
      → after.index_of_most_desirable_ad ≡ before.index_of_most_desirable_ad
      → IsListed before
      → IsListed after
  IsListed-same before after m w i h = rw (m, w, i) h

  module _ (index : ℕ) (inside : InRange index) (ad_score : AdScore W)
      (number : IsKey ad_score.desirability) where
    IsListed-reject :
        (reason : Option AdRejectionReason) (scoring : ScoringData W) {after : ScoringData W}
        → reject reason scoring ≡ some after
        → IsListed scoring
        → IsListed after
    unfolding reject
    IsListed-reject none scoring e h = cc
    IsListed-reject (some reason) scoring {after} e h =
        IsListed-same scoring after (ground (arith, e)) (ground (arith, e)) (ground (arith, e)) h

    IsListed-record_index :
        (reason : Option AdRejectionReason) (scoring : ScoringData W) {after : ScoringData W}
        → record_index index ad_score reason scoring ≡ some after
        → IsListed scoring
        → IsListed after
    unfolding record_index
    IsListed-record_index reason scoring {after} e h =
        elim (Bool-cases (is_valid_ad reason && gt ad_score.desirability nought)) [
          | inl b ↦
              let entries : All IsEntry
                  (push_index ad_score.desirability index scoring.score_ad_map) =
                IsEntry-push_index ad_score.desirability index scoring.score_ad_map number inside
                  h.0 in
              IsListed-same
                (record scoring {
                  score_ad_map = push_index ad_score.desirability index scoring.score_ad_map;
                })
                after (ground (arith, e, b)) (ground (arith, e, b)) (ground (arith, e, b))
                (entries, h.1)
          | inr b ↦
              IsListed-reject (or_default_reason ad_score reason) scoring {after = after}
                (ground (arith, e, b)) h
        ]

    pub IsListed-record_score :
        (auction_scope : AuctionScope) (reason : Option AdRejectionReason) (scoring : ScoringData W)
        {after : ScoringData W}
        → record_score auction_scope index ad_score reason scoring ≡ some after
        → IsListed scoring
        → IsListed after
    unfolding record_score update_winner
    IsListed-record_score auction_scope reason scoring {after} e h =
        let leads =
          is_valid_ad reason
          && gt ad_score.desirability scoring.desirability_of_most_desirable_ad in
        let withheld = is_device_component auction_scope && not ad_score.allow_component_auction in
        elim (Bool-cases leads) [
          | inr b ↦ IsListed-record_index reason scoring {after = after} (ground (arith, e, b)) h
          | inl b ↦ elim (Bool-cases withheld) [
            | inl c ↦
                IsListed-same scoring after (ground (arith, e, b, c)) (ground (arith, e, b, c))
                  (ground (arith, e, b, c)) h
            | inr c ↦
                IsListed-record_index reason (update_winner index ad_score scoring) {after = after}
                  (ground (arith, e, b, c)) (h.0, inr inside)
          ]
        ]
