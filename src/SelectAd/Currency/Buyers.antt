-- ===== src/SelectAd/Currency/Buyers.antt =====
-- What the filter over all buyers leaves, and what it returns.
use mathlib.Core.List.{Perm}
use mathlib.Core.List.Perm
use bas_dev.Common.{
  filter, ◌≡◌, inl, inr, refl, sym, ap, subst, Bool, true, false, not, ◌&&◌, ◌||◌, String, List, [],
  ◌∷◌, none, some, string_eq, is_empty, All, lookup, if◌then◌else◌, arith, Bool-cases, Option-cases,
}
use bas_dev.SelectAd.Messages.{AuctionConfig, GetBidsRawResponse}
use bas_dev.SelectAd.Currency.{
  BuyerBids, empty, has_no_bids, filter_buyer, filter_buyers, erase_empty,
  filter_bids_with_mismatching_currency,
}
use bas_dev.SelectAd.Currency.Filter.{keeps, filter_helper-Perm}

-- Whether a bid of the buyer may be scored: the buyer has no configuration or no currency there, or
-- the bid names no currency or that one.
abbrev pub may_score {ℓ} : {T : Type ℓ} → AuctionConfig → String → (T → String) → T → Bool
may_score config buyer bid_currency ad = elim (lookup buyer config.per_buyer_config) [
  | none ↦ true
  | some buyer_config ↦
      is_empty buyer_config.buyer_currency || keeps bid_currency buyer_config.buyer_currency ad
]

filter-true {ℓ} :
    {T : Type ℓ} (test : T → Bool) (ads : List T)
    → ((ad : T) → test ad ≡ true)
    → filter test ads ≡ ads
filter-true test [] h = refl
filter-true test (ad ∷ ads) h = rw (h ad) (ap (ad ∷◌) (filter-true test ads h))

filter-same {ℓ} :
    {T : Type ℓ} (test test' : T → Bool) (ads : List T)
    → ((ad : T) → test ad ≡ test' ad)
    → filter test ads ≡ filter test' ads
filter-same test test' [] h = refl
filter-same test test' (ad ∷ ads) h = rw (h ad, filter-same test test' ads h)

module _ {W : Type 0} where
  -- The bids of a buyer that may be scored, in some order.
  abbrev pub IsFiltered :
      AuctionConfig → String → GetBidsRawResponse W → GetBidsRawResponse W → Type 0
  IsFiltered config buyer before after =
      Perm after.bids (filter (may_score config buyer (λ ad. ad.bid_currency)) before.bids)
      × Perm after.protected_app_signals_bids (
          filter (may_score config buyer (λ ad. ad.bid_currency)) before.protected_app_signals_bids)

  module _ (pa pas : Bool) (config : AuctionConfig) where
    abbrev BuyerFiltered : String → GetBidsRawResponse W → Type 0
    BuyerFiltered buyer response =
        (valid : Bool) × (after : GetBidsRawResponse W) × (filter_buyer pa pas config buyer response
          ≡ some (valid, after))
        × IsFiltered config buyer response after
        × ((has_no_bids pa pas response || (if has_no_bids pa pas after then not valid else valid))
            ≡ true)

    buyer_untouched :
        (buyer : String) (response : GetBidsRawResponse W)
        → filter_buyer pa pas config buyer response ≡ some (true, response)
        → ((T : Type 0) (bid_currency : T → String) (ad : T)
            → may_score config buyer bid_currency ad ≡ true)
        → BuyerFiltered buyer response
    unfolding has_no_bids
    buyer_untouched buyer response e h = (
      true,
      response,
      e,
      (
        subst (Perm response.bids) (sym (filter-true _ response.bids (h _ _)))
            (Perm.refl response.bids),
        subst (Perm response.protected_app_signals_bids)
            (sym (filter-true _ response.protected_app_signals_bids (h _ _)))
            (Perm.refl response.protected_app_signals_bids),
      ),
      ground arith,
    )

    buyer_filtered :
        (buyer : String) (response : GetBidsRawResponse W) → BuyerFiltered buyer response
    unfolding filter_buyer has_no_bids
    buyer_filtered buyer response = elim (Option-cases (lookup buyer config.per_buyer_config)) [
      | inl absent ↦
          buyer_untouched buyer response (rw (filter_buyer, absent))
            (λ T bid_currency ad. rw (may_score, absent))
      | inr (buyer_config, found) ↦ elim (Bool-cases (is_empty buyer_config.buyer_currency)) [
        | inl unset ↦
            buyer_untouched buyer response (rw (filter_buyer, found, unset))
              (λ T bid_currency ad. rw (may_score, found, unset))
        | inr currency_set ↦
            let currency = buyer_config.buyer_currency in
            let (bids, e, p) = filter_helper-Perm (λ ad. ad.bid_currency) currency response.bids in
            let (pas_bids, f, q) =
              filter_helper-Perm (λ ad. ad.bid_currency) currency
                response.protected_app_signals_bids in
            (
              (pa && not (empty bids)) || (pas && not (empty pas_bids)),
              record { bids = bids; protected_app_signals_bids = pas_bids },
              rw (filter_buyer, found, currency_set, e, f),
              (
                subst (Perm bids)
                    (filter-same _ _ response.bids (λ ad. rw (may_score, found, currency_set))) p,
                subst (Perm pas_bids)
                    (filter-same _ _ response.protected_app_signals_bids
                      (λ ad. rw (may_score, found, currency_set)))
                    q,
              ),
              ground arith,
            )
      ]
    ]

    -- The buyers in the map before and after the loop, each with its bids that may be scored.
    abbrev pub AllFiltered : BuyerBids W → BuyerBids W → Type 0
    AllFiltered [] [] = Unit
    AllFiltered ((buyer, before) ∷ later) ((buyer', after) ∷ later') =
        (buyer ≡ buyer') × IsFiltered config buyer before after × AllFiltered later later'
    AllFiltered _ _ = ⊥

    abbrev pub HasBids : String × GetBidsRawResponse W → Type 0
    HasBids (buyer, response) = has_no_bids pa pas response ≡ false

    erase_empty-HasBids : (m : BuyerBids W) → All HasBids (erase_empty pa pas m)
    unfolding erase_empty
    erase_empty-HasBids [] = tt
    erase_empty-HasBids ((buyer, response) ∷ m) = elim (Bool-cases (has_no_bids pa pas response)) [
      | inl e ↦ rw e (erase_empty-HasBids m)
      | inr e ↦ rw e (e, erase_empty-HasBids m)
    ]

    any_valid-step :
        (valid any : Bool) (buyer : String) (before after : GetBidsRawResponse W)
        (later : BuyerBids W)
        → has_no_bids pa pas before ≡ false
        → (has_no_bids pa pas before || (if has_no_bids pa pas after then not valid else valid))
          ≡ true
        → any ≡ not (empty (erase_empty pa pas later))
        → (valid || any) ≡ not (empty (erase_empty pa pas ((buyer, after) ∷ later)))
    unfolding erase_empty
    any_valid-step valid any buyer before after later h k e = ground arith

    filter_buyers_lem :
        (m : BuyerBids W)
        → All HasBids m
        → (after : BuyerBids W) × (filter_buyers pa pas config m
            ≡ some (not (empty (erase_empty pa pas after)), after))
          × AllFiltered m after
    unfolding filter_buyers erase_empty
    filter_buyers_lem [] h = ([], refl, tt)
    filter_buyers_lem ((buyer, before) ∷ m) (h, hs) =
        let (valid, response, e, p, k) = buyer_filtered buyer before in
        let (after, f, q) = filter_buyers_lem m hs in
        let any = any_valid-step valid _ buyer before response after h k refl in
        (
          (buyer, response) ∷ after,
          rw (filter_buyers, e, f) (ap (λ b. some (b, (buyer, response) ∷ after)) any),
          (refl, p, q),
        )

    -- When every buyer in the map has bids, the filter leaves the bids that may be scored, in some
    -- order, drops the buyers that have none left, and returns whether any buyer is left.
    pub filter_bids-AllFiltered :
        (buyer_bids : BuyerBids W)
        → All HasBids buyer_bids
        → (after : BuyerBids W) × (filter_bids_with_mismatching_currency pa pas config buyer_bids
            ≡ some (not (empty (erase_empty pa pas after)), erase_empty pa pas after))
          × AllFiltered buyer_bids after
          × All HasBids (erase_empty pa pas after)
    unfolding filter_bids_with_mismatching_currency
    filter_bids-AllFiltered buyer_bids h =
        let (after, e, p) = filter_buyers_lem buyer_bids h in
        (after, rw (filter_bids_with_mismatching_currency, e), p, erase_empty-HasBids after)
