-- ===== src/Scoring/Dispatched.antt =====
-- That every dispatch request belongs to an ad, and which generation ids a top-level auction takes.
use bas_dev.Common.{
  subst, sym, suc, ◌+◌, ◌≡◌, refl, Bool, true, false, ◌||◌, ◌&&◌, String, List, [], ◌∷◌, Option,
  none, some, ◌==◌, string_eq, string_eq_iff, is_empty, if◌then◌else◌, lookup, contains, emplace,
  length, length-append, All, All-append, All-map, arith, Bool-cases, inl, inr,
}
use bas_dev.Api.{AuctionResult, AdWithBidMetadata, ProtectedAppSignalsAdWithBidMetadata}
use bas_dev.Scoring.Requests.{
  Dispatch, no_dispatch, dispatch_ad, dispatch_app_signals_ad, is_skipped, top_level_loop,
  map_auction_result_to_ad_with_bid_metadata, populate_top_level_auction_dispatch_requests,
  populate_protected_audience_dispatch_requests,
  may_populate_protected_app_signals_dispatch_requests,
}

module _ {V : Type 0} where
  contains-emplace :
      (k j : String) (v : V) (m : List (String × V))
      → contains k (emplace j v m) ≡ ((j == k) || contains k m)
  unfolding lookup emplace
  contains-emplace k j v [] = ground arith
  contains-emplace k j v ((i, w) ∷ m) =
      ground
        (arith, string_eq_iff j k, string_eq_iff i k, string_eq_iff i j, contains-emplace k j v m)

  length-emplace :
      (j : String) (v : V) (m : List (String × V))
      → contains j m ≡ false
      → length (emplace j v m) ≡ suc (length m)
  unfolding lookup emplace
  length-emplace j v [] h = refl
  length-emplace j v ((i, w) ∷ m) h = ground (arith, length-emplace j v m)

  All-emplace :
      (P : String × V → Type 0) (j : String) (v : V) (m : List (String × V))
      → P (j, v)
      → All P m
      → All P (emplace j v m)
  unfolding emplace
  All-emplace P j v [] p h = (p, tt)
  All-emplace P j v ((i, w) ∷ m) p (q, h) = elim (Bool-cases (i == j)) [
    | inl e ↦ rw (emplace, e) (q, h)
    | inr e ↦ rw (emplace, e) (q, All-emplace P j v m p h)
  ]

module _ {W : Type 0} where
  abbrev is_known : Dispatch W → String → Bool
  is_known d id = contains id d.ad_data || contains id d.protected_app_signals_ad_data

  abbrev IsOwnRender : String × AdWithBidMetadata W → Type 0
  IsOwnRender (id, ad) = ad.render ≡ id

  abbrev IsOwnAppRender : String × ProtectedAppSignalsAdWithBidMetadata W → Type 0
  IsOwnAppRender (id, ad) = ad.render ≡ id

  -- Each dispatched id is that of an ad, an ad is held under its render URL, and there are as many
  -- requests as ads.
  pub record IsDispatched (d : Dispatch W) : Type 0 where
    known : All (λ id. is_known d id ≡ true) d.dispatch_requests
    own : All IsOwnRender d.ad_data
    own_app : All IsOwnAppRender d.protected_app_signals_ad_data
    once : length d.dispatch_requests ≡ length d.ad_data + length d.protected_app_signals_ad_data

  IsDispatched-if :
      (b : Bool) (d e : Dispatch W)
      → IsDispatched d
      → IsDispatched e
      → IsDispatched (if b then d else e)
  IsDispatched-if true d e p q = p
  IsDispatched-if false d e p q = q

  pub IsDispatched-dispatch_ad :
      (ad : AdWithBidMetadata W) (d : Dispatch W)
      → IsDispatched d
      → IsDispatched (dispatch_ad ad.render ad d)
  unfolding dispatch_ad
  IsDispatched-dispatch_ad ad d h = elim (Bool-cases (contains ad.render d.ad_data)) [
    | inl e ↦ rw (dispatch_ad, e) h
    | inr e ↦
        let added = λ (id : String). contains-emplace id ad.render ad d.ad_data in
        rw (dispatch_ad, e)
          (record {
            known =
                All-append
                  (λ id.
                    (contains id (emplace ad.render ad d.ad_data)
                      || contains id d.protected_app_signals_ad_data)
                    ≡ true)
                  d.dispatch_requests (ad.render ∷ [])
                  (All-map (λ id. is_known d id ≡ true) _ (λ id k. ground (arith, added id))
                    d.dispatch_requests h.known)
                  (ground (arith, added ad.render, string_eq_iff ad.render ad.render), tt);
            own = All-emplace IsOwnRender ad.render ad d.ad_data refl h.own;
            own_app = h.own_app;
            once =
                let grown = length-emplace ad.render ad d.ad_data e in
                let longer = length-append d.dispatch_requests (ad.render ∷ []) in
                let same = h.once in omega arith;
          })
  ]

  IsDispatched-dispatch_app_signals_ad :
      (ad : ProtectedAppSignalsAdWithBidMetadata W) (d : Dispatch W)
      → IsDispatched d
      → IsDispatched (dispatch_app_signals_ad ad.render ad d)
  unfolding dispatch_app_signals_ad
  IsDispatched-dispatch_app_signals_ad ad d h =
      elim (Bool-cases (contains ad.render d.protected_app_signals_ad_data)) [
        | inl e ↦ rw (dispatch_app_signals_ad, e) h
        | inr e ↦
            let added =
              λ (id : String). contains-emplace id ad.render ad d.protected_app_signals_ad_data in
            rw (dispatch_app_signals_ad, e)
              (record {
                known =
                    All-append
                      (λ id.
                        (contains id d.ad_data
                          || contains id (emplace ad.render ad d.protected_app_signals_ad_data))
                        ≡ true)
                      d.dispatch_requests (ad.render ∷ [])
                      (All-map (λ id. is_known d id ≡ true) _ (λ id k. ground (arith, added id))
                        d.dispatch_requests h.known)
                      (ground (arith, added ad.render, string_eq_iff ad.render ad.render), tt);
                own = h.own;
                own_app =
                    All-emplace IsOwnAppRender ad.render ad d.protected_app_signals_ad_data refl
                      h.own_app;
                once =
                    let grown = length-emplace ad.render ad d.protected_app_signals_ad_data e in
                    let longer = length-append d.dispatch_requests (ad.render ∷ []) in
                    let same = h.once in omega arith;
              })
      ]

  pub IsDispatched-populate_protected_audience :
      (serializes : AdWithBidMetadata W → Bool) (scoring_signals : String → Bool)
      (ads : List (AdWithBidMetadata W)) (d : Dispatch W)
      → IsDispatched d
      → IsDispatched
          (populate_protected_audience_dispatch_requests serializes scoring_signals ads d)
  unfolding populate_protected_audience_dispatch_requests
  IsDispatched-populate_protected_audience serializes scoring_signals [] d h = h
  IsDispatched-populate_protected_audience serializes scoring_signals (ad ∷ ads) d h =
      IsDispatched-populate_protected_audience serializes scoring_signals ads _ (
        IsDispatched-if (scoring_signals ad.render && serializes ad) (dispatch_ad ad.render ad d) d
          (IsDispatched-dispatch_ad ad d h) h)

  pub IsDispatched-may_populate_protected_app_signals :
      (serializes : ProtectedAppSignalsAdWithBidMetadata W → Bool) (scoring_signals : String → Bool)
      (ads : List (ProtectedAppSignalsAdWithBidMetadata W)) (d : Dispatch W)
      → IsDispatched d
      → IsDispatched
          (may_populate_protected_app_signals_dispatch_requests serializes scoring_signals ads d)
  unfolding may_populate_protected_app_signals_dispatch_requests
  IsDispatched-may_populate_protected_app_signals serializes scoring_signals [] d h = h
  IsDispatched-may_populate_protected_app_signals serializes scoring_signals (ad ∷ ads) d h =
      IsDispatched-may_populate_protected_app_signals serializes scoring_signals ads _ (
        IsDispatched-if (scoring_signals ad.render && serializes ad)
          (dispatch_app_signals_ad ad.render ad d) d (IsDispatched-dispatch_app_signals_ad ad d h)
          h)

  pub IsDispatched-no_dispatch : IsDispatched no_dispatch
  IsDispatched-no_dispatch = record { known = tt; own = tt; own_app = tt; once = refl }

  -- After the bids of a request were turned into dispatch requests, each request has the id of
  -- an ad, an ad is held under its render URL, and there are as many requests as ads held, whatever
  -- ads fail to be written as JSON.
  pub populate-IsDispatched :
      (serializes : AdWithBidMetadata W → Bool)
      (app_serializes : ProtectedAppSignalsAdWithBidMetadata W → Bool)
      (scoring_signals : String → Bool) (ads : List (AdWithBidMetadata W))
      (app_ads : List (ProtectedAppSignalsAdWithBidMetadata W))
      → IsDispatched (
          may_populate_protected_app_signals_dispatch_requests app_serializes scoring_signals
            app_ads
            (populate_protected_audience_dispatch_requests serializes scoring_signals ads
              no_dispatch))
  populate-IsDispatched serializes app_serializes scoring_signals ads app_ads =
      IsDispatched-may_populate_protected_app_signals app_serializes scoring_signals app_ads _ (
        IsDispatched-populate_protected_audience serializes scoring_signals ads no_dispatch
          IsDispatched-no_dispatch)

  -- The generation ids of the results that take part, without those before the first that is not
  -- empty, all agree.
  abbrev pub agrees_with : String → List (AuctionResult W) → Bool
  agrees_with generation_id [] = true
  agrees_with generation_id (result ∷ results) =
      (is_skipped result || generation_id == result.ciphertext_generation_id)
      && agrees_with generation_id results

  abbrev pub has_one_generation : List (AuctionResult W) → Bool
  has_one_generation [] = true
  has_one_generation (result ∷ results) =
      if is_skipped result || is_empty result.ciphertext_generation_id
      then has_one_generation results
      else agrees_with result.ciphertext_generation_id results

  abbrev pub is_some : Option (Dispatch W) → Bool
  is_some none = false
  is_some (some d) = true

  top_level_loop-agrees_with :
      (generation_id : String) (results : List (AuctionResult W)) (d : Dispatch W)
      → is_empty generation_id ≡ false
      → is_some (top_level_loop generation_id results d) ≡ agrees_with generation_id results
  unfolding top_level_loop
  top_level_loop-agrees_with generation_id [] d h = refl
  top_level_loop-agrees_with generation_id (result ∷ results) d h = ground (
    arith,
    h,
    top_level_loop-agrees_with generation_id results d h,
    top_level_loop-agrees_with generation_id results
        (dispatch_ad result.ad_render_url (map_auction_result_to_ad_with_bid_metadata result) d) h,
  )

  top_level_loop-has_one_generation :
      (results : List (AuctionResult W)) (d : Dispatch W)
      → is_some (top_level_loop "" results d) ≡ has_one_generation results
  unfolding top_level_loop
  top_level_loop-has_one_generation [] d = refl
  top_level_loop-has_one_generation (result ∷ results) d =
      let rest =
        dispatch_ad result.ad_render_url (map_auction_result_to_ad_with_bid_metadata result) d in
      let skipped = top_level_loop-has_one_generation results d in
      elim (Bool-cases (is_empty result.ciphertext_generation_id)) [
        | inl e ↦
            let unset : "" ≡ result.ciphertext_generation_id =
              sym ((string_eq_iff result.ciphertext_generation_id "").0 e) in
            let later : is_some (top_level_loop result.ciphertext_generation_id results rest)
                ≡ has_one_generation results =
              subst (λ g. is_some (top_level_loop g results rest) ≡ has_one_generation results)
                unset (top_level_loop-has_one_generation results rest) in
            ground (arith, e, later, skipped)
        | inr e ↦ ground (
          arith,
          e,
          skipped,
          top_level_loop-agrees_with result.ciphertext_generation_id results rest e,
        )
      ]

  -- The dispatch requests of a top-level auction are made, without the error of mismatched
  -- generation ids, exactly if the results that take part all have the generation id of the
  -- first of them that has one; the results that take part are those that are no chaff and have a seller.
  pub populate_top_level-has_one_generation :
      (results : List (AuctionResult W)) (d : Dispatch W)
      → is_some (populate_top_level_auction_dispatch_requests results d)
        ≡ has_one_generation results
  unfolding populate_top_level_auction_dispatch_requests
  populate_top_level-has_one_generation = top_level_loop-has_one_generation
