-- ===== src/SelectAd/Reactor/Phases.antt =====
-- The phases of a run: while tasks of buyers are pending, while a response of another service is
-- awaited, and when the RPC is finished; and what each handler leads to.
use bas_dev.Common.{
  ◌≡◌, ◌⊎◌, inl, inr, refl, ap, ◌&&◌, String, [], ◌∷◌, ◌++◌, Option, none, some, is_empty,
  string_eq, Bool-cases, Option-cases,
}
use bas_dev.Common.Float.{Float}
use bas_dev.Scope.{is_server_component}
use bas_dev.Api.{AdScore}
use bas_dev.Errors.{report_error, server_side, ad_server_visible}
use bas_dev.SelectAd.Currency.{empty}
use bas_dev.SelectAd.Services.{
  GrpcCode, Status, StatusOr, value, failure, Request, Plaintext, plaintext, finished_with,
  left_open, Services,
}
use bas_dev.SelectAd.Checks.{have_errors}
use bas_dev.SelectAd.Reports.{report_to_buyers}
use bas_dev.SelectAd.Reactor.{
  SelectAdReactor, Waiting, idle, for_scores, finish, is_internal, high_score_of, encrypt_response,
  respond, on_score_ads_done, score_ads_request, score_ads, on_fetch_scoring_signals_done,
}

module _ {W : Type 0} where
  -- No task is left and nothing is awaited: only the running handler is.
  abbrev pub IsClosed : SelectAdReactor W → Type 0
  IsClosed r = (r.to_visit ≡ []) × (r.called ≡ []) × (r.waiting ≡ idle) × (r.finished ≡ [])

  -- The RPC is finished, once, and nothing is left to do.
  abbrev pub IsDone : SelectAdReactor W → Type 0
  IsDone r =
      (r.to_visit ≡ [])
      × (r.called ≡ [])
      × (r.waiting ≡ idle)
      × (status : Status) × (r.finished ≡ status ∷ [])

  -- The RPC is not finished, and `GetNonEncryptedResponse` has returned an error without finishing
  -- it.
  abbrev pub IsLeftOpen : Services W → SelectAdReactor W → Type 0
  IsLeftOpen services r =
      (r.finished ≡ [])
      × (high_score : Option (AdScore W)) × (message : Option String)
      × (services.non_encrypted_response high_score message r.buyer_bids ≡ left_open)

  -- Nothing is left to do.
  abbrev pub IsEnded : Services W → SelectAdReactor W → Type 0
  IsEnded services r =
      (r.to_visit ≡ [])
      × (r.called ≡ [])
      × (r.waiting ≡ idle)
      × (((status : Status) × (r.finished ≡ status ∷ [])) ⊎ IsLeftOpen services r)

  -- A response is awaited.
  abbrev pub IsOpen : Waiting → SelectAdReactor W → Type 0
  IsOpen waiting r = (r.to_visit ≡ []) × (r.called ≡ []) × (r.waiting ≡ waiting) × (r.finished ≡ [])

  abbrev pub IsAfter : Services W → Waiting → SelectAdReactor W → Type 0
  IsAfter services waiting r = IsEnded services r ⊎ IsOpen waiting r

  pub finish-IsEnded :
      (services : Services W) (code : GrpcCode) (message : String) (r : SelectAdReactor W)
      → IsClosed r
      → IsEnded services (finish code message r)
  finish-IsEnded services code message r (a, b, c, d) = (
    a,
    b,
    c,
    inl (
      record { code = code; message = message },
      ap (record { code = code; message = message } ∷◌) d,
    ),
  )

module _ {W : Type 0} ⦃f : Float W⦄ (services : Services W) (request : Request) where
  encrypt_response-IsEnded :
      (text : String) (r : SelectAdReactor W)
      → IsClosed r
      → IsEnded services (encrypt_response services request text r)
  unfolding encrypt_response
  encrypt_response-IsEnded text r h =
      elim (Bool-cases (is_server_component request.auction_scope)) [
        | inl e ↦ elim (Option-cases (services.hpke_encrypt text)) [
          | inl absent ↦ rw (encrypt_response, e, absent) (finish-IsEnded services _ _ r h)
          | inr ((ciphertext, key_id), found) ↦
              let sealed = record r { ciphertext = some ciphertext; key_id = some key_id } in
              rw (encrypt_response, e, found) (finish-IsEnded services _ _ sealed h)
        ]
        | inr e ↦ elim (Option-cases (services.encapsulate text)) [
          | inl absent ↦ rw (encrypt_response, e, absent) (finish-IsEnded services _ _ r h)
          | inr (ciphertext, found) ↦
              let sealed = record r { ciphertext = some ciphertext } in
              rw (encrypt_response, e, found) (finish-IsEnded services _ _ sealed h)
        ]
      ]

  respond_with :
      (text : Plaintext) (r : SelectAdReactor W)
      → (high_score : Option (AdScore W)) × (message : Option String)
        × (services.non_encrypted_response high_score message r.buyer_bids ≡ text)
      → IsClosed r
      → IsEnded services (elim text [
        | plaintext t ↦ encrypt_response services request t r
        | finished_with status ↦ finish status.code status.message r
        | left_open ↦ r
      ])
  respond_with (plaintext t) r e h = encrypt_response-IsEnded t r h
  respond_with (finished_with status) r e h = finish-IsEnded services _ _ r h
  respond_with left_open r (high_score, message, e) (a, b, c, d) =
      (a, b, c, inr (d, high_score, message, e))

  respond-IsEnded :
      (high_score : Option (AdScore W)) (r : SelectAdReactor W)
      → IsClosed r
      → IsEnded services (respond services request high_score r)
  unfolding respond
  respond-IsEnded high_score r h = respond_with _ r (high_score, _, refl) h

  pub on_score_ads_done-IsEnded :
      (response : StatusOr (Option (AdScore W))) (r : SelectAdReactor W)
      → IsClosed r
      → IsEnded services (on_score_ads_done services request response r)
  unfolding on_score_ads_done
  on_score_ads_done-IsEnded (failure status) r h =
      elim (Bool-cases (have_errors ad_server_visible r.errors)) [
        | inl e ↦ rw (on_score_ads_done, e) (finish-IsEnded services _ _ r h)
        | inr e ↦ elim (Bool-cases (is_internal status.code)) [
          | inl internal ↦ rw (on_score_ads_done, e, internal) (respond-IsEnded none r h)
          | inr other ↦ rw (on_score_ads_done, e, other) (finish-IsEnded services _ _ r h)
        ]
      ]
  on_score_ads_done-IsEnded (value ad_score) r h =
      elim (Bool-cases (have_errors ad_server_visible r.errors)) [
        | inl e ↦ rw (on_score_ads_done, e) (finish-IsEnded services _ _ r h)
        | inr e ↦
            let high_score = high_score_of ad_score in
            let reports =
              report_to_buyers services r.decoded.input request.config.seller_currency high_score
                r.buyer_bids in
            rw (on_score_ads_done, e)
              (respond-IsEnded high_score (record r { reports = r.reports ++ reports }) h)
      ]

  score_ads-IsAfter :
      (r : SelectAdReactor W)
      → IsClosed r
      → IsAfter services for_scores (score_ads services request r)
  unfolding score_ads
  score_ads-IsAfter r h =
      let raw_request = score_ads_request services request r in
      elim (Bool-cases
        (empty raw_request.ad_bids && empty raw_request.protected_app_signals_ad_bids)) [
          | inl none_left ↦
              rw (score_ads, none_left) (inl (on_score_ads_done-IsEnded (value none) r h))
          | inr some_left ↦ elim (Bool-cases (services.call_scoring raw_request)) [
            | inl accepted ↦ rw (score_ads, some_left, accepted) (inr (h.0, h.1, refl, h.3))
            | inr refused ↦
                rw (score_ads, some_left, refused) (inl (finish-IsEnded services _ _ r h))
          ]
        ]

  pub on_fetch_scoring_signals_done-IsAfter :
      (result : StatusOr String) (r : SelectAdReactor W)
      → IsClosed r
      → IsAfter services for_scores (on_fetch_scoring_signals_done services request result r)
  unfolding on_fetch_scoring_signals_done
  on_fetch_scoring_signals_done-IsAfter (failure status) r h =
      let errors = report_error ad_server_visible "Internal Error" server_side r.errors in
      inl (on_score_ads_done-IsEnded (value none) (record r { errors = errors }) h)
  on_fetch_scoring_signals_done-IsAfter (value signals) r h =
      let fetched = record r { scoring_signals = some signals } in
      elim (Bool-cases (is_empty signals)) [
        | inl e ↦
            rw (on_fetch_scoring_signals_done, e)
              (inl (on_score_ads_done-IsEnded (value none) fetched h))
        | inr e ↦ rw (on_fetch_scoring_signals_done, e) (score_ads-IsAfter fetched h)
      ]
