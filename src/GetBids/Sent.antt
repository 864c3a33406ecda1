-- ===== src/GetBids/Sent.antt =====
-- The requests of a seller frontend's app reactor, as the buyer frontend handles them.
use bas_dev.Common.{
  ◌||◌, not, inl, inr, ℕ, ◌≤◌, ◌≡◌, refl, ap, ◌∙◌, Bool, true, false, ◌&&◌, String, List, Option,
  none, some, if◌then◌else◌, Bool-cases, Option-cases,
}
use bas_dev.Api.{ClientType}
use bas_dev.SelectAd.Messages.{
  AppSignalsBuyerInput, BuyerInput, AuctionConfig, ProtectedAuctionInput, GetBidsRawRequest,
}
use bas_dev.SelectAd.Requests.{
  app_signals_of, contextual_data, create_get_bids_request, create_app_get_bids_request,
  may_populate_protected_app_signals_buyer_input,
}
use bas_dev.GetBids.{has_field, has_signals, BuyerServices, GetBidsReactor, execute_decrypted}
use bas_dev.GetBids.Requests.{
  signals_or_default, contextual_of, create_generate_app_signals_bids_raw_request,
}
use bas_dev.GetBids.Steps.{Run}
use bas_dev.GetBids.Tasks.{IsAnswerable}
use bas_dev.GetBids.Finishes.{GoesOn, Run-GoesOn}
use bas_dev.SelectAd.Requests.Origins.{has_value, cleared-signals}

-- The input for protected app signals of a request, from the signals and the contextual data.
abbrev sent_input : Bool → Option String → Option (List String) → Option AppSignalsBuyerInput
sent_input false signals contextual = none
sent_input true none contextual = none
sent_input true (some signals) contextual = some (record {
  protected_app_signals = some signals;
  contextual_protected_app_signals_data = contextual;
})

abbrev signals_or_empty : Option String → String
signals_or_empty none = ""
signals_or_empty (some signals) = signals

populated-sent_input :
    (config : AuctionConfig) (pas : Bool) (buyer : String) (request : GetBidsRawRequest)
    → request.protected_app_signals_buyer_input ≡ none
    → (may_populate_protected_app_signals_buyer_input config pas buyer
        request).protected_app_signals_buyer_input
      ≡ sent_input pas (app_signals_of request.buyer_input) (contextual_data config buyer)
unfolding may_populate_protected_app_signals_buyer_input
populated-sent_input config pas buyer request unset = elim (Bool-cases pas) [
  | inr off ↦ rw (may_populate_protected_app_signals_buyer_input, off) unset
  | inl on ↦ elim (Option-cases (app_signals_of request.buyer_input)) [
    | inl absent ↦ rw (may_populate_protected_app_signals_buyer_input, on, absent) unset
    | inr (signals, found) ↦ rw (may_populate_protected_app_signals_buyer_input, on, found) refl
  ]
]

signals-sent_input :
    (pas : Bool) (signals : Option String) (contextual : Option (List String))
    → (signals_or_default (sent_input pas signals contextual)
        ≡ signals_or_empty (if pas then signals else none))
      × (contextual_of (sent_input pas signals contextual)
          ≡ (if pas && has_value signals then contextual else none))
signals-sent_input false signals contextual = (refl, refl)
signals-sent_input true none contextual = (refl, refl)
signals-sent_input true (some signals) contextual = (refl, refl)

or_of_and : (a b : Bool) → (not (a && b) || b) ≡ true
or_of_and true true = refl
or_of_and true false = refl
or_of_and false b = refl

module _ (config : AuctionConfig) (client_type : ClientType)
    (protected_input : ProtectedAuctionInput) (pa pas : Bool) (buyer : String)
    (buyer_input : BuyerInput) where
  abbrev sent : GetBidsRawRequest
  sent = create_app_get_bids_request config client_type protected_input pa pas buyer buyer_input

  created-sent_input :
      sent.protected_app_signals_buyer_input
      ≡ sent_input pas (app_signals_of buyer_input) (contextual_data config buyer)
  unfolding create_app_get_bids_request create_get_bids_request
  created-sent_input =
      let request =
        create_get_bids_request config client_type protected_input pa buyer buyer_input in
      populated-sent_input config pas buyer request refl
      ∙ ap (λ s. sent_input pas s (contextual_data config buyer)) (cleared-signals buyer_input _)

  -- The bidding service of a buyer gets the user's protected app signals and the ad ids of the
  -- buyer's configuration as they came to the seller's app reactor: none when protected app signals
  -- are disabled there, and no ad ids without signals.
  pub create_app_get_bids_request-sent :
      let request = create_generate_app_signals_bids_raw_request sent in
      (request.protected_app_signals
        ≡ signals_or_empty (if pas then app_signals_of buyer_input else none))
      × (request.contextual_protected_app_signals_data ≡ (
          if pas && has_value (app_signals_of buyer_input)
          then contextual_data config buyer
          else none))
  unfolding create_generate_app_signals_bids_raw_request
  create_app_get_bids_request-sent =
      let (a, b) =
        signals-sent_input pas (app_signals_of buyer_input) (contextual_data config buyer) in
      (ap signals_or_default created-sent_input ∙ a, ap contextual_of created-sent_input ∙ b)

  module _ {W : Type 0} (services : BuyerServices W) where
    has_signals-sent_input :
        (pas : Bool) (signals : Option String) (contextual : Option (List String))
        (request : GetBidsRawRequest)
        → request.protected_app_signals_buyer_input ≡ sent_input pas signals contextual
        → has_signals services request ≡ has_field request.protected_app_signals_buyer_input
    has_signals-sent_input false signals contextual request e = rw e refl
    has_signals-sent_input true none contextual request e = rw e refl
    has_signals-sent_input true (some signals) contextual request e = rw e refl

    sent-IsAnswerable : IsAnswerable services sent
    sent-IsAnswerable =
        let present =
          has_signals-sent_input pas (app_signals_of buyer_input) (contextual_data config buyer)
            sent created-sent_input in
        ap
          (λ b.
            not (
              services.is_protected_app_signals_enabled
              && has_field sent.protected_app_signals_buyer_input)
            || b)
          present
        ∙ or_of_and services.is_protected_app_signals_enabled
            (has_field sent.protected_app_signals_buyer_input)

    -- Every request of a seller's app reactor is answered: a run of the buyer frontend takes at most
    -- four steps, and wherever it stands, the RPC is finished once, or it is not finished and a
    -- response or a call is still to come.
    pub create_app_get_bids_request-GoesOn :
        {n : ℕ} (r : GetBidsReactor W)
        → Run services n (execute_decrypted services sent) r
        → (n ≤ 4) × GoesOn services r
    create_app_get_bids_request-GoesOn r run = Run-GoesOn services sent sent-IsAnswerable r run
