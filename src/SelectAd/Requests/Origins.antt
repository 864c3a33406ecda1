-- ===== src/SelectAd/Requests/Origins.antt =====
-- Which of a user's data a buyer's request carries, and the minutes since a join.
use bas_dev.Common.{
  string_eq, ◌+◌, ◌≤◌, ◌∷◌, string_eq_iff, ◌≢◌, lookup, ◌⊎◌, subst, is_empty, List, if◌then◌else◌,
  inl, ap, ◌∙◌, inr, ◌≡◌, refl, Bool, true, false, not, ◌&&◌, ◌||◌, String, [], Option, none, some,
  arith, Bool-cases, Option-cases, ℕ, ◌<◌, ◌/◌, ◌*◌, ◌^◌,
}
use bas_dev.Common.Int.{pos}
use bas_dev.Api.{ClientType}
use bas_dev.SelectAd.Messages.{
  InterestGroup, AdWithBid, PerBuyerConfig, AppSignalsBuyerInput, BrowserSignals, BuyerInput,
  AuctionConfig, ProtectedAuctionInput, GetBidsRawRequest,
}
use bas_dev.SelectAd.Currency.{empty}
use bas_dev.SelectAd.Requests.{
  is_browser, find_group, build_ad_with_bid_metadata, contextual_data, to_int_32, recency_minutes,
  create_get_bids_request, create_app_get_bids_request, app_signals_of,
  may_populate_protected_app_signals_buyer_input,
}

abbrev pub has_value {ℓ} : {A : Type ℓ} → Option A → Bool
has_value none = false
has_value (some _) = true

module _ (config : AuctionConfig) (pas : Bool) (buyer : String) (request : GetBidsRawRequest) where
  populated-signals :
      let request' = may_populate_protected_app_signals_buyer_input config pas buyer request in
      request.protected_app_signals_buyer_input ≡ none
      → (request'.buyer_input.protected_app_signals ≡ none)
        × (has_value request'.protected_app_signals_buyer_input
            ≡ (pas && has_value (app_signals_of request.buyer_input)))
        × (request'.buyer_input.interest_groups ≡ request.buyer_input.interest_groups)
  unfolding may_populate_protected_app_signals_buyer_input
  populated-signals unset = elim (Bool-cases pas) [
    | inr off ↦
        rw (may_populate_protected_app_signals_buyer_input, off) (refl, ap has_value unset, refl)
    | inl on ↦ elim (Option-cases (app_signals_of request.buyer_input)) [
      | inl absent ↦
          rw (may_populate_protected_app_signals_buyer_input, on, absent)
            (refl, ap has_value unset, refl)
      | inr (signals, found) ↦
          rw (may_populate_protected_app_signals_buyer_input, on, found) (refl, refl, refl)
    ]
  ]

module _ (input : BuyerInput) where
  pub cleared-signals :
      (test : Bool)
      → app_signals_of (if test then record input { interest_groups = [] } else input)
        ≡ app_signals_of input
  cleared-signals true = refl
  cleared-signals false = refl

  cleared-given :
      (test : Bool)
      → (if test then record input { interest_groups = [] } else input).protected_app_signals
        ≡ input.protected_app_signals
  cleared-given true = refl
  cleared-given false = refl

  cleared-groups :
      (pa : Bool)
      → empty
          (if not pa && not (empty input.interest_groups)
            then record input { interest_groups = [] }
            else input).interest_groups
        ≡ (not pa || empty input.interest_groups)
  cleared-groups true = refl
  cleared-groups false = elim (Bool-cases (empty input.interest_groups)) [
    | inl e ↦ rw (e, e)
    | inr e ↦ rw e
  ]

-- The signals and the contextual data that a request carries, from those of the buyer's input and
-- the buyer's configuration: none without signals, and ids of ads only if there are some.
abbrev pub IsContext : AuctionConfig → String → Option (List String) → Type 0
IsContext config buyer carried =
    ((carried ≡ none)
      × ((lookup buyer config.per_buyer_config ≡ none)
          ⊎ ((c : PerBuyerConfig) × (lookup buyer config.per_buyer_config ≡ some c)
              × ((c.contextual_protected_app_signals_data ≡ none)
                  ⊎ (c.contextual_protected_app_signals_data ≡ some [])))))
    ⊎ ((c : PerBuyerConfig) × (ids : List String) × (lookup buyer config.per_buyer_config ≡ some c)
        × (c.contextual_protected_app_signals_data ≡ some ids)
        × (ids ≢ [])
        × (carried ≡ some ids))

abbrev pub IsCarried :
    AuctionConfig → String → Bool → Option String → Option AppSignalsBuyerInput → Type 0
IsCarried config buyer pas given carried =
    ((carried ≡ none) × ((pas ≡ false) ⊎ ((given ≡ none) ⊎ (given ≡ some ""))))
    ⊎ ((signals : String) × (contextual : Option (List String)) × (pas ≡ true)
        × (given ≡ some signals)
        × (signals ≢ "")
        × IsContext config buyer contextual
        × (carried
            ≡ some (record {
              protected_app_signals = some signals;
              contextual_protected_app_signals_data = contextual;
            })))

contextual_data-IsContext :
    (config : AuctionConfig) (buyer : String)
    → IsContext config buyer (contextual_data config buyer)
contextual_data-IsContext config buyer = of_config (lookup buyer config.per_buyer_config) refl
  where
    of_data :
        (c : PerBuyerConfig) (given : Option (List String))
        → lookup buyer config.per_buyer_config ≡ some c
        → c.contextual_protected_app_signals_data ≡ given
        → IsContext config buyer (contextual_data config buyer)
    of_data c none e d = inl (rw (contextual_data, e, d) refl, inr (c, e, inl d))
    of_data c (some []) e d = inl (rw (contextual_data, e, d) refl, inr (c, e, inr d))
    of_data c (some (x ∷ xs)) e d =
        inr (c, x ∷ xs, e, d, (λ h. cc), rw (contextual_data, e, d) refl)

    of_config :
        (found : Option PerBuyerConfig)
        → lookup buyer config.per_buyer_config ≡ found
        → IsContext config buyer (contextual_data config buyer)
    of_config none e = inl (rw (contextual_data, e) refl, inl e)
    of_config (some c) e = of_data c c.contextual_protected_app_signals_data e refl

app_signals_of-IsCarried :
    (config : AuctionConfig) (pas : Bool) (buyer : String) (request : GetBidsRawRequest)
    → request.protected_app_signals_buyer_input ≡ none
    → IsCarried config buyer pas request.buyer_input.protected_app_signals
        (may_populate_protected_app_signals_buyer_input config pas buyer
          request).protected_app_signals_buyer_input
unfolding may_populate_protected_app_signals_buyer_input
app_signals_of-IsCarried config false buyer request unset = inl (unset, inl refl)
app_signals_of-IsCarried config true buyer request unset =
    of request.buyer_input.protected_app_signals refl
  where
    of :
        (given : Option String)
        → request.buyer_input.protected_app_signals ≡ given
        → IsCarried config buyer true request.buyer_input.protected_app_signals
            (may_populate_protected_app_signals_buyer_input config true buyer
              request).protected_app_signals_buyer_input
    of none e =
        let absent : app_signals_of request.buyer_input ≡ none = rw e refl in
        rw (may_populate_protected_app_signals_buyer_input, absent) (inl (unset, inr (inl e)))
    of (some signals) e = elim (Bool-cases (is_empty signals)) [
      | inl b ↦
          let absent : app_signals_of request.buyer_input ≡ none = rw (e, b) refl in
          let blank : signals ≡ "" = ground (arith, string_eq_iff signals "", b) in
          rw (may_populate_protected_app_signals_buyer_input, absent)
            (inl (unset, inr (inr (e ∙ ap some blank))))
      | inr b ↦
          let found : app_signals_of request.buyer_input ≡ some signals = rw (e, b) refl in
          let there : signals ≢ "" = λ h. ground (arith, string_eq_iff signals "", b, h) in
          rw (may_populate_protected_app_signals_buyer_input, found)
            (inr (
              signals,
              contextual_data config buyer,
              refl,
              e,
              there,
              contextual_data-IsContext config buyer,
              refl,
            ))
    ]

-- The request of the app's reactor for a buyer never carries the protected app signals inside the
-- buyer input. It carries those of the user's input in their own field exactly when protected app
-- signals are enabled and there are some that are not empty, together with the ids of ads that the
-- buyer's configuration has, if any. It has interest groups only when protected audience is enabled
-- and the input has some.
pub create_app_get_bids_request-gated :
    (config : AuctionConfig) (client_type : ClientType) (protected_input : ProtectedAuctionInput)
    (pa pas : Bool) (buyer : String) (buyer_input : BuyerInput)
    → let request =
        create_app_get_bids_request config client_type protected_input pa pas buyer buyer_input in
      (request.buyer_input.protected_app_signals ≡ none)
      × IsCarried config buyer pas buyer_input.protected_app_signals
          request.protected_app_signals_buyer_input
      × (empty request.buyer_input.interest_groups ≡ (not pa || empty buyer_input.interest_groups))
unfolding create_app_get_bids_request create_get_bids_request
create_app_get_bids_request-gated config client_type protected_input pa pas buyer buyer_input =
    let request = create_get_bids_request config client_type protected_input pa buyer buyer_input in
    let (a, b, c) = populated-signals config pas buyer request refl in
    (
      a,
      subst
          (λ given.
            IsCarried config buyer pas given
              (create_app_get_bids_request config client_type protected_input pa pas buyer
                buyer_input).protected_app_signals_buyer_input)
          (cleared-given buyer_input _) (app_signals_of-IsCarried config pas buyer request refl),
      ap empty c ∙ cleared-groups buyer_input pa,
    )

to_int_32-small : (n : ℕ) → n < 2 ^ 31 → to_int_32 (pos n) ≡ pos n
to_int_32-small n h = ground arith

-- The age of a membership in milliseconds, which the browser gives in these or in seconds.
abbrev pub HasAge : BrowserSignals → ℕ → Type 0
HasAge signals age =
    (signals.recency_ms ≡ some (pos age))
    ⊎ ((seconds : ℕ) × (signals.recency_ms ≡ none)
        × (signals.recency ≡ pos seconds)
        × (age ≡ seconds * 1000))

recency_minutes-HasAge :
    (signals : BrowserSignals) (age : ℕ)
    → age < 2 ^ 31 * 60000
    → HasAge signals age
    → recency_minutes signals ≡ pos (age / 60000)
unfolding recency_minutes
recency_minutes-HasAge signals age h (inl e) =
    rw (recency_minutes, e) (to_int_32-small (age / 60000) (omega arith))
recency_minutes-HasAge signals age h (inr (seconds, e, e', k)) =
    rw (recency_minutes, e, e')
      (to_int_32-small (seconds / 60) (omega arith) ∙ ap pos (omega arith))

-- The recency of an ad to score, whose bid names a group of the user that was joined so many
-- milliseconds ago, is for a browser the whole number of minutes in these, when that fits an `int`,
-- and for any other client nought.
pub build_ad_with_bid_metadata-recency :
    {W : Type 0} (client_type : ClientType) (buyer_input : BuyerInput) (owner : String)
    (bid : AdWithBid W) (group : InterestGroup) (age : ℕ)
    → find_group bid.interest_group_name buyer_input.interest_groups ≡ some group
    → HasAge group.browser_signals age
    → age < 2 ^ 31 * 60000
    → (minutes : ℕ) × (minutes * 60000 ≤ age)
      × (age < (minutes + 1) * 60000)
      × ((build_ad_with_bid_metadata client_type buyer_input owner bid).recency
          ≡ (if is_browser client_type then pos minutes else pos 0))
unfolding build_ad_with_bid_metadata
build_ad_with_bid_metadata-recency client_type buyer_input owner bid group age found has small =
    let minutes = recency_minutes-HasAge group.browser_signals age small has in
    (
      age / 60000,
      omega arith,
      omega arith,
      rw (build_ad_with_bid_metadata, found)
          (ap (λ m. if is_browser client_type then m else pos 0) minutes),
    )
