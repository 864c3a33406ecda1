-- ===== src/SelectAd/Requests.antt =====
-- The requests that the seller frontend sends, from
-- services/seller_frontend_service/select_ad_reactor.cc and select_ad_reactor_app.cc.
pub mod Origins
pub mod Scores
mod Attributed
use bas_dev.Common.{
  ◌≡◌, Bool, true, false, not, ◌&&◌, ◌||◌, String, List, [], ◌∷◌, ◌++◌, Option, none, some, map,
  ◌==◌, string_eq, is_empty, lookup, emplace, ℕ, zero, suc, ◌/◌, ◌<◌, ◌%◌, ◌-◌, ◌^◌, ltb,
  if◌then◌else◌,
}
use bas_dev.Common.Int.{ℤ, pos, negsuc}
use bas_dev.Api.{ClientType, client_type_browser, client_type_unknown, client_type_android}
use bas_dev.SelectAd.Messages.{
  BrowserSignals, InterestGroup, BuyerInput, PerBuyerConfig, AuctionConfig, ProtectedAuctionInput,
  LogContext, AdWithBid, ProtectedAppSignalsAdWithBid, GetBidsRawResponse, AppSignalsBuyerInput,
  GetBidsRawRequest, AdToScore, AppSignalsAdToScore, ScoreAdsRawRequest,
}
use bas_dev.SelectAd.Currency.{BuyerBids, empty}

abbrev pub is_browser : ClientType → Bool
is_browser client_type_browser = true
is_browser _ = false

-- Division of an `int64` by a positive constant, which truncates towards zero, and the conversion
-- of an `int64` to a 32-bit `int`, which wraps around.
abbrev negated : ℕ → ℤ
negated zero = pos 0
negated (suc n) = negsuc n

abbrev pub quotient : ℤ → ℕ → ℤ
quotient (pos a) d = pos (a / d)
quotient (negsuc a) d = negated (suc a / d)

abbrev signed_32 : ℕ → ℤ
signed_32 n = if ltb n (2 ^ 31) then pos n else negsuc (2 ^ 32 - 1 - n)

abbrev pub to_int_32 : ℤ → ℤ
to_int_32 (pos a) = signed_32 (a % 2 ^ 32)
to_int_32 (negsuc a) = signed_32 (2 ^ 32 - 1 - a % 2 ^ 32)

-- The minutes since the user joined the group.
unfoldable pub recency_minutes : BrowserSignals → ℤ
recency_minutes signals = elim signals.recency_ms [
  | some recency_ms ↦ to_int_32 (quotient recency_ms 60000)
  | none ↦ to_int_32 (quotient signals.recency 60)
]

-- The loop over the buyer's interest groups, which stops at the first of the given name.
abbrev pub find_group : String → List InterestGroup → Option InterestGroup
find_group name [] = none
find_group name (group ∷ groups) = if group.name == name then some group else find_group name groups

module _ {W : Type 0} where
  -- `BuildAdWithBidMetadata`, with the input of the bid's buyer. The origin, the join count and the
  -- recency are left at their defaults when no group has the name.
  unfoldable pub build_ad_with_bid_metadata :
      ClientType → BuyerInput → String → AdWithBid W → AdToScore W
  build_ad_with_bid_metadata client_type buyer_input interest_group_owner input =
      let group = find_group input.interest_group_name buyer_input.interest_groups in
      record {
        ad = input.ad;
        bid = input.bid;
        render = input.render;
        allow_component_auction = input.allow_component_auction;
        ad_components = input.ad_components;
        interest_group_name = input.interest_group_name;
        ad_cost = input.ad_cost;
        modeling_signals = input.modeling_signals;
        bid_currency = input.bid_currency;
        interest_group_owner = interest_group_owner;
        interest_group_origin = elim group [ none ↦ "" | some g ↦ g.origin ];
        join_count = elim group [
          | none ↦ pos 0
          | some g ↦
              if is_browser client_type then to_int_32 g.browser_signals.join_count else pos 0
        ];
        recency = elim group [
          | none ↦ pos 0
          | some g ↦ if is_browser client_type then recency_minutes g.browser_signals else pos 0
        ];
        buyer_reporting_id = input.buyer_reporting_id;
      }

  -- `BuildProtectedAppSignalsAdWithBidMetadata`.
  unfoldable pub build_protected_app_signals_ad_with_bid_metadata :
      String → ProtectedAppSignalsAdWithBid W → AppSignalsAdToScore W
  build_protected_app_signals_ad_with_bid_metadata buyer_owner input = record {
    ad = input.ad;
    bid = input.bid;
    render = input.render;
    modeling_signals = input.modeling_signals;
    ad_cost = input.ad_cost;
    owner = buyer_owner;
    bid_currency = input.bid_currency;
    egress_payload = input.egress_payload;
    temporary_unlimited_egress_payload = input.temporary_unlimited_egress_payload;
  }

-- `CreateGetBidsRequest` of the base class.
unfoldable pub create_get_bids_request :
    AuctionConfig
    → ClientType
    → ProtectedAuctionInput
    → Bool
    → String
    → BuyerInput
    → GetBidsRawRequest
create_get_bids_request config client_type protected_input is_protected_audience_enabled buyer
      buyer_input =
    let buyer_config = lookup buyer config.per_buyer_config in
    record {
      is_chaff = false;
      seller = config.seller;
      client_type = client_type;
      auction_signals = config.auction_signals;
      buyer_kv_experiment_group_id = elim buyer_config [
        | none ↦ none
        | some c ↦ c.buyer_kv_experiment_group_id
      ];
      buyer_signals = elim buyer_config [ none ↦ "" | some c ↦ c.buyer_signals ];
      buyer_input =
          if not is_protected_audience_enabled && not (empty buyer_input.interest_groups)
          then record buyer_input { interest_groups = [] }
          else buyer_input;
      top_level_seller = config.top_level_seller;
      publisher_name = protected_input.publisher_name;
      enable_debug_reporting = protected_input.enable_debug_reporting;
      log_context = record {
        generation_id = protected_input.generation_id;
        adtech_debug_id = elim buyer_config [ none ↦ "" | some c ↦ c.buyer_debug_id ];
      };
      consented_debug_config = protected_input.consented_debug_config;
      protected_app_signals_buyer_input = none;
      enable_unlimited_egress = protected_input.enable_unlimited_egress;
    }

-- The test that a request has protected app signals, with signals in them.
abbrev pub app_signals_of : BuyerInput → Option String
app_signals_of input = elim input.protected_app_signals [
  | none ↦ none
  | some signals ↦ if is_empty signals then none else some signals
]

-- The contextual data of a buyer's configuration, when it names some ad.
abbrev pub contextual_data : AuctionConfig → String → Option (List String)
contextual_data config buyer = elim (lookup buyer config.per_buyer_config) [
  | none ↦ none
  | some c ↦ elim c.contextual_protected_app_signals_data [
    | none ↦ none
    | some ids ↦ if empty ids then none else some ids
  ]
]

-- `MayPopulateProtectedAppSignalsBuyerInput`.
unfoldable pub may_populate_protected_app_signals_buyer_input :
    AuctionConfig → Bool → String → GetBidsRawRequest → GetBidsRawRequest
may_populate_protected_app_signals_buyer_input config is_pas_enabled buyer request =
    let cleared = record request {
      buyer_input = record request.buyer_input { protected_app_signals = none };
    } in
    elim is_pas_enabled [
      | false ↦ cleared
      | true ↦ elim (app_signals_of request.buyer_input) [
        | none ↦ cleared
        | some signals ↦ record cleared {
          protected_app_signals_buyer_input = some (record {
            protected_app_signals = some signals;
            contextual_protected_app_signals_data = contextual_data config buyer;
          });
        }
      ]
    ]

-- `CreateGetBidsRequest` of the app's reactor.
unfoldable pub create_app_get_bids_request :
    AuctionConfig
    → ClientType
    → ProtectedAuctionInput
    → Bool
    → Bool
    → String
    → BuyerInput
    → GetBidsRawRequest
create_app_get_bids_request config client_type protected_input is_protected_audience_enabled
      is_pas_enabled buyer buyer_input =
    may_populate_protected_app_signals_buyer_input config is_pas_enabled buyer (
      create_get_bids_request config client_type protected_input is_protected_audience_enabled buyer
        buyer_input)
