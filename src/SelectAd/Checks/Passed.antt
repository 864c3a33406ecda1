-- ===== src/SelectAd/Checks/Passed.antt =====
-- Which requests leave no error.
use bas_dev.Common.{
  ◌≡◌, ◌≢◌, ◌↔◌, ◌⊎◌, refl, ◌∙◌, Bool, true, false, ◌&&◌, ◌||◌, String, List, [], ◌∷◌, All, ◌==◌,
  string_eq, string_eq_iff, arith,
}
use bas_dev.Api.{ClientType, client_type_unknown, client_type_android}
use bas_dev.Scope.{AuctionScope, device_component_multi_seller}
use bas_dev.Errors.{
  ErrorVisibility, ad_server_visible, client_side, ErrorAccumulator, report_error, get_errors,
  visibility_eq, code_eq, ErrorMap, Messages, at_key, emplace_message,
}
use bas_dev.Errors.Reports.{get_errors-report_error}
use bas_dev.SelectAd.Messages.{PerBuyerConfig, AuctionConfig}
use bas_dev.SelectAd.Currency.{empty}
use bas_dev.Validation.{Checks}
use bas_dev.SelectAd.Checks.{
  report_failed, have_errors, is_wrong_currency, buyer_checks, config_checks, client_checks,
  may_populate_ad_server_visible_errors,
}

abbrev pub any_failed : Checks → Bool
any_failed [] = false
any_failed ((has_error, _) ∷ checks) = has_error || any_failed checks

at_key-kept : (m : ErrorMap) (f : Messages → Messages) → empty (at_key client_side [] f m) ≡ false
unfolding at_key
at_key-kept [] f = refl
at_key-kept ((code, messages) ∷ m) f = ground arith

have_errors-report_error :
    (v w : ErrorVisibility) (msg : String) (errors : ErrorAccumulator)
    → have_errors w (report_error v msg client_side errors) ≡ (v == w || have_errors w errors)
unfolding have_errors
have_errors-report_error v w msg errors = ground (
  arith,
  get_errors-report_error errors v msg client_side w,
  at_key-kept (get_errors errors w) (emplace_message msg),
)

-- After the reports there are errors for a reader when there were some, or a check for that reader
-- failed.
pub have_errors-report_failed :
    (v w : ErrorVisibility) (checks : Checks) (errors : ErrorAccumulator)
    → have_errors w (report_failed v checks errors)
      ≡ ((v == w && any_failed checks) || have_errors w errors)
unfolding report_failed
have_errors-report_failed v w [] errors = ground arith
have_errors-report_failed v w ((true, msg) ∷ checks) errors = ground (
  arith,
  have_errors-report_error v w msg errors,
  have_errors-report_failed v w checks (report_error v msg client_side errors),
)
have_errors-report_failed v w ((false, msg) ∷ checks) errors =
    have_errors-report_failed v w checks errors

abbrev pub IsCurrency : (String → Bool) → String → Type 0
IsCurrency is_currency_code currency = (currency ≡ "") ⊎ (is_currency_code currency ≡ true)

abbrev pub IsConfiguredBuyer : (String → Bool) → String × PerBuyerConfig → Type 0
IsConfiguredBuyer is_currency_code (buyer, config) =
    (buyer ≢ "") × (config.buyer_signals ≢ "") × IsCurrency is_currency_code config.buyer_currency

-- What the ad server must have set, for the server's own domain and the scope of the auction.
pub record IsConfigured (is_currency_code : String → Bool) (config : AuctionConfig)
    (client_type : ClientType) (auction_scope : AuctionScope) (seller_origin_domain : String)
    : Type 0 where
  pub seller_signals : config.seller_signals ≢ ""
  pub auction_signals : config.auction_signals ≢ ""
  pub buyers : config.buyer_list ≢ []
  pub seller : config.seller ≢ ""
  pub seller_currency : IsCurrency is_currency_code config.seller_currency
  pub domain : seller_origin_domain ≡ config.seller
  pub configs : All (IsConfiguredBuyer is_currency_code) config.per_buyer_config
  pub client : client_type ≢ client_type_unknown
  pub android :
      (client_type ≢ client_type_android) ⊎ (auction_scope ≢ device_component_multi_seller)

client_checks_iff :
    (client_type : ClientType) (scope : AuctionScope)
    → (any_failed (client_checks client_type scope) ≡ false) ↔ (
        (client_type ≢ client_type_unknown)
        × ((client_type ≢ client_type_android) ⊎ (scope ≢ device_component_multi_seller)))
unfolding client_checks
client_checks_iff client_type scope = (λ h. ground arith, λ h. ground arith)

module _ (is_currency_code : String → Bool) where
  IsCurrency-iff :
      (currency : String)
      → (is_wrong_currency is_currency_code currency ≡ false) ↔ IsCurrency is_currency_code currency
  IsCurrency-iff currency = (
    λ h. ground (arith, string_eq_iff currency ""),
    λ h. ground (arith, string_eq_iff currency ""),
  )

  buyer_checks_iff :
      (configs : List (String × PerBuyerConfig))
      → (any_failed (buyer_checks is_currency_code configs) ≡ false)
        ↔ All (IsConfiguredBuyer is_currency_code) configs
  unfolding buyer_checks
  buyer_checks_iff [] = (λ h. tt, λ h. refl)
  buyer_checks_iff ((buyer, config) ∷ configs) =
      let (to, from) = buyer_checks_iff configs in
      (
        λ h. (
          ground (
            arith,
            string_eq_iff buyer "",
            string_eq_iff config.buyer_signals "",
            IsCurrency-iff config.buyer_currency,
          ),
          to (ground arith),
        ),
        λ h.
            let rest = from h.1 in
            ground (
              arith,
              string_eq_iff buyer "",
              string_eq_iff config.buyer_signals "",
              IsCurrency-iff config.buyer_currency,
            ),
      )

  config_checks_iff :
      (config : AuctionConfig) (domain : String)
      → (any_failed (config_checks is_currency_code config domain) ≡ false) ↔ (
          (config.seller_signals ≢ "")
          × (config.auction_signals ≢ "")
          × (config.buyer_list ≢ [])
          × (config.seller ≢ "")
          × IsCurrency is_currency_code config.seller_currency
          × (domain ≡ config.seller))
  unfolding config_checks
  config_checks_iff config domain = (
    λ h. ground (
      arith,
      string_eq_iff config.seller_signals "",
      string_eq_iff config.auction_signals "",
      string_eq_iff config.seller "",
      string_eq_iff domain config.seller,
      IsCurrency-iff config.seller_currency,
    ),
    λ h. ground (
      arith,
      string_eq_iff config.seller_signals "",
      string_eq_iff config.auction_signals "",
      string_eq_iff config.seller "",
      string_eq_iff domain config.seller,
      IsCurrency-iff config.seller_currency,
    ),
  )

  have_errors-populated :
      (config : AuctionConfig) (client_type : ClientType) (scope : AuctionScope) (domain : String)
      (errors : ErrorAccumulator)
      → have_errors ad_server_visible (
          may_populate_ad_server_visible_errors is_currency_code config client_type scope domain
            errors)
        ≡ (any_failed (client_checks client_type scope)
            || any_failed (buyer_checks is_currency_code config.per_buyer_config)
            || any_failed (config_checks is_currency_code config domain)
            || have_errors ad_server_visible errors)
  unfolding may_populate_ad_server_visible_errors
  have_errors-populated config client_type scope domain errors =
      let first =
        report_failed ad_server_visible (config_checks is_currency_code config domain) errors in
      let second =
        report_failed ad_server_visible (buyer_checks is_currency_code config.per_buyer_config)
          first in
      ground (
        arith,
        have_errors-report_failed ad_server_visible ad_server_visible
            (client_checks client_type scope) second,
        have_errors-report_failed ad_server_visible ad_server_visible
            (buyer_checks is_currency_code config.per_buyer_config) first,
        have_errors-report_failed ad_server_visible ad_server_visible
            (config_checks is_currency_code config domain) errors,
      )

  -- When no error is reported yet for the ad server, the checks of its request report none exactly
  -- when the request is configured as it must be.
  pub may_populate_ad_server_visible_errors_iff :
      (config : AuctionConfig) (client_type : ClientType) (scope : AuctionScope) (domain : String)
      (errors : ErrorAccumulator)
      → have_errors ad_server_visible errors ≡ false
      → (have_errors ad_server_visible (
            may_populate_ad_server_visible_errors is_currency_code config client_type scope domain
              errors)
          ≡ false)
        ↔ IsConfigured is_currency_code config client_type scope domain
  may_populate_ad_server_visible_errors_iff config client_type scope domain errors clean =
      let all = have_errors-populated config client_type scope domain errors in
      let (a, b) = client_checks_iff client_type scope in
      let (c, d) = buyer_checks_iff config.per_buyer_config in
      let (e, f) = config_checks_iff config domain in
      (
        λ h.
            let (client, android) = a (ground arith) in
            let buyers = c (ground arith) in
            let (s1, s2, s3, s4, s5, s6) = e (ground arith) in
            record {
              seller_signals = s1;
              auction_signals = s2;
              buyers = s3;
              seller = s4;
              seller_currency = s5;
              domain = s6;
              configs = buyers;
              client = client;
              android = android;
            },
        λ h.
            let x = b (h.client, h.android) in
            let y = d h.configs in
            let z = f (
              h.seller_signals, h.auction_signals, h.buyers, h.seller, h.seller_currency, h.domain,
            ) in
            all ∙ ground arith,
      )

  -- Without buyers there is an error for the ad server.
  pub buyer_list-needed :
      (config : AuctionConfig) (client_type : ClientType) (scope : AuctionScope) (domain : String)
      (errors : ErrorAccumulator)
      → have_errors ad_server_visible (
          may_populate_ad_server_visible_errors is_currency_code config client_type scope domain
            errors)
        ≡ false
      → empty config.buyer_list ≡ false
  unfolding config_checks
  buyer_list-needed config client_type scope domain errors h =
      let all = have_errors-populated config client_type scope domain errors in ground arith
