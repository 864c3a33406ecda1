-- ===== src/Validation/Results.antt =====
-- Which component auction results pass validation.
use bas_dev.Common.{
  ◌≡◌, ◌≢◌, ◌⊎◌, ◌↔◌, inl, inr, true, String, nat_eq, string_eq, is_empty, arith, string_eq_iff,
  Bool-cases,
}
use bas_dev.Api.{ad_type_protected_audience_ad, AuctionResult}
use bas_dev.Errors.{ErrorAccumulator, visibility_eq, code_eq}
use bas_dev.Validation.{result_checks, validate_component_auction_result}
use bas_dev.Validation.Checks.{all_passed, run_checks-valid}

abbrev pub IsUsable : {W : Type 0} → AuctionResult W → String → String → Type 0
IsUsable result generation_id seller_domain =
    (result.ciphertext_generation_id ≡ generation_id)
    × (result.top_level_seller ≡ seller_domain)
    × (result.component_seller ≢ "")
    × (result.ad_type ≡ ad_type_protected_audience_ad)
    × (result.top_level_reporting_url ≡ "")

result_checks_iff :
    {W : Type 0} (result : AuctionResult W) (generation_id seller_domain : String)
    → (all_passed (result_checks result generation_id seller_domain) ≡ true)
      ↔ IsUsable result generation_id seller_domain
unfolding result_checks
result_checks_iff result generation_id seller_domain = (
  λ h. ground (
    arith,
    string_eq_iff result.ciphertext_generation_id generation_id,
    string_eq_iff result.top_level_seller seller_domain,
    string_eq_iff result.component_seller "",
    string_eq_iff result.top_level_reporting_url "",
  ),
  λ h. ground (
    arith,
    string_eq_iff result.ciphertext_generation_id generation_id,
    string_eq_iff result.top_level_seller seller_domain,
    string_eq_iff result.component_seller "",
    string_eq_iff result.top_level_reporting_url "",
  ),
)

-- A component auction result passes if it is chaff, carries an error, or has this request's
-- generation id, this server as its top-level seller, a component seller, a protected audience ad
-- and no reporting URL of a top-level seller.
pub validate_component_auction_result_iff :
    {W : Type 0} (result : AuctionResult W) (generation_id seller_domain : String)
    (errors : ErrorAccumulator)
    → ((validate_component_auction_result result generation_id seller_domain errors).0 ≡ true) ↔ (
        (result.is_chaff ≡ true)
        ⊎ (result.error_message ≢ "")
        ⊎ IsUsable result generation_id seller_domain)
unfolding validate_component_auction_result
validate_component_auction_result_iff result generation_id seller_domain errors =
    let checks = result_checks result generation_id seller_domain in
    let (to, from) = result_checks_iff result generation_id seller_domain in
    let (error_to, error_from) = string_eq_iff result.error_message "" in
    let valid = run_checks-valid checks true errors in
    (
      λ h. elim (Bool-cases result.is_chaff) [
        | inl chaff ↦ inl chaff
        | inr real ↦ elim (Bool-cases (is_empty result.error_message)) [
          | inr failing ↦ inr (inl (λ e. ground (arith, error_from e)))
          | inl silent ↦ inr (inr (to (ground (arith, valid))))
        ]
      ],
      λ h. ground (arith, valid),
    )
