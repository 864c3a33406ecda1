-- ===== src/Validation/Acceptance.antt =====
-- Which requests pass validation, and which errors the others leave.
use mathlib.Core.List.{append-nil}
use bas_dev.Common.{
  ◌≡◌, ◌≢◌, ◌⊎◌, ◌↔◌, inl, inr, refl, sym, ap, ◌∙◌, Bool, true, false, not, ◌&&◌, ◌||◌, String,
  List, [], ◌∷◌, ◌++◌, ◌==◌, nat_eq, string_eq, if◌then◌else◌, arith, string_eq_iff, Bool-cases,
}
use bas_dev.Api.{client_type_unknown, EncryptedAuctionResult, SelectAdRequest}
use bas_dev.Errors.{
  ErrorVisibility, ErrorCode, ad_server_visible, client_side, ErrorAccumulator, visibility_eq,
  code_eq,
}
use bas_dev.Errors.Reports.{reported, elem}
use bas_dev.Scope.{AuctionScope, is_top_level}
use bas_dev.Validation.{
  Checks, report, run_checks, valid_results, request_checks, component_checks,
  validate_encrypted_select_ad_request,
}
use bas_dev.Validation.Checks.{failed, all_passed, run_checks-valid, run_checks-reported}

abbrev pub IsComplete : EncryptedAuctionResult → Type 0
IsComplete result = (result.auction_result_ciphertext ≢ "") × (result.key_id ≢ "")

abbrev pub SomeComplete : List EncryptedAuctionResult → Type 0
SomeComplete [] = ⊥
SomeComplete (result ∷ results) = IsComplete result ⊎ SomeComplete results

pub valid_results_iff :
    (results : List EncryptedAuctionResult)
    → ((valid_results results == 0) ≡ false) ↔ SomeComplete results
unfolding valid_results
valid_results_iff [] = (λ h. cc, λ h. absurd h)
valid_results_iff (result ∷ results) =
    let (to, from) = valid_results_iff results in
    (
      λ h. ground (
        arith,
        string_eq_iff result.auction_result_ciphertext "",
        string_eq_iff result.key_id "",
        to,
      ),
      λ h. ground (
        arith,
        string_eq_iff result.auction_result_ciphertext "",
        string_eq_iff result.key_id "",
        from,
      ),
    )

-- What a SelectAdRequest must have for its auction scope and the domain of the seller's server.
pub record IsAcceptable (request : SelectAdRequest) (auction_scope : AuctionScope)
    (seller_domain : String) : Type 0 where
  pub ciphertext :
      (request.protected_auction_ciphertext ≢ "") ⊎ (request.protected_audience_ciphertext ≢ "")
  pub seller_signals : request.seller_signals ≢ ""
  pub auction_signals : request.auction_signals ≢ ""
  pub seller_set : request.seller ≢ ""
  pub seller_matches : seller_domain ≡ request.seller
  pub client_known : request.client_type ≢ client_type_unknown
  pub results : is_top_level auction_scope ≡ true → SomeComplete request.component_auction_results

request_checks_iff :
    (request : SelectAdRequest) (seller_domain : String)
    → (all_passed (request_checks request seller_domain) ≡ true) ↔ (
        ((request.protected_auction_ciphertext ≢ "") ⊎ (request.protected_audience_ciphertext ≢ ""))
        × (request.seller_signals ≢ "")
        × (request.auction_signals ≢ "")
        × (request.seller ≢ "")
        × (seller_domain ≡ request.seller)
        × (request.client_type ≢ client_type_unknown))
unfolding request_checks
request_checks_iff request seller_domain = (
  λ h. ground (
    arith,
    string_eq_iff request.protected_auction_ciphertext "",
    string_eq_iff request.protected_audience_ciphertext "",
    string_eq_iff request.seller_signals "",
    string_eq_iff request.auction_signals "",
    string_eq_iff request.seller "",
    string_eq_iff seller_domain request.seller,
  ),
  λ h. ground (
    arith,
    string_eq_iff request.protected_auction_ciphertext "",
    string_eq_iff request.protected_audience_ciphertext "",
    string_eq_iff request.seller_signals "",
    string_eq_iff request.auction_signals "",
    string_eq_iff request.seller "",
    string_eq_iff seller_domain request.seller,
  ),
)

component_checks_iff :
    (results : List EncryptedAuctionResult)
    → (all_passed (component_checks results) ≡ true) ↔ SomeComplete results
unfolding component_checks
component_checks_iff [] = (λ h. cc, λ h. absurd h)
component_checks_iff (result ∷ results) =
    let (to, from) = valid_results_iff (result ∷ results) in
    (λ h. to (ground arith), λ h. let nonzero = from h in ground arith)

run_checks-append :
    (xs ys : Checks) (state : Bool × ErrorAccumulator)
    → run_checks (xs ++ ys) state ≡ run_checks ys (run_checks xs state)
unfolding run_checks
run_checks-append [] ys state = refl
run_checks-append (x ∷ xs) ys state = run_checks-append xs ys (report x state)

all_passed-append : (xs ys : Checks) → all_passed (xs ++ ys) ≡ (all_passed xs && all_passed ys)
all_passed-append [] ys = refl
all_passed-append ((b, m) ∷ xs) ys = ground (arith, all_passed-append xs ys)

passed_both_iff :
    (a b c : Bool) → ((a && (not b || c)) ≡ true) ↔ ((a ≡ true) × (b ≡ true → c ≡ true))
passed_both_iff a b c = (λ h. (ground arith, λ e. ground arith), λ h. ground (arith, h.1))

-- All the checks of a request.
abbrev pub checks_of : SelectAdRequest → AuctionScope → String → Checks
checks_of request auction_scope seller_domain =
    request_checks request seller_domain
    ++ (if is_top_level auction_scope
        then component_checks request.component_auction_results
        else [])

validate-run_checks :
    (request : SelectAdRequest) (auction_scope : AuctionScope) (seller_domain : String)
    (errors : ErrorAccumulator)
    → validate_encrypted_select_ad_request request auction_scope seller_domain errors
      ≡ run_checks (checks_of request auction_scope seller_domain) (true, errors)
unfolding validate_encrypted_select_ad_request
validate-run_checks request auction_scope seller_domain errors =
    elim (Bool-cases (is_top_level auction_scope)) [
      | inl top ↦
          rw top (sym (run_checks-append (request_checks request seller_domain) _ (true, errors)))
      | inr other ↦ rw (other, append-nil (request_checks request seller_domain))
    ]

validate-all_passed :
    (request : SelectAdRequest) (auction_scope : AuctionScope) (seller_domain : String)
    (errors : ErrorAccumulator)
    → (validate_encrypted_select_ad_request request auction_scope seller_domain errors).0 ≡ (
        all_passed (request_checks request seller_domain)
        && (not (is_top_level auction_scope)
            || all_passed (component_checks request.component_auction_results)))
validate-all_passed request auction_scope seller_domain errors =
    let checks = request_checks request seller_domain in
    let parts = component_checks request.component_auction_results in
    ap (λ r. r.0) (validate-run_checks request auction_scope seller_domain errors)
    ∙ run_checks-valid (checks_of request auction_scope seller_domain) true errors
    ∙ ground (arith, all_passed-append checks (if is_top_level auction_scope then parts else []))

-- A SelectAdRequest passes validation exactly when it has one of the two ciphertexts, the seller
-- and auction signals, this server's domain as its seller, a known client type and, in a top-level
-- auction, a component result with both its ciphertext and its key.
pub validate_encrypted_select_ad_request_iff :
    (request : SelectAdRequest) (auction_scope : AuctionScope) (seller_domain : String)
    (errors : ErrorAccumulator)
    → ((validate_encrypted_select_ad_request request auction_scope seller_domain errors).0 ≡ true)
      ↔ IsAcceptable request auction_scope seller_domain
validate_encrypted_select_ad_request_iff request auction_scope seller_domain errors =
    let valid = validate-all_passed request auction_scope seller_domain errors in
    let (plain_to, plain_from) = request_checks_iff request seller_domain in
    let (parts_to, parts_from) = component_checks_iff request.component_auction_results in
    let (split, join) = passed_both_iff _ (is_top_level auction_scope) _ in
    (
      λ h.
          let (plain, parts) = split (sym valid ∙ h) in
          let (a, b, c, d, e, f) = plain_to plain in
          record {
            ciphertext = a;
            seller_signals = b;
            auction_signals = c;
            seller_set = d;
            seller_matches = e;
            client_known = f;
            results = λ top. parts_to (parts top);
          },
      λ h.
          valid
          ∙ join (
            plain_from (
              h.ciphertext, h.seller_signals, h.auction_signals, h.seller_set, h.seller_matches,
              h.client_known,
            ),
            λ top. parts_from (h.results top),
          ),
    )

-- The errors that validation adds are those of the failed checks, all of them for the ad server
-- and on the side of the client; what was reported before stays.
pub validate_encrypted_select_ad_request-reported :
    (request : SelectAdRequest) (auction_scope : AuctionScope) (seller_domain : String)
    (errors : ErrorAccumulator) (w : ErrorVisibility) (d : ErrorCode) (x : String)
    → reported
        (validate_encrypted_select_ad_request request auction_scope seller_domain errors).1
        w
        d
        x
      ≡ ((ad_server_visible == w
            && client_side == d
            && elem x (failed (checks_of request auction_scope seller_domain)))
          || reported errors w d x)
validate_encrypted_select_ad_request-reported request auction_scope seller_domain errors w d x =
    ap (λ r. reported r.1 w d x) (validate-run_checks request auction_scope seller_domain errors)
    ∙ run_checks-reported (checks_of request auction_scope seller_domain) true errors w d x
