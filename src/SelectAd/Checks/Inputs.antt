-- ===== src/SelectAd/Checks/Inputs.antt =====
-- Which decoded inputs leave no error for the client.
use bas_dev.Common.{
  ◌≡◌, ◌≢◌, ◌↔◌, ◌⊎◌, inl, Bool, true, false, not, ◌||◌, String, List, [], ◌∷◌, none, string_eq,
  string_eq_iff, is_empty, arith,
}
use bas_dev.Errors.{client_visible, ErrorAccumulator, Messages, visibility_eq}
use bas_dev.SelectAd.Messages.{BuyerInput, ProtectedAuctionInput}
use bas_dev.SelectAd.Checks.{
  have_errors, observe_inputs, input_checks, validate_protected_auction_input, has_no_input,
}
use bas_dev.SelectAd.Checks.Passed.{have_errors-report_failed}

abbrev pub IsUsable : String × BuyerInput → Type 0
IsUsable (buyer, input) =
    (buyer ≢ "") × ((input.interest_groups ≢ []) ⊎ (input.protected_app_signals ≢ none))

abbrev pub SomeUsable : List (String × BuyerInput) → Type 0
SomeUsable [] = ⊥
SomeUsable (entry ∷ later) = IsUsable entry ⊎ SomeUsable later

IsUsable-iff :
    (buyer : String) (input : BuyerInput)
    → ((is_empty buyer || has_no_input input) ≡ false) ↔ IsUsable (buyer, input)
IsUsable-iff buyer input =
    (λ h. ground (arith, string_eq_iff buyer ""), λ h. ground (arith, string_eq_iff buyer ""))

observe_inputs_iff :
    (inputs : List (String × BuyerInput)) (valid : Bool) (observed : Messages)
    → ((observe_inputs inputs (valid, observed)).0 ≡ true) ↔ ((valid ≡ true) ⊎ SomeUsable inputs)
unfolding observe_inputs
observe_inputs_iff [] valid observed = (λ h. inl h, λ h. ground arith)
observe_inputs_iff ((buyer, input) ∷ inputs) valid observed =
    let usable = IsUsable-iff buyer input in
    let later = observe_inputs_iff inputs (valid || not (is_empty buyer || has_no_input input)) _ in
    (λ h. ground (arith, later.0 h, usable), λ h. later.1 (ground (arith, usable)))

-- When no error is reported yet for the client, the checks of its decoded input report none exactly
-- when it has a generation id, a publisher, and a buyer with a name and with interest groups or
-- protected app signals.
pub validate_protected_auction_input_iff :
    (protected_input : ProtectedAuctionInput) (buyer_inputs : List (String × BuyerInput))
    (errors : ErrorAccumulator)
    → have_errors client_visible errors ≡ false
    → (have_errors client_visible
          (validate_protected_auction_input protected_input buyer_inputs errors)
        ≡ false)
      ↔ ((protected_input.generation_id ≢ "")
          × (protected_input.publisher_name ≢ "")
          × SomeUsable buyer_inputs)
unfolding validate_protected_auction_input input_checks
validate_protected_auction_input_iff protected_input buyer_inputs errors clean =
    let checks = input_checks protected_input buyer_inputs in
    let all = have_errors-report_failed client_visible client_visible checks errors in
    let some_usable = observe_inputs_iff buyer_inputs false [] in
    (
      λ h. ground (
        arith,
        all,
        string_eq_iff protected_input.generation_id "",
        string_eq_iff protected_input.publisher_name "",
        some_usable,
      ),
      λ h. ground (
        arith,
        all,
        string_eq_iff protected_input.generation_id "",
        string_eq_iff protected_input.publisher_name "",
        some_usable,
      ),
    )
