-- ===== src/Validation/Problems.antt =====
-- The problems of a SelectAdRequest that validation reports, each under its message.
use bas_dev.Common.{
  subst, length, ◌≡◌, ◌≢◌, ◌⊎◌, ◌↔◌, inl, inr, refl, sym, ap, ◌∙◌, Bool, true, false, not, ◌&&◌,
  ◌||◌, String, List, [], ◌∷◌, ◌++◌, ◌==◌, nat_eq, string_eq, if◌then◌else◌, arith, string_eq_iff,
  Bool-cases, is_empty,
}
use bas_dev.Api.{client_type_unknown, SelectAdRequest}
use bas_dev.Errors.{ad_server_visible, client_side, visibility_eq, code_eq}
use bas_dev.Errors.Reports.{reported, reported-empty, elem}
use bas_dev.Scope.{AuctionScope, is_top_level}
use bas_dev.Validation.{
  is_client_type_unknown, Checks, valid_results, request_checks, component_checks,
  validate_encrypted_select_ad_request,
}
use bas_dev.Validation.Checks.{failed}
use bas_dev.Validation.Acceptance.{
  checks_of, SomeComplete, valid_results_iff, validate_encrypted_select_ad_request-reported,
}

pub data Problem : Type 0 where
  no_ciphertext no_seller_signals no_auction_signals no_seller other_seller unknown_client : Problem
  no_results empty_results : Problem

abbrev pub message_of : Problem → String
message_of no_ciphertext = "protected_auction_ciphertext must be non-null."
message_of no_seller_signals = "Seller signals missing in auction config"
message_of no_auction_signals = "Auction signals missing in auction config"
message_of no_seller = "Seller origin missing in auction config"
message_of other_seller = "Seller domain passed in request does not match this server's domain"
message_of unknown_client = "Unknown client type in SelectAdRequest"
message_of no_results = "No Component Auction Results for Top Level Seller auction"
message_of empty_results = "Empty Component Auction Results for Top Level Seller auction"

module _ (request : SelectAdRequest) (auction_scope : AuctionScope) (seller_domain : String) where
  -- When a request has the problem.
  abbrev pub HasProblem : Problem → Type 0
  HasProblem no_ciphertext =
      (request.protected_auction_ciphertext ≡ "") × (request.protected_audience_ciphertext ≡ "")
  HasProblem no_seller_signals = request.seller_signals ≡ ""
  HasProblem no_auction_signals = request.auction_signals ≡ ""
  HasProblem no_seller = request.seller ≡ ""
  HasProblem other_seller = seller_domain ≢ request.seller
  HasProblem unknown_client = request.client_type ≡ client_type_unknown
  HasProblem no_results =
      (is_top_level auction_scope ≡ true) × (request.component_auction_results ≡ [])
  HasProblem empty_results =
      (is_top_level auction_scope ≡ true)
      × (request.component_auction_results ≢ [])
      × ¬ SomeComplete request.component_auction_results

  abbrev ProblemFor : String → Type 0
  ProblemFor x = (p : Problem) × (x ≡ message_of p) × HasProblem p

-- A check of the message has failed.
abbrev HasFailed : String → Checks → Type 0
HasFailed x [] = ⊥
HasFailed x ((has_error, msg) ∷ checks) = ((has_error ≡ true) × (x ≡ msg)) ⊎ HasFailed x checks

elem-failed_iff :
    (x : String) (checks : Checks) → (elem x (failed checks) ≡ true) ↔ HasFailed x checks
elem-failed_iff x [] = (λ h. ground arith, λ h. absurd h)
elem-failed_iff x ((has_error, msg) ∷ checks) =
    let (to, from) = elem-failed_iff x checks in
    (
      λ h. ground (arith, string_eq_iff msg x, to, h),
      λ h. ground (arith, string_eq_iff msg x, from, h),
    )

HasFailed-append :
    (x : String) (before after : Checks)
    → HasFailed x (before ++ after) ↔ (HasFailed x before ⊎ HasFailed x after)
HasFailed-append x [] after =
    (inr, λ h. elim h [ inl none_there ↦ absurd none_there | inr later ↦ later ])
HasFailed-append x (check ∷ before) after =
    let (to, from) = HasFailed-append x before after in
    (
      λ h. elim h [
        | inl first ↦ inl (inl first)
        | inr later ↦ elim (to later) [ inl l ↦ inl (inr l) | inr r ↦ inr r ]
      ],
      λ h. elim h [
        | inl l ↦ elim l [ inl first ↦ inl first | inr later ↦ inr (from (inl later)) ]
        | inr r ↦ inr (from (inr r))
      ],
    )

or_false : (b : Bool) → (b || false) ≡ b
or_false true = refl
or_false false = refl

no_elements_iff : {A : Type 0} (xs : List A) → (length xs == 0 ≡ true) ↔ (xs ≡ [])
no_elements_iff [] = (λ h. refl, λ h. refl)
no_elements_iff (x ∷ xs) = (λ h. absurd (ground (arith, h)), λ h. cc)

module _ (request : SelectAdRequest) (auction_scope : AuctionScope) (seller_domain : String) where
  abbrev Has : Problem → Type 0
  Has = HasProblem request auction_scope seller_domain

  -- What each check finds.
  ciphertext_iff :
      (is_empty request.protected_auction_ciphertext
          && is_empty request.protected_audience_ciphertext
        ≡ true)
      ↔ Has no_ciphertext
  ciphertext_iff = ground (
    arith,
    string_eq_iff request.protected_auction_ciphertext "",
    string_eq_iff request.protected_audience_ciphertext "",
  )

  other_seller_iff : (not (seller_domain == request.seller) ≡ true) ↔ Has other_seller
  other_seller_iff = ground (arith, string_eq_iff seller_domain request.seller)

  unknown_client_iff : (is_client_type_unknown request.client_type ≡ true) ↔ Has unknown_client
  unknown_client_iff = ground arith

  no_results_iff :
      (length request.component_auction_results == 0 ≡ true)
      ↔ (request.component_auction_results ≡ [])
  no_results_iff = no_elements_iff request.component_auction_results

  empty_results_iff :
      (valid_results request.component_auction_results == 0
          && not (length request.component_auction_results == 0)
        ≡ true)
      ↔ ((request.component_auction_results ≢ [])
          × ¬ SomeComplete request.component_auction_results)
  empty_results_iff =
      let (to, from) = valid_results_iff request.component_auction_results in
      let (to', from') = no_results_iff in
      (
        λ h. (λ e. ground (arith, from' e, h), λ c. ground (arith, from c, h)),
        λ (some_results, none_complete).
            elim (Bool-cases (valid_results request.component_auction_results == 0)) [
              | inr b ↦ absurd (none_complete (to b))
              | inl b ↦ elim (Bool-cases (length request.component_auction_results == 0)) [
                | inl c ↦ absurd (some_results (to' c))
                | inr c ↦ rw (b, c) refl
              ]
            ],
      )

  component_problem :
      (x : String)
      → is_top_level auction_scope ≡ true
      → HasFailed x (component_checks request.component_auction_results)
      → ProblemFor request auction_scope seller_domain x
  unfolding component_checks
  component_problem x top (inl (h, e)) = (no_results, e, (top, no_results_iff.0 h))
  component_problem x top (inr (inl (h, e))) =
      let (some_results, none_complete) = empty_results_iff.0 h in
      (empty_results, e, (top, some_results, none_complete))
  component_problem x top (inr (inr none_left)) = absurd none_left

  request_problem :
      (x : String)
      → HasFailed x (request_checks request seller_domain)
      → ProblemFor request auction_scope seller_domain x
  unfolding request_checks
  request_problem x (inl (h, e)) = (no_ciphertext, e, ciphertext_iff.0 h)
  request_problem x (inr (inl (h, e))) =
      (no_seller_signals, e, (string_eq_iff request.seller_signals "").0 h)
  request_problem x (inr (inr (inl (h, e)))) =
      (no_auction_signals, e, (string_eq_iff request.auction_signals "").0 h)
  request_problem x (inr (inr (inr (inl (h, e))))) =
      (no_seller, e, (string_eq_iff request.seller "").0 h)
  request_problem x (inr (inr (inr (inr (inl (h, e)))))) = (other_seller, e, other_seller_iff.0 h)
  request_problem x (inr (inr (inr (inr (inr (inl (h, e))))))) =
      (unknown_client, e, unknown_client_iff.0 h)
  request_problem x (inr (inr (inr (inr (inr (inr none_left)))))) = absurd none_left

  -- The checks that are run under the test for a top-level auction.
  abbrev top_checks : Checks
  top_checks =
      if is_top_level auction_scope then component_checks request.component_auction_results else []

  top_problem :
      (x : String) → HasFailed x top_checks → ProblemFor request auction_scope seller_domain x
  top_problem x h = elim (Bool-cases (is_top_level auction_scope)) [
    | inl top ↦ component_problem x top (rw top at h)
    | inr other ↦ let nothing : ⊥ = rw other at h in absurd nothing
  ]

  problem_checked :
      (p : Problem)
      → Has p
      → HasFailed (message_of p) (request_checks request seller_domain)
        ⊎ HasFailed (message_of p) top_checks
  unfolding request_checks component_checks
  problem_checked no_ciphertext h = inl (inl (ciphertext_iff.1 h, refl))
  problem_checked no_seller_signals h =
      inl (inr (inl ((string_eq_iff request.seller_signals "").1 h, refl)))
  problem_checked no_auction_signals h =
      inl (inr (inr (inl ((string_eq_iff request.auction_signals "").1 h, refl))))
  problem_checked no_seller h =
      inl (inr (inr (inr (inl ((string_eq_iff request.seller "").1 h, refl)))))
  problem_checked other_seller h = inl (inr (inr (inr (inr (inl (other_seller_iff.1 h, refl))))))
  problem_checked unknown_client h =
      inl (inr (inr (inr (inr (inr (inl (unknown_client_iff.1 h, refl)))))))
  problem_checked no_results (top, h) = inr (rw top (inl (no_results_iff.1 h, refl)))
  problem_checked empty_results (top, a, b) =
      inr (rw top (inr (inl (empty_results_iff.1 (a, b), refl))))

  only_failed :
      (x : String)
      → reported
          (validate_encrypted_select_ad_request request auction_scope seller_domain []).1
          ad_server_visible
          client_side
          x
        ≡ elem x (failed (checks_of request auction_scope seller_domain))
  only_failed x =
      validate_encrypted_select_ad_request-reported request auction_scope seller_domain []
        ad_server_visible client_side x
      ∙ ap (λ b. elem x (failed (checks_of request auction_scope seller_domain)) || b)
          (reported-empty ad_server_visible client_side x)
      ∙ or_false (elem x (failed (checks_of request auction_scope seller_domain)))

  -- A message is among the errors for the ad server, on the side of the client, that validation adds
  -- to an accumulator without errors exactly when it is that of a problem that the request has.
  pub validate_encrypted_select_ad_request-ProblemFor :
      (x : String)
      → (reported
            (validate_encrypted_select_ad_request request auction_scope seller_domain []).1
            ad_server_visible
            client_side
            x
          ≡ true)
        ↔ ((p : Problem) × (x ≡ message_of p) × HasProblem request auction_scope seller_domain p)
  validate_encrypted_select_ad_request-ProblemFor x =
      let checks = request_checks request seller_domain in
      let (to, from) = elem-failed_iff x (checks_of request auction_scope seller_domain) in
      let (split, join) = HasFailed-append x checks top_checks in
      let same = only_failed x in
      (
        λ h. elim (split (to (sym same ∙ h))) [
          | inl plain ↦ request_problem x plain
          | inr parts ↦ top_problem x parts
        ],
        λ (p, e, h).
            same
            ∙ from (
                join (
                  subst (λ y. HasFailed y checks ⊎ HasFailed y top_checks) (sym e)
                    (problem_checked p h))),
      )
