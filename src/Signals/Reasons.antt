-- ===== src/Signals/Reasons.antt =====
-- Rejection reasons against their names.
use bas_dev.Common.{◌≡◌, ◌≢◌, ◌⊎◌, ◌↔◌, inl, inr, ap, sym, ◌∙◌, refl, String, arith, string_eq_iff}
use bas_dev.Api.{SellerRejectionReason}
use bas_dev.Signals.{to_seller_rejection_reason, to_seller_rejection_reason_string}

-- Every reason is read back from its name.
reason-string :
    (r : SellerRejectionReason)
    → to_seller_rejection_reason (to_seller_rejection_reason_string r) ≡ r
unfolding to_seller_rejection_reason to_seller_rejection_reason_string
reason-string SellerRejectionReason.invalid_bid = refl
reason-string _ = refl

-- A text that gives a reason other than "not available" is that reason's name.
string-reason :
    (s : String)
    → (to_seller_rejection_reason s ≡ SellerRejectionReason.seller_rejection_reason_not_available)
      ⊎ (to_seller_rejection_reason_string (to_seller_rejection_reason s) ≡ s)
unfolding to_seller_rejection_reason to_seller_rejection_reason_string
string-reason s = ground (
  arith,
  string_eq_iff s "invalid-bid",
  string_eq_iff s "bid-below-auction-floor",
  string_eq_iff s "pending-approval-by-exchange",
  string_eq_iff s "disapproved-by-exchange",
  string_eq_iff s "blocked-by-publisher",
  string_eq_iff s "language-exclusions",
  string_eq_iff s "category-exclusions",
  string_eq_iff s "bid-from-gen-bid-failed-currency-check",
  string_eq_iff s "bid-from-score-ad-failed-currency-check",
)

-- The texts that parse to a reason other than "not available" are exactly the names that are printed
-- for it.
pub reason_iff :
    (s : String) (r : SellerRejectionReason)
    → r ≢ SellerRejectionReason.seller_rejection_reason_not_available
    → (to_seller_rejection_reason s ≡ r) ↔ (s ≡ to_seller_rejection_reason_string r)
reason_iff s r named = (to, λ e. ap to_seller_rejection_reason e ∙ reason-string r)
  where
    to : to_seller_rejection_reason s ≡ r → s ≡ to_seller_rejection_reason_string r
    to e = elim (string-reason s) [
      | inl absent ↦ absurd (named (sym e ∙ absent))
      | inr same ↦ sym same ∙ ap to_seller_rejection_reason_string e
    ]
