-- ===== src/Signals.antt =====
-- services/common/util/reporting_util.{h,cc} and post_auction_signals.h: rejection reasons and
-- their names, and the signals that describe the outcome of an auction to debug reports.
pub mod Reasons
pub mod Placeholders
use bas_dev.Common.{
  ℕ, ◌≡◌, Bool, true, false, ◌&&◌, String, List, [], ◌∷◌, ◌++◌, Option, none, some, ◌==◌, string_eq,
  nat_eq, is_empty, length, lookup, emplace, contains, if◌then◌else◌, Eq,
}
use bas_dev.Common.Float.{Float}
use bas_dev.Api
pub use bas_dev.Api.{SellerRejectionReason}

unfoldable pub to_seller_rejection_reason : String → SellerRejectionReason
to_seller_rejection_reason s =
    if is_empty s
    then Api.seller_rejection_reason_not_available
    else if s == "invalid-bid"
    then Api.invalid_bid
    else if s == "bid-below-auction-floor"
    then Api.bid_below_auction_floor
    else if s == "pending-approval-by-exchange"
    then Api.pending_approval_by_exchange
    else if s == "disapproved-by-exchange"
    then Api.disapproved_by_exchange
    else if s == "blocked-by-publisher"
    then Api.blocked_by_publisher
    else if s == "language-exclusions"
    then Api.language_exclusions
    else if s == "category-exclusions"
    then Api.category_exclusions
    else if s == "bid-from-gen-bid-failed-currency-check"
    then Api.bid_from_generate_bid_failed_currency_check
    else if s == "bid-from-score-ad-failed-currency-check"
    then Api.bid_from_score_ad_failed_currency_check
    else Api.seller_rejection_reason_not_available

unfoldable pub to_seller_rejection_reason_string : SellerRejectionReason → String
to_seller_rejection_reason_string SellerRejectionReason.invalid_bid = "invalid-bid"
to_seller_rejection_reason_string SellerRejectionReason.bid_below_auction_floor =
    "bid-below-auction-floor"
to_seller_rejection_reason_string SellerRejectionReason.pending_approval_by_exchange =
    "pending-approval-by-exchange"
to_seller_rejection_reason_string SellerRejectionReason.disapproved_by_exchange =
    "disapproved-by-exchange"
to_seller_rejection_reason_string SellerRejectionReason.blocked_by_publisher =
    "blocked-by-publisher"
to_seller_rejection_reason_string SellerRejectionReason.language_exclusions = "language-exclusions"
to_seller_rejection_reason_string SellerRejectionReason.category_exclusions = "category-exclusions"
to_seller_rejection_reason_string
      SellerRejectionReason.bid_from_generate_bid_failed_currency_check =
    "bid-from-gen-bid-failed-currency-check"
to_seller_rejection_reason_string SellerRejectionReason.bid_from_score_ad_failed_currency_check =
    "bid-from-score-ad-failed-currency-check"
to_seller_rejection_reason_string SellerRejectionReason.seller_rejection_reason_not_available =
    "not-available"

-- Rejection reasons by owner and then by name of the interest group.
abbrev pub RejectionReasonMap : Type 0
RejectionReasonMap = List (String × List (String × SellerRejectionReason))

pub record PostAuctionSignals (W : Type 0) : Type 0 where
  pub winning_ig_name : String
  pub winning_ig_owner : String
  pub winning_bid : W
  pub winning_bid_currency : String
  pub highest_scoring_other_bid : W
  pub highest_scoring_other_bid_currency : String
  pub highest_scoring_other_bid_ig_owner : String
  pub has_highest_scoring_other_bid : Bool
  pub winning_score : W
  pub winning_ad_render_url : String
  pub rejection_reason_map : RejectionReasonMap
  pub made_highest_scoring_other_bid : Bool

pub record DebugReportingPlaceholder (W : Type 0) : Type 0 where
  pub winning_bid : W
  pub made_winning_bid : Bool
  pub highest_scoring_other_bid : W
  pub made_highest_scoring_other_bid : Bool
  pub rejection_reason : SellerRejectionReason

abbrev pub empty_bid_currency_code : String
empty_bid_currency_code = "???"

-- The change of one owner's entry in place.
unfoldable pub replace_at {ℓ} :
    {V : Type ℓ} → String → (V → V) → List (String × V) → List (String × V)
replace_at key f [] = []
replace_at key f ((k, v) ∷ m) = if k == key then (k, f v) ∷ m else (k, v) ∷ replace_at key f m

-- One round of the loop that groups the rejection reasons.
unfoldable pub add_rejection_reason :
    Api.AdRejectionReason → RejectionReasonMap → RejectionReasonMap
add_rejection_reason r m =
    if contains r.interest_group_owner m
    then replace_at r.interest_group_owner (emplace r.interest_group_name r.rejection_reason) m
    else emplace r.interest_group_owner ((r.interest_group_name, r.rejection_reason) ∷ []) m

unfoldable pub group_rejection_reasons :
    List Api.AdRejectionReason → RejectionReasonMap → RejectionReasonMap
group_rejection_reasons [] m = m
group_rejection_reasons (r ∷ rs) m = group_rejection_reasons rs (add_rejection_reason r m)

module _ {W : Type 0} ⦃f : Float W⦄ where
  -- The owner and the bid of the first entry of the map of other bids, if its list is not empty.
  abbrev pub first_other_bid : List (String × List W) → Option (String × W)
  first_other_bid [] = none
  first_other_bid ((owner, []) ∷ _) = none
  first_other_bid ((owner, bid ∷ _) ∷ _) = some (owner, bid)

  unfoldable pub signals_of_winner : Api.AdScore W → String → PostAuctionSignals W
  signals_of_winner winner seller_currency = record {
    winning_ig_name = winner.interest_group_name;
    winning_ig_owner = winner.interest_group_owner;
    winning_bid = winner.buyer_bid;
    winning_bid_currency =
        if is_empty winner.buyer_bid_currency
        then empty_bid_currency_code
        else winner.buyer_bid_currency;
    highest_scoring_other_bid = elim (first_other_bid others) [
      | none ↦ f.nought
      | some (owner, bid) ↦ bid
    ];
    highest_scoring_other_bid_currency =
        if is_empty seller_currency then empty_bid_currency_code else seller_currency;
    highest_scoring_other_bid_ig_owner = elim (first_other_bid others) [
      | none ↦ ""
      | some (owner, bid) ↦ owner
    ];
    has_highest_scoring_other_bid = elim (first_other_bid others) [ none ↦ false | some _ ↦ true ];
    winning_score = winner.desirability;
    winning_ad_render_url = winner.render;
    rejection_reason_map = group_rejection_reasons winner.ad_rejection_reasons [];
    made_highest_scoring_other_bid =
        length others == 1 && contains winner.interest_group_owner others;
  }
    where
      others : List (String × List W)
      others = winner.ig_owner_highest_scoring_other_bids_map

  unfoldable pub generate_post_auction_signals :
      Option (Api.AdScore W) → String → PostAuctionSignals W
  unfolding signals_of_winner
  generate_post_auction_signals none seller_currency = record {
    winning_ig_name = "";
    winning_ig_owner = "";
    winning_bid = f.nought;
    winning_bid_currency = empty_bid_currency_code;
    highest_scoring_other_bid = f.nought;
    highest_scoring_other_bid_currency = empty_bid_currency_code;
    highest_scoring_other_bid_ig_owner = "";
    has_highest_scoring_other_bid = false;
    winning_score = f.nought;
    winning_ad_render_url = "";
    rejection_reason_map = [];
    made_highest_scoring_other_bid = false;
  }
  generate_post_auction_signals (some winner) seller_currency =
      signals_of_winner winner seller_currency

-- The two lookups of `GetPlaceholderDataForInterestGroup`.
unfoldable pub rejection_reason_of : String → String → RejectionReasonMap → SellerRejectionReason
rejection_reason_of owner name m = elim (lookup owner m) [
  | none ↦ Api.seller_rejection_reason_not_available
  | some reasons ↦ elim (lookup name reasons) [
    | none ↦ Api.seller_rejection_reason_not_available
    | some reason ↦ reason
  ]
]

unfoldable pub get_placeholder_data_for_interest_group :
    {W : Type 0} → String → String → PostAuctionSignals W → DebugReportingPlaceholder W
get_placeholder_data_for_interest_group owner name signals = record {
  winning_bid = signals.winning_bid;
  made_winning_bid = owner == signals.winning_ig_owner;
  highest_scoring_other_bid = signals.highest_scoring_other_bid;
  made_highest_scoring_other_bid =
      signals.has_highest_scoring_other_bid && owner == signals.highest_scoring_other_bid_ig_owner;
  rejection_reason = rejection_reason_of owner name signals.rejection_reason_map;
}

abbrev pub bool_string : Bool → String
bool_string true = "true"
bool_string false = "false"

-- The replacements that `CreateDebugReportingHttpRequest` hands to `absl::StrReplaceAll`, in
-- order; `format` stands for `absl::StrFormat("%.2f", …)`.
unfoldable pub debug_replacements :
    {W : Type 0} → (W → String) → DebugReportingPlaceholder W → Bool → List (String × String)
debug_replacements format values is_win_debug_url =
    ("${winningBid}", format values.winning_bid)
    ∷ ("${madeWinningBid}", bool_string values.made_winning_bid)
    ∷ ("${rejectReason}", to_seller_rejection_reason_string values.rejection_reason)
    ∷ ("${highestScoringOtherBid}", "0.00")
    ∷ ("${madeHighestScoringOtherBid}", "false")
    ∷ (if is_win_debug_url
        then ("${highestScoringOtherBid}", format values.highest_scoring_other_bid)
          ∷ ("${madeHighestScoringOtherBid}", bool_string values.made_highest_scoring_other_bid)
          ∷ []
        else [])

-- The URL of the request, with the substitution as a parameter.
unfoldable pub create_debug_reporting_url :
    {W : Type 0}
    → (W → String)
    → (String → List (String × String) → String)
    → String
    → DebugReportingPlaceholder W
    → Bool
    → String
create_debug_reporting_url format str_replace_all url values is_win_debug_url =
    str_replace_all url (debug_replacements format values is_win_debug_url)
