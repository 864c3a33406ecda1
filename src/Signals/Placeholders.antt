-- ===== src/Signals/Placeholders.antt =====
-- What debug reports are told: the rejection reason of each interest group, and the second highest
-- bid only on the report of a win.
use bas_dev.Common.{
  inr, inl, ◌≡◌, refl, ◌∙◌, Bool, false, ◌&&◌, String, List, [], ◌∷◌, Option, none, some, ◌==◌,
  string_eq, lookup, emplace, contains, if◌then◌else◌, arith, string_eq_iff, Option-cases,
}
use bas_dev.Api.{SellerRejectionReason, seller_rejection_reason_not_available, AdRejectionReason}
use bas_dev.Signals.{
  debug_replacements, RejectionReasonMap, replace_at, add_rejection_reason, group_rejection_reasons,
  rejection_reason_of, DebugReportingPlaceholder, create_debug_reporting_url,
}

-- The reason of the first entry for an interest group.
abbrev pub first_reason : String → String → List AdRejectionReason → SellerRejectionReason
first_reason owner name [] = seller_rejection_reason_not_available
first_reason owner name (r ∷ rs) =
    if r.interest_group_owner == owner && r.interest_group_name == name
    then r.rejection_reason
    else first_reason owner name rs

lookup-emplace {ℓ} :
    {V : Type ℓ} (k j : String) (v : V) (m : List (String × V))
    → lookup k (emplace j v m)
      ≡ (if j == k then (elim (lookup k m) [ none ↦ some v | some w ↦ some w ]) else lookup k m)
unfolding lookup emplace
lookup-emplace k j v [] = ground arith
lookup-emplace k j v ((i, w) ∷ m) =
    ground (arith, string_eq_iff j k, string_eq_iff i k, string_eq_iff i j, lookup-emplace k j v m)

lookup-replace_at {ℓ} :
    {V : Type ℓ} (k j : String) (f : V → V) (m : List (String × V))
    → lookup k (replace_at j f m)
      ≡ (if j == k then (elim (lookup k m) [ none ↦ none | some w ↦ some (f w) ]) else lookup k m)
unfolding lookup replace_at
lookup-replace_at k j f [] = ground arith
lookup-replace_at k j f ((i, w) ∷ m) =
    ground
      (arith, string_eq_iff j k, string_eq_iff i k, string_eq_iff i j, lookup-replace_at k j f m)

abbrev in_names :
    String → Option (List (String × SellerRejectionReason)) → Option SellerRejectionReason
in_names name none = none
in_names name (some reasons) = lookup name reasons

find_reason : String → String → RejectionReasonMap → Option SellerRejectionReason
find_reason owner name m = in_names name (lookup owner m)

abbrev or_else : Option SellerRejectionReason → SellerRejectionReason → SellerRejectionReason
or_else none d = d
or_else (some r) d = r

lookup-singleton {ℓ} :
    {V : Type ℓ} (k j : String) (v : V) → lookup k ((j, v) ∷ []) ≡ (if j == k then some v else none)
unfolding lookup
lookup-singleton k j v = refl

find_reason-add :
    (owner name : String) (r : AdRejectionReason) (m : RejectionReasonMap)
    → find_reason owner name (add_rejection_reason r m) ≡ (
        if r.interest_group_owner == owner && r.interest_group_name == name
        then some (or_else (find_reason owner name m) r.rejection_reason)
        else find_reason owner name m)
unfolding find_reason add_rejection_reason
find_reason-add owner name r m =
    let o = r.interest_group_owner in
    let n = r.interest_group_name in
    elim (Option-cases (lookup o m)) [
      | inl e ↦
          rw (e, contains)
            (ground (
              arith,
              e,
              lookup-emplace owner o ((n, r.rejection_reason) ∷ []) m,
              lookup-singleton name n r.rejection_reason,
              string_eq_iff o owner,
            ))
      | inr (reasons, e) ↦
          rw (e, contains)
            (ground (
              arith,
              e,
              lookup-replace_at owner o (emplace n r.rejection_reason) m,
              lookup-emplace name n r.rejection_reason reasons,
              string_eq_iff o owner,
            ))
    ]

group-find_reason :
    (owner name : String) (rs : List AdRejectionReason) (m : RejectionReasonMap)
    → rejection_reason_of owner name (group_rejection_reasons rs m)
      ≡ or_else (find_reason owner name m) (first_reason owner name rs)
unfolding group_rejection_reasons rejection_reason_of find_reason
group-find_reason owner name [] m = ground arith
group-find_reason owner name (r ∷ rs) m =
    group-find_reason owner name rs (add_rejection_reason r m)
    ∙ ground (arith, find_reason-add owner name r m)

-- The debug report of an interest group names the first reason that the auction gave for it, and
-- "not available" if it gave none.
pub rejection_reason-group :
    (owner name : String) (rs : List AdRejectionReason)
    → rejection_reason_of owner name (group_rejection_reasons rs []) ≡ first_reason owner name rs
unfolding find_reason lookup
rejection_reason-group owner name rs = group-find_reason owner name rs []

-- The URL of a loss report is the same whatever the second highest bid was and whoever made it.
pub loss_url-same :
    {W : Type 0} (format : W → String) (str_replace_all : String → List (String × String) → String)
    (url : String) (values : DebugReportingPlaceholder W) (bid : W) (made : Bool)
    → create_debug_reporting_url format str_replace_all url values false
      ≡ create_debug_reporting_url format str_replace_all url
          (record values { highest_scoring_other_bid = bid; made_highest_scoring_other_bid = made })
          false
unfolding create_debug_reporting_url debug_replacements
loss_url-same format str_replace_all url values bid made = refl
