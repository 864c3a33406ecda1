-- ===== src/SelectAd/Currency.antt =====
-- Bids whose currency is not the one that the buyer's configuration names, from
-- services/seller_frontend_service/select_ad_reactor.cc. The element of a repeated field is moved
-- in place: a list stands for the field. The metric of rejected bids is left out.
mod Swaps
pub mod Filter
pub mod Buyers
use bas_dev.Common.{
  ℕ, zero, suc, ◌-◌, ◌≡◌, Bool, true, false, not, ◌&&◌, ◌||◌, String, List, [], ◌∷◌, ◌++◌, Option,
  none, some, ltb, ◌==◌, string_eq, is_empty, length, get_elem?, lookup, if◌then◌else◌,
}
use bas_dev.SelectAd.Messages.{AuctionConfig, GetBidsRawResponse}

module _ {ℓ} {T : Type ℓ} where
  abbrev pub take : ℕ → List T → List T
  take zero xs = []
  take (suc n) [] = []
  take (suc n) (x ∷ xs) = x ∷ take n xs

  abbrev pub drop : ℕ → List T → List T
  drop zero xs = xs
  drop (suc n) [] = []
  drop (suc n) (x ∷ xs) = drop n xs

  abbrev pub set : ℕ → T → List T → List T
  set i y [] = []
  set zero y (x ∷ xs) = y ∷ xs
  set (suc i) y (x ∷ xs) = x ∷ set i y xs

  -- `RepeatedPtrField::SwapElements` and `DeleteSubrange`.
  unfoldable pub swap_elements : ℕ → ℕ → List T → List T
  swap_elements i j xs = elim (get_elem? xs i) [
    | none ↦ xs
    | some x ↦ elim (get_elem? xs j) [ none ↦ xs | some y ↦ set j x (set i y xs) ]
  ]

  abbrev pub delete_subrange : ℕ → ℕ → List T → List T
  delete_subrange start num xs = take start xs ++ drop num (drop start xs)

-- `FilterBidsWithMismatchingCurrencyHelper`, for a type of bids and its field `bid_currency`.
module _ {ℓ} {T : Type ℓ} (bid_currency : T → String) (buyer_currency : String) where
  abbrev pub is_mismatch : T → Bool
  is_mismatch ad_with_bid =
      not (is_empty (bid_currency ad_with_bid)) && not (buyer_currency == bid_currency ad_with_bid)

  -- The `while` loop on `i` and `remove_starting_at`, with fuel; nothing when the fuel is used up
  -- or an index is out of range.
  unfoldable pub swap_loop : ℕ → ℕ → ℕ → List T → Option (ℕ × List T)
  swap_loop zero i remove_starting_at ads =
      if ltb i remove_starting_at then none else some (remove_starting_at, ads)
  swap_loop (suc fuel) i remove_starting_at ads = elim (ltb i remove_starting_at) [
    | false ↦ some (remove_starting_at, ads)
    | true ↦ elim (get_elem? ads i) [
      | none ↦ none
      | some ad_with_bid ↦ elim (is_mismatch ad_with_bid) [
        | true ↦
            let last = remove_starting_at - 1 in swap_loop fuel i last (swap_elements i last ads)
        | false ↦ swap_loop fuel (suc i) remove_starting_at ads
      ]
    ]
  ]

  unfoldable pub filter_helper : List T → Option (List T)
  filter_helper ads = elim (swap_loop (length ads) 0 (length ads) ads) [
    | none ↦ none
    | some (remove_starting_at, ads') ↦
        let removed = length ads' - remove_starting_at in
        if ltb remove_starting_at (length ads')
        then some (delete_subrange remove_starting_at removed ads')
        else some ads'
  ]

-- `shared_buyer_bids_map_`, in the order of its iteration.
abbrev pub BuyerBids : Type 0 → Type 0
BuyerBids W = List (String × GetBidsRawResponse W)

abbrev pub empty {ℓ} : {A : Type ℓ} → List A → Bool
empty [] = true
empty (_ ∷ _) = false

module _ {W : Type 0} (is_protected_audience_enabled is_pas_enabled : Bool) where
  -- The test of `OnFetchBidsDone`, of both checks of the preconditions and of the final `erase_if`.
  unfoldable pub has_no_bids : GetBidsRawResponse W → Bool
  has_no_bids response =
      (not is_protected_audience_enabled || empty response.bids)
      && (not is_pas_enabled || empty response.protected_app_signals_bids)

  -- One buyer of the loop: its bids that remain, and whether it sets `any_valid_bids`.
  unfoldable pub filter_buyer :
      AuctionConfig → String → GetBidsRawResponse W → Option (Bool × GetBidsRawResponse W)
  filter_buyer config buyer_ig_owner response =
      elim (lookup buyer_ig_owner config.per_buyer_config) [
        | none ↦ some (true, response)
        | some buyer_config ↦
            let buyer_currency = buyer_config.buyer_currency in
            elim (is_empty buyer_currency) [
              | true ↦ some (true, response)
              | false ↦ elim (filter_helper (λ ad. ad.bid_currency) buyer_currency response.bids) [
                | none ↦ none
                | some bids ↦
                    elim (filter_helper (λ ad. ad.bid_currency) buyer_currency
                      response.protected_app_signals_bids) [
                        | none ↦ none
                        | some pas_bids ↦ some (
                          (is_protected_audience_enabled && not (empty bids))
                              || (is_pas_enabled && not (empty pas_bids)),
                          record { bids = bids; protected_app_signals_bids = pas_bids },
                        )
                      ]
              ]
            ]
      ]

  unfoldable pub filter_buyers : AuctionConfig → BuyerBids W → Option (Bool × BuyerBids W)
  filter_buyers config [] = some (false, [])
  filter_buyers config ((buyer, response) ∷ later) = elim (filter_buyer config buyer response) [
    | none ↦ none
    | some (valid, response') ↦ elim (filter_buyers config later) [
      | none ↦ none
      | some (any_valid_bids, later') ↦ some (valid || any_valid_bids, (buyer, response') ∷ later')
    ]
  ]

  -- `absl::erase_if` of the buyers with no bids.
  unfoldable pub erase_empty : BuyerBids W → BuyerBids W
  erase_empty [] = []
  erase_empty ((buyer, response) ∷ later) =
      if has_no_bids response then erase_empty later else (buyer, response) ∷ erase_empty later

  -- `FilterBidsWithMismatchingCurrency`.
  unfoldable pub filter_bids_with_mismatching_currency :
      AuctionConfig → BuyerBids W → Option (Bool × BuyerBids W)
  filter_bids_with_mismatching_currency config buyer_bids = elim (filter_buyers config buyer_bids) [
    | none ↦ none
    | some (any_valid_bids, filtered) ↦ some (any_valid_bids, erase_empty filtered)
  ]
