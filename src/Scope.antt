-- ===== src/Scope.antt =====
-- services/common/util/auction_scope_util.{h,cc}: the kind of auction that a request asks for. The
-- two functions see only the fields named here.
use bas_dev.Common.{
  ℕ, ◌≡◌, ◌≢◌, ◌↔◌, Bool, true, false, not, ◌||◌, String, arith, ltb, is_empty, string_eq_iff,
  if◌then◌else◌,
}

pub data AuctionScope : Type 0 where
  single_seller device_component_multi_seller server_component_multi_seller : AuctionScope
  server_top_level_seller : AuctionScope

pub data EncryptionCloudPlatform : Type 0 where
  unspecified gcp aws : EncryptionCloudPlatform

-- What `GetAuctionScope` reads of a SelectAdRequest.
pub record SelectAdScopeFields : Type 0 where
  pub top_level_seller : String
  pub top_level_cloud_platform : EncryptionCloudPlatform
  pub component_auction_results_size : ℕ

abbrev for_cloud_platform : EncryptionCloudPlatform → AuctionScope
for_cloud_platform gcp = server_component_multi_seller
for_cloud_platform aws = server_component_multi_seller
for_cloud_platform unspecified = device_component_multi_seller

unfoldable pub select_ad_auction_scope : SelectAdScopeFields → AuctionScope
select_ad_auction_scope request =
    if not (is_empty request.top_level_seller)
    then for_cloud_platform request.top_level_cloud_platform
    else if ltb 0 request.component_auction_results_size
    then server_top_level_seller
    else single_seller

-- The overload for a ScoreAdsRawRequest, from its top-level seller and number of results.
unfoldable pub score_ads_auction_scope : String → ℕ → AuctionScope
score_ads_auction_scope top_level_seller component_auction_results_size =
    if not (is_empty top_level_seller)
    then device_component_multi_seller
    else if ltb 0 component_auction_results_size
    then server_top_level_seller
    else single_seller

abbrev pub is_device_component : AuctionScope → Bool
is_device_component device_component_multi_seller = true
is_device_component _ = false

abbrev pub is_server_component : AuctionScope → Bool
is_server_component server_component_multi_seller = true
is_server_component _ = false

abbrev pub is_top_level : AuctionScope → Bool
is_top_level server_top_level_seller = true
is_top_level _ = false

-- The test that several functions write out.
abbrev pub is_component : AuctionScope → Bool
is_component scope = is_device_component scope || is_server_component scope

-- Where the seller frontend and the auction service see the same top-level seller and the same
-- number of component results, they agree on the scope, except that the auction service takes each
-- component auction for one on the device.
pub scopes_agree :
    (request : SelectAdScopeFields)
    → let scored =
        score_ads_auction_scope request.top_level_seller request.component_auction_results_size in
      let selected = select_ad_auction_scope request in
      (is_component selected ≡ is_component scored)
      × (is_top_level selected ≡ is_top_level scored)
      × (is_server_component scored ≡ false)
      × ((is_component selected ≡ true) ↔ (request.top_level_seller ≢ ""))
unfolding select_ad_auction_scope score_ads_auction_scope
scopes_agree request = ground (arith, string_eq_iff request.top_level_seller "")
