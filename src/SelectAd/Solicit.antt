-- ===== src/SelectAd/Solicit.antt =====
-- The loop over the buyers in `Execute` of
-- services/seller_frontend_service/select_ad_reactor.cc, and `FetchBid`: which buyers are asked.
pub mod Asked
use bas_dev.Common.{
  ℕ, zero, suc, ◌≡◌, Bool, true, false, not, String, List, [], ◌∷◌, Option, none, some, ◌==◌,
  string_eq, lookup, if◌then◌else◌, filter,
}
use bas_dev.Common.Int.{ℤ, pos, leb_ℤ}
use bas_dev.TaskTracker.{TaskStatus, skipped, error}
use bas_dev.SelectAd.Messages.{BuyerInput, ProtectedAuctionInput, GetBidsRawRequest}
use bas_dev.SelectAd.Services.{Request, Services, Decoded}
use bas_dev.SelectAd.Requests.{create_get_bids_request, create_app_get_bids_request}

abbrev pub member : String → List String → Bool
member name [] = false
member name (n ∷ names) = if n == name then true else member name names

-- The variables of the loop, and the calls it has made; a set is a list whose repetitions do not
-- count.
pub record Soliciting : Type 0 where
  pub buyer_set : List String
  pub num_buyers_solicited : ℕ
  pub sent : List (String × GetBidsRawRequest)

-- What becomes of a buyer's task: it completes at once, or a response is awaited.
pub data TaskOutcome : Type 0 where
  completed : TaskStatus → TaskOutcome
  awaited : TaskOutcome

module _ {W : Type 0} (services : Services W) (request : Request) (decoded : Decoded) where
  -- The virtual `CreateGetBidsRequest`.
  abbrev pub get_bids_request : String → BuyerInput → GetBidsRawRequest
  get_bids_request buyer input =
      if services.for_app
      then create_app_get_bids_request request.config request.client_type decoded.input
          services.is_protected_audience_enabled services.is_pas_enabled buyer input
      else create_get_bids_request request.config request.client_type decoded.input
          services.is_protected_audience_enabled buyer input

  -- `FetchBid`, on the calls made so far.
  unfoldable pub fetch_bid :
      String
      → BuyerInput
      → List (String × GetBidsRawRequest)
      → TaskOutcome × List (String × GetBidsRawRequest)
  fetch_bid buyer input sent = elim (services.has_buyer_client buyer) [
    | false ↦ (completed skipped, sent)
    | true ↦
        let get_bids = get_bids_request buyer input in
        if services.call_buyer buyer get_bids
        then (awaited, (buyer, get_bids) ∷ sent)
        else (completed error, sent)
  ]

  -- One turn of the loop.
  unfoldable pub visit : String → Soliciting → TaskOutcome × Soliciting
  visit buyer s = elim (member buyer s.buyer_set) [
    | false ↦ (completed skipped, s)
    | true ↦
        let erased = record s { buyer_set = filter (λ b. not (b == buyer)) s.buyer_set } in
        elim (leb_ℤ services.max_buyers_solicited (pos s.num_buyers_solicited)) [
          | true ↦ (completed skipped, erased)
          | false ↦ elim (lookup buyer decoded.buyer_inputs) [
            | none ↦ (completed skipped, erased)
            | some input ↦
                let (outcome, sent) = fetch_bid buyer input s.sent in
                (
                  outcome,
                  record erased { num_buyers_solicited = suc s.num_buyers_solicited; sent = sent },
                )
          ]
        ]
  ]

  -- The whole loop: the statuses of the tasks that it completes, in order.
  unfoldable pub solicit : List String → Soliciting → List TaskStatus × Soliciting
  solicit [] s = ([], s)
  solicit (buyer ∷ later) s =
      let (outcome, s') = visit buyer s in
      let (statuses, s'') = solicit later s' in
      elim outcome [ completed status ↦ (status ∷ statuses, s'') | awaited ↦ (statuses, s'') ]

  abbrev pub not_yet : Soliciting
  not_yet = record { buyer_set = request.config.buyer_list; num_buyers_solicited = 0; sent = [] }
