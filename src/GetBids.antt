-- ===== src/GetBids.antt =====
-- services/buyer_frontend_service/get_bids_unary_reactor.{h,cc}: the request handler of the buyer
-- frontend, which has the bidding service generate bids for interest groups and for protected app
-- signals. Metrics, logs and copies of debug information are left out. The clients, the decryption
-- and the encryption are an interface; `finished` holds the calls of `Finish`. The message of an
-- `absl::Status` is the text that its `ToString` gives.
-- `aead_encrypt` takes the message, which it encrypts with the secret of the decryption.
pub mod Requests
pub mod Steps
mod Phases
mod Tasks
mod Responses
mod Called
pub mod Finishes
pub mod Unanswered
pub mod Sent
use bas_dev.Common.{
  ℕ, ◌+◌, ◌≡◌, Bool, true, false, not, ◌&&◌, String, List, [], ◌∷◌, ◌++◌, Option, none, some,
  is_empty, length, ◌==◌, nat_eq, string_eq, if◌then◌else◌,
}
use bas_dev.Common.Int.{ℤ, pos}
use bas_dev.TaskTracker.{
  TaskStatus, empty_response, error, success, Tracker, tracking, set_num_tasks_to_track,
  task_completed,
}
use bas_dev.Errors.{str_join}
use bas_dev.SelectAd.Messages.{
  GetBidsRawRequest, GetBidsRawResponse, AdWithBid, ProtectedAppSignalsAdWithBid,
}
use bas_dev.SelectAd.Services.{
  GrpcCode, grpc_ok, grpc_internal, grpc_invalid_argument, grpc_aborted, Status, StatusOr, value,
  failure,
}
use bas_dev.SelectAd.Currency.{empty}
use bas_dev.GetBids.Requests.{
  GenerateAppSignalsBidsRawRequest, create_generate_app_signals_bids_raw_request,
}

pub record GetBidsRequest : Type 0 where
  pub key_id : String
  pub request_ciphertext : String

-- A call of a client returns the text of its error, if it fails. `call_bidding` makes its request of
-- the request for bids and the bidding signals.
pub record BuyerServices (W : Type 0) : Type 0 where
  pub is_protected_audience_enabled : Bool
  pub is_protected_app_signals_enabled : Bool
  pub get_private_key : String → Option String
  pub hpke_decrypt : String → String → Option String
  pub parse : String → Option GetBidsRawRequest
  pub call_bidding : GetBidsRawRequest → String → Option String
  pub call_app_bidding : GenerateAppSignalsBidsRawRequest → Option String
  pub aead_encrypt : GetBidsRawResponse W → StatusOr String

-- The response that the part for interest groups awaits.
pub data AudienceCall : Type 0 where
  no_call for_bidding_signals for_bids : AudienceCall

-- What the tasks change under the lock of the tracker: `bid_errors_` and `get_bids_raw_response_`.
abbrev pub Gathered : Type 0 → Type 0
Gathered W = List String × GetBidsRawResponse W

-- `signals_due` says that `Execute` has `MayGetProtectedSignalsBids` still to call.
pub record GetBidsReactor (W : Type 0) : Type 0 where
  pub raw_request : GetBidsRawRequest
  pub tracker : Tracker
  pub gathered : Gathered W
  pub audience : AudienceCall
  pub signals_due : Bool
  pub app_awaited : Bool
  pub response_ciphertext : Option String
  pub finished : List Status

abbrev pub finish_get_bids : {W : Type 0} → GrpcCode → String → GetBidsReactor W → GetBidsReactor W
finish_get_bids code message r = record r {
  finished = record { code = code; message = message } ∷ r.finished;
}

-- `DecryptRequest`, which the constructor calls.
unfoldable pub decrypt_get_bids :
    {W : Type 0} → BuyerServices W → GetBidsRequest → StatusOr GetBidsRawRequest
decrypt_get_bids services request =
    let invalid : String → StatusOr GetBidsRawRequest =
      λ message. failure (record { code = grpc_invalid_argument; message = message }) in
    if is_empty request.key_id
    then invalid "key_id must be non-null."
    else if is_empty request.request_ciphertext
    then invalid "request_ciphertext must be non-null."
    else elim (services.get_private_key request.key_id) [
      | none ↦ invalid "Invalid key_id."
      | some private_key ↦ elim (services.hpke_decrypt private_key request.request_ciphertext) [
        | none ↦ invalid "Malformed request ciphertext."
        | some payload ↦ elim (services.parse payload) [
          | none ↦ invalid "Malformed request ciphertext."
          | some raw_request ↦ value raw_request
        ]
      ]
    ]

abbrev pub has_field {ℓ} : {A : Type ℓ} → Option A → Bool
has_field none = false
has_field (some _) = true

module _ {W : Type 0} (services : BuyerServices W) where
  -- The two tests of `GetNumberOfBiddingCalls`.
  abbrev pub audience_calls : GetBidsRawRequest → ℕ
  audience_calls raw_request =
      if services.is_protected_audience_enabled
        && not (empty raw_request.buyer_input.interest_groups)
      then 1
      else 0

  abbrev pub signals_calls : GetBidsRawRequest → ℕ
  signals_calls raw_request =
      if services.is_protected_app_signals_enabled
        && has_field raw_request.protected_app_signals_buyer_input
      then 1
      else 0

  unfoldable pub get_number_of_bidding_calls : GetBidsRawRequest → ℕ
  get_number_of_bidding_calls raw_request = audience_calls raw_request + signals_calls raw_request

  -- What `OnAllBidsDone` does with the result of `EncryptResponse`.
  abbrev pub finish_encrypted : StatusOr String → Bool → GetBidsReactor W → GetBidsReactor W
  finish_encrypted (failure status) any_successful_bids r =
      finish_get_bids grpc_internal status.message r
  finish_encrypted (value ciphertext) true r =
      finish_get_bids grpc_ok "" (record r { response_ciphertext = some ciphertext })
  finish_encrypted (value ciphertext) false r =
      finish_get_bids grpc_internal (str_join r.gathered.0 "; ")
        (record r { response_ciphertext = some ciphertext })

  unfoldable pub on_all_generated_bids_done : Bool → Bool → GetBidsReactor W → GetBidsReactor W
  on_all_generated_bids_done true any_successful_bids r =
      finish_get_bids grpc_aborted "Request Cancelled by Client." r
  on_all_generated_bids_done false any_successful_bids r =
      finish_encrypted (services.aead_encrypt r.gathered.1) any_successful_bids r

  -- `async_task_tracker_.TaskCompleted`, with `OnAllBidsDone` as its final callback.
  unfoldable pub complete_task :
      TaskStatus → Option (Gathered W → Gathered W) → Bool → GetBidsReactor W → GetBidsReactor W
  complete_task status on_single_task_done is_cancelled r =
      let (tracker, gathered, call) =
        task_completed status on_single_task_done (r.tracker, r.gathered) in
      let r' = record r { tracker = tracker; gathered = gathered } in
      elim call [ none ↦ r' | some any ↦ on_all_generated_bids_done is_cancelled any r' ]

  abbrev pub push_error : String → Gathered W → Gathered W
  push_error message (bid_errors, response) = (bid_errors ++ (message ∷ []), response)

  -- `HandleSingleBidCompletion` on the bids of a response, with the change that they make.
  unfoldable pub handle_single_bid_completion {ℓ} :
      {B : Type ℓ}
      → StatusOr (List B)
      → (List B → Gathered W → Gathered W)
      → Bool
      → GetBidsReactor W
      → GetBidsReactor W
  handle_single_bid_completion (failure status) swap is_cancelled r =
      complete_task error (some (push_error status.message)) is_cancelled r
  handle_single_bid_completion (value bids) swap is_cancelled r =
      if empty bids
      then complete_task empty_response none is_cancelled r
      else complete_task success (some (swap bids)) is_cancelled r

  abbrev pub swap_bids : List (AdWithBid W) → Gathered W → Gathered W
  swap_bids bids (bid_errors, response) = (bid_errors, record response { bids = bids })

  abbrev pub swap_app_bids : List (ProtectedAppSignalsAdWithBid W) → Gathered W → Gathered W
  swap_app_bids bids (bid_errors, response) =
      (bid_errors, record response { protected_app_signals_bids = bids })

  -- `MayGetProtectedAudienceBids`: the provider of bidding signals takes any request.
  unfoldable pub may_get_protected_audience_bids : GetBidsReactor W → GetBidsReactor W
  may_get_protected_audience_bids r =
      if services.is_protected_audience_enabled
        && not (empty r.raw_request.buyer_input.interest_groups)
      then record r { audience = for_bidding_signals }
      else r

  -- The callback of the bidding signals, and `PrepareAndGenerateProtectedAudienceBid`.
  unfoldable pub on_bidding_signals : StatusOr String → Bool → GetBidsReactor W → GetBidsReactor W
  on_bidding_signals (failure status) is_cancelled r =
      complete_task error (some (push_error status.message)) is_cancelled r
  on_bidding_signals (value signals) is_cancelled r = elim (is_empty signals) [
    | true ↦ complete_task empty_response none is_cancelled r
    | false ↦ elim (services.call_bidding r.raw_request signals) [
      | none ↦ record r { audience = for_bids }
      | some message ↦ complete_task error (some (push_error message)) is_cancelled r
    ]
  ]

  -- Whether the buyer input has protected app signals.
  abbrev pub has_signals : GetBidsRawRequest → Bool
  has_signals raw_request = elim raw_request.protected_app_signals_buyer_input [
    | none ↦ false
    | some input ↦ has_field input.protected_app_signals
  ]

  unfoldable pub may_get_protected_signals_bids : Bool → GetBidsReactor W → GetBidsReactor W
  may_get_protected_signals_bids is_cancelled r =
      elim (services.is_protected_app_signals_enabled && has_signals r.raw_request) [
        | false ↦ r
        | true ↦
            elim (services.call_app_bidding
              (create_generate_app_signals_bids_raw_request r.raw_request)) [
                | none ↦ record r { app_awaited = true }
                | some message ↦ complete_task error (some (push_error message)) is_cancelled r
              ]
      ]

  -- The constructor, on a request without content until decryption gives one.
  unfoldable pub new_reactor : GetBidsRawRequest → GetBidsReactor W
  new_reactor raw_request = record {
    raw_request = raw_request;
    tracker = tracking (pos 1);
    gathered = ([], record { bids = []; protected_app_signals_bids = [] });
    audience = no_call;
    signals_due = false;
    app_awaited = false;
    response_ciphertext = none;
    finished = [];
  }

  -- `Execute` up to its last call, after a decryption that succeeded.
  unfoldable pub execute_decrypted : GetBidsRawRequest → GetBidsReactor W
  execute_decrypted raw_request =
      let r = new_reactor raw_request in
      let num_bidding_calls = get_number_of_bidding_calls raw_request in
      elim (num_bidding_calls == 0) [
        | true ↦ finish_get_bids grpc_invalid_argument "Missing inputs" r
        | false ↦ may_get_protected_audience_bids (record r {
          tracker = set_num_tasks_to_track r.tracker (pos num_bidding_calls);
          signals_due = true;
        })
      ]
