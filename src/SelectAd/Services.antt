-- ===== src/SelectAd/Services.antt =====
-- What the reactor of services/seller_frontend_service/select_ad_reactor.{h,cc} calls: the clients
-- of the other services, the cryptography and the virtual functions of its subclasses, as one
-- interface. A status is its code and its message.
use bas_dev.Common.{Bool, String, List, Option}
use bas_dev.Common.Int.{ℤ}
use bas_dev.Api.{ClientType, AdScore}
use bas_dev.Scope.{AuctionScope}
use bas_dev.SelectAd.Messages.{
  AuctionConfig, BuyerInput, ProtectedAuctionInput, GetBidsRawRequest, ScoreAdsRawRequest,
}
use bas_dev.SelectAd.Currency.{BuyerBids}

-- The codes that the reactor itself uses; the other codes come from the services it calls.
pub data GrpcCode : Type 0 where
  grpc_ok grpc_internal grpc_invalid_argument grpc_aborted : GrpcCode
  grpc_other : ℤ → GrpcCode

pub record Status : Type 0 where
  pub code : GrpcCode
  pub message : String

pub data StatusOr {ℓ} (A : Type ℓ) : Type ℓ where
  value : A → StatusOr A
  failure : Status → StatusOr A

-- The plain part of a SelectAdRequest.
pub record Request : Type 0 where
  pub protected_auction_ciphertext : String
  pub protected_audience_ciphertext : String
  pub config : AuctionConfig
  pub client_type : ClientType
  pub auction_scope : AuctionScope

-- The decoded ciphertext, and the messages of the errors that decoding reports for the client.
pub record Decoded : Type 0 where
  pub input : ProtectedAuctionInput
  pub buyer_inputs : List (String × BuyerInput)
  pub decode_errors : List String

-- What `GetNonEncryptedResponse` does: it returns the plaintext, or it returns an error after it
-- has finished the RPC with a status, or it returns an error and leaves the RPC open.
pub data Plaintext : Type 0 where
  plaintext : String → Plaintext
  finished_with : Status → Plaintext
  left_open : Plaintext

pub record Services (W : Type 0) : Type 0 where
  -- The configuration of the server; `for_app` says which subclass the reactor is of.
  pub is_protected_audience_enabled : Bool
  pub is_pas_enabled : Bool
  pub for_app : Bool
  pub max_buyers_solicited : ℤ
  pub seller_origin_domain : String
  pub is_currency_code : String → Bool
  -- Decryption, with its error message, and decoding: true for a protected auction ciphertext.
  pub decrypt : String → StatusOr String
  pub decode : Bool → String → Decoded
  -- `buyer_factory.Get`, and whether the `ExecuteInternal` of a client accepts a call.
  pub has_buyer_client : String → Bool
  pub call_buyer : String → GetBidsRawRequest → Bool
  pub call_scoring : ScoreAdsRawRequest W → Bool
  pub non_encrypted_response : Option (AdScore W) → Option String → BuyerBids W → Plaintext
  -- `HpkeEncrypt`, with the key id, and `EncryptAndEncapsulateResponse`.
  pub hpke_encrypt : String → Option (String × String)
  pub encapsulate : String → Option String
  -- `absl::StrFormat("%.2f", …)` and `absl::StrReplaceAll`.
  pub format : W → String
  pub str_replace_all : String → List (String × String) → String
