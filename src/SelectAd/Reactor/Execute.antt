-- ===== src/SelectAd/Reactor/Execute.antt =====
-- `Execute` and `DecryptRequest` of services/seller_frontend_service/select_ad_reactor.cc, up to the
-- loop over the buyers.
use Prim.Native.String
use bas_dev.Common.{
  true, false, not, String, List, [], ◌∷◌, none, is_empty, length, string_eq, if◌then◌else◌,
}
use bas_dev.Common.Int.{pos}
use bas_dev.Common.Float.{Float}
use bas_dev.TaskTracker.{tracking}
use bas_dev.Errors.{
  client_visible, ad_server_visible, client_side, ErrorAccumulator, report_error, has_errors,
}
use bas_dev.SelectAd.Services.{
  grpc_invalid_argument, StatusOr, value, failure, Request, Decoded, Services,
}
use bas_dev.SelectAd.Checks.{
  have_errors, may_populate_ad_server_visible_errors, validate_protected_auction_input,
  may_populate_client_visible_errors,
}
use bas_dev.SelectAd.Reactor.{SelectAdReactor, idle, finish, on_score_ads_done}

unfoldable pub report_decode_errors : List String → ErrorAccumulator → ErrorAccumulator
report_decode_errors [] errors = errors
report_decode_errors (msg ∷ later) errors =
    report_decode_errors later (report_error client_visible msg client_side errors)

module _ {W : Type 0} ⦃f : Float W⦄ (services : Services W) (request : Request) where
  -- The constructor.
  unfoldable pub constructed : SelectAdReactor W
  constructed = record {
    decoded = record {
      input = record {
        publisher_name = "";
        enable_debug_reporting = false;
        generation_id = "";
        consented_debug_config = none;
        enable_unlimited_egress = false;
      };
      buyer_inputs = [];
      decode_errors = [];
    };
    to_visit = [];
    soliciting = record { buyer_set = []; num_buyers_solicited = 0; sent = [] };
    called = [];
    tracker = tracking (pos (length request.config.buyer_list));
    buyer_bids = [];
    errors = [];
    error_message = none;
    scoring_signals = none;
    waiting = idle;
    ciphertext = none;
    key_id = none;
    reports = [];
    finished = [];
  }

  -- `DecryptRequest`, with the decoding that it starts.
  unfoldable pub decrypt_request : StatusOr Decoded
  decrypt_request =
      let is_protected_auction = not (is_empty request.protected_auction_ciphertext) in
      let encapsulated =
        if is_protected_auction
        then request.protected_auction_ciphertext
        else request.protected_audience_ciphertext in
      elim (is_empty encapsulated) [
        | true ↦ failure (record {
          code = grpc_invalid_argument;
          message = "protected_auction_ciphertext must be non-null.";
        })
        | false ↦ elim (services.decrypt encapsulated) [
          | failure status ↦ failure (record {
            code = grpc_invalid_argument;
            message =
                String.◌++◌ "Error while decrypting protected_auction_ciphertext: "
                  (String.◌++◌ status.message ".");
          })
          | value text ↦ value (services.decode is_protected_auction text)
        ]
      ]

  -- The members that the loop over the buyers starts with.
  abbrev pub begin_loop : SelectAdReactor W → SelectAdReactor W
  begin_loop r = record r {
    to_visit = request.config.buyer_list;
    soliciting = record {
      buyer_set = request.config.buyer_list;
      num_buyers_solicited = 0;
      sent = [];
    };
  }

  -- The checks after a successful decryption, and the early return that an error leads to.
  unfoldable pub execute_decoded : SelectAdReactor W → SelectAdReactor W
  execute_decoded r =
      let errors =
        may_populate_ad_server_visible_errors services.is_currency_code request.config
          request.client_type request.auction_scope services.seller_origin_domain r.errors in
      elim (have_errors ad_server_visible errors) [
        | true ↦ on_score_ads_done services request (value none) (record r { errors = errors })
        | false ↦
            let errors' =
              if have_errors client_visible errors
              then errors
              else validate_protected_auction_input r.decoded.input r.decoded.buyer_inputs errors in
            let r' = record r {
              errors = errors';
              error_message = may_populate_client_visible_errors errors';
            } in
            elim (has_errors errors') [
              | true ↦ on_score_ads_done services request (value none) r'
              | false ↦ begin_loop r'
            ]
      ]

  unfoldable pub execute_request : SelectAdReactor W
  execute_request = elim decrypt_request [
    | failure status ↦ finish status.code status.message constructed
    | value decoded ↦ execute_decoded (record constructed {
      decoded = decoded;
      errors = report_decode_errors decoded.decode_errors [];
    })
  ]
