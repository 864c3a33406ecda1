-- ===== src/SelectAd/Reactor/Finishes.antt =====
-- Every run of the reactor ends, and finishes the RPC once.
use bas_dev.Common.{
  ℕ, suc, ◌*◌, ◌≤◌, ◌≡◌, ◌⊎◌, inl, inr, refl, sym, ap, ◌∙◌, subst, false, List, [], ◌∷◌, none,
  length, if◌then◌else◌, arith, Bool-cases,
}
use bas_dev.Common.Int.{pos}
use bas_dev.Common.Float.{Float}
use bas_dev.Errors.{client_visible, ErrorAccumulator, ad_server_visible, has_errors}
use bas_dev.SelectAd.Services.{StatusOr, value, failure, Request, Services, Decoded}
use bas_dev.SelectAd.Currency.{empty}
use bas_dev.SelectAd.Checks.{
  may_populate_client_visible_errors, validate_protected_auction_input, have_errors,
  may_populate_ad_server_visible_errors,
}
use bas_dev.SelectAd.Checks.Passed.{buyer_list-needed}
use bas_dev.SelectAd.Reactor.{finish, tracking, SelectAdReactor}
use bas_dev.SelectAd.Reactor.Execute.{
  report_decode_errors, constructed, decrypt_request, execute_decoded, execute_request, begin_loop,
}
use bas_dev.SelectAd.Reactor.Steps.{
  Step, buyer_visited, bids_fetched, signals_fetched, ads_scored, Run,
}
use bas_dev.SelectAd.Reactor.Phases.{IsClosed, IsDone, finish-IsEnded, on_score_ads_done-IsEnded}
use bas_dev.TaskTracker.{tracking}
use bas_dev.SelectAd.Reactor.Bidding.{AllHaveBids}
use bas_dev.SelectAd.Reactor.Bounds.{not_both, not_both_ends, Lasts, Run-Lasts}

nonempty_length : {A : Type 0} (xs : List A) → empty xs ≡ false → (n : ℕ) × (length xs ≡ suc n)
nonempty_length [] h = absurd (ground arith)
nonempty_length (x ∷ xs) h = (length xs, refl)

module _ {W : Type 0} ⦃f : Float W⦄ (services : Services W) (request : Request) where
  -- What the constructor leaves, but for the errors and the decoded request.
  abbrev IsFresh : SelectAdReactor W → Type 0
  IsFresh r =
      IsClosed r
      × (r.tracker.pending_tasks_count ≡ pos (length request.config.buyer_list))
      × (r.buyer_bids ≡ [])

  begin_loop-Lasts :
      (r : SelectAdReactor W)
      → IsFresh r
      → empty request.config.buyer_list ≡ false
      → Lasts services request
          (6 * length request.config.buyer_list)
          (begin_loop services request r)
  begin_loop-Lasts r (h, p, b) some_buyers =
      let (n, e) = nonempty_length request.config.buyer_list some_buyers in
      let none_called : length r.called ≡ 0 = ap length h.1 in
      inl (
        n,
        suc n,
        (p ∙ ap pos e, omega arith, e, h.2, h.3, subst (AllHaveBids services request) (sym b) tt),
        omega (arith, e),
      )

  execute_decoded-Lasts :
      (r : SelectAdReactor W)
      → IsFresh r
      → Lasts services request
          (6 * length request.config.buyer_list)
          (execute_decoded services request r)
  unfolding execute_decoded
  execute_decoded-Lasts r h =
      let errors =
        may_populate_ad_server_visible_errors services.is_currency_code request.config
          request.client_type request.auction_scope services.seller_origin_domain r.errors in
      let errors' =
        if have_errors client_visible errors
        then errors
        else validate_protected_auction_input r.decoded.input r.decoded.buyer_inputs errors in
      let checked = record r {
        errors = errors';
        error_message = may_populate_client_visible_errors errors';
      } in
      elim (Bool-cases (have_errors ad_server_visible errors)) [
        | inl e ↦
            rw (execute_decoded, e)
              (inr (
                inr (
                  inr (
                    on_score_ads_done-IsEnded services request (value none)
                      (record r { errors = errors }) h.0))))
        | inr e ↦
            let some_buyers =
              buyer_list-needed services.is_currency_code request.config request.client_type
                request.auction_scope services.seller_origin_domain r.errors e in
            elim (Bool-cases (has_errors errors')) [
              | inl e' ↦
                  rw (execute_decoded, e, e')
                    (inr (
                      inr (
                        inr (on_score_ads_done-IsEnded services request (value none) checked h.0))))
              | inr e' ↦ rw (execute_decoded, e, e') (begin_loop-Lasts checked h some_buyers)
            ]
      ]

  constructed-IsFresh :
      (decoded : Decoded) (errors : ErrorAccumulator)
      → IsFresh (record (constructed services request) { decoded = decoded; errors = errors })
  unfolding constructed tracking
  constructed-IsFresh decoded errors = ((refl, refl, refl, refl), refl, refl)

  executed :
      (result : StatusOr Decoded)
      → Lasts services request (6 * length request.config.buyer_list) (elim result [
        | failure status ↦ finish status.code status.message (constructed services request)
        | value decoded ↦ execute_decoded services request (record (constructed services request) {
          decoded = decoded;
          errors = report_decode_errors decoded.decode_errors [];
        })
      ])
  executed (failure status) =
      let fresh =
        constructed-IsFresh (constructed services request).decoded
          (constructed services request).errors in
      inr (inr (inr (finish-IsEnded services _ _ (constructed services request) fresh.0)))
  executed (value decoded) =
      let errors = report_decode_errors decoded.decode_errors [] in
      execute_decoded-Lasts
        (record (constructed services request) { decoded = decoded; errors = errors })
        (constructed-IsFresh decoded errors)

  execute_request-Lasts :
      Lasts services request
        (6 * length request.config.buyer_list)
        (execute_request services request)
  unfolding execute_request
  execute_request-Lasts = executed (decrypt_request services request)

  -- A run of the reactor from `Execute` on has at most six steps for each buyer on the list.
  pub Run-bounded :
      {n : ℕ} (r : SelectAdReactor W)
      → Run services request n (execute_request services request) r
      → n ≤ 6 * length request.config.buyer_list
  Run-bounded r run =
      let (j, m, l) = Run-Lasts services request _ execute_request-Lasts run in omega (arith, m)

  Lasts-once :
      (k : ℕ) (r : SelectAdReactor W) → Lasts services request k r → (r.finished ≡ []) ⊎ IsDone r
  Lasts-once k r (inl (n, v, (p, q, l, i, o, h), m)) = inl o
  Lasts-once k r (inr (inl (h, m))) = inl h.3
  Lasts-once k r (inr (inr (inl (h, m)))) = inl h.3
  Lasts-once k r (inr (inr (inr (a, b, c, inl (status, e))))) = inr (a, b, c, status, e)
  Lasts-once k r (inr (inr (inr (a, b, c, inr (o, high_score, message, e))))) = inl o

  -- In a run of the reactor the RPC is finished at most once, and once it is finished no buyer is
  -- left to ask and no response is awaited.
  pub Run-finishes_once :
      {n : ℕ} (r : SelectAdReactor W)
      → Run services request n (execute_request services request) r
      → (r.finished ≡ []) ⊎ IsDone r
  Run-finishes_once r run =
      let (j, m, l) = Run-Lasts services request _ execute_request-Lasts run in Lasts-once j r l

  -- No step continues a finished reactor.
  pub done_stops : {r r' : SelectAdReactor W} → IsDone r → ¬ Step services request r r'
  done_stops (a, b, c, status, d) (buyer_visited r buyer later is_cancelled e) =
      not_both r.to_visit a e
  done_stops (a, b, c, status, d) (bids_fetched r front buyer back response is_cancelled e) =
      not_both_ends front r.called buyer back b e
  done_stops (a, b, c, status, d) (signals_fetched r result e) = ground arith
  done_stops (a, b, c, status, d) (ads_scored r response e) = ground arith
