-- ===== src/GetBids/Called.antt =====
-- The last call of Execute, which has the bids for protected app signals generated, if there are such
-- signals.
use bas_dev.Common.{
  ℕ, suc, ◌≡◌, inl, inr, refl, Bool, true, false, ◌&&◌, some, nat_eq, if◌then◌else◌, arith,
  Bool-cases, Option-cases,
}
use bas_dev.TaskTracker.{error}
use bas_dev.SelectAd.Messages.{GetBidsRawRequest}
use bas_dev.GetBids.{
  BuyerServices, GetBidsReactor, signals_calls, has_signals, push_error,
  may_get_protected_signals_bids,
}
use bas_dev.GetBids.Requests.{create_generate_app_signals_bids_raw_request}
use bas_dev.GetBids.Tasks.{IsAnswerable, rank, IsWaiting, IsOver, completed-GoodWithin}
use bas_dev.GetBids.Tasks.{Progress}

module _ {W : Type 0} (services : BuyerServices W) where
  skipped_calls :
      (raw_request : GetBidsRawRequest)
      → IsAnswerable services raw_request
      → (services.is_protected_app_signals_enabled && has_signals services raw_request) ≡ false
      → signals_calls services raw_request ≡ 0
  skipped_calls raw_request answerable skip = ground arith

  asked_calls :
      (raw_request : GetBidsRawRequest)
      → (services.is_protected_app_signals_enabled && has_signals services raw_request) ≡ true
      → signals_calls services raw_request ≡ 1
  asked_calls raw_request ask = ground arith

  pub waiting-Progress :
      (is_cancelled : Bool) (r : GetBidsReactor W)
      → r.signals_due ≡ true
      → (n : ℕ) → IsWaiting services (suc n) r
      → Progress services
          (rank services r)
          (may_get_protected_signals_bids services is_cancelled (record r { signals_due = false }))
  unfolding may_get_protected_signals_bids
  waiting-Progress is_cancelled r due n h =
      let calls = signals_calls services r.raw_request in
      let due_tasks : (if r.signals_due then calls else 0) ≡ calls = rw due refl in
      let due_rank : if◌then◌else◌ {A = ℕ} r.signals_due 2 0 ≡ 2 = rw due refl in
      let not_both = h.not_both in
      let free : r.app_awaited ≡ false = ground arith in
      let free_tasks : if◌then◌else◌ {A = ℕ} r.app_awaited 1 0 ≡ 0 = rw free refl in
      let called = record r { signals_due = false } in
      elim (Bool-cases
        (services.is_protected_app_signals_enabled && has_signals services r.raw_request)) [
          | inr skip ↦
              let none_there = skipped_calls r.raw_request h.answerable skip in
              rw (may_get_protected_signals_bids, skip)
                (
                  rank services called,
                  omega (arith, due_rank),
                  (
                    inl (
                      n,
                      record {
                        pending = h.pending;
                        tasks = omega (arith, h.tasks);
                        open_still = h.open_still;
                        not_both = refl;
                        answerable = h.answerable;
                      },
                    ),
                    omega arith,
                  ),
                )
          | inl ask ↦
              let one = asked_calls r.raw_request ask in
              elim (Option-cases (
                services.call_app_bidding
                  (create_generate_app_signals_bids_raw_request r.raw_request))) [
                    | inl accepted ↦
                        rw (may_get_protected_signals_bids, ask, accepted)
                          (
                            suc (rank services called),
                            omega (arith, due_rank, free_tasks),
                            (
                              inl (
                                n,
                                record {
                                  pending = h.pending;
                                  tasks = omega (arith, h.tasks, free_tasks);
                                  open_still = h.open_still;
                                  not_both = refl;
                                  answerable = h.answerable;
                                },
                              ),
                              omega (arith, free_tasks),
                            ),
                          )
                    | inr (message, refused) ↦
                        rw (may_get_protected_signals_bids, ask, refused)
                          (
                            rank services called,
                            omega (arith, due_rank),
                            completed-GoodWithin services error (some (push_error services message))
                                is_cancelled n called
                                (record {
                                  pending = h.pending;
                                  tasks = omega (arith, h.tasks);
                                  open_still = h.open_still;
                                  not_both = refl;
                                  answerable = h.answerable;
                                }),
                          )
                  ]
        ]

  pub over-Progress :
      (is_cancelled : Bool) (r : GetBidsReactor W)
      → r.signals_due ≡ true
      → IsOver services r
      → Progress services
          (rank services r)
          (may_get_protected_signals_bids services is_cancelled (record r { signals_due = false }))
  unfolding may_get_protected_signals_bids
  over-Progress is_cancelled r due h =
      let calls = signals_calls services r.raw_request in
      let due_tasks : (if r.signals_due then calls else 0) ≡ calls = rw due refl in
      let due_rank : if◌then◌else◌ {A = ℕ} r.signals_due 2 0 ≡ 2 = rw due refl in
      let called = record r { signals_due = false } in
      elim (Bool-cases
        (services.is_protected_app_signals_enabled && has_signals services r.raw_request)) [
          | inl ask ↦ let one = asked_calls r.raw_request ask in absurd (omega (arith, h.no_tasks))
          | inr skip ↦
              rw (may_get_protected_signals_bids, skip)
                (
                  rank services called,
                  omega (arith, due_rank),
                  (
                    inr (record {
                      no_tasks = omega (arith, h.no_tasks);
                      status = h.status;
                      finishes = h.finishes;
                      answerable = h.answerable;
                    }),
                    omega arith,
                  ),
                )
        ]
