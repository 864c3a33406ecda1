-- ===== src/SelectAd/Reactor/Bidding.antt =====
-- The phase in which tasks of buyers are pending: each task that completes leaves one less, and the
-- last one ends the phase.
use bas_dev.Common.{
  ℕ, zero, suc, ◌+◌, ◌≡◌, ◌⊎◌, inl, inr, refl, sym, ap, ◌∙◌, subst, Bool, true, false, not, String,
  List, [], ◌∷◌, Option, none, some, All, length, emplace, string_eq, if◌then◌else◌, arith,
  Bool-cases, ◌==◌,
}
use bas_dev.Common.Int.{pos}
use bas_dev.Common.Float.{Float}
use bas_dev.TaskTracker.Completion.{task_completed-pending, task_completed-call}
use bas_dev.TaskTracker.{
  TaskStatus, empty_response, error, success, Tracker, task_completed, predecessor, is_zero,
}
use bas_dev.SelectAd.Messages.{GetBidsRawResponse}
use bas_dev.SelectAd.Currency.{BuyerBids, empty, has_no_bids, erase_empty}
use bas_dev.SelectAd.Currency.Buyers.{HasBids, filter_bids-AllFiltered}
use bas_dev.SelectAd.Services.{StatusOr, value, failure, Request, Services}
use bas_dev.SelectAd.Solicit.{TaskOutcome, completed, awaited, visit}
use bas_dev.SelectAd.Reactor.{
  SelectAdReactor, idle, for_signals, on_all_bids_done, complete, on_fetch_bids_done, visit_buyer,
}
use bas_dev.SelectAd.Reactor.Phases.{IsClosed, IsAfter, finish-IsEnded, on_score_ads_done-IsEnded}

length-empty : {A : Type 0} (xs : List A) → length xs ≡ 0 → xs ≡ []
length-empty [] h = refl
length-empty (x ∷ xs) h = absurd (omega arith)

All-emplace :
    {V : Type 0} (P : String × V → Type 0) (k : String) (v : V) (m : List (String × V))
    → All P m
    → P (k, v)
    → All P (emplace k v m)
unfolding emplace
All-emplace P k v [] h new = (new, tt)
All-emplace P k v ((j, w) ∷ m) (h, hs) new = elim (Bool-cases (j == k)) [
  | inl e ↦ rw (emplace, e) (h, hs)
  | inr e ↦ rw (emplace, e) (h, All-emplace P k v m hs new)
]

module _ {W : Type 0} ⦃f : Float W⦄ (services : Services W) (request : Request) where
  -- Every buyer in the map of bids has some.
  abbrev pub AllHaveBids : BuyerBids W → Type 0
  AllHaveBids =
      All (HasBids services.is_protected_audience_enabled services.is_pas_enabled request.config)

  on_all_bids_done-IsAfter :
      (is_cancelled any : Bool) (r : SelectAdReactor W)
      → IsClosed r
      → AllHaveBids r.buyer_bids
      → IsAfter services for_signals (on_all_bids_done services request is_cancelled any r)
  unfolding on_all_bids_done
  on_all_bids_done-IsAfter true any r h bids = inl (finish-IsEnded services _ _ r h)
  on_all_bids_done-IsAfter false any r h bids = elim (Bool-cases (empty r.buyer_bids)) [
    | inl none_left ↦ elim (Bool-cases any) [
      | inl e ↦
          rw (on_all_bids_done, none_left, e)
            (inl (on_score_ads_done-IsEnded services request (value none) r h))
      | inr e ↦ rw (on_all_bids_done, none_left, e) (inl (finish-IsEnded services _ _ r h))
    ]
    | inr some_left ↦
        let pa = services.is_protected_audience_enabled in
        let pas = services.is_pas_enabled in
        let (after, e, p, q) = filter_bids-AllFiltered pa pas request.config r.buyer_bids bids in
        let filtered = record r { buyer_bids = erase_empty pa pas after } in
        elim (Bool-cases (not (empty (erase_empty pa pas after)))) [
          | inl valid ↦ rw (on_all_bids_done, some_left, e, valid) (inr (h.0, h.1, refl, h.3))
          | inr invalid ↦
              rw (on_all_bids_done, some_left, e, invalid)
                (inl (finish-IsEnded services _ _ filtered h))
        ]
  ]

  -- Some tasks are pending, as many as buyers are to be visited or have not answered.
  abbrev pub IsBidding : ℕ → ℕ → SelectAdReactor W → Type 0
  IsBidding n v r =
      (r.tracker.pending_tasks_count ≡ pos n)
      × (v + length r.called ≡ n)
      × (length r.to_visit ≡ v)
      × (r.waiting ≡ idle)
      × (r.finished ≡ [])
      × AllHaveBids r.buyer_bids

  -- A task of a buyer that is already taken off the buyers to visit and to answer.
  complete-IsNext :
      (status : TaskStatus) (g : Option (BuyerBids W → BuyerBids W)) (is_cancelled : Bool) (n v : ℕ)
      (r : SelectAdReactor W)
      → r.tracker.pending_tasks_count ≡ pos (suc n)
      → v + length r.called ≡ n
      → length r.to_visit ≡ v
      → r.waiting ≡ idle
      → r.finished ≡ []
      → AllHaveBids (task_completed status g (r.tracker, r.buyer_bids)).1
      → let r' = complete services request status g is_cancelled r in
        ((m : ℕ) × (n ≡ suc m) × IsBidding n v r') ⊎ IsAfter services for_signals r'
  unfolding complete predecessor
  complete-IsNext status g is_cancelled zero v r e k l idle_now unfinished bids =
      let (tracker, buyer_bids, call) = task_completed status g (r.tracker, r.buyer_bids) in
      let r' = record r { tracker = tracker; buyer_bids = buyer_bids } in
      let (any, fired) = task_completed-call g r.tracker r.buyer_bids status in
      let last : is_zero (predecessor r.tracker.pending_tasks_count) ≡ true = rw e refl in
      let fires : (task_completed status g (r.tracker, r.buyer_bids)).2 ≡ some any =
        fired ∙ ap (λ b. if b then some any else none) last in
      let closed : IsClosed r' = (
        length-empty r.to_visit (omega arith),
        length-empty r.called (omega arith),
        idle_now,
        unfinished,
      ) in
      inr (rw (complete, fires) (on_all_bids_done-IsAfter is_cancelled any r' closed bids))
  complete-IsNext status g is_cancelled (suc m) v r e k l idle_now unfinished bids =
      let (any, fired) = task_completed-call g r.tracker r.buyer_bids status in
      let more : is_zero (predecessor r.tracker.pending_tasks_count) ≡ false =
        rw e (ground arith) in
      let silent : (task_completed status g (r.tracker, r.buyer_bids)).2 ≡ none =
        fired ∙ ap (λ b. if b then some any else none) more in
      let pending = task_completed-pending g r.tracker r.buyer_bids status ∙ ap predecessor e in
      inl (m, refl, rw (complete, silent) (pending, k, l, idle_now, unfinished, bids))

  -- After the step of one buyer fewer tasks are pending, or the phase is over.
  abbrev pub IsNext : ℕ → ℕ → SelectAdReactor W → Type 0
  IsNext n v r = ((m : ℕ) × (n ≡ suc m) × IsBidding n v r) ⊎ IsAfter services for_signals r

  -- One task is taken off the buyers to visit or to answer, and is about to complete.
  abbrev pub IsCompleting : ℕ → ℕ → SelectAdReactor W → Type 0
  IsCompleting n v r =
      (r.tracker.pending_tasks_count ≡ pos (suc n))
      × (v + length r.called ≡ n)
      × (length r.to_visit ≡ v)
      × (r.waiting ≡ idle)
      × (r.finished ≡ [])
      × AllHaveBids r.buyer_bids

  task_keeps :
      (status : TaskStatus) (t : Tracker) (bids : BuyerBids W)
      → (task_completed status none (t, bids)).1 ≡ bids
  unfolding task_completed
  task_keeps success t bids = refl
  task_keeps _ t bids = refl

  task_applies :
      (g : BuyerBids W → BuyerBids W) (t : Tracker) (bids : BuyerBids W)
      → (task_completed success (some g) (t, bids)).1 ≡ g bids
  unfolding task_completed
  task_applies g t bids = refl

  without_bids :
      (status : TaskStatus) (is_cancelled : Bool) (n v : ℕ) (r : SelectAdReactor W)
      → IsCompleting n v r
      → IsNext n v (complete services request status none is_cancelled r)
  without_bids status is_cancelled n v r (e, k, l, i, o, bids) =
      complete-IsNext status none is_cancelled n v r e k l i o
        (subst AllHaveBids (sym (task_keeps status r.tracker r.buyer_bids)) bids)

  with_bids :
      (buyer : String) (found : GetBidsRawResponse W) (is_cancelled : Bool) (n v : ℕ)
      (r : SelectAdReactor W)
      → has_no_bids services.is_protected_audience_enabled services.is_pas_enabled found ≡ false
      → IsCompleting n v r
      → IsNext n v (complete services request success (some (emplace buyer found)) is_cancelled r)
  with_bids buyer found is_cancelled n v r some_bids (e, k, l, i, o, bids) =
      complete-IsNext success (some (emplace buyer found)) is_cancelled n v r e k l i o (
        subst AllHaveBids (sym (task_applies (emplace buyer found) r.tracker r.buyer_bids))
          (All-emplace _ buyer found r.buyer_bids bids some_bids))

  pub on_fetch_bids_done-IsNext :
      (response : StatusOr (GetBidsRawResponse W)) (buyer : String) (is_cancelled : Bool) (n v : ℕ)
      (r : SelectAdReactor W)
      → IsCompleting n v r
      → IsNext n v (on_fetch_bids_done services request response buyer is_cancelled r)
  unfolding on_fetch_bids_done
  on_fetch_bids_done-IsNext (failure status) buyer is_cancelled n v r h =
      without_bids error is_cancelled n v r h
  on_fetch_bids_done-IsNext (value found) buyer is_cancelled n v r h =
      elim (Bool-cases
        (has_no_bids services.is_protected_audience_enabled services.is_pas_enabled found)) [
          | inl e ↦ rw (on_fetch_bids_done, e) (without_bids empty_response is_cancelled n v r h)
          | inr e ↦ rw (on_fetch_bids_done, e) (with_bids buyer found is_cancelled n v r e h)
        ]

  -- A turn of the loop leads on, or awaits the buyer's answer with as many tasks pending.
  pub visit_buyer-IsNext :
      (buyer : String) (is_cancelled : Bool) (n v : ℕ) (r : SelectAdReactor W)
      → IsCompleting n v r
      → let r' = visit_buyer services request buyer is_cancelled r in
        IsNext n v r' ⊎ IsBidding (suc n) v r'
  unfolding visit_buyer
  visit_buyer-IsNext buyer is_cancelled n v r h =
      let (outcome, soliciting) = visit services request r.decoded buyer r.soliciting in
      next outcome (record r { soliciting = soliciting }) h
    where
      next :
          (outcome : TaskOutcome) (r' : SelectAdReactor W)
          → IsCompleting n v r'
          → let after : SelectAdReactor W = elim outcome [
            | completed status ↦ complete services request status none is_cancelled r'
            | awaited ↦ record r' { called = buyer ∷ r'.called }
          ] in
            IsNext n v after ⊎ IsBidding (suc n) v after
      next (completed status) r' h = inl (without_bids status is_cancelled n v r' h)
      next awaited r' (e, k, l, i, o, bids) = inr (e, omega arith, l, i, o, bids)
