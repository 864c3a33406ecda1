-- ===== src/SelectAd/Reactor/Bounds.antt =====
-- How many steps each phase of the reactor lasts.
use bas_dev.Common.{
  length-append, ℕ, suc, ◌+◌, ◌*◌, ◌≤◌, ◌≡◌, ◌⊎◌, inl, inr, refl, sym, ap, ◌∙◌, subst, Bool, String,
  List, [], ◌∷◌, ◌++◌, Option, length, arith,
}
use bas_dev.Common.Float.{Float}
use bas_dev.SelectAd.Services.{StatusOr, Request, Services}
use bas_dev.SelectAd.Reactor.{
  AdScore, GetBidsRawResponse, SelectAdReactor, idle, for_signals, for_scores, visit_buyer,
  on_fetch_bids_done, on_fetch_scoring_signals_done, on_score_ads_done,
}
use bas_dev.SelectAd.Reactor.Steps.{
  Step, buyer_visited, bids_fetched, signals_fetched, ads_scored, Run, started, then_step,
}
use bas_dev.SelectAd.Reactor.Phases.{
  IsEnded, IsOpen, IsAfter, on_score_ads_done-IsEnded, on_fetch_scoring_signals_done-IsAfter,
}
use bas_dev.SelectAd.Reactor.Bidding.{
  IsBidding, IsNext, IsCompleting, on_fetch_bids_done-IsNext, visit_buyer-IsNext,
}

pub not_both : (xs : List String) {x : String} {ys : List String} → xs ≡ [] → xs ≡ x ∷ ys → ⊥
not_both xs e h = cc

pub not_both_ends :
    (front xs : List String) (x : String) (ys : List String) → xs ≡ [] → xs ≡ front ++ (x ∷ ys) → ⊥
not_both_ends [] xs x ys e h = cc
not_both_ends (y ∷ front) xs x ys e h = cc

module _ {W : Type 0} ⦃f : Float W⦄ (services : Services W) (request : Request) where
  -- The reactor is in a phase that lasts at most so many steps.
  abbrev pub Lasts : ℕ → SelectAdReactor W → Type 0
  Lasts k r =
      ((n : ℕ) × (v : ℕ) × IsBidding services request (suc n) v r × (3 * (suc n + v) ≤ k))
      ⊎ ((IsOpen for_signals r × (2 ≤ k)) ⊎ ((IsOpen for_scores r × (1 ≤ k)) ⊎ IsEnded services r))

  -- A step takes one off the bound.
  abbrev StepLasts : ℕ → SelectAdReactor W → Type 0
  StepLasts k r = (j : ℕ) × (suc j ≤ k) × Lasts j r

  next-Lasts :
      (n v k : ℕ) (r : SelectAdReactor W)
      → 3 * (suc n + v) ≤ k
      → IsNext services request n v r
      → StepLasts k r
  next-Lasts n v k r h (inl (m, e, b)) = (
    3 * (n + v),
    omega arith,
    inl (m, v, subst (λ x. IsBidding services request x v r) e b, omega (arith, e)),
  )
  next-Lasts n v k r h (inr (inl done)) = (0, omega arith, inr (inr (inr done)))
  next-Lasts n v k r h (inr (inr waits)) = (2, omega arith, inr (inl (waits, omega arith)))

  scoring-Lasts :
      (k : ℕ) (r : SelectAdReactor W) → 2 ≤ k → IsAfter services for_scores r → StepLasts k r
  scoring-Lasts k r h (inl done) = (0, omega arith, inr (inr (inr done)))
  scoring-Lasts k r h (inr waits) = (1, omega arith, inr (inr (inl (waits, omega arith))))

  visited-Lasts :
      (k : ℕ) (r : SelectAdReactor W) (buyer : String) (later : List String) (is_cancelled : Bool)
      → r.to_visit ≡ buyer ∷ later
      → Lasts k r
      → StepLasts k
          (visit_buyer services request buyer is_cancelled (record r { to_visit = later }))
  visited-Lasts k r buyer later is_cancelled e (inl (n, v, (p, q, l, i, o, b), m)) =
      let taken = record r { to_visit = later } in
      let w = length later in
      let size : suc w ≡ v = sym (ap length e) ∙ l in
      let completing : IsCompleting services request n w taken = (p, omega arith, refl, i, o, b) in
      elim (visit_buyer-IsNext services request buyer is_cancelled n w taken completing) [
        | inl next ↦
            next-Lasts n w k (visit_buyer services request buyer is_cancelled taken) (omega arith)
              next
        | inr bidding ↦ (3 * (suc n + w), omega arith, inl (n, w, bidding, omega arith))
      ]
  visited-Lasts k r buyer later is_cancelled e (inr (inl (h, _))) =
      absurd (not_both r.to_visit h.0 e)
  visited-Lasts k r buyer later is_cancelled e (inr (inr (inl (h, _)))) =
      absurd (not_both r.to_visit h.0 e)
  visited-Lasts k r buyer later is_cancelled e (inr (inr (inr h))) =
      absurd (not_both r.to_visit h.0 e)

  fetched-Lasts :
      (k : ℕ) (r : SelectAdReactor W) (front : List String) (buyer : String) (back : List String)
      (response : StatusOr (GetBidsRawResponse W)) (is_cancelled : Bool)
      → r.called ≡ front ++ (buyer ∷ back)
      → Lasts k r
      → StepLasts k (
          on_fetch_bids_done services request response buyer is_cancelled
            (record r { called = front ++ back }))
  fetched-Lasts k r front buyer back response is_cancelled e (inl (n, v, (p, q, l, i, o, b), m)) =
      let taken = record r { called = front ++ back } in
      let size : length r.called ≡ suc (length (front ++ back)) =
        ap length e ∙ omega (arith, length-append front (buyer ∷ back), length-append front back) in
      let completing : IsCompleting services request n v taken = (p, omega arith, l, i, o, b) in
      next-Lasts n v k (on_fetch_bids_done services request response buyer is_cancelled taken) m (
        on_fetch_bids_done-IsNext services request response buyer is_cancelled n v taken completing)
  fetched-Lasts k r front buyer back response is_cancelled e (inr (inl (h, _))) =
      absurd (not_both_ends front r.called buyer back h.1 e)
  fetched-Lasts k r front buyer back response is_cancelled e (inr (inr (inl (h, _)))) =
      absurd (not_both_ends front r.called buyer back h.1 e)
  fetched-Lasts k r front buyer back response is_cancelled e (inr (inr (inr h))) =
      absurd (not_both_ends front r.called buyer back h.1 e)

  signals-Lasts :
      (k : ℕ) (r : SelectAdReactor W) (result : StatusOr String)
      → r.waiting ≡ for_signals
      → Lasts k r
      → StepLasts k
          (on_fetch_scoring_signals_done services request result (record r { waiting = idle }))
  signals-Lasts k r result e (inl (n, v, (p, q, l, i, o, h), m)) = absurd (ground arith)
  signals-Lasts k r result e (inr (inl (h, m))) =
      let heard = record r { waiting = idle } in
      scoring-Lasts k (on_fetch_scoring_signals_done services request result heard) m
        (on_fetch_scoring_signals_done-IsAfter services request result heard (h.0, h.1, refl, h.3))
  signals-Lasts k r result e (inr (inr (inl ((a, b, c, d), m)))) = absurd (ground arith)
  signals-Lasts k r result e (inr (inr (inr (a, b, c, d)))) = absurd (ground arith)

  scores-Lasts :
      (k : ℕ) (r : SelectAdReactor W) (response : StatusOr (Option (AdScore W)))
      → r.waiting ≡ for_scores
      → Lasts k r
      → StepLasts k (on_score_ads_done services request response (record r { waiting = idle }))
  scores-Lasts k r response e (inl (n, v, (p, q, l, i, o, h), m)) = absurd (ground arith)
  scores-Lasts k r response e (inr (inl ((a, b, c, d), m))) = absurd (ground arith)
  scores-Lasts k r response e (inr (inr (inl (h, m)))) =
      let heard = record r { waiting = idle } in
      let done = on_score_ads_done-IsEnded services request response heard (h.0, h.1, refl, h.3) in
      (0, omega arith, inr (inr (inr done)))
  scores-Lasts k r response e (inr (inr (inr (a, b, c, d)))) = absurd (ground arith)

  Step-Lasts :
      (k : ℕ) {r r' : SelectAdReactor W} → Lasts k r → Step services request r r' → StepLasts k r'
  Step-Lasts k h (buyer_visited r buyer later is_cancelled e) =
      visited-Lasts k r buyer later is_cancelled e h
  Step-Lasts k h (bids_fetched r front buyer back response is_cancelled e) =
      fetched-Lasts k r front buyer back response is_cancelled e h
  Step-Lasts k h (signals_fetched r result e) = signals-Lasts k r result e h
  Step-Lasts k h (ads_scored r response e) = scores-Lasts k r response e h

  pub Run-Lasts :
      (k : ℕ) {n : ℕ} {r r' : SelectAdReactor W}
      → Lasts k r
      → Run services request n r r'
      → (j : ℕ) × (n + j ≤ k) × Lasts j r'
  Run-Lasts k h (started r) = (k, omega arith, h)
  Run-Lasts k h (then_step run step) =
      let (j, m, l) = Run-Lasts k h run in
      let (i, m', l') = Step-Lasts j l step in (i, omega (arith, m, m'), l')
