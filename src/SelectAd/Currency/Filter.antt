-- ===== src/SelectAd/Currency/Filter.antt =====
-- What the loop that filters the bids of one buyer in place leaves.
use mathlib.Core.List.{Perm}
use mathlib.Core.List.Perm
use bas_dev.SelectAd.Currency.{swap_elements, is_mismatch, swap_loop, filter_helper}
use bas_dev.Common.{
  filter, filter-append, ◌<◌, ℕ, zero, suc, ◌+◌, ◌-◌, ◌≤◌, ◌≡◌, ◌⊎◌, inl, inr, refl, sym, ap, ◌∙◌,
  subst, Bool, true, false, not, String, List, [], ◌∷◌, ◌++◌, some, ltb, length, get_elem?,
  if◌then◌else◌, arith, Bool-cases, append-nil, append_assoc, length-append,
}
use bas_dev.SelectAd.Currency.Swaps.{
  last_of, last-first, get-middle, swap-ends, swap-same, delete-rest,
}

module _ {ℓ} {T : Type ℓ} (bid_currency : T → String) (buyer_currency : String) where
  -- A bid passes when it names no currency or the one that the buyer is configured with.
  abbrev pub keeps : T → Bool
  keeps ad = not (is_mismatch bid_currency buyer_currency ad)

  -- One turn of the loop.
  loop_step :
      (fuel i r : ℕ) (ads : List T) (ad : T) (mismatch : Bool)
      → i < r
      → get_elem? ads i ≡ some ad
      → is_mismatch bid_currency buyer_currency ad ≡ mismatch
      → swap_loop bid_currency buyer_currency (suc fuel) i r ads ≡ (
          if mismatch
          then swap_loop bid_currency buyer_currency fuel i (r - 1) (swap_elements i (r - 1) ads)
          else swap_loop bid_currency buyer_currency fuel (suc i) r ads)
  unfolding swap_loop
  loop_step fuel i r ads ad mismatch less found e =
      let test : ltb i r ≡ true = ground arith in
      elim (Bool-cases mismatch) [
        | inl b ↦ rw (swap_loop, test, found, e, b)
        | inr b ↦ rw (swap_loop, test, found, e, b)
      ]

  loop_end :
      (fuel i r : ℕ) (ads : List T)
      → i ≡ r
      → swap_loop bid_currency buyer_currency fuel i r ads ≡ some (r, ads)
  unfolding swap_loop
  loop_end zero i r ads e = let test : ltb i r ≡ false = ground arith in rw (swap_loop, test)
  loop_end (suc fuel) i r ads e = let test : ltb i r ≡ false = ground arith in rw (swap_loop, test)

  loop_at :
      (fuel : ℕ) {i i' r r' : ℕ} {ads ads' : List T}
      → i ≡ i'
      → r ≡ r'
      → ads ≡ ads'
      → swap_loop bid_currency buyer_currency fuel i r ads
        ≡ swap_loop bid_currency buyer_currency fuel i' r' ads'
  loop_at fuel e f g = cc

  filter_step :
      (ad : T) (ads : List T) (kept : Bool)
      → keeps ad ≡ kept
      → filter keeps (ad ∷ ads) ≡ (if kept then ad ∷ filter keeps ads else filter keeps ads)
  filter_step ad ads kept e = rw e

  filter-last :
      (front : List T) (ad : T)
      → Perm (filter keeps (ad ∷ front)) (filter keeps (front ++ (ad ∷ [])))
  filter-last front ad =
      rw (filter-append keeps front (ad ∷ [])) (one (filter keeps front) (Bool-cases (keeps ad)))
    where
      one :
          (l : List T)
          → (keeps ad ≡ true) ⊎ (keeps ad ≡ false)
          → Perm (if keeps ad then ad ∷ l else l) (l ++ (if keeps ad then ad ∷ [] else []))
      one l (inl e) = rw e (Perm.symm (last-first l ad))
      one l (inr e) = rw e (subst (Perm l) (sym (append-nil l)) (Perm.refl l))

  -- A turn that moves a bid out: what is still to check.
  abbrev MovesOut : ℕ → List T → T → List T → List T → Type ℓ
  MovesOut fuel done ad bad rest =
      (todo : List T) × (length todo ≡ length rest)
      × (swap_loop bid_currency buyer_currency (suc fuel) (length done)
            (length done + suc (length rest)) (done ++ (ad ∷ (rest ++ bad)))
          ≡ swap_loop bid_currency buyer_currency fuel (length done) (length done + length todo)
              (done ++ (todo ++ (ad ∷ bad))))
      × Perm (filter keeps todo) (filter keeps rest)

  moves_out :
      (fuel : ℕ) (done : List T) (ad : T) (bad rest : List T)
      → is_mismatch bid_currency buyer_currency ad ≡ true
      → MovesOut fuel done ad bad rest
  moves_out fuel done ad bad rest wrong = elim (last_of rest) [
    | inl e ↦ subst (MovesOut fuel done ad bad) (sym e) (
      [],
      refl,
      loop_step fuel (length done) (length done + suc (length {A = T} [])) _ ad true (omega arith)
            (get-middle done ad bad) wrong
          ∙ loop_at fuel refl (omega arith) (
              ap (λ j. swap_elements (length done) j (done ++ (ad ∷ bad))) (omega arith)
              ∙ swap-same done ad bad),
      Perm.refl [],
    )
    | inr (front, last, e) ↦ subst (MovesOut fuel done ad bad) (sym e) (
      last ∷ front,
      omega (arith, length-append front (last ∷ [])),
      loop_step fuel (length done) (length done + suc (length (front ++ (last ∷ []))))
            (done ++ (ad ∷ ((front ++ (last ∷ [])) ++ bad))) ad true (omega arith)
            (get-middle done ad _) wrong
          ∙ loop_at fuel refl (omega (arith, length-append front (last ∷ []))) (
              ap
                (λ l.
                  swap_elements (length done)
                    (length done + suc (length (front ++ (last ∷ []))) - 1) (done ++ (ad ∷ l)))
                (append_assoc front (last ∷ []) bad)
              ∙ swap-ends done front ad last bad
                  (length done + suc (length (front ++ (last ∷ []))) - 1)
                  (omega (arith, length-append front (last ∷ [])))),
      filter-last front last,
    )
  ]

  -- The bids before `i` are kept, those from `remove_starting_at` on are to go.
  abbrev Finishes : ℕ → List T → List T → List T → Type ℓ
  Finishes fuel done todo bad =
      (kept : List T) × (gone : List T) × (swap_loop bid_currency buyer_currency fuel (length done)
          (length done + length todo) (done ++ (todo ++ bad))
        ≡ some (length kept, kept ++ gone))
      × Perm kept (done ++ filter keeps todo)

  loop-Finishes :
      (fuel : ℕ) (done todo bad : List T) → length todo ≤ fuel → Finishes fuel done todo bad
  loop-Finishes fuel done [] bad h = (
    done,
    bad,
    loop_end fuel (length done) (length done + length {A = T} []) (done ++ bad) (omega arith)
        ∙ ap (λ n. some (n, done ++ bad)) (omega arith),
    subst (Perm done) (sym (append-nil done)) (Perm.refl done),
  )
  loop-Finishes zero done (x ∷ rest) bad h = absurd (omega arith)
  loop-Finishes (suc fuel) done (x ∷ rest) bad h =
      elim (Bool-cases (is_mismatch bid_currency buyer_currency x)) [
        | inr good ↦
            let (kept, gone, e, p) = loop-Finishes fuel (done ++ x ∷ []) rest bad (omega arith) in
            let turn =
              loop_step fuel (length done) (length done + suc (length rest)) _ x false (omega arith)
                (get-middle done x (rest ++ bad)) good in
            (
              kept,
              gone,
              turn
                  ∙ loop_at fuel (omega (arith, length-append done (x ∷ [])))
                      (omega (arith, length-append done (x ∷ [])))
                      (sym (append_assoc done (x ∷ []) (rest ++ bad)))
                  ∙ e,
              subst (Perm kept)
                  (append_assoc done (x ∷ []) (filter keeps rest)
                    ∙ ap (done ++◌) (sym (filter_step x rest true (ap not good))))
                  p,
            )
        | inl wrong ↦
            let (todo, n, turn, q) = moves_out fuel done x bad rest wrong in
            let (kept, gone, e, p) = loop-Finishes fuel done todo (x ∷ bad) (omega arith) in
            (
              kept,
              gone,
              turn ∙ e,
              Perm.trans p (
                  subst (λ l. Perm (done ++ filter keeps todo) (done ++ l))
                    (sym (filter_step x rest false (ap not wrong))) (Perm.append_left done q)),
            )
      ]

  -- The helper returns, for any bids, those that name no currency or the buyer's one, each as often
  -- as before, in some order.
  pub filter_helper-Perm :
      (ads : List T)
      → (kept : List T) × (filter_helper bid_currency buyer_currency ads ≡ some kept)
        × Perm kept (filter keeps ads)
  unfolding filter_helper
  filter_helper-Perm ads =
      let (kept, gone, e, p) = loop-Finishes (length ads) [] ads [] (omega arith) in
      let run : swap_loop bid_currency buyer_currency (length ads) 0 (length ads) ads
          ≡ some (length kept, kept ++ gone) =
        loop_at (length ads) refl (omega arith) (sym (append-nil ads)) ∙ e in
      (kept, rw (filter_helper, run) (delete-rest kept gone (length (kept ++ gone)) refl), p)
