-- ===== src/SelectAd/Solicit/Asked.antt =====
-- Which buyers are asked for bids: at most so many, none twice, and only those that have a client
-- and a decoded input.
use bas_dev.Common.{
  ℕ, suc, ◌+◌, ◌≤◌, ◌≡◌, refl, true, false, not, ◌&&◌, String, List, [], ◌∷◌, some, ◌==◌, string_eq,
  string_eq_iff, lookup, contains, IsMap, All, All-map, filter, length, arith, Bool-cases,
  Option-cases, inl, inr,
}
use bas_dev.Common.Int.{pos, pos_part, leb_ℤ}
use bas_dev.TaskTracker.{TaskStatus}
use bas_dev.SelectAd.Messages.{BuyerInput, GetBidsRawRequest}
use bas_dev.SelectAd.Services.{Request, Services, Decoded}
use bas_dev.SelectAd.Solicit.{
  member, Soliciting, TaskOutcome, completed, awaited, get_bids_request, fetch_bid, visit, solicit,
  not_yet,
}

member-filter :
    (x k : String) (names : List String)
    → member x (filter (λ b. not (b == k)) names) ≡ (not (x == k) && member x names)
member-filter x k [] = ground arith
member-filter x k (n ∷ names) =
    ground (arith, member-filter x k names, string_eq_iff n x, string_eq_iff n k, string_eq_iff x k)

contains-absent :
    {V : Type 0} (buyer : String) (names : List String) (m : List (String × V))
    → member buyer names ≡ true
    → All (λ e. member e.0 names ≡ false) m
    → contains buyer m ≡ false
unfolding lookup
contains-absent buyer names [] h k = refl
contains-absent buyer names ((b, v) ∷ m) h (k, ks) =
    ground (arith, string_eq_iff b buyer, contains-absent buyer names m h ks)

module _ {W : Type 0} (services : Services W) (request : Request) (decoded : Decoded) where
  -- A call that the reactor may have made.
  abbrev pub IsDue : String × GetBidsRawRequest → Type 0
  IsDue (buyer, get_bids) =
      (services.has_buyer_client buyer ≡ true)
      × (input : BuyerInput) × (lookup buyer decoded.buyer_inputs ≡ some input)
      × (get_bids ≡ get_bids_request services request decoded buyer input)

  pub record IsWithin (s : Soliciting) : Type 0 where
    pub counted : length s.sent ≤ s.num_buyers_solicited
    pub bounded : s.num_buyers_solicited ≤ pos_part services.max_buyers_solicited
    pub distinct : IsMap s.sent
    pub erased : All (λ e. member e.0 s.buyer_set ≡ false) s.sent
    pub due : All IsDue s.sent

  abbrev pub tasks : TaskOutcome → ℕ
  tasks (completed _) = 1
  tasks awaited = 0

  -- The states that a turn on a buyer leads to.
  abbrev after_erase : String → Soliciting → Soliciting
  after_erase buyer s = record s { buyer_set = filter (λ b. not (b == buyer)) s.buyer_set }

  abbrev after_call : String → List (String × GetBidsRawRequest) → Soliciting → Soliciting
  after_call buyer sent s = record (after_erase buyer s) {
    num_buyers_solicited = suc s.num_buyers_solicited;
    sent = sent;
  }

  still_erased :
      (buyer : String) (s : Soliciting)
      → IsWithin s
      → All (λ e. member e.0 (after_erase buyer s).buyer_set ≡ false) s.sent
  still_erased buyer s h =
      All-map _ _ (λ e gone. ground (arith, member-filter e.0 buyer s.buyer_set)) s.sent h.erased

  erase-IsWithin : (buyer : String) (s : Soliciting) → IsWithin s → IsWithin (after_erase buyer s)
  erase-IsWithin buyer s h = record {
    counted = h.counted;
    bounded = h.bounded;
    distinct = h.distinct;
    erased = still_erased buyer s h;
    due = h.due;
  }

  abbrev IsFree : Soliciting → Type 0
  IsFree s = leb_ℤ services.max_buyers_solicited (pos s.num_buyers_solicited) ≡ false

  free-IsWithin :
      (buyer : String) (s : Soliciting)
      → IsFree s
      → IsWithin s
      → IsWithin (after_call buyer s.sent s)
  free-IsWithin buyer s free h = record {
    counted = omega (arith, h.counted);
    bounded = ground (arith, free);
    distinct = h.distinct;
    erased = still_erased buyer s h;
    due = h.due;
  }

  call-IsWithin :
      (buyer : String) (get_bids : GetBidsRawRequest) (s : Soliciting)
      → IsFree s
      → member buyer s.buyer_set ≡ true
      → IsDue (buyer, get_bids)
      → IsWithin s
      → IsWithin (after_call buyer ((buyer, get_bids) ∷ s.sent) s)
  call-IsWithin buyer get_bids s free first due h = record {
    counted = omega (arith, h.counted);
    bounded = ground (arith, free);
    distinct = (contains-absent buyer s.buyer_set s.sent first h.erased, h.distinct);
    erased = (
      ground (arith, member-filter buyer buyer s.buyer_set, string_eq_iff buyer buyer),
      still_erased buyer s h,
    );
    due = (due, h.due);
  }

  -- A turn completes a task or makes a call, and keeps the bounds.
  abbrev VisitIsWithin : Soliciting → TaskOutcome × Soliciting → Type 0
  VisitIsWithin s (outcome, s') =
      IsWithin s' × (tasks outcome + length s'.sent ≡ suc (length s.sent))

  visit-IsWithin :
      (buyer : String) (s : Soliciting)
      → IsWithin s
      → VisitIsWithin s (visit services request decoded buyer s)
  unfolding visit fetch_bid
  visit-IsWithin buyer s h = elim (Bool-cases (member buyer s.buyer_set)) [
    | inr repeated ↦ rw (visit, repeated) (h, omega arith)
    | inl first ↦
        elim (Bool-cases (leb_ℤ services.max_buyers_solicited (pos s.num_buyers_solicited))) [
          | inl full ↦ rw (visit, first, full) (erase-IsWithin buyer s h, omega arith)
          | inr free ↦ elim (Option-cases (lookup buyer decoded.buyer_inputs)) [
            | inl absent ↦ rw (visit, first, free, absent) (erase-IsWithin buyer s h, omega arith)
            | inr (input, found) ↦ elim (Bool-cases (services.has_buyer_client buyer)) [
              | inr no_client ↦
                  rw (visit, first, free, found, fetch_bid, no_client)
                    (free-IsWithin buyer s free h, omega arith)
              | inl client ↦
                  let get_bids = get_bids_request services request decoded buyer input in
                  elim (Bool-cases (services.call_buyer buyer get_bids)) [
                    | inr refused ↦
                        rw (visit, first, free, found, fetch_bid, client, refused)
                          (free-IsWithin buyer s free h, omega arith)
                    | inl accepted ↦
                        rw (visit, first, free, found, fetch_bid, client, accepted)
                          (
                            call-IsWithin buyer get_bids s free first (client, input, found, refl)
                                h,
                            omega arith,
                          )
                  ]
            ]
          ]
        ]
  ]

  abbrev SolicitIsWithin : List String → Soliciting → List TaskStatus × Soliciting → Type 0
  SolicitIsWithin buyers s (statuses, s') =
      IsWithin s' × (length statuses + length s'.sent ≡ length buyers + length s.sent)

  solicit-IsWithin :
      (buyers : List String) (s : Soliciting)
      → IsWithin s
      → SolicitIsWithin buyers s (solicit services request decoded buyers s)
  unfolding solicit
  solicit-IsWithin [] s h = (h, refl)
  solicit-IsWithin (buyer ∷ buyers) s h =
      let first = visit-IsWithin buyer s h in
      let s' = (visit services request decoded buyer s).1 in
      let later = solicit-IsWithin buyers s' first.0 in
      after (visit services request decoded buyer s).0 first.1 later
    where
      after :
          (outcome : TaskOutcome)
          → tasks outcome + length (visit services request decoded buyer s).1.sent
            ≡ suc (length s.sent)
          → SolicitIsWithin buyers
              (visit services request decoded buyer s).1
              (solicit services request decoded buyers (visit services request decoded buyer s).1)
          → SolicitIsWithin (buyer ∷ buyers) s (elim outcome [
            | completed status ↦ (
              status
                  ∷ (solicit services request decoded buyers
                      (visit services request decoded buyer s).1).0,
              (solicit services request decoded buyers
                  (visit services request decoded buyer s).1).1,
            )
            | awaited ↦
                solicit services request decoded buyers (visit services request decoded buyer s).1
          ])
      after (completed status) e (k, f) = (k, omega arith)
      after awaited e (k, f) = (k, omega arith)

  -- The loop over the buyers completes a task at once, or sends a request, for each entry of the
  -- list of buyers. It sends at most as many requests as buyers may be solicited, none twice to the
  -- same buyer, and each to a buyer that has a client and a decoded input, from which it is built.
  pub solicit-bounded :
      let (statuses, s) =
        solicit services request decoded request.config.buyer_list
          (not_yet services request decoded) in
      (length statuses + length s.sent ≡ length request.config.buyer_list)
      × (length s.sent ≤ pos_part services.max_buyers_solicited)
      × IsMap s.sent
      × All IsDue s.sent
  solicit-bounded =
      let start : IsWithin (not_yet services request decoded) = record {
        counted = omega arith;
        bounded = omega arith;
        distinct = tt;
        erased = tt;
        due = tt;
      } in
      let (h, e) =
        solicit-IsWithin request.config.buyer_list (not_yet services request decoded) start in
      (omega arith, omega (arith, h.counted, h.bounded), h.distinct, h.due)
