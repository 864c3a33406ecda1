-- ===== src/Lib.antt =====
-- Verification library for the Bidding and Auction services: seller frontend, buyer frontend,
-- auction service and the utilities that the services share.
--
-- How the parts interact. The seller frontend's reactor (SelectAd/Reactor) decrypts a
-- SelectAdRequest and checks it (SelectAd/Checks), gathering errors for the client and the ad
-- server in an ErrorAccumulator (Errors); a top-level auction's request is checked by Validation.
-- The scope of the auction is derived by Scope. The reactor asks the buyers for bids
-- (SelectAd/Solicit) with requests of their own (SelectAd/Requests) and waits for them with an
-- AsyncTaskTracker (TaskTracker), filters the bids by currency (SelectAd/Currency), fetches
-- signals, and has the ads scored by the auction service. A buyer's frontend (GetBids) answers a
-- request for bids with those that its bidding service generates, and waits for them with a task
-- tracker of its own. The auction service derives its own scope, makes a dispatch request of each
-- bid (Scoring/Requests), parses what the seller's scoreAd() returned (Scoring/Parse), and finds
-- the winner (Scoring/Handle, Scoring/Loop). It completes the winning score (Scoring/Others). Both
-- send debug reports (SelectAd/Reports, Scoring/Callback) with post-auction signals (Signals). Win
-- reports carry noised and bucketed inputs (Noiser).
--
-- Files and the code they model:
--   Common: Boolean tests, lists over the native numbers, signed integers; Common/Float is the
--     interface of floats that the services use, with the order of IEEE 754 as its laws
--   Api, Json: messages of api/bidding_auction_servers.proto and JSON values
--   Scope: services/common/util/auction_scope_util.cc
--   Errors: services/common/util/error_accumulator.cc; Errors/Reports has the proofs
--   TaskTracker: services/common/util/async_task_tracker.cc; Counts and Completion have the proofs
--   Signals: services/common/util/reporting_util.cc and post_auction_signals.h; Reasons and
--     Placeholders have the proofs
--   Validation: services/seller_frontend_service/util/validation_utils.cc; Checks, Acceptance,
--     Problems and Results have the proofs
--   Noiser: services/auction_service/reporting/noiser_and_bucketer.cc; Noiser/Rounding has
--     RoundStochasticallyToKBits; Buckets, Generator and Noise have the proofs
--   Scoring: services/auction_service/score_ads_reactor.cc and utils/proto_utils.cc. Parse has
--     ParseScoreAdResponse and what it calls, Handle HandleScoredAd, Loop FindWinningAd, Others
--     PopulateRelevantFieldsInResponse and PopulateHighestScoringOtherBidsData, Requests the
--     three functions that fill dispatch_requests_, Execution Execute, Callback ScoreAdsCallback and
--     PerformDebugReporting. Steps, Leading, Winner, Urls, Totals, Dispatched, Listed, Outcomes and
--     Ranges have the proofs
--   SelectAd: services/seller_frontend_service/select_ad_reactor.{h,cc} and, for the requests of an
--     app's reactor, select_ad_reactor_app.cc. Messages has its messages, Services what the reactor
--     calls, Checks MayPopulateAdServerVisibleErrors and ValidateProtectedAuctionInput, Solicit
--     the loop over the buyers and FetchBid, Requests CreateGetBidsRequest and BuildAdWithBidMetadata,
--     Requests/Scores CreateScoreAdsRequest, Currency FilterBidsWithMismatchingCurrency, Reports
--     PerformDebugReporting, Reactor the handlers from OnFetchBidsDone to OnScoreAdsDone, and
--     Reactor/Execute Execute. Reactor/Steps is the step relation: turns of the loop and responses,
--     in any order. Passed, Inputs, Asked, Origins, Attributed, Swaps, Filter, Buyers, Phases,
--     Bidding, Bounds and Finishes have the proofs
--   GetBids: services/buyer_frontend_service/get_bids_unary_reactor.{h,cc}. Steps is the step
--     relation: the last call of Execute and the responses, in any order; Phases, Tasks,
--     Responses, Called, Finishes, Unanswered and Sent have the proofs. Requests: util/proto_factory.cc
--   Examples: the theorems at concrete inputs
--
-- State and errors. A reactor's state is a record that its operations take and return. absl::Status
-- results are `Option` values or, for random numbers, the type `Drawn`; what C++ leaves undefined,
-- the read of an empty optional for one, is `none` as well, and each file says which. A random
-- computation reads a list of the values that RAND_bytes gives, so it ends with that list. The loop
-- that filters bids in place has as much fuel as there are bids, since each turn settles one; no
-- other loop needs fuel, all of them being over lists. Callbacks of other services are steps, each
-- with any response; the lock of the task tracker makes a callback one step. Hash maps and protobuf
-- maps are association lists. Sizes of texts and counts of ads are taken to stay in the range of
-- the code's integers, while the wrap-around of random numbers is written out.
--
-- Not modelled: logging and metrics; rapidjson, std::sort, std::regex_match, absl::StrFormat and
-- absl::StrReplaceAll and protobuf's MessageToJsonString, which are parameters; encryption, gRPC,
-- HTTP and the runtime of the ad techs' code; of the seller frontend, the decoding of inputs,
-- GetNonEncryptedResponse, which is a parameter, and the other reactors; of the buyer frontend, how
-- the requests for bids of interest groups are built and how bidding signals are fetched, which are
-- inside the parameters of those calls; the bidding service.
mod Common
pub mod Noiser
pub mod Scope
pub mod SelectAd
pub mod GetBids
pub mod TaskTracker
pub mod Api
pub mod Json
pub mod Signals
pub mod Scoring
pub mod Errors
pub mod Validation
pub mod Examples
