-- ===== src/SelectAd.antt =====
-- services/seller_frontend_service/select_ad_reactor.{h,cc} and select_ad_reactor_app.cc: the
-- request handler of the seller frontend, which asks the buyers for bids, fetches the scoring
-- signals of the ads, has the ads scored and answers with the winner.
pub mod Messages
pub mod Currency
pub mod Checks
pub mod Requests
pub mod Services
pub mod Solicit
pub mod Reports
pub mod Reactor
