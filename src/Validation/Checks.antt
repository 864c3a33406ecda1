-- ===== src/Validation/Checks.antt =====
-- What a sequence of checks returns and which errors it reports.
use bas_dev.Common.{
  ◌≡◌, Bool, true, false, not, ◌&&◌, ◌||◌, String, [], ◌∷◌, ◌==◌, nat_eq, string_eq, if◌then◌else◌,
  arith,
}
use bas_dev.Errors.{
  ErrorVisibility, ErrorCode, ad_server_visible, client_side, ErrorAccumulator, report_error,
  visibility_eq, code_eq, Messages,
}
use bas_dev.Errors.Reports.{reported, reported-report_error, elem}
use bas_dev.Validation.{Checks, report, run_checks}

-- The messages of the checks that found an error.
abbrev pub failed : Checks → Messages
failed [] = []
failed ((has_error, msg) ∷ checks) = if has_error then msg ∷ failed checks else failed checks

abbrev pub all_passed : Checks → Bool
all_passed [] = true
all_passed ((has_error, msg) ∷ checks) = not has_error && all_passed checks

pub run_checks-valid :
    (checks : Checks) (valid : Bool) (errors : ErrorAccumulator)
    → (run_checks checks (valid, errors)).0 ≡ (valid && all_passed checks)
unfolding run_checks report
run_checks-valid [] valid errors = ground arith
run_checks-valid ((has_error, msg) ∷ checks) valid errors = ground (
  arith,
  run_checks-valid checks false (report_error ad_server_visible msg client_side errors),
  run_checks-valid checks valid errors,
)

pub run_checks-reported :
    (checks : Checks) (valid : Bool) (errors : ErrorAccumulator) (w : ErrorVisibility)
    (d : ErrorCode) (x : String)
    → reported (run_checks checks (valid, errors)).1 w d x ≡ (
        (ad_server_visible == w && client_side == d && elem x (failed checks))
        || reported errors w d x)
unfolding run_checks report
run_checks-reported [] valid errors w d x = ground arith
run_checks-reported ((true, msg) ∷ checks) valid errors w d x =
    let errors' = report_error ad_server_visible msg client_side errors in
    ground (
      arith,
      run_checks-reported checks false errors' w d x,
      reported-report_error errors ad_server_visible msg client_side w d x,
    )
run_checks-reported ((false, msg) ∷ checks) valid errors w d x =
    run_checks-reported checks valid errors w d x
