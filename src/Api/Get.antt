-- ===== src/Api/Get.antt =====
-- src/eda_lab/api.py: `do_GET`.
use semiconductor_domain_lab.Prelude.{String, true, not, ◌||◌, Option, none, some, if◌then◌else◌}
use semiconductor_domain_lab.Store.Schema.{Database}
use semiconductor_domain_lab.Store.Result.{Result, ok, err}
use semiconductor_domain_lab.Store.Runs.{RunView, get_run}
use semiconductor_domain_lab.Store.Revisions.{Violations, new_violations}
use semiconductor_domain_lab.Api.{public_run, is_given, Payload, Sent, sent}
use semiconductor_domain_lab.Api.Paths.{Route, route}
use semiconductor_domain_lab.Api.Request.{Libraries}
use semiconductor_domain_lab.Api.Lists.{Query, list_runs_handler}

abbrev run_found : Option RunView → Sent
run_found none = sent 404 (Payload.error_text "run not found")
run_found (some v) = sent 200 (Payload.public (public_run true v))

abbrev job_found : Option RunView → Sent
job_found none = sent 404 (Payload.error_text "job not found")
job_found (some v) = sent 200 (Payload.job v)

abbrev compared : Result Violations → Sent
compared (ok v) = sent 200 (Payload.violations v)
compared (err e) = sent 404 (Payload.error_text "'both revisions must exist'")

abbrev baseline_given : Option String → String → Database → Sent
baseline_given none candidate db =
    sent 400 (Payload.error_text "baseline query parameter is required")
baseline_given (some baseline) candidate db = compared (new_violations db baseline candidate)

-- The index that the service may make before the comparison changes no result.
unfoldable pub violations_of : Query → String → Database → Sent
unfolding new_violations
violations_of q candidate db =
    if not (is_given (some candidate)) || not (is_given q.baseline)
    then sent 400 (Payload.error_text "baseline query parameter is required")
    else baseline_given q.baseline candidate db

unfoldable pub routed : Libraries → Query → Database → Route → Sent
unfolding list_runs_handler violations_of get_run public_run
routed libs q db Route.runs = list_runs_handler libs q db
routed libs q db (Route.run run_id) = run_found (get_run db run_id)
routed libs q db (Route.new_violations candidate) = violations_of q candidate db
routed libs q db (Route.job job_id) = job_found (get_run db job_id)
routed libs q db Route.not_found = sent 404 (Payload.error_text "not found")

unfoldable pub do_get : Libraries → String → Query → Database → Sent
unfolding routed route
do_get libs path q db = routed libs q db (route path)
