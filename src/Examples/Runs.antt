-- ===== src/Examples/Runs.antt =====
-- Submission, execution and the comparison of revisions, on concrete Runs.
use mathlib.Core.List.{Memᴰ}
use semiconductor_domain_lab.Prelude.{
  ℕ, ◌≤◌, ◌<◌, suc, String, Bool, true, false, Option, none, some, [], ◌∷◌, ◌≡◌, ◌≢◌, refl, ◌⊎◌,
  ◌↔◌, arith,
}
use semiconductor_domain_lab.Prelude.Table.{
  count_rows, exists_row, fetch_one, select_rows, order_by, insert_by,
}
use semiconductor_domain_lab.Models.{pos, ParseStatus, Validity, RunStatus, AttemptStatus, JobSpec}
use semiconductor_domain_lab.Store.Schema.{Database, empty}
use semiconductor_domain_lab.Store.Result.{Result, ok, err, in_flight_budget_exhausted}
use semiconductor_domain_lab.Store.Runs.{create_run, insert_run}
use semiconductor_domain_lab.Store.Budget.{in_flight, create_run_cases}
use semiconductor_domain_lab.Store.Keys.{run_at}
use semiconductor_domain_lab.Store.Revisions.{
  Violations, Comparability, compare_revisions, new_violations, is_new,
}
use semiconductor_domain_lab.Store.Comparison.{Violates, NotBefore, new_violations-mem}
use semiconductor_domain_lab.Store.Schema.{is_run}
use semiconductor_domain_lab.Service.Validation.{Collected, completion_of}
use semiconductor_domain_lab.Service.Trust.{completion_of-succeeded_iff}
use semiconductor_domain_lab.Service.Submit.{Submitted, submit}
use semiconductor_domain_lab.Service.Execute.{AdapterOutcome, Script, Ending, execute}
use semiconductor_domain_lab.Service.Progress.{execute-ends}
use semiconductor_domain_lab.Examples.Scene.{
  scene, spec, queued_run, config, report, owner, finding,
}

abbrev create : Database → ℕ → Option ℕ → Result (Database × Bool)
create db now budget = create_run db now "job" "gcd" "ip" "sta" (some "hash") budget

abbrev admitted : Database
admitted = insert_run empty queued_run

admitted_test : create empty 0 (some 1) ≡ ok (admitted, true)
unfolding create_run count_rows exists_row
admitted_test = refl

create_run_cases_example :
    ((exists_row (is_run "job") empty.runs ≡ true) × (create empty 0 (some 1) ≡ ok (empty, false)))
    ⊎ ((exists_row (is_run "job") empty.runs ≡ false)
        × (1 ≤ in_flight empty)
        × (create empty 0 (some 1) ≡ err in_flight_budget_exhausted))
    ⊎ ((exists_row (is_run "job") empty.runs ≡ false)
        × (in_flight empty < 1)
        × (create empty 0 (some 1) ≡ ok (admitted, true))
        × (run_at admitted "job" ≡ some queued_run)
        × (in_flight admitted ≡ suc (in_flight empty)))
create_run_cases_example = create_run_cases empty 0 "job" "gcd" "ip" "sta" (some "hash") 1

no_run_test : in_flight empty ≤ 1
unfolding count_rows
no_run_test = omega arith

-- A hash that tells designs apart.
abbrev hash : JobSpec → String
hash s = s.design_id

abbrev other_spec : JobSpec
other_spec = record spec { design_id = "aes" }

abbrev first : Submitted
first = submit config hash 0 (λ db. db) 3 spec empty

abbrev second : Submitted
second = submit config hash 1 (λ db. db) 4 other_spec first.db

room_test : in_flight empty ≡ 0
unfolding count_rows
room_test = refl

abbrev collected : Collected
collected = record {
  artifact = "report";
  result = report;
  process_exit_code = some (pos 0);
  execution_provenance = none;
}

completion_of-succeeded_iff_example :
    (((completion_of (some owner) collected).run_status ≡ RunStatus.succeeded) ↔ (
      (report.parse_status ≢ ParseStatus.invalid)
      × (report.semantic_status ≢ Validity.invalid)
      × (some (pos 0) ≡ some (pos 0))))
    × (((completion_of (some owner) collected).run_status ≡ RunStatus.succeeded)
          × ((completion_of (some owner) collected).outcome.status ≡ AttemptStatus.succeeded)
        ⊎ ((completion_of (some owner) collected).run_status ≡ RunStatus.failed)
          × ((completion_of (some owner) collected).outcome.status ≡ AttemptStatus.failed))
completion_of-succeeded_iff_example = completion_of-succeeded_iff (some owner) collected

abbrev script : ℕ → Script
script n = record {
  lease_token = "lease";
  execution_id = "execution";
  started = n;
  recorded = n;
  leased = n;
  registered = n;
  owner_seen = n;
  enqueued = n;
  during = λ db. db;
  adapter = AdapterOutcome.timed_out "no report";
  collected = n;
  finalized = n;
  handled = n;
  handled_lease = n;
  handled_recovery = n;
}

execute-ends_example : (execute config spec script 1 scene).1 ≢ Ending.retry
execute-ends_example = execute-ends config spec script 1 scene (omega arith)

abbrev reported : Violations
reported = record { comparability = Comparability.comparable; findings = finding ∷ [] }

reported_test : new_violations scene "old" "new" ≡ ok reported
unfolding new_violations compare_revisions is_new fetch_one select_rows exists_row order_by
    insert_by
reported_test = refl

new_violations-mem_example :
    Memᴰ finding reported.findings
    ↔ (Memᴰ finding scene.findings × Violates "new" finding × NotBefore scene "old" finding)
new_violations-mem_example =
    new_violations-mem scene "old" "new" reported reported_test refl finding
