-- ===== src/Examples/Passes.antt =====
-- A recovery pass and a Supervisor on the scene.
use semiconductor_domain_lab.Prelude.{ℕ, true, false, none, some, [], ◌∷◌, ◌≡◌, refl, lt_column}
use semiconductor_domain_lab.Prelude.Table.{count_rows, exists_row, fetch_one, update_rows, passes}
use semiconductor_domain_lab.Models.{pos}
use semiconductor_domain_lab.Store.Schema.{Database, is_request}
use semiconductor_domain_lab.Store.Keys.{HasKeys, attempt_at, update_attempt-HasKeys}
use semiconductor_domain_lab.Store.Runs.{RunView}
use semiconductor_domain_lab.Store.Attempts.{claim_recovery, update_attempt}
use semiconductor_domain_lab.Store.Requests.{get_termination_witness}
use semiconductor_domain_lab.Store.Finalize.{finalize_recovery, update_running_run, retire_requests}
use semiconductor_domain_lab.Service.Validation.{Collected}
use semiconductor_domain_lab.Service.Execute.{AdapterOutcome}
use semiconductor_domain_lab.Service.Recover.{
  Observation, Child, Decision, last_attempt, recover_run, recover_last, recover_attempt, claim,
  observe_child, without_child, finish,
}
use semiconductor_domain_lab.Service.RecoverySafety.{Recovered, recover_run-Recovered}
use semiconductor_domain_lab.Supervisor.{Watch, watch}
use semiconductor_domain_lab.Supervisor.Evidence.{has_witness, watch-witness}
use semiconductor_domain_lab.Examples.Scene.{
  scene, scene_of-HasKeys, leased, request, config, run, report,
}

-- The child is gone, and the claim is made at 20.
abbrev observation : ℕ → Observation
observation n = record {
  live_future = false;
  failed = n;
  recovery_token = "recovery";
  claimed = n;
  meanwhile = λ db. db;
  child = Child.gone;
  identity = none;
  checked = n;
  signalled = false;
  released = n;
  finalized = n;
}

abbrev view : RunView
view = record { run = run; metrics = none; attempts = leased ∷ [] }

abbrev pass : ℕ → Database × Decision
pass n = recover_run config (observation n) (("job", 1) ∷ []) view scene

last_test : last_attempt view.attempts ≡ some leased
unfolding last_attempt
last_test = refl

recovered_test : (pass 20).1 ≡ Decision.recovered
unfolding recover_run recover_last recover_attempt claim observe_child without_child finish
    last_attempt claim_recovery finalize_recovery update_attempt update_running_run retire_requests
    get_termination_witness update_rows count_rows exists_row fetch_one
recovered_test = refl

claimed-HasKeys : HasKeys (claim_recovery scene 20 "job" 1 "worker" "recovery" 5).0
unfolding claim_recovery
claimed-HasKeys =
    update_attempt-HasKeys scene "job" 1 _ _ (λ i m a. refl) (scene_of-HasKeys leased request)

recover_run-Recovered_example : Recovered config (observation 20) "job" leased scene (pass 20).0
recover_run-Recovered_example =
    recover_run-Recovered config (observation 20) (("job", 1) ∷ []) view leased last_test scene
      (scene_of-HasKeys leased request) claimed-HasKeys recovered_test

live_test : passes (λ a. lt_column a.lease_expires_at 5) (attempt_at scene "job" 1) ≡ false
unfolding fetch_one
live_test = refl

abbrev collected : Collected
collected = record {
  artifact = "report";
  result = report;
  process_exit_code = some (pos 0);
  execution_provenance = none;
}

abbrev seen : Watch
seen = record {
  claimed = 1;
  started = some 77;
  recorded = 2;
  during = λ db. db;
  adapter = AdapterOutcome.returned collected;
  witnessed = 3;
  meanwhile = λ db. db;
  finalized = 4;
}

request_test : exists_row (is_request "execution") scene.execution_requests ≡ true
unfolding exists_row
request_test = refl

watch-witness_example : has_witness "execution" (watch "supervisor" seen request scene).0 ≡ true
watch-witness_example =
    watch-witness "supervisor" seen request scene (λ d h. h) (λ d h. h) request_test
