-- ===== src/Examples/Hosts.antt =====
-- Host sessions, requests and witnesses, on the scene's host.
use semiconductor_domain_lab.Prelude.{
  none, List, String, Bool, true, false, not, ◌&&◌, Option, some, [], ◌∷◌, ◌≡◌, ◌≢◌, refl, ◌⊎◌,
  str_eq, ◌++◌,
}
use semiconductor_domain_lab.Prelude.Table.{
  count_rows, exists_row, fetch_one, select_rows, update_rows, set_if,
}
use semiconductor_domain_lab.Prelude.Rows.{append_unique}
use semiconductor_domain_lab.Models.{pos, WitnessKind, RequestStatus}
use semiconductor_domain_lab.Store.Schema.{
  empty, ExecutionRequest, ExecutionOwner, Database, is_request, is_witness,
}
use semiconductor_domain_lab.Store.Result.{ok}
use semiconductor_domain_lab.Store.Hosts.{start_host_session, new_session, set_current}
use semiconductor_domain_lab.Store.Requests.{
  is_started, oldest, claim_request, claim_execution_request, record_termination_witness,
}
use semiconductor_domain_lab.Store.Delivery.{claim_execution_request_once}
use semiconductor_domain_lab.Store.Fence.{Refused}
use semiconductor_domain_lab.Store.Witnesses.{record_termination_witness_cases}
use semiconductor_domain_lab.Store.Sessions.{Superseded, start_host_session-Superseded}
use semiconductor_domain_lab.Store.Keys.{HasKeys}
use semiconductor_domain_lab.HostAgent.{Agent, Drained, start, drain}
use semiconductor_domain_lab.HostAgent.Takeover.{drain_after_takeover}
use semiconductor_domain_lab.Service.Control.{heartbeat_loop}
use semiconductor_domain_lab.Service.Beats.{OnlySessions, heartbeat_loop-refused}
use semiconductor_domain_lab.Store.Finalize.{finalize_attempt_and_run, update_running_run}
use semiconductor_domain_lab.Store.Attempts.{update_attempt}
use semiconductor_domain_lab.Examples.Scene.{
  success, scene, scene_of-HasKeys, leased, request, owner,
}

abbrev claimed : Database × Option ExecutionRequest
claimed = claim_execution_request scene 3 "host" "supervisor"

abbrev later_request : ExecutionRequest
later_request = record request { execution_id = "later"; attempt_no = 2; created_at = 1 }

abbrev busy : Database
busy = record scene { execution_requests = request ∷ later_request ∷ [] }

busy-HasKeys : HasKeys busy
unfolding count_rows exists_row
busy-HasKeys =
    let k = scene_of-HasKeys leased request in
    record {
      run_key = k.run_key;
      attempt_key = k.attempt_key;
      session_key = k.session_key;
      host_key = k.host_key;
      request_key = λ e.
          append_unique (λ r. r.execution_id) (request ∷ []) later_request refl e (k.request_key e);
      witness_key = k.witness_key;
      revision_key = k.revision_key;
    }

first_test : (claim_execution_request busy 3 "host" "one").1 ≡ some request
unfolding claim_execution_request claim_request oldest select_rows update_rows count_rows
first_test = refl

second_test :
    (claim_execution_request (claim_execution_request busy 3 "host" "one").0 4 "host" "two").1
    ≡ some later_request
unfolding claim_execution_request claim_request oldest select_rows update_rows count_rows
second_test = refl

claim_execution_request_once_example : later_request.execution_id ≢ request.execution_id
claim_execution_request_once_example =
    claim_execution_request_once busy busy-HasKeys 3 4 "host" "one" "host" "two" first_test
      second_test

abbrev started : ExecutionRequest
started = record request { status = RequestStatus.running }

abbrev witnessed : Database × Bool
witnessed =
    record_termination_witness scene 6 "execution" WitnessKind.process_exited (some (pos 0))
      (some "report") "exit"

witnessed_test : witnessed.1 ≡ true
unfolding record_termination_witness exists_row update_rows
witnessed_test = refl

record_termination_witness_cases_example :
    (((exists_row (is_request "execution") scene.execution_requests
          && not (exists_row (is_witness "execution") scene.execution_witnesses))
        ≡ false)
      × Refused scene witnessed)
    ⊎ ((exists_row (is_request "execution") scene.execution_requests ≡ true)
        × (exists_row (is_witness "execution") scene.execution_witnesses ≡ false)
        × (witnessed.1 ≡ true)
        × (fetch_one (is_witness "execution") witnessed.0.execution_witnesses
            ≡ some (record {
              execution_id = "execution";
              kind = WitnessKind.process_exited;
              observed_at = 6;
              process_exit_code = some (pos 0);
              artifact_path = some "report";
              detail = "exit";
            }))
        × (fetch_one (is_request "execution") witnessed.0.execution_requests
            ≡ set_if is_started
                (λ e. record e { status = RequestStatus.completed })
                (fetch_one (is_request "execution") scene.execution_requests)))
record_termination_witness_cases_example =
    record_termination_witness_cases scene 6 "execution" WitnessKind.process_exited (some (pos 0))
      (some "report") "exit"

abbrev restarted : ExecutionOwner
restarted = record owner { session_id = "restarted" }

abbrev after_restart : Database
after_restart = record scene {
  host_sessions = scene.host_sessions ++ new_session 9 restarted 10 ∷ [];
  hosts = update_rows (λ h. str_eq h.host_id "host") (set_current 9 restarted) scene.hosts;
}

restart_test : start_host_session scene 9 restarted 10 ≡ ok after_restart
unfolding start_host_session exists_row
restart_test = refl

start_host_session-Superseded_example : Superseded after_restart "session"
unfolding exists_row
start_host_session-Superseded_example =
    start_host_session-Superseded scene (scene_of-HasKeys leased request) 9 10 restarted
      restart_test "session" refl refl

abbrev agent : Agent
agent = record { owner = owner; lease_seconds = 10; started = true }

abbrev successor : Agent
successor = record { owner = restarted; lease_seconds = 10; started = false }

takeover_test : start successor 9 scene ≡ ok (after_restart, record successor { started = true })
unfolding start start_host_session exists_row
takeover_test = refl

abbrev worker : Database → Database × List String
worker db = (empty, "job" ∷ [])

drain_after_takeover_example :
    drain worker agent (record { starting = 10; beating = 10; refreshing = 10 }) after_restart
    ≡ (after_restart, agent, Drained.superseded)
unfolding exists_row
drain_after_takeover_example =
    drain_after_takeover scene (scene_of-HasKeys leased request) 9 successor
      (record successor { started = true }) takeover_test agent refl refl refl worker
      (record { starting = 10; beating = 10; refreshing = 10 })

abbrev completed : Database × Bool
completed = finalize_attempt_and_run scene 9 "job" 1 "lease" success

completed_test : completed.1 ≡ true
unfolding finalize_attempt_and_run update_attempt update_running_run count_rows update_rows
    exists_row
completed_test = refl

heartbeat_loop-refused_example :
    (heartbeat_loop none 30 "job" 1 "lease" (10 ∷ 20 ∷ []) completed.0 ≡ completed.0)
    × OnlySessions completed.0
        (heartbeat_loop (some owner) 30 "job" 1 "lease" (10 ∷ 20 ∷ []) completed.0)
    × (heartbeat_loop (some owner) 30 "job" 1 "lease" (10 ∷ 20 ∷ []) after_restart ≡ after_restart)
unfolding exists_row
heartbeat_loop-refused_example =
    heartbeat_loop-refused scene (scene_of-HasKeys leased request) 9 "job" 1 "lease" success
      restarted owner 10 after_restart refl completed_test restart_test refl refl owner 30 "job" 1
      "lease" (10 ∷ 20 ∷ [])
