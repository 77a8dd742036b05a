-- ===== src/Store/Requests.antt =====
-- src/eda_lab/store.py: execution requests, which a Host Agent enqueues and a Supervisor claims,
-- and the witnesses of their end. A witness kind outside the two that the method accepts, for
-- which it raises ValueError, is not a `WitnessKind`.
use semiconductor_domain_lab.Prelude.{
  ℕ, String, Bool, true, false, not, ◌&&◌, ◌||◌, Option, none, some, List, [], ◌∷◌, ◌++◌,
  if◌then◌else◌, ltb, ◌==◌, eq_column, str_eq,
}
use semiconductor_domain_lab.Prelude.Table.{
  update_rows, count_rows, select_rows, fetch_one, exists_row,
}
use semiconductor_domain_lab.Models.{ℤ, RequestStatus, WitnessKind}
use semiconductor_domain_lab.Store.Schema.{
  ExecutionRequest, ExecutionWitness, RequestPayload, Database, is_request, is_witness,
}

abbrev pub is_queued_status : RequestStatus → Bool
is_queued_status RequestStatus.queued = true
is_queued_status _ = false

abbrev pub is_queued : ExecutionRequest → Bool
is_queued e = is_queued_status e.status

abbrev pub is_claimed_status : RequestStatus → Bool
is_claimed_status RequestStatus.claimed = true
is_claimed_status _ = false

abbrev pub is_claimed : ExecutionRequest → Bool
is_claimed e = is_claimed_status e.status

abbrev pub is_started_status : RequestStatus → Bool
is_started_status RequestStatus.claimed = true
is_started_status RequestStatus.running = true
is_started_status _ = false

-- status IN ('CLAIMED', 'RUNNING')
abbrev pub is_started : ExecutionRequest → Bool
is_started e = is_started_status e.status

-- status IN ('QUEUED', 'CLAIMED', 'RUNNING')
abbrev pub is_active : ExecutionRequest → Bool
is_active e = is_queued e || is_started e

unfoldable pub enqueue_execution_request :
    Database → ℕ → String → String → ℕ → String → RequestPayload → Database × Bool
enqueue_execution_request db now execution_id job_id attempt_no host_id payload =
    if exists_row (is_request execution_id) db.execution_requests then (db, false) else (
      record db {
        execution_requests =
            db.execution_requests
            ++ record {
              execution_id = execution_id;
              job_id = job_id;
              attempt_no = attempt_no;
              host_id = host_id;
              status = RequestStatus.queued;
              payload = payload;
              created_at = now;
              supervisor_id = none;
              claimed_at = none;
              process_pid = none;
              process_started_at = none;
            }
              ∷ [];
      },
      true,
    )

-- ORDER BY created_at LIMIT 1; of rows with one time, the row inserted first.
unfoldable pub oldest : List ExecutionRequest → Option ExecutionRequest
oldest [] = none
oldest (e ∷ es) = elim (oldest es) [
  | none ↦ some e
  | some d ↦ if ltb d.created_at e.created_at then some d else some e
]

abbrev pub is_queued_for : String → ExecutionRequest → Bool
is_queued_for host_id e = str_eq e.host_id host_id && is_queued e

abbrev pub set_claimed : String → ℕ → ExecutionRequest → ExecutionRequest
set_claimed supervisor_id now e = record e {
  status = RequestStatus.claimed;
  supervisor_id = some supervisor_id;
  claimed_at = some now;
}

unfoldable pub claim_request :
    Database → ℕ → String → Option ExecutionRequest → Database × Option ExecutionRequest
claim_request db now supervisor_id none = (db, none)
claim_request db now supervisor_id (some row) =
    let here = λ (e : ExecutionRequest). is_request row.execution_id e && is_queued e in
    if count_rows here db.execution_requests == 1
    then (
      record db {
        execution_requests = update_rows here (set_claimed supervisor_id now) db.execution_requests;
      },
      some row,
    )
    else (db, none)

-- The row is returned as it was read, before it is marked.
unfoldable pub claim_execution_request :
    Database → ℕ → String → String → Database × Option ExecutionRequest
unfolding claim_request oldest
claim_execution_request db now host_id supervisor_id =
    claim_request db now supervisor_id
      (oldest (select_rows (is_queued_for host_id) db.execution_requests))

unfoldable pub record_supervisor_process_started :
    Database → ℕ → String → String → ℕ → Database × Bool
record_supervisor_process_started db now execution_id supervisor_id pid =
    let here = λ (e : ExecutionRequest).
      is_request execution_id e && is_claimed e && eq_column e.supervisor_id supervisor_id in
    (
      record db {
        execution_requests =
            update_rows here
              (λ e. record e {
                process_pid = some pid;
                process_started_at = some now;
                status = RequestStatus.running;
              })
              db.execution_requests;
      },
      count_rows here db.execution_requests == 1,
    )

-- INSERT … SELECT … FROM execution_requests … ON CONFLICT DO NOTHING: a row only for a request
-- that is there and has none yet.
unfoldable pub record_termination_witness :
    Database → ℕ → String → WitnessKind → Option ℤ → Option String → String → Database × Bool
record_termination_witness db now execution_id kind process_exit_code artifact_path detail =
    if exists_row (is_request execution_id) db.execution_requests
      && not (exists_row (is_witness execution_id) db.execution_witnesses)
    then (
      record db {
        execution_witnesses =
            db.execution_witnesses
            ++ record {
              execution_id = execution_id;
              kind = kind;
              observed_at = now;
              process_exit_code = process_exit_code;
              artifact_path = artifact_path;
              detail = detail;
            }
              ∷ [];
        execution_requests =
            update_rows (λ e. is_request execution_id e && is_started e)
              (λ e. record e { status = RequestStatus.completed }) db.execution_requests;
      },
      true,
    )
    else (db, false)

-- `if not execution_id`: NULL and the empty text have no witness.
unfoldable pub get_termination_witness : Database → Option String → Option ExecutionWitness
get_termination_witness db none = none
get_termination_witness db (some execution_id) =
    if str_eq execution_id ""
    then none
    else fetch_one (is_witness execution_id) db.execution_witnesses
