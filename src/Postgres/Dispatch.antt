-- ===== src/Postgres/Dispatch.antt =====
-- src/eda_lab/postgres_store.py: the methods that the SQLite store does not have, by which Workers
-- share one queue of Runs and one host's dispatch capacity, and the column that they read.
use semiconductor_domain_lab.Prelude.{
  ℕ, String, Bool, true, false, not, ◌&&◌, Option, none, some, if◌then◌else◌, ◌==◌, str_eq,
}
use semiconductor_domain_lab.Prelude.Table.{update_rows, count_rows, select_rows, exists_row}
use semiconductor_domain_lab.Prelude.Earliest.{earliest}
use semiconductor_domain_lab.Models.{RunStatus, AttemptStatus, RequestStatus, JobSpec}
use semiconductor_domain_lab.Store.Schema.{
  Run, Attempt, ExecutionRequest, Database, is_run, is_witness,
}
use semiconductor_domain_lab.Store.Result.{Result, ok, err}
use semiconductor_domain_lab.Store.Runs.{create_run as store_create_run}
use semiconductor_domain_lab.Store.Requests.{is_active}

-- The tables, and the column `spec_payload` of `eda_runs`, by job identifier.
pub record Central : Type 0 where
  pub tables : Database
  pub spec_payload : String → Option JobSpec

abbrev write_payload : String → Option JobSpec → (String → Option JobSpec) → String → Option JobSpec
write_payload job_id payload column other = if str_eq other job_id then payload else column other

-- Only an inserted row has its payload written. The advisory lock makes the three statements one
-- step where there is a budget, and ON CONFLICT does where there is none.
unfoldable pub create_run :
    Central
    → ℕ
    → String
    → String
    → String
    → String
    → Option String
    → Option ℕ
    → Option JobSpec
    → Result (Central × Bool)
create_run central now job_id design_id ip_family flow_name spec_hash max_in_flight payload =
    elim (store_create_run central.tables now job_id design_id ip_family flow_name spec_hash
      max_in_flight) [
        | ok (db, true) ↦ ok (
          record { tables = db; spec_payload = write_payload job_id payload central.spec_payload },
          true,
        )
        | ok (db, false) ↦ ok (record central { tables = db }, false)
        | err e ↦ err e
      ]

abbrev pub is_queued_status : RunStatus → Bool
is_queued_status RunStatus.queued = true
is_queued_status _ = false

-- status = 'QUEUED'
abbrev pub is_queued_run : Run → Bool
is_queued_run r = is_queued_status r.status

-- WHERE status = 'QUEUED' ORDER BY updated_at LIMIT 1
unfoldable pub candidate : Database → Option Run
candidate db = earliest (λ r. r.updated_at) (select_rows is_queued_run db.runs)

abbrev pub set_running : ℕ → Run → Run
set_running now r = record r { status = RunStatus.running; updated_at = now }

unfoldable pub claim_run : Central → ℕ → Option Run → Central × Option JobSpec
claim_run central now none = (central, none)
claim_run central now (some row) = (
  record central {
    tables = record central.tables {
      runs = update_rows (is_run row.job_id) (set_running now) central.tables.runs;
    };
  },
  central.spec_payload row.job_id,
)

-- The UPDATE names the candidate's row, which it holds locked, by its key.
unfoldable pub claim_next_run : Central → ℕ → Central × Option JobSpec
unfolding candidate claim_run
claim_next_run central now = claim_run central now (candidate central.tables)

unfoldable pub count_active_execution_requests : Database → String → ℕ
count_active_execution_requests db host_id =
    count_rows (λ (e : ExecutionRequest). str_eq e.host_id host_id && is_active e)
      db.execution_requests

abbrev pub is_abandoned_status : AttemptStatus → Bool
is_abandoned_status AttemptStatus.abandoned = true
is_abandoned_status _ = false

-- An active request of an ABANDONED Attempt that has no witness.
abbrev pub is_stranded : Database → ExecutionRequest → Bool
is_stranded db e =
    is_active e
    && exists_row
        (λ (a : Attempt).
          str_eq e.job_id a.job_id && e.attempt_no == a.attempt_no && is_abandoned_status a.status)
        db.attempts
    && not (exists_row (is_witness e.execution_id) db.execution_witnesses)

unfoldable pub release_terminal_execution_requests : Database → Database × ℕ
release_terminal_execution_requests db = (
  record db {
    execution_requests =
        update_rows (is_stranded db) (λ e. record e { status = RequestStatus.unavailable })
          db.execution_requests;
  },
  count_rows (is_stranded db) db.execution_requests,
)
