-- ===== src/Postgres/Finalize.antt =====
-- src/eda_lab/postgres_store.py: the two transactions that end an Attempt and its Run. The tables
-- are those of the SQLite store under other names. `return False` inside `connection.transaction()`
-- leaves the block without an exception, so psycopg commits the statements that have run.
use semiconductor_domain_lab.Prelude.{ℕ, String, Bool, true, false, some, if◌then◌else◌}
use semiconductor_domain_lab.Models.{RunStatus}
use semiconductor_domain_lab.Store.Schema.{Database}
use semiconductor_domain_lab.Store.Runs.{assign}
use semiconductor_domain_lab.Store.Attempts.{update_attempt, set_status, holds_recovery}
use semiconductor_domain_lab.Store.Finalize.{
  Completion, may_finalize, final_fields, set_abandoned, update_running_run, retire_requests,
}

unfoldable pub finalize_recovery :
    Database → ℕ → String → ℕ → String → String → String → Database × Bool
unfolding update_attempt update_running_run retire_requests
finalize_recovery db now job_id attempt_no token error_type error =
    let (db₁, hit) =
      update_attempt db job_id attempt_no (holds_recovery token)
        (set_abandoned (some error_type) (some error) now) in
    if hit
    then (let (db₂, ended) =
          update_running_run db₁ job_id
            (λ r. record r { status = RunStatus.failed; error = some error; updated_at = now }) in
        if ended then (retire_requests db₂ job_id attempt_no, true) else (db₂, false))
    else (db₁, false)

unfoldable pub finalize_attempt_and_run :
    Database → ℕ → String → ℕ → String → Completion → Database × Bool
unfolding update_attempt update_running_run assign
finalize_attempt_and_run db now job_id attempt_no token c =
    let (db₁, hit) =
      update_attempt db job_id attempt_no (may_finalize db now token c.execution_owner)
        (set_status c.outcome now) in
    if hit then update_running_run db₁ job_id (assign (final_fields c) now) else (db₁, false)
