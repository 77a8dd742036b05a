-- ===== src/Store/Finalize.antt =====
-- src/eda_lab/store.py: the two transactions that end an Attempt and its Run together. Both roll
-- back, and change nothing, when one of their UPDATE statements does not hit its row.
use semiconductor_domain_lab.Prelude.{
  ℕ, String, Bool, true, false, ◌&&◌, Option, none, some, if◌then◌else◌, ◌==◌, eq_column, str_eq,
}
use semiconductor_domain_lab.Prelude.Table.{update_rows, count_rows}
use semiconductor_domain_lab.Models.{RunStatus, AttemptStatus, RequestStatus}
use semiconductor_domain_lab.Store.Schema.{Run, Attempt, ExecutionOwner, Database, is_run}
use semiconductor_domain_lab.Store.Runs.{RunFields, assign, is_running_run}
use semiconductor_domain_lab.Store.Attempts.{
  Outcome, update_attempt, set_status, holds_lease, no_recovery, holds_recovery,
}
use semiconductor_domain_lab.Store.Hosts.{is_live_session}
use semiconductor_domain_lab.Store.Requests.{is_active}

-- UPDATE runs SET … WHERE job_id = ? AND status = 'RUNNING'
unfoldable pub update_running_run : Database → String → (Run → Run) → Database × Bool
update_running_run db job_id f =
    let here = λ (r : Run). is_run job_id r && is_running_run r in
    (record db { runs = update_rows here f db.runs }, count_rows here db.runs == 1)

unfoldable pub retire_requests : Database → String → ℕ → Database
retire_requests db job_id attempt_no = record db {
  execution_requests =
      update_rows (λ e. str_eq e.job_id job_id && e.attempt_no == attempt_no && is_active e)
        (λ e. record e { status = RequestStatus.unavailable }) db.execution_requests;
}

abbrev pub set_abandoned : Option String → Option String → ℕ → Attempt → Attempt
set_abandoned error_type error now a = record a {
  status = AttemptStatus.abandoned;
  error_type = error_type;
  error = error;
  retry_class = some "recovery_required";
  updated_at = now;
}

unfoldable pub finalize_recovery :
    Database → ℕ → String → ℕ → String → String → String → Database × Bool
unfolding update_attempt update_running_run retire_requests
finalize_recovery db now job_id attempt_no token error_type error =
    let (db₁, hit) =
      update_attempt db job_id attempt_no (holds_recovery token)
        (set_abandoned (some error_type) (some error) now) in
    if hit
    then (let (db₂, ended) =
          update_running_run db₁ job_id
            (λ r. record r { status = RunStatus.failed; error = some error; updated_at = now }) in
        if ended then (retire_requests db₂ job_id attempt_no, true) else (db, false))
    else (db, false)

-- The clause that an execution owner adds; `None` adds nothing.
abbrev pub owned_by : Database → ℕ → Option ExecutionOwner → Attempt → Bool
owned_by db now none a = true
owned_by db now (some o) a =
    eq_column a.execution_host_id o.host_id
    && eq_column a.execution_host_epoch o.host_epoch
    && eq_column a.execution_host_session o.session_id
    && is_live_session db now o.session_id

-- The fence of `finalize_attempt_and_run`: the lease, no recovery, and the execution owner.
abbrev pub may_finalize : Database → ℕ → String → Option ExecutionOwner → Attempt → Bool
may_finalize db now token owner a =
    holds_lease now token a && no_recovery now a && owned_by db now owner a

-- The keyword arguments of `finalize_attempt_and_run`; `outcome` holds the Attempt's.
pub record Completion : Type 0 where
  pub outcome : Outcome
  pub run_status : RunStatus
  pub run_fields : RunFields
  pub execution_owner : Option ExecutionOwner

abbrev first_given {ℓ} : {A : Type ℓ} → Option A → Option A → Option A
first_given none b = b
first_given (some a) b = some a

abbrev some_path : Option String → Option (Option String)
some_path none = none
some_path (some p) = some (some p)

-- `error` and a given `artifact_path` are written where `run_fields` does not name them.
abbrev pub final_fields : Completion → RunFields
final_fields c = record f {
  status = some c.run_status;
  error = first_given f.error (some c.outcome.error);
  artifact_path = first_given f.artifact_path (some_path c.outcome.artifact_path);
}
  where
    f : RunFields
    f = c.run_fields

unfoldable pub finalize_attempt_and_run :
    Database → ℕ → String → ℕ → String → Completion → Database × Bool
unfolding update_attempt update_running_run assign
finalize_attempt_and_run db now job_id attempt_no token c =
    let (db₁, hit) =
      update_attempt db job_id attempt_no (may_finalize db now token c.execution_owner)
        (set_status c.outcome now) in
    if hit
    then (let (db₂, ended) = update_running_run db₁ job_id (assign (final_fields c) now) in
        if ended then (db₂, true) else (db, false))
    else (db, false)
