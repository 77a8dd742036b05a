-- ===== src/Supervisor.antt =====
-- src/eda_lab/execution_supervisor.py: `ExecutionSupervisor.run_once`. The heartbeat thread and the
-- other processes are `during` and `meanwhile`; the child that the adapter starts and the parse of
-- its artifact are given by a `Watch`.
use semiconductor_domain_lab.Prelude.{
  ℕ, String, Bool, true, false, ◌&&◌, Option, none, some, if◌then◌else◌,
}
use semiconductor_domain_lab.Models.{WitnessKind, RunStatus, is_zero}
use semiconductor_domain_lab.Store.Schema.{Database, ExecutionRequest}
use semiconductor_domain_lab.Store.Requests.{
  claim_execution_request, record_supervisor_process_started, record_termination_witness,
}
use semiconductor_domain_lab.Store.Finalize.{Completion, finalize_attempt_and_run}
use Prim.Native.String.{◌++◌}
use semiconductor_domain_lab.Service.Validation.{
  Collected, is_parse_ok, is_valid, validation_fields, failed_outcome, succeeded_outcome,
}
use semiconductor_domain_lab.Service.Execute.{AdapterOutcome}
pub mod Evidence

pub record Watch : Type 0 where
  pub claimed : ℕ
  -- the process that the adapter reports, if it reports one
  pub started : Option ℕ
  pub recorded : ℕ
  pub during : Database → Database
  pub adapter : AdapterOutcome
  pub witnessed : ℕ
  pub meanwhile : Database → Database
  pub finalized : ℕ

-- `run_once` returns None, returns the execution's identifier, or raises.
pub data Watched : Type 0 where
  idle raised : Watched
  finished : String → Watched

abbrev is_exit_zero : Collected → Bool
is_exit_zero c = elim c.process_exit_code [ none ↦ false | some code ↦ is_zero code ]

-- parse_status == "OK" and semantic_status == "VALID" and process_exit_code == 0
unfoldable pub is_accepted : Collected → Bool
is_accepted c =
    is_parse_ok c.result.parse_status && is_valid c.result.semantic_status && is_exit_zero c

-- The arguments of `finalize_attempt_and_run`.
unfoldable pub supervised_completion : ExecutionRequest → Collected → Completion
unfolding is_accepted validation_fields
supervised_completion row c = record {
  outcome =
      if is_accepted c
      then succeeded_outcome c
      else failed_outcome "supervisor_validation_failed" "supervisor rejected execution result" c;
  run_status = if is_accepted c then RunStatus.succeeded else RunStatus.failed;
  run_fields = validation_fields c.result c.process_exit_code c.execution_provenance;
  execution_owner = some row.payload.execution_owner;
}

module _ (supervisor_id : String) (w : Watch) (row : ExecutionRequest) where
  -- The observer of the adapter; false stands for its RuntimeError, which ends the adapter's run.
  unfoldable pub start : Option ℕ → Database → Database × Bool
  start none db = (db, true)
  start (some pid) db =
      record_supervisor_process_started db w.recorded row.execution_id supervisor_id pid

  unfoldable pub terminated : String → Database → Database × Watched
  terminated e db = (
    (record_termination_witness db w.witnessed row.execution_id WitnessKind.runtime_terminated none
        none ("supervisor observed execution error: " ++ e)).0,
    Watched.raised,
  )

  unfoldable pub exited : Collected → Database → Database × Watched
  unfolding supervised_completion
  exited c db =
      let (db₁, new) =
        record_termination_witness db w.witnessed row.execution_id WitnessKind.process_exited
          c.process_exit_code (some c.artifact) "supervisor observed adapter return" in
      let (db₂, kept) =
        finalize_attempt_and_run (w.meanwhile db₁) w.finalized row.job_id row.attempt_no
          row.payload.lease_token (supervised_completion row c) in
      (db₂, if kept then Watched.finished row.execution_id else Watched.raised)

  unfoldable pub observe : AdapterOutcome → Database → Database × Watched
  unfolding terminated exited
  observe (AdapterOutcome.returned c) db = exited c db
  observe (AdapterOutcome.cancelled e) db = terminated e db
  observe (AdapterOutcome.timed_out e) db = terminated e db
  observe (AdapterOutcome.disconnected e) db = terminated e db
  observe (AdapterOutcome.failed e) db = terminated e db

  unfoldable pub watch : Database → Database × Watched
  unfolding start observe
  watch db =
      let (db', recorded) = start w.started db in
      if recorded
      then observe w.adapter (w.during db')
      else terminated "supervisor could not record child start" (w.during db')

unfoldable pub watch_claimed :
    String → Watch → Option ExecutionRequest → Database → Database × Watched
unfolding watch
watch_claimed supervisor_id w none db = (db, Watched.idle)
watch_claimed supervisor_id w (some row) db = watch supervisor_id w row db

unfoldable pub run_once : String → String → Watch → Database → Database × Watched
unfolding watch_claimed
run_once host_id supervisor_id w db =
    let (db', request) = claim_execution_request db w.claimed host_id supervisor_id in
    watch_claimed supervisor_id w request db'
