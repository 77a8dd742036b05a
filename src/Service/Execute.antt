-- ===== src/Service/Execute.antt =====
-- src/eda_lab/service.py: `JobService._execute`, the loop over the Attempts of one Run. The
-- executor's threads, the resource slots and the progress notices, which write nothing to the
-- store, are left out; what the heartbeat thread and every other process commit while the adapter
-- runs is `during`. An Attempt's clock readings and identifiers are given by its script.
use semiconductor_domain_lab.Prelude.{
  ℕ, zero, suc, String, Bool, true, false, Option, none, some, if◌then◌else◌, ltb,
}
use semiconductor_domain_lab.Models.{RunStatus, AttemptStatus, TrustStatus, JobSpec, Dict}
use semiconductor_domain_lab.Store.Schema.{Database, ExecutionOwner}
use semiconductor_domain_lab.Store.Result.{ok, err}
use semiconductor_domain_lab.Store.Runs.{RunFields, no_fields, update_run, save_metrics}
use semiconductor_domain_lab.Store.Attempts.{
  Outcome, record_attempt, acquire_attempt_lease, heartbeat_attempt, transition_attempt,
}
use semiconductor_domain_lab.Store.Hosts.{record_attempt_execution}
use semiconductor_domain_lab.Store.Requests.{enqueue_execution_request}
use semiconductor_domain_lab.Store.Finalize.{Completion, finalize_attempt_and_run}
use semiconductor_domain_lab.Service.Text.{◌++◌, show_ℕ}
use semiconductor_domain_lab.Service.Validation.{Collected, completion_of, saved_metrics}
use semiconductor_domain_lab.Service.Submit.{Config, ExecutionMode}

-- What the adapter does, with the parse of the artifact that it returns.
pub data AdapterOutcome : Type 0 where
  returned : Collected → AdapterOutcome
  -- AdapterCancelledError, TimeoutError, ConnectionError, any other exception
  cancelled timed_out disconnected failed : String → AdapterOutcome

-- What one Attempt meets: its identifiers, the clock as each call reads it, and the adapter.
pub record Script : Type 0 where
  pub lease_token : String
  pub execution_id : String
  pub started : ℕ
  pub recorded : ℕ
  pub leased : ℕ
  pub registered : ℕ
  pub owner_seen : ℕ
  pub enqueued : ℕ
  pub during : Database → Database
  pub adapter : AdapterOutcome
  pub collected : ℕ
  pub finalized : ℕ
  pub handled : ℕ
  pub handled_lease : ℕ
  pub handled_recovery : ℕ

-- An exception inside the `try` of an Attempt.
pub data Raised : Type 0 where
  cancelled timed_out disconnected other : String → Raised

-- How the `try` block of an Attempt ends: it returns, or raises.
pub data Body : Type 0 where
  returns : Body
  raises : Raised → Body

-- How an Attempt ends, its handlers included: `_execute` returns, goes on with the next Attempt, or
-- lets the RuntimeError of a lost lease fence out.
pub data Ending : Type 0 where
  finished retry fence_lost : Ending

module _ (cfg : Config) (spec : JobSpec) (attempt_no : ℕ) (s : Script) where
  -- `_finalize_attempt_and_run`; false stands for its RuntimeError.
  unfoldable pub finalize : ℕ → Completion → Database → Database × Bool
  finalize now c db = finalize_attempt_and_run db now spec.job_id attempt_no s.lease_token c

  unfoldable pub keep_metrics : Option Dict → Database → Database × Body
  keep_metrics none db = (db, Body.returns)
  keep_metrics (some payload) db = elim (save_metrics db spec.job_id payload) [
    | ok db' ↦ (db', Body.returns)
    | err e ↦ (db, Body.raises (Raised.other "FOREIGN KEY constraint failed"))
  ]

  -- From `parse_report` on: the completion, and then the metrics.
  unfoldable pub complete : Collected → Database → Database × Body
  complete c db =
      let (db', kept) = finalize s.finalized (completion_of cfg.execution_owner c) db in
      if kept
      then keep_metrics (saved_metrics c) db'
      else (db', Body.raises (Raised.other "attempt and run terminal write lost its lease fence"))

  -- What follows `self.adapter.run(spec)`.
  unfoldable pub collect : AdapterOutcome → Database → Database × Body
  collect (AdapterOutcome.cancelled e) db = (db, Body.raises (Raised.cancelled e))
  collect (AdapterOutcome.timed_out e) db = (db, Body.raises (Raised.timed_out e))
  collect (AdapterOutcome.disconnected e) db = (db, Body.raises (Raised.disconnected e))
  collect (AdapterOutcome.failed e) db = (db, Body.raises (Raised.other e))
  collect (AdapterOutcome.returned c) db =
      let (db', alive) =
        heartbeat_attempt db s.collected spec.job_id attempt_no s.lease_token cfg.lease_seconds in
      if alive
      then complete c db'
      else (db', Body.raises (Raised.other "attempt lease was lost before result collection"))

  -- The supervised mode hands the Attempt to the Supervisor of the owner's host.
  unfoldable pub enqueue : Option ExecutionOwner → Database → Database × Body
  enqueue none db =
      (db, Body.raises (Raised.other "supervised execution requires a Host Agent owner"))
  enqueue (some o) db =
      let (db', queued) =
        enqueue_execution_request db s.enqueued s.execution_id spec.job_id attempt_no o.host_id
          (record { spec = spec; lease_token = s.lease_token; execution_owner = o }) in
      if queued
      then (db', Body.returns)
      else (db', Body.raises (Raised.other "execution request enqueue failed"))

  unfoldable pub run_or_enqueue : ExecutionMode → Database → Database × Body
  run_or_enqueue ExecutionMode.supervised db = enqueue cfg.execution_owner db
  run_or_enqueue _ db = collect s.adapter (s.during db)

  unfoldable pub register : Option ExecutionOwner → Database → Database × Bool
  register none db = (db, true)
  register (some o) db =
      record_attempt_execution db s.registered s.owner_seen spec.job_id attempt_no s.lease_token o
        s.execution_id

  unfoldable pub lease_and_run : Database → Database × Body
  lease_and_run db =
      let (db₁, leased) =
        acquire_attempt_lease db s.leased spec.job_id attempt_no cfg.worker_id s.lease_token
          cfg.lease_seconds in
      if leased
      then (let (db₂, owned) = register cfg.execution_owner db₁ in
          if owned
          then run_or_enqueue cfg.execution_mode db₂
          else (db₂, Body.raises (Raised.other "attempt execution owner registration failed")))
      else (db₁, Body.raises (Raised.other "attempt lease acquisition failed"))

  abbrev pub new_outcome : Outcome
  new_outcome = record {
    status = AttemptStatus.running;
    error_type = none;
    error = none;
    artifact_path = none;
    retry_class = some "not_classified";
  }

  -- The `try` block. Without its Run the Attempt cannot be recorded.
  unfoldable pub body : Database → Database × Body
  body db = elim (record_attempt db s.started s.recorded spec.job_id attempt_no new_outcome) [
    | ok db' ↦ lease_and_run db'
    | err e ↦ (db, Body.raises (Raised.other "FOREIGN KEY constraint failed"))
  ]

  abbrev pub distrusted : RunFields
  distrusted = record no_fields { trust_status = some TrustStatus.invalid }

  abbrev pub ended : AttemptStatus → RunStatus → String → String → String → RunFields → Completion
  ended status run_status error_type error retry_class fields = record {
    outcome = record {
      status = status;
      error_type = some error_type;
      error = some error;
      artifact_path = none;
      retry_class = some retry_class;
    };
    run_status = run_status;
    run_fields = fields;
    execution_owner = cfg.execution_owner;
  }

  abbrev pub fenced : Database × Bool → Ending → Database × Ending
  fenced (db, true) e = (db, e)
  fenced (db, false) e = (db, Ending.fence_lost)

  -- `except (TimeoutError, ConnectionError)`
  unfoldable pub transient : String → RunStatus → String → Database → Database × Ending
  unfolding finalize
  transient error_type terminal_status message db =
      if ltb attempt_no cfg.max_attempts
      then fenced
          (transition_attempt db s.handled s.handled_lease s.handled_recovery spec.job_id attempt_no
            s.lease_token
            (record {
              status = AttemptStatus.retryable_failure;
              error_type = some error_type;
              error = some message;
              artifact_path = none;
              retry_class = some "retryable";
            }))
          Ending.retry
      else fenced
          (finalize s.handled
            (ended AttemptStatus.retryable_failure terminal_status error_type
              (error_type ++ (": exhausted after " ++ (show_ℕ attempt_no ++ " attempts")))
              "retryable" distrusted)
            db)
          Ending.finished

  -- The `except` clauses.
  unfoldable pub handle : Raised → Database → Database × Ending
  unfolding transient finalize
  handle (Raised.cancelled e) db =
      fenced
        (finalize s.handled
          (ended AttemptStatus.cancelled RunStatus.cancelled "cancelled" e "non_retryable"
            distrusted)
          db)
        Ending.finished
  handle (Raised.timed_out e) db = transient "timeout" RunStatus.timed_out e db
  handle (Raised.disconnected e) db = transient "transport_error" RunStatus.failed e db
  handle (Raised.other e) db =
      fenced
        (finalize s.handled
          (ended AttemptStatus.failed RunStatus.failed "execution_error" e "non_retryable"
            no_fields)
          db)
        Ending.finished

  unfoldable pub after_body : Database × Body → Database × Ending
  unfolding handle
  after_body (db, Body.returns) = (db, Ending.finished)
  after_body (db, Body.raises e) = handle e db

  -- One round of the loop.
  unfoldable pub attempt : Database → Database × Ending
  unfolding after_body
  attempt db = after_body (body db)

-- `for attempt_no in range(1, max_attempts + 1)`, by the rounds left; `scripts` gives each Attempt
-- its script. The last ending is `retry` only where the loop has run out of rounds.
unfoldable pub attempts : Config → JobSpec → (ℕ → Script) → ℕ → ℕ → Database → Database × Ending
attempts cfg spec scripts zero attempt_no db = (db, Ending.retry)
attempts cfg spec scripts (suc rounds) attempt_no db =
    let (db', e) = attempt cfg spec attempt_no (scripts attempt_no) db in
    elim e [
      | Ending.retry ↦ attempts cfg spec scripts rounds (suc attempt_no) db'
      | Ending.finished ↦ (db', Ending.finished)
      | Ending.fence_lost ↦ (db', Ending.fence_lost)
    ]

unfoldable pub execute : Config → JobSpec → (ℕ → Script) → ℕ → Database → Database × Ending
execute cfg spec scripts now db =
    attempts cfg spec scripts cfg.max_attempts 1
      (update_run db now spec.job_id (record no_fields { status = some RunStatus.running }))
