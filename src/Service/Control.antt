-- ===== src/Service/Control.antt =====
-- src/eda_lab/service.py: what the other threads of a service do: the checks of its construction, its
-- execution owner, `cancel`, the heartbeats of an Attempt, and the record of its child process.
use semiconductor_domain_lab.Prelude.{
  ℕ, ◌+◌, String, Bool, true, false, not, ◌&&◌, ◌||◌, Option, none, some, List, [], ◌∷◌,
  if◌then◌else◌, ◌==◌, str_eq,
}
use semiconductor_domain_lab.Models.{RunStatus, TrustStatus}
use semiconductor_domain_lab.Store.Schema.{ExecutionOwner, Database}
use semiconductor_domain_lab.Store.Runs.{RunFields, no_fields, update_run}
use semiconductor_domain_lab.Store.Attempts.{heartbeat_attempt, record_attempt_process}
use semiconductor_domain_lab.Store.Hosts.{heartbeat_host_session}
use semiconductor_domain_lab.Service.Submit.{ExecutionMode}

pub data ServiceError : Type 0 where
  value_error runtime_error : String → ServiceError

-- The mode that a text names.
unfoldable pub mode_of : String → Option ExecutionMode
mode_of s =
    if str_eq s "local"
    then some ExecutionMode.local
    else if str_eq s "external"
    then some ExecutionMode.external
    else if str_eq s "supervised"
    then some ExecutionMode.supervised
    else none

-- The first check of `__init__` that fails; durations are in ticks.
unfoldable pub construction_error : ℕ → ℕ → String → ℕ → Option ServiceError
unfolding mode_of
construction_error recovery_lease orphan_grace execution_mode retry_after =
    if recovery_lease == 0 || orphan_grace == 0
    then some (ServiceError.value_error "recovery and orphan durations must be positive")
    else elim (mode_of execution_mode) [
      | none ↦ some (ServiceError.value_error "execution_mode must be local or external")
      | some mode ↦
          if retry_after == 0
          then some (ServiceError.value_error "backpressure_retry_after_seconds must be positive")
          else none
    ]

abbrev is_blank : String → Bool
is_blank String.[] = true
is_blank (String.◌∷◌ c s) = false

abbrev same_owner : ExecutionOwner → ExecutionOwner → Bool
same_owner a b =
    str_eq a.host_id b.host_id
    && str_eq a.host_epoch b.host_epoch
    && str_eq a.session_id b.session_id

abbrev pub changes_owner : Option ExecutionOwner → ExecutionOwner → Bool
changes_owner none owner = false
changes_owner (some old) owner = not (same_owner old owner)

-- What `set_execution_owner` stores, or raises. The dictionary has the three keys.
pub data Owned : Type 0 where
  owned_by : ExecutionOwner → Owned
  refused : ServiceError → Owned

unfoldable pub set_execution_owner : Option ExecutionOwner → ExecutionOwner → Owned
set_execution_owner old owner =
    if is_blank owner.host_id || (is_blank owner.host_epoch || is_blank owner.session_id)
    then Owned.refused
        (ServiceError.value_error "execution owner requires host_id, host_epoch, and session_id")
    else if changes_owner old owner
    then Owned.refused
        (ServiceError.runtime_error "a JobService instance cannot change Host Agent session")
    else Owned.owned_by owner

-- A future of the service: `cancel` reaches it before it runs, or not.
pub data Future : Type 0 where
  waiting running : Future

abbrev pub cancelled_fields : RunFields
cancelled_fields = record no_fields {
  status = some RunStatus.cancelled;
  trust_status = some TrustStatus.invalid;
  error = some (some "cancelled before execution");
}

-- `cancel_adapter` is what the adapter's `cancel` answers; false where it has none.
unfoldable pub cancel : Option Future → Bool → ℕ → String → Database → Database × Bool
unfolding update_run
cancel none cancel_adapter now job_id db = (db, false)
cancel (some Future.waiting) cancel_adapter now job_id db =
    (update_run db now job_id cancelled_fields, true)
cancel (some Future.running) cancel_adapter now job_id db = (db, cancel_adapter)

-- The session's heartbeat, where the service has an execution owner.
unfoldable pub beat_session : Option ExecutionOwner → ℕ → ℕ → Database → Database × Bool
unfolding heartbeat_host_session
beat_session none now lease_seconds db = (db, true)
beat_session (some owner) now lease_seconds db =
    heartbeat_host_session db now owner.session_id lease_seconds

-- The rounds of the loop, at the times at which `stop.wait` runs out.
unfoldable pub heartbeat_loop :
    Option ExecutionOwner → ℕ → String → ℕ → String → List ℕ → Database → Database
unfolding beat_session heartbeat_attempt
heartbeat_loop owner lease_seconds job_id attempt_no token [] db = db
heartbeat_loop owner lease_seconds job_id attempt_no token (now ∷ times) db =
    let (db₁, alive) = beat_session owner now lease_seconds db in
    let (db₂, held) = heartbeat_attempt db₁ now job_id attempt_no token lease_seconds in
    let rest = heartbeat_loop owner lease_seconds job_id attempt_no token times db₂ in
    if not alive then db₁ else if not held then db₂ else rest

-- What the operating system says of the child.
pub record Observed : Type 0 where
  pub identity : Option String
  pub group : Option ℕ

-- The Attempt that the thread runs, with its token; none in a thread that runs none.
unfoldable pub record_adapter_process :
    Option (String × ℕ × String) → ℕ → ℕ → ℕ → ℕ → Observed → Database → Database
unfolding record_attempt_process
record_adapter_process none orphan_grace updated now pid o db = db
record_adapter_process (some (job_id, attempt_no, token)) orphan_grace updated now pid o db =
    (record_attempt_process db updated job_id attempt_no token pid now o.identity o.group
      (some (now + orphan_grace))).0
