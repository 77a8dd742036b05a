-- ===== src/Service/Recover.antt =====
-- src/eda_lab/service.py: `JobService.recover_stale_runs`. What a pass observes outside the store is
-- an `Observation` of each Run: its future, the child process, the clock at each call, the token;
-- what other processes commit after the claim is `meanwhile`. The lists of the result are the
-- decisions, each with its Run, in the order in which the pass takes them.
use semiconductor_domain_lab.Prelude.{
  ℕ, ◌-◌, String, Bool, true, false, not, ◌&&◌, Option, none, some, List, [], ◌∷◌, if◌then◌else◌,
  ◌==◌, ltb, leb, str_eq, eq_column,
}
use semiconductor_domain_lab.Prelude.Table.{exists_row}
use semiconductor_domain_lab.Models.{RunStatus}
use semiconductor_domain_lab.Store.Schema.{Attempt, Database, ExecutionOwner}
use semiconductor_domain_lab.Store.Runs.{RunView, no_fields, update_run, list_stale_running}
use semiconductor_domain_lab.Store.Attempts.{
  claim_recovery, release_recovery_claim, list_expired_leased_attempts,
}
use semiconductor_domain_lab.Store.Requests.{get_termination_witness}
use semiconductor_domain_lab.Store.Finalize.{finalize_recovery}
use semiconductor_domain_lab.Service.Submit.{Config}

-- What `os.kill(pid, 0)` says: no such process, no error, or another error, which is not caught.
pub data Child : Type 0 where
  gone present denied : Child

pub record Observation : Type 0 where
  -- the Run has a future that is not done
  pub live_future : Bool
  pub failed : ℕ
  pub recovery_token : String
  pub claimed : ℕ
  pub meanwhile : Database → Database
  pub child : Child
  -- `_process_identity` of the child
  pub identity : Option String
  pub checked : ℕ
  -- `os.killpg` was called without an error
  pub signalled : Bool
  pub released : ℕ
  pub finalized : ℕ

-- The list of the result that a Run is put in; `raised` is an error that ends the pass.
pub data Decision : Type 0 where
  recovered skipped_live skipped_live_child skipped_active_lease : Decision
  skipped_recovery_claim orphan_termination_requested deferred_remote_execution raised : Decision

-- attempts[-1]
unfoldable pub last_attempt : List Attempt → Option Attempt
last_attempt [] = none
last_attempt (a ∷ rest) = elim (last_attempt rest) [ none ↦ some a | some b ↦ some b ]

-- The truth of a text column: neither NULL nor empty.
abbrev pub is_set : Option String → Bool
is_set none = false
is_set (some s) = not (str_eq s "")

abbrev differs : Option ExecutionOwner → Option String → Bool
differs none session = true
differs (some o) session = not (eq_column session o.session_id)

-- The Attempt belongs to a session that is not this process's.
abbrev pub is_remote : Config → Attempt → Bool
is_remote cfg a =
    is_set a.execution_host_session && differs cfg.execution_owner a.execution_host_session

abbrev pub has_witness : Database → Attempt → Bool
has_witness db a = elim (get_termination_witness db a.execution_id) [ none ↦ false | some w ↦ true ]

-- identity in {None, …}
abbrev pub same_identity : Option String → Option String → Bool
same_identity none seen = true
same_identity (some s) seen = eq_column seen s

abbrev pub is_past : Option ℕ → ℕ → Bool
is_past none now = false
is_past (some deadline) now = leb deadline now

abbrev pub eq_option : Option ℕ → ℕ → Bool
eq_option none n = false
eq_option (some m) n = m == n

module _ (cfg : Config) (o : Observation) (job_id : String) (a : Attempt) where
  abbrev decided : Database × Bool → Decision → Decision → Database × Decision
  decided (db, true) accepted refused = (db, accepted)
  decided (db, false) accepted refused = (db, refused)

  unfoldable pub finish : String → String → Database → Database × Decision
  finish error_type error db =
      decided
        (finalize_recovery db o.finalized job_id a.attempt_no o.recovery_token error_type error)
        Decision.recovered Decision.skipped_recovery_claim

  unfoldable pub release : Decision → Database → Database × Decision
  release d db = ((release_recovery_claim db o.released job_id a.attempt_no o.recovery_token).0, d)

  -- The child is gone, or there was none.
  unfoldable pub without_child : Database → Database × Decision
  unfolding finish
  without_child db =
      if has_witness db a
      then finish "supervisor_terminated"
          "recovery: supervised execution ended without an accepted completion" db
      else finish "worker_unavailable" "recovery: stale RUNNING record without live worker" db

  unfoldable pub with_child : ℕ → Database → Database × Decision
  unfolding finish release
  with_child pid db =
      if not (is_past a.orphan_deadline o.checked)
      then release Decision.skipped_live_child db
      else if same_identity a.process_identity o.identity
          && eq_option a.process_group_id pid
          && o.signalled
      then release Decision.orphan_termination_requested db
      else finish "orphan_deadline_identity_unknown"
          "recovery: orphan deadline expired without a safely terminable child identity" db

  unfoldable pub observe_child : Option ℕ → Child → Database → Database × Decision
  unfolding without_child with_child
  observe_child none child db = without_child db
  observe_child (some pid) Child.gone db = without_child db
  observe_child (some pid) Child.present db = with_child pid db
  observe_child (some pid) Child.denied db = (db, Decision.raised)

  unfoldable pub claim : Database → Database × Decision
  unfolding observe_child
  claim db =
      let (db', held) =
        claim_recovery db o.claimed job_id a.attempt_no cfg.worker_id o.recovery_token
          cfg.recovery_lease_seconds in
      if held
      then observe_child a.process_pid o.child (o.meanwhile db')
      else (db', Decision.skipped_recovery_claim)

  unfoldable pub recover_attempt : List (String × ℕ) → Database → Database × Decision
  unfolding claim
  recover_attempt expired_leases db =
      if is_remote cfg a && not (has_witness db a)
      then (db, Decision.deferred_remote_execution)
      else if is_set a.lease_token
          && not (exists_row (λ e. str_eq e.0 job_id && e.1 == a.attempt_no) expired_leases)
      then (db, Decision.skipped_active_lease)
      else claim db

unfoldable pub recover_last :
    Config
    → Observation
    → String
    → List (String × ℕ)
    → Option Attempt
    → Database
    → Database × Decision
unfolding recover_attempt
recover_last cfg o job_id expired_leases none db = (
  update_run db o.failed job_id (record no_fields {
    status = some RunStatus.failed;
    error = some (some "recovery: stale RUNNING record without an Attempt");
  }),
  Decision.recovered,
)
recover_last cfg o job_id expired_leases (some a) db =
    recover_attempt cfg o job_id a expired_leases db

-- One round of the loop; the Run is as the pass read it at its start.
unfoldable pub recover_run :
    Config → Observation → List (String × ℕ) → RunView → Database → Database × Decision
unfolding recover_last last_attempt
recover_run cfg o expired_leases v db =
    if o.live_future
    then (db, Decision.skipped_live)
    else recover_last cfg o v.run.job_id expired_leases (last_attempt v.attempts) db

abbrev is_raised : Decision → Bool
is_raised Decision.raised = true
is_raised _ = false

unfoldable pub recover_runs :
    Config
    → (String → Observation)
    → List (String × ℕ)
    → List RunView
    → Database
    → Database × List (String × Decision)
unfolding recover_run
recover_runs cfg observe expired_leases [] db = (db, [])
recover_runs cfg observe expired_leases (v ∷ vs) db =
    let (db', d) = recover_run cfg (observe v.run.job_id) expired_leases v db in
    let (after, rest) = recover_runs cfg observe expired_leases vs db' in
    if is_raised d then (db', (v.run.job_id, d) ∷ []) else (after, (v.run.job_id, d) ∷ rest)

-- The cutoff is a float, which may be below every time.
unfoldable pub recover_stale_runs :
    Config → (String → Observation) → ℕ → ℕ → ℕ → Database → Database × List (String × Decision)
unfolding recover_runs
recover_stale_runs cfg observe now listed stale_after_seconds db =
    if ltb now stale_after_seconds
    then (db, [])
    else recover_runs cfg observe (list_expired_leased_attempts db listed)
        (list_stale_running db (now - stale_after_seconds)) db
