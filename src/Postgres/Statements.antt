-- ===== src/Postgres/Statements.antt =====
-- src/eda_lab/postgres_store.py: the methods on Attempts and host sessions whose one statement is
-- the SQLite store's, on tables of other names. Each of them reads the clock once.
use semiconductor_domain_lab.Prelude.{ℕ, String, Bool, Option}
use semiconductor_domain_lab.Store.Schema.{Database, ExecutionOwner}
use semiconductor_domain_lab.Store.Result.{Result}
use semiconductor_domain_lab.Store.Attempts.{
  Outcome, acquire_attempt_lease as store_acquire_attempt_lease,
  heartbeat_attempt as store_heartbeat_attempt, record_attempt as store_record_attempt,
  record_attempt_process as store_record_attempt_process,
  transition_attempt as store_transition_attempt, claim_recovery as store_claim_recovery,
  release_recovery_claim as store_release_recovery_claim,
}
use semiconductor_domain_lab.Store.Hosts.{
  heartbeat_host_session as store_heartbeat_host_session,
  record_attempt_execution as store_record_attempt_execution,
}

unfoldable pub acquire_attempt_lease :
    Database → ℕ → String → ℕ → String → String → ℕ → Database × Bool
acquire_attempt_lease db now job_id attempt_no owner token ttl =
    store_acquire_attempt_lease db now job_id attempt_no owner token ttl

unfoldable pub heartbeat_attempt : Database → ℕ → String → ℕ → String → ℕ → Database × Bool
heartbeat_attempt db now job_id attempt_no token ttl =
    store_heartbeat_attempt db now job_id attempt_no token ttl

unfoldable pub record_attempt : Database → ℕ → String → ℕ → Outcome → Result Database
record_attempt db now job_id attempt_no o = store_record_attempt db now now job_id attempt_no o

unfoldable pub record_attempt_process :
    Database
    → ℕ
    → String
    → ℕ
    → String
    → ℕ
    → ℕ
    → Option String
    → Option ℕ
    → Option ℕ
    → Database × Bool
record_attempt_process db now job_id attempt_no token pid started_at identity group deadline =
    store_record_attempt_process db now job_id attempt_no token pid started_at identity group
      deadline

unfoldable pub transition_attempt : Database → ℕ → String → ℕ → String → Outcome → Database × Bool
transition_attempt db now job_id attempt_no token o =
    store_transition_attempt db now now now job_id attempt_no token o

unfoldable pub claim_recovery : Database → ℕ → String → ℕ → String → String → ℕ → Database × Bool
claim_recovery db now job_id attempt_no owner token ttl =
    store_claim_recovery db now job_id attempt_no owner token ttl

unfoldable pub release_recovery_claim : Database → ℕ → String → ℕ → String → Database × Bool
release_recovery_claim db now job_id attempt_no token =
    store_release_recovery_claim db now job_id attempt_no token

unfoldable pub heartbeat_host_session : Database → ℕ → String → ℕ → Database × Bool
heartbeat_host_session db now session_id ttl = store_heartbeat_host_session db now session_id ttl

unfoldable pub record_attempt_execution :
    Database → ℕ → String → ℕ → String → ExecutionOwner → String → Database × Bool
record_attempt_execution db now job_id attempt_no token o execution_id =
    store_record_attempt_execution db now now job_id attempt_no token o execution_id
