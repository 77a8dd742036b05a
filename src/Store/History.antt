-- ===== src/Store/History.antt =====
-- src/eda_lab/store.py: any sequence of calls of the fenced methods, by any processes and on any
-- Attempts. `record_attempt` is not among them: it writes an Attempt without a fence.
pub mod Phases
use semiconductor_domain_lab.Prelude.{ℕ, String, Bool, Option, List, [], ◌∷◌}
use semiconductor_domain_lab.Store.Schema.{ExecutionOwner, Database}
use semiconductor_domain_lab.Store.Attempts.{
  Outcome, acquire_attempt_lease, heartbeat_attempt, record_attempt_process, transition_attempt,
  claim_recovery, release_recovery_claim,
}
use semiconductor_domain_lab.Store.Hosts.{record_attempt_execution}
use semiconductor_domain_lab.Store.Finalize.{
  Completion, finalize_recovery, finalize_attempt_and_run,
}

-- A call with its readings of the clock; every one names its Attempt.
pub data Call : Type 0 where
  acquire : ℕ → String → ℕ → String → String → ℕ → Call
  heartbeat : ℕ → String → ℕ → String → ℕ → Call
  process : ℕ → String → ℕ → String → ℕ → ℕ → Option String → Option ℕ → Option ℕ → Call
  execution : ℕ → ℕ → String → ℕ → String → ExecutionOwner → String → Call
  transition : ℕ → ℕ → ℕ → String → ℕ → String → Outcome → Call
  claim : ℕ → String → ℕ → String → String → ℕ → Call
  release : ℕ → String → ℕ → String → Call
  complete : ℕ → String → ℕ → String → Completion → Call
  recover : ℕ → String → ℕ → String → String → String → Call

unfoldable pub apply : Call → Database → Database × Bool
unfolding acquire_attempt_lease heartbeat_attempt record_attempt_process record_attempt_execution
    transition_attempt claim_recovery release_recovery_claim finalize_attempt_and_run
    finalize_recovery
apply (Call.acquire now j n owner token ttl) db = acquire_attempt_lease db now j n owner token ttl
apply (Call.heartbeat now j n token ttl) db = heartbeat_attempt db now j n token ttl
apply (Call.process now j n token pid started identity group deadline) db =
    record_attempt_process db now j n token pid started identity group deadline
apply (Call.execution updated now j n token o execution_id) db =
    record_attempt_execution db updated now j n token o execution_id
apply (Call.transition updated now recovered j n token o) db =
    transition_attempt db updated now recovered j n token o
apply (Call.claim now j n owner token ttl) db = claim_recovery db now j n owner token ttl
apply (Call.release now j n token) db = release_recovery_claim db now j n token
apply (Call.complete now j n token c) db = finalize_attempt_and_run db now j n token c
apply (Call.recover now j n token error_type error) db =
    finalize_recovery db now j n token error_type error

-- The calls one after the other, each committed before the next.
unfoldable pub replay : List Call → Database → Database
unfolding apply
replay [] db = db
replay (c ∷ cs) db = replay cs (apply c db).0
