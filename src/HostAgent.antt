-- ===== src/HostAgent.antt =====
-- src/eda_lab/host_agent.py: `HostAgent`, one host-local session that drives a Worker. What the
-- Worker does in one `drain` is a parameter; the session identifier that `uuid4` makes is the owner's.
use semiconductor_domain_lab.Prelude.{ℕ, String, Bool, true, false, List, if◌then◌else◌}
use semiconductor_domain_lab.Store.Schema.{Database, ExecutionOwner}
use semiconductor_domain_lab.Store.Result.{Result, ok, err, StoreError}
use semiconductor_domain_lab.Store.Hosts.{
  start_host_session, heartbeat_host_session, heartbeat_queued_execution_attempts,
}
pub mod Takeover

-- `lease_seconds` is the service's.
pub record Agent : Type 0 where
  pub owner : ExecutionOwner
  pub lease_seconds : ℕ
  pub started : Bool

-- The clock at each call of the store that a heartbeat makes.
pub record Beat : Type 0 where
  pub starting : ℕ
  pub beating : ℕ
  pub refreshing : ℕ

unfoldable pub start : Agent → ℕ → Database → Result (Database × Agent)
start agent now db = elim (start_host_session db now agent.owner agent.lease_seconds) [
  | ok db' ↦ ok (db', record agent { started = true })
  | err e ↦ err e
]

-- The second half of `heartbeat`, with the session registered.
unfoldable pub beat : Agent → Beat → Database → Database × Bool
beat agent b db =
    let (db', alive) =
      heartbeat_host_session db b.beating agent.owner.session_id agent.lease_seconds in
    if alive
    then (
      (heartbeat_queued_execution_attempts db' b.refreshing agent.owner.session_id
          agent.lease_seconds).0,
      true,
    )
    else (db', false)

unfoldable pub beat_started : Beat → Database × Agent → Database × Agent × Bool
unfolding beat
beat_started b (db, agent) = let (db', alive) = beat agent b db in (db', agent, alive)

unfoldable pub heartbeat : Agent → Beat → Database → Result (Database × Agent × Bool)
unfolding start beat_started
heartbeat agent b db =
    if agent.started then ok (beat_started b (db, agent)) else elim (start agent b.starting db) [
      | ok started ↦ ok (beat_started b started)
      | err e ↦ err e
    ]

-- What `drain` returns or raises: the jobs that the Worker has completed, the RuntimeError of a
-- superseded session, or an error of the store.
pub data Drained : Type 0 where
  completed : List String → Drained
  superseded : Drained
  store_error : StoreError → Drained

abbrev run_worker :
    (Database → Database × List String) → Database × Agent × Bool → Database × Agent × Drained
run_worker worker (db, agent, true) =
    let (db', jobs) = worker db in (db', agent, Drained.completed jobs)
run_worker worker (db, agent, false) = (db, agent, Drained.superseded)

unfoldable pub drain :
    (Database → Database × List String) → Agent → Beat → Database → Database × Agent × Drained
unfolding heartbeat
drain worker agent b db = elim (heartbeat agent b db) [
  | ok r ↦ run_worker worker r
  | err e ↦ (db, agent, Drained.store_error e)
]
