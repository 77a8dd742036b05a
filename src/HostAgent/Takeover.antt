-- ===== src/HostAgent/Takeover.antt =====
-- src/eda_lab/host_agent.py: a host has one live agent.
use semiconductor_domain_lab.Prelude.{
  ℕ, String, true, false, not, ◌&&◌, List, ◌≡◌, refl, str_eq, arith,
}
use semiconductor_domain_lab.Prelude.Table.{exists_row}
use semiconductor_domain_lab.Store.Schema.{Database, is_host}
use semiconductor_domain_lab.Store.Result.{ok}
use semiconductor_domain_lab.Store.Hosts.{start_host_session}
use semiconductor_domain_lab.Store.Keys.{HasKeys}
use semiconductor_domain_lab.Store.Sessions.{Superseded, start_host_session-Superseded}
use semiconductor_domain_lab.HostAgent.{
  Agent, Beat, Drained, start, beat, beat_started, heartbeat, drain,
}

started-session :
    (agent agent' : Agent) (now : ℕ) (db db' : Database)
    → start agent now db ≡ ok (db', agent')
    → start_host_session db now agent.owner agent.lease_seconds ≡ ok db'
unfolding start
started-session agent agent' now db db' h = ground arith

drain-Superseded :
    (db : Database) (agent : Agent)
    → Superseded db agent.owner.session_id
    → agent.started ≡ true
    → (worker : Database → Database × List String) (b : Beat)
    → drain worker agent b db ≡ (db, agent, Drained.superseded)
unfolding drain heartbeat
drain-Superseded db agent s e worker b =
    let r = s.heartbeat b.beating agent.lease_seconds in rw (e, beat_started, beat, r.0, r.1) refl

-- Once another agent has started a session on the host, whatever its epoch, every drain of the
-- agent that was there raises the error of a superseded session: its Worker is not run and nothing
-- is written.
pub drain_after_takeover :
    (db : Database) (k : HasKeys db) (now : ℕ) (other other' : Agent) {db' : Database}
    → start other now db ≡ ok (db', other')
    → (agent : Agent) → agent.started ≡ true
    → str_eq other.owner.session_id agent.owner.session_id ≡ false
    → exists_row
        (λ h.
          not (is_host other.owner.host_id h) && str_eq h.current_session_id agent.owner.session_id)
        db.hosts
      ≡ false
    → (worker : Database → Database × List String) (b : Beat)
    → drain worker agent b db' ≡ (db', agent, Drained.superseded)
drain_after_takeover db k now other other' {db'} taken agent e ne only =
    drain-Superseded db' agent
      (start_host_session-Superseded db k now other.lease_seconds other.owner
        (started-session other other' now db db' taken) agent.owner.session_id ne only)
      e
