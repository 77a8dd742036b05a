-- ===== src/Store/Hosts.antt =====
-- src/eda_lab/store.py: Host Agent sessions, and the Attempts that they own.
use semiconductor_domain_lab.Prelude.{
  ℕ, ◌+◌, String, Bool, not, ◌&&◌, some, [], ◌∷◌, ◌++◌, if◌then◌else◌, leb, ◌==◌, eq_column, str_eq,
}
use semiconductor_domain_lab.Prelude.Table.{update_rows, count_rows, exists_row}
use semiconductor_domain_lab.Store.Schema.{
  Attempt, Host, HostSession, ExecutionOwner, Database, is_session, is_host,
}
use semiconductor_domain_lab.Store.Result.{Result, ok, integrity_error, ◌>>◌, guard}
use semiconductor_domain_lab.Store.Requests.{is_queued}
use semiconductor_domain_lab.Store.Attempts.{is_running, update_attempt}

abbrev pub new_session : ℕ → ExecutionOwner → ℕ → HostSession
new_session now o ttl = record {
  session_id = o.session_id;
  host_id = o.host_id;
  host_epoch = o.host_epoch;
  heartbeat_at = now;
  lease_expires_at = now + ttl;
}

abbrev pub new_host : ℕ → ExecutionOwner → Host
new_host now o = record {
  host_id = o.host_id;
  current_epoch = o.host_epoch;
  current_session_id = o.session_id;
  updated_at = now;
}

abbrev pub set_current : ℕ → ExecutionOwner → Host → Host
set_current now o h = record h {
  current_epoch = o.host_epoch;
  current_session_id = o.session_id;
  updated_at = now;
}

-- Both rows are written, or neither: a session identifier is used once.
unfoldable pub start_host_session : Database → ℕ → ExecutionOwner → ℕ → Result Database
start_host_session db now o ttl = do
  guard (not (exists_row (is_session o.session_id) db.host_sessions)) integrity_error
  ok (record db {
    host_sessions = db.host_sessions ++ new_session now o ttl ∷ [];
    hosts =
        if exists_row (is_host o.host_id) db.hosts
        then update_rows (is_host o.host_id) (set_current now o) db.hosts
        else db.hosts ++ new_host now o ∷ [];
  })

-- EXISTS (SELECT 1 FROM hosts WHERE current_session_id = …)
abbrev pub is_current : Database → String → Bool
is_current db session_id = exists_row (λ h. str_eq h.current_session_id session_id) db.hosts

unfoldable pub heartbeat_host_session : Database → ℕ → String → ℕ → Database × Bool
heartbeat_host_session db now session_id ttl =
    let here = λ (s : HostSession). is_session session_id s && is_current db s.session_id in
    (
      record db {
        host_sessions =
            update_rows here (λ s. record s { heartbeat_at = now; lease_expires_at = now + ttl })
              db.host_sessions;
      },
      count_rows here db.host_sessions == 1,
    )

-- EXISTS (SELECT 1 FROM host_sessions s JOIN hosts h ON h.current_session_id = s.session_id
--   WHERE s.session_id = ? AND s.lease_expires_at >= ?)
abbrev pub is_live_session : Database → ℕ → String → Bool
is_live_session db now session_id =
    exists_row
      (λ s. is_session session_id s && leb now s.lease_expires_at && is_current db s.session_id)
      db.host_sessions

-- The same, with the host and its epoch.
abbrev pub is_live_owner : Database → ℕ → ExecutionOwner → Bool
is_live_owner db now o =
    exists_row
      (λ s.
        is_session o.session_id s
        && str_eq s.host_id o.host_id
        && str_eq s.host_epoch o.host_epoch
        && leb now s.lease_expires_at
        && is_current db s.session_id)
      db.host_sessions

-- The result is the number of Attempts refreshed.
unfoldable pub heartbeat_queued_execution_attempts : Database → ℕ → String → ℕ → Database × ℕ
heartbeat_queued_execution_attempts db now session_id ttl =
    let is_pending = λ (a : Attempt).
      exists_row (λ e. eq_column a.execution_id e.execution_id && is_queued e)
        db.execution_requests in
    let here = λ (a : Attempt).
      is_running a
      && eq_column a.execution_host_session session_id
      && is_pending a
      && is_live_session db now session_id in
    (
      record db {
        attempts =
            update_rows here
              (λ a. record a {
                heartbeat_at = some now;
                lease_expires_at = some (now + ttl);
                updated_at = now;
              })
              db.attempts;
      },
      count_rows here db.attempts,
    )

-- `updated` and `seen` are the two readings of the clock.
unfoldable pub record_attempt_execution :
    Database → ℕ → ℕ → String → ℕ → String → ExecutionOwner → String → Database × Bool
unfolding update_attempt
record_attempt_execution db updated seen job_id attempt_no token o execution_id =
    update_attempt db job_id attempt_no
      (λ a. is_running a && eq_column a.lease_token token && is_live_owner db seen o)
      λ a. record a {
        execution_host_id = some o.host_id;
        execution_host_epoch = some o.host_epoch;
        execution_host_session = some o.session_id;
        execution_id = some execution_id;
        updated_at = updated;
      }
