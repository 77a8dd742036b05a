-- ===== src/Service/Beats.antt =====
-- src/eda_lab/service.py: the heartbeats of an Attempt that is not the service's any more.
use semiconductor_domain_lab.Prelude.{
  ℕ, String, true, false, not, ap, Bool-cases, inl, inr, ◌&&◌, none, some, List, [], ◌∷◌, ◌≡◌, refl,
  str_eq,
}
use semiconductor_domain_lab.Store.Schema.{ExecutionOwner, HostSession, Database, is_host}
use semiconductor_domain_lab.Prelude.Table.{exists_row}
use semiconductor_domain_lab.Store.Attempts.{is_running_status, update_attempt, heartbeat_attempt}
use semiconductor_domain_lab.Store.Finalize.{Completion, finalize_attempt_and_run}
use semiconductor_domain_lab.Store.Result.{ok}
use semiconductor_domain_lab.Store.Hosts.{start_host_session, heartbeat_host_session}
use semiconductor_domain_lab.Store.Keys.{HasKeys}
use semiconductor_domain_lab.Store.Fence.{Refused}
use semiconductor_domain_lab.Store.Terminal.{AllRefused, accepted-AllRefused}
use semiconductor_domain_lab.Store.Sessions.{Superseded, start_host_session-Superseded}
use semiconductor_domain_lab.Service.Control.{beat_session, heartbeat_loop}

heartbeat_loop-Superseded :
    (db : Database) (owner : ExecutionOwner) (lease : ℕ) (j : String) (n : ℕ) (token : String)
    (times : List ℕ)
    → Superseded db owner.session_id
    → heartbeat_loop (some owner) lease j n token times db ≡ db
unfolding heartbeat_loop beat_session
heartbeat_loop-Superseded db owner lease j n token [] s = refl
heartbeat_loop-Superseded db owner lease j n token (now ∷ times) s =
    rw (s.heartbeat now lease).0 (s.heartbeat now lease).1

-- A service without an owner whose Attempt has ended.
heartbeat_loop-AllRefused :
    (db : Database) (lease : ℕ) (j : String) (n : ℕ) (token : String) (times : List ℕ)
    → AllRefused db j n
    → heartbeat_loop none lease j n token times db ≡ db
unfolding heartbeat_loop beat_session
heartbeat_loop-AllRefused db lease j n token [] a = refl
heartbeat_loop-AllRefused db lease j n token (now ∷ times) a =
    rw (a.heartbeat now token lease).0 (a.heartbeat now token lease).1

-- The heartbeat of the Attempt is refused whatever the sessions are.
late_heartbeat :
    (db : Database) (hs : List HostSession) (now lease : ℕ) (j : String) (n : ℕ) (token : String)
    → AllRefused db j n
    → Refused
        (record db { host_sessions = hs })
        (heartbeat_attempt (record db { host_sessions = hs }) now j n token lease)
unfolding heartbeat_attempt update_attempt
late_heartbeat db hs now lease j n token a = (
  (a.heartbeat now token lease).0,
  ap {A = Database} (λ d. record d { host_sessions = hs }) (a.heartbeat now token lease).1,
)

-- The database is the other one but for its `host_sessions`.
abbrev pub OnlySessions : Database → Database → Type 0
OnlySessions db db' = db' ≡ record db { host_sessions = db'.host_sessions }

heartbeat_loop-OnlySessions :
    (db : Database) (owner : ExecutionOwner) (lease : ℕ) (j : String) (n : ℕ) (token : String)
    (times : List ℕ)
    → AllRefused db j n
    → OnlySessions db (heartbeat_loop (some owner) lease j n token times db)
unfolding heartbeat_loop beat_session heartbeat_host_session
heartbeat_loop-OnlySessions db owner lease j n token [] a = refl
heartbeat_loop-OnlySessions db owner lease j n token (now ∷ times) a =
    let db₁ = (heartbeat_host_session db now owner.session_id lease).0 in
    let late = late_heartbeat db db₁.host_sessions now lease j n token a in
    elim (Bool-cases (heartbeat_host_session db now owner.session_id lease).1) [
      | inl alive ↦ rw (alive, late.0, late.1) refl
      | inr gone ↦ rw gone refl
    ]

-- Once a completion of an Attempt with a final status is accepted, from whatever process, the
-- heartbeats that its service still sends, however many they are and whatever their token, write
-- nothing where the service has no execution owner, and nothing but `host_sessions` where it has one;
-- and once a host has started a new session, which no other host has, the heartbeats of a service
-- under the old session write nothing at all, for whatever Attempt.
pub heartbeat_loop-refused :
    (db : Database) (k : HasKeys db) (now : ℕ) (j : String) (n : ℕ) (token : String)
    (c : Completion) (o owner : ExecutionOwner) (ttl : ℕ) (db' : Database)
    → is_running_status c.outcome.status ≡ false
    → (finalize_attempt_and_run db now j n token c).1 ≡ true
    → start_host_session db now o ttl ≡ ok db'
    → str_eq o.session_id owner.session_id ≡ false
    → exists_row
        (λ h. not (is_host o.host_id h) && str_eq h.current_session_id owner.session_id)
        db.hosts
      ≡ false
    → (mine : ExecutionOwner) (lease : ℕ) (i : String) (m : ℕ) (late : String) (times : List ℕ)
    → (heartbeat_loop none lease j n late times (finalize_attempt_and_run db now j n token c).0
        ≡ (finalize_attempt_and_run db now j n token c).0)
      × OnlySessions (finalize_attempt_and_run db now j n token c).0 (
          heartbeat_loop
            (some mine)
            lease
            j
            n
            late
            times
            (finalize_attempt_and_run db now j n token c).0)
      × (heartbeat_loop (some owner) lease i m late times db' ≡ db')
heartbeat_loop-refused db k now j n token c o owner ttl db' final accepted started other only mine
      lease i m late times =
    (
      heartbeat_loop-AllRefused _ lease j n late times
          (accepted-AllRefused db k now j n token c final accepted),
      heartbeat_loop-OnlySessions _ mine lease j n late times
          (accepted-AllRefused db k now j n token c final accepted),
      heartbeat_loop-Superseded db' owner lease i m late times
          (start_host_session-Superseded db k now ttl o started owner.session_id other only),
    )
