-- ===== src/Store/Sessions.antt =====
-- src/eda_lab/store.py: a Host Agent that starts a new session supersedes its old one.
use mathlib.Core.Path.{subst}
use semiconductor_domain_lab.Prelude.{
  ℕ, ◌≤◌, String, Bool, false, not, ◌&&◌, Option, none, some, List, [], ◌∷◌, ◌++◌, ◌≡◌, refl, arith,
  Bool-cases, inl, inr, str_eq, eq_iff, if◌then◌else◌, eq_column,
}
use semiconductor_domain_lab.Prelude.Table.{
  count_rows, exists_row, update_rows, passes, update-count_zero, count-update_le,
}
use semiconductor_domain_lab.Prelude.Rows.{count_none, exists_none, append_unique}
use semiconductor_domain_lab.Store.Schema.{
  Attempt, Host, HostSession, ExecutionOwner, Database, is_session, is_host,
}
use semiconductor_domain_lab.Store.Result.{ok}
use semiconductor_domain_lab.Store.Hosts.{
  new_session, new_host, set_current, start_host_session, heartbeat_host_session,
  heartbeat_queued_execution_attempts, record_attempt_execution, is_current, is_live_session,
  is_live_owner,
}
use semiconductor_domain_lab.Store.Requests.{is_queued}
use semiconductor_domain_lab.Store.Attempts.{is_running}
use semiconductor_domain_lab.Store.Finalize.{Completion, finalize_attempt_and_run}
use semiconductor_domain_lab.Store.Keys.{HasKeys, attempt_at}
use semiconductor_domain_lab.Store.Fence.{
  Refused, update_attempt-Refused, finalize_attempt_and_run-Refused,
}

-- Nothing goes on under a session that is no host's current one.
pub record Superseded (db : Database) (old : String) : Type 0 where
  pub heartbeat : (now ttl : ℕ) → Refused db (heartbeat_host_session db now old ttl)
  pub refresh :
      (now ttl : ℕ)
      → ((heartbeat_queued_execution_attempts db now old ttl).1 ≡ 0)
        × ((heartbeat_queued_execution_attempts db now old ttl).0 ≡ db)
  pub register :
      (updated now : ℕ) (j : String) (n : ℕ) (token : String) (o : ExecutionOwner)
      (execution_id : String)
      → o.session_id ≡ old
      → Refused db (record_attempt_execution db updated now j n token o execution_id)
  pub complete :
      (now : ℕ) (j : String) (n : ℕ) (token : String) (c : Completion) (o : ExecutionOwner)
      → c.execution_owner ≡ some o
      → o.session_id ≡ old
      → Refused db (finalize_attempt_and_run db now j n token c)

module _ (db : Database) (k : HasKeys db) (old : String) (gone : is_current db old ≡ false) where
  dead_session : (s : HostSession) → (is_session old s && is_current db s.session_id) ≡ false
  dead_session s = elim (Bool-cases (is_session old s)) [
    | inr e ↦ rw e
    | inl e ↦ rw (e, (eq_iff s.session_id old).0 e, gone)
  ]

  dead_live : (now : ℕ) → is_live_session db now old ≡ false
  dead_live now = exists_none _ db.host_sessions (λ s. ground (arith, dead_session s))

  dead_owner : (now : ℕ) (o : ExecutionOwner) → o.session_id ≡ old → is_live_owner db now o ≡ false
  dead_owner now o e = exists_none _ db.host_sessions (λ s. rw e (ground (arith, dead_session s)))

  -- Under a session that is no host's current one no heartbeat is taken, no queued Attempt is
  -- refreshed, no Attempt gets it as its execution owner, and no completion with it is accepted.
  pub not_current-Superseded : Superseded db old
  unfolding heartbeat_host_session heartbeat_queued_execution_attempts record_attempt_execution
  not_current-Superseded = record {
    heartbeat = λ now ttl.
        let none_hit = count_none _ db.host_sessions dead_session in
        (rw none_hit, rw (update-count_zero _ _ db.host_sessions none_hit));
    refresh = λ now ttl.
        let none_hit =
          count_none (refreshes now) db.attempts (λ a. rw (dead_live now) (ground arith)) in
        (none_hit, rw (update-count_zero _ _ db.attempts none_hit));
    register = λ updated now j n token o execution_id e.
        update_attempt-Refused db k j n _ _
          (passes_none _ (attempt_at db j n) (λ a. rw (dead_owner now o e) (ground arith)));
    complete = λ now j n token c o owner e.
        finalize_attempt_and_run-Refused db k j n now token c
          (passes_none _ (attempt_at db j n) (λ a. rw (owner, e, dead_live now) (ground arith)));
  }
    where
      refreshes : ℕ → Attempt → Bool
      refreshes now a =
          is_running a
          && eq_column a.execution_host_session old
          && exists_row (λ e. eq_column a.execution_id e.execution_id && is_queued e)
              db.execution_requests
          && is_live_session db now old

      passes_none :
          (g : Attempt → Bool) (o : Option Attempt)
          → ((a : Attempt) → g a ≡ false)
          → passes g o ≡ false
      passes_none g none h = refl
      passes_none g (some a) h = h a

moved :
    (now : ℕ) (o : ExecutionOwner) (old : String) (hs : List Host)
    → str_eq o.session_id old ≡ false
    → exists_row (λ h. not (is_host o.host_id h) && str_eq h.current_session_id old) hs ≡ false
    → exists_row
        (λ h. str_eq h.current_session_id old)
        (update_rows (is_host o.host_id) (set_current now o) hs)
      ≡ false
unfolding exists_row update_rows
moved now o old [] ne only = refl
moved now o old (h ∷ hs) ne only = ground (arith, moved now o old hs)

added :
    (now : ℕ) (o : ExecutionOwner) (old : String) (hs : List Host)
    → str_eq o.session_id old ≡ false
    → exists_row (is_host o.host_id) hs ≡ false
    → exists_row (λ h. not (is_host o.host_id h) && str_eq h.current_session_id old) hs ≡ false
    → exists_row (λ h. str_eq h.current_session_id old) (hs ++ new_host now o ∷ []) ≡ false
unfolding exists_row
added now o old [] ne none_here only = rw ne
added now o old (h ∷ hs) ne none_here only = ground (arith, added now o old hs ne)

module _ (db : Database) (k : HasKeys db) (now ttl : ℕ) (o : ExecutionOwner) where
  abbrev hosts_after : List Host
  hosts_after =
      if exists_row (is_host o.host_id) db.hosts
      then update_rows (is_host o.host_id) (set_current now o) db.hosts
      else db.hosts ++ new_host now o ∷ []

  hosts_after-key : (h : String) → count_rows (is_host h) hosts_after ≤ 1
  hosts_after-key h = elim (Bool-cases (exists_row (is_host o.host_id) db.hosts)) [
    | inl e ↦ rw e (count-update_le (is_host h) _ _ (λ x. refl) db.hosts (k.host_key h))
    | inr e ↦ rw e (append_unique (λ x. x.host_id) db.hosts (new_host now o) e h (k.host_key h))
  ]

  hosts_after-current :
      (old : String)
      → str_eq o.session_id old ≡ false
      → exists_row (λ h. not (is_host o.host_id h) && str_eq h.current_session_id old) db.hosts
        ≡ false
      → exists_row (λ h. str_eq h.current_session_id old) hosts_after ≡ false
  hosts_after-current old ne only = elim (Bool-cases (exists_row (is_host o.host_id) db.hosts)) [
    | inl e ↦ rw e (moved now o old db.hosts ne only)
    | inr e ↦ rw e (added now o old db.hosts ne e only)
  ]

  abbrev started_db : Database
  started_db = record db {
    host_sessions = db.host_sessions ++ new_session now o ttl ∷ [];
    hosts = hosts_after;
  }

  started_of :
      {db' : Database}
      → start_host_session db now o ttl ≡ ok db'
      → (exists_row (is_session o.session_id) db.host_sessions ≡ false) × (started_db ≡ db')
  unfolding start_host_session
  started_of h = elim (Bool-cases (exists_row (is_session o.session_id) db.host_sessions)) [
    | inl e ↦ absurd (ground arith)
    | inr e ↦ (e, ok-injective (rw e at h))
  ]
    where
      ok-injective : {x y : Database} → ok x ≡ ok y → x ≡ y
      ok-injective e = cc

  pub start_host_session-HasKeys :
      {db' : Database} → start_host_session db now o ttl ≡ ok db' → HasKeys db'
  start_host_session-HasKeys started =
      let s = started_of started in
      subst HasKeys s.1 (record {
        run_key = k.run_key;
        attempt_key = k.attempt_key;
        session_key = λ x.
            append_unique (λ y. y.session_id) db.host_sessions (new_session now o ttl) s.0 x
              (k.session_key x);
        host_key = hosts_after-key;
        request_key = k.request_key;
        witness_key = k.witness_key;
        revision_key = k.revision_key;
      })

  -- When a host starts a new session, its old one is superseded: if no other host has the old
  -- session, no heartbeat is taken under it any more, no queued Attempt refreshed, no execution
  -- owner registered, and no completion accepted.
  pub start_host_session-Superseded :
      {db' : Database}
      → start_host_session db now o ttl ≡ ok db'
      → (old : String) → str_eq o.session_id old ≡ false
      → exists_row (λ h. not (is_host o.host_id h) && str_eq h.current_session_id old) db.hosts
        ≡ false
      → Superseded db' old
  start_host_session-Superseded {db'} started old ne only =
      not_current-Superseded db' (start_host_session-HasKeys started) old (
        subst (λ d. is_current d old ≡ false) (started_of started).1
          (hosts_after-current old ne only))
