-- ===== src/Store/Attempts.antt =====
-- src/eda_lab/store.py: the methods on Attempts and their leases. Each clock reading of a method
-- is an argument, in the order in which the method reads the clock.
use semiconductor_domain_lab.Prelude.{
  ℕ, ◌+◌, String, Bool, true, false, not, ◌&&◌, ◌||◌, Option, none, some, List, [], ◌∷◌, ◌++◌, map,
  if◌then◌else◌, ◌==◌, is_null, lt_column, ge_column, eq_column, coalesce,
}
use semiconductor_domain_lab.Prelude.Table.{update_rows, count_rows, select_rows, exists_row}
use semiconductor_domain_lab.Models.{AttemptStatus}
use semiconductor_domain_lab.Store.Schema.{Attempt, Database, is_run, is_attempt}
use semiconductor_domain_lab.Store.Result.{Result, ok, integrity_error, ◌>>◌, guard}

abbrev pub is_running_status : AttemptStatus → Bool
is_running_status AttemptStatus.running = true
is_running_status _ = false

-- status = 'RUNNING'
abbrev pub is_running : Attempt → Bool
is_running a = is_running_status a.status

-- UPDATE attempts SET … WHERE job_id = ? AND attempt_no = ? AND guard; the result is
-- `cursor.rowcount == 1`.
unfoldable pub update_attempt :
    Database → String → ℕ → (Attempt → Bool) → (Attempt → Attempt) → Database × Bool
update_attempt db job_id attempt_no g f =
    let here = λ (a : Attempt). is_attempt job_id attempt_no a && g a in
    (record db { attempts = update_rows here f db.attempts }, count_rows here db.attempts == 1)

-- The keyword arguments of the methods that write a status.
pub record Outcome : Type 0 where
  pub status : AttemptStatus
  pub error_type : Option String
  pub error : Option String
  pub artifact_path : Option String
  pub retry_class : Option String

-- The columns of `attempts` that a row gets by default.
abbrev pub new_attempt : String → ℕ → Outcome → ℕ → ℕ → Attempt
new_attempt job_id attempt_no o started updated = record {
  job_id = job_id;
  attempt_no = attempt_no;
  status = o.status;
  error_type = o.error_type;
  error = o.error;
  artifact_path = o.artifact_path;
  retry_class = o.retry_class;
  started_at = started;
  updated_at = updated;
  lease_owner = none;
  lease_token = none;
  lease_expires_at = none;
  heartbeat_at = none;
  process_pid = none;
  process_started_at = none;
  process_identity = none;
  process_group_id = none;
  orphan_deadline = none;
  execution_host_id = none;
  execution_host_epoch = none;
  execution_host_session = none;
  execution_id = none;
  recovery_owner = none;
  recovery_token = none;
  recovery_expires_at = none;
}

-- The columns that a change of status writes.
abbrev pub set_status : Outcome → ℕ → Attempt → Attempt
set_status o now a = record a {
  status = o.status;
  error_type = o.error_type;
  error = o.error;
  artifact_path = coalesce o.artifact_path a.artifact_path;
  retry_class = o.retry_class;
  updated_at = now;
}

-- INSERT … ON CONFLICT DO UPDATE. `started` and `updated` are the two readings of the clock.
unfoldable pub record_attempt : Database → ℕ → ℕ → String → ℕ → Outcome → Result Database
record_attempt db started updated job_id attempt_no o = do
  guard (exists_row (is_run job_id) db.runs) integrity_error
  ok (record db {
    attempts =
        if exists_row (is_attempt job_id attempt_no) db.attempts
        then update_rows (is_attempt job_id attempt_no) (set_status o updated) db.attempts
        else db.attempts ++ new_attempt job_id attempt_no o started updated ∷ [];
  })

-- status = 'RUNNING' AND (lease_expires_at IS NULL OR lease_expires_at < now)
abbrev pub can_lease : ℕ → Attempt → Bool
can_lease now a = is_running a && (is_null a.lease_expires_at || lt_column a.lease_expires_at now)

abbrev pub set_lease : ℕ → String → String → ℕ → Attempt → Attempt
set_lease now owner token ttl a = record a {
  lease_owner = some owner;
  lease_token = some token;
  heartbeat_at = some now;
  lease_expires_at = some (now + ttl);
  updated_at = now;
}

unfoldable pub acquire_attempt_lease :
    Database → ℕ → String → ℕ → String → String → ℕ → Database × Bool
unfolding update_attempt
acquire_attempt_lease db now job_id attempt_no owner token ttl =
    update_attempt db job_id attempt_no (can_lease now) (set_lease now owner token ttl)

-- status = 'RUNNING' AND lease_token = token AND lease_expires_at >= now
abbrev pub holds_lease : ℕ → String → Attempt → Bool
holds_lease now token a =
    is_running a && eq_column a.lease_token token && ge_column a.lease_expires_at now

unfoldable pub heartbeat_attempt : Database → ℕ → String → ℕ → String → ℕ → Database × Bool
unfolding update_attempt
heartbeat_attempt db now job_id attempt_no token ttl =
    update_attempt db job_id attempt_no (holds_lease now token) λ a. record a {
      heartbeat_at = some now;
      lease_expires_at = some (now + ttl);
      updated_at = now;
    }

unfoldable pub record_attempt_process :
    Database
    → ℕ
    → String
    → ℕ
    → String
    → ℕ
    → ℕ
    → Option String
    → Option ℕ
    → Option ℕ
    → Database × Bool
unfolding update_attempt
record_attempt_process db now job_id attempt_no token pid started_at identity group deadline =
    update_attempt db job_id attempt_no (λ a. is_running a && eq_column a.lease_token token)
      λ a. record a {
        process_pid = some pid;
        process_started_at = some started_at;
        process_identity = identity;
        process_group_id = group;
        orphan_deadline = deadline;
        updated_at = now;
      }

-- … AND (recovery_token IS NULL OR recovery_expires_at < now)
abbrev pub no_recovery : ℕ → Attempt → Bool
no_recovery now a = is_null a.recovery_token || lt_column a.recovery_expires_at now

-- `updated`, `leased` and `recovered` are the three readings of the clock.
unfoldable pub transition_attempt :
    Database → ℕ → ℕ → ℕ → String → ℕ → String → Outcome → Database × Bool
unfolding update_attempt
transition_attempt db updated leased recovered job_id attempt_no token o =
    update_attempt db job_id attempt_no (λ a. holds_lease leased token a && no_recovery recovered a)
      (set_status o updated)

unfoldable pub claim_recovery : Database → ℕ → String → ℕ → String → String → ℕ → Database × Bool
unfolding update_attempt
claim_recovery db now job_id attempt_no owner token ttl =
    update_attempt db job_id attempt_no
      (λ a. is_running a && lt_column a.lease_expires_at now && no_recovery now a)
      λ a. record a {
        recovery_owner = some owner;
        recovery_token = some token;
        recovery_expires_at = some (now + ttl);
        updated_at = now;
      }

-- status = 'RUNNING' AND recovery_token = token
abbrev pub holds_recovery : String → Attempt → Bool
holds_recovery token a = is_running a && eq_column a.recovery_token token

unfoldable pub release_recovery_claim : Database → ℕ → String → ℕ → String → Database × Bool
unfolding update_attempt
release_recovery_claim db now job_id attempt_no token =
    update_attempt db job_id attempt_no (holds_recovery token) λ a. record a {
      recovery_owner = none;
      recovery_token = none;
      recovery_expires_at = none;
      updated_at = now;
    }

-- Without the ORDER BY: its one caller makes a set of the result.
unfoldable pub list_expired_leased_attempts : Database → ℕ → List (String × ℕ)
list_expired_leased_attempts db cutoff =
    map (λ a. (a.job_id, a.attempt_no))
      (select_rows
        (λ a. is_running a && not (is_null a.lease_token) && lt_column a.lease_expires_at cutoff)
        db.attempts)
