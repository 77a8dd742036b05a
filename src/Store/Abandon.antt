-- ===== src/Store/Abandon.antt =====
-- src/eda_lab/store.py, `finalize_recovery`: the two rows and the requests that it ends.
use semiconductor_domain_lab.Prelude.{
  ℕ, List, [], ◌∷◌, String, Bool, true, false, ◌&&◌, ◌==◌, str_eq, some, ◌≡◌, refl, ◌⊎◌, inl, inr,
  arith, Bool-cases,
}
use semiconductor_domain_lab.Prelude.Table.{passes, count_rows, update_rows, count-update_le}
use semiconductor_domain_lab.Models.{RunStatus, AttemptStatus, RequestStatus}
use semiconductor_domain_lab.Store.Schema.{Run, Attempt, ExecutionRequest, Database, is_request}
use semiconductor_domain_lab.Store.Runs.{is_running_run}
use semiconductor_domain_lab.Store.Attempts.{update_attempt, holds_recovery}
use semiconductor_domain_lab.Store.Requests.{is_active}
use semiconductor_domain_lab.Store.Finalize.{update_running_run, retire_requests, finalize_recovery}
use semiconductor_domain_lab.Store.Keys.{
  HasKeys, attempt_at, run_at, update_attempt-HasKeys, update_running_run-HasKeys,
}
use semiconductor_domain_lab.Store.Atomic.{Ended, both_hit, hits-passes}

-- The requests of one Attempt that still hold dispatch capacity.
abbrev pub active_of : String → ℕ → ExecutionRequest → Bool
active_of j n e = str_eq e.job_id j && e.attempt_no == n && is_active e

retired :
    (j : String) (n : ℕ) (es : List ExecutionRequest)
    → count_rows
        (active_of j n)
        (update_rows (active_of j n) (λ e. record e { status = RequestStatus.unavailable }) es)
      ≡ 0
unfolding count_rows update_rows
retired j n [] = refl
retired j n (e ∷ es) = ground (arith, retired j n es)

pub retire_requests-HasKeys :
    {db : Database} (j : String) (n : ℕ) → HasKeys db → HasKeys (retire_requests db j n)
unfolding retire_requests
retire_requests-HasKeys {db} j n k = record {
  run_key = k.run_key;
  attempt_key = k.attempt_key;
  session_key = k.session_key;
  host_key = k.host_key;
  request_key =
      λ e. count-update_le (is_request e) _ _ (λ x. refl) db.execution_requests (k.request_key e);
  witness_key = k.witness_key;
  revision_key = k.revision_key;
}

module _ (db : Database) (k : HasKeys db) (now : ℕ) (j : String) (n : ℕ)
    (token error_type error : String) where
  abbrev recovered : Database × Bool
  recovered = finalize_recovery db now j n token error_type error

  abbrev to_abandoned : Attempt → Attempt
  to_abandoned a = record a {
    status = AttemptStatus.abandoned;
    error_type = some error_type;
    error = some error;
    retry_class = some "recovery_required";
    updated_at = now;
  }

  abbrev to_failed : Run → Run
  to_failed r = record r { status = RunStatus.failed; error = some error; updated_at = now }

  -- `finalize_recovery` returns True exactly when the Attempt is RUNNING under this recovery token
  -- and its Run is RUNNING.
  pub finalize_recovery-decides :
      recovered.1
      ≡ (passes (holds_recovery token) (attempt_at db j n) && passes is_running_run (run_at db j))
  unfolding finalize_recovery
  finalize_recovery-decides =
      rw
        (← hits-passes db k j n (holds_recovery token) to_abandoned to_failed (λ i m a. refl)
          (λ i r. refl))
        (ground arith)

  -- `finalize_recovery` either returns False and leaves the database as it was, or returns True,
  -- has made the Attempt ABANDONED, with the given error and the retry class "recovery_required", and
  -- its RUNNING Run FAILED with that error, together, and has left no request of the Attempt QUEUED,
  -- CLAIMED or RUNNING, and every other Attempt and Run as it was.
  pub finalize_recovery_atomic :
      ((recovered.1 ≡ false) × (recovered.0 ≡ db))
      ⊎ ((recovered.1 ≡ true)
          × Ended db recovered.0 j n (holds_recovery token) to_abandoned to_failed
          × (count_rows (active_of j n) recovered.0.execution_requests ≡ 0))
  unfolding finalize_recovery
  finalize_recovery_atomic =
      let a = update_attempt db j n (holds_recovery token) to_abandoned in
      let r = update_running_run a.0 j to_failed in
      elim (Bool-cases a.1) [
        | inr p ↦ inl (rw p, rw p)
        | inl p ↦ elim (Bool-cases r.1) [
          | inr q ↦ inl (rw (p, q), rw (p, q))
          | inl q ↦ inr (
            rw (p, q),
            rw (p, q) (ended p q),
            rw (p, q) (unfold retire_requests in retired j n r.0.execution_requests),
          )
        ]
      ]
    where
      ended :
          (update_attempt db j n (holds_recovery token) to_abandoned).1 ≡ true
          → (update_running_run
              (update_attempt db j n (holds_recovery token) to_abandoned).0
              j
              to_failed).1
            ≡ true
          → Ended db
              (retire_requests
                (update_running_run
                  (update_attempt db j n (holds_recovery token) to_abandoned).0
                  j
                  to_failed).0
                j
                n)
              j
              n
              (holds_recovery token)
              to_abandoned
              to_failed
      ended p q =
          let e =
            both_hit db k j n (holds_recovery token) to_abandoned to_failed (λ i m a. refl)
              (λ i r. refl) p q in
          record {
            attempt = e.attempt;
            run = e.run;
            attempt_before = e.attempt_before;
            allowed = e.allowed;
            run_before = e.run_before;
            was_running = e.was_running;
            attempt_after = e.attempt_after;
            run_after = e.run_after;
            other_attempts = e.other_attempts;
            other_runs = e.other_runs;
          }

  pub finalize_recovery-HasKeys : HasKeys recovered.0
  unfolding finalize_recovery
  finalize_recovery-HasKeys =
      let k₁ =
        update_attempt-HasKeys db j n (holds_recovery token) to_abandoned (λ i m a. refl) k in
      let k₂ = update_running_run-HasKeys _ j to_failed (λ i r. refl) k₁ in
      let a = update_attempt db j n (holds_recovery token) to_abandoned in
      let r = update_running_run a.0 j to_failed in
      elim (Bool-cases a.1) [
        | inr p ↦ rw p k
        | inl p ↦ elim (Bool-cases r.1) [
          | inr q ↦ rw (p, q) k
          | inl q ↦ rw (p, q) (retire_requests-HasKeys j n k₂)
        ]
      ]
