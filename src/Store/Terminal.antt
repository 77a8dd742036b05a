-- ===== src/Store/Terminal.antt =====
-- src/eda_lab/store.py: an Attempt that has ended is not written again by any fenced method.
use semiconductor_domain_lab.Prelude.{
  ℕ, String, Bool, true, false, Option, some, ◌≡◌, arith, inl, inr,
}
use semiconductor_domain_lab.Prelude.Table.{passes}
use semiconductor_domain_lab.Store.Schema.{Attempt, ExecutionOwner, Database}
use semiconductor_domain_lab.Store.Attempts.{
  Outcome, is_running_status, is_running, update_attempt, acquire_attempt_lease, heartbeat_attempt,
  record_attempt_process, transition_attempt, claim_recovery, release_recovery_claim,
}
use semiconductor_domain_lab.Store.Hosts.{record_attempt_execution}
use semiconductor_domain_lab.Store.Finalize.{
  Completion, finalize_recovery, finalize_attempt_and_run,
}
use semiconductor_domain_lab.Store.Keys.{HasKeys, attempt_at}
use semiconductor_domain_lab.Store.Abandon.{finalize_recovery_atomic, finalize_recovery-HasKeys}
use semiconductor_domain_lab.Store.Atomic.{
  finalize_attempt_and_run_atomic, finalize_attempt_and_run-HasKeys,
}
use semiconductor_domain_lab.Store.Fence.{
  Refused, update_attempt-Refused, finalize_attempt_and_run-Refused, finalize_recovery-Refused,
}

-- Every fenced method at once, whatever it is called with.
pub record AllRefused (db : Database) (j : String) (n : ℕ) : Type 0 where
  pub acquire :
      (now : ℕ) (owner token : String) (ttl : ℕ)
      → Refused db (acquire_attempt_lease db now j n owner token ttl)
  pub heartbeat :
      (now : ℕ) (token : String) (ttl : ℕ) → Refused db (heartbeat_attempt db now j n token ttl)
  pub process :
      (now : ℕ) (token : String) (pid started : ℕ) (identity : Option String)
      (group deadline : Option ℕ)
      → Refused db (record_attempt_process db now j n token pid started identity group deadline)
  pub execution :
      (updated now : ℕ) (token : String) (o : ExecutionOwner) (execution_id : String)
      → Refused db (record_attempt_execution db updated now j n token o execution_id)
  pub transition :
      (updated now recovered : ℕ) (token : String) (o : Outcome)
      → Refused db (transition_attempt db updated now recovered j n token o)
  pub claim :
      (now : ℕ) (owner token : String) (ttl : ℕ)
      → Refused db (claim_recovery db now j n owner token ttl)
  pub release : (now : ℕ) (token : String) → Refused db (release_recovery_claim db now j n token)
  pub complete :
      (now : ℕ) (token : String) (c : Completion)
      → Refused db (finalize_attempt_and_run db now j n token c)
  pub recover :
      (now : ℕ) (token error_type error : String)
      → Refused db (finalize_recovery db now j n token error_type error)

module _ (db : Database) (k : HasKeys db) (j : String) (n : ℕ) (a : Attempt)
    (here : attempt_at db j n ≡ some a) (ended : is_running a ≡ false) where
  -- An Attempt that is there and is not RUNNING is refused by every fenced method, whatever the
  -- time, the tokens and the other arguments, and the database stays as it was: no lease, no
  -- heartbeat, no process, no execution owner, no second end and no recovery.
  pub ended-AllRefused : AllRefused db j n
  unfolding acquire_attempt_lease heartbeat_attempt record_attempt_process record_attempt_execution
      transition_attempt claim_recovery release_recovery_claim
  ended-AllRefused = record {
    acquire = λ now owner token ttl. refuse _ _ (rw here (ground arith));
    heartbeat = λ now token ttl. refuse _ _ (rw here (ground arith));
    process = λ now token pid started identity group deadline. refuse _ _ (rw here (ground arith));
    execution = λ updated now token o execution_id. refuse _ _ (rw here (ground arith));
    transition = λ updated now recovered token o. refuse _ _ (rw here (ground arith));
    claim = λ now owner token ttl. refuse _ _ (rw here (ground arith));
    release = λ now token. refuse _ _ (rw here (ground arith));
    complete = λ now token c.
        finalize_attempt_and_run-Refused db k j n now token c (rw here (ground arith));
    recover = λ now token error_type error.
        finalize_recovery-Refused db k j n now token error_type error (rw here (ground arith));
  }
    where
      refuse :
          (g : Attempt → Bool) (f : Attempt → Attempt)
          → passes g (attempt_at db j n) ≡ false
          → Refused db (update_attempt db j n g f)
      refuse = update_attempt-Refused db k j n

-- Once a completion with a final status is accepted, every fenced method refuses the Attempt: at
-- most one completion of an Attempt is accepted, and none together with a recovery.
pub accepted-AllRefused :
    (db : Database) (k : HasKeys db) (now : ℕ) (j : String) (n : ℕ) (token : String)
    (c : Completion)
    → is_running_status c.outcome.status ≡ false
    → (finalize_attempt_and_run db now j n token c).1 ≡ true
    → AllRefused (finalize_attempt_and_run db now j n token c).0 j n
accepted-AllRefused db k now j n token c final accepted =
    elim (finalize_attempt_and_run_atomic db k now j n token c) [
      | inl (refused, _) ↦ cc
      | inr (_, e, _, _) ↦
          ended-AllRefused _ (finalize_attempt_and_run-HasKeys db k now j n token c) j n _
            e.attempt_after final
    ]

-- Once a recovery is accepted, every fenced method refuses the Attempt: no completion of it is
-- accepted any more, and no second recovery.
pub recovered-AllRefused :
    (db : Database) (k : HasKeys db) (now : ℕ) (j : String) (n : ℕ)
    (token error_type error : String)
    → (finalize_recovery db now j n token error_type error).1 ≡ true
    → AllRefused (finalize_recovery db now j n token error_type error).0 j n
recovered-AllRefused db k now j n token error_type error accepted =
    elim (finalize_recovery_atomic db k now j n token error_type error) [
      | inl (refused, _) ↦ cc
      | inr (_, e, _) ↦
          ended-AllRefused _ (finalize_recovery-HasKeys db k now j n token error_type error) j n _
            e.attempt_after (ground arith)
    ]
