-- ===== src/Postgres/Fence.antt =====
-- src/eda_lab/postgres_store.py: the fence of a recovery claim. It does not rest on a rollback.
use semiconductor_domain_lab.Prelude.{ℕ, ◌≤◌, String, true, false, ◌≡◌, refl, ap, ◌∙◌}
use semiconductor_domain_lab.Prelude.Table.{passes}
use semiconductor_domain_lab.Store.Schema.{Database}
use semiconductor_domain_lab.Store.Attempts.{Outcome, set_status}
use semiconductor_domain_lab.Store.Finalize.{Completion, may_finalize}
use semiconductor_domain_lab.Store.Keys.{
  HasKeys, attempt_at, hit-update_attempt, update_attempt_miss,
}
use semiconductor_domain_lab.Store.Fence.{
  Refused, may_finalize_after_claim, claim_recovery-HasKeys, claim_recovery_fences_owner,
}
use semiconductor_domain_lab.Postgres.Finalize.{finalize_attempt_and_run}
use semiconductor_domain_lab.Postgres.Statements.{
  heartbeat_attempt, transition_attempt, claim_recovery,
}

finalize_attempt_and_run-Refused :
    (db : Database) (k : HasKeys db) (now : ℕ) (j : String) (n : ℕ) (token : String)
    (c : Completion)
    → passes (may_finalize db now token c.execution_owner) (attempt_at db j n) ≡ false
    → Refused db (finalize_attempt_and_run db now j n token c)
unfolding finalize_attempt_and_run
finalize_attempt_and_run-Refused db k now j n token c h =
    let ga = may_finalize db now token c.execution_owner in
    let fa = set_status c.outcome now in
    let miss = update_attempt_miss db j n ga fa k h in
    rw (hit-update_attempt db j n ga fa k ∙ h) (refl, ap (λ r. r.0) miss)

-- From a successful recovery claim on, the PostgreSQL store too refuses the holder of any lease that
-- was there when it was made: it renews no such lease, and ends the Attempt by no transition and no
-- completion, and it writes nothing.
pub recovery_claim_fences_owner :
    (db : Database) (k : HasKeys db) (j : String) (n t : ℕ) (owner token : String) (ttl : ℕ)
    → (claim_recovery db t j n owner token ttl).1 ≡ true
    → (now : ℕ) (held : String) → t ≤ now
    → (ttl' : ℕ) (o : Outcome) (c : Completion)
    → let db' = (claim_recovery db t j n owner token ttl).0 in
      Refused db' (heartbeat_attempt db' now j n held ttl')
      × Refused db' (transition_attempt db' now j n held o)
      × Refused db' (finalize_attempt_and_run db' now j n held c)
unfolding heartbeat_attempt transition_attempt claim_recovery
recovery_claim_fences_owner db k j n t owner token ttl claimed now held later ttl' o c =
    let fence =
      claim_recovery_fences_owner db k j n t owner token ttl claimed now held later ttl' now now o
        c in
    (
      fence.0,
      fence.1,
      finalize_attempt_and_run-Refused _ (claim_recovery-HasKeys db k j n t owner token ttl claimed)
          now j n held c
          (may_finalize_after_claim db k j n t owner token ttl claimed now held c.execution_owner
            later),
    )
