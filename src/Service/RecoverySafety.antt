-- ===== src/Service/RecoverySafety.antt =====
-- src/eda_lab/service.py, `recover_stale_runs`: which Runs a pass may end, and which it may not touch.
use semiconductor_domain_lab.Prelude.{
  ℕ, ◌<◌, String, Bool, true, false, ◌&&◌, Option, none, some, List, ◌≡◌, ◌≢◌, refl, sym, ap, ◌∙◌,
  ◌⊎◌, inl, inr, arith, Bool-cases, not, ◌==◌, str_eq, lt_column,
}
use semiconductor_domain_lab.Prelude.Table.{count_rows, exists_row, passes}
use semiconductor_domain_lab.Models.{RunStatus, AttemptStatus}
use semiconductor_domain_lab.Store.Schema.{Attempt, Database}
use semiconductor_domain_lab.Store.Runs.{RunView}
use semiconductor_domain_lab.Store.Attempts.{
  is_running, no_recovery, claim_recovery, holds_recovery,
}
use semiconductor_domain_lab.Store.Keys.{HasKeys, attempt_at, update_attempt_miss}
use semiconductor_domain_lab.Store.Atomic.{Ended}
use semiconductor_domain_lab.Store.Written.{lt_column-some, running_status}
use semiconductor_domain_lab.Store.Abandon.{active_of, finalize_recovery_atomic}
use semiconductor_domain_lab.Store.Fence.{claim_recovery_before}
use semiconductor_domain_lab.Service.Submit.{Config}
use semiconductor_domain_lab.Service.Recover.{
  Observation, Child, is_set, is_past, same_identity, eq_option, Decision, last_attempt, is_remote,
  has_witness, finish, release, without_child, with_child, observe_child, claim, recover_attempt,
  recover_run,
}

abbrev is_recovered : Decision → Bool
is_recovered Decision.recovered = true
is_recovered _ = false

not_recovered : false ≡ true → ⊥
not_recovered e = cc

module _ (cfg : Config) (o : Observation) (job_id : String) (a : Attempt) where
  abbrev pub claimed_of : Database → Database × Bool
  claimed_of db =
      claim_recovery db o.claimed job_id a.attempt_no cfg.worker_id o.recovery_token
        cfg.recovery_lease_seconds

  -- The Attempt was RUNNING, and its lease had run out at the claim.
  pub record RunOut (db : Database) : Type 0 where
    pub attempt : Attempt
    pub stored : attempt_at db job_id a.attempt_no ≡ some attempt
    pub running : attempt.status ≡ AttemptStatus.running
    pub expiry : ℕ
    pub lease : attempt.lease_expires_at ≡ some expiry
    pub past : expiry < o.claimed

  -- What a recovery has done: the claim, and then the end of the Attempt and its Run.
  pub record Recovered (db db' : Database) : Type 0 where
    pub error_type : String
    pub error : String
    pub claim_held : (claimed_of db).1 ≡ true
    pub run_out : RunOut db
    pub ended :
        Ended
          (o.meanwhile (claimed_of db).0)
          db'
          job_id
          a.attempt_no
          (holds_recovery o.recovery_token)
          (λ b. record b {
            status = AttemptStatus.abandoned;
            error_type = some error_type;
            error = some error;
            retry_class = some "recovery_required";
            updated_at = o.finalized;
          })
          (λ r. record r {
            status = RunStatus.failed;
            error = some error;
            updated_at = o.finalized;
          })
    pub none_active : count_rows (active_of job_id a.attempt_no) db'.execution_requests ≡ 0

  claimed-RunOut : (db : Database) → HasKeys db → (claimed_of db).1 ≡ true → RunOut db
  claimed-RunOut db k held =
      let (x, old, late, live) =
        claim_recovery_before db k job_id a.attempt_no o.claimed cfg.worker_id o.recovery_token
          cfg.recovery_lease_seconds held in
      let (e, same, past) = lt_column-some x.lease_expires_at o.claimed late in
      record {
        attempt = x;
        stored = old;
        running = running_status x.status live;
        expiry = e;
        lease = same;
        past = past;
      }

  module _ (db : Database) (k₀ : HasKeys db) (held : (claimed_of db).1 ≡ true) where
    abbrev seen : Database
    seen = o.meanwhile (claimed_of db).0

    module _ (k : HasKeys seen) where
      finish-Recovered :
          (error_type error : String)
          → is_recovered (finish cfg o job_id a error_type error seen).1 ≡ true
          → Recovered db (finish cfg o job_id a error_type error seen).0
      unfolding finish
      finish-Recovered error_type error h =
          elim (finalize_recovery_atomic seen k o.finalized job_id a.attempt_no o.recovery_token
            error_type error) [
              | inl (refused, _) ↦ absurd (not_recovered (rw refused at h))
              | inr (accepted, e, none_left) ↦ rw accepted (record {
                error_type = error_type;
                error = error;
                claim_held = held;
                run_out = claimed-RunOut db k₀ held;
                ended = e;
                none_active = none_left;
              })
            ]

      without_child-Recovered :
          is_recovered (without_child cfg o job_id a seen).1 ≡ true
          → Recovered db (without_child cfg o job_id a seen).0
      unfolding without_child
      without_child-Recovered h = elim (Bool-cases (has_witness seen a)) [
        | inl e ↦ rw e (finish-Recovered _ _ (rw e at h))
        | inr e ↦ rw e (finish-Recovered _ _ (rw e at h))
      ]

      with_child-Recovered :
          (pid : ℕ)
          → is_recovered (with_child cfg o job_id a pid seen).1 ≡ true
          → Recovered db (with_child cfg o job_id a pid seen).0
      unfolding with_child release
      with_child-Recovered pid h = elim (Bool-cases (not (is_past a.orphan_deadline o.checked))) [
        | inl e ↦ absurd (not_recovered (rw e at h))
        | inr e ↦
            elim (Bool-cases (
              same_identity a.process_identity o.identity
              && eq_option a.process_group_id pid
              && o.signalled)) [
                | inl t ↦ absurd (not_recovered (rw (e, t) at h))
                | inr t ↦ rw (e, t) (finish-Recovered _ _ (rw (e, t) at h))
              ]
      ]

      observe_child-Recovered :
          (pid : Option ℕ) (c : Child)
          → is_recovered (observe_child cfg o job_id a pid c seen).1 ≡ true
          → Recovered db (observe_child cfg o job_id a pid c seen).0
      unfolding observe_child
      observe_child-Recovered none c h = without_child-Recovered h
      observe_child-Recovered (some pid) Child.gone h = without_child-Recovered h
      observe_child-Recovered (some pid) Child.present h = with_child-Recovered pid h
      observe_child-Recovered (some pid) Child.denied h = absurd (not_recovered h)

  claim-Recovered :
      (db : Database)
      → HasKeys db
      → HasKeys (o.meanwhile (claimed_of db).0)
      → is_recovered (claim cfg o job_id a db).1 ≡ true
      → Recovered db (claim cfg o job_id a db).0
  unfolding claim
  claim-Recovered db k₀ k h = elim (Bool-cases (claimed_of db).1) [
    | inl held ↦ rw held (observe_child-Recovered db k₀ held k a.process_pid o.child (rw held at h))
    | inr refused ↦ absurd (not_recovered (rw refused at h))
  ]

  recover_attempt-Recovered :
      (expired_leases : List (String × ℕ)) (db : Database)
      → HasKeys db
      → HasKeys (o.meanwhile (claimed_of db).0)
      → is_recovered (recover_attempt cfg o job_id a expired_leases db).1 ≡ true
      → Recovered db (recover_attempt cfg o job_id a expired_leases db).0
  unfolding recover_attempt
  recover_attempt-Recovered expired_leases db k₀ k h =
      elim (Bool-cases (is_remote cfg a && not (has_witness db a))) [
        | inl e ↦ absurd (not_recovered (rw e at h))
        | inr e ↦
            elim (Bool-cases (
              is_set a.lease_token
              && not (exists_row (λ x. str_eq x.0 job_id && x.1 == a.attempt_no) expired_leases))) [
                | inl t ↦ absurd (not_recovered (rw (e, t) at h))
                | inr t ↦ rw (e, t) (claim-Recovered db k₀ k (rw (e, t) at h))
              ]
      ]

  -- What the pass leaves alone.
  abbrev pub Untouched : Database → Database × Decision → Type 0
  Untouched db r = (r.0 ≡ db) × (r.1 ≢ Decision.recovered)

  stronger :
      (x : Option Attempt)
      → passes (λ y. lt_column y.lease_expires_at o.claimed) x ≡ false
      → passes
          (λ y. is_running y && lt_column y.lease_expires_at o.claimed && no_recovery o.claimed y)
          x
        ≡ false
  stronger none h = refl
  stronger (some y) h = ground arith

  claim-Untouched :
      (db : Database)
      → HasKeys db
      → passes (λ x. lt_column x.lease_expires_at o.claimed) (attempt_at db job_id a.attempt_no)
        ≡ false
      → Untouched db (claim cfg o job_id a db)
  unfolding claim
  claim-Untouched db k live =
      let miss : claimed_of db ≡ (db, false) =
        unfold claim_recovery in
        update_attempt_miss db job_id a.attempt_no _ _ k (stronger _ live) in
      rw (ap (λ r. r.1) miss) (ap (λ r. r.0) miss, λ e. cc)

  -- The Attempt has no lease that has run out at the claim.
  abbrev pub NotRunOut : Database → Type 0
  NotRunOut db =
      passes (λ x. lt_column x.lease_expires_at o.claimed) (attempt_at db job_id a.attempt_no)
      ≡ false

  recover_attempt-Untouched :
      (expired_leases : List (String × ℕ)) (db : Database)
      → HasKeys db
      → NotRunOut db ⊎ ((is_remote cfg a && not (has_witness db a)) ≡ true)
      → Untouched db (recover_attempt cfg o job_id a expired_leases db)
  unfolding recover_attempt
  recover_attempt-Untouched expired_leases db k h =
      elim (Bool-cases (is_remote cfg a && not (has_witness db a))) [
        | inl e ↦ rw e (refl, λ d. cc)
        | inr e ↦
            elim (Bool-cases (
              is_set a.lease_token
              && not (exists_row (λ x. str_eq x.0 job_id && x.1 == a.attempt_no) expired_leases))) [
                | inl t ↦ rw (e, t) (refl, λ d. cc)
                | inr t ↦ elim h [
                  | inl live ↦ rw (e, t) (claim-Untouched db k live)
                  | inr remote ↦ absurd (not_recovered (sym e ∙ remote))
                ]
              ]
      ]

module _ (cfg : Config) (o : Observation) (expired_leases : List (String × ℕ)) (v : RunView)
    (a : Attempt) (last : last_attempt v.attempts ≡ some a) (db : Database) where
  abbrev decision : Database × Decision
  decision = recover_run cfg o expired_leases v db

  -- A recovery pass that reports a Run with an Attempt as recovered has held a recovery claim of the
  -- Run's last Attempt, which was RUNNING in the store with a lease that had run out at the claim, and
  -- has ended the Attempt and its RUNNING Run together as ABANDONED and FAILED, with one error, and
  -- with no active request of the Attempt left; what the other processes do after the claim may be
  -- anything that keeps the primary keys.
  pub recover_run-Recovered :
      HasKeys db
      → HasKeys (o.meanwhile (claimed_of cfg o v.run.job_id a db).0)
      → decision.1 ≡ Decision.recovered
      → Recovered cfg o v.run.job_id a db decision.0
  unfolding recover_run
  recover_run-Recovered k₀ k h = elim (Bool-cases o.live_future) [
    | inl e ↦ absurd (not_recovered (ap is_recovered (rw e at h)))
    | inr e ↦
        simp (e, last)
          (recover_attempt-Recovered cfg o v.run.job_id a expired_leases db k₀ k
            (ap is_recovered (rw (e, last) at h)))
  ]

  -- A recovery pass writes nothing for a Run whose last Attempt has a lease that has not run out, or
  -- that is owned by another session and has no termination witness, and does not report the Run as
  -- recovered.
  pub recover_run-Untouched :
      HasKeys db
      → NotRunOut cfg o v.run.job_id a db ⊎ ((is_remote cfg a && not (has_witness db a)) ≡ true)
      → (decision.0 ≡ db) × (decision.1 ≢ Decision.recovered)
  unfolding recover_run
  recover_run-Untouched k h = elim (Bool-cases o.live_future) [
    | inl e ↦ rw e (refl, λ d. cc)
    | inr e ↦ rw (e, last) (recover_attempt-Untouched cfg o v.run.job_id a expired_leases db k h)
  ]
