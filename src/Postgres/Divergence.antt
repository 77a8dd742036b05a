-- ===== src/Postgres/Divergence.antt =====
-- src/eda_lab/postgres_store.py against src/eda_lab/store.py: when the two stores end an Attempt in
-- the same way, and what the first leaves where they do not.
use semiconductor_domain_lab.Prelude.{
  ℕ, String, Bool, true, false, some, ◌≡◌, refl, sym, ap, ◌∙◌, ◌⊎◌, inl, inr, Bool-cases,
  if◌then◌else◌,
}
use semiconductor_domain_lab.Prelude.Table.{passes, set_if, count-key, update-count_zero}
use semiconductor_domain_lab.Models.{RunStatus}
use semiconductor_domain_lab.Store.Schema.{Run, Attempt, Database, is_run, is_attempt}
use semiconductor_domain_lab.Store.Runs.{assign, is_running_run}
use semiconductor_domain_lab.Store.Attempts.{update_attempt, set_status, holds_recovery}
use semiconductor_domain_lab.Store.Finalize.{
  Completion, may_finalize, final_fields, set_abandoned, update_running_run,
  finalize_attempt_and_run as store_finalize, finalize_recovery as store_recovery,
}
use semiconductor_domain_lab.Store.Keys.{
  HasKeys, attempt_at, run_at, hit-update_attempt, update_attempt_miss, at-update_attempt,
  hit-update_running_run, update_attempt-HasKeys,
}
use semiconductor_domain_lab.Postgres.Finalize.{finalize_attempt_and_run, finalize_recovery}

-- The Attempt alone has been ended: its Run was not RUNNING.
pub record AttemptOnly (db db' : Database) (j : String) (n : ℕ) (ga : Attempt → Bool)
    (fa : Attempt → Attempt) : Type 0 where
  pub allowed : passes ga (attempt_at db j n) ≡ true
  pub run_not_running : passes is_running_run (run_at db j) ≡ false
  pub attempt_ended : attempt_at db' j n ≡ set_if ga fa (attempt_at db j n)
  pub runs_kept : db'.runs ≡ db.runs

-- An UPDATE that misses its row writes nothing.
update_running_run_miss :
    (db : Database) (j : String) (f : Run → Run)
    → HasKeys db
    → (update_running_run db j f).1 ≡ false
    → (passes is_running_run (run_at db j) ≡ false) × ((update_running_run db j f).0.runs ≡ db.runs)
unfolding update_running_run
update_running_run_miss db j f k h =
    let missed = sym (hit-update_running_run db j f k) ∙ h in
    let none_hit =
      count-key (is_run j) is_running_run db.runs (k.run_key j)
      ∙ ap (λ b. if b then 1 else 0) missed in
    (missed, update-count_zero _ f db.runs none_hit)

-- What is left where the Attempt's UPDATE hit and the Run's missed.
only_attempt :
    (db : Database) (k : HasKeys db) (j : String) (n : ℕ) (ga : Attempt → Bool)
    (fa : Attempt → Attempt) (fr : Run → Run)
    → ((i : String) (m : ℕ) (a : Attempt) → is_attempt i m (fa a) ≡ is_attempt i m a)
    → (update_attempt db j n ga fa).1 ≡ true
    → (update_running_run (update_attempt db j n ga fa).0 j fr).1 ≡ false
    → AttemptOnly db (update_running_run (update_attempt db j n ga fa).0 j fr).0 j n ga fa
unfolding update_attempt update_running_run
only_attempt db k j n ga fa fr keeps p q =
    let db₁ = (update_attempt db j n ga fa).0 in
    let miss = update_running_run_miss db₁ j fr (update_attempt-HasKeys db j n ga fa keeps k) q in
    record {
      allowed = sym (hit-update_attempt db j n ga fa k) ∙ p;
      run_not_running = miss.0;
      attempt_ended = at-update_attempt db j n ga fa keeps;
      runs_kept = miss.1;
    }

module _ (db : Database) (k : HasKeys db) (now : ℕ) (j : String) (n : ℕ) (token : String) where
  module _ (c : Completion) where
    abbrev ours : Database × Bool
    ours = finalize_attempt_and_run db now j n token c

    abbrev theirs : Database × Bool
    theirs = store_finalize db now j n token c

    -- The PostgreSQL store accepts a completion exactly where the SQLite store does, and then the
    -- two leave the same database. Where both refuse, the PostgreSQL store has written nothing, or
    -- it has ended the Attempt, which passed the fence, and left its Run, which is not RUNNING.
    pub finalize_attempt_and_run-agrees :
        (ours.1 ≡ theirs.1)
        × (ours.1 ≡ true → ours.0 ≡ theirs.0)
        × (ours.1 ≡ false
            → (ours.0 ≡ db)
              ⊎ AttemptOnly db ours.0 j n
                  (may_finalize db now token c.execution_owner)
                  (set_status c.outcome now))
    unfolding finalize_attempt_and_run store_finalize
    finalize_attempt_and_run-agrees =
        let ga = may_finalize db now token c.execution_owner in
        let fa = set_status c.outcome now in
        let a = update_attempt db j n ga fa in
        let r = update_running_run a.0 j (assign (final_fields c) now) in
        elim (Bool-cases a.1) [
          | inr p ↦
              let miss =
                update_attempt_miss db j n ga fa k (sym (hit-update_attempt db j n ga fa k) ∙ p) in
              rw p (refl, λ h. cc, λ h. inl (ap (λ x. x.0) miss))
          | inl p ↦ elim (Bool-cases r.1) [
            | inl q ↦ rw (p, q) (refl, λ h. refl, λ h. cc)
            | inr q ↦
                rw (p, q)
                  (
                    refl,
                    λ h. cc,
                    λ h. inr (
                        only_attempt db k j n ga fa (assign (final_fields c) now) (λ i m x. refl) p
                          q),
                  )
          ]
        ]

  module _ (error_type error : String) where
    abbrev our_recovery : Database × Bool
    our_recovery = finalize_recovery db now j n token error_type error

    abbrev their_recovery : Database × Bool
    their_recovery = store_recovery db now j n token error_type error

    -- The PostgreSQL store accepts a recovery exactly where the SQLite store does, and then the two
    -- leave the same database. Where both refuse, the PostgreSQL store has written nothing, or it has
    -- abandoned the Attempt, which its claim held, and left its Run, which is not RUNNING.
    pub finalize_recovery-agrees :
        (our_recovery.1 ≡ their_recovery.1)
        × (our_recovery.1 ≡ true → our_recovery.0 ≡ their_recovery.0)
        × (our_recovery.1 ≡ false
            → (our_recovery.0 ≡ db)
              ⊎ AttemptOnly db our_recovery.0 j n
                  (holds_recovery token)
                  (set_abandoned (some error_type) (some error) now))
    unfolding finalize_recovery store_recovery
    finalize_recovery-agrees =
        let ga = holds_recovery token in
        let fa = set_abandoned (some error_type) (some error) now in
        let a = update_attempt db j n ga fa in
        let r = update_running_run a.0 j to_failed in
        elim (Bool-cases a.1) [
          | inr p ↦
              let miss =
                update_attempt_miss db j n ga fa k (sym (hit-update_attempt db j n ga fa k) ∙ p) in
              rw p (refl, λ h. cc, λ h. inl (ap (λ x. x.0) miss))
          | inl p ↦ elim (Bool-cases r.1) [
            | inl q ↦ rw (p, q) (refl, λ h. refl, λ h. cc)
            | inr q ↦
                rw (p, q)
                  (
                    refl,
                    λ h. cc,
                    λ h. inr (only_attempt db k j n ga fa to_failed (λ i m x. refl) p q),
                  )
          ]
        ]
      where
        to_failed : Run → Run
        to_failed x = record x { status = RunStatus.failed; error = some error; updated_at = now }
