-- ===== src/Store/Written.antt =====
-- src/eda_lab/store.py, `finalize_attempt_and_run`: what its fence asks of the Attempt, and what it
-- writes into the Run.
use semiconductor_domain_lab.Prelude.{
  ℕ, ◌≤◌, ◌<◌, ◌||◌, is_null, lt_column, ge_column, eq_column, eq_iff, String, true, Option, none,
  some, ◌≡◌, refl, ap, ◌⊎◌, inl, inr, arith,
}
use semiconductor_domain_lab.Models.{AttemptStatus, TrustStatus}
use semiconductor_domain_lab.Store.Schema.{Run, Attempt, ExecutionOwner, Database}
use semiconductor_domain_lab.Store.Runs.{assign}
use semiconductor_domain_lab.Store.Attempts.{is_running_status}
use semiconductor_domain_lab.Store.Finalize.{Completion, may_finalize, final_fields}
use semiconductor_domain_lab.Store.Keys.{run_at}

-- The Attempt is RUNNING under the token of an unexpired lease, with no live recovery claim.
pub record LeaseHeld (now : ℕ) (token : String) (a : Attempt) : Type 0 where
  pub running : a.status ≡ AttemptStatus.running
  pub held : a.lease_token ≡ some token
  pub expiry : ℕ
  pub lease : a.lease_expires_at ≡ some expiry
  pub unexpired : now ≤ expiry
  pub unclaimed :
      (a.recovery_token ≡ none) ⊎ ((e : ℕ) × (a.recovery_expires_at ≡ some e) × (e < now))

eq_column-some : (column : Option String) (t : String) → eq_column column t ≡ true → column ≡ some t
eq_column-some none t h = cc
eq_column-some (some s) t h = ap some ((eq_iff s t).0 h)

ge_column-some :
    (column : Option ℕ) (t : ℕ) → ge_column column t ≡ true → (e : ℕ) × (column ≡ some e) × (t ≤ e)
ge_column-some none t h = cc
ge_column-some (some e) t h = (e, refl, ground (arith, h))

pub lt_column-some :
    (column : Option ℕ) (t : ℕ) → lt_column column t ≡ true → (e : ℕ) × (column ≡ some e) × (e < t)
lt_column-some none t h = cc
lt_column-some (some e) t h = (e, refl, ground (arith, h))

unclaimed_lem :
    (token : Option String) (column : Option ℕ) (now : ℕ)
    → (is_null token || lt_column column now) ≡ true
    → (token ≡ none) ⊎ ((e : ℕ) × (column ≡ some e) × (e < now))
unclaimed_lem none column now h = inl refl
unclaimed_lem (some t) column now h = inr (lt_column-some column now h)

pub running_status : (s : AttemptStatus) → is_running_status s ≡ true → s ≡ AttemptStatus.running
running_status s h = ground arith

pub may_finalize-LeaseHeld :
    (db : Database) (now : ℕ) (token : String) (o : Option ExecutionOwner) (a : Attempt)
    → may_finalize db now token o a ≡ true
    → LeaseHeld now token a
may_finalize-LeaseHeld db now token o a h =
    let (e, same, later) = ge_column-some a.lease_expires_at now (ground (arith, h)) in
    record {
      running = running_status a.status (ground (arith, h));
      held = eq_column-some a.lease_token token (ground (arith, h));
      expiry = e;
      lease = same;
      unexpired = later;
      unclaimed = unclaimed_lem a.recovery_token a.recovery_expires_at now (ground (arith, h));
    }

-- What the Run of an accepted completion holds.
pub record RunWritten (db' : Database) (j : String) (now : ℕ) (c : Completion) : Type 0 where
  pub run : Run
  pub stored : run_at db' j ≡ some run
  pub status : run.status ≡ c.run_status
  pub trusted : (t : TrustStatus) → c.run_fields.trust_status ≡ some t → run.trust_status ≡ t
  pub given_error : (e : Option String) → c.run_fields.error ≡ some e → run.error ≡ e
  pub own_error : c.run_fields.error ≡ none → run.error ≡ c.outcome.error
  pub own_path :
      (path : String)
      → c.run_fields.artifact_path ≡ none
      → c.outcome.artifact_path ≡ some path
      → run.artifact_path ≡ some path
  pub updated : run.updated_at ≡ now

pub RunWritten-assign :
    (db' : Database) (j : String) (now : ℕ) (c : Completion) (r : Run)
    → run_at db' j ≡ some (assign (final_fields c) now r)
    → RunWritten db' j now c
unfolding assign
RunWritten-assign db' j now c r h = record {
  run = assign (final_fields c) now r;
  stored = h;
  status = refl;
  trusted = λ t e. rw e refl;
  given_error = λ x e. rw e refl;
  own_error = λ e. rw e refl;
  own_path = λ path e g. rw (e, g) refl;
  updated = refl;
}
