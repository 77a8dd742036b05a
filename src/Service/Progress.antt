-- ===== src/Service/Progress.antt =====
-- src/eda_lab/service.py, `_execute`: the loop ends by a return or an exception, never by running
-- out of Attempts.
use mathlib.Core.Bool.{false≢true}
use native.Mathlib.Nat.{le_refl}
use semiconductor_domain_lab.Store.Runs.{RunFields, no_fields, update_run}
use semiconductor_domain_lab.Prelude.{
  sym, ap, ◌∙◌, some, ℕ, zero, suc, ◌+◌, ◌≤◌, Bool, true, false, ◌≡◌, ◌≢◌, refl, arith,
}
use semiconductor_domain_lab.Models.{JobSpec, RunStatus}
use semiconductor_domain_lab.Store.Schema.{Database}
use semiconductor_domain_lab.Service.Submit.{Config}
use semiconductor_domain_lab.Service.Execute.{
  Script, Body, Raised, Ending, after_body, body, handle, attempt, attempts, execute,
}

abbrev is_retry : Ending → Bool
is_retry Ending.retry = true
is_retry _ = false

module _ (cfg : Config) (spec : JobSpec) (n : ℕ) (s : Script) (last : cfg.max_attempts ≤ n) where
  handle-last : (e : Raised) (db : Database) → is_retry (handle cfg spec n s e db).1 ≡ false
  unfolding handle
  handle-last (Raised.cancelled e) db = ground arith
  handle-last (Raised.timed_out e) db = ground arith
  handle-last (Raised.disconnected e) db = ground arith
  handle-last (Raised.other e) db = ground arith

  after_body-last : (r : Database × Body) → is_retry (after_body cfg spec n s r).1 ≡ false
  unfolding after_body
  after_body-last (db, Body.returns) = refl
  after_body-last (db, Body.raises e) = handle-last e db

  attempt-last : (db : Database) → is_retry (attempt cfg spec n s db).1 ≡ false
  unfolding attempt
  attempt-last db = after_body-last (body cfg spec n s db)

module _ (cfg : Config) (spec : JobSpec) (scripts : ℕ → Script) where
  attempts-ends :
      (rounds n : ℕ) (db : Database)
      → cfg.max_attempts ≤ n + rounds
      → is_retry (attempts cfg spec scripts (suc rounds) n db).1 ≡ false
  unfolding attempts
  attempts-ends zero n db h = ground (arith, attempt-last cfg spec n (scripts n) (omega arith) db)
  attempts-ends (suc rounds) n db h =
      ground (arith, attempts-ends rounds (suc n) (attempt cfg spec n (scripts n) db).0)

  rounds-end :
      (m : ℕ) (db : Database)
      → 1 ≤ m
      → cfg.max_attempts ≤ m
      → is_retry (attempts cfg spec scripts m 1 db).1 ≡ false
  rounds-end zero db h le = absurd (omega arith)
  rounds-end (suc m) db h le = attempts-ends m 1 db (omega arith)

  -- With one Attempt or more allowed, `_execute` ends by a return or by the error of a lost lease
  -- fence, whatever the adapter and the other processes do; it does not run out of Attempts.
  pub execute-ends :
      (now : ℕ) (db : Database)
      → 1 ≤ cfg.max_attempts
      → (execute cfg spec scripts now db).1 ≢ Ending.retry
  unfolding execute
  execute-ends now db h e = false≢true (
      sym (rounds-end cfg.max_attempts (update_run db now spec.job_id starting) h (le_refl _))
      ∙ ap is_retry e)
    where
      starting : RunFields
      starting = record no_fields { status = some RunStatus.running }
