-- ===== src/Store/Atomic.antt =====
-- src/eda_lab/store.py, `finalize_attempt_and_run`: an Attempt and its Run end together or not at
-- all.
use semiconductor_domain_lab.Prelude.{
  ℕ, String, Bool, true, false, ◌&&◌, ◌==◌, str_eq, Option, none, some, ◌≡◌, refl, sym, ap, ◌∙◌,
  ◌⊎◌, inl, inr, arith, Bool-cases, coalesce,
}
use mathlib.Core.Path.{ap₂}
use semiconductor_domain_lab.Prelude.Table.{passes, set_if}
use semiconductor_domain_lab.Store.Schema.{Run, Attempt, Database, is_attempt, is_run}
use semiconductor_domain_lab.Store.Runs.{assign, is_running_run}
use semiconductor_domain_lab.Store.Attempts.{update_attempt}
use semiconductor_domain_lab.Store.Finalize.{
  update_running_run, Completion, may_finalize, final_fields, finalize_attempt_and_run,
}
use semiconductor_domain_lab.Store.Written.{
  LeaseHeld, RunWritten, RunWritten-assign, may_finalize-LeaseHeld,
}
use semiconductor_domain_lab.Store.Keys.{
  HasKeys, attempt_at, run_at, hit-update_attempt, at-update_attempt, update_attempt-HasKeys,
  hit-update_running_run, update_running_run-HasKeys, at-update_attempt_other,
  at-update_running_run_other, at-update_running_run,
}

-- What a transaction over an Attempt and its Run does: `ga` and `gr` are what it asks of the two
-- rows, `fa` and `fr` what it makes of them.
pub record Ended (db db' : Database) (j : String) (n : ℕ) (ga : Attempt → Bool)
    (fa : Attempt → Attempt) (fr : Run → Run) : Type 0 where
  pub attempt : Attempt
  pub run : Run
  pub attempt_before : attempt_at db j n ≡ some attempt
  pub allowed : ga attempt ≡ true
  pub run_before : run_at db j ≡ some run
  pub was_running : is_running_run run ≡ true
  pub attempt_after : attempt_at db' j n ≡ some (fa attempt)
  pub run_after : run_at db' j ≡ some (fr run)
  pub other_attempts :
      (i : String) (m : ℕ) → (str_eq j i && n == m) ≡ false → attempt_at db' i m ≡ attempt_at db i m
  pub other_runs : (i : String) → str_eq j i ≡ false → run_at db' i ≡ run_at db i

-- The rows that pass a test.
pub passes-some {ℓ} :
    {A : Type ℓ} (g : A → Bool) (o : Option A)
    → passes g o ≡ true
    → (a : A) × (o ≡ some a) × (g a ≡ true)
passes-some g none h = cc
passes-some g (some a) h = (a, refl, h)

module _ (db : Database) (k : HasKeys db) (j : String) (n : ℕ) (ga : Attempt → Bool)
    (fa : Attempt → Attempt) (fr : Run → Run)
    (keeps_a : (i : String) (m : ℕ) (a : Attempt) → is_attempt i m (fa a) ≡ is_attempt i m a)
    (keeps_r : (i : String) (r : Run) → is_run i (fr r) ≡ is_run i r) where
  abbrev first : Database × Bool
  first = update_attempt db j n ga fa

  abbrev second : Database × Bool
  second = update_running_run first.0 j fr

  run_at-first : (i : String) → run_at first.0 i ≡ run_at db i
  unfolding update_attempt
  run_at-first i = refl

  attempt_at-second : (i : String) (m : ℕ) → attempt_at second.0 i m ≡ attempt_at first.0 i m
  unfolding update_running_run
  attempt_at-second i m = refl

  pub both_hit : first.1 ≡ true → second.1 ≡ true → Ended db second.0 j n ga fa fr
  both_hit p q =
      let k₁ = update_attempt-HasKeys db j n ga fa keeps_a k in
      let a = passes-some ga (attempt_at db j n) (sym (hit-update_attempt db j n ga fa k) ∙ p) in
      let r = passes-some is_running_run (run_at db j) (
        ap (passes is_running_run) (sym (run_at-first j))
        ∙ sym (hit-update_running_run first.0 j fr k₁)
        ∙ q) in
      record {
        attempt = a.0;
        run = r.0;
        attempt_before = a.1;
        allowed = a.2;
        run_before = r.1;
        was_running = r.2;
        attempt_after =
            attempt_at-second j n ∙ at-update_attempt db j n ga fa keeps_a ∙ simp (a.1, a.2);
        run_after =
            at-update_running_run first.0 j fr keeps_r
            ∙ ap (set_if is_running_run fr) (run_at-first j)
            ∙ simp (r.1, r.2);
        other_attempts =
            λ i m ne. attempt_at-second i m ∙ at-update_attempt_other db j n ga fa keeps_a i m ne;
        other_runs = λ i ne. at-update_running_run_other first.0 j fr keeps_r i ne ∙ run_at-first i;
      }

  -- The two rowcounts, from the rows.
  pub hits-passes :
      (first.1 && second.1) ≡ (passes ga (attempt_at db j n) && passes is_running_run (run_at db j))
  hits-passes = ap₂ ◌&&◌ (hit-update_attempt db j n ga fa k) (
      hit-update_running_run first.0 j fr (update_attempt-HasKeys db j n ga fa keeps_a k)
      ∙ ap (passes is_running_run) (run_at-first j))

module _ (db : Database) (k : HasKeys db) (now : ℕ) (j : String) (n : ℕ) (token : String)
    (c : Completion) where
  abbrev finalized : Database × Bool
  finalized = finalize_attempt_and_run db now j n token c

  abbrev allowed : Attempt → Bool
  allowed = may_finalize db now token c.execution_owner

  abbrev to_attempt : Attempt → Attempt
  to_attempt a = record a {
    status = c.outcome.status;
    error_type = c.outcome.error_type;
    error = c.outcome.error;
    artifact_path = coalesce c.outcome.artifact_path a.artifact_path;
    retry_class = c.outcome.retry_class;
    updated_at = now;
  }

  abbrev to_run : Run → Run
  to_run = assign (final_fields c) now

  -- `finalize_attempt_and_run` returns True exactly when the Attempt is RUNNING under this lease
  -- token, unexpired, with no live recovery claim, under the given execution owner's live session
  -- if one is given, and its Run is RUNNING.
  pub finalize_attempt_and_run-decides :
      finalized.1 ≡ (passes allowed (attempt_at db j n) && passes is_running_run (run_at db j))
  unfolding finalize_attempt_and_run
  finalize_attempt_and_run-decides =
      rw (← hits-passes db k j n allowed to_attempt to_run (λ i m a. refl) (λ i r. refl))
        (ground arith)

  finalize_attempt_and_run-cases :
      ((finalized.1 ≡ false) × (finalized.0 ≡ db))
      ⊎ ((finalized.1 ≡ true) × Ended db finalized.0 j n allowed to_attempt to_run)
  unfolding finalize_attempt_and_run
  finalize_attempt_and_run-cases =
      let a = update_attempt db j n allowed to_attempt in
      let r = update_running_run a.0 j to_run in
      elim (Bool-cases a.1) [
        | inr p ↦ inl (rw p, rw p)
        | inl p ↦ elim (Bool-cases r.1) [
          | inr q ↦ inl (rw (p, q), rw (p, q))
          | inl q ↦ inr (
            rw (p, q),
            rw (p, q)
                (both_hit db k j n allowed to_attempt to_run (λ i m a. refl) (λ i r. refl) p q),
          )
        ]
      ]

  -- `finalize_attempt_and_run` either returns False and leaves the database as it was, or returns
  -- True: then the Attempt was RUNNING under the given token, with an unexpired lease and no live
  -- recovery claim, and passed the fence of any execution owner, its Run was RUNNING, and the two have
  -- been written together, the Attempt with the status, the error, the retry class and any artifact path of the
  -- given outcome, the Run with the given status, the given trust status where there is one, and the
  -- error and artifact path of the Attempt where the fields of the Run do not give them; every other
  -- Attempt and Run is as before.
  pub finalize_attempt_and_run_atomic :
      ((finalized.1 ≡ false) × (finalized.0 ≡ db))
      ⊎ ((finalized.1 ≡ true)
          × Ended db finalized.0 j n allowed to_attempt to_run
          × RunWritten finalized.0 j now c
          × ((a : Attempt) × (attempt_at db j n ≡ some a) × LeaseHeld now token a))
  finalize_attempt_and_run_atomic = elim finalize_attempt_and_run-cases [
    | inl refused ↦ inl refused
    | inr (accepted, e) ↦ inr (
      accepted,
      e,
      RunWritten-assign finalized.0 j now c e.run e.run_after,
      (
        e.attempt,
        e.attempt_before,
        may_finalize-LeaseHeld db now token c.execution_owner e.attempt e.allowed,
      ),
    )
  ]

  pub finalize_attempt_and_run-HasKeys : HasKeys finalized.0
  unfolding finalize_attempt_and_run
  finalize_attempt_and_run-HasKeys =
      let k₁ = update_attempt-HasKeys db j n allowed to_attempt (λ i m a. refl) k in
      let k₂ = update_running_run-HasKeys _ j to_run (λ i r. refl) k₁ in
      let a = update_attempt db j n allowed to_attempt in
      let r = update_running_run a.0 j to_run in
      elim (Bool-cases a.1) [
        | inr p ↦ rw p k
        | inl p ↦ elim (Bool-cases r.1) [ inr q ↦ rw (p, q) k | inl q ↦ rw (p, q) k₂ ]
      ]
