-- ===== src/Store/Preserves.antt =====
-- src/eda_lab/store.py: every method keeps the primary keys of the tables.
use semiconductor_domain_lab.Prelude.{
  ℕ, ◌≤◌, String, true, false, Option, none, some, List, ◌≡◌, refl, arith, Bool-cases, inl, inr,
  str_eq_refl, leb, ◌∙◌, eq_iff,
}
use mathlib.Core.Path.{sym, ap₂}
use semiconductor_domain_lab.Prelude.Table.{count_rows, exists_row, count-update_le}
use semiconductor_domain_lab.Prelude.Rows.{append_unique, append_unique_by}
use semiconductor_domain_lab.Models.{Dict}
use semiconductor_domain_lab.Store.Schema.{
  Run, Attempt, ExecutionRequest, RequestPayload, Database, is_run, is_attempt, is_request,
}
use semiconductor_domain_lab.Store.Result.{Result, ok, err}
use semiconductor_domain_lab.Store.Runs.{
  RunFields, is_in_flight, new_run, insert_run, create_run, update_run, save_metrics,
  is_empty_fields,
}
use semiconductor_domain_lab.Store.Attempts.{Outcome, new_attempt, record_attempt}
use semiconductor_domain_lab.Store.Requests.{enqueue_execution_request}
use semiconductor_domain_lab.Store.Keys.{HasKeys}

-- A result that keeps the keys, if it is one.
abbrev pub Keeps {ℓ} : {A : Type ℓ} → (A → Database) → Result A → Type 0
Keeps f (ok a) = HasKeys (f a)
Keeps f (err e) = Unit

module _ {db : Database} (k : HasKeys db) where
  keep_runs :
      (xs : List Run)
      → ((j : String) → count_rows (is_run j) xs ≤ 1)
      → HasKeys (record db { runs = xs })
  keep_runs xs h = record {
    run_key = h;
    attempt_key = k.attempt_key;
    session_key = k.session_key;
    host_key = k.host_key;
    request_key = k.request_key;
    witness_key = k.witness_key;
    revision_key = k.revision_key;
  }

  keep_attempts :
      (xs : List Attempt)
      → ((j : String) (n : ℕ) → count_rows (is_attempt j n) xs ≤ 1)
      → HasKeys (record db { attempts = xs })
  keep_attempts xs h = record {
    run_key = k.run_key;
    attempt_key = h;
    session_key = k.session_key;
    host_key = k.host_key;
    request_key = k.request_key;
    witness_key = k.witness_key;
    revision_key = k.revision_key;
  }

  keep_requests :
      (xs : List ExecutionRequest)
      → ((e : String) → count_rows (is_request e) xs ≤ 1)
      → HasKeys (record db { execution_requests = xs })
  keep_requests xs h = record {
    run_key = k.run_key;
    attempt_key = k.attempt_key;
    session_key = k.session_key;
    host_key = k.host_key;
    request_key = h;
    witness_key = k.witness_key;
    revision_key = k.revision_key;
  }

  pub create_run-HasKeys :
      (now : ℕ) (job design ip flow : String) (hash : Option String) (budget : Option ℕ)
      → Keeps (λ r. r.0) (create_run db now job design ip flow hash budget)
  unfolding create_run insert_run
  create_run-HasKeys now job design ip flow hash budget =
      elim (Bool-cases (exists_row (is_run job) db.runs)) [
        | inl old ↦ stays budget old
        | inr new ↦ grows budget new
      ]
    where
      inserted :
          exists_row (is_run job) db.runs ≡ false
          → HasKeys (insert_run db (new_run job design ip flow hash now))
      inserted new = keep_runs _ (λ j.
          append_unique (λ r. r.job_id) db.runs (new_run job design ip flow hash now) new j
            (k.run_key j))

      stays :
          (b : Option ℕ)
          → exists_row (is_run job) db.runs ≡ true
          → Keeps (λ r. r.0) (create_run db now job design ip flow hash b)
      stays none old = rw old k
      stays (some m) old = rw old k

      grows :
          (b : Option ℕ)
          → exists_row (is_run job) db.runs ≡ false
          → Keeps (λ r. r.0) (create_run db now job design ip flow hash b)
      grows none new = rw new (inserted new)
      grows (some m) new = elim (Bool-cases (leb m (count_rows is_in_flight db.runs))) [
        | inl full ↦ rw (new, full) tt
        | inr room ↦ rw (new, room) (inserted new)
      ]

  pub update_run-HasKeys :
      (now : ℕ) (job : String) (f : RunFields) → HasKeys (update_run db now job f)
  unfolding update_run
  update_run-HasKeys now job f = elim (Bool-cases (is_empty_fields f)) [
    | inl e ↦ rw e k
    | inr e ↦
        rw e (keep_runs _ (λ j. count-update_le (is_run j) _ _ (λ r. refl) db.runs (k.run_key j)))
  ]

  same_key :
      (j i : String) (n m : ℕ) (x : Attempt)
      → is_attempt j n x ≡ true
      → is_attempt i m x ≡ true
      → (y : Attempt) → is_attempt i m y ≡ is_attempt j n y
  same_key j i n m x own e y =
      ap₂ (λ a b. is_attempt a b y)
        (sym ((eq_iff x.job_id i).0 (ground arith)) ∙ (eq_iff x.job_id j).0 (ground arith))
        (ground arith)

  -- The result of `record_attempt` is a row of the table, changed or new.
  pub record_attempt-HasKeys :
      (started updated : ℕ) (j : String) (n : ℕ) (o : Outcome)
      → Keeps (λ d. d) (record_attempt db started updated j n o)
  unfolding record_attempt
  record_attempt-HasKeys started updated j n o = elim (Bool-cases (exists_row (is_run j) db.runs)) [
    | inr e ↦ rw e tt
    | inl e ↦ rw e (elim (Bool-cases (exists_row (is_attempt j n) db.attempts)) [
      | inl old ↦ rw old (
          keep_attempts _ (λ i m.
            count-update_le (is_attempt i m) _ _ (λ a. refl) db.attempts (k.attempt_key i m)))
      | inr new ↦ rw new (
          keep_attempts _ (λ i m.
            append_unique_by (is_attempt j n) (is_attempt i m) db.attempts
              (new_attempt j n o started updated) new
              (same_key j i n m (new_attempt j n o started updated)
                (simp (str_eq_refl j) (ground arith)))
              (k.attempt_key i m)))
    ])
  ]

  pub enqueue_execution_request-HasKeys :
      (now : ℕ) (e j : String) (n : ℕ) (host : String) (p : RequestPayload)
      → HasKeys (enqueue_execution_request db now e j n host p).0
  unfolding enqueue_execution_request
  enqueue_execution_request-HasKeys now e j n host p =
      elim (Bool-cases (exists_row (is_request e) db.execution_requests)) [
        | inl old ↦ rw old k
        | inr new ↦ rw new (
            keep_requests _ (λ i.
              append_unique (λ r. r.execution_id) db.execution_requests _ new i (k.request_key i)))
      ]

  pub save_metrics-HasKeys : (job : String) (p : Dict) → Keeps (λ d. d) (save_metrics db job p)
  unfolding save_metrics
  save_metrics-HasKeys job p = elim (Bool-cases (exists_row (is_run job) db.runs)) [
    | inr e ↦ rw e tt
    | inl e ↦ rw e (record {
      run_key = k.run_key;
      attempt_key = k.attempt_key;
      session_key = k.session_key;
      host_key = k.host_key;
      request_key = k.request_key;
      witness_key = k.witness_key;
      revision_key = k.revision_key;
    })
  ]
