-- ===== src/Store/Keys.antt =====
-- src/eda_lab/store.py: the primary and foreign keys of the tables, and what an UPDATE of one
-- Attempt or one Run does to the row that its key names.
use semiconductor_domain_lab.Prelude.{
  ℕ, ◌≤◌, String, Bool, false, ◌&&◌, Option, List, ◌≡◌, arith, ap, ◌∙◌, if◌then◌else◌, ◌==◌, str_eq,
  eq_iff,
}
use semiconductor_domain_lab.Prelude.Table.{
  count_rows, fetch_one, passes, set_if, count-update, count-key, update-count_zero,
  fetch-update_key, fetch-update_other,
}
use semiconductor_domain_lab.Store.Schema.{
  Run, Attempt, Database, is_run, is_attempt, is_session, is_host, is_request, is_witness,
  is_revision, empty,
}
use semiconductor_domain_lab.Store.Runs.{is_running_run}
use semiconductor_domain_lab.Store.Attempts.{update_attempt}
use semiconductor_domain_lab.Store.Finalize.{update_running_run}

pub record HasKeys (db : Database) : Type 0 where
  pub run_key : (j : String) → count_rows (is_run j) db.runs ≤ 1
  pub attempt_key : (j : String) (n : ℕ) → count_rows (is_attempt j n) db.attempts ≤ 1
  pub session_key : (s : String) → count_rows (is_session s) db.host_sessions ≤ 1
  pub host_key : (h : String) → count_rows (is_host h) db.hosts ≤ 1
  pub request_key : (e : String) → count_rows (is_request e) db.execution_requests ≤ 1
  pub witness_key : (e : String) → count_rows (is_witness e) db.execution_witnesses ≤ 1
  pub revision_key : (r : String) → count_rows (is_revision r) db.revisions ≤ 1

pub empty-HasKeys : HasKeys empty
unfolding count_rows
empty-HasKeys = record {
  run_key = λ j. omega arith;
  attempt_key = λ j n. omega arith;
  session_key = λ s. omega arith;
  host_key = λ h. omega arith;
  request_key = λ e. omega arith;
  witness_key = λ e. omega arith;
  revision_key = λ r. omega arith;
}

-- SELECT … WHERE job_id = ? AND attempt_no = ?
abbrev pub attempt_at : Database → String → ℕ → Option Attempt
attempt_at db job_id attempt_no = fetch_one (is_attempt job_id attempt_no) db.attempts

abbrev pub run_at : Database → String → Option Run
run_at db job_id = fetch_one (is_run job_id) db.runs

-- The rowcount of an UPDATE of one key's row, as a Boolean.
pub rowcount-key {ℓ} :
    {A : Type ℓ} (q g : A → Bool) (xs : List A)
    → count_rows q xs ≤ 1
    → (count_rows (λ x. q x && g x) xs == 1) ≡ passes g (fetch_one q xs)
rowcount-key q g xs h = ground (arith, count-key q g xs)

module _ (db : Database) (j : String) (n : ℕ) (g : Attempt → Bool) (f : Attempt → Attempt) where
  pub hit-update_attempt : HasKeys db → (update_attempt db j n g f).1 ≡ passes g (attempt_at db j n)
  unfolding update_attempt
  hit-update_attempt k = rowcount-key (is_attempt j n) g db.attempts (k.attempt_key j n)

  -- A refused UPDATE writes nothing.
  pub update_attempt_miss :
      HasKeys db → passes g (attempt_at db j n) ≡ false → update_attempt db j n g f ≡ (db, false)
  unfolding update_attempt
  update_attempt_miss k h =
      let none_hit =
        count-key (is_attempt j n) g db.attempts (k.attempt_key j n)
        ∙ ap (λ b. if b then 1 else 0) h in
      rw (update-count_zero _ f db.attempts none_hit, none_hit)

  module _
      (keeps : (i : String) (m : ℕ) (a : Attempt) → is_attempt i m (f a) ≡ is_attempt i m a) where
    pub at-update_attempt :
        attempt_at (update_attempt db j n g f).0 j n ≡ set_if g f (attempt_at db j n)
    unfolding update_attempt
    at-update_attempt = fetch-update_key (is_attempt j n) g f (keeps j n) db.attempts

    pub at-update_attempt_other :
        (i : String) (m : ℕ)
        → (str_eq j i && n == m) ≡ false
        → attempt_at (update_attempt db j n g f).0 i m ≡ attempt_at db i m
    unfolding update_attempt
    at-update_attempt_other i m ne =
        fetch-update_other (is_attempt i m) _ f (keeps i m)
          (λ a hit. ground (arith, eq_iff a.job_id i, eq_iff a.job_id j, eq_iff j i)) db.attempts

    pub update_attempt-HasKeys : HasKeys db → HasKeys (update_attempt db j n g f).0
    unfolding update_attempt
    update_attempt-HasKeys k = record {
      run_key = k.run_key;
      attempt_key =
          λ i m. rw (count-update (is_attempt i m) _ f (keeps i m) db.attempts) (k.attempt_key i m);
      session_key = k.session_key;
      host_key = k.host_key;
      request_key = k.request_key;
      witness_key = k.witness_key;
      revision_key = k.revision_key;
    }

module _ (db : Database) (j : String) (f : Run → Run) where
  pub hit-update_running_run :
      HasKeys db → (update_running_run db j f).1 ≡ passes is_running_run (run_at db j)
  unfolding update_running_run
  hit-update_running_run k = rowcount-key (is_run j) is_running_run db.runs (k.run_key j)

  module _ (keeps : (i : String) (r : Run) → is_run i (f r) ≡ is_run i r) where
    pub at-update_running_run :
        run_at (update_running_run db j f).0 j ≡ set_if is_running_run f (run_at db j)
    unfolding update_running_run
    at-update_running_run = fetch-update_key (is_run j) is_running_run f (keeps j) db.runs

    pub at-update_running_run_other :
        (i : String) → str_eq j i ≡ false → run_at (update_running_run db j f).0 i ≡ run_at db i
    unfolding update_running_run
    at-update_running_run_other i ne =
        fetch-update_other (is_run i) _ f (keeps i)
          (λ r hit. ground (arith, eq_iff r.job_id i, eq_iff r.job_id j, eq_iff j i)) db.runs

    pub update_running_run-HasKeys : HasKeys db → HasKeys (update_running_run db j f).0
    unfolding update_running_run
    update_running_run-HasKeys k = record {
      run_key = λ i. rw (count-update (is_run i) _ f (keeps i) db.runs) (k.run_key i);
      attempt_key = k.attempt_key;
      session_key = k.session_key;
      host_key = k.host_key;
      request_key = k.request_key;
      witness_key = k.witness_key;
      revision_key = k.revision_key;
    }
