-- ===== src/Store/Budget.antt =====
-- src/eda_lab/store.py, `create_run`: the shared in-flight budget and the idempotent insertion.
use semiconductor_domain_lab.Prelude.{
  ℕ, suc, ◌≤◌, ◌<◌, String, Bool, true, false, Option, none, some, ◌≡◌, ◌⊎◌, inl, inr, arith,
  Bool-cases, leb, str_eq_refl, ◌&&◌, [], ◌∷◌,
}
use semiconductor_domain_lab.Prelude.Table.{
  count_rows, exists_row, count-append, fetch-append_new, exists-append_new, count-update_out,
}
use semiconductor_domain_lab.Store.Schema.{Run, Database, is_run}
use semiconductor_domain_lab.Store.Result.{Result, ok, err, in_flight_budget_exhausted}
use semiconductor_domain_lab.Store.Runs.{
  is_in_flight, is_running_run, new_run, insert_run, create_run,
}
use semiconductor_domain_lab.Store.Finalize.{update_running_run}
use semiconductor_domain_lab.Store.Keys.{run_at}

-- SELECT COUNT(*) FROM runs WHERE status IN ('QUEUED', 'RUNNING')
abbrev pub in_flight : Database → ℕ
in_flight db = count_rows is_in_flight db.runs

taken :
    (db : Database) (now : ℕ) (job_id design_id ip_family flow_name : String)
    (spec_hash : Option String)
    → exists_row (is_run job_id) db.runs ≡ true
    → (b : Option ℕ)
    → create_run db now job_id design_id ip_family flow_name spec_hash b ≡ ok (db, false)
unfolding create_run
taken db now job_id design_id ip_family flow_name spec_hash h none = rw h
taken db now job_id design_id ip_family flow_name spec_hash h (some m) = rw h

module _ (db : Database) (now : ℕ) (job_id design_id ip_family flow_name : String)
    (spec_hash : Option String) where
  abbrev row : Run
  row = new_run job_id design_id ip_family flow_name spec_hash now

  abbrev create : Option ℕ → Result (Database × Bool)
  create = create_run db now job_id design_id ip_family flow_name spec_hash

  pub inserted :
      exists_row (is_run job_id) db.runs ≡ false
      → (in_flight (insert_run db row) ≡ suc (in_flight db))
        × (run_at (insert_run db row) job_id ≡ some row)
  unfolding insert_run count_rows
  inserted no_row = (
    omega (arith, count-append is_in_flight db.runs (row ∷ [])),
    fetch-append_new (is_run job_id) db.runs row no_row (str_eq_refl job_id),
  )

  -- With a budget `m`, `create_run` returns False and writes nothing where the job is there;
  -- otherwise it raises InFlightBudgetExhausted where `m` Runs or more are in flight, and else
  -- inserts the job's QUEUED Run, which takes one place of the budget.
  pub create_run_cases :
      (m : ℕ)
      → ((exists_row (is_run job_id) db.runs ≡ true) × (create (some m) ≡ ok (db, false)))
        ⊎ ((exists_row (is_run job_id) db.runs ≡ false)
            × (m ≤ in_flight db)
            × (create (some m) ≡ err in_flight_budget_exhausted))
        ⊎ ((exists_row (is_run job_id) db.runs ≡ false)
            × (in_flight db < m)
            × (create (some m) ≡ ok (insert_run db row, true))
            × (run_at (insert_run db row) job_id ≡ some row)
            × (in_flight (insert_run db row) ≡ suc (in_flight db)))
  unfolding create_run
  create_run_cases m = elim (Bool-cases (exists_row (is_run job_id) db.runs)) [
    | inl old ↦ inl (old, rw old)
    | inr new ↦ elim (Bool-cases (leb m (in_flight db))) [
      | inl full ↦ inr (inl (new, ground arith, rw (new, full)))
      | inr room ↦ inr (inr (new, ground arith, rw (new, room), (inserted new).1, (inserted new).0))
    ]
  ]

  -- No admission lets the Runs in flight pass the budget.
  pub create_run-in_flight-le :
      (m : ℕ) {r : Database × Bool} → create (some m) ≡ ok r → in_flight db ≤ m → in_flight r.0 ≤ m
  create_run-in_flight-le m done h = ground (arith, create_run_cases m)

  admitted : (b : Option ℕ) (db' : Database) → create b ≡ ok (db', true) → insert_run db row ≡ db'
  unfolding create_run
  admitted none db' e = ground arith
  admitted (some m) db' e = ground arith

  exists-admitted :
      (b : Option ℕ) (db' : Database)
      → create b ≡ ok (db', true)
      → exists_row (is_run job_id) db'.runs ≡ true
  unfolding insert_run
  exists-admitted b db' e =
      rw (← admitted b db' e) (exists-append_new (is_run job_id) db.runs row (str_eq_refl job_id))

  -- A job identifier is admitted once: after an admission, with or without a budget, every later
  -- `create_run` of that job returns False and writes nothing, whatever its other arguments.
  pub create_run_once :
      (budget : Option ℕ) {db' : Database}
      → create budget ≡ ok (db', true)
      → (later : ℕ) (design_id' ip_family' flow_name' : String) (spec_hash' : Option String)
        (budget' : Option ℕ)
      → create_run db' later job_id design_id' ip_family' flow_name' spec_hash' budget'
        ≡ ok (db', false)
  create_run_once budget {db'} made later design_id' ip_family' flow_name' spec_hash' budget' =
      taken db' later job_id design_id' ip_family' flow_name' spec_hash'
        (exists-admitted budget db' made) budget'

-- An accepted completion with a final Run status gives one place of the budget back.
pub update_running_run-in_flight :
    (db : Database) (j : String) (f : Run → Run)
    → ((r : Run) → is_in_flight (f r) ≡ false)
    → (update_running_run db j f).1 ≡ true
    → suc (in_flight (update_running_run db j f).0) ≡ in_flight db
unfolding update_running_run
update_running_run-in_flight db j f out hit = ground (
  arith,
  count-update_out is_in_flight (λ r. is_run j r && is_running_run r) f (λ r p. ground arith)
      (λ r p. out r) db.runs,
)
