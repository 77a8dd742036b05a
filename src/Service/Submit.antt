-- ===== src/Service/Submit.antt =====
-- src/eda_lab/service.py: `JobService.submit`. The hash of a JobSpec is a parameter: `_spec_hash`
-- calls hashlib and json.
use semiconductor_domain_lab.Prelude.{
  ℕ, String, Bool, true, false, Option, none, some, if◌then◌else◌, leb, eq_column,
}
use semiconductor_domain_lab.Models.{JobSpec}
use semiconductor_domain_lab.Store.Schema.{Database, ExecutionOwner}
use semiconductor_domain_lab.Store.Result.{Result, ok, err, StoreError}
use semiconductor_domain_lab.Store.Runs.{RunView, get_run, create_run}

pub data ExecutionMode : Type 0 where
  local external supervised : ExecutionMode

-- The attributes of a JobService that its methods read and do not write.
pub record Config : Type 0 where
  pub max_attempts : ℕ
  pub worker_id : String
  pub lease_seconds : ℕ
  pub recovery_lease_seconds : ℕ
  pub orphan_grace_seconds : ℕ
  pub max_in_flight : Option ℕ
  pub execution_mode : ExecutionMode
  pub execution_owner : Option ExecutionOwner

pub data Reply : Type 0 where
  -- the Run that was there or is there now; none stands for `{}`
  run : Option RunView → Reply
  -- BackpressureError
  backpressure : ℕ → Reply
  -- IdempotencyConflict
  idempotency_conflict : Reply
  -- RuntimeError: run insertion was not visible after an idempotency conflict
  not_visible : Reply
  -- an error of the store that `submit` lets through
  store_error : StoreError → Reply

-- What `submit` leaves: the database, whether it has scheduled the Run on its executor, and what
-- it returns or raises.
pub record Submitted : Type 0 where
  pub db : Database
  pub scheduled : Bool
  pub reply : Reply

answer : String → Database → RunView → Submitted
answer spec_hash db v =
    if eq_column v.run.spec_hash spec_hash
    then record { db = db; scheduled = false; reply = Reply.run (some v) }
    else record { db = db; scheduled = false; reply = Reply.idempotency_conflict }

after_lookup : String → Database → Option RunView → Submitted
unfolding answer
after_lookup spec_hash db none = record { db = db; scheduled = false; reply = Reply.not_visible }
after_lookup spec_hash db (some v) = answer spec_hash db v

abbrev is_local : ExecutionMode → Bool
is_local ExecutionMode.local = true
is_local _ = false

-- What follows `create_run`. The store raises InFlightBudgetExhausted only where it has a budget.
after_create : Config → String → String → Database → Result (Database × Bool) → Submitted
unfolding after_lookup
after_create cfg job_id spec_hash db (ok (db', true)) = record {
  db = db';
  scheduled = is_local cfg.execution_mode;
  reply = Reply.run (get_run db' job_id);
}
after_create cfg job_id spec_hash db (ok (db', false)) =
    after_lookup spec_hash db' (get_run db' job_id)
after_create cfg job_id spec_hash db (err StoreError.in_flight_budget_exhausted) = record {
  db = db;
  scheduled = false;
  reply = elim cfg.max_in_flight [
    | none ↦ Reply.store_error StoreError.in_flight_budget_exhausted
    | some m ↦ Reply.backpressure m
  ];
}
after_create cfg job_id spec_hash db (err e) = record {
  db = db;
  scheduled = false;
  reply = Reply.store_error e;
}

-- The budget of this process: the futures that are not done.
abbrev pub is_full : Option ℕ → ℕ → Bool
is_full none live = false
is_full (some m) live = leb m live

abbrev budget_of : Option ℕ → ℕ
budget_of none = 0
budget_of (some m) = m

create : Config → (JobSpec → String) → ℕ → JobSpec → Database → Submitted
unfolding after_create
create cfg hash now spec db = after_create cfg spec.job_id (hash spec) db (
    create_run db now spec.job_id spec.design_id spec.ip_family spec.flow_name (some (hash spec))
      cfg.max_in_flight)

find_or_create :
    Config
    → (JobSpec → String)
    → ℕ
    → (Database → Database)
    → ℕ
    → JobSpec
    → Database
    → Option RunView
    → Submitted
unfolding create answer
find_or_create cfg hash live others now spec db (some v) = answer (hash spec) db v
find_or_create cfg hash live others now spec db none =
    if is_full cfg.max_in_flight live
    then record {
      db = db;
      scheduled = false;
      reply = Reply.backpressure (budget_of cfg.max_in_flight);
    }
    else create cfg hash now spec (others db)

-- `live` counts the futures that are not done. `others` is what other processes commit between the
-- look-up and the insertion; the threads of this process wait for the lock.
unfoldable pub submit :
    Config → (JobSpec → String) → ℕ → (Database → Database) → ℕ → JobSpec → Database → Submitted
unfolding find_or_create
submit cfg hash live others now spec db =
    find_or_create cfg hash live others now spec db (get_run db spec.job_id)
