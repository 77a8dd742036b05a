-- ===== src/Service/Idempotency.antt =====
-- src/eda_lab/service.py, `submit`: one job identifier, one JobSpec, one Run.
use semiconductor_domain_lab.Prelude.{
  ℕ, String, false, none, some, ◌≡◌, leb, str_eq_refl, eq_column,
}
use semiconductor_domain_lab.Prelude.Table.{exists_row}
use semiconductor_domain_lab.Models.{JobSpec}
use semiconductor_domain_lab.Store.Schema.{Run, Database, is_run}
use semiconductor_domain_lab.Store.Runs.{RunView, get_run, view_run, insert_run, new_run}
use semiconductor_domain_lab.Store.Budget.{in_flight}
use semiconductor_domain_lab.Service.Submit.{Config, Reply, Submitted, submit}

module _ (cfg : Config) (hash : JobSpec → String) (live : ℕ) (others : Database → Database)
    (now : ℕ) (spec : JobSpec) (db : Database) (v : RunView)
    (there : get_run db spec.job_id ≡ some v) where
  abbrev submitted : Submitted
  submitted = submit cfg hash live others now spec db

  -- A JobSpec submitted again under its job identifier gets the Run that is there: nothing is
  -- written and nothing is scheduled, whatever the budget and whatever is in flight.
  pub submit-again :
      v.run.spec_hash ≡ some (hash spec)
      → submitted ≡ record { db = db; scheduled = false; reply = Reply.run (some v) }
  unfolding submit
  submit-again same = rw (there, same, str_eq_refl (hash spec))

  -- A JobSpec of another hash under a job identifier that is taken is refused as a conflict:
  -- nothing is written and nothing is scheduled.
  pub submit-conflict :
      eq_column v.run.spec_hash (hash spec) ≡ false
      → submitted ≡ record { db = db; scheduled = false; reply = Reply.idempotency_conflict }
  unfolding submit
  submit-conflict differs = rw (there, submit, differs)

module _ (cfg : Config) (hash : JobSpec → String) (live : ℕ) (others : Database → Database)
    (now m : ℕ) (spec : JobSpec) (db : Database) (absent : get_run db spec.job_id ≡ none)
    (still_absent : exists_row (is_run spec.job_id) (others db).runs ≡ false)
    (budget : cfg.max_in_flight ≡ some m) (room_here : leb m live ≡ false)
    (room : leb m (in_flight (others db)) ≡ false) where
  abbrev first : Submitted
  first = submit cfg hash live others now spec db

  abbrev new : Run
  new = new_run spec.job_id spec.design_id spec.ip_family spec.flow_name (some (hash spec)) now

  abbrev stored : RunView
  stored = view_run (insert_run (others db) new) new
