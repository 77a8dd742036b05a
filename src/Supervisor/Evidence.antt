-- ===== src/Supervisor/Evidence.antt =====
-- src/eda_lab/execution_supervisor.py: the evidence that a Supervisor leaves, and its verdict beside
-- that of src/eda_lab/service.py.
use semiconductor_domain_lab.Prelude.{
  ℕ, String, Bool, true, Option, none, some, ◌≡◌, ◌↔◌, refl, ◌∙◌, arith, Bool-cases, inl, inr,
  str_eq_refl,
}
use semiconductor_domain_lab.Prelude.Table.{exists_row, exists-update, exists-append_new}
use semiconductor_domain_lab.Models.{ℤ, WitnessKind, RunStatus, TrustStatus, Validity}
use semiconductor_domain_lab.Store.Schema.{Database, ExecutionRequest, is_request, is_witness}
use semiconductor_domain_lab.Store.Requests.{
  record_supervisor_process_started, record_termination_witness,
}
use semiconductor_domain_lab.Store.Finalize.{
  Completion, may_finalize, final_fields, update_running_run, finalize_attempt_and_run,
}
use semiconductor_domain_lab.Store.Attempts.{update_attempt, set_status}
use semiconductor_domain_lab.Store.Runs.{assign}
use semiconductor_domain_lab.Service.Validation.{Collected, verdict, trust_status, completion_of}
use semiconductor_domain_lab.Store.Schema.{ExecutionOwner}
use semiconductor_domain_lab.Service.Execute.{AdapterOutcome}
use semiconductor_domain_lab.Supervisor.{
  Watch, supervised_completion, start, terminated, exited, observe, watch,
}

-- A supervised result is TRUSTED exactly where the Supervisor writes SUCCEEDED for it and its
-- provenance is VALID; and what the Supervisor writes SUCCEEDED for, a local execution would too.
pub supervised_completion-trust :
    (row : ExecutionRequest) (owner : Option ExecutionOwner) (c : Collected)
    → (((supervised_completion row c).run_fields.trust_status ≡ some TrustStatus.trusted) ↔ (
        ((supervised_completion row c).run_status ≡ RunStatus.succeeded)
        × (c.result.provenance_status ≡ Validity.valid)))
      × ((supervised_completion row c).run_status ≡ RunStatus.succeeded
          → (completion_of owner c).run_status ≡ RunStatus.succeeded)
unfolding supervised_completion completion_of trust_status verdict
supervised_completion-trust row owner c =
    ((λ h. ground arith, λ h. ground arith), λ h. ground arith)

abbrev has_request : String → Database → Bool
has_request execution_id db = exists_row (is_request execution_id) db.execution_requests

abbrev pub has_witness : String → Database → Bool
has_witness execution_id db = exists_row (is_witness execution_id) db.execution_witnesses

recorded_witness :
    (db : Database) (now : ℕ) (e : String) (kind : WitnessKind) (code : Option ℤ)
    (path : Option String) (detail : String)
    → has_request e db ≡ true
    → has_witness e (record_termination_witness db now e kind code path detail).0 ≡ true
unfolding record_termination_witness
recorded_witness db now e kind code path detail here = elim (Bool-cases (has_witness e db)) [
  | inl old ↦ rw (here, old) old
  | inr new ↦
      rw (here, new) (exists-append_new (is_witness e) db.execution_witnesses _ (str_eq_refl e))
]

finalized_witness :
    (db : Database) (now : ℕ) (j : String) (n : ℕ) (token : String) (c : Completion) (e : String)
    → has_witness e (finalize_attempt_and_run db now j n token c).0 ≡ has_witness e db
unfolding finalize_attempt_and_run
finalized_witness db now j n token c e =
    let a =
      update_attempt db j n (may_finalize db now token c.execution_owner)
        (set_status c.outcome now) in
    let r = update_running_run a.0 j (assign (final_fields c) now) in
    elim (Bool-cases a.1) [
      | inr p ↦ rw p
      | inl p ↦ elim (Bool-cases r.1) [ inr q ↦ rw (p, q) | inl q ↦ rw (p, q) ]
    ]

module _ (supervisor_id : String) (w : Watch) (row : ExecutionRequest) (db : Database)
    (requests_kept : (d : Database)
      → has_request row.execution_id d ≡ true
      → has_request row.execution_id (w.during d) ≡ true)
    (witnesses_kept : (d : Database)
      → has_witness row.execution_id d ≡ true
      → has_witness row.execution_id (w.meanwhile d) ≡ true) where
  started-request :
      (pid : Option ℕ)
      → has_request row.execution_id db ≡ true
      → has_request row.execution_id (start supervisor_id w row pid db).0 ≡ true
  unfolding start record_supervisor_process_started
  started-request none here = here
  started-request (some pid) here =
      exists-update (is_request row.execution_id) _ _ (λ x. refl) db.execution_requests ∙ here

  observe-witness :
      (o : AdapterOutcome) (d : Database)
      → has_request row.execution_id d ≡ true
      → has_witness row.execution_id (observe supervisor_id w row o d).0 ≡ true
  unfolding observe terminated exited
  observe-witness (AdapterOutcome.returned c) d here =
      finalized_witness _ _ _ _ _ _ row.execution_id
      ∙ witnesses_kept _ (recorded_witness d _ row.execution_id _ _ _ _ here)
  observe-witness (AdapterOutcome.cancelled e) d here =
      recorded_witness d _ row.execution_id _ _ _ _ here
  observe-witness (AdapterOutcome.timed_out e) d here =
      recorded_witness d _ row.execution_id _ _ _ _ here
  observe-witness (AdapterOutcome.disconnected e) d here =
      recorded_witness d _ row.execution_id _ _ _ _ here
  observe-witness (AdapterOutcome.failed e) d here =
      recorded_witness d _ row.execution_id _ _ _ _ here

  -- However the adapter's run ends, and whether or not the completion is accepted, a Supervisor
  -- that has claimed a request leaves a termination witness for it, if the other processes delete
  -- neither the request nor its witness.
  pub watch-witness :
      has_request row.execution_id db ≡ true
      → has_witness row.execution_id (watch supervisor_id w row db).0 ≡ true
  unfolding watch
  watch-witness here =
      let there = requests_kept _ (started-request w.started here) in
      elim (Bool-cases (start supervisor_id w row w.started db).1) [
        | inl e ↦ rw e (observe-witness w.adapter _ there)
        | inr e ↦ rw e (unfold terminated in recorded_witness _ _ row.execution_id _ _ _ _ there)
      ]
