-- ===== src/Store/Witnesses.antt =====
-- src/eda_lab/store.py, `record_termination_witness`: the first witness of a request stays.
use semiconductor_domain_lab.Prelude.{
  ℕ, String, Bool, true, false, not, ◌&&◌, Option, some, ◌≡◌, refl, ◌⊎◌, inl, inr, arith,
  Bool-cases, str_eq_refl,
}
use semiconductor_domain_lab.Prelude.Table.{
  fetch_one, exists_row, set_if, fetch-append_new, exists-append_new, fetch-update_key,
}
use semiconductor_domain_lab.Models.{ℤ, RequestStatus, WitnessKind}
use semiconductor_domain_lab.Store.Schema.{
  ExecutionRequest, ExecutionWitness, Database, is_request, is_witness,
}
use semiconductor_domain_lab.Store.Requests.{is_started, record_termination_witness}
use semiconductor_domain_lab.Store.Fence.{Refused}

module _ (db : Database) (now : ℕ) (execution_id : String) (kind : WitnessKind)
    (exit_code : Option ℤ) (path : Option String) (detail : String) where
  abbrev recorded : Database × Bool
  recorded = record_termination_witness db now execution_id kind exit_code path detail

  abbrev witness : ExecutionWitness
  witness = record {
    execution_id = execution_id;
    kind = kind;
    observed_at = now;
    process_exit_code = exit_code;
    artifact_path = path;
    detail = detail;
  }

  abbrev complete : ExecutionRequest → ExecutionRequest
  complete e = record e { status = RequestStatus.completed }

  -- `record_termination_witness` is refused exactly where the request is missing or has a witness;
  -- otherwise the witness is stored under the request, and the request is COMPLETED if it was
  -- CLAIMED or RUNNING and otherwise as it was.
  pub record_termination_witness_cases :
      (((exists_row (is_request execution_id) db.execution_requests
            && not (exists_row (is_witness execution_id) db.execution_witnesses))
          ≡ false)
        × Refused db recorded)
      ⊎ ((exists_row (is_request execution_id) db.execution_requests ≡ true)
          × (exists_row (is_witness execution_id) db.execution_witnesses ≡ false)
          × (recorded.1 ≡ true)
          × (fetch_one (is_witness execution_id) recorded.0.execution_witnesses ≡ some witness)
          × (fetch_one (is_request execution_id) recorded.0.execution_requests
              ≡ set_if is_started complete
                  (fetch_one (is_request execution_id) db.execution_requests)))
  unfolding record_termination_witness
  record_termination_witness_cases =
      elim (Bool-cases (
        exists_row (is_request execution_id) db.execution_requests
        && not (exists_row (is_witness execution_id) db.execution_witnesses))) [
          | inr no_room ↦ inl (no_room, (rw no_room, rw no_room))
          | inl room ↦
              let free : exists_row (is_witness execution_id) db.execution_witnesses ≡ false =
                ground arith in
              inr (
                ground arith,
                free,
                rw room,
                rw room (
                    fetch-append_new (is_witness execution_id) db.execution_witnesses witness free
                      (str_eq_refl execution_id)),
                rw room (
                    fetch-update_key (is_request execution_id) is_started complete (λ x. refl)
                      db.execution_requests),
              )
        ]

  exists-recorded :
      recorded.1 ≡ true → exists_row (is_witness execution_id) recorded.0.execution_witnesses ≡ true
  unfolding record_termination_witness
  exists-recorded h =
      elim (Bool-cases (
        exists_row (is_request execution_id) db.execution_requests
        && not (exists_row (is_witness execution_id) db.execution_witnesses))) [
          | inr no_room ↦ absurd (ground arith)
          | inl room ↦ rw room (
              exists-append_new (is_witness execution_id) db.execution_witnesses witness
                (str_eq_refl execution_id))
        ]

-- A request gets one witness: once one is recorded, every later one for the same request is
-- refused and writes nothing.
pub record_termination_witness_once :
    (db : Database) (now : ℕ) (execution_id : String) (kind : WitnessKind) (exit_code : Option ℤ)
    (path : Option String) (detail : String)
    → (record_termination_witness db now execution_id kind exit_code path detail).1 ≡ true
    → (later : ℕ) (kind' : WitnessKind) (exit_code' : Option ℤ) (path' : Option String)
      (detail' : String)
    → let db' = (record_termination_witness db now execution_id kind exit_code path detail).0 in
      Refused db' (record_termination_witness db' later execution_id kind' exit_code' path' detail')
record_termination_witness_once db now execution_id kind exit_code path detail done later kind'
      exit_code' path' detail' =
    let db' = (record_termination_witness db now execution_id kind exit_code path detail).0 in
    ground (
      arith,
      exists-recorded db now execution_id kind exit_code path detail done,
      record_termination_witness_cases db' later execution_id kind' exit_code' path' detail',
    )
