-- ===== src/Store/Runs.antt =====
-- src/eda_lab/store.py: the methods on Runs, their metrics, and the Run as a client reads it.
use semiconductor_domain_lab.Prelude.{
  ℕ, String, Bool, true, false, not, ◌&&◌, ◌||◌, Option, none, some, List, [], ◌∷◌, ◌++◌, map,
  if◌then◌else◌, leb, str_eq,
}
use semiconductor_domain_lab.Prelude.Table.{
  order_by, update_rows, count_rows, select_rows, fetch_one, exists_row,
}
use semiconductor_domain_lab.Models.{
  Dict, RunStatus, ParseStatus, CheckStatus, Completeness, Validity, TrustStatus,
}
use semiconductor_domain_lab.Store.Schema.{Run, Attempt, Metrics, Database, is_run}
use semiconductor_domain_lab.Store.Result.{
  Result, ok, err, in_flight_budget_exhausted, integrity_error, ◌>>◌, guard,
}

abbrev pub is_in_flight_status : RunStatus → Bool
is_in_flight_status RunStatus.queued = true
is_in_flight_status RunStatus.running = true
is_in_flight_status _ = false

-- status IN ('QUEUED', 'RUNNING')
abbrev pub is_in_flight : Run → Bool
is_in_flight r = is_in_flight_status r.status

abbrev pub is_running_status : RunStatus → Bool
is_running_status RunStatus.running = true
is_running_status _ = false

-- status = 'RUNNING'
abbrev pub is_running_run : Run → Bool
is_running_run r = is_running_status r.status

-- The row that `create_run` inserts.
abbrev pub new_run : String → String → String → String → Option String → ℕ → Run
new_run job_id design_id ip_family flow_name spec_hash now = record {
  job_id = job_id;
  design_id = design_id;
  ip_family = ip_family;
  flow_name = flow_name;
  status = RunStatus.queued;
  parse_status = ParseStatus.not_started;
  check_status = CheckStatus.unknown;
  completeness = Completeness.unknown;
  semantic_status = Validity.unknown;
  provenance_status = Validity.unknown;
  trust_status = TrustStatus.unknown;
  provenance = [];
  artifact_path = none;
  error = none;
  spec_hash = spec_hash;
  updated_at = now;
}

unfoldable pub insert_run : Database → Run → Database
insert_run db r = record db { runs = db.runs ++ r ∷ [] }

-- The result is false where the job identifier is taken.
unfoldable pub create_run :
    Database
    → ℕ
    → String
    → String
    → String
    → String
    → Option String
    → Option ℕ
    → Result (Database × Bool)
unfolding insert_run
create_run db now job_id design_id ip_family flow_name spec_hash none =
    if exists_row (is_run job_id) db.runs
    then ok (db, false)
    else ok (insert_run db (new_run job_id design_id ip_family flow_name spec_hash now), true)
create_run db now job_id design_id ip_family flow_name spec_hash (some max_in_flight) =
    if exists_row (is_run job_id) db.runs
    then ok (db, false)
    else if leb max_in_flight (count_rows is_in_flight db.runs)
    then err in_flight_budget_exhausted
    else ok (insert_run db (new_run job_id design_id ip_family flow_name spec_hash now), true)

-- The keyword arguments that the allow-lists of `update_run` and `finalize_attempt_and_run` let
-- through: `none` is an argument that is not given.
pub record RunFields : Type 0 where
  pub status : Option RunStatus
  pub parse_status : Option ParseStatus
  pub check_status : Option CheckStatus
  pub completeness : Option Completeness
  pub semantic_status : Option Validity
  pub provenance_status : Option Validity
  pub trust_status : Option TrustStatus
  pub provenance : Option Dict
  pub artifact_path : Option (Option String)
  pub error : Option (Option String)

abbrev pub no_fields : RunFields
no_fields = record {
  status = none;
  parse_status = none;
  check_status = none;
  completeness = none;
  semantic_status = none;
  provenance_status = none;
  trust_status = none;
  provenance = none;
  artifact_path = none;
  error = none;
}

abbrev pub given {ℓ} : {A : Type ℓ} → Option A → A → A
given none old = old
given (some new) old = new

-- The SET clause that the fields make.
unfoldable pub assign : RunFields → ℕ → Run → Run
assign f now r = record r {
  status = given f.status r.status;
  parse_status = given f.parse_status r.parse_status;
  check_status = given f.check_status r.check_status;
  completeness = given f.completeness r.completeness;
  semantic_status = given f.semantic_status r.semantic_status;
  provenance_status = given f.provenance_status r.provenance_status;
  trust_status = given f.trust_status r.trust_status;
  provenance = given f.provenance r.provenance;
  artifact_path = given f.artifact_path r.artifact_path;
  error = given f.error r.error;
  updated_at = now;
}

abbrev is_given {ℓ} : {A : Type ℓ} → Option A → Bool
is_given none = false
is_given (some a) = true

unfoldable pub is_empty_fields : RunFields → Bool
is_empty_fields f = not (
    is_given f.status
    || is_given f.parse_status
    || is_given f.check_status
    || is_given f.completeness
    || is_given f.semantic_status
    || is_given f.provenance_status
    || is_given f.trust_status
    || is_given f.provenance
    || is_given f.artifact_path
    || is_given f.error)

unfoldable pub update_run : Database → ℕ → String → RunFields → Database
unfolding assign is_empty_fields
update_run db now job_id f =
    if is_empty_fields f
    then db
    else record db { runs = update_rows (is_run job_id) (assign f now) db.runs }

-- INSERT OR REPLACE: the row moves to the end of the table.
unfoldable pub save_metrics : Database → String → Dict → Result Database
save_metrics db job_id payload = do
  guard (exists_row (is_run job_id) db.runs) integrity_error
  ok (record db {
    metrics =
        select_rows (λ m. not (str_eq m.job_id job_id)) db.metrics
        ++ record { job_id = job_id; payload = payload } ∷ [];
  })

-- What `get_run` returns: the row, its metrics, and its Attempts in order.
pub record RunView : Type 0 where
  pub run : Run
  pub metrics : Option Dict
  pub attempts : List Attempt

-- ORDER BY attempt_no
abbrev pub before : Attempt → Attempt → Bool
before a b = leb a.attempt_no b.attempt_no

abbrev payload_of : Option Metrics → Option Dict
payload_of none = none
payload_of (some m) = some m.payload

unfoldable pub view_run : Database → Run → RunView
view_run db r = record {
  run = r;
  metrics = payload_of (fetch_one (λ m. str_eq m.job_id r.job_id) db.metrics);
  attempts = order_by before (select_rows (λ a. str_eq a.job_id r.job_id) db.attempts);
}

abbrev map_option {ℓ κ} : {A : Type ℓ} {B : Type κ} → (A → B) → Option A → Option B
map_option f none = none
map_option f (some a) = some (f a)

unfoldable pub get_run : Database → String → Option RunView
unfolding view_run
get_run db job_id = map_option (view_run db) (fetch_one (is_run job_id) db.runs)

unfoldable pub list_stale_running : Database → ℕ → List RunView
unfolding view_run
list_stale_running db cutoff =
    map (view_run db) (select_rows (λ r. is_running_run r && leb r.updated_at cutoff) db.runs)
