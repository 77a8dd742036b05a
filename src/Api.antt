-- ===== src/Api.antt =====
-- src/eda_lab/api.py: `ApiHandler` and what it sends. The JSON text of a body, the parsing of an URL and
-- the base64 text of a cursor are the libraries'; a body is what `json.loads` has found in it.
pub mod Paths
pub mod Request
pub mod Post
pub mod Lists
pub mod Get
pub mod Replies
pub mod Paging
use semiconductor_domain_lab.Prelude.{
  ℕ, String, Bool, true, false, Option, none, some, List, [], ◌∷◌, if◌then◌else◌,
}
use semiconductor_domain_lab.Models.{
  Decimal, RunStatus, AttemptStatus, ParseStatus, CheckStatus, Completeness, Validity, TrustStatus,
}
use semiconductor_domain_lab.Store.Schema.{Run, Attempt}
use semiconductor_domain_lab.Store.Runs.{RunView}
use semiconductor_domain_lab.Store.Revisions.{Violations}

pub record PublicAttempt : Type 0 where
  pub attempt_no : ℕ
  pub status : AttemptStatus
  pub retry_class : Option String
  pub error_type : Option String
  pub error : Option String
  pub started_at : ℕ
  pub updated_at : ℕ

unfoldable pub public_attempt : Attempt → PublicAttempt
public_attempt attempt = record {
  attempt_no = attempt.attempt_no;
  status = attempt.status;
  retry_class = attempt.retry_class;
  error_type = attempt.error_type;
  error = attempt.error;
  started_at = attempt.started_at;
  updated_at = attempt.updated_at;
}

-- The `status` object.
pub record PublicStatus : Type 0 where
  pub execution : RunStatus
  pub parse : ParseStatus
  pub check : CheckStatus
  pub completeness : Completeness
  pub semantic : Validity
  pub provenance : Validity
  pub trust : TrustStatus

pub record PublicRun : Type 0 where
  pub run_id : String
  pub design_id : String
  pub ip_family : String
  pub flow_name : String
  pub status : PublicStatus
  pub updated_at : ℕ
  pub artifact_available : Bool
  pub error : Option String
  pub attempts : Option (List PublicAttempt)

public_attempts : List Attempt → List PublicAttempt
unfolding public_attempt
public_attempts [] = []
public_attempts (a ∷ rest) = public_attempt a ∷ public_attempts rest

-- bool(text)
abbrev pub is_given : Option String → Bool
is_given none = false
is_given (some String.[]) = false
is_given (some (String.◌∷◌ c s)) = true

unfoldable pub public_run : Bool → RunView → PublicRun
unfolding public_attempts
public_run include_attempts v = record {
  run_id = v.run.job_id;
  design_id = v.run.design_id;
  ip_family = v.run.ip_family;
  flow_name = v.run.flow_name;
  status = record {
    execution = v.run.status;
    parse = v.run.parse_status;
    check = v.run.check_status;
    completeness = v.run.completeness;
    semantic = v.run.semantic_status;
    provenance = v.run.provenance_status;
    trust = v.run.trust_status;
  };
  updated_at = v.run.updated_at;
  artifact_available = is_given v.run.artifact_path;
  error = v.run.error;
  attempts = if include_attempts then some (public_attempts v.attempts) else none;
}

-- The payloads that are sent.
pub data Payload : Type 0 where
  error_text : String → Payload
  submitted : Option RunView → Payload
  in_flight_budget_exhausted : ℕ → Payload
  idempotency_key_reused : Payload
  items : List PublicRun → Option String → Payload
  public : PublicRun → Payload
  job : RunView → Payload
  violations : Violations → Payload

pub record Sent : Type 0 where
  pub status : ℕ
  pub payload : Payload
  pub retry_after : Option ℕ

abbrev pub sent : ℕ → Payload → Sent
sent status payload = record { status = status; payload = payload; retry_after = none }
