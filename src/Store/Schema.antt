-- ===== src/Store/Schema.antt =====
-- src/eda_lab/store.py, `Store.__init__`: the tables. A column that may be NULL is an `Option`,
-- a REAL time is a number of clock ticks, and a JSON column holds the value that it encodes.
use semiconductor_domain_lab.Prelude.{ℕ, String, Option, List, [], Bool, ◌==◌, ◌&&◌, str_eq}
use semiconductor_domain_lab.Models.{
  ℤ, Dict, RunStatus, AttemptStatus, RequestStatus, WitnessKind, ParseStatus, CheckStatus,
  Completeness, Validity, TrustStatus, JobSpec,
}

pub record Run : Type 0 where
  pub job_id : String
  pub design_id : String
  pub ip_family : String
  pub flow_name : String
  pub status : RunStatus
  pub parse_status : ParseStatus
  pub check_status : CheckStatus
  pub completeness : Completeness
  pub semantic_status : Validity
  pub provenance_status : Validity
  pub trust_status : TrustStatus
  pub provenance : Dict
  pub artifact_path : Option String
  pub error : Option String
  pub spec_hash : Option String
  pub updated_at : ℕ

pub record Attempt : Type 0 where
  pub job_id : String
  pub attempt_no : ℕ
  pub status : AttemptStatus
  pub error_type : Option String
  pub error : Option String
  pub artifact_path : Option String
  pub retry_class : Option String
  pub started_at : ℕ
  pub updated_at : ℕ
  pub lease_owner : Option String
  pub lease_token : Option String
  pub lease_expires_at : Option ℕ
  pub heartbeat_at : Option ℕ
  pub process_pid : Option ℕ
  pub process_started_at : Option ℕ
  pub process_identity : Option String
  pub process_group_id : Option ℕ
  pub orphan_deadline : Option ℕ
  pub execution_host_id : Option String
  pub execution_host_epoch : Option String
  pub execution_host_session : Option String
  pub execution_id : Option String
  pub recovery_owner : Option String
  pub recovery_token : Option String
  pub recovery_expires_at : Option ℕ

pub record HostSession : Type 0 where
  pub session_id : String
  pub host_id : String
  pub host_epoch : String
  pub heartbeat_at : ℕ
  pub lease_expires_at : ℕ

pub record Host : Type 0 where
  pub host_id : String
  pub current_epoch : String
  pub current_session_id : String
  pub updated_at : ℕ

-- `ExecutionOwner.as_dict` of src/eda_lab/host_agent.py
pub record ExecutionOwner : Type 0 where
  pub host_id : String
  pub host_epoch : String
  pub session_id : String

-- The payload that `JobService._execute` enqueues.
pub record RequestPayload : Type 0 where
  pub spec : JobSpec
  pub lease_token : String
  pub execution_owner : ExecutionOwner

pub record ExecutionRequest : Type 0 where
  pub execution_id : String
  pub job_id : String
  pub attempt_no : ℕ
  pub host_id : String
  pub status : RequestStatus
  pub payload : RequestPayload
  pub created_at : ℕ
  pub supervisor_id : Option String
  pub claimed_at : Option ℕ
  pub process_pid : Option ℕ
  pub process_started_at : Option ℕ

pub record ExecutionWitness : Type 0 where
  pub execution_id : String
  pub kind : WitnessKind
  pub observed_at : ℕ
  pub process_exit_code : Option ℤ
  pub artifact_path : Option String
  pub detail : String

pub record Metrics : Type 0 where
  pub job_id : String
  pub payload : Dict

pub record Revision : Type 0 where
  pub revision_id : String
  pub design_id : String
  pub source_revision : String
  pub liberty_hash : String
  pub sdc_hash : String
  pub tool_version : String
  pub parser_version : String

-- `slack_ns` is a whole number of the report's smallest unit.
pub record Finding : Type 0 where
  pub revision_id : String
  pub run_id : String
  pub startpoint : String
  pub endpoint : String
  pub path_group : String
  pub analysis_type : String
  pub corner : String
  pub slack_ns : ℤ

-- The database: what every connection sees once a transaction has committed.
pub record Database : Type 0 where
  pub runs : List Run
  pub metrics : List Metrics
  pub attempts : List Attempt
  pub host_sessions : List HostSession
  pub hosts : List Host
  pub execution_requests : List ExecutionRequest
  pub execution_witnesses : List ExecutionWitness
  pub revisions : List Revision
  pub findings : List Finding

abbrev pub empty : Database
empty = record {
  runs = [];
  metrics = [];
  attempts = [];
  host_sessions = [];
  hosts = [];
  execution_requests = [];
  execution_witnesses = [];
  revisions = [];
  findings = [];
}

-- The primary keys, as WHERE clauses name them.
abbrev pub is_run : String → Run → Bool
is_run job_id r = str_eq r.job_id job_id

abbrev pub is_attempt : String → ℕ → Attempt → Bool
is_attempt job_id attempt_no a = str_eq a.job_id job_id && a.attempt_no == attempt_no

abbrev pub is_session : String → HostSession → Bool
is_session session_id s = str_eq s.session_id session_id

abbrev pub is_host : String → Host → Bool
is_host host_id h = str_eq h.host_id host_id

abbrev pub is_request : String → ExecutionRequest → Bool
is_request execution_id e = str_eq e.execution_id execution_id

abbrev pub is_witness : String → ExecutionWitness → Bool
is_witness execution_id w = str_eq w.execution_id execution_id

abbrev pub is_revision : String → Revision → Bool
is_revision revision_id r = str_eq r.revision_id revision_id
