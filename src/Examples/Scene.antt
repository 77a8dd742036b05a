-- ===== src/Examples/Scene.antt =====
-- The concrete rows that the examples run on: one design, its Run, its first Attempt with a lease
-- until 10, the host that owns it, and the request that the host's Supervisor waits for.
use semiconductor_domain_lab.Prelude.{none, some, [], ◌∷◌, arith, refl}
use semiconductor_domain_lab.Prelude.Rows.{append_unique}
use semiconductor_domain_lab.Prelude.Table.{count_rows, exists_row}
use semiconductor_domain_lab.Models.{
  pos, negsuc, RunStatus, AttemptStatus, RequestStatus, ParseStatus, CheckStatus, Completeness,
  Validity, TrustStatus, JobSpec, ParseResult,
}
use semiconductor_domain_lab.Store.Schema.{
  Run, Attempt, ExecutionOwner, ExecutionRequest, Revision, Finding, Database,
}
use semiconductor_domain_lab.Store.Runs.{no_fields}
use semiconductor_domain_lab.Store.Finalize.{Completion}
use semiconductor_domain_lab.Store.Keys.{HasKeys}
use semiconductor_domain_lab.Service.Submit.{Config, ExecutionMode}

abbrev pub spec : JobSpec
spec = record {
  job_id = "job";
  design_id = "gcd";
  ip_family = "ip";
  flow_name = "sta";
  corner = "tt";
  worst_slack = record { mantissa = pos 12; scale = 2 };
  unit = "ns";
  duration_seconds = 1;
}

abbrev pub queued_run : Run
queued_run = record {
  job_id = "job";
  design_id = "gcd";
  ip_family = "ip";
  flow_name = "sta";
  status = RunStatus.queued;
  parse_status = ParseStatus.not_started;
  check_status = CheckStatus.unknown;
  completeness = Completeness.unknown;
  semantic_status = Validity.unknown;
  provenance_status = Validity.unknown;
  trust_status = TrustStatus.unknown;
  provenance = [];
  artifact_path = none;
  error = none;
  spec_hash = some "hash";
  updated_at = 0;
}

abbrev pub run : Run
run = record queued_run { status = RunStatus.running }

abbrev pub leased : Attempt
leased = record {
  job_id = "job";
  attempt_no = 1;
  status = AttemptStatus.running;
  error_type = none;
  error = none;
  artifact_path = none;
  retry_class = some "not_classified";
  started_at = 0;
  updated_at = 0;
  lease_owner = some "worker";
  lease_token = some "lease";
  lease_expires_at = some 10;
  heartbeat_at = some 0;
  process_pid = none;
  process_started_at = none;
  process_identity = none;
  process_group_id = none;
  orphan_deadline = none;
  execution_host_id = some "host";
  execution_host_epoch = some "epoch";
  execution_host_session = some "session";
  execution_id = some "execution";
  recovery_owner = none;
  recovery_token = none;
  recovery_expires_at = none;
}

-- The same Attempt once a recovery of it is claimed, until 25.
abbrev pub recovering : Attempt
recovering = record leased {
  recovery_owner = some "recoverer";
  recovery_token = some "recovery";
  recovery_expires_at = some 25;
}

abbrev pub owner : ExecutionOwner
owner = record { host_id = "host"; host_epoch = "epoch"; session_id = "session" }

abbrev pub request : ExecutionRequest
request = record {
  execution_id = "execution";
  job_id = "job";
  attempt_no = 1;
  host_id = "host";
  status = RequestStatus.queued;
  payload = record { spec = spec; lease_token = "lease"; execution_owner = owner };
  created_at = 0;
  supervisor_id = none;
  claimed_at = none;
  process_pid = none;
  process_started_at = none;
}

abbrev pub baseline : Revision
baseline = record {
  revision_id = "old";
  design_id = "gcd";
  source_revision = "a";
  liberty_hash = "lib";
  sdc_hash = "sdc";
  tool_version = "2.6";
  parser_version = "1";
}

abbrev pub candidate : Revision
candidate = record baseline { revision_id = "new"; source_revision = "b" }

-- A path with slack -1.
abbrev pub finding : Finding
finding = record {
  revision_id = "new";
  run_id = "job";
  startpoint = "a";
  endpoint = "b";
  path_group = "clk";
  analysis_type = "max";
  corner = "tt";
  slack_ns = negsuc 0;
}

abbrev pub scene_of : Attempt → ExecutionRequest → Database
scene_of a e = record {
  runs = run ∷ [];
  metrics = [];
  attempts = a ∷ [];
  host_sessions =
      record {
        session_id = "session";
        host_id = "host";
        host_epoch = "epoch";
        heartbeat_at = 0;
        lease_expires_at = 10;
      }
      ∷ [];
  hosts =
      record {
        host_id = "host";
        current_epoch = "epoch";
        current_session_id = "session";
        updated_at = 0;
      }
      ∷ [];
  execution_requests = e ∷ [];
  execution_witnesses = [];
  revisions = baseline ∷ candidate ∷ [];
  findings = finding ∷ [];
}

abbrev pub scene : Database
scene = scene_of leased request

pub scene_of-HasKeys : (a : Attempt) (e : ExecutionRequest) → HasKeys (scene_of a e)
unfolding count_rows exists_row
scene_of-HasKeys a e = record {
  run_key = λ j. ground arith;
  attempt_key = λ j n. ground arith;
  session_key = λ s. ground arith;
  host_key = λ h. ground arith;
  request_key = λ e. ground arith;
  witness_key = λ e. ground arith;
  revision_key =
      λ r. append_unique (λ x. x.revision_id) (baseline ∷ []) candidate refl r (ground arith);
}

abbrev pub success : Completion
success = record {
  outcome = record {
    status = AttemptStatus.succeeded;
    error_type = none;
    error = none;
    artifact_path = some "report";
    retry_class = some "not_applicable";
  };
  run_status = RunStatus.succeeded;
  run_fields = no_fields;
  execution_owner = some owner;
}

abbrev pub config : Config
config = record {
  max_attempts = 2;
  worker_id = "worker";
  lease_seconds = 10;
  recovery_lease_seconds = 5;
  orphan_grace_seconds = 3;
  max_in_flight = some 1;
  execution_mode = ExecutionMode.local;
  execution_owner = some owner;
}

abbrev pub report : ParseResult
report = record {
  parse_status = ParseStatus.ok;
  check_status = CheckStatus.pass;
  metrics = [];
  errors = [];
  completeness = Completeness.complete;
  provenance = none;
  semantic_status = Validity.valid;
  provenance_status = Validity.valid;
}
