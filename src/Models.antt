-- ===== src/Models.antt =====
-- src/eda_lab/models.py, and the words that the columns and results of the other modules hold:
-- what the source writes as a fixed set of strings is a data type.
use semiconductor_domain_lab.Prelude.{ℕ, String, Option, List, Bool, true, false}

-- `negsuc n` is -(n + 1): exit codes of a signalled child are negative.
pub data ℤ : Type 0 where
  pos : ℕ → ℤ
  negsuc : ℕ → ℤ

abbrev pub is_zero : ℤ → Bool
is_zero (pos ℕ.zero) = true
is_zero _ = false

abbrev pub is_negative : ℤ → Bool
is_negative (pos n) = false
is_negative (negsuc n) = true

-- A decimal number, mantissa / 10 ^ scale.
pub record Decimal : Type 0 where
  pub mantissa : ℤ
  pub scale : ℕ

-- The JSON values that `metrics` and `provenance` hold.
pub data Json : Type 0 where
  null : Json
  text : String → Json
  number : Decimal → Json

abbrev pub Dict : Type 0
Dict = List (String × Json)

pub data RunStatus : Type 0 where
  queued running succeeded failed cancelled timed_out : RunStatus

pub data AttemptStatus : Type 0 where
  running succeeded failed cancelled retryable_failure abandoned : AttemptStatus

pub data RequestStatus : Type 0 where
  queued claimed running completed unavailable : RequestStatus

pub data WitnessKind : Type 0 where
  process_exited runtime_terminated : WitnessKind

pub data ParseStatus : Type 0 where
  not_started ok invalid : ParseStatus

pub data CheckStatus : Type 0 where
  unknown pass fail : CheckStatus

pub data Completeness : Type 0 where
  unknown incomplete complete : Completeness

-- `semantic_status` and `provenance_status`
pub data Validity : Type 0 where
  unknown valid invalid : Validity

pub data TrustStatus : Type 0 where
  unknown invalid trusted : TrustStatus

-- `worst_slack` is a decimal, `duration_seconds` a number of clock ticks.
pub record JobSpec : Type 0 where
  pub job_id : String
  pub design_id : String
  pub ip_family : String
  pub flow_name : String
  pub corner : String
  pub worst_slack : Decimal
  pub unit : String
  pub duration_seconds : ℕ

pub record ParseResult : Type 0 where
  pub parse_status : ParseStatus
  pub check_status : CheckStatus
  pub metrics : Dict
  pub errors : List String
  pub completeness : Completeness
  pub provenance : Option Dict
  pub semantic_status : Validity
  pub provenance_status : Validity

-- Adapter-observed execution outcome and its emitted artifact.
pub record AdapterRunResult : Type 0 where
  pub artifact_path : String
  pub process_exit_code : Option ℤ
  pub execution_provenance : Option Dict
