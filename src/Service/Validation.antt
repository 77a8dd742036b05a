-- ===== src/Service/Validation.antt =====
-- src/eda_lab/service.py: what an execution outcome and a parse result say about a Run
-- (`_trust_status`, `_validation_fields`), and the completion that `_execute` writes for them.
use semiconductor_domain_lab.Prelude.{
  String, Bool, true, false, not, ◌&&◌, ◌||◌, Option, none, some, [], ◌∷◌, if◌then◌else◌, str_eq,
}
use semiconductor_domain_lab.Models.{
  ℤ, is_zero, Json, Dict, ParseStatus, Validity, TrustStatus, RunStatus, AttemptStatus, ParseResult,
}
use semiconductor_domain_lab.Store.Schema.{ExecutionOwner}
use semiconductor_domain_lab.Store.Runs.{RunFields, no_fields}
use semiconductor_domain_lab.Store.Attempts.{Outcome}
use semiconductor_domain_lab.Store.Finalize.{Completion}
use semiconductor_domain_lab.Service.Text.{◌++◌, join, show_ℤ}

abbrev pub is_parse_invalid : ParseStatus → Bool
is_parse_invalid ParseStatus.invalid = true
is_parse_invalid _ = false

abbrev pub is_parse_ok : ParseStatus → Bool
is_parse_ok ParseStatus.ok = true
is_parse_ok _ = false

abbrev pub is_invalid : Validity → Bool
is_invalid Validity.invalid = true
is_invalid _ = false

abbrev pub is_valid : Validity → Bool
is_valid Validity.valid = true
is_valid _ = false

-- The rest of `_trust_status`, once there is an exit code.
trust_of_exit : ParseResult → ℤ → TrustStatus
trust_of_exit result code =
    if not (is_zero code)
    then TrustStatus.invalid
    else if not (is_valid result.provenance_status)
    then TrustStatus.unknown
    else if is_parse_ok result.parse_status && is_valid result.semantic_status
    then TrustStatus.trusted
    else TrustStatus.unknown

trust_of : ParseResult → Option ℤ → TrustStatus
unfolding trust_of_exit
trust_of result none = TrustStatus.unknown
trust_of result (some code) = trust_of_exit result code

unfoldable pub trust_status : ParseResult → Option ℤ → TrustStatus
unfolding trust_of
trust_status result process_exit_code =
    if is_parse_invalid result.parse_status || is_invalid result.semantic_status
    then TrustStatus.invalid
    else trust_of result process_exit_code

-- d[key] = value
unfoldable pub insert : String → Json → Dict → Dict
insert key value [] = (key, value) ∷ []
insert key value ((k, v) ∷ d) =
    let rest = insert key value d in if str_eq k key then (k, value) ∷ d else (k, v) ∷ rest

-- {**d, **e}
unfoldable pub merge : Dict → Dict → Dict
unfolding insert
merge d [] = d
merge d ((k, v) ∷ e) = merge (insert k v d) e

abbrev pub or_empty : Option Dict → Dict
or_empty none = []
or_empty (some d) = d

abbrev pub of_exit_code : Option ℤ → Json
of_exit_code none = Json.null
of_exit_code (some code) = Json.number (record { mantissa = code; scale = 0 })

unfoldable pub validation_fields : ParseResult → Option ℤ → Option Dict → RunFields
unfolding trust_status merge
validation_fields result process_exit_code execution_provenance = record no_fields {
  parse_status = some result.parse_status;
  check_status = some result.check_status;
  completeness = some result.completeness;
  semantic_status = some result.semantic_status;
  provenance_status = some result.provenance_status;
  trust_status = some (trust_status result process_exit_code);
  provenance = some (
      insert "observed_process_exit_code" (of_exit_code process_exit_code)
        (merge (or_empty execution_provenance) (or_empty result.provenance)));
}

-- What `_execute` has in hand when the adapter has returned: the artifact, its parse, and the exit
-- code and provenance, which a bare path does not have.
pub record Collected : Type 0 where
  pub artifact : String
  pub result : ParseResult
  pub process_exit_code : Option ℤ
  pub execution_provenance : Option Dict

abbrev pub failed_outcome : String → String → Collected → Outcome
failed_outcome error_type error c = record {
  status = AttemptStatus.failed;
  error_type = some error_type;
  error = some error;
  artifact_path = some c.artifact;
  retry_class = some "non_retryable";
}

abbrev pub succeeded_outcome : Collected → Outcome
succeeded_outcome c = record {
  status = AttemptStatus.succeeded;
  error_type = none;
  error = none;
  artifact_path = some c.artifact;
  retry_class = some "not_applicable";
}

-- Which branch of `_execute` the collected result takes.
pub data Verdict : Type 0 where
  parse_invalid semantic_invalid outcome_unknown success : Verdict
  tool_exit : ℤ → Verdict

verdict_of_exit : Option ℤ → Verdict
verdict_of_exit none = Verdict.outcome_unknown
verdict_of_exit (some code) = if not (is_zero code) then Verdict.tool_exit code else Verdict.success

unfoldable pub verdict : Collected → Verdict
unfolding verdict_of_exit
verdict c =
    if is_parse_invalid c.result.parse_status
    then Verdict.parse_invalid
    else if is_invalid c.result.semantic_status
    then Verdict.semantic_invalid
    else verdict_of_exit c.process_exit_code

abbrev pub outcome_of : Verdict → Collected → Outcome
outcome_of Verdict.parse_invalid c = failed_outcome "parse_invalid" (join "; " c.result.errors) c
outcome_of Verdict.semantic_invalid c =
    failed_outcome "semantic_invalid" (join "; " c.result.errors) c
outcome_of Verdict.outcome_unknown c =
    failed_outcome "execution_outcome_unknown"
      "execution_outcome_unknown: adapter returned artifact without process exit code" c
outcome_of Verdict.success c = succeeded_outcome c
outcome_of (Verdict.tool_exit code) c =
    failed_outcome "tool_exit" ("tool_exit: exit code " ++ show_ℤ code) c

abbrev pub run_status_of : Verdict → RunStatus
run_status_of Verdict.success = RunStatus.succeeded
run_status_of _ = RunStatus.failed

-- The arguments of `_finalize_attempt_and_run`.
unfoldable pub completion_of : Option ExecutionOwner → Collected → Completion
unfolding verdict validation_fields
completion_of owner c = record {
  outcome = outcome_of (verdict c) c;
  run_status = run_status_of (verdict c);
  run_fields = validation_fields c.result c.process_exit_code c.execution_provenance;
  execution_owner = owner;
}

-- `if result.metrics:` in every branch but that of a report that does not parse.
unfoldable pub saved_metrics : Collected → Option Dict
unfolding verdict
saved_metrics c = elim (verdict c) [
  | Verdict.parse_invalid ↦ none
  | _ ↦ (elim c.result.metrics [ [] ↦ none | m ∷ ms ↦ some (m ∷ ms) ])
]
