-- ===== src/Runner/Synthetic.antt =====
-- src/eda_lab/runner.py: `SyntheticTimingAdapter`. The text of a float in an f-string is a parameter,
-- and so is the directory that `mkdtemp` makes; the sleeps are left out.
use semiconductor_domain_lab.Prelude.{
  ℕ, ◌-◌, String, none, some, List, [], ◌∷◌, if◌then◌else◌, ltb, str_eq,
}
use semiconductor_domain_lab.Prelude.Text.{◌<>◌, starts_with, join_newline, size, repeat}
use semiconductor_domain_lab.Models.{pos, Decimal, JobSpec, AdapterRunResult}
use semiconductor_domain_lab.Runner.{AdapterError}

-- The report that is written, with what `run` returns, or the exception that it raises.
pub data Ran : Type 0 where
  returned : String → AdapterRunResult → Ran
  raised : AdapterError → Ran

-- The lines of the list before its last one.
abbrev pub first_fields : JobSpec → List String
first_fields spec =
    "SYNTHETIC / NOT GENERATED BY AN EDA TOOL"
    ∷ "fixture_source=synthetic"
    ∷ "fixture_format_version=1"
    ∷ ("run_id=" <> spec.job_id)
    ∷ "stage=timing"
    ∷ ("corner=" <> spec.corner)
    ∷ "tool_exit_code=0"
    ∷ []

-- lines + [line]
unfoldable pub with_last : List String → String → List String
with_last [] line = line ∷ []
with_last (l ∷ lines) line = l ∷ with_last lines line

unfoldable pub synthetic_fields : (Decimal → String) → JobSpec → List String
unfolding with_last ◌<>◌
synthetic_fields show spec =
    with_last (first_fields spec) ("worst_slack=" <> (show spec.worst_slack <> (" " <> spec.unit)))

-- [line for line in fields if not line.startswith(prefix)]
unfoldable pub without_prefix : String → List String → List String
unfolding starts_with
without_prefix prefix [] = []
without_prefix prefix (line ∷ lines) =
    let rest = without_prefix prefix lines in if starts_with line prefix then rest else line ∷ rest

-- fields[-1] = line
unfoldable pub set_last : List String → String → List String
set_last [] line = []
set_last (l ∷ []) line = line ∷ []
set_last (l ∷ k ∷ lines) line = l ∷ set_last (k ∷ lines) line

abbrev pub padding_line : String
padding_line = "# synthetic artifact padding\n"

unfoldable pub padding : ℕ → String → String
unfolding ◌<>◌ repeat size
padding artifact_bytes payload =
    if ltb (size payload) artifact_bytes
    then padding_line <> repeat "x" (artifact_bytes - size payload)
    else ""

unfoldable pub write_report : ℕ → String → List String → Ran
unfolding padding join_newline ◌<>◌
write_report artifact_bytes directory fields =
    let payload = join_newline fields <> "\n" in
    Ran.returned (payload <> padding artifact_bytes payload) (record {
      artifact_path = directory <> "/timing.report";
      process_exit_code = some (pos 0);
      execution_provenance = none;
    })

unfoldable pub run_synthetic : (Decimal → String) → String → ℕ → String → JobSpec → Ran
unfolding write_report synthetic_fields without_prefix set_last
run_synthetic show profile artifact_bytes directory spec =
    let fields = synthetic_fields show spec in
    if str_eq profile "timeout"
    then Ran.raised (AdapterError.timeout_error "synthetic adapter timeout")
    else if str_eq profile "communication_error"
    then Ran.raised (AdapterError.connection_error "synthetic transport failure")
    else if str_eq profile "missing_worst_slack"
    then write_report artifact_bytes directory (without_prefix "worst_slack=" fields)
    else if str_eq profile "malformed_unit"
    then write_report artifact_bytes directory
        (set_last fields ("worst_slack=" <> (show spec.worst_slack <> " cycles")))
    else if str_eq profile "normal"
    then write_report artifact_bytes directory fields
    else Ran.raised (AdapterError.value_error ("unknown synthetic fixture profile: " <> profile))
