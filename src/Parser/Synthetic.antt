-- ===== src/Parser/Synthetic.antt =====
-- src/eda_lab/parser.py: `_parse_synthetic` and `_synthetic_finish`.
use semiconductor_domain_lab.Prelude.{
  ℕ, suc, ◌+◌, String, Bool, true, false, not, Option, none, some, List, [], ◌∷◌, ◌++◌,
  if◌then◌else◌, ◌==◌, str_eq,
}
use semiconductor_domain_lab.Prelude.Text.{◌<>◌, split_lines, strip, starts_with, split_once}
use semiconductor_domain_lab.Models.{
  ℤ, is_zero, is_negative, Decimal, Json, Dict, ParseStatus, CheckStatus, Completeness, Validity,
  ParseResult,
}
use semiconductor_domain_lab.Service.Text.{show_ℕ}
use semiconductor_domain_lab.Parser.Numbers.{SlackUnit, read_slack, read_int, is_finite}
use semiconductor_domain_lab.Parser.Provenance.{provenance, invalid}

abbrev pub synthetic_marker : String
synthetic_marker = "SYNTHETIC / NOT GENERATED BY AN EDA TOOL"

abbrev pub synthetic_required : List String
synthetic_required =
    "fixture_format_version" ∷ "run_id" ∷ "stage" ∷ "corner" ∷ "tool_exit_code" ∷ "worst_slack" ∷ []

-- A dict of texts.
abbrev pub Values : Type 0
Values = List (String × String)

unfoldable pub lookup : String → Values → Option String
lookup key [] = none
lookup key ((k, v) ∷ values) = let rest = lookup key values in if str_eq k key then some v else rest

-- values[key] = value
unfoldable pub set_value : String → String → Values → Values
set_value key value [] = (key, value) ∷ []
set_value key value ((k, v) ∷ values) =
    let rest = set_value key value values in
    if str_eq k key then (k, value) ∷ values else (k, v) ∷ rest

abbrev pub is_some {ℓ} : {A : Type ℓ} → Option A → Bool
is_some none = false
is_some (some a) = true

unfoldable pub add_field : ℕ → String → String → Values × List String → Values × List String
unfolding lookup set_value
add_field line_count key value (values, errors) = (
  set_value key value values,
  if is_some (lookup key values)
      then errors ++ ("duplicate field " <> (key <> (" at line " <> show_ℕ line_count))) ∷ []
      else errors,
)

unfoldable pub take_field :
    ℕ → Option (String × String) → Values × List String → Values × List String
unfolding add_field
take_field line_count none state = state
take_field line_count (some (key, value)) state =
    add_field line_count (strip key) (strip value) state

-- One round of the loop over the lines.
unfoldable pub read_line : ℕ → String → Values × List String → Values × List String
unfolding take_field
read_line line_count line state =
    if starts_with line synthetic_marker
    then state
    else take_field line_count (split_once line) state

unfoldable pub read_lines : ℕ → List String → Values × List String → Values × List String
unfolding read_line
read_lines line_count [] state = state
read_lines line_count (line ∷ lines) state =
    read_lines (suc line_count) lines (read_line line_count line state)

unfoldable pub missing_fields : List String → Values → List String
unfolding lookup
missing_fields [] values = []
missing_fields (key ∷ keys) values =
    let rest = missing_fields keys values in
    if is_some (lookup key values) then rest else ("missing field " <> key) ∷ rest

-- values[key], of a key that is there
abbrev pub get : String → Values → String
get key values = elim (lookup key values) [ none ↦ "" | some v ↦ v ]

-- What the `try` block leaves, or the text of its ValueError.
pub data Checked {ℓ} (A : Type ℓ) : Type ℓ where
  checked : A → Checked A
  value_error : String → Checked A

pub record Fields : Type 0 where
  pub version : ℤ
  pub exit_code : ℤ
  pub numeric : Decimal
  pub unit : SlackUnit

-- The message has Python's `repr` of the text, here that of a text without quotes and escapes.
abbrev invalid_int {ℓ} : {A : Type ℓ} → String → Checked A
invalid_int s = Checked.value_error ("invalid literal for int() with base 10: '" <> (s <> "'"))

abbrev is_one : ℤ → Bool
is_one (ℤ.pos n) = n == 1
is_one (ℤ.negsuc n) = false

unfoldable pub check_slack : ℤ → ℤ → Option (Decimal × SlackUnit) → Checked Fields
check_slack version exit_code none = Checked.value_error "unsupported slack format or unit"
check_slack version exit_code (some (numeric, unit)) =
    if not (is_finite numeric)
    then Checked.value_error "non-finite slack"
    else Checked.checked
        (record { version = version; exit_code = exit_code; numeric = numeric; unit = unit })

unfoldable pub check_exit : ℤ → String → String → Option ℤ → Checked Fields
unfolding check_slack
check_exit version text slack none = invalid_int text
check_exit version text slack (some exit_code) = check_slack version exit_code (read_slack slack)

unfoldable pub check_version : String → Values → Option ℤ → Checked Fields
unfolding check_exit lookup
check_version text values none = invalid_int text
check_version text values (some version) =
    if not (is_one version)
    then Checked.value_error "unsupported fixture version"
    else check_exit version (get "tool_exit_code" values) (get "worst_slack" values)
        (read_int (get "tool_exit_code" values))

unfoldable pub check_fields : Values → Checked Fields
unfolding check_version lookup
check_fields values =
    check_version (get "fixture_format_version" values) values
      (read_int (get "fixture_format_version" values))

-- numeric if unit == "ns" else numeric / 1000.0
abbrev pub in_ns : Decimal → SlackUnit → Decimal
in_ns d SlackUnit.ns = d
in_ns d SlackUnit.ps = record d { scale = d.scale + 3 }

abbrev pub unit_text : SlackUnit → String
unit_text SlackUnit.ns = "ns"
unit_text SlackUnit.ps = "ps"

abbrev pub of_int : ℤ → Json
of_int n = Json.number (record { mantissa = n; scale = 0 })

abbrev pub parser_name : String
parser_name = "eda_lab.synthetic:v1"

unfoldable pub synthetic_metrics : Values → String → Fields → Dict
unfolding lookup
synthetic_metrics values source_sha256 f =
    ("source_kind", Json.text "synthetic")
    ∷ ("fixture_format_version", of_int f.version)
    ∷ ("run_id", Json.text (get "run_id" values))
    ∷ ("stage", Json.text (get "stage" values))
    ∷ ("corner", Json.text (get "corner" values))
    ∷ ("tool_exit_code", of_int f.exit_code)
    ∷ ("worst_slack_ns", Json.number (in_ns f.numeric f.unit))
    ∷ ("original_value", Json.number f.numeric)
    ∷ ("original_unit", Json.text (unit_text f.unit))
    ∷ ("source_sha256", Json.text source_sha256)
    ∷ ("job_status", Json.text (if is_zero f.exit_code then "SUCCEEDED" else "FAILED"))
    ∷ []

unfoldable pub check_of : Decimal → CheckStatus
check_of slack = if is_negative slack.mantissa then CheckStatus.fail else CheckStatus.pass

unfoldable pub finish_checked : Values → String → Checked Fields → ParseResult
unfolding synthetic_metrics check_of provenance lookup
finish_checked values source_sha256 (Checked.value_error message) =
    invalid (message ∷ []) "synthetic" source_sha256 parser_name
finish_checked values source_sha256 (Checked.checked f) = record {
  parse_status = ParseStatus.ok;
  check_status = check_of (in_ns f.numeric f.unit);
  metrics = synthetic_metrics values source_sha256 f;
  errors = [];
  completeness = Completeness.complete;
  provenance = some (
      provenance "synthetic" source_sha256 parser_name (
        ("tool_exit_code", of_int f.exit_code)
        ∷ ("flow_name", Json.text (get "stage" values))
        ∷ ("corner", Json.text (get "corner" values))
        ∷ ("run_id", Json.text (get "run_id" values))
        ∷ []));
  semantic_status = Validity.valid;
  provenance_status = Validity.valid;
}

unfoldable pub finish_fields : Values → List String → String → ParseResult
unfolding finish_checked
finish_fields values [] source_sha256 = finish_checked values source_sha256 (check_fields values)
finish_fields values (e ∷ errors) source_sha256 =
    invalid (e ∷ errors) "synthetic" source_sha256 parser_name

-- The parameter `errors` is a list that the source extends in place.
unfoldable pub synthetic_finish : Values → List String → String → ParseResult
unfolding finish_fields
synthetic_finish values errors source_sha256 =
    finish_fields values (errors ++ missing_fields synthetic_required values) source_sha256

unfoldable pub parse_synthetic : String → String → ParseResult
unfolding synthetic_finish
parse_synthetic text source_sha256 =
    let (values, errors) = read_lines 1 (split_lines text) ([], []) in
    synthetic_finish values errors source_sha256
