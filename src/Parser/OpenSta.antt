-- ===== src/Parser/OpenSta.antt =====
-- src/eda_lab/parser.py: `_parse_opensta_setup_max`. What the regular expressions find in the text is
-- a `Scan`: for each pattern the matches in order, each with its groups, a group of NUMBER being the
-- decimal that `float` reads. The arithmetic of floats is a parameter, and so is the scan.
pub mod Found
use Prim.Native.Nat.{◌^◌}
use semiconductor_domain_lab.Prelude.{
  ℕ, zero, suc, ◌+◌, ◌*◌, ◌-◌, String, Bool, true, false, not, ◌&&◌, ◌||◌, Option, none, some, List,
  [], ◌∷◌, ◌++◌, if◌then◌else◌, ◌==◌, ltb, str_eq, length,
}
use semiconductor_domain_lab.Prelude.Text.{◌<>◌, starts_with}
use semiconductor_domain_lab.Models.{
  ℤ, is_negative, Decimal, Json, Dict, ParseStatus, CheckStatus, Completeness, Validity,
  ParseResult,
}
use semiconductor_domain_lab.Service.Text.{show_ℕ}
use semiconductor_domain_lab.Parser.Numbers.{is_finite}
use semiconductor_domain_lab.Parser.Provenance.{provenance, invalid}

abbrev pub opensta_completion_marker : String
opensta_completion_marker = "EDA_LAB_REPORT_END"

-- The groups of the setup summary; `met` is whether the label is MET, and not VIOLATED.
pub record Summary : Type 0 where
  pub required : Decimal
  pub signed_arrival : Decimal
  pub slack : Decimal
  pub met : Bool

pub record Scan : Type 0 where
  pub banners : List (String × String)
  pub error_diagnostic : Bool
  pub units : List String
  pub startpoints : List String
  pub endpoints : List String
  pub path_groups : List String
  pub path_types : List String
  pub summaries : List Summary
  pub worsts : List Decimal
  pub arrivals : List Decimal

-- text.count(marker); the marker does not overlap itself.
unfoldable pub count_text : String → String → ℕ
count_text marker String.[] = 0
count_text marker (String.◌∷◌ c s) =
    let rest = count_text marker s in if starts_with (String.◌∷◌ c s) marker then suc rest else rest

-- What is found, with the errors so far.
unfoldable pub single_match {ℓ} :
    {A : Type ℓ} → List A → String → List String → Option A × List String
single_match (a ∷ []) field errors = (some a, errors)
single_match found field errors = (
  none,
  errors ++ ("expected exactly one " <> (field <> (", found " <> show_ℕ (length found)))) ∷ [],
)

abbrev pub note : Bool → String → List String → List String
note true message errors = errors ++ message ∷ []
note false message errors = errors

unfoldable pub note_version : Option (String × String) → List String → List String
note_version none errors = errors
note_version (some (version, revision)) errors =
    note (not (str_eq version "3.1.0")) ("unsupported OpenSTA version " <> version) errors

unfoldable pub note_unit : Option String → List String → List String
note_unit none errors = errors
note_unit (some unit) errors =
    note (not (str_eq unit "1ns")) ("unsupported time unit " <> unit) errors

-- Everything that the report is built from.
pub record Matched : Type 0 where
  pub tool_version : String
  pub tool_revision : String
  pub startpoint : String
  pub endpoint : String
  pub path_group : String
  pub path_type : String
  pub summary : Summary
  pub worst_slack : Decimal
  pub arrival : Decimal

infixl 5 ◌>>=◌
abbrev ◌>>=◌ {ℓ κ} : {A : Type ℓ} {B : Type κ} → Option A → (A → Option B) → Option B
none >>= f = none
some a >>= f = f a

abbrev pub first {ℓ} : {A : Type ℓ} → List A → Option A
first [] = none
first (a ∷ rest) = some a

abbrev pub matched_of :
    Option (String × String)
    → Option String
    → Option String
    → Option String
    → Option String
    → Option Summary
    → Option Decimal
    → List Decimal
    → Option Matched
matched_of banner startpoint endpoint path_group path_type summary worst arrivals = do
  (tool_version, tool_revision) ← banner
  s ← startpoint
  e ← endpoint
  g ← path_group
  t ← path_type
  m ← summary
  w ← worst
  a ← first arrivals
  some (record {
    tool_version = tool_version;
    tool_revision = tool_revision;
    startpoint = s;
    endpoint = e;
    path_group = g;
    path_type = t;
    summary = m;
    worst_slack = w;
    arrival = a;
  })

-- The part of the function before its first `if errors`.
unfoldable pub scan_errors : String → Scan → Option Matched × List String
unfolding single_match note_version note_unit count_text
scan_errors text s =
    let (banner, e₁) = single_match s.banners "OpenSTA banner" [] in
    let e₂ = note_version banner e₁ in
    let e₃ =
      note (not (count_text opensta_completion_marker text == 1))
        "missing or duplicate OpenSTA completion marker" e₂ in
    let e₄ = note s.error_diagnostic "OpenSTA error diagnostic present" e₃ in
    let (unit, e₅) = single_match s.units "time unit" e₄ in
    let e₆ = note_unit unit e₅ in
    let (startpoint, e₇) = single_match s.startpoints "startpoint" e₆ in
    let (endpoint, e₈) = single_match s.endpoints "endpoint" e₇ in
    let (path_group, e₉) = single_match s.path_groups "path group" e₈ in
    let (path_type, f₁) = single_match s.path_types "path type" e₉ in
    let (summary, f₂) = single_match s.summaries "OpenSTA setup summary" f₁ in
    let (worst, f₃) = single_match s.worsts "worst slack" f₂ in
    let f₄ =
      note (not (length s.arrivals == 2))
        ("expected exactly two data arrival summaries, found " <> show_ℕ (length s.arrivals)) f₃ in
    (matched_of banner startpoint endpoint path_group path_type summary worst s.arrivals, f₄)

-- What the parser uses of `re` and of floating point: `float` of a decimal text, the operators `+`,
-- `-` and `>`, and `abs`.
pub record Library : Type 1 where
  pub scan : String → Scan
  pub Float : Type 0
  pub float : Decimal → Float
  pub plus : Float → Float → Float
  pub minus : Float → Float → Float
  pub abs : Float → Float
  pub above : Float → Float → Bool

module _ (lib : Library) where
  abbrev zero_float : lib.Float
  zero_float = lib.float (record { mantissa = ℤ.pos 0; scale = 0 })

  -- slack < 0
  abbrev pub is_below_zero : Decimal → Bool
  is_below_zero d = lib.above zero_float (lib.float d)

  -- 0.000002
  abbrev pub two_millionths : Decimal
  two_millionths = record { mantissa = ℤ.pos 2; scale = 6 }

  -- 0.0000005
  abbrev pub half_a_millionth : Decimal
  half_a_millionth = record { mantissa = ℤ.pos 5; scale = 7 }

  -- abs(x) > limit
  abbrev pub exceeds : lib.Float → Decimal → Bool
  exceeds x limit = lib.above (lib.abs x) (lib.float limit)

  -- `slack_ns >= 0` is the negation of `slack_ns < 0`, since every value is finite here.
  unfoldable pub semantic_errors : Matched → List String
  semantic_errors m =
      let required = lib.float m.summary.required in
      let signed_arrival = lib.float m.summary.signed_arrival in
      let slack = lib.float m.summary.slack in
      let e₁ =
        note (not (str_eq m.path_type "max"))
          ("OpenSTA path type " <> (m.path_type <> " does not match setup/max profile")) [] in
      let e₂ =
        note (exceeds (lib.minus (lib.plus required signed_arrival) slack) two_millionths)
          "OpenSTA setup arithmetic mismatch" e₁ in
      let e₃ =
        note (exceeds (lib.plus signed_arrival (lib.float m.arrival)) two_millionths)
          "OpenSTA arrival summary mismatch" e₂ in
      let e₄ =
        note (exceeds (lib.minus (lib.float m.worst_slack) slack) half_a_millionth)
          "reported path slack differs from worst slack" e₃ in
      note
        (if m.summary.met
          then is_below_zero m.summary.slack
          else not (is_below_zero m.summary.slack))
        "OpenSTA slack label contradicts slack sign" e₄

abbrev pub all_finite : Matched → Bool
all_finite m =
    is_finite m.summary.required
    && is_finite m.summary.signed_arrival
    && is_finite m.arrival
    && is_finite m.summary.slack
    && is_finite m.worst_slack

abbrev pub opensta_parser : String
opensta_parser = "eda_lab.opensta_setup_max:v1"

unfoldable pub opensta_metrics : Matched → String → Dict
opensta_metrics m source_sha256 =
    ("source_kind", Json.text "tool_generated")
    ∷ ("tool_name", Json.text "OpenSTA")
    ∷ ("tool_version", Json.text m.tool_version)
    ∷ ("tool_revision", Json.text m.tool_revision)
    ∷ ("analysis_type", Json.text "setup_max")
    ∷ ("analysis_scope", Json.text "single_reported_path_group")
    ∷ ("startpoint", Json.text m.startpoint)
    ∷ ("endpoint", Json.text m.endpoint)
    ∷ ("path_group", Json.text m.path_group)
    ∷ ("arrival_time_ns", Json.number m.arrival)
    ∷ ("required_time_ns", Json.number m.summary.required)
    ∷ ("reported_path_slack_ns", Json.number m.summary.slack)
    ∷ ("worst_slack_ns", Json.number m.worst_slack)
    ∷ ("original_unit", Json.text "ns")
    ∷ ("source_sha256", Json.text source_sha256)
    ∷ []

unfoldable pub opensta_provenance : Matched → String → Dict
unfolding provenance
opensta_provenance m source_sha256 = provenance "tool_generated" source_sha256 opensta_parser (
    ("tool_name", Json.text "OpenSTA")
    ∷ ("tool_version", Json.text m.tool_version)
    ∷ ("tool_revision", Json.text m.tool_revision)
    ∷ ("analysis_type", Json.text "setup_max")
    ∷ ("report_profile", Json.text "opensta-3.1.0-single-path-setup-max-v1")
    ∷ [])

-- The result for the semantic errors that were found.
unfoldable pub judged : Matched → String → List String → ParseResult
judged m source_sha256 [] = record {
  parse_status = ParseStatus.ok;
  check_status = if m.summary.met then CheckStatus.pass else CheckStatus.fail;
  metrics = opensta_metrics m source_sha256;
  errors = [];
  completeness = Completeness.complete;
  provenance = some (opensta_provenance m source_sha256);
  semantic_status = Validity.valid;
  provenance_status = Validity.valid;
}
judged m source_sha256 (e ∷ errors) = record {
  parse_status = ParseStatus.ok;
  check_status = CheckStatus.unknown;
  metrics = opensta_metrics m source_sha256;
  errors = e ∷ errors;
  completeness = Completeness.complete;
  provenance = some (opensta_provenance m source_sha256);
  semantic_status = Validity.invalid;
  provenance_status = Validity.valid;
}

unfoldable pub report_of : Library → Matched → String → ParseResult
unfolding judged semantic_errors
report_of lib m source_sha256 =
    if not (all_finite m)
    then invalid ("non-finite OpenSTA timing value" ∷ []) "tool_generated" source_sha256
        opensta_parser
    else judged m source_sha256 (semantic_errors lib m)

-- Without errors everything has been matched.
unfoldable pub scanned : Library → String → Option Matched → List String → ParseResult
unfolding report_of
scanned lib source_sha256 (some m) [] = report_of lib m source_sha256
scanned lib source_sha256 _ errors = invalid errors "tool_generated" source_sha256 opensta_parser

unfoldable pub parse_opensta_setup_max : Library → String → String → ParseResult
unfolding scanned scan_errors
parse_opensta_setup_max lib text source_sha256 =
    let (m, errors) = scan_errors text (lib.scan text) in scanned lib source_sha256 m errors
